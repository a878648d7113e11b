-- ===== src/SetupToken/Registry.antt =====
-- What the setup tokens promise: a registry that knows which identifiers were issued and which token
-- of a user is active, and the table as an implementation of it.
use monica_companion.Base.{
  ℕ, ◌≡◌, ◌∙◌, refl, sym, ap, inl, inr, Bool, true, false, not, ◌&&◌, ◌||◌, Option, none, some,
  List, [], ◌∷◌, String, str_eq, arith, if◌then◌else◌, Bool-cases, Option-cases, text-cases, ltb,
  leb, keep, some_of, str_eq-ne, str_eq_self,
}
use monica_companion.Sql.{row, update_where, row-update_where}
use monica_companion.SetupToken.{
  Status, active, superseded, consumed, cancelled, invalidated, Token, World, id_of, is_active,
  active_for, invalidating, new_token, issue_token, usable, use_token, consume_seen, consume_after,
  cancelling, cancel_token, Op, issues, consumes, cancels, step, run,
}
use monica_companion.SetupToken.Laws.{used}
use monica_companion.SetupToken.Active.{keep-invalidating}

pub record Registry : Type 0 where
  pub knows : String → Bool
  pub holder : String → Option Token

-- A look that found the token active and, by the application's clock, not expired.
abbrev pub looks_good : Option Token → ℕ → Bool
looks_good none clock = false
looks_good (some t) clock = is_active t.status && ltb clock t.expires_at

-- The active token of a user, unless it is the one that is used up.
abbrev pub left_by : String → ℕ → Option Token → Option Token
left_by id now none = none
left_by id now (some t) = if str_eq t.id id && ltb now t.expires_at then none else some t

-- Issuing a new identifier replaces the active token of the user, and issuing a known one fails;
-- consuming takes away the token with the identifier; cancelling takes away the user's.
abbrev pub promised : Op → Registry → Registry
promised (issues id u at expires clock) g = if g.knows id then g else record {
  knows = (λ j. str_eq id j || g.knows j);
  holder = (λ v. if str_eq u v then some (new_token id u at expires) else g.holder v);
}
promised (consumes seen id clock now) g =
    if looks_good seen clock then record g { holder = (λ v. left_by id now (g.holder v)) } else g
promised (cancels u clock) g = record g { holder = (λ v. if str_eq u v then none else g.holder v) }

abbrev pub promised_by : List Op → Registry → Registry
promised_by [] g = g
promised_by (o ∷ os) g = promised_by os (promised o g)

abbrev pub is_some : Option Token → Bool
is_some none = false
is_some (some t) = true

abbrev pub listed : Option Token → List Token
listed none = []
listed (some t) = t ∷ []

-- The table has the identifiers that the registry knows, and its active tokens.
abbrev pub Shows : Registry → List Token → Type 0
Shows g ts =
    ((j : String) → is_some (row id_of j ts) ≡ g.knows j)
    × ((v : String) → keep (active_for v) ts ≡ listed (g.holder v))

-- An update that keeps identifiers keeps the known ones.
update-knows :
    (p : Token → Bool) (f : Token → Token) (j : String) (ts : List Token)
    → ((t : Token) → (f t).id ≡ t.id)
    → is_some (row id_of j (update_where p f ts)) ≡ is_some (row id_of j ts)
unfolding update_where
update-knows p f j [] same = refl
update-knows p f j (t ∷ ts) same = ground (arith, same t, update-knows p f j ts same)

-- The active tokens that a consumption leaves.
keep-used :
    (v id : String) (clock now : ℕ) (ts : List Token)
    → keep (active_for v) (update_where (usable id now) (used clock) ts)
      ≡ keep (λ t. not (str_eq t.id id && ltb now t.expires_at)) (keep (active_for v) ts)
unfolding update_where
keep-used v id clock now [] = refl
keep-used v id clock now (t ∷ ts) = ground (arith, keep-used v id clock now ts)

keep-listed :
    (id : String) (now : ℕ) (o : Option Token)
    → keep (λ t. not (str_eq t.id id && ltb now t.expires_at)) (listed o)
      ≡ listed (left_by id now o)
keep-listed id now none = refl
keep-listed id now (some t) = ground arith

-- With nothing usable an update changes nothing.
update_where-none :
    (p : Token → Bool) (f : Token → Token) (ts : List Token)
    → some_of p ts ≡ false
    → update_where p f ts ≡ ts
unfolding update_where
update_where-none p f [] h = refl
update_where-none p f (t ∷ ts) h = ground (arith, update_where-none p f ts)

issued_tokens :
    (id u at : String) (expires clock : ℕ) (w : World)
    → (issue_token id u at expires clock w).1.tokens ≡ (
        if is_some (row id_of id w.tokens)
        then w.tokens
        else new_token id u at expires
          ∷ update_where (active_for u) (invalidating superseded clock) w.tokens)
unfolding issue_token
issued_tokens id u at expires clock w =
    let free = keep-invalidating u u superseded clock w.tokens refl in
    let known =
      row-update_where id_of (active_for u) (invalidating superseded clock) id w.tokens
        (λ t. refl) in
    elim (Option-cases (row id_of id w.tokens)) [
      | inl gone ↦ ground (arith, free, known, gone, str_eq_self u)
      | inr (x, found) ↦ ground (arith, free, known, found, str_eq_self u)
    ]

use-tokens :
    (seen : Token) (id : String) (clock now : ℕ) (w : World)
    → (use_token seen id clock now w).1.tokens ≡ update_where (usable id now) (used clock) w.tokens
use-tokens seen id clock now w = elim (Bool-cases (some_of (usable id now) w.tokens)) [
  | inl e ↦ rw e refl
  | inr e ↦ rw e (sym (update_where-none (usable id now) (used clock) w.tokens e))
]

consumed_tokens :
    (seen : Option Token) (id : String) (clock now : ℕ) (w : World)
    → (consume_after seen id clock now w).1.tokens ≡ (
        if looks_good seen clock
        then update_where (usable id now) (used clock) w.tokens
        else w.tokens)
unfolding consume_after
consumed_tokens none id clock now w = refl
consumed_tokens (some t) id clock now w = go t.status
  where
    go :
        (s : Status)
        → (consume_seen s t id clock now w).1.tokens ≡ (
            if is_active s && ltb clock t.expires_at
            then update_where (usable id now) (used clock) w.tokens
            else w.tokens)
    go consumed = refl
    go superseded = refl
    go cancelled = refl
    go invalidated = refl
    go active = elim (Bool-cases (leb t.expires_at clock)) [
      | inl e ↦ let late : ltb clock t.expires_at ≡ false = ground (arith, e) in rw (e, late) refl
      | inr e ↦
          let early : ltb clock t.expires_at ≡ true = ground (arith, e) in
          rw (e, early) (use-tokens t id clock now w)
    ]

cancelled_tokens :
    (u : String) (clock : ℕ) (w : World) (v : String)
    → keep (active_for v) (cancel_token u clock w).1.tokens
      ≡ (if str_eq u v then [] else keep (active_for v) w.tokens)
unfolding cancel_token
cancelled_tokens u clock w v = go (keep (active_for u) w.tokens) refl
  where
    go :
        (l : List Token)
        → keep (active_for u) w.tokens ≡ l
        → keep (active_for v) (cancelling u clock w l).1.tokens
          ≡ (if str_eq u v then [] else keep (active_for v) w.tokens)
    go [] e = elim (text-cases u v) [
      | inl same ↦ rw (← same, str_eq_self u) e
      | inr ne ↦ rw (str_eq-ne u v ne) refl
    ]
    go (t ∷ ts) e = keep-invalidating u v cancelled clock w.tokens refl

cancel-knows :
    (u : String) (clock : ℕ) (w : World) (j : String)
    → is_some (row id_of j (cancel_token u clock w).1.tokens) ≡ is_some (row id_of j w.tokens)
unfolding cancel_token
cancel-knows u clock w j = go (keep (active_for u) w.tokens)
  where
    go :
        (l : List Token)
        → is_some (row id_of j (cancelling u clock w l).1.tokens) ≡ is_some (row id_of j w.tokens)
    go [] = refl
    go (t ∷ ts) = update-knows (active_for u) (invalidating cancelled clock) j w.tokens (λ t. refl)

issue-Shows :
    (id u at : String) (expires clock : ℕ) (g : Registry) (w : World)
    → Shows g w.tokens
    → Shows
        (promised (issues id u at expires clock) g)
        (issue_token id u at expires clock w).1.tokens
issue-Shows id u at expires clock g w (known, held) =
    rw (issued_tokens id u at expires clock w) (elim (Bool-cases (g.knows id)) [
      | inl e ↦ rw (known id, e) (known, held)
      | inr e ↦
          rw (known id, e)
            (
              λ j. ground (
                arith,
                update-knows (active_for u) (invalidating superseded clock) j w.tokens (λ t. refl),
                known j,
              ),
              λ v. ground (arith, keep-invalidating u v superseded clock w.tokens refl, held v),
            )
    ])

consume-Shows :
    (seen : Option Token) (id : String) (clock now : ℕ) (g : Registry) (w : World)
    → Shows g w.tokens
    → Shows (promised (consumes seen id clock now) g) (consume_after seen id clock now w).1.tokens
consume-Shows seen id clock now g w (known, held) =
    rw (consumed_tokens seen id clock now w) (elim (Bool-cases (looks_good seen clock)) [
      | inl e ↦ rw e (
        λ j. update-knows (usable id now) (used clock) j w.tokens (λ t. refl) ∙ known j,
        λ v.
            keep-used v id clock now w.tokens
            ∙ ap (keep (λ t. not (str_eq t.id id && ltb now t.expires_at))) (held v)
            ∙ keep-listed id now (g.holder v),
      )
      | inr e ↦ rw e (known, held)
    ])

cancel-Shows :
    (u : String) (clock : ℕ) (g : Registry) (w : World)
    → Shows g w.tokens
    → Shows (promised (cancels u clock) g) (cancel_token u clock w).1.tokens
cancel-Shows u clock g w (known, held) = (
  λ j. cancel-knows u clock w j ∙ known j,
  λ v. ground (arith, cancelled_tokens u clock w v, held v),
)

-- The tokens implement a registry of the known identifiers and of one active token for each user at
-- most, in which issuing a new identifier replaces the user's token, issuing a known one does
-- nothing, consuming takes away the token of the identifier if the look found it active and neither
-- clock is past its expiry, and cancelling takes away the user's token: if the table shows a
-- registry, then after any tokens are issued, consumed and cancelled it shows the registry after
-- that.
pub run-Shows :
    (os : List Op) (g : Registry) (w : World)
    → Shows g w.tokens
    → Shows (promised_by os g) (run os w).tokens
unfolding run step
run-Shows [] g w h = h
run-Shows (issues j u at expires clock ∷ os) g w h =
    run-Shows os (promised (issues j u at expires clock) g) (step (issues j u at expires clock) w)
      (issue-Shows j u at expires clock g w h)
run-Shows (consumes seen j clock now ∷ os) g w h =
    run-Shows os (promised (consumes seen j clock now) g) (step (consumes seen j clock now) w)
      (consume-Shows seen j clock now g w h)
run-Shows (cancels u clock ∷ os) g w h =
    run-Shows os (promised (cancels u clock) g) (step (cancels u clock) w)
      (cancel-Shows u clock g w h)
