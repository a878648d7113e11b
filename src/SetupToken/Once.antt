-- ===== src/SetupToken/Once.antt =====
-- A setup token is consumed at most once.
use monica_companion.Base.{
  ℕ, ◌≤◌, ◌≡◌, refl, inl, inr, Bool, true, false, ◌&&◌, Option, none, some, List, [], ◌∷◌, String,
  str_eq, eq_iff, arith, Bool-cases, Option-cases, leb, keep, some_of, counted, text-cases,
  str_eq-ne,
}
use monica_companion.Sql.{row, update_where, row-update_where, some_of-row}
use monica_companion.SetupToken.{
  Status, active, superseded, consumed, cancelled, invalidated, Token, World, Consumed,
  consumed_for, id_of, active_for, invalidating, new_token, placed, superseding, issue_token,
  usable, use_token, consume_seen, consume_after, cancelling, cancel_token, Op, issues, consumes,
  cancels, step,
}
use monica_companion.SetupToken.Laws.{IsTable, used, step-IsTable}

abbrev pub HasStatus : Status → Option Token → Type 0
HasStatus s none = ⊥
HasStatus s (some t) = t.status ≡ s

abbrev pub IsUsedUp : String → World → Type 0
IsUsedUp id w = HasStatus consumed (row id_of id w.tokens)

-- An update of active tokens keeps a consumed one.
invalidating-IsUsedUp :
    (u id : String) (s : Status) (clock : ℕ) (ts : List Token)
    → HasStatus consumed (row id_of id ts)
    → HasStatus consumed (row id_of id (update_where (active_for u) (invalidating s clock) ts))
invalidating-IsUsedUp u id s clock ts h = ground (
  arith,
  row-update_where id_of (active_for u) (invalidating s clock) id ts (λ t. refl),
  Option-cases (row id_of id ts),
)

placed-IsUsedUp :
    (id : String) (before : World) (t : Token) (w : World) (o : Option Token) (l : List Token)
    → row id_of t.id w.tokens ≡ o
    → IsUsedUp id before
    → IsUsedUp id w
    → IsUsedUp id (placed before t w o l).1
placed-IsUsedUp id before t w none [] e b h = elim (text-cases t.id id) [
  | inl same ↦ let gone : row id_of id w.tokens ≡ none = rw (← same) e in absurd (rw gone at h)
  | inr ne ↦ ground (arith, str_eq-ne t.id id ne, h)
]
placed-IsUsedUp id before t w none (x ∷ l) e b h = b
placed-IsUsedUp id before t w (some x) l e b h = b

use-IsUsedUp :
    (seen : Token) (id j : String) (clock now : ℕ) (w : World)
    → IsUsedUp j w
    → IsUsedUp j (use_token seen id clock now w).1
use-IsUsedUp seen id j clock now w h = elim (Bool-cases (some_of (usable id now) w.tokens)) [
  | inl e ↦ rw e (
      ground (
        arith,
        row-update_where id_of (usable id now) (used clock) j w.tokens (λ t. refl),
        Option-cases (row id_of j w.tokens),
      ))
  | inr e ↦ rw e h
]

after-IsUsedUp :
    (seen : Option Token) (id j : String) (clock now : ℕ) (w : World)
    → IsUsedUp j w
    → IsUsedUp j (consume_after seen id clock now w).1
unfolding consume_after
after-IsUsedUp none id j clock now w h = h
after-IsUsedUp (some t) id j clock now w h = go t.status
  where
    go : (s : Status) → IsUsedUp j (consume_seen s t id clock now w).1
    go consumed = h
    go superseded = h
    go cancelled = h
    go invalidated = h
    go active = elim (Bool-cases (leb t.expires_at clock)) [
      | inl e ↦ rw e h
      | inr e ↦ rw e (use-IsUsedUp t id j clock now w h)
    ]

cancel-IsUsedUp :
    (u id : String) (clock : ℕ) (w : World) → IsUsedUp id w → IsUsedUp id (cancel_token u clock w).1
unfolding cancel_token
cancel-IsUsedUp u id clock w h = go (keep (active_for u) w.tokens)
  where
    go : (l : List Token) → IsUsedUp id (cancelling u clock w l).1
    go [] = h
    go (t ∷ ts) = invalidating-IsUsedUp u id cancelled clock w.tokens h

step-IsUsedUp : (id : String) (o : Op) (w : World) → IsUsedUp id w → IsUsedUp id (step o w)
unfolding step issue_token
step-IsUsedUp id (issues j u at expires clock) w h =
    placed-IsUsedUp id w (new_token j u at expires) (superseding u clock w) _ _ refl h
      (invalidating-IsUsedUp u id superseded clock w.tokens h)
step-IsUsedUp id (consumes seen j clock now) w h = after-IsUsedUp seen j id clock now w h
step-IsUsedUp id (cancels u clock) w h = cancel-IsUsedUp u id clock w h

abbrev pub is_won : Consumed → Bool
is_won (consumed_for u) = true
is_won _ = false

use-won :
    (seen : Token) (id : String) (clock now : ℕ) (w : World)
    → IsTable w
    → is_won (use_token seen id clock now w).0 ≡ true
    → IsUsedUp id (use_token seen id clock now w).1
use-won seen id clock now w u won = elim (Bool-cases (some_of (usable id now) w.tokens)) [
  | inl e ↦ rw e (
      ground (
        arith,
        row-update_where id_of (usable id now) (used clock) id w.tokens (λ t. refl),
        some_of-row id_of (usable id now) id w.tokens (λ t h. (eq_iff t.id id).0 (ground arith)) u,
        Option-cases (row id_of id w.tokens),
      ))
  | inr e ↦ absurd (ground arith)
]

-- A consumption that succeeds uses the token up.
pub after-won :
    (seen : Option Token) (id : String) (clock now : ℕ) (w : World)
    → IsTable w
    → is_won (consume_after seen id clock now w).0 ≡ true
    → IsUsedUp id (consume_after seen id clock now w).1
unfolding consume_after
after-won none id clock now w u won = absurd (ground arith)
after-won (some t) id clock now w u won = go t.status won
  where
    go :
        (s : Status)
        → is_won (consume_seen s t id clock now w).0 ≡ true
        → IsUsedUp id (consume_seen s t id clock now w).1
    go consumed h = absurd (ground arith)
    go superseded h = absurd (ground arith)
    go cancelled h = absurd (ground arith)
    go invalidated h = absurd (ground arith)
    go active h = elim (Bool-cases (leb t.expires_at clock)) [
      | inl e ↦ absurd (let h' = rw e at h in ground arith)
      | inr e ↦ rw e (use-won t id clock now w u (rw e at h))
    ]

use-lost :
    (seen : Token) (id : String) (clock now : ℕ) (w : World)
    → IsTable w
    → IsUsedUp id w
    → is_won (use_token seen id clock now w).0 ≡ false
use-lost seen id clock now w u h = ground (
  arith,
  some_of-row id_of (usable id now) id w.tokens (λ t e. (eq_iff t.id id).0 (ground arith)) u,
  Option-cases (row id_of id w.tokens),
)

-- A token that is used up is not consumed again.
after-lost :
    (seen : Option Token) (id : String) (clock now : ℕ) (w : World)
    → IsTable w
    → IsUsedUp id w
    → is_won (consume_after seen id clock now w).0 ≡ false
unfolding consume_after
after-lost none id clock now w u h = refl
after-lost (some t) id clock now w u h = go t.status
  where
    go : (s : Status) → is_won (consume_seen s t id clock now w).0 ≡ false
    go consumed = refl
    go superseded = refl
    go cancelled = refl
    go invalidated = refl
    go active = elim (Bool-cases (leb t.expires_at clock)) [
      | inl e ↦ rw e refl
      | inr e ↦ rw e (use-lost t id clock now w u h)
    ]

-- How many of the transactions consume the token.
abbrev pub consumptions : String → List Op → World → ℕ
consumptions id [] w = 0
consumptions id (consumes seen j clock now ∷ os) w =
    let rest = consumptions id os (step (consumes seen j clock now) w) in
    counted (str_eq j id && is_won (consume_after seen j clock now w).0) rest
consumptions id (o ∷ os) w = consumptions id os (step o w)

used_up :
    (id : String) (os : List Op) (w : World) → IsTable w → IsUsedUp id w → consumptions id os w ≡ 0
used_up id [] w u h = refl
used_up id (issues j v at expires clock ∷ os) w u h =
    used_up id os (step (issues j v at expires clock) w)
      (step-IsTable (issues j v at expires clock) w u)
      (step-IsUsedUp id (issues j v at expires clock) w h)
used_up id (cancels v clock ∷ os) w u h =
    used_up id os (step (cancels v clock) w) (step-IsTable (cancels v clock) w u)
      (step-IsUsedUp id (cancels v clock) w h)
used_up id (consumes seen j clock now ∷ os) w u h =
    let rest =
      used_up id os (step (consumes seen j clock now) w)
        (step-IsTable (consumes seen j clock now) w u)
        (step-IsUsedUp id (consumes seen j clock now) w h) in
    elim (Bool-cases (str_eq j id)) [
      | inl e ↦
          let here : IsUsedUp j w = rw ((eq_iff j id).0 e) h in
          ground (arith, rest, after-lost seen j clock now w u here)
      | inr e ↦ ground (arith, rest)
    ]

-- From a table with one row for each identifier at most, whatever tokens are issued, consumed and
-- cancelled, in whatever order the transactions commit and however old the look at the token that a
-- consumption acts on, a token is consumed at most once.
pub consumptions-le-1 :
    (id : String) (os : List Op) (w : World) → IsTable w → consumptions id os w ≤ 1
unfolding step
consumptions-le-1 id [] w u = omega arith
consumptions-le-1 id (issues j v at expires clock ∷ os) w u =
    consumptions-le-1 id os (step (issues j v at expires clock) w)
      (step-IsTable (issues j v at expires clock) w u)
consumptions-le-1 id (cancels v clock ∷ os) w u =
    consumptions-le-1 id os (step (cancels v clock) w) (step-IsTable (cancels v clock) w u)
consumptions-le-1 id (consumes seen j clock now ∷ os) w u =
    let u' = step-IsTable (consumes seen j clock now) w u in
    elim (Bool-cases (str_eq j id && is_won (consume_after seen j clock now w).0)) [
      | inl e ↦
          let won : is_won (consume_after seen j clock now w).0 ≡ true = ground arith in
          let same : j ≡ id = (eq_iff j id).0 (ground arith) in
          let spent : IsUsedUp id (consume_after seen j clock now w).1 =
            rw (← same) (after-won seen j clock now w u won) in
          ground (arith, used_up id os (step (consumes seen j clock now) w) u' spent)
      | inr e ↦ ground (arith, consumptions-le-1 id os (step (consumes seen j clock now) w) u')
    ]
