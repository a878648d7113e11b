-- ===== src/SetupToken/Laws.antt =====
-- The table of setup tokens keeps one row for each identifier.
use monica_companion.Base.{
  ℕ, ◌≡◌, refl, inl, inr, Option, none, some, List, [], ◌∷◌, String, Bool-cases, leb, keep, some_of,
}
use monica_companion.Sql.{row, Unique, update_where, update_where-Unique}
use monica_companion.SetupToken.{
  Status, active, superseded, consumed, cancelled, invalidated, Token, World, id_of, active_for,
  invalidating, new_token, placed, superseding, issue_token, usable, use_token, consume_seen,
  consume_after, cancelling, cancel_token, Op, issues, consumes, cancels, step,
}

abbrev pub IsTable : World → Type 0
IsTable w = Unique id_of w.tokens

abbrev pub used : ℕ → Token → Token
used clock t = record t { status = consumed; consumed_at = some clock }

placed-IsTable :
    (before : World) (t : Token) (w : World) (o : Option Token) (l : List Token)
    → row id_of t.id w.tokens ≡ o
    → IsTable before
    → IsTable w
    → IsTable (placed before t w o l).1
placed-IsTable before t w none [] e b h = (e, h)
placed-IsTable before t w none (x ∷ l) e b h = b
placed-IsTable before t w (some x) l e b h = b

invalidating-IsTable :
    (u : String) (s : Status) (clock : ℕ) (ts : List Token)
    → Unique id_of ts
    → Unique id_of (update_where (active_for u) (invalidating s clock) ts)
invalidating-IsTable u s clock ts h =
    update_where-Unique id_of (active_for u) (invalidating s clock) ts (λ t. refl) h

use-IsTable :
    (seen : Token) (id : String) (clock now : ℕ) (w : World)
    → IsTable w
    → IsTable (use_token seen id clock now w).1
use-IsTable seen id clock now w h = elim (Bool-cases (some_of (usable id now) w.tokens)) [
  | inl e ↦ rw e (update_where-Unique id_of (usable id now) (used clock) w.tokens (λ t. refl) h)
  | inr e ↦ rw e h
]

after-IsTable :
    (seen : Option Token) (id : String) (clock now : ℕ) (w : World)
    → IsTable w
    → IsTable (consume_after seen id clock now w).1
unfolding consume_after
after-IsTable none id clock now w h = h
after-IsTable (some t) id clock now w h = go t.status
  where
    go : (s : Status) → IsTable (consume_seen s t id clock now w).1
    go consumed = h
    go superseded = h
    go cancelled = h
    go invalidated = h
    go active = elim (Bool-cases (leb t.expires_at clock)) [
      | inl e ↦ rw e h
      | inr e ↦ rw e (use-IsTable t id clock now w h)
    ]

cancel-IsTable :
    (u : String) (clock : ℕ) (w : World) → IsTable w → IsTable (cancel_token u clock w).1
unfolding cancel_token
cancel-IsTable u clock w h = go (keep (active_for u) w.tokens)
  where
    go : (l : List Token) → IsTable (cancelling u clock w l).1
    go [] = h
    go (t ∷ ts) = invalidating-IsTable u cancelled clock w.tokens h

pub step-IsTable : (o : Op) (w : World) → IsTable w → IsTable (step o w)
unfolding step issue_token
step-IsTable (issues j u at expires clock) w h =
    placed-IsTable w (new_token j u at expires) (superseding u clock w) _ _ refl h
      (invalidating-IsTable u superseded clock w.tokens h)
step-IsTable (consumes seen j clock now) w h = after-IsTable seen j clock now w h
step-IsTable (cancels u clock) w h = cancel-IsTable u clock w h
