-- ===== src/SetupToken/Active.antt =====
-- Issuing a setup token replaces the active one of the user.
use monica_companion.Base.{
  ℕ, ◌≡◌, refl, false, none, List, [], ◌∷◌, String, str_eq, eq_iff, arith, if◌then◌else◌, keep,
  str_eq_self,
}
use monica_companion.Effects.{ok}
use monica_companion.Sql.{row, update_where, row-update_where}
use monica_companion.SetupToken.{
  Status, superseded, Token, World, id_of, is_active, active_for, invalidating, new_token,
  issue_token,
}

-- Invalidating the active tokens of a user leaves none of them, and those of the others.
pub keep-invalidating :
    (u v : String) (s : Status) (clock : ℕ) (ts : List Token)
    → is_active s ≡ false
    → keep (active_for v) (update_where (active_for u) (invalidating s clock) ts)
      ≡ (if str_eq u v then [] else keep (active_for v) ts)
unfolding update_where
keep-invalidating u v s clock [] h = ground arith
keep-invalidating u v s clock (t ∷ ts) h = ground (
  arith,
  keep-invalidating u v s clock ts h,
  eq_iff t.telegram_user_id u,
  eq_iff t.telegram_user_id v,
  eq_iff u v,
)

-- Issuing a token with a new identifier succeeds; afterwards it is the only active token of its
-- user, and the active tokens of every other user are what they were.
pub issue_active :
    (id u v at : String) (expires clock : ℕ) (w : World)
    → row id_of id w.tokens ≡ none
    → ((issue_token id u at expires clock w).0 ≡ ok (new_token id u at expires))
      × (keep (active_for v) (issue_token id u at expires clock w).1.tokens
          ≡ (if str_eq u v then new_token id u at expires ∷ [] else keep (active_for v) w.tokens))
unfolding issue_token
issue_active id u v at expires clock w h =
    let free = keep-invalidating u u superseded clock w.tokens refl in
    let others = keep-invalidating u v superseded clock w.tokens refl in
    let unknown =
      row-update_where id_of (active_for u) (invalidating superseded clock) id w.tokens
        (λ t. refl) in
    ground (arith, free, others, unknown, h, str_eq_self u)
