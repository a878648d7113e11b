-- ===== src/Idempotency/Laws.antt =====
-- What each statement of the idempotency store does to the row of a key.
use monica_companion.Base.{
  ℕ, ◌≡◌, refl, ◌≢◌, true, false, Option, none, some, List, String, str_eq, eq_iff, arith,
  if◌then◌else◌,
}
use monica_companion.Sql.{
  row, Unique, holds, revised, unless, some_of-row, row-update_where, row-update_where_ne,
  row-delete_where, row-delete_where_ne, update_where-Unique, delete_where-Unique, insert_new,
  insert_new-Unique,
}
use monica_companion.Idempotency.{
  in_progress, completed, Entry, key_of, lapsed, reclaim, fresh, insert, claimed, complete, release,
  Op, reclaims, inserts, completes, releases, step,
}

module _ {R : Type 0} where
  abbrev pub entry : String → List (Entry R) → Option (Entry R)
  entry = row key_of

  abbrev pub IsTable : List (Entry R) → Type 0
  IsTable = Unique key_of

  pub entry-complete :
      (k j : String) (v : R) (now : ℕ) (t : List (Entry R))
      → entry j (complete k v now t)
        ≡ revised key_of
            (claimed k)
            (λ e. record e { status = completed; completed_at = some now; result = some v })
            (entry j t)
  unfolding complete
  entry-complete k j v now t = row-update_where key_of _ _ j t (λ e. refl)

  pub entry-reclaim :
      (k j : String) (expires now : ℕ) (t : List (Entry R))
      → entry j (reclaim k expires now t).1
        ≡ revised key_of
            (lapsed k now)
            (λ e. record e { status = in_progress; claimed_at = now; expires_at = expires })
            (entry j t)
  unfolding reclaim
  entry-reclaim k j expires now t = row-update_where key_of _ _ j t (λ e. refl)

  pub reclaim-took :
      (k : String) (expires now : ℕ) (t : List (Entry R))
      → IsTable t
      → (reclaim k expires now t).0 ≡ holds key_of (lapsed k now) (entry k t)
  unfolding reclaim
  reclaim-took k expires now t u =
      some_of-row key_of (lapsed k now) k t (λ e h. (eq_iff e.key k).0 (ground arith)) u

  pub entry-release :
      (k j : String) (t : List (Entry R))
      → IsTable t
      → entry j (release k t) ≡ unless key_of (claimed k) (entry j t)
  unfolding release
  entry-release k j t u = row-delete_where key_of (claimed k) j t u

  pub entry-insert :
      (k j : String) (expires now : ℕ) (t : List (Entry R))
      → entry j (insert k expires now t).1 ≡ elim (entry k t) [
        | none ↦ if str_eq k j then some (fresh k expires now) else entry j t
        | some _ ↦ entry j t
      ]
  unfolding insert insert_new
  entry-insert k j expires now t = ground arith

  -- Every statement keeps the keys of the table distinct.
  pub step-IsTable : (o : Op R) (t : List (Entry R)) → IsTable t → IsTable (step o t).1
  unfolding step reclaim insert complete release
  step-IsTable (reclaims k x now) t u = update_where-Unique key_of _ _ t (λ e. refl) u
  step-IsTable (inserts k x now) t u = insert_new-Unique key_of _ t u
  step-IsTable (completes k v now) t u = update_where-Unique key_of _ _ t (λ e. refl) u
  step-IsTable (releases k) t u = delete_where-Unique key_of _ t u

  pub insert-took :
      (k : String) (expires now : ℕ) (t : List (Entry R))
      → (insert k expires now t).0 ≡ elim (entry k t) [ none ↦ true | some _ ↦ false ]
  unfolding insert insert_new
  insert-took k expires now t = ground arith

  -- No claim touches the row of another key.
  pub entry-reclaim_ne :
      (k j : String) (expires now : ℕ) (t : List (Entry R))
      → k ≢ j
      → entry j (reclaim k expires now t).1 ≡ entry j t
  unfolding reclaim
  entry-reclaim_ne k j expires now t ne =
      row-update_where_ne key_of _ _ k j t (λ e. refl) (λ e h. (eq_iff e.key k).0 (ground arith)) ne

  pub entry-insert_ne :
      (k j : String) (expires now : ℕ) (t : List (Entry R))
      → k ≢ j
      → entry j (insert k expires now t).1 ≡ entry j t
  entry-insert_ne k j expires now t ne = ground (arith, entry-insert k j expires now t, eq_iff k j)

  pub entry-release_ne :
      (k j : String) (t : List (Entry R)) → k ≢ j → entry j (release k t) ≡ entry j t
  unfolding release
  entry-release_ne k j t ne =
      row-delete_where_ne key_of _ k j t (λ e h. (eq_iff e.key k).0 (ground arith)) ne
