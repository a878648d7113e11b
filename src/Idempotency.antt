-- ===== src/Idempotency.antt =====
-- The idempotency store (packages/idempotency/src/store.ts) over its table (schema.ts). `R` is the
-- type of stored results. The application's clock and the database's NOW() are separate arguments.
pub mod Laws
pub mod Claims
pub mod Exclusive
mod Tests
use monica_companion.Base.{
  ℕ, ◌+◌, Bool, true, false, ◌&&◌, Option, none, some, List, [], ◌∷◌, String, str_eq, if◌then◌else◌,
  ltb, some_of,
}
use monica_companion.Sql.{select_where, update_where, delete_where, insert_new}

pub data Status : Type 0 where
  in_progress completed : Status

pub record Entry (R : Type 0) : Type 0 where
  pub key : String
  pub status : Status
  pub claimed_at : ℕ
  pub completed_at : Option ℕ
  pub result : Option R
  pub expires_at : ℕ

abbrev pub is_in_progress : Status → Bool
is_in_progress in_progress = true
is_in_progress completed = false

-- What `check` reports of a key that has been seen.
pub data CheckResult (R : Type 0) : Type 0 where
  running : CheckResult R
  done : Option R → CheckResult R

-- The statements that reach the table, in the order in which the database runs them.
pub data Op (R : Type 0) : Type 0 where
  reclaims inserts : String → (expires now : ℕ) → Op R
  completes : String → R → ℕ → Op R
  releases : String → Op R

module _ {R : Type 0} where
  abbrev pub key_of : Entry R → String
  key_of e = e.key

  abbrev report : Status → Option R → CheckResult R
  report completed result = done result
  report in_progress result = running

  unfoldable pub check : String → List (Entry R) → Option (CheckResult R)
  check k t = elim (select_where (λ e. str_eq (key_of e) k) t) [
    | [] ↦ none
    | e ∷ rest ↦ some (report e.status e.result)
  ]

  abbrev pub lapsed : String → ℕ → Entry R → Bool
  lapsed k now e = str_eq (key_of e) k && (is_in_progress e.status && ltb e.expires_at now)

  -- The first statement of `claim`: take over a claim that has run out.
  unfoldable pub reclaim : String → ℕ → ℕ → List (Entry R) → Bool × List (Entry R)
  reclaim k expires now t = (
    some_of (lapsed k now) t,
    update_where (lapsed k now)
        (λ e. record e { status = in_progress; claimed_at = now; expires_at = expires }) t,
  )

  abbrev pub fresh : String → ℕ → ℕ → Entry R
  fresh k expires now = record {
    key = k;
    status = in_progress;
    claimed_at = now;
    completed_at = none;
    result = none;
    expires_at = expires;
  }

  -- The second statement of `claim`: insert a new key.
  unfoldable pub insert : String → ℕ → ℕ → List (Entry R) → Bool × List (Entry R)
  insert k expires now t = insert_new key_of (fresh k expires now) t

  -- `clock` is Date.now(), `now` the database's NOW() in both statements.
  unfoldable pub claim : String → ℕ → ℕ → ℕ → List (Entry R) → Bool × List (Entry R)
  claim k ttl clock now t =
      let (taken, t') = reclaim k (clock + ttl) now t in
      if taken then (true, t') else insert k (clock + ttl) now t'

  abbrev pub claimed : String → Entry R → Bool
  claimed k e = str_eq (key_of e) k && is_in_progress e.status

  unfoldable pub complete : String → R → ℕ → List (Entry R) → List (Entry R)
  complete k v now =
      update_where (claimed k)
        (λ e. record e { status = completed; completed_at = some now; result = some v })

  unfoldable pub release : String → List (Entry R) → List (Entry R)
  release k = delete_where (claimed k)

  unfoldable pub step : Op R → List (Entry R) → Bool × List (Entry R)
  step (reclaims k expires now) t = reclaim k expires now t
  step (inserts k expires now) t = insert k expires now t
  step (completes k v now) t = (false, complete k v now t)
  step (releases k) t = (false, release k t)

  unfoldable pub run : List (Op R) → List (Entry R) → List (Entry R)
  run [] t = t
  run (o ∷ os) t = run os (step o t).1
