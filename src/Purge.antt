-- ===== src/Purge.antt =====
-- The purge executor (services/user-management/src/purge/executor.ts) over the table of purge
-- requests (services/user-management/src/db/schema.ts). Times are in milliseconds.
use monica_companion.Base.{
  ℕ, ◌+◌, ◌-◌, ◌*◌, Bool, true, false, ◌&&◌, Option, none, some, List, [], ◌∷◌, map, String, str_eq,
  if◌then◌else◌, ltb, keep,
}
use monica_companion.Effects.{Fetched, rejected, not_ok, garbled, answered, Outcome, ok, throws}
use monica_companion.Sql.{update_where}
pub mod Rows
pub mod Retries
mod Tests

-- The status column of dataPurgeRequests.
pub data Status : Type 0 where
  pending in_progress completed failed : Status

-- A row of dataPurgeRequests.
pub record Request : Type 0 where
  pub id : String
  pub user_id : String
  pub status : Status
  pub reason : String
  pub requested_at : ℕ
  pub purge_after : ℕ
  pub claimed_at : Option ℕ
  pub completed_at : Option ℕ
  pub retry_count : ℕ
  pub error : Option String

-- The services whose data of a user is deleted.
pub data Service : Type 0 where
  ai_router scheduler delivery : Service

-- A sweep: the configuration, what its clock shows when it starts, claims and completes, what the
-- DELETE requests for a user come to, and which message of several rejections comes first.
pub record Sweep : Type 0 where
  pub stale_claim_threshold_minutes : ℕ
  pub max_purge_retries : ℕ
  pub started : ℕ
  pub claims_at : ℕ
  pub due_by : ℕ
  pub completes_at : String → ℕ
  pub deletes : Service → String → Fetched (Unit {0})
  pub first : String → List String → String

abbrev is_pending : Status → Bool
is_pending pending = true
is_pending s = false

abbrev is_in_progress : Status → Bool
is_in_progress in_progress = true
is_in_progress s = false

abbrev is_failed : Status → Bool
is_failed failed = true
is_failed s = false

-- A comparison with NULL is not true.
abbrev before : Option ℕ → ℕ → Bool
before none n = false
before (some m) n = ltb m n

-- 1. Requests in progress whose claim is stale.
abbrev pub is_stale : Sweep → Request → Bool
is_stale e r =
    is_in_progress r.status
    && before r.claimed_at (e.started - e.stale_claim_threshold_minutes * 60 * 1000)

abbrev pub reclaimed : Request → Request
reclaimed r = record r { status = pending }

-- 2. Failed requests that are below the limit.
abbrev pub is_retried : Sweep → Request → Bool
is_retried e r = is_failed r.status && ltb r.retry_count e.max_purge_retries

abbrev pub retried : Request → Request
retried r = record r { status = pending; error = none }

-- 3. Pending requests that are due.
abbrev pub is_due : Sweep → Request → Bool
is_due e r = is_pending r.status && ltb r.purge_after e.due_by

abbrev pub taken : Sweep → Request → Request
taken e r = record r { status = in_progress; claimed_at = some e.claims_at }

-- ServiceClient.fetch resolves with any response, whatever its status, and rejects where `fetch`
-- does.
abbrev pub rejections : List (Fetched (Unit {0})) → List String
rejections [] = []
rejections (rejected m ∷ l) = m ∷ rejections l
rejections (not_ok status body ∷ l) = rejections l
rejections (garbled m ∷ l) = rejections l
rejections (answered v ∷ l) = rejections l

-- Promise.all of the requests.
abbrev pub first_of : (String → List String → String) → List String → Outcome (Unit {0})
first_of first [] = ok tt
first_of first (m ∷ ms) = throws (first m ms)

unfoldable pub delete_data : Sweep → Request → Outcome (Unit {0})
delete_data e r = first_of e.first (
    rejections (
      e.deletes ai_router r.user_id
      ∷ e.deletes scheduler r.user_id
      ∷ e.deletes delivery r.user_id
      ∷ []))

-- 5 and 6. The row after the requests resolve, and after one is rejected.
abbrev pub concluded : ℕ → Outcome (Unit {0}) → Request → Request
concluded at (ok v) r = record r { status = completed; completed_at = some at }
concluded at (throws m) r = record r {
  status = failed;
  error = some m;
  retry_count = r.retry_count + 1;
}

unfoldable pub process : Sweep → List Request → List Request → List Request
unfolding delete_data
process e [] t = t
process e (r ∷ rs) t =
    process e rs
      (update_where (λ x. str_eq x.id r.id) (concluded (e.completes_at r.id) (delete_data e r)) t)

-- processPendingPurges.
unfoldable pub process_pending_purges : Sweep → List Request → List Request
unfolding process
process_pending_purges e t =
    let fresh = update_where (is_stale e) reclaimed t in
    let ready = update_where (is_retried e) retried fresh in
    process e (map (taken e) (keep (is_due e) ready)) (update_where (is_due e) (taken e) ready)
