-- ===== src/Purge/Tests.antt =====
-- Sweeps of purge requests, and their theorems at concrete tables.
use monica_companion.Base.{
  ℕ, ◌≡◌, refl, inl, Option, none, some, List, [], ◌∷◌, String, str_eq, arith, if◌then◌else◌,
}
use monica_companion.Effects.{Fetched, rejected, not_ok, answered}
use monica_companion.Sql.{row, update_where}
use monica_companion.Purge.{
  Status, pending, in_progress, completed, failed, Request, Service, scheduler, Sweep, delete_data,
  process, process_pending_purges,
}
use monica_companion.Purge.Rows.{id_of, after_sweep, row-process_pending_purges}
use monica_companion.Purge.Retries.{run, IsSettled, run-IsSettled}

sweeps : Unit {0}
unfolding delete_data process process_pending_purges run update_where
sweeps = tt

-- The scheduler is down for "ann" and answers 500 for "bea".
abbrev outage : Service → String → Fetched (Unit {0})
outage scheduler u =
    if str_eq u "ann"
    then rejected "fetch failed"
    else if str_eq u "bea"
    then not_ok 500 ""
    else answered tt
outage s u = answered tt

abbrev sweep : (Service → String → Fetched (Unit {0})) → ℕ → Sweep
sweep deletes at = record {
  stale_claim_threshold_minutes = 1;
  max_purge_retries = 2;
  started = at;
  claims_at = at;
  due_by = at;
  completes_at = (λ id. at);
  deletes = deletes;
  first = (λ m ms. m);
}

abbrev request : String → String → Status → ℕ → Request
request id u s retries = record {
  id = id;
  user_id = u;
  status = s;
  reason = "account_disconnection";
  requested_at = 0;
  purge_after = 1000;
  claimed_at = some 1500;
  completed_at = none;
  retry_count = retries;
  error = none;
}

abbrev requests : List Request
requests =
    request "p1" "ann" pending 0
    ∷ request "p2" "bea" pending 0
    ∷ request "p3" "cal" in_progress 1
    ∷ []

abbrev status_of : Option Request → Option Status
status_of none = none
status_of (some r) = some r.status

-- The answer 500 counts as a deletion.
purge_tests :
    (status_of (row id_of "p1" (process_pending_purges (sweep outage 2000) requests)) ≡ some failed)
    × (status_of (row id_of "p2" (process_pending_purges (sweep outage 2000) requests))
        ≡ some completed)
    × (status_of (row id_of "p3" (process_pending_purges (sweep outage 2000) requests))
        ≡ some in_progress)
    × (status_of (row id_of "p3" (process_pending_purges (sweep outage 90000) requests))
        ≡ some completed)
unfolding sweeps
purge_tests = (refl, refl, refl, refl)

row-process_pending_purges_example :
    row id_of "p2" (process_pending_purges (sweep outage 2000) requests)
    ≡ some (after_sweep (sweep outage 2000) pending (some 1500) (request "p2" "bea" pending 0))
row-process_pending_purges_example =
    row-process_pending_purges (sweep outage 2000) "p2" requests (refl, (refl, (refl, tt)))

run-IsSettled_example :
    (x : Request) × (row id_of "p1" (run (sweep outage 2000 ∷ sweep outage 3000 ∷ []) requests)
      ≡ some x)
    × IsSettled 2 x
run-IsSettled_example =
    run-IsSettled 2 (sweep outage 2000 ∷ sweep outage 3000 ∷ []) requests "p1"
      (request "p1" "ann" pending 0) (refl, (refl, (refl, tt))) refl (inl refl) (omega arith)
      ((refl, omega arith), ((refl, omega arith), tt)) (omega arith)
