-- ===== src/Scheduler/Execute/Laws.antt =====
-- What the execute route answers, and how often it starts a command.
use monica_companion.Base.{
  ℕ, ◌≡◌, refl, ◌≢◌, ◌⊎◌, inl, inr, Bool, true, false, ◌&&◌, none, some, List, String, arith,
  Option-cases, Bool-cases,
}
use monica_companion.Idempotency.{Entry, check, claim, running, done, CheckResult}
use monica_companion.Idempotency.Laws.{entry, IsTable}
use monica_companion.Idempotency.Claims.{check-entry, IsDone, claim_outcome}
use monica_companion.Scheduler.Command.{Command}
use monica_companion.Effects.{Fetched, rejected, not_ok, garbled, answered, Outcome, ok, throws}
use monica_companion.Scheduler.Worker.{World, Outside, suppressed, process_command_job, Execution}
use monica_companion.Scheduler.Worker.Laws.{
  process_refused, process_suppressed, answer, is_answered,
}
use monica_companion.Scheduler.Execute.{
  already_completed, in_progress, execution_failed, claim_ttl, Call, job_of, processed, recorded,
  start, claimed_then, execute_command, execute, repeated,
}

module _ {R : Type 0} (out : Outside R) where
  -- A completed command is answered from the store, and nothing is executed or changed.
  pub execute_replay :
      (call : Call) (c : Command) (v : R) (w : World R)
      → call.body ≡ some c
      → IsDone c.idempotency_key v w.keys
      → execute out call w ≡ (already_completed (some v), w)
  unfolding execute execute_command
  execute_replay call c v w b d = rw (b, execute) (rw (d, execute_command) refl)

  -- A command whose key is in progress is refused, whatever the clocks say, and nothing changes.
  pub execute_busy :
      (call : Call) (c : Command) (w : World R)
      → call.body ≡ some c
      → check c.idempotency_key w.keys ≡ some running
      → execute out call w ≡ (in_progress, w)
  unfolding execute execute_command
  execute_busy call c w b d = rw (b, execute) (rw (d, execute_command) refl)

  answered_or : (a : Fetched R) → ((r : R) × (a ≡ answered r)) ⊎ (is_answered out a ≡ false)
  answered_or (answered r) = inl (r, refl)
  answered_or (rejected m) = inr refl
  answered_or (not_ok n m) = inr refl
  answered_or (garbled m) = inr refl

  processed_of_ok :
      (call : Call) (c : Command) (p : Outcome (Unit {0}) × World R) (id error : String)
      → p.0 ≡ ok tt
      → (processed out call c p).0 ≢ execution_failed id error
  processed_of_ok call c (ok _, w) id error e = λ f. cc
  processed_of_ok call c (throws m, w) id error e = λ f. cc

  processed_keys :
      (call : Call) (c : Command) (p : Outcome (Unit {0}) × World R)
      → (processed out call c p).1.keys ≡ p.1.keys
  processed_keys call c (ok _, w) = refl
  processed_keys call c (throws m, w) = refl

  recorded_failed :
      (call : Call) (c : Command) (w : World R) (rows : Bool × List Execution) (id error : String)
      → (recorded out call c w rows).0 ≡ execution_failed id error
      → check c.idempotency_key w.keys ≡ some running
      → check c.idempotency_key (recorded out call c w rows).1.keys ≡ some running
  recorded_failed call c w (false, rows) id error failed h = cc
  recorded_failed call c w (true, rows) id error failed h =
      let w' : World R = record w { executions = rows } in
      let job = job_of out call c in
      elim (Bool-cases (suppressed out c && call.sync)) [
        | inr async ↦ absurd (ground arith)
        | inl sync ↦
            let failed' = rw sync at failed in
            rw sync (
              rw (processed_keys call c (process_command_job out job call.now w'))
                (elim (answered_or (answer out job w')) [
                  | inl (r, e) ↦ absurd (
                      processed_of_ok call c (process_command_job out job call.now w') id error
                        (process_suppressed out job call.now w' r e (ground arith)).0 failed')
                  | inr e ↦ rw ((process_refused out job call.now w' e).2) h
                ]))
      ]

  start_failed :
      (call : Call) (c : Command) (w : World R) (id error : String)
      → (start out call c w).0 ≡ execution_failed id error
      → check c.idempotency_key w.keys ≡ some running
      → check c.idempotency_key (start out call c w).1.keys ≡ some running
  unfolding start
  start_failed call c w id error = recorded_failed call c w _ id error

  check-claim :
      (k : String) (ttl clock now : ℕ) (t : List (Entry R))
      → IsTable t
      → check k t ≡ none
      → ((claim k ttl clock now t).0 ≡ true) × (check k (claim k ttl clock now t).1 ≡ some running)
  check-claim k ttl clock now t u h =
      let lem = claim_outcome k k ttl clock now t u in
      elim (Option-cases (entry k t)) [
        | inl gone ↦
            ground (arith, lem.0, lem.1, check-entry k t, check-entry k (claim k ttl clock now t).1)
        | inr (e, found) ↦ absurd (ground (arith, check-entry k t))
      ]

  claimed_failed :
      (call : Call) (c : Command) (w : World R) (p : Bool × List (Entry R)) (id error : String)
      → (claimed_then out call c w p).0 ≡ execution_failed id error
      → check c.idempotency_key p.1 ≡ some running
      → check c.idempotency_key (claimed_then out call c w p).1.keys ≡ some running
  claimed_failed call c w (true, t) id error = start_failed call c (record w { keys = t }) id error
  claimed_failed call c w (false, t) id error = λ f h. cc

  repeated_failed :
      (w : World R) (seen : CheckResult R) (id error : String)
      → (repeated out w seen).0 ≢ execution_failed id error
  repeated_failed w (done r) id error = λ f. cc
  repeated_failed w running id error = λ f. cc

  execute_command_failed :
      (call : Call) (c : Command) (w : World R) (id error : String)
      → IsTable w.keys
      → (execute_command out call c w).0 ≡ execution_failed id error
      → check c.idempotency_key (execute_command out call c w).1.keys ≡ some running
  unfolding execute_command
  execute_command_failed call c w id error u failed =
      elim (Option-cases (check c.idempotency_key w.keys)) [
        | inl new ↦
            rw (new, execute_command)
              (claimed_failed call c w _ id error (rw (new, execute_command) at failed)
                (check-claim c.idempotency_key claim_ttl call.clock call.now w.keys u new).1)
        | inr (seen, old) ↦
            absurd (repeated_failed w seen id error (rw (old, execute_command) at failed))
      ]

  -- From a store with one row for each key at most: if a request fails while its command is
  -- executed, the next request with the same key is refused as in progress, at any time and with
  -- any command, and changes nothing.
  pub execute_failed_blocks :
      (call retry : Call) (c again : Command) (w : World R) (id error : String)
      → IsTable w.keys
      → call.body ≡ some c
      → retry.body ≡ some again
      → again.idempotency_key ≡ c.idempotency_key
      → (execute out call w).0 ≡ execution_failed id error
      → execute out retry (execute out call w).1 ≡ (in_progress, (execute out call w).1)
  unfolding execute
  execute_failed_blocks call retry c again w id error u b b' same failed =
      execute_busy retry again (execute out call w).1 b' (
        rw same (
          rw (b, execute) (execute_command_failed call c w id error u (rw (b, execute) at failed))))
