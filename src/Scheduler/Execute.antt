-- ===== src/Scheduler/Execute.antt =====
-- The route POST /execute (services/scheduler/src/routes/execute.ts).
pub mod Laws
pub mod Once
use monica_companion.Base.{
  ℕ, suc, ◌+◌, ◌*◌, Bool, true, false, ◌&&◌, Option, none, some, List, [], ◌∷◌, String, str_eq,
  if◌then◌else◌, length,
}
use monica_companion.Idempotency.{Entry, CheckResult, running, done, check, claim}
use monica_companion.Scheduler.Command.{Command}
use monica_companion.Effects.{Fetched, rejected, not_ok, garbled, answered, Outcome, ok, throws}
use monica_companion.Scheduler.Worker.{
  World, Outside, Job, Execution, process_command_job, suppressed,
}
use monica_companion.Sql.{insert_new}

-- The responses of the route, by status and body.
pub data Response (R : Type 0) : Type 0 where
  invalid_body : Response R  -- 400
  already_completed : Option R → Response R  -- 200 { status: "completed", result }
  in_progress : Response R  -- 409
  executed : (execution_id : String) → Option R → Response R  -- 200
  execution_failed : (execution_id error : String) → Response R  -- 500
  queued : (execution_id : String) → Response R  -- 202
  crashed : Response R  -- the handler throws

abbrev pub claim_ttl : ℕ
claim_ttl = 5 * 60 * 1000

-- A request: its body as the JSON parser and the schema read it, the correlation id, the clocks, the
-- id that the database gives a new row, and whether a synchronous processor was provided.
pub record Call : Type 0 where
  pub body : Option Command
  pub correlation_id : String
  pub clock : ℕ
  pub now : ℕ
  pub new_id : String
  pub sync : Bool

module _ {R : Type 0} (out : Outside R) where
  abbrev execution_key : Execution → String
  execution_key e = e.idempotency_key

  abbrev execution_of : Call → Command → Execution
  execution_of call c = record {
    id = call.new_id;
    idempotency_key = c.idempotency_key;
    user_id = c.user_id;
    command_type = c.command_type;
    status = "queued";
  }

  abbrev pub job_of : Call → Command → Job
  job_of call c = record {
    execution_id = call.new_id;
    command = c;
    correlation_id = call.correlation_id;
  }

  abbrev result_of : Option (CheckResult R) → Option R
  result_of none = none
  result_of (some running) = none
  result_of (some (done r)) = r

  -- The synchronous branch: `processSync`, then a second look at the key.
  abbrev pub processed : Call → Command → Outcome (Unit {0}) × World R → Response R × World R
  processed call c (ok _, w) =
      (executed call.new_id (result_of (check c.idempotency_key w.keys)), w)
  processed call c (throws m, w) = (execution_failed call.new_id m, w)

  abbrev pub recorded : Call → Command → World R → Bool × List Execution → Response R × World R
  recorded call c w (false, rows) = (crashed, w)
  recorded call c w (true, rows) =
      let w' = record w { executions = rows } in
      if suppressed out c && call.sync
      then processed call c (process_command_job out (job_of call c) call.now w')
      else (queued call.new_id, record w' { queue = job_of call c ∷ w'.queue })

  -- From the claimed key on: insert the execution record, whose key is unique, and run or queue.
  unfoldable pub start : Call → Command → World R → Response R × World R
  start call c w = recorded call c w (insert_new execution_key (execution_of call c) w.executions)

  abbrev pub claimed_then : Call → Command → World R → Bool × List (Entry R) → Response R × World R
  claimed_then call c w (true, t) = start call c (record w { keys = t })
  claimed_then call c w (false, t) = (in_progress, record w { keys = t })

  -- The answer to a key that was seen before.
  abbrev pub repeated : World R → CheckResult R → Response R × World R
  repeated w (done result) = (already_completed result, w)
  repeated w running = (in_progress, w)

  unfoldable pub execute_command : Call → Command → World R → Response R × World R
  execute_command call c w = elim (check c.idempotency_key w.keys) [
    | some seen ↦ repeated w seen
    | none ↦ claimed_then call c w (claim c.idempotency_key claim_ttl call.clock call.now w.keys)
  ]

  unfoldable pub execute : Call → World R → Response R × World R
  execute call w = elim call.body [ none ↦ (invalid_body, w) | some c ↦ execute_command call c w ]

  -- The requests that reach the route, in the order in which it answers them.
  unfoldable pub serve : List Call → World R → World R
  serve [] w = w
  serve (call ∷ calls) w = serve calls (execute call w).1
