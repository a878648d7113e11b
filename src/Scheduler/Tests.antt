-- ===== src/Scheduler/Tests.antt =====
-- Runs of the execute route and of the command worker, and their theorems at concrete states.
use monica_companion.Base.{
  ℕ, zero, suc, ◌+◌, ◌≤◌, ◌≡◌, refl, Bool, true, false, Option, none, some, List, [], ◌∷◌, String,
}
use monica_companion.Json.{pos, decimal, show}
use monica_companion.Sql.{update_where, insert_new}
use monica_companion.Idempotency.{completed, check, reclaim, insert, claim, complete, fresh}
use monica_companion.Idempotency.Laws.{entry}
use monica_companion.Idempotency.Claims.{IsDone}
use monica_companion.Effects.{not_ok, answered, throws}
use monica_companion.Scheduler.Command.{Command, create_note, map_command, MonicaRequest}
use monica_companion.Scheduler.Worker.{
  Job, World, Outside, process_command_job, finish_job, resolve_routing,
}
use monica_companion.Scheduler.Worker.Laws.{
  process_answered, notice_by, process-delivered, retry_resends,
}
use monica_companion.Scheduler.Execute.{
  Response, already_completed, executed, execution_failed, queued, Call, job_of, start,
  execute_command, execute, serve,
}
use monica_companion.Scheduler.Execute as Execute
use monica_companion.Scheduler.Execute.Laws.{execute_failed_blocks}
use monica_companion.Scheduler.Execute.Once.{started, slack, serve-started}

scheduler : Unit {0}
unfolding process_command_job finish_job resolve_routing start execute_command execute serve
    update_where insert_new map_command show decimal check reclaim insert claim complete
scheduler = tt

-- Monica fails on the first request and answers the others; user-management is down.
abbrev flaky : Outside String
flaky = record {
  monica = λ n u r. elim n [ zero ↦ not_ok 502 "down" | suc m ↦ answered "made" ];
  schedule_of = λ n u. not_ok 500 "down";
  deliver = λ n d. none;
}

abbrev note : Bool → Option String → Command
note quiet connector = record {
  pending_command_id = "p1";
  user_id = "ann";
  command_type = "create_note";
  payload = create_note (pos 7) "hello";
  idempotency_key = "p1:v1";
  correlation_id = "c1";
  confirmed_at = "2026-01-01T00:00:00Z";
  connector_type = connector;
  connector_routing_id = some "chat";
  suppress_delivery = some quiet;
}

abbrev call_at : ℕ → Command → Call
call_at now c = record {
  body = some c;
  correlation_id = "c1";
  clock = now;
  now = now;
  new_id = "e1";
  sync = true;
}

-- `earlier` commands were sent before.
abbrev empty_world : List (Command × MonicaRequest) → World String
empty_world earlier = record {
  keys = [];
  executions = [];
  queue = [];
  sent = earlier;
  lookups = 0;
  delivered = [];
}

abbrev once_sent : World String
once_sent = empty_world ((note true none, map_command (create_note (pos 7) "hello")) ∷ [])

abbrev job : Command → Job
job c = record { execution_id = "e1"; command = c; correlation_id = "c1" }

abbrev claimed_world : World String
claimed_world = record once_sent { keys = fresh "p1:v1" 900 100 ∷ [] }

abbrev finished_world : World String
finished_world = record once_sent {
  keys =
      record {
        key = "p1:v1";
        status = completed;
        claimed_at = 10;
        completed_at = some 20;
        result = some "made";
        expires_at = 900;
      }
      ∷ [];
}

route_tests :
    ((execute flaky (call_at 100 (note true none)) (empty_world [])).0
      ≡ execution_failed "e1" "monica-integration returned 502: down")
    × ((execute flaky (call_at 100 (note true none)) once_sent).0 ≡ executed "e1" (some "made"))
    × ((execute flaky (call_at 100 (note false none)) once_sent).0 ≡ queued "e1")
unfolding scheduler
route_tests = (refl, refl, refl)

serve-started_example :
    started flaky "p1:v1" (
      serve flaky
        (call_at 100 (note true none) ∷ call_at 999999 (note true none) ∷ [])
        (empty_world []))
    ≤ started flaky "p1:v1" (empty_world []) + slack flaky (entry "p1:v1" (empty_world []).keys)
serve-started_example =
    serve-started flaky (call_at 100 (note true none) ∷ call_at 999999 (note true none) ∷ [])
      "p1:v1" (empty_world []) tt

execute_failed_blocks_example :
    execute flaky
      (call_at 999999 (note true none))
      (execute flaky (call_at 100 (note true none)) (empty_world [])).1
    ≡ (Execute.in_progress, (execute flaky (call_at 100 (note true none)) (empty_world [])).1)
unfolding scheduler
execute_failed_blocks_example =
    execute_failed_blocks flaky (call_at 100 (note true none)) (call_at 999999 (note true none))
      (note true none) (note true none) (empty_world []) "e1"
      "monica-integration returned 502: down" tt refl refl refl refl

process_answered_example :
    IsDone "p1:v1" "made"
      (process_command_job flaky (job (note true none)) 100 claimed_world).1.keys
unfolding scheduler
process_answered_example =
    process_answered flaky (job (note true none)) 100 claimed_world "made" refl refl

process-delivered_example :
    (process_command_job flaky (job (note false (some "telegram"))) 100 claimed_world).1.delivered
    ≡ notice_by flaky (job (note false (some "telegram"))) "telegram" "chat" ∷ []
process-delivered_example =
    process-delivered flaky (job (note false (some "telegram"))) 100 claimed_world

retry_resends_example :
    ((m : String) × ((process_command_job flaky (job (note false none)) 100 claimed_world).0
        ≡ throws m))
    × ((process_command_job flaky
          (job (note false none))
          200
          (process_command_job flaky (job (note false none)) 100 claimed_world).1).1.sent
        ≡ (note false none, map_command (create_note (pos 7) "hello"))
          ∷ (note false none, map_command (create_note (pos 7) "hello"))
          ∷ once_sent.sent)
retry_resends_example =
    retry_resends flaky (job (note false none)) 100 200 claimed_world "made" 500 "down" refl refl
      refl refl
