-- ===== src/Scheduler/Worker.antt =====
-- The command worker (services/scheduler/src/workers/command-worker.ts) over the state that it and
-- the execute route share. Monica, user-management and delivery are other processes: their answers
-- are functions of the number of earlier calls and of the request. Database statements succeed.
pub mod Laws
use monica_companion.Base.{
  ℕ, suc, ◌+◌, Bool, true, false, ◌&&◌, Option, none, some, List, [], ◌∷◌, String, str_eq,
  if◌then◌else◌, length,
}
use monica_companion.Effects.{Fetched, rejected, not_ok, garbled, answered, Outcome, ok, throws}
use monica_companion.Idempotency.{Entry, complete}
use monica_companion.Json.{◌+++◌, decimal}
use monica_companion.Scheduler.Command.{Command, MonicaRequest, map_command}

pub record Routing : Type 0 where
  pub connector_type : String
  pub connector_routing_id : String

pub data ContentKind : Type 0 where
  text_content error_content : ContentKind

-- The body of a request to /internal/deliver.
pub record Delivery : Type 0 where
  pub user_id : String
  pub routing : Routing
  pub correlation_id : String
  pub kind : ContentKind
  pub text : String

-- CommandJobData.
pub record Job : Type 0 where
  pub execution_id : String
  pub command : Command
  pub correlation_id : String

-- A row of command_executions, as far as the route and the worker read or write it.
pub record Execution : Type 0 where
  pub id : String
  pub idempotency_key : String
  pub user_id : String
  pub command_type : String
  pub status : String

-- The database, the queue, and the requests that were sent, newest first.
pub record World (R : Type 0) : Type 0 where
  pub keys : List (Entry R)
  pub executions : List Execution
  pub queue : List Job
  pub sent : List (Command × MonicaRequest)
  pub lookups : ℕ
  pub delivered : List Delivery

pub record Outside (R : Type 0) : Type 0 where
  pub monica : ℕ → String → MonicaRequest → Fetched R
  pub schedule_of : ℕ → String → Fetched Routing
  pub deliver : ℕ → Delivery → Option String

-- `command.connectorType && command.connectorRoutingId`: both given and not empty.
abbrev pub given : Command → Option Routing
given c = elim c.connector_type [
  | none ↦ none
  | some kind ↦ elim c.connector_routing_id [
    | none ↦ none
    | some id ↦
        if str_eq kind ""
        then none
        else if str_eq id ""
        then none
        else some (record { connector_type = kind; connector_routing_id = id })
  ]
]

module _ {R : Type 0} (out : Outside R) where
  -- The answer of user-management, as `resolveConnectorRouting` reads it.
  abbrev routed : Fetched Routing → Outcome Routing
  routed (rejected m) = throws m
  routed (not_ok status body) =
      throws
        ("user-management returned " +++ (decimal status +++ " when resolving connector routing"))
  routed (garbled m) = throws m
  routed (answered r) = ok r

  unfoldable pub resolve_routing : Command → World R → Outcome Routing × World R
  resolve_routing c w = elim (given c) [
    | some r ↦ (ok r, w)
    | none ↦ (routed (out.schedule_of w.lookups c.user_id), record w { lookups = suc w.lookups })
  ]

  abbrev pub success_notice : Job → Routing → Delivery
  success_notice job r = record {
    user_id = job.command.user_id;
    routing = r;
    correlation_id = job.correlation_id;
    kind = text_content;
    text = "Command " +++ (job.command.command_type +++ " completed successfully.");
  }

  -- A failing delivery is only logged.
  abbrev pub notify : Delivery → World R → World R
  notify d w = record w { delivered = d ∷ w.delivered }

  abbrev pub announce : Job → Outcome Routing × World R → Outcome (Unit {0}) × World R
  announce job (throws m, w) = (throws m, w)
  announce job (ok r, w) = (ok tt, notify (success_notice job r) w)

  abbrev pub suppressed : Command → Bool
  suppressed c = elim c.suppress_delivery [ none ↦ false | some b ↦ b ]

  -- After Monica has answered with `result`.
  unfoldable pub finish_job : Job → R → ℕ → World R → Outcome (Unit {0}) × World R
  finish_job job result now w =
      let w' = record w { keys = complete job.command.idempotency_key result now w.keys } in
      if suppressed job.command then (ok tt, w') else announce job (resolve_routing job.command w')

  abbrev pub request_sent : Job → World R → World R
  request_sent job w = record w { sent = (job.command, map_command job.command.payload) ∷ w.sent }

  -- processCommandJob. `now` is the database's NOW().
  unfoldable pub process_command_job : Job → ℕ → World R → Outcome (Unit {0}) × World R
  process_command_job job now w =
      elim (out.monica (length w.sent) job.command.user_id (map_command job.command.payload)) [
        | rejected m ↦ (throws m, request_sent job w)
        | not_ok status body ↦ (
          throws ("monica-integration returned " +++ (decimal status +++ (": " +++ body))),
          request_sent job w,
        )
        | garbled m ↦ (throws m, request_sent job w)
        | answered result ↦ finish_job job result now (request_sent job w)
      ]
