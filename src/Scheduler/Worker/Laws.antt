-- ===== src/Scheduler/Worker/Laws.antt =====
-- What a run of the command worker does.
use monica_companion.Base.{
  ℕ, ◌≡◌, refl, inl, inr, Bool, true, false, none, some, List, ◌∷◌, String, arith, length, Option,
  [], not, ◌&&◌, ◌++◌, str_eq, if◌then◌else◌, Bool-cases, Option-cases, str_eq_self, ◌∙◌, ap,
}
use monica_companion.Idempotency.{Entry, complete, check, running}
use monica_companion.Idempotency.Laws.{entry, entry-complete}
use monica_companion.Idempotency.Claims.{check-entry, IsDone}
use monica_companion.Sql.{row-key}
use monica_companion.Json.{◌+++◌, decimal}
use monica_companion.Idempotency.{key_of}
use monica_companion.Scheduler.Command.{map_command}
use monica_companion.Effects.{Fetched, rejected, not_ok, garbled, answered, ok, throws}
use monica_companion.Scheduler.Worker.{
  Routing, Job, World, Outside, resolve_routing, given, suppressed, finish_job, process_command_job,
  Delivery, text_content, announce, request_sent,
}

module _ {R : Type 0} (out : Outside R) where
  -- Completing a claimed key makes its result final.
  pub complete-IsDone :
      (k : String) (v : R) (now : ℕ) (t : List (Entry R))
      → check k t ≡ some running
      → IsDone k v (complete k v now t)
  complete-IsDone k v now t h = elim (Option-cases (entry k t)) [
    | inl gone ↦ absurd (ground (arith, check-entry k t))
    | inr (e, found) ↦ ground (
      arith,
      check-entry k t,
      check-entry k (complete k v now t),
      entry-complete k k v now t,
      row-key key_of k t e found,
      str_eq_self k,
    )
  ]

  abbrev pub answer : Job → World R → Fetched R
  answer job w = out.monica (length w.sent) job.command.user_id (map_command job.command.payload)

  -- Every run sends the mapped request to Monica once, and no other.
  pub process-sent :
      (job : Job) (now : ℕ) (w : World R)
      → (process_command_job out job now w).1.sent
        ≡ (job.command, map_command job.command.payload) ∷ w.sent
  unfolding process_command_job finish_job resolve_routing
  process-sent job now w = ground arith

  -- A run touches neither the queue nor the execution records.
  pub process_keeps :
      (job : Job) (now : ℕ) (w : World R)
      → ((process_command_job out job now w).1.queue ≡ w.queue)
        × ((process_command_job out job now w).1.executions ≡ w.executions)
  unfolding process_command_job finish_job resolve_routing
  process_keeps job now w = ground arith

  -- The keys change only by completing the job's own key with Monica's answer.
  pub process-keys :
      (job : Job) (now : ℕ) (w : World R)
      → (process_command_job out job now w).1.keys ≡ elim (answer job w) [
        | answered r ↦ complete job.command.idempotency_key r now w.keys
        | _ ↦ w.keys
      ]
  unfolding process_command_job finish_job resolve_routing
  process-keys job now w = ground arith

  abbrev pub is_answered : Fetched R → Bool
  is_answered (answered r) = true
  is_answered _ = false

  -- Unless Monica answers with a body, the run throws, and neither the keys nor the notices change.
  pub process_refused :
      (job : Job) (now : ℕ) (w : World R)
      → is_answered (answer job w) ≡ false
      → (m : String) × ((process_command_job out job now w).0 ≡ throws m)
        × ((process_command_job out job now w).1.keys ≡ w.keys)
        × ((process_command_job out job now w).1.delivered ≡ w.delivered)
  unfolding process_command_job
  process_refused job now w h = go (answer job w) refl h
    where
      go :
          (a : Fetched R)
          → answer job w ≡ a
          → is_answered a ≡ false
          → (m : String) × ((process_command_job out job now w).0 ≡ throws m)
            × ((process_command_job out job now w).1.keys ≡ w.keys)
            × ((process_command_job out job now w).1.delivered ≡ w.delivered)
      go (rejected m) e h = (m, ground arith, ground arith, ground arith)
      go (not_ok n m) e h = (
        "monica-integration returned " +++ (decimal n +++ (": " +++ m)),
        ground arith,
        ground arith,
        ground arith,
      )
      go (garbled m) e h = (m, ground arith, ground arith, ground arith)
      go (answered r) e h = cc

  -- If Monica answers and the key of the command is in progress, her answer is stored as the result
  -- of the key, whatever becomes of the notice.
  pub process_answered :
      (job : Job) (now : ℕ) (w : World R) (r : R)
      → answer job w ≡ answered r
      → check job.command.idempotency_key w.keys ≡ some running
      → IsDone job.command.idempotency_key r (process_command_job out job now w).1.keys
  process_answered job now w r e claimed =
      rw (process-keys job now w)
        (rw e (complete-IsDone job.command.idempotency_key r now w.keys claimed))

  -- If Monica answers, a run of a command that suppresses delivery succeeds, looks up no routing
  -- and sends no notice.
  pub process_suppressed :
      (job : Job) (now : ℕ) (w : World R) (r : R)
      → answer job w ≡ answered r
      → suppressed out job.command ≡ true
      → ((process_command_job out job now w).0 ≡ ok tt)
        × ((process_command_job out job now w).1.lookups ≡ w.lookups)
        × ((process_command_job out job now w).1.delivered ≡ w.delivered)
  unfolding process_command_job finish_job
  process_suppressed job now w r e s = (ground arith, ground arith, ground arith)

  -- The notice of a success, as a delivery request by the connector.
  abbrev pub notice_by : Job → String → String → Delivery
  notice_by job kind id = record {
    user_id = job.command.user_id;
    routing = record { connector_type = kind; connector_routing_id = id };
    correlation_id = job.correlation_id;
    kind = text_content;
    text = "Command " +++ (job.command.command_type +++ " completed successfully.");
  }

  -- The connector is that of the command, if both parts of it are there and not empty, and the one
  -- that user-management gives otherwise.
  abbrev pub by_schedule : Job → Fetched Routing → List Delivery
  by_schedule job (answered to) = notice_by job to.connector_type to.connector_routing_id ∷ []
  by_schedule job _ = []

  abbrev pub routed_notices : Job → Option String → Option String → Fetched Routing → List Delivery
  routed_notices job (some kind) (some id) a =
      if not (str_eq kind "") && not (str_eq id "")
      then notice_by job kind id ∷ []
      else by_schedule job a
  routed_notices job _ _ a = by_schedule job a

  -- The notices of a run, by what Monica and user-management answer: none for a command that
  -- suppresses delivery.
  abbrev pub due_notices : Job → Fetched R → Option Bool → Fetched Routing → List Delivery
  due_notices job (answered r) (some true) a = []
  due_notices job (answered r) (some false) a =
      routed_notices job job.command.connector_type job.command.connector_routing_id a
  due_notices job (answered r) none a =
      routed_notices job job.command.connector_type job.command.connector_routing_id a
  due_notices job _ _ a = []

  announced-delivered :
      (job : Job) (w : World R)
      → (announce out job (resolve_routing out job.command w)).1.delivered
        ≡ routed_notices job job.command.connector_type job.command.connector_routing_id
            (out.schedule_of w.lookups job.command.user_id)
          ++ w.delivered
  unfolding resolve_routing
  announced-delivered job w = ground arith

  finished-delivered :
      (job : Job) (r : R) (now : ℕ) (w : World R)
      → (finish_job out job r now w).1.delivered
        ≡ due_notices job
            (answered r)
            job.command.suppress_delivery
            (out.schedule_of w.lookups job.command.user_id)
          ++ w.delivered
  unfolding finish_job resolve_routing
  finished-delivered job r now w =
      let w' : World R = record w { keys = complete job.command.idempotency_key r now w.keys } in
      elim (Option-cases job.command.suppress_delivery) [
        | inl e ↦ rw (e, finish_job) (announced-delivered job w')
        | inr (b, e) ↦ elim (Bool-cases b) [
          | inl f ↦ rw (e, f, finish_job) refl
          | inr f ↦ rw (e, f, finish_job) (announced-delivered job w')
        ]
      ]

  -- A run of a command sends a notice exactly if Monica answers with a body, the command does not
  -- suppress delivery, and it names its connector or user-management gives one: then it sends one,
  -- to the user, by that connector, the command's own going first, under the correlation identifier
  -- of the job; otherwise it sends none.
  pub process-delivered :
      (job : Job) (now : ℕ) (w : World R)
      → (process_command_job out job now w).1.delivered
        ≡ due_notices job
            (answer job w)
            job.command.suppress_delivery
            (out.schedule_of w.lookups job.command.user_id)
          ++ w.delivered
  unfolding process_command_job
  process-delivered job now w = go (answer job w) refl
    where
      go :
          (a : Fetched R)
          → answer job w ≡ a
          → (process_command_job out job now w).1.delivered
            ≡ due_notices job a job.command.suppress_delivery
                (out.schedule_of w.lookups job.command.user_id)
              ++ w.delivered
      go (answered r) e =
          rw (e, process_command_job) (finished-delivered job r now (request_sent out job w))
      go (rejected m) e = rw (e, process_command_job) refl
      go (not_ok n m) e = rw (e, process_command_job) refl
      go (garbled m) e = rw (e, process_command_job) refl

  -- If Monica answers a command that does not suppress delivery and names no connector, and
  -- user-management refuses to give one, the run throws, and a later run of the job sends the same
  -- request to Monica again.
  pub retry_resends :
      (job : Job) (now later : ℕ) (w : World R) (r : R) (status : ℕ) (body : String)
      → answer job w ≡ answered r
      → suppressed out job.command ≡ false
      → given job.command ≡ none
      → out.schedule_of w.lookups job.command.user_id ≡ not_ok status body
      → ((m : String) × ((process_command_job out job now w).0 ≡ throws m))
        × ((process_command_job out job later (process_command_job out job now w).1).1.sent
            ≡ (job.command, map_command job.command.payload)
              ∷ (job.command, map_command job.command.payload)
              ∷ w.sent)
  unfolding process_command_job finish_job resolve_routing
  retry_resends job now later w r status body e s g u = (
    (
      "user-management returned " +++ (decimal status +++ " when resolving connector routing"),
      rw (e, process_command_job) (rw s (rw (g, resolve_routing) (rw u refl))),
    ),
    process-sent job later (process_command_job out job now w).1
        ∙ ap (λ l. (job.command, map_command job.command.payload) ∷ l) (process-sent job now w),
  )
