-- ===== src/Agent/Safety.antt =====
-- When the agent sends a command to the scheduler: only on a confirmation, and only what was confirmed.
use monica_companion.Base.{
  ◌≡◌, refl, ◌⊎◌, inl, inr, true, false, Option, none, some, List, ◌∷◌, String, Bool-cases,
  Option-cases, ◌∙◌, ap, eq_iff, str_eq,
}
use monica_companion.Effects.{Outcome, ok, throws}
use monica_companion.Json.{Fields, ◌+++◌}
use monica_companion.Agent.Messages.{Message}
use monica_companion.Agent.History.{
  Row, Pending, absent, refused, pending, PendingToolCall, get_history, is_expired,
}
use monica_companion.Agent.World.{World, Outside, M, await_then, ◌>>=◌}
use monica_companion.Agent.Mutating.{ToolOutcome, confirmed, execute_mutating_tool}
use monica_companion.Agent.Loop.{Reply, post_confirm_rounds, max_post_confirm_iterations}
use monica_companion.Agent.Callback.{
  Event, text_message, voice_message, callback_action, same_command, parse_callback_data,
  arguments_of, resumed, outcome_text, conclude, handle_confirm, handle_cancel, handle_edit, act,
  answer_callback, handle_callback, handle_text,
}
use monica_companion.Agent.Run.{run_agent_loop, recover}
use monica_companion.Agent.Frame.{Stays, bind-Stays, post_confirm-Stays}
use monica_companion.Agent.Sends.{Sends, execute-Sends}
use monica_companion.Agent.Quiet.{
  try-Stays, handle_text-Stays, recover-Stays, acknowledge-Stays, conclude-Stays,
}

module _ (out : Outside) where
  -- A confirmation sends at most the pending command.
  handle_confirm-sent :
      (u : String) (p : PendingToolCall) (ms : List Message) (correlation_id : String) (w : World)
      → ((handle_confirm out u p ms correlation_id w).1.executed ≡ w.executed)
        ⊎ ((payload : Fields) × ((handle_confirm out u p ms correlation_id w).1.executed
              ≡ confirmed out p.name u correlation_id p.pending_command_id payload ∷ w.executed))
  unfolding handle_confirm
  handle_confirm-sent u p ms correlation_id w =
      go
        (execute_mutating_tool out p.name (arguments_of out p) u correlation_id p.pending_command_id
          w)
        (execute-Sends out p.name (arguments_of out p) u correlation_id p.pending_command_id w)
    where
      rest : ToolOutcome → M Reply
      rest outcome =
          post_confirm_rounds out max_post_confirm_iterations u
            (resumed out ms p (outcome_text out outcome))
          >>= λ after. conclude out u after

      rest-Stays : (outcome : ToolOutcome) → Stays u (rest outcome)
      rest-Stays outcome =
          bind-Stays u
            (post_confirm_rounds out max_post_confirm_iterations u
              (resumed out ms p (outcome_text out outcome)))
            (λ after. conclude out u after) (post_confirm-Stays out u max_post_confirm_iterations _)
            (conclude-Stays out u)

      go :
          (q : Outcome ToolOutcome × World)
          → Sends out u correlation_id p.name p.pending_command_id w q.1
          → ((await_then q rest).1.executed ≡ w.executed)
            ⊎ ((payload : Fields) × ((await_then q rest).1.executed
                  ≡ confirmed out p.name u correlation_id p.pending_command_id payload
                    ∷ w.executed))
      go (throws m, w') s = s.sent
      go (ok o, w') s = elim s.sent [
        | inl same ↦ inl ((rest-Stays o w').executed ∙ same)
        | inr (payload, more) ↦ inr (payload, (rest-Stays o w').executed ∙ more)
      ]

  -- What one event may do: nothing to the scheduler, or send it the pending command of a
  -- confirmation that names it in time.
  pub data Authorised (u correlation_id : String) (w w' : World) : Event → Type 0 where
    nothing_sent : {e : Event} → w'.executed ≡ w.executed → Authorised u correlation_id w w' e
    on_confirmation :
        (action callback : String) (r : Row) (p : PendingToolCall) (payload : Fields)
        → action ≡ "confirm"
        → get_history u w.rows ≡ some r
        → r.pending_tool_call ≡ pending p
        → parse_callback_data out callback ≡ some p.pending_command_id
        → is_expired p out.ttl_minutes out.now ≡ false
        → w'.executed
          ≡ record {
            pending_command_id = p.pending_command_id;
            user_id = u;
            command_type = p.name;
            payload = payload;
            idempotency_key = p.pending_command_id +++ ":v1";
            correlation_id = correlation_id;
            confirmed_at = out.now;
            suppress_delivery = true;
          }
            ∷ w.executed
        → Authorised u correlation_id w w' (callback_action action callback)

  act-sent :
      (u : String) (r : Row) (p : PendingToolCall) (action callback correlation_id : String)
      (w : World)
      → get_history u w.rows ≡ some r
      → r.pending_tool_call ≡ pending p
      → parse_callback_data out callback ≡ some p.pending_command_id
      → is_expired p out.ttl_minutes out.now ≡ false
      → Authorised u correlation_id w
          (act out u p r.messages action correlation_id w).1
          (callback_action action callback)
  unfolding handle_cancel handle_edit
  act-sent u r p action callback correlation_id w found waits names intime =
      elim (Bool-cases (str_eq action "confirm")) [
        | inl c ↦ rw c (elim (handle_confirm-sent u p r.messages correlation_id w) [
          | inl same ↦ nothing_sent same
          | inr (payload, sent) ↦
              on_confirmation action callback r p payload ((eq_iff action "confirm").0 c) found
                waits names intime sent
        ])
        | inr c ↦ rw c (elim (Bool-cases (str_eq action "cancel")) [
          | inl d ↦ rw d (nothing_sent (acknowledge-Stays out _ _ _ u p r.messages w).executed)
          | inr d ↦ rw d (elim (Bool-cases (str_eq action "edit")) [
            | inl e ↦ rw e (nothing_sent (acknowledge-Stays out _ _ _ u p r.messages w).executed)
            | inr e ↦ rw e (nothing_sent refl)
          ])
        ])
      ]

  same-command :
      (p : PendingToolCall) (o : Option String)
      → same_command out p o ≡ true
      → o ≡ some p.pending_command_id
  same-command p none h = cc
  same-command p (some id) h = ap some ((eq_iff id p.pending_command_id).0 h)

  pending-sent :
      (u : String) (r : Row) (p : PendingToolCall) (action callback correlation_id : String)
      (w : World)
      → get_history u w.rows ≡ some r
      → r.pending_tool_call ≡ pending p
      → Authorised u correlation_id w
          (answer_callback out u (some r) action callback correlation_id (pending p) w).1
          (callback_action action callback)
  pending-sent u r p action callback correlation_id w found waits =
      elim (Bool-cases (same_command out p (parse_callback_data out callback))) [
        | inr other ↦ rw other (nothing_sent refl)
        | inl names ↦ rw names (elim (Bool-cases (is_expired p out.ttl_minutes out.now)) [
          | inl late ↦ rw late (nothing_sent refl)
          | inr intime ↦ rw intime (
              act-sent u r p action callback correlation_id w found waits (same-command p _ names)
                intime)
        ])
      ]

  row-sent :
      (u : String) (r : Row) (action callback correlation_id : String) (w : World) (q : Pending)
      → get_history u w.rows ≡ some r
      → r.pending_tool_call ≡ q
      → Authorised u correlation_id w
          (answer_callback out u (some r) action callback correlation_id q w).1
          (callback_action action callback)
  row-sent u r action callback correlation_id w absent found waits = nothing_sent refl
  row-sent u r action callback correlation_id w refused found waits = nothing_sent refl
  row-sent u r action callback correlation_id w (pending p) found waits =
      pending-sent u r p action callback correlation_id w found waits

  callback-sent :
      (u action callback correlation_id : String) (w : World)
      → Authorised u correlation_id w
          (handle_callback out u action callback correlation_id w).1
          (callback_action action callback)
  unfolding handle_callback
  callback-sent u action callback correlation_id w = elim (Option-cases (get_history u w.rows)) [
    | inl gone ↦ rw (gone, handle_callback) (nothing_sent refl)
    | inr (r, found) ↦
        rw (found, handle_callback)
          (row-sent u r action callback correlation_id w r.pending_tool_call found refl)
  ]

  -- No event sends a command to the scheduler but a "confirm" callback that names the user's
  -- pending call before it expires, and that sends one command at most: the pending tool, for this
  -- user, under the idempotency key of the pending command.
  pub run-Authorised :
      (u : String) (e : Event) (correlation_id : String) (w : World)
      → Authorised u correlation_id w (run_agent_loop out u e correlation_id w).1 e
  unfolding run_agent_loop
  run-Authorised u (text_message t) correlation_id w =
      nothing_sent
        (try-Stays out u (handle_text out u t) (λ _. recover out u) (handle_text-Stays out u t)
          (λ _. recover-Stays out u) w).executed
  run-Authorised u (voice_message t) correlation_id w =
      nothing_sent
        (try-Stays out u (handle_text out u t) (λ _. recover out u) (handle_text-Stays out u t)
          (λ _. recover-Stays out u) w).executed
  run-Authorised u (callback_action action callback) correlation_id w =
      callback-sent u action callback correlation_id w
