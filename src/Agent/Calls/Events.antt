-- ===== src/Agent/Calls/Events.antt =====
-- How often one event of the user asks the language model.
use monica_companion.Base.{
  ℕ, ◌+◌, ◌≤◌, inl, inr, Option, none, some, List, String, arith, Bool-cases, Option-cases, str_eq,
  length, ◌==◌,
}
use monica_companion.Effects.{Outcome, ok, throws}
use monica_companion.Json.{Fields}
use monica_companion.Agent.Messages.{Message}
use monica_companion.Agent.History.{
  Row, Pending, PendingToolCall, absent, refused, pending, get_history, is_expired,
}
use monica_companion.Agent.World.{World, Outside, M, caught, ◌>>=◌, pure, try}
use monica_companion.Agent.Mutating.{
  ToolOutcome, execute_mutating_tool, build_payload, fetch_contact_field_type_id, field_payload,
  submit, scheduler_execute, confirmed,
}
use monica_companion.Agent.Turn.{status_message}
use monica_companion.Agent.Loop.{
  Reply, says, confirmation_prompt, fails, max_iterations, max_post_confirm_iterations, save, ask,
  or_text, content_of, post_confirm_rounds,
}
use monica_companion.Agent.Callback.{
  Event, text_message, voice_message, callback_action, stored, pending_of, resumed, conclude,
  handle_confirm, handle_cancel, handle_edit, arguments_of, outcome_text, acknowledge, acknowledged,
  act, answer_callback, same_command, parse_callback_data, handle_callback, handle_text,
}
use monica_companion.Agent.Run.{run_agent_loop, recover, repair_history}
use monica_companion.Agent.Calls.{Asks, bind-Asks, ask-Asks, rounds-Asks, post_confirm-Asks}

module _ (out : Outside) (u : String) where
  fetch-Asks : (kind : String) → Asks 0 (fetch_contact_field_type_id out u kind)
  unfolding fetch_contact_field_type_id
  fetch-Asks kind w = omega arith

  build-Asks : (name : String) (args : Fields) → Asks 0 (build_payload out name args u)
  unfolding build_payload
  build-Asks name args w = elim (Bool-cases (str_eq name "update_contact_phone")) [
    | inl e ↦
        rw (e, build_payload)
          (bind-Asks 0 0 0 (fetch_contact_field_type_id out u "phone")
            (λ id. pure (some (field_payload out "update_contact_phone" "phone_number" args id)))
            (omega arith) (fetch-Asks "phone") (λ id w'. omega arith) w)
    | inr e ↦
        rw (e, build_payload)
          (elim (Bool-cases (str_eq name "update_contact_email")) [
            | inl f ↦ rw f (
                bind-Asks 0 0 0 (fetch_contact_field_type_id out u "email")
                  (λ id. pure (some (field_payload out "update_contact_email" "email" args id)))
                  (omega arith) (fetch-Asks "email") (λ id w'. omega arith) w)
            | inr f ↦ rw f (omega arith)
          ])
  ]

  submit-Asks :
      (name correlation_id id : String) (p : Option Fields)
      → Asks 0 (submit out name u correlation_id id p)
  unfolding scheduler_execute
  submit-Asks name correlation_id id none w = omega arith
  submit-Asks name correlation_id id (some payload) w =
      bind-Asks 0 0 0 (scheduler_execute out (confirmed out name u correlation_id id payload))
        (λ r. pure (ToolOutcome.success r.0 r.1)) (omega arith) (λ w'. omega arith)
        (λ r w'. omega arith) w

  try-Asks :
      {A : Type 0} (n k all : ℕ) (m : M A) (handler : String → M A)
      → n + k ≤ all
      → Asks n m
      → ((e : String) → Asks k (handler e))
      → Asks all (try m handler)
  try-Asks {A} n k all m handler le mn hk w = go (m w) (mn w)
    where
      go :
          (p : Outcome A × World)
          → p.1.chats ≤ w.chats + n
          → (caught handler p).1.chats ≤ w.chats + all
      go (ok a, w') h = omega (arith, le, h)
      go (throws e, w') h = omega (arith, le, h, hk e w')

  execute-Asks :
      (name : String) (args : Fields) (correlation_id id : String)
      → Asks 0 (execute_mutating_tool out name args u correlation_id id)
  unfolding execute_mutating_tool
  execute-Asks name args correlation_id id =
      try-Asks 0 0 0 (build_payload out name args u >>= λ p. submit out name u correlation_id id p)
        _ (omega arith)
        (bind-Asks 0 0 0 (build_payload out name args u)
          (λ p. submit out name u correlation_id id p) (omega arith) (build-Asks name args)
          (submit-Asks name correlation_id id))
        (λ e w. omega arith)

  conclude-Asks : (r : Reply × List Message) → Asks 0 (conclude out u r)
  conclude-Asks (confirmation_prompt t id v, ms) w = omega arith
  conclude-Asks (says t, ms) w = omega arith
  conclude-Asks (fails t, ms) w = omega arith

  confirm-Asks :
      (p : PendingToolCall) (ms : List Message) (correlation_id : String)
      → Asks max_post_confirm_iterations (handle_confirm out u p ms correlation_id)
  unfolding handle_confirm
  confirm-Asks p ms correlation_id =
      bind-Asks 0 3 3
        (execute_mutating_tool out p.name (arguments_of out p) u correlation_id
          p.pending_command_id)
        (λ o.
          post_confirm_rounds out max_post_confirm_iterations u
            (resumed out ms p (outcome_text out o))
          >>= λ after. conclude out u after)
        (omega arith) (execute-Asks p.name (arguments_of out p) correlation_id p.pending_command_id)
        (λ o.
          bind-Asks 3 0 3
            (post_confirm_rounds out max_post_confirm_iterations u
              (resumed out ms p (outcome_text out o)))
            (λ after. conclude out u after) (omega arith)
            (post_confirm-Asks out u max_post_confirm_iterations
              (resumed out ms p (outcome_text out o)))
            conclude-Asks)

  acknowledge-Asks :
      (status message default : String) (p : PendingToolCall) (ms : List Message)
      → Asks 1 (acknowledge out status message default u p ms)
  acknowledge-Asks status message default p ms w =
      let ms' = resumed out ms p (out.stringify (status_message status message)) in
      bind-Asks 1 0 1 (ask out ms')
        (λ a.
          save out u (acknowledged out ms' a) absent
          >>= (λ _. pure (says (or_text (content_of a) default))))
        (omega arith) (ask-Asks out u ms') (λ a w'. omega arith) w

  act-Asks :
      (p : PendingToolCall) (ms : List Message) (action correlation_id : String)
      → Asks 3 (act out u p ms action correlation_id)
  unfolding handle_cancel handle_edit
  act-Asks p ms action correlation_id w = elim (Bool-cases (str_eq action "confirm")) [
    | inl c ↦ rw c (confirm-Asks p ms correlation_id w)
    | inr c ↦ rw c (elim (Bool-cases (str_eq action "cancel")) [
      | inl d ↦ rw d (omega (arith, acknowledge-Asks _ _ _ p ms w))
      | inr d ↦ rw d (elim (Bool-cases (str_eq action "edit")) [
        | inl e ↦ rw e (omega (arith, acknowledge-Asks _ _ _ p ms w))
        | inr e ↦ rw e (omega arith)
      ])
    ])
  ]

  answer-Asks :
      (r : Option Row) (action callback correlation_id : String) (q : Pending)
      → Asks 3 (answer_callback out u r action callback correlation_id q)
  answer-Asks r action callback correlation_id absent w = omega arith
  answer-Asks r action callback correlation_id refused w = omega arith
  answer-Asks r action callback correlation_id (pending p) w =
      elim (Bool-cases (same_command out p (parse_callback_data out callback))) [
        | inr e ↦ rw e (omega arith)
        | inl e ↦ rw e (elim (Bool-cases (is_expired p out.ttl_minutes out.now)) [
          | inl f ↦ rw f (omega arith)
          | inr f ↦ rw f (act-Asks p (stored r) action correlation_id w)
        ])
      ]

  text-Asks : (t : String) → Asks max_iterations (handle_text out u t)
  unfolding handle_text
  text-Asks t w = elim (Bool-cases (str_eq t "")) [
    | inl e ↦ rw e (omega arith)
    | inr e ↦ rw e (rounds-Asks out u max_iterations _ 0 w)
  ]

  recover-Asks : Asks 0 (recover out u)
  recover-Asks w = elim (Option-cases (get_history u w.rows)) [
    | inl gone ↦ rw gone (omega arith)
    | inr (r, found) ↦
        rw found (elim (Bool-cases (length (repair_history out r.messages) == length r.messages)) [
          | inl e ↦ rw e (omega arith)
          | inr e ↦ rw e (omega arith)
        ])
  ]

  -- The most that an event may ask.
  abbrev pub allowance : Event → ℕ
  allowance (callback_action action callback) = max_post_confirm_iterations
  allowance _ = max_iterations

  -- Whatever the model and the other services answer, handling a text asks the model five times at
  -- most, and handling a callback three times.
  pub run-chats :
      (e : Event) (correlation_id : String) (w : World)
      → (run_agent_loop out u e correlation_id w).1.chats ≤ w.chats + allowance e
  unfolding run_agent_loop handle_callback
  run-chats (text_message t) correlation_id =
      try-Asks 5 0 5 (handle_text out u t) (λ _. recover out u) (omega arith) (text-Asks t)
        (λ _. recover-Asks)
  run-chats (voice_message t) correlation_id =
      try-Asks 5 0 5 (handle_text out u t) (λ _. recover out u) (omega arith) (text-Asks t)
        (λ _. recover-Asks)
  run-chats (callback_action action callback) correlation_id = λ w.
      answer-Asks (get_history u w.rows) action callback correlation_id
        (pending_of (get_history u w.rows)) w
