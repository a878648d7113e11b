-- ===== src/Agent/Callback.antt =====
-- Events of the user (services/ai-router/src/agent/loop.ts): confirming, cancelling and editing the
-- pending call, and texts.
use Prim.Native.Char.{Char, code}
use monica_companion.Base.{
  zero, Bool, false, not, Option, none, some, List, [], ◌∷◌, ◌++◌, String, str_eq, if◌then◌else◌,
  ◌==◌,
}
use monica_companion.Json.{ℤ, Json, null, bool, int, text, obj, Fields, end, field, optional, ◌+++◌}
use monica_companion.Agent.Messages.{Message, user, assistant, tool, Assistant, strip_tool_calls}
use monica_companion.Agent.Tools.{fields_of}
use monica_companion.Agent.History.{
  PendingToolCall, Pending, absent, refused, pending, Row, get_history, is_expired,
}
use monica_companion.Agent.World.{Outside, M, pure, ◌>>=◌, ◌>>◌}
use monica_companion.Agent.Mutating.{ToolOutcome, success, error, execute_mutating_tool}
use monica_companion.Agent.Turn.{status_message}
use monica_companion.Agent.Loop.{
  Reply, says, confirmation_prompt, fails, max_iterations, max_post_confirm_iterations, or_text,
  content_of, save, ask, agent_rounds, post_confirm_rounds,
}

-- InboundEvent.
pub data Event : Type 0 where
  text_message voice_message : (text : String) → Event
  callback_action : (action callback : String) → Event

-- The text before the last ":", and the text after it; `none` if there is no ":".
abbrev pub prepended : Char → String → Option (String × String) → Option (String × String)
prepended c s (some (before, after)) = some (String.◌∷◌ c before, after)
prepended c s none = if code c == b':' then some ("", s) else none

unfoldable pub split_last : String → Option (String × String)
split_last String.[] = none
split_last (String.◌∷◌ c s) = prepended c s (split_last s)

-- history?.messages ?? [].
abbrev pub stored : Option Row → List Message
stored none = []
stored (some r) = r.messages

abbrev pub pending_of : Option Row → Pending
pending_of none = absent
pending_of (some r) = r.pending_tool_call

module _ (out : Outside) where
  -- parseCallbackData: "pendingCommandId:version", the version being a number.
  abbrev pub identified : String → Option Json → Option String
  identified id none = none
  identified id (some n) = if str_eq id "" then none else some id

  abbrev pub parsed : Option (String × String) → Option String
  parsed none = none
  parsed (some (id, version)) = identified id (out.number version)

  unfoldable pub parse_callback_data : String → Option String
  unfolding split_last
  parse_callback_data s = parsed (split_last s)

  -- JSON.parse(pending.arguments), or no arguments.
  abbrev pub arguments_of : PendingToolCall → Fields
  arguments_of p = elim (out.parse p.arguments) [ none ↦ end | some v ↦ fields_of v ]

  -- A value that counts as true in a condition.
  abbrev pub truthy : Option Json → Option Json
  truthy (some null) = none
  truthy (some (bool false)) = none
  truthy (some (int (ℤ.pos zero))) = none
  truthy (some (text s)) = if str_eq s "" then none else some (text s)
  truthy v = v

  abbrev pub outcome_text : ToolOutcome → String
  outcome_text (success id r) = out.stringify (
      obj (
        field "status" (text "success") (
          field "executionId" (text id) (
            field "message" (text "Action executed successfully.")
              (optional "result" (truthy r) end)))))
  outcome_text (error message) = out.stringify (status_message "error" message)

  -- The stored history, the pending call with what it collected, and the result of the call.
  abbrev pub resumed : List Message → PendingToolCall → String → List Message
  resumed ms p content =
      ms ++ assistant p.assistant_message ∷ (p.collected ++ tool p.tool_call_id content ∷ [])

  abbrev pub conclude : String → Reply × List Message → M Reply
  conclude u (confirmation_prompt t id version, ms) = pure (confirmation_prompt t id version)
  conclude u (reply, ms) = do save out u ms absent; pure reply

  -- handleConfirm.
  unfoldable pub handle_confirm : String → PendingToolCall → List Message → String → M Reply
  handle_confirm u p ms correlation_id = do
    outcome ←
        execute_mutating_tool out p.name (arguments_of p) u correlation_id p.pending_command_id
    after ←
        post_confirm_rounds out max_post_confirm_iterations u (resumed ms p (outcome_text outcome))
    conclude u after

  abbrev pub acknowledged : List Message → Option Assistant → List Message
  acknowledged ms none = ms
  acknowledged ms (some a) = ms ++ assistant (strip_tool_calls a) ∷ []

  -- handleCancel and handleEdit, which differ in their texts.
  abbrev pub acknowledge :
      (status message default : String) → String → PendingToolCall → List Message → M Reply
  acknowledge status message default u p ms =
      let ms' = resumed ms p (out.stringify (status_message status message)) in
      do
        a ← ask out ms'
        save out u (acknowledged ms' a) absent
        pure (says (or_text (content_of a) default))

  unfoldable pub handle_cancel : String → PendingToolCall → List Message → M Reply
  handle_cancel u p ms =
      acknowledge "cancelled" ("Tool \"" +++ (p.name +++ "\" was cancelled by the user."))
        "The action has been cancelled." u p ms

  unfoldable pub handle_edit : String → PendingToolCall → List Message → M Reply
  handle_edit u p ms =
      acknowledge "edit_requested"
        ("User wants to edit the \"" +++ (p.name +++ "\" action. Ask what they want to change."))
        "What would you like to change?" u p ms

  abbrev pub nothing_pending : Reply
  nothing_pending = says "There is no pending action to respond to. You can send me a new message."

  abbrev pub same_command : PendingToolCall → Option String → Bool
  same_command p none = false
  same_command p (some id) = str_eq id p.pending_command_id

  -- A callback that names the pending call in time.
  abbrev pub act :
      String → PendingToolCall → List Message → (action correlation_id : String) → M Reply
  act u p ms action correlation_id =
      if str_eq action "confirm"
      then handle_confirm u p ms correlation_id
      else if str_eq action "cancel"
      then handle_cancel u p ms
      else if str_eq action "edit"
      then handle_edit u p ms
      else pure (says "I did not recognize that action. You can send me a new message.")

  abbrev pub answer_callback :
      String → Option Row → (action callback correlation_id : String) → Pending → M Reply
  answer_callback u r action callback correlation_id absent = pure nothing_pending
  answer_callback u r action callback correlation_id refused = do
    save out u (stored r) absent
    pure nothing_pending
  answer_callback u r action callback correlation_id (pending p) =
      if not (same_command p (parse_callback_data callback))
      then pure (
          says
            "This action is no longer valid. It may have expired or been replaced by a newer action.")
      else if is_expired p out.ttl_minutes out.now
      then (do
        save out u (stored r) absent
        pure (says "This action has expired. Please start a new request."))
      else act u p (stored r) action correlation_id

  -- handleCallback.
  unfoldable pub handle_callback : String → (action callback correlation_id : String) → M Reply
  handle_callback u action callback correlation_id w =
      let r = get_history u w.rows in
      answer_callback u r action callback correlation_id (pending_of r) w

  -- A pending call that the user leaves by writing something else is abandoned.
  abbrev pub without_stale : Pending → List Message → List Message
  without_stale (pending p) ms = resumed ms p (
      out.stringify (
        status_message "abandoned"
          ("Tool \"" +++ (p.name +++ "\" was abandoned because the user sent a new message."))))
  without_stale _ ms = ms

  abbrev pub start_of : Option Row → String → List Message
  start_of r t = without_stale (pending_of r) (stored r) ++ user t ∷ []

  -- The part of runAgentLoop on a text, which stands in its `try`.
  unfoldable pub handle_text : String → String → M Reply
  handle_text u t w =
      if str_eq t ""
      then pure (fails "Could not extract text from the message.") w
      else agent_rounds out max_iterations u (start_of (get_history u w.rows) t) 0 w
