-- ===== src/Agent/Run.antt =====
-- runAgentLoop (services/ai-router/src/agent/loop.ts): the reply to one inbound event, and what is
-- done when handling a text throws.
use monica_companion.Base.{
  Bool, true, false, Option, none, some, List, [], ◌∷◌, ◌++◌, String, str_eq, if◌then◌else◌, ◌==◌,
  length,
}
use monica_companion.Agent.Messages.{Message, assistant, tool, ToolCall}
use monica_companion.Agent.History.{Row, get_history}
use monica_companion.Agent.World.{Outside, M, pure, ◌>>◌, try}
use monica_companion.Agent.Turn.{failed}
use monica_companion.Agent.Loop.{Reply, fails, save}
use monica_companion.Agent.Callback.{
  Event, text_message, voice_message, callback_action, handle_text, handle_callback,
}

abbrev pub answers : String → Message → Bool
answers id (tool call content) = str_eq call id
answers id _ = false

abbrev pub any_answers : String → List Message → Bool
any_answers id [] = false
any_answers id (m ∷ ms) = if answers id m then true else any_answers id ms

abbrev pub has_id : String → List String → Bool
has_id id [] = false
has_id id (j ∷ js) = if str_eq j id then true else has_id id js

-- The identifiers of the calls that no later message answers, each once.
unfoldable pub orphans : List String → List ToolCall → List Message → List String
orphans seen [] ms = []
orphans seen (c ∷ cs) ms =
    let rest = orphans (c.id ∷ seen) cs ms in
    if has_id c.id seen then rest else if any_answers c.id ms then rest else c.id ∷ rest

module _ (out : Outside) where
  abbrev pub synthetic : String → Message
  synthetic id = failed out id "Tool call was not completed due to an earlier error."

  unfoldable pub synthetics : List String → List Message
  synthetics [] = []
  synthetics (id ∷ ids) = synthetic id ∷ synthetics ids

  -- repairHistory.
  unfoldable pub repair_history : List Message → List Message
  repair_history [] = []
  repair_history (assistant a ∷ ms) =
      assistant a ∷ (synthetics (orphans [] a.tool_calls ms) ++ repair_history ms)
  repair_history (m ∷ ms) = m ∷ repair_history ms

  -- The `catch` of runAgentLoop: the stored history is repaired where it lacks results.
  abbrev pub repaired : String → Option Row → M (Unit {0})
  repaired u none = pure tt
  repaired u (some r) =
      let ms = repair_history r.messages in
      if length ms == length r.messages then pure tt else save out u ms r.pending_tool_call

  abbrev pub recover : String → M Reply
  recover u w =
      (repaired u (get_history u w.rows)
          >> pure
              (fails "Sorry, I encountered an error processing your request. Please try again."))
        w

  -- A callback is handled outside the `try`: its promise is returned, and not awaited there.
  unfoldable pub run_agent_loop : String → Event → (correlation_id : String) → M Reply
  run_agent_loop u (text_message t) correlation_id = try (handle_text out u t) (λ _. recover u)
  run_agent_loop u (voice_message t) correlation_id = try (handle_text out u t) (λ _. recover u)
  run_agent_loop u (callback_action action callback) correlation_id =
      handle_callback out u action callback correlation_id
