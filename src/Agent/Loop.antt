-- ===== src/Agent/Loop.antt =====
-- The agent loop (services/ai-router/src/agent/loop.ts): one inbound event of a user, from the stored
-- history to the reply. Lists of messages leave out the system prompt, which heads every request.
use monica_companion.Base.{
  ℕ, zero, suc, Bool, true, false, Option, none, some, List, [], ◌∷◌, ◌++◌, String, if◌then◌else◌,
  leb,
}
use monica_companion.Json.{Json, text, Fields, field, ◌+++◌}
use monica_companion.Effects.{ok}
use monica_companion.Agent.Messages.{Message, system, assistant, ToolCall, Assistant}
use monica_companion.Agent.Tools.{describe, fields_of}
use monica_companion.Agent.History.{PendingToolCall, Pending, absent, pending, save_history}
use monica_companion.Agent.World.{Outside, M, pure, ◌>>=◌, ◌>>◌, chat_completion, random_uuid}
use monica_companion.Agent.Turn.{
  Turn, resolve_contact_name, main_turn, post_confirm_turn, all_tools_failed,
}

-- GraphResponse, as far as the loop makes it.
pub data Reply : Type 0 where
  says : (text : String) → Reply
  confirmation_prompt : (text pending_command_id : String) (version : ℕ) → Reply
  fails : (text : String) → Reply

abbrev pub max_iterations : ℕ
max_iterations = 5

abbrev pub max_post_confirm_iterations : ℕ
max_post_confirm_iterations = 3

abbrev pub pending_command_version : ℕ
pending_command_version = 1

abbrev pub or_text : Option String → String → String
or_text none d = d
or_text (some s) d = s

-- The newest assistant message.
last_assistant : List Message → Option Assistant
last_assistant [] = none
last_assistant (m ∷ ms) = elim (last_assistant ms) [
  | some a ↦ some a
  | none ↦ elim m [ assistant a ↦ some a | _ ↦ none ]
]

abbrev pub content_of : Option Assistant → Option String
content_of none = none
content_of (some a) = a.content

module _ (out : Outside) where
  abbrev pub save : String → List Message → Pending → M (Unit {0})
  save u ms p w = (ok tt, record w { rows = save_history u ms p out.now w.rows })

  abbrev pub ask : List Message → M (Option Assistant)
  ask ms = chat_completion out (system out.system_prompt ∷ ms)

  abbrev enriched : Option String → Json → Fields
  enriched none v = fields_of v
  enriched (some name) v = field "contactName" (text name) (fields_of v)

  abbrev pub pending_call : String → Assistant → ToolCall → String → List Message → PendingToolCall
  pending_call id a c description results = record {
    pending_command_id = id;
    name = c.name;
    arguments = c.arguments;
    tool_call_id = c.id;
    action_description = description;
    created_at = out.now;
    assistant_message = a;
    collected = results;
  }

  -- An intercepted call: store it with the history before the answer `a`, and ask the user.
  -- `known` are the messages in which a contact's name is looked up.
  abbrev pub ask_confirmation :
      String → (before known : List Message) → Assistant → List Message → ToolCall → Json → M Reply
  ask_confirmation u before known a results c v = do
    id ← random_uuid out
    let description = describe c.name (enriched (resolve_contact_name out known v) v)
    save u before (pending (pending_call id a c description results))
    pure (confirmation_prompt ("Please confirm: " +++ description) id pending_command_version)

  abbrev pub no_calls : Assistant → Bool
  no_calls a = elim a.tool_calls [ [] ↦ true | c ∷ cs ↦ false ]

  -- What follows the tool calls of one answer of the main loop.
  abbrev pub after_turn :
      (List Message → ℕ → M Reply) → String → List Message → Assistant → ℕ → Turn → M Reply
  after_turn continue u ms a errors t = elim t.intercepted [
    | some (c, v) ↦ ask_confirmation u ms (ms ++ assistant a ∷ []) a t.results c v
    | none ↦
        let ms' = ms ++ assistant a ∷ t.results in
        let errors' = if all_tools_failed out t.results then suc errors else 0 in
        if leb 2 errors'
        then (do
          save u ms' absent
          pure (
              says
                "I'm having trouble connecting to your contact database right now. Please try again later."))
        else continue ms' errors'
  ]

  -- One answer of the main loop.
  abbrev pub after_answer :
      (List Message → ℕ → M Reply) → String → List Message → ℕ → Option Assistant → M Reply
  after_answer continue u ms errors none =
      pure (fails "I was unable to process your request. Please try again.")
  after_answer continue u ms errors (some a) =
      if no_calls a
      then (do
        save u (ms ++ assistant a ∷ []) absent
        pure (says (or_text a.content "I could not generate a response.")))
      else (main_turn out u a.tool_calls >>= after_turn continue u ms a errors)

  -- The while loop of runAgentLoop, by the rounds that are left.
  unfoldable pub agent_rounds : ℕ → String → List Message → ℕ → M Reply
  agent_rounds zero u ms errors = do
    save u ms absent
    pure (fails "I was unable to complete your request. Please try a simpler question or rephrase.")
  agent_rounds (suc rounds) u ms errors =
      ask ms >>= after_answer (λ ms' errors'. agent_rounds rounds u ms' errors') u ms errors

  -- One answer of the loop after a confirmation. The loop returns the messages with its reply, as
  -- the source appends to them in place.
  abbrev pub after_confirmed_turn :
      (List Message → M (Reply × List Message))
      → String
      → List Message
      → Assistant
      → Turn
      → M (Reply × List Message)
  after_confirmed_turn continue u ms a t = elim t.intercepted [
    | some (c, v) ↦ (do
      reply ← ask_confirmation u ms (ms ++ assistant a ∷ t.results) a t.results c v
      pure (reply, ms ++ assistant a ∷ []))
    | none ↦ continue (ms ++ assistant a ∷ t.results)
  ]

  abbrev pub after_confirmed_answer :
      (List Message → M (Reply × List Message))
      → String
      → List Message
      → Option Assistant
      → M (Reply × List Message)
  after_confirmed_answer continue u ms none =
      pure (says "The action was completed successfully.", ms)
  after_confirmed_answer continue u ms (some a) =
      if no_calls a
      then pure (
        says (or_text a.content "The action was completed successfully."),
        ms ++ assistant a ∷ [],
      )
      else (post_confirm_turn out u a.tool_calls >>= after_confirmed_turn continue u ms a)

  -- runPostConfirmLoop, by the rounds that are left.
  unfoldable pub post_confirm_rounds : ℕ → String → List Message → M (Reply × List Message)
  unfolding last_assistant
  post_confirm_rounds zero u ms =
      pure (
        says (or_text (content_of (last_assistant ms)) "The action was completed successfully."),
        ms,
      )
  post_confirm_rounds (suc rounds) u ms =
      ask ms >>= after_confirmed_answer (λ ms'. post_confirm_rounds rounds u ms') u ms
