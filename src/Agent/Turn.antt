-- ===== src/Agent/Turn.antt =====
-- One answer of the language model: the tool calls that it makes (services/ai-router/src/agent/loop.ts).
use package.text.Mathlib.Text.{find?}
use monica_companion.Base.{
  suc, Bool, true, false, ◌&&◌, not, Option, none, some, List, [], ◌∷◌, ◌++◌, String, str_eq,
  if◌then◌else◌, ◌==◌,
}
use monica_companion.Json.{ℤ, Json, null, int, frac, text, arr, obj, end, field, get, elems, ◌+++◌}
use monica_companion.Agent.Messages.{Message, tool, ToolCall}
use monica_companion.Agent.Tools.{is_mutating, accepts, fields_of}
use monica_companion.Agent.World.{Outside, M, pure, ◌>>=◌}
use monica_companion.Effects.{ok}

-- The tool results of a turn, and the first mutating call with arguments that pass their schema.
pub record Turn : Type 0 where
  pub results : List Message
  pub intercepted : Option (ToolCall × Json)

abbrev pub status_message : String → String → Json
status_message status message =
    obj (field "status" (text status) (field "message" (text message) end))

-- The equality of two numbers, `===`.
abbrev same_number : Json → Json → Bool
same_number (int (ℤ.pos a)) (int (ℤ.pos b)) = a == b
same_number (int (ℤ.negsuc a)) (int (ℤ.negsuc b)) = a == b
same_number (frac s) (frac t) = str_eq s t
same_number _ _ = false

abbrev is_number : Json → Bool
is_number (int n) = true
is_number (frac t) = true
is_number _ = false

abbrev same_id : Json → Option Json → Bool
same_id id none = false
same_id id (some v) = same_number v id

-- `displayName` of the contact, if it is a text and not empty.
abbrev name_of : Option Json → Option String
name_of (some (text s)) = if str_eq s "" then none else some s
name_of _ = none

-- `contacts.find(c => c.contactId === id)`; an element that is null throws, and the message is skipped.
contact_name : Json → List Json → Option String
contact_name id [] = none
contact_name id (null ∷ cs) = none
contact_name id (c ∷ cs) =
    if same_id id (get "contactId" (fields_of c))
    then name_of (get "displayName" (fields_of c))
    else contact_name id cs

abbrev contacts_in : Json → Option Json → Option String
contacts_in id (some (arr vs)) = contact_name id (elems vs)
contacts_in id _ = none

abbrev is_ok : Option Json → Bool
is_ok (some (text s)) = str_eq s "ok"
is_ok _ = false

abbrev or_else {ℓ} : {A : Type ℓ} → Option A → Option A → Option A
or_else none b = b
or_else (some a) b = some a

module _ (out : Outside) where
  abbrev pub result : String → Json → Message
  result id v = tool id (out.stringify v)

  abbrev pub failed : String → String → Message
  failed id message = result id (status_message "error" message)

  abbrev name_in : Json → Option Json → Option String
  name_in id none = none
  name_in id (some v) =
      if is_ok (get "status" (fields_of v))
      then contacts_in id (get "contacts" (fields_of v))
      else none

  -- The newest message that names the contact.
  latest_name : Json → List Message → Option String
  unfolding contact_name
  latest_name id [] = none
  latest_name id (tool call content ∷ ms) =
      or_else (latest_name id ms) (name_in id (out.parse content))
  latest_name id (_ ∷ ms) = latest_name id ms

  abbrev if_number : Json → Option String → Option String
  if_number v o = if is_number v then o else none

  -- resolveContactNameFromHistory.
  unfoldable pub resolve_contact_name : List Message → Json → Option String
  unfolding latest_name
  resolve_contact_name ms args = elim (get "contact_id" (fields_of args)) [
    | none ↦ none
    | some id ↦ if_number id (latest_name id ms)
  ]

  abbrev pub invalid_json : ToolCall → Message
  invalid_json c = failed c.id ("Invalid JSON arguments for \"" +++ (c.name +++ "\"."))

  abbrev pub invalid_arguments : ToolCall → Json → Message
  invalid_arguments c v =
      failed c.id ("Invalid arguments for \"" +++ (c.name +++ ("\": " +++ out.issues c.name v)))

  abbrev pub is_read_only : String → Bool
  is_read_only name =
      if str_eq name "search_contacts"
      then true
      else if str_eq name "query_birthday"
      then true
      else if str_eq name "query_phone"
      then true
      else if str_eq name "query_last_note"
      then true
      else str_eq name "query_reminders"

  -- The dispatch of executeReadOnlyTool.
  abbrev pub dispatched : String → ToolCall → Json → M Message
  dispatched u c v w =
      if is_read_only c.name
      then (
        ok (result c.id (out.query w.reads c.name (fields_of v) u)),
        record w { reads = suc w.reads },
      )
      else (ok (failed c.id ("Unknown tool \"" +++ (c.name +++ "\"."))), w)

  -- executeReadOnlyTool.
  unfoldable pub execute_read_only_tool : String → ToolCall → M Message
  execute_read_only_tool u c w = elim (out.parse c.arguments) [
    | none ↦ (ok (invalid_json c), w)
    | some v ↦ if accepts c.name v then dispatched u c v w else (ok (invalid_arguments c v), w)
  ]

  abbrev push : Message → Turn → Turn
  push m t = record t { results = t.results ++ m ∷ [] }

  -- A mutating call: refused while another one waits, or if its arguments do not pass.
  abbrev pub intercept : (String → String) → ToolCall → Turn → Turn
  intercept busy c t = elim t.intercepted [
    | some other ↦ push (failed c.id (busy c.name)) t
    | none ↦ elim (out.parse c.arguments) [
      | none ↦ push (invalid_json c) t
      | some v ↦
          if accepts c.name v
          then record t { intercepted = some (c, v) }
          else push (invalid_arguments c v) t
    ]
  ]

  -- The body of the loop over the tool calls of one answer. `busy` is the message for a second
  -- mutating call.
  unfoldable pub handle_call : (String → String) → String → ToolCall → Turn → M Turn
  unfolding execute_read_only_tool
  handle_call busy u c t w =
      if is_mutating c.name
      then (ok (intercept busy c t), w)
      else (execute_read_only_tool u c >>= λ m. pure (push m t)) w

  unfoldable pub handle_calls : (String → String) → String → List ToolCall → Turn → M Turn
  unfolding handle_call
  handle_calls busy u [] t = pure t
  handle_calls busy u (c ∷ cs) t = handle_call busy u c t >>= λ t'. handle_calls busy u cs t'

  abbrev empty_turn : Turn
  empty_turn = record { results = []; intercepted = none }

  -- The loop of runAgentLoop over the tool calls of an answer.
  unfoldable pub main_turn : String → List ToolCall → M Turn
  main_turn u cs =
      handle_calls
        (λ name.
          "Cannot execute \""
          +++ (name
              +++ "\" while another mutating action is pending confirmation. Please try again after the current action is resolved."))
        u cs empty_turn

  -- The loop of runPostConfirmLoop over the tool calls of an answer.
  unfoldable pub post_confirm_turn : String → List ToolCall → M Turn
  post_confirm_turn u cs =
      handle_calls
        (λ name.
          "Cannot execute \""
          +++ (name +++ "\" while another mutating action is pending confirmation."))
        u cs empty_turn

  abbrev says_error : Message → Bool
  says_error (tool id content) = elim (find? "\"status\":\"error\"" content) [
    | none ↦ false
    | some n ↦ true
  ]
  says_error _ = false

  abbrev every : (Message → Bool) → List Message → Bool
  every p [] = true
  every p (m ∷ ms) = p m && every p ms

  abbrev is_empty : List Message → Bool
  is_empty [] = true
  is_empty (m ∷ ms) = false

  -- allToolsFailed.
  unfoldable pub all_tools_failed : List Message → Bool
  all_tools_failed ms = not (is_empty ms) && every says_error ms
