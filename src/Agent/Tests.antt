-- ===== src/Agent/Tests.antt =====
-- Runs of the agent loop, and its theorems at concrete states.
use monica_companion.Base.{
  ℕ, zero, suc, ◌+◌, ◌≤◌, ◌≡◌, refl, true, false, none, some, List, [], ◌∷◌, str_eq, arith,
  if◌then◌else◌, length, eq_iff,
}
use monica_companion.Sql.{upsert}
use monica_companion.Json.{pos, Json, null, text, int, obj, end, field, get, show}
use monica_companion.Effects.{not_ok, answered, ok}
use monica_companion.Agent.Messages.{Message, user, assistant, tool, ToolCall, Assistant}
use monica_companion.Agent.Tools.{is_mutating, accepts, describe}
use monica_companion.Agent.History.{
  Row, absent, get_history, save_history, is_expired, clear_stale_histories,
}
use monica_companion.Agent.World.{World, Outside}
use monica_companion.Agent.Mutating.{build_payload, scheduler_execute, execute_mutating_tool}
use monica_companion.Agent.Turn.{
  resolve_contact_name, execute_read_only_tool, handle_call, handle_calls, main_turn,
  post_confirm_turn, all_tools_failed,
}
use monica_companion.Agent.Loop.{says, confirmation_prompt, agent_rounds, post_confirm_rounds}
use monica_companion.Agent.Callback.{
  Event, text_message, callback_action, parse_callback_data, handle_confirm, handle_callback,
  handle_text,
}
use monica_companion.Agent.Run.{repair_history, synthetics, orphans, run_agent_loop}
use monica_companion.Agent.Safety.{Authorised, run-Authorised}
use monica_companion.Agent.Others.{run-others, run_all, run_all-IsHistories, IsHistories, Events}
use monica_companion.Agent.History.Laws.{
  saved, get_history-save_history, get_history-clear_stale, still_fresh,
}
use monica_companion.Agent.Calls.Events.{run-chats, allowance}
use monica_companion.Agent.Prompts.{IsStored, run-IsStored}
use monica_companion.Agent.Protocol.Turns.{ArePaired}
use monica_companion.Agent.Protocol.Events.{run_all-ArePaired, run_all-repair_history}
use monica_companion.Agent.Repair.{IsAnswered, repair-IsAnswered}

loop : Unit {0}
unfolding run_agent_loop handle_text handle_callback handle_confirm agent_rounds post_confirm_rounds
    parse_callback_data main_turn post_confirm_turn handle_calls handle_call execute_read_only_tool
    resolve_contact_name all_tools_failed execute_mutating_tool build_payload scheduler_execute
    is_expired get_history save_history is_mutating accepts describe get upsert show
loop = tt

abbrev note_call : ToolCall
note_call = record { id = "t1"; name = "create_note"; arguments = "note" }

abbrev calling : Assistant
calling = record { content = none; tool_calls = note_call ∷ [] }

abbrev done : Assistant
done = record { content = some "Done."; tool_calls = [] }

abbrev note_arguments : Json
note_arguments = obj (field "contact_id" (int (pos 7)) (field "body" (text "hello") end))

-- The model asks for a note first, and then says that it is done.
abbrev outside : Outside
outside = record {
  chat = λ n ms. ok (some (elim n [ zero ↦ calling | suc m ↦ done ]));
  contact_field_types = λ n u. not_ok 500 "down";
  scheduler = λ n c. answered ("e1", none);
  query = λ n name args u. null;
  uuid = λ n. "p1";
  parse = λ s. if str_eq s "note" then some note_arguments else none;
  stringify = λ v. "json";
  number = λ s. if str_eq s "1" then some (int (pos 1)) else none;
  issues = λ name v. "issues";
  today = "2026-01-01";
  now = 1000;
  system_prompt = "prompt";
  ttl_minutes = 30;
}

abbrev bob : Row
bob = record {
  user_id = "bob";
  messages = user "hi" ∷ [];
  pending_tool_call = absent;
  updated_at = 1;
}

abbrev before : World
before = record { rows = bob ∷ []; executed = []; chats = 0; reads = 0; uuids = 0 }

-- After the user's text: the note waits for a confirmation.
abbrev asked : World
asked = (run_agent_loop outside "ann" (text_message "note hello") "c1" before).1

abbrev confirm : Event
confirm = callback_action "confirm" "p1:1"

loop_tests :
    ((run_agent_loop outside "ann" (text_message "note hello") "c1" before).0
      ≡ ok (confirmation_prompt "Please confirm: Create a note for contact 7: \"hello\"" "p1" 1))
    × (asked.executed ≡ [])
    × ((run_agent_loop outside "ann" confirm "c2" asked).0 ≡ ok (says "Done."))
    × (length (run_agent_loop outside "ann" confirm "c2" asked).1.executed ≡ 1)
    × ((run_agent_loop outside "bob" confirm "c2" asked).1.executed ≡ [])
unfolding loop
loop_tests = (refl, refl, refl, refl, refl)

run-Authorised_example :
    Authorised outside "ann" "c2" asked (run_agent_loop outside "ann" confirm "c2" asked).1 confirm
run-Authorised_example = run-Authorised outside "ann" confirm "c2" asked

abbrev stop : Event
stop = callback_action "cancel" "p1:1"

run-others_example :
    get_history "bob" (run_agent_loop outside "ann" stop "c2" asked).1.rows
    ≡ get_history "bob" asked.rows
run-others_example =
    run-others outside "ann" "bob" stop "c2" asked
      (λ e. let h : false ≡ true = (eq_iff "ann" "bob").1 e in cc)

abbrev conversation : Events outside
conversation =
    ("ann", (text_message "note hello", "c1"))
    ∷ ("bob", (confirm, "c2"))
    ∷ ("ann", (confirm, "c3"))
    ∷ []

run_all-IsHistories_example : IsHistories outside (run_all outside conversation before).rows
run_all-IsHistories_example =
    run_all-IsHistories outside conversation before ((refl, tt), (omega arith, tt))

get_history-save_history_example :
    get_history "ann" (save_history "ann" (user "a" ∷ []) absent 5 (bob ∷ [])) ≡ (
      if str_eq "ann" "ann"
      then some (saved "ann" (user "a" ∷ []) absent 5)
      else get_history "ann" (bob ∷ []))
get_history-save_history_example =
    get_history-save_history "ann" "ann" (user "a" ∷ []) absent 5 (bob ∷ [])

get_history-clear_stale_example :
    get_history "bob" (clear_stale_histories 2 (bob ∷ []))
    ≡ still_fresh 2 (get_history "bob" (bob ∷ []))
get_history-clear_stale_example = get_history-clear_stale "bob" 2 (bob ∷ []) (refl, tt)

-- 45 messages, the last 40 of which are kept.
abbrev many : ℕ → List Message
many zero = []
many (suc n) = user "m" ∷ many n

-- A history that lost the result of its only call.
abbrev broken : List Message
broken = user "note hello" ∷ assistant calling ∷ user "again" ∷ []

repair_test :
    repair_history outside broken
    ≡ user "note hello" ∷ assistant calling ∷ tool "t1" "json" ∷ user "again" ∷ []
unfolding repair_history synthetics orphans
repair_test = refl

repair-IsAnswered_example : IsAnswered (repair_history outside broken)
repair-IsAnswered_example = repair-IsAnswered outside broken

abbrev whole : List Message
whole = assistant calling ∷ tool "t1" "json" ∷ []

before-ArePaired : ArePaired before.rows
before-ArePaired = (record { tail = record { before = []; complete = refl }; waits = tt }, tt)

run_all-ArePaired_example : ArePaired (run_all outside conversation before).rows
run_all-ArePaired_example = run_all-ArePaired outside conversation before before-ArePaired

-- What is stored for "bob" after the conversation: his confirmation found nothing to confirm.
run_all-repair_history_example : repair_history outside bob.messages ≡ bob.messages
unfolding loop run_all
run_all-repair_history_example =
    run_all-repair_history outside conversation before "bob" bob before-ArePaired refl

run-chats_example :
    (run_agent_loop outside "ann" confirm "c2" asked).1.chats
    ≤ asked.chats + allowance outside "ann" confirm
run-chats_example = run-chats outside "ann" confirm "c2" asked

run-IsStored_example :
    IsStored "ann" (run_agent_loop outside "ann" (text_message "note hello") "c1" before)
run-IsStored_example = run-IsStored outside "ann" (text_message "note hello") "c1" before
