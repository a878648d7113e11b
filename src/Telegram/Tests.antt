-- ===== src/Telegram/Tests.antt =====
-- Buttons of a prompt, and the theorems at concrete ones.
use monica_companion.Base.{
  ℕ, ◌≡◌, refl, Option, none, some, [], ◌∷◌, String, str_eq, eq_iff, arith, if◌then◌else◌,
}
use monica_companion.Effects.{rejected, throws}
use monica_companion.Json.{pos, null, int, decimal, decimal_from, digit}
use monica_companion.Text.{split_on}
use monica_companion.Agent.World.{Outside}
use monica_companion.Agent.Callback.{split_last, parse_callback_data}
use monica_companion.Telegram.{
  bytes, encode_callback_data, decode_callback_data, Button, buttons_of, pressed,
}
use monica_companion.Telegram.Prompt.{Reaches, buttons_of-Reaches}

telegram : Unit {0}
unfolding bytes encode_callback_data decode_callback_data buttons_of pressed split_on split_last
    parse_callback_data decimal decimal_from digit
telegram = tt

-- The number 1 alone.
abbrev number : String → Option ℕ
number s = if str_eq s "1" then some 1 else none

abbrev outside : Outside
outside = record {
  chat = λ n ms. throws "no model";
  contact_field_types = λ n u. rejected "down";
  scheduler = λ n c. rejected "down";
  query = λ n name args u. null;
  uuid = λ n. "p1";
  parse = λ s. none;
  stringify = λ v. "json";
  number = λ s. if str_eq s "1" then some (int (pos 1)) else none;
  issues = λ name v. "issues";
  today = "2026-01-01";
  now = 1000;
  system_prompt = "prompt";
  ttl_minutes = 30;
}

abbrev pressing : String → String → Button
pressing text data_text = record { text = text; callback_data = data_text }

buttons_of-Reaches_example :
    (yes_button edit_button cancel_button : Button) × (pressing "Yes" "confirm:p1:1"
        ∷ pressing "Edit" "edit:p1:1"
        ∷ pressing "Cancel" "cancel:p1:1"
        ∷ []
      ≡ yes_button ∷ edit_button ∷ cancel_button ∷ [])
    × Reaches number outside "p1" "confirm" yes_button
    × Reaches number outside "p1" "edit" edit_button
    × Reaches number outside "p1" "cancel" cancel_button
unfolding telegram
buttons_of-Reaches_example =
    buttons_of-Reaches number outside "p1" 1 (int (pos 1)) "Please confirm"
      (pressing "Yes" "confirm:p1:1"
        ∷ pressing "Edit" "edit:p1:1"
        ∷ pressing "Cancel" "cancel:p1:1"
        ∷ [])
      (λ e. ground (arith, e, eq_iff "p1" "")) refl refl refl
