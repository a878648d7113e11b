-- ===== src/Telegram.antt =====
-- The buttons of the Telegram bridge (services/telegram-bridge/src/bot): the data of a button
-- (callback-data.ts), the keyboards under a reply (render-response.ts), and the event that a pressed
-- button is forwarded as (handlers/callback-query.ts).
use Prim.Native.Char.{Char, code}
use monica_companion.Base.{
  ℕ, ◌+◌, Bool, Option, none, some, List, [], ◌∷◌, String, str_eq, if◌then◌else◌, ltb,
}
use monica_companion.Effects.{Outcome, ok, throws}
use monica_companion.Json.{◌+++◌, decimal}
use monica_companion.Text.{split_on}
use monica_companion.Agent.Callback.{Event, callback_action}
pub mod Laws
pub mod Prompt
mod Tests

-- CallbackDataPayload.
pub record CallbackData : Type 0 where
  pub action : String
  pub pending_command_id : String
  pub version : ℕ

abbrev pub callback_data_max_bytes : ℕ
callback_data_max_bytes = 64

-- The length of a text in UTF-8.
abbrev pub bytes_of : Char → ℕ
bytes_of c =
    if ltb (code c) 128
    then 1
    else if ltb (code c) 2048
    then 2
    else if ltb (code c) 65536
    then 3
    else 4

unfoldable pub bytes : String → ℕ
bytes String.[] = 0
bytes (String.◌∷◌ c s) = bytes_of c + bytes s

abbrev pub callback_text : String → String → ℕ → String
callback_text action id version = action +++ (":" +++ (id +++ (":" +++ decimal version)))

-- encodeCallbackData.
unfoldable pub encode_callback_data : String → String → ℕ → Outcome String
unfolding bytes
encode_callback_data action id version =
    let encoded = callback_text action id version in
    if ltb callback_data_max_bytes (bytes encoded)
    then throws "Callback data exceeds 64-byte limit"
    else ok encoded

-- parts.slice(1, -1) and the last part, of the parts after the first.
abbrev pub inner : String → List String → List String
inner p [] = []
inner p (q ∷ l) = p ∷ inner q l

abbrev pub final : String → List String → String
final p [] = p
final p (q ∷ l) = final q l

-- parts.join(":").
abbrev pub join : List String → String
join [] = ""
join (p ∷ []) = p
join (p ∷ q ∷ l) = p +++ (":" +++ join (q ∷ l))

abbrev pub decoded : String → String → Option ℕ → Option CallbackData
decoded action id none = none
decoded action id (some v) =
    if str_eq action ""
    then none
    else if str_eq id ""
    then none
    else some (record { action = action; pending_command_id = id; version = v })

-- `number` is Number, none for NaN.
abbrev pub decode_parts : (String → Option ℕ) → List String → Option CallbackData
decode_parts number [] = none
decode_parts number (a ∷ []) = none
decode_parts number (a ∷ b ∷ []) = none
decode_parts number (a ∷ b ∷ c ∷ l) = decoded a (join (inner b (c ∷ l))) (number (final c l))

-- decodeCallbackData.
unfoldable pub decode_callback_data : (String → Option ℕ) → String → Option CallbackData
decode_callback_data number s = decode_parts number (split_on b':' s)

-- AiRouterResponse.
pub data AiRouterResponse : Type 0 where
  text_reply error_reply : (text : String) → AiRouterResponse
  confirmation_prompt : (text : String) → Option String → (version : Option ℕ) → AiRouterResponse
  disambiguation_prompt : (text : String) → List (String × String) → AiRouterResponse

pub record Button : Type 0 where
  pub text : String
  pub callback_data : String

abbrev pub button : String → Outcome String → Outcome Button
button text (ok s) = ok (record { text = text; callback_data = s })
button text (throws m) = throws m

-- The next of the buttons, if none before it threw.
abbrev pub beside : Outcome Button → Outcome (List Button) → Outcome (List Button)
beside (throws m) l = throws m
beside (ok b) (throws m) = throws m
beside (ok b) (ok l) = ok (b ∷ l)

abbrev pub or_empty : Option String → String
or_empty none = ""
or_empty (some s) = s

abbrev pub or_one : Option ℕ → ℕ
or_one none = 1
or_one (some n) = n

abbrev pub choices : List (String × String) → Outcome (List Button)
choices [] = ok []
choices ((label, value) ∷ l) =
    beside (button label (encode_callback_data "select" value 0)) (choices l)

-- The buttons that renderResponse puts under a reply.
unfoldable pub buttons_of : AiRouterResponse → Outcome (List Button)
unfolding encode_callback_data
buttons_of (text_reply text) = ok []
buttons_of (error_reply text) = ok []
buttons_of (confirmation_prompt text id version) =
    let press = λ (action : String). encode_callback_data action (or_empty id) (or_one version) in
    beside (button "Yes" (press "confirm"))
      (beside (button "Edit" (press "edit")) (beside (button "Cancel" (press "cancel")) (ok [])))
buttons_of (disambiguation_prompt text options) = choices options

abbrev pub event_of : Option CallbackData → Option Event
event_of none = none
event_of (some d) =
    some (callback_action d.action (d.pending_command_id +++ (":" +++ decimal d.version)))

-- The event of a pressed button: none if its data cannot be decoded.
unfoldable pub pressed : (String → Option ℕ) → Button → Option Event
unfolding decode_callback_data
pressed number b = event_of (decode_callback_data number b.callback_data)
