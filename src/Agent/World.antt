-- ===== src/Agent/World.antt =====
-- The state that one event of the agent works on, the outside world as functions, and the monad of
-- asynchronous code that may throw.
use monica_companion.Base.{ℕ, suc, Option, List, String, Bool}
use monica_companion.Json.{ℤ, Json, Fields}
use monica_companion.Effects.{Fetched, Outcome, ok, throws}
use monica_companion.Agent.Messages.{Message, Assistant}
use monica_companion.Agent.History.{Row}

-- The body of a request to the scheduler (ConfirmedCommandPayload), its payload as JSON.
pub record Confirmed : Type 0 where
  pub pending_command_id : String
  pub user_id : String
  pub command_type : String
  pub payload : Fields
  pub idempotency_key : String
  pub correlation_id : String
  pub confirmed_at : ℕ
  pub suppress_delivery : Bool

-- `executed` holds the commands sent to the scheduler, newest first; the counters number the calls of
-- the language model, the reads of Monica and the random identifiers.
pub record World : Type 0 where
  pub rows : List Row
  pub executed : List Confirmed
  pub chats : ℕ
  pub reads : ℕ
  pub uuids : ℕ

-- The language model, the other services, JSON texts, Number() (`none` is NaN), the messages of the
-- schema library and the clock. A completion is `none` if it has no choices. `query` is the read-only
-- tool of a name: each of the handlers catches its errors and answers with a JSON value.
pub record Outside : Type 0 where
  pub chat : ℕ → List Message → Outcome (Option Assistant)
  pub contact_field_types : ℕ → String → Fetched (List (ℤ × Option String))
  pub scheduler : ℕ → Confirmed → Fetched (String × Option Json)
  pub query : ℕ → String → Fields → String → Json
  pub uuid : ℕ → String
  pub parse : String → Option Json
  pub stringify : Json → String
  pub number : String → Option Json
  pub issues : String → Json → String
  pub today : String
  pub now : ℕ
  pub system_prompt : String
  pub ttl_minutes : ℕ

abbrev pub M : Type 0 → Type 0
M A = World → Outcome A × World

abbrev pub pure : {A : Type 0} → A → M A
pure a w = (ok a, w)

abbrev pub fail : {A : Type 0} → String → M A
fail m w = (throws m, w)

-- What follows an awaited promise runs only if it is fulfilled.
abbrev pub await_then : {A B : Type 0} → Outcome A × World → (A → M B) → Outcome B × World
await_then (ok a, w) f = f a w
await_then (throws m, w) f = (throws m, w)

infixl 5 ◌>>=◌ ◌>>◌
abbrev pub ◌>>=◌ : {A B : Type 0} → M A → (A → M B) → M B
◌>>=◌ m f w = await_then (m w) f

abbrev pub ◌>>◌ : {A B : Type 0} → M A → M B → M B
◌>>◌ m k w = await_then (m w) (λ _. k)

-- `try { m } catch { handler }`.
abbrev pub caught : {A : Type 0} → (String → M A) → Outcome A × World → Outcome A × World
caught handler (ok a, w) = (ok a, w)
caught handler (throws m, w) = handler m w

abbrev pub try : {A : Type 0} → M A → (String → M A) → M A
try m handler w = caught handler (m w)

-- The effects of the loop.
module _ (out : Outside) where
  abbrev pub chat_completion : List Message → M (Option Assistant)
  chat_completion ms w = (out.chat w.chats ms, record w { chats = suc w.chats })

  abbrev pub random_uuid : M String
  random_uuid w = (ok (out.uuid w.uuids), record w { uuids = suc w.uuids })

abbrev pub fetched : {A : Type 0} → (ℕ → String → String) → Fetched A → Outcome A
fetched describe (Fetched.rejected m) = throws m
fetched describe (Fetched.not_ok status body) = throws (describe status body)
fetched describe (Fetched.garbled m) = throws m
fetched describe (Fetched.answered a) = ok a
