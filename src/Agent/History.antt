-- ===== src/Agent/History.antt =====
-- The conversation history of a user (services/ai-router/src/agent/history-repository.ts and
-- pending-tool-call.ts), one row for each user.
pub mod Laws
use monica_companion.Base.{
  ℕ, ◌+◌, ◌-◌, ◌*◌, Bool, true, false, Option, none, some, List, [], ◌∷◌, String, str_eq, leb, ltb,
  drop, length,
}
use monica_companion.Agent.Messages.{Message, Assistant}
use monica_companion.Sql.{row, upsert, delete_where}

-- PendingToolCall. `created_at` is the time that the stored text stands for.
pub record PendingToolCall : Type 0 where
  pub pending_command_id : String
  pub name : String
  pub arguments : String
  pub tool_call_id : String
  pub action_description : String
  pub created_at : ℕ
  pub assistant_message : Assistant
  pub collected : List Message

-- The column pending_tool_call: null, a value that the schema refuses, or one that it accepts.
pub data Pending : Type 0 where
  absent refused : Pending
  pending : PendingToolCall → Pending

pub record Row : Type 0 where
  pub user_id : String
  pub messages : List Message
  pub pending_tool_call : Pending
  pub updated_at : ℕ

abbrev pub sliding_window_size : ℕ
sliding_window_size = 40

abbrev pub user_of : Row → String
user_of r = r.user_id

-- messages.slice(-SLIDING_WINDOW_SIZE).
abbrev pub truncated : List Message → List Message
truncated ms = drop (length ms - sliding_window_size) ms

unfoldable pub get_history : String → List Row → Option Row
get_history u rows = row user_of u rows

unfoldable pub save_history : String → List Message → Pending → ℕ → List Row → List Row
save_history u ms p now rows =
    upsert user_of
      (record { user_id = u; messages = truncated ms; pending_tool_call = p; updated_at = now })
      (λ r. record r { messages = truncated ms; pending_tool_call = p; updated_at = now }) rows

unfoldable pub clear_history : String → List Row → List Row
clear_history u rows = delete_where (λ r. str_eq (user_of r) u) rows

unfoldable pub clear_stale_histories : ℕ → List Row → List Row
clear_stale_histories cutoff rows = delete_where (λ r. ltb r.updated_at cutoff) rows

-- isPendingToolCallExpired: createdAt + ttl ≤ now.
unfoldable pub is_expired : PendingToolCall → ℕ → ℕ → Bool
is_expired p ttl_minutes now = leb (p.created_at + ttl_minutes * 60 * 1000) now
