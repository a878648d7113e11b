-- ===== src/Agent/Messages.antt =====
-- Chat messages, as the agent loop keeps them (ChatCompletionMessageParam of the OpenAI client).
use monica_companion.Base.{Option, List, [], String}

pub record ToolCall : Type 0 where
  pub id : String
  pub name : String
  pub arguments : String

-- An assistant message; absent `tool_calls` are the empty list.
pub record Assistant : Type 0 where
  pub content : Option String
  pub tool_calls : List ToolCall

pub data Message : Type 0 where
  system user : (content : String) → Message
  assistant : Assistant → Message
  tool : (tool_call_id content : String) → Message

-- stripToolCalls.
unfoldable pub strip_tool_calls : Assistant → Assistant
strip_tool_calls a = record a { tool_calls = [] }
