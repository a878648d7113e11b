-- ===== src/Agent.antt =====
-- The agent of the ai-router service (services/ai-router/src/agent).
pub mod Messages
pub mod Tools
pub mod History
pub mod World
pub mod Mutating
pub mod Turn
pub mod Loop
pub mod Callback
pub mod Run
pub mod Frame
pub mod Sends
pub mod Quiet
pub mod Safety
pub mod Others
pub mod Repair
pub mod Prompts
pub mod Calls
pub mod Protocol
mod Tests
