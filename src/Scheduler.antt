-- ===== src/Scheduler.antt =====
-- The scheduler service (services/scheduler/src): commands, the execute route and its worker.
pub mod Command
pub mod Worker
pub mod Execute
mod Tests
