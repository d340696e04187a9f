-- ===== src/Scheduler.antt =====
-- src/scheduler.rs: the voting scheduler of inputs and VM states.
pub mod Deps
pub mod Votes
pub mod Adding
mod Tests
