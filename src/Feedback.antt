-- ===== src/Feedback.antt =====
-- The feedbacks of src/feedback.rs: which executions are worth keeping.
pub mod Dataflow
pub mod Cmp
pub mod Oracles
mod Tests
