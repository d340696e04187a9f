-- ===== src/Concolic.antt =====
-- The symbolic execution of src/evm/concolic: expr.rs (expressions and their simplification) and
-- concolic_host.rs (symbolic memory, the translation to Z3, and the middleware's steps).
pub mod Expr
pub mod Simplify
pub mod Memory
pub mod Solving
pub mod Host
mod Tests
