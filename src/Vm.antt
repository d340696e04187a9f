-- ===== src/Vm.antt =====
-- src/evm/vm.rs: the state of the EVM with its suspended executions, and the executor.
pub mod State
pub mod Executor
pub mod Transaction
mod Tests
