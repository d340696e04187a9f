-- ===== src/Host.antt =====
-- `FuzzHost` of src/evm/host.rs, the host of the EVM, beside what the cheat codes do: the storage,
-- the maps that a step fills, the branches of an execution, and the calls.
pub mod Storage
pub mod Maps
pub mod Calls
