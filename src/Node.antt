-- ===== src/Node.antt =====
-- crates/core/src/node: the in-memory node.
pub mod Time
pub mod Impersonate
pub mod Pool
pub mod Blockchain
pub mod Storage
pub mod Inner
pub mod FeeModel
pub mod Executor
pub mod Sealer
pub mod Mining
pub mod VmRunner
pub mod BatchVm
pub mod GasEstimation
pub mod Fork
pub mod Eth
