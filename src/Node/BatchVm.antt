-- ===== src/Node/BatchVm.antt =====
-- crates/core/src/node/batch/factory.rs and crates/core/src/node/batch/executor.rs: the batch
-- executor, a thread that owns the VM and carries out one command after the other.
-- The caller waits for the answer to each command, so that a command is a function here. A thread
-- that panics or returns an error has no VM left, and every later call is an error. The VM of
-- zksync_multivm is a parameter; the snapshots of it that the commands take are its own.
pub mod Commands
pub mod Rollback
pub mod Failed
pub mod Tests
use anvil_zksync.Base.{ℕ, Bool, true, false, Option, none, some, if◌then◌else◌}
use anvil_zksync.Node.Storage.{ForkStorageInner}
use anvil_zksync.Node.Inner.{State, L2BlockEnv}
use anvil_zksync.Node.VmRunner.{
  ExecutionResult, halt, VmExecutionResultAndLogs, BatchEnd, TxAnswer, executor_error, executed,
}

-- The calls of the VM. `none` of a rollback is the panic without a snapshot. A transaction is
-- inspected with compression of its bytecodes or without, which can fail.
pub record VmInterface (V C T D : Type 0) : Type 0 where
  pub make_snapshot : V → V
  pub rollback_to_the_latest_snapshot : V → Option V
  pub pop_snapshot_no_rollback : V → V
  pub inspect_transaction :
      V
      → ForkStorageInner C
      → T
      → Bool
      → (V × ForkStorageInner C) × (Bool × VmExecutionResultAndLogs)
  pub start_new_l2_block : V → L2BlockEnv → V
  pub finish_batch : V → ForkStorageInner C → ForkStorageInner C × BatchEnd D
  pub bootloader : V → ForkStorageInner C → ForkStorageInner C × BatchEnd D
  pub failed_to_publish_compressed_bytecodes : ℕ

-- The thread of the executor; the VM is gone when it has stopped.
pub record MainBatchExecutor (V : Type 0) : Type 0 where
  pub enforced_bytecode_compression : Bool
  pub vm : Option V

module _ {V C T D : Type 0} (m : VmInterface V C T D) where
  -- A transaction whose bytecodes are not published is rejected.
  unfoldable pub execute_tx_in_vm :
      V → ForkStorageInner C → T → (V × ForkStorageInner C) × VmExecutionResultAndLogs
  execute_tx_in_vm vm storage tx =
      let res = m.inspect_transaction vm storage tx true in
      let tx_result : VmExecutionResultAndLogs = res.1.1 in
      if res.1.0
      then (res.0, tx_result)
      else (res.0, record tx_result { result = halt m.failed_to_publish_compressed_bytecodes })

  -- The second attempt, on the VM as it was before the first one.
  unfoldable pub without_compression :
      V → ForkStorageInner C → T → ForkStorageInner C × Option (V × VmExecutionResultAndLogs)
  without_compression vm storage tx =
      let res = m.inspect_transaction (m.make_snapshot vm) storage tx false in
      (res.0.1, if res.1.0 then some (res.0.0, res.1.1) else none)

  abbrev pub retry :
      ForkStorageInner C → T → Option V → ForkStorageInner C × Option (V × VmExecutionResultAndLogs)
  retry storage tx none = (storage, none)
  retry storage tx (some vm) = without_compression vm storage tx

  -- No result is an error or a panic, with which the thread stops.
  unfoldable pub execute_tx_in_vm_with_optional_compression :
      V → ForkStorageInner C → T → ForkStorageInner C × Option (V × VmExecutionResultAndLogs)
  execute_tx_in_vm_with_optional_compression vm storage tx =
      let res = m.inspect_transaction vm storage tx true in
      if res.1.0
      then (res.0.1, some (res.0.0, res.1.1))
      else retry res.0.1 tx (m.rollback_to_the_latest_snapshot res.0.0)

  -- `CommandReceiver::execute_tx`: the snapshot of an earlier transaction is not needed any more.
  unfoldable pub execute_in :
      Bool → V → ForkStorageInner C → T → ForkStorageInner C × Option (V × VmExecutionResultAndLogs)
  unfolding execute_tx_in_vm execute_tx_in_vm_with_optional_compression
  execute_in enforced vm storage tx =
      let ready = m.make_snapshot (m.pop_snapshot_no_rollback vm) in
      if enforced
      then (let res = execute_tx_in_vm ready storage tx in (res.0.1, some (res.0.0, res.1)))
      else execute_tx_in_vm_with_optional_compression ready storage tx

  -- A failed end of the batch is an error.
  abbrev pub ensure : ForkStorageInner C × BatchEnd D → ForkStorageInner C × Option (BatchEnd D)
  ensure (storage, end) = (storage, if end.is_failed then none else some end)
