-- ===== src/Node/BatchVm/Commands.antt =====
-- The executor of crates/core/src/node/batch/executor.rs as the VM runner calls it.
use anvil_zksync.Base.{Option, none, some}
use anvil_zksync.Node.Storage.{ForkStorageInner}
use anvil_zksync.Node.Inner.{L2BlockEnv}
use anvil_zksync.Node.VmRunner.{
  VmExecutionResultAndLogs, BatchEnd, TxAnswer, executor_error, executed, BatchExecutor,
  BatchControl, BatchFinisher,
}
use anvil_zksync.Node.BatchVm.{VmInterface, MainBatchExecutor, execute_in, ensure}

module _ {V : Type 0} where
  abbrev pub with_vm : MainBatchExecutor V → Option V → MainBatchExecutor V
  with_vm x vm = record x { vm = vm }

module _ {V C : Type 0} where
  abbrev pub answer_of :
      MainBatchExecutor V
      → ForkStorageInner C × Option (V × VmExecutionResultAndLogs)
      → (MainBatchExecutor V × ForkStorageInner C) × TxAnswer
  answer_of x (storage, none) = ((with_vm x none, storage), executor_error)
  answer_of x (storage, some (vm, result)) = ((with_vm x (some vm), storage), executed result)

module _ {V C T D : Type 0} (m : VmInterface V C T D) where
  unfoldable pub execute_tx :
      MainBatchExecutor V
      → ForkStorageInner C
      → T
      → (MainBatchExecutor V × ForkStorageInner C) × TxAnswer
  execute_tx x storage tx = elim x.vm [
    | none ↦ ((x, storage), executor_error)
    | some vm ↦ answer_of x (execute_in m x.enforced_bytecode_compression vm storage tx)
  ]

  unfoldable pub rollback_last_tx : MainBatchExecutor V → Option (MainBatchExecutor V)
  rollback_last_tx x = elim x.vm [
    | none ↦ none
    | some vm ↦ elim (m.rollback_to_the_latest_snapshot vm) [
      | none ↦ none
      | some vm' ↦ some (with_vm x (some vm'))
    ]
  ]

  unfoldable pub start_next_l2_block :
      MainBatchExecutor V → L2BlockEnv → Option (MainBatchExecutor V)
  start_next_l2_block x env = elim x.vm [
    | none ↦ none
    | some vm ↦ some (with_vm x (some (m.start_new_l2_block vm env)))
  ]

  unfoldable pub finish_batch :
      MainBatchExecutor V → ForkStorageInner C → ForkStorageInner C × Option (BatchEnd D)
  finish_batch x storage = elim x.vm [
    | none ↦ (storage, none)
    | some vm ↦ ensure m (m.finish_batch vm storage)
  ]

  unfoldable pub bootloader :
      MainBatchExecutor V → ForkStorageInner C → ForkStorageInner C × Option (BatchEnd D)
  bootloader x storage = elim x.vm [
    | none ↦ (storage, none)
    | some vm ↦ ensure m (m.bootloader vm storage)
  ]

  -- What the runner sees of the executor.
  unfoldable pub main_executor : BatchExecutor (MainBatchExecutor V) C T
  unfolding execute_tx
  main_executor = record { execute_tx = execute_tx }

  unfoldable pub main_control : BatchControl (MainBatchExecutor V)
  unfolding rollback_last_tx start_next_l2_block
  main_control = record {
    rollback_last_tx = rollback_last_tx;
    start_next_l2_block = start_next_l2_block;
  }

  unfoldable pub main_finisher : BatchFinisher (MainBatchExecutor V) C D
  unfolding finish_batch bootloader
  main_finisher = record { finish_batch = finish_batch; bootloader = bootloader }
