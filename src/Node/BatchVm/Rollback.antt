-- ===== src/Node/BatchVm/Rollback.antt =====
-- Rollbacks of the executor of crates/core/src/node/batch: what a command leaves of the VM.
use anvil_zksync.Base.{
  ◌≡◌, refl, ◌∙◌, Bool, true, false, List, [], ◌∷◌, Option, none, some, inl, inr, Bool-cases,
}
use anvil_zksync.Node.Storage.{ForkStorageInner}
use anvil_zksync.Node.VmRunner.{
  VmExecutionResultAndLogs, TxAnswer, executor_error, compression_error, executed,
}
use anvil_zksync.Node.BatchVm.{
  VmInterface, MainBatchExecutor, execute_tx_in_vm, without_compression,
  execute_tx_in_vm_with_optional_compression, execute_in,
}
use anvil_zksync.Node.BatchVm.Commands.{with_vm, answer_of, execute_tx, rollback_last_tx}

abbrev pub tail : {A : Type 0} → List A → List A
tail [] = []
tail (x ∷ xs) = xs

-- The documented behaviour of the VM's snapshots, a stack of states of the machine.
pub record SnapshotLaws {V C T D : Type 0} (m : VmInterface V C T D) (M : Type 0) : Type 0 where
  pub machine : V → M
  pub snapshots : V → List M
  pub made : (v : V) → snapshots (m.make_snapshot v) ≡ machine v ∷ snapshots v
  pub made_machine : (v : V) → machine (m.make_snapshot v) ≡ machine v
  pub popped : (v : V) → snapshots (m.pop_snapshot_no_rollback v) ≡ tail (snapshots v)
  pub popped_machine : (v : V) → machine (m.pop_snapshot_no_rollback v) ≡ machine v
  pub inspected :
      (v : V) (s : ForkStorageInner C) (tx : T) (b : Bool)
      → snapshots (m.inspect_transaction v s tx b).0.0 ≡ snapshots v
  pub rolled_back :
      (v : V) (h : M) (rest : List M)
      → snapshots v ≡ h ∷ rest
      → (w : V) × (m.rollback_to_the_latest_snapshot v ≡ some w)
        × (machine w ≡ h)
        × (snapshots w ≡ rest)
  pub no_snapshot : (v : V) → snapshots v ≡ [] → m.rollback_to_the_latest_snapshot v ≡ none

module _ {V C T D M : Type 0} (m : VmInterface V C T D) (l : SnapshotLaws m M) where
  abbrev Has : M → List M → Option (V × VmExecutionResultAndLogs) → Type 0
  Has h rest none = Unit
  Has h rest (some (vm, result)) = l.snapshots vm ≡ h ∷ rest

  without_compression-Has :
      (vm : V) (storage : ForkStorageInner C) (tx : T) (h : M) (rest : List M)
      → l.machine vm ≡ h
      → l.snapshots vm ≡ rest
      → Has h rest (without_compression m vm storage tx).1
  unfolding without_compression
  without_compression-Has vm storage tx h rest a b =
      let res = m.inspect_transaction (m.make_snapshot vm) storage tx false in
      elim (Bool-cases res.1.0) [
        | inl e ↦ rw e (cc (l.inspected (m.make_snapshot vm) storage tx false, l.made vm, a, b))
        | inr e ↦ rw e tt
      ]

  optional-Has :
      (vm : V) (storage : ForkStorageInner C) (tx : T) (h : M) (rest : List M)
      → l.snapshots vm ≡ h ∷ rest
      → Has h rest (execute_tx_in_vm_with_optional_compression m vm storage tx).1
  unfolding execute_tx_in_vm_with_optional_compression
  optional-Has vm storage tx h rest a =
      let res = m.inspect_transaction vm storage tx true in
      let same = l.inspected vm storage tx true ∙ a in
      elim (Bool-cases res.1.0) [
        | inl e ↦ rw e same
        | inr e ↦
            let back = l.rolled_back res.0.0 h rest same in
            rw (e, back.1) (without_compression-Has back.0 res.0.1 tx h rest back.2 back.3)
      ]

  in_vm-snapshots :
      (vm : V) (storage : ForkStorageInner C) (tx : T)
      → l.snapshots (execute_tx_in_vm m vm storage tx).0.0 ≡ l.snapshots vm
  unfolding execute_tx_in_vm
  in_vm-snapshots vm storage tx = elim (Bool-cases (m.inspect_transaction vm storage tx true).1.0) [
    | inl e ↦ rw e (l.inspected vm storage tx true)
    | inr e ↦ rw e (l.inspected vm storage tx true)
  ]

  execute_in-Has :
      (enforced : Bool) (vm : V) (storage : ForkStorageInner C) (tx : T)
      → Has (l.machine vm) (tail (l.snapshots vm)) (execute_in m enforced vm storage tx).1
  unfolding execute_in execute_tx_in_vm
  execute_in-Has enforced vm storage tx =
      let popped = m.pop_snapshot_no_rollback vm in
      let ready = m.make_snapshot popped in
      let good : l.snapshots ready ≡ l.machine vm ∷ tail (l.snapshots vm) =
        cc (l.made popped, l.popped vm, l.popped_machine vm) in
      elim (Bool-cases enforced) [
        | inl e ↦ rw e (in_vm-snapshots ready storage tx ∙ good)
        | inr e ↦ rw e (optional-Has ready storage tx (l.machine vm) (tail (l.snapshots vm)) good)
      ]

  -- What follows a rollback of the last transaction: the VM as it was before the transaction.
  abbrev pub Restored : MainBatchExecutor V → V → MainBatchExecutor V → Type 0
  Restored x vm after =
      (w : V) × (rollback_last_tx m after ≡ some (with_vm x (some w)))
      × (l.machine w ≡ l.machine vm)
      × (l.snapshots w ≡ tail (l.snapshots vm))

  -- An executor that has stopped, or one that can go back.
  abbrev pub AfterExecute : MainBatchExecutor V → V → MainBatchExecutor V → TxAnswer → Type 0
  AfterExecute x vm after executor_error = after.vm ≡ none
  AfterExecute x vm after compression_error = ⊥
  AfterExecute x vm after (executed result) = Restored x vm after

  answer_of-AfterExecute :
      (x : MainBatchExecutor V) (vm : V)
      (o : ForkStorageInner C × Option (V × VmExecutionResultAndLogs))
      → Has (l.machine vm) (tail (l.snapshots vm)) o.1
      → AfterExecute x vm (answer_of x o).0.0 (answer_of x o).1
  unfolding rollback_last_tx
  answer_of-AfterExecute x vm (storage, none) h = refl
  answer_of-AfterExecute x vm (storage, some (vm', result)) h =
      let back = l.rolled_back vm' (l.machine vm) (tail (l.snapshots vm)) h in
      (back.0, rw back.1 refl, back.2, back.3)

  -- A transaction that the executor answers leaves it able to go back: the rollback after it gives
  -- the machine that was there before the transaction, and drops the snapshot. It does so whether
  -- bytecodes are compressed or not, also when the transaction was run twice. Without an answer the
  -- executor has stopped. The VM is one whose snapshots are a stack.
  pub rollback_last_tx-execute_tx :
      (x : MainBatchExecutor V) (vm : V) (storage : ForkStorageInner C) (tx : T)
      → x.vm ≡ some vm
      → let after = execute_tx m x storage tx in AfterExecute x vm after.0.0 after.1
  unfolding execute_tx
  rollback_last_tx-execute_tx x vm storage tx e = rw e (
      answer_of-AfterExecute x vm (execute_in m x.enforced_bytecode_compression vm storage tx)
        (execute_in-Has x.enforced_bytecode_compression vm storage tx))
