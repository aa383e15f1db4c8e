-- ===== src/Node/BatchVm/Failed.antt =====
-- Failed transactions in the loop of `run_tx_batch` of crates/core/src/node/inner/vm_runner.rs, on
-- the executor of crates/core/src/node/batch.
use anvil_zksync.Base.{
  ℕ, suc, ◌>>=◌, ◌≡◌, refl, ap, ◌∙◌, subst, Bool, List, ◌∷◌, none, some, Outcome, done,
}
use anvil_zksync.Node.Storage.{Client, ForkStorageInner}
use anvil_zksync.Node.Inner.{BlockContext, L1BatchEnv}
use anvil_zksync.Node.VmRunner.{
  VmExecutionResultAndLogs, TxFields, RunnerCalls, TransactionValidationError, halt, executed,
  BatchExecutor, BatchControl,
}
use anvil_zksync.Node.VmRunner.Run.{TransactionResult, ran, l2_error, run_tx, finish_tx}
use anvil_zksync.Node.VmRunner.Batch.{RanTxs, place_of, with_result, resume, run_txs}
use anvil_zksync.Node.BatchVm.{VmInterface, MainBatchExecutor}
use anvil_zksync.Node.BatchVm.Commands.{with_vm, execute_tx, main_executor, main_control}
use anvil_zksync.Node.BatchVm.Rollback.{
  SnapshotLaws, AfterExecute, Restored, rollback_last_tx-execute_tx,
}

module _ {X C T : Type 0} ⦃e : BatchExecutor X C T⦄ ⦃r : BatchControl X⦄ ⦃c : Client C⦄
    ⦃t : TxFields T⦄ where
  -- After a transaction that is not valid the run goes on with the executor rolled back.
  run_txs-resume :
      (k : RunnerCalls) (gas_price : ℕ) (impersonating : Bool) (batch_env : L1BatchEnv)
      (ctx : BlockContext) (x : X) (storage : ForkStorageInner C) (next_log_index tx_index : ℕ)
      (tx : T) (txs : List T) (error : TransactionValidationError)
      → l2_error k batch_env (t.l2_fee tx) ≡ some error
      → run_txs k gas_price impersonating batch_env ctx x storage next_log_index tx_index (tx ∷ txs)
        ≡ resume storage
            (λ y.
              run_txs k gas_price impersonating batch_env ctx y storage next_log_index tx_index txs)
            (r.rollback_last_tx x)
  unfolding run_txs run_tx
  run_txs-resume k gas_price impersonating batch_env ctx x storage next_log_index tx_index tx txs
        error f =
      rw (run_txs, run_tx, f) refl

  -- A transaction that is kept gives its result and its executor.
  run_txs-ran :
      (k : RunnerCalls) (gas_price : ℕ) (impersonating : Bool) (batch_env : L1BatchEnv)
      (ctx : BlockContext) (x : X) (storage storage' : ForkStorageInner C)
      (next_log_index next_log_index' tx_index : ℕ) (tx : T) (txs : List T)
      (result : VmExecutionResultAndLogs) (kept : TransactionResult T)
      → l2_error k batch_env (t.l2_fee tx) ≡ none
      → (e.execute_tx x storage tx).1 ≡ executed result
      → finish_tx k gas_price impersonating
          (place_of ctx batch_env tx_index (t.hash tx))
          tx
          (e.execute_tx x storage tx).0.1
          next_log_index
          result
        ≡ done ((storage', next_log_index'), ran kept)
      → run_txs k gas_price impersonating batch_env ctx x storage next_log_index tx_index (tx ∷ txs)
        ≡ (run_txs k gas_price impersonating batch_env ctx
              (e.execute_tx x storage tx).0.0
              storage'
              next_log_index'
              (suc tx_index)
              txs
            >>= λ rest. done (with_result kept rest))
  unfolding run_txs run_tx
  run_txs-ran k gas_price impersonating batch_env ctx x storage storage' next_log_index
        next_log_index' tx_index tx txs result kept f g h =
      rw (run_txs, run_tx, f, g, h) refl

  -- So it does after one that halts, on the storage that the VM has read.
  run_txs-halt :
      (k : RunnerCalls) (gas_price : ℕ) (impersonating : Bool) (batch_env : L1BatchEnv)
      (ctx : BlockContext) (x : X) (storage : ForkStorageInner C) (next_log_index tx_index : ℕ)
      (tx : T) (txs : List T) (result : VmExecutionResultAndLogs) (reason : ℕ)
      → l2_error k batch_env (t.l2_fee tx) ≡ none
      → (e.execute_tx x storage tx).1 ≡ executed result
      → result.result ≡ halt reason
      → let after = (e.execute_tx x storage tx).0 in
        run_txs k gas_price impersonating batch_env ctx x storage next_log_index tx_index (tx ∷ txs)
        ≡ resume after.1
            (λ y.
              run_txs k gas_price impersonating batch_env ctx y after.1 next_log_index tx_index txs)
            (r.rollback_last_tx after.0)
  unfolding run_txs run_tx finish_tx
  run_txs-halt k gas_price impersonating batch_env ctx x storage next_log_index tx_index tx txs
        result reason f g h =
      rw (run_txs, run_tx, f, g, finish_tx, h) refl

module _ {V C T D : Type 0} (m : VmInterface V C T D) ⦃c : Client C⦄ ⦃t : TxFields T⦄ where
  -- The loop on the executor of the node.
  abbrev pub run_on :
      RunnerCalls
      → ℕ
      → Bool
      → L1BatchEnv
      → BlockContext
      → MainBatchExecutor V
      → ForkStorageInner C
      → ℕ
      → ℕ
      → List T
      → Outcome (RanTxs (MainBatchExecutor V) C T)
  run_on = run_txs ⦃e = main_executor m⦄ ⦃r = main_control m⦄

module _ {V C T D M : Type 0} (m : VmInterface V C T D) (l : SnapshotLaws m M) ⦃c : Client C⦄
    ⦃t : TxFields T⦄ where
  -- A transaction is executed and kept, and the next one is not valid: that one is not run, yet the
  -- executor is rolled back. The run goes on with the machine of before the first one, whose effects
  -- are lost, while its result stays among those of the run and its index and logs count.
  pub run_txs-invalid :
      (k : RunnerCalls) (gas_price : ℕ) (impersonating : Bool) (batch_env : L1BatchEnv)
      (ctx : BlockContext) (x : MainBatchExecutor V) (vm : V)
      (storage storage' : ForkStorageInner C) (next_log_index next_log_index' tx_index : ℕ)
      (tx invalid : T) (txs : List T) (result : VmExecutionResultAndLogs)
      (kept : TransactionResult T) (error : TransactionValidationError)
      → x.vm ≡ some vm
      → l2_error k batch_env (t.l2_fee tx) ≡ none
      → (execute_tx m x storage tx).1 ≡ executed result
      → finish_tx k gas_price impersonating
          (place_of ctx batch_env tx_index (t.hash tx))
          tx
          (execute_tx m x storage tx).0.1
          next_log_index
          result
        ≡ done ((storage', next_log_index'), ran kept)
      → l2_error k batch_env (t.l2_fee invalid) ≡ some error
      → let run = run_on m k gas_price impersonating batch_env ctx in
        (w : V) × (l.machine w ≡ l.machine vm)
        × (run x storage next_log_index tx_index (tx ∷ invalid ∷ txs) ≡ (
            run (with_vm x (some w)) storage' next_log_index' (suc tx_index) txs >>= λ rest.
            done (with_result kept rest)))
  unfolding main_executor main_control
  run_txs-invalid k gas_price impersonating batch_env ctx x vm storage storage' next_log_index
        next_log_index' tx_index tx invalid txs result kept error e f g h bad =
      let after : MainBatchExecutor V × ForkStorageInner C = (execute_tx m x storage tx).0 in
      let rest : MainBatchExecutor V → Outcome (RanTxs (MainBatchExecutor V) C T) = λ y.
        run_on m k gas_price impersonating batch_env ctx y storage' next_log_index' (suc tx_index)
          txs in
      let back : Restored m l x vm after.0 =
        subst (AfterExecute m l x vm after.0) g
          (rollback_last_tx-execute_tx m l x vm storage tx e) in
      (
        back.0,
        back.2,
        run_txs-ran ⦃e = main_executor m⦄ ⦃r = main_control m⦄ k gas_price impersonating batch_env
              ctx x storage storage' next_log_index next_log_index' tx_index tx (invalid ∷ txs)
              result kept f g h
            ∙ ap
                (λ (o : Outcome (RanTxs (MainBatchExecutor V) C T)).
                  o >>= λ after. done (with_result kept after))
                (run_txs-resume ⦃e = main_executor m⦄ ⦃r = main_control m⦄ k gas_price impersonating
                    batch_env ctx after.0 storage' next_log_index' (suc tx_index) invalid txs error
                    bad
                  ∙ ap (resume storage' rest) back.1),
      )

  -- A transaction that passes the validation and halts leaves the VM as it was: the run goes on with
  -- the machine of before it, at the same index and log index.
  pub run_txs-halted :
      (k : RunnerCalls) (gas_price : ℕ) (impersonating : Bool) (batch_env : L1BatchEnv)
      (ctx : BlockContext) (x : MainBatchExecutor V) (vm : V) (storage : ForkStorageInner C)
      (next_log_index tx_index : ℕ) (tx : T) (txs : List T) (result : VmExecutionResultAndLogs)
      (reason : ℕ)
      → x.vm ≡ some vm
      → l2_error k batch_env (t.l2_fee tx) ≡ none
      → (execute_tx m x storage tx).1 ≡ executed result
      → result.result ≡ halt reason
      → let run = run_on m k gas_price impersonating batch_env ctx in
        (w : V) × (l.machine w ≡ l.machine vm)
        × (run x storage next_log_index tx_index (tx ∷ txs)
            ≡ run (with_vm x (some w)) (execute_tx m x storage tx).0.1 next_log_index tx_index txs)
  unfolding main_executor main_control
  run_txs-halted k gas_price impersonating batch_env ctx x vm storage next_log_index tx_index tx txs
        result reason e f g h =
      let after : MainBatchExecutor V × ForkStorageInner C = (execute_tx m x storage tx).0 in
      let rest : MainBatchExecutor V → Outcome (RanTxs (MainBatchExecutor V) C T) = λ y.
        run_on m k gas_price impersonating batch_env ctx y after.1 next_log_index tx_index txs in
      let back : Restored m l x vm after.0 =
        subst (AfterExecute m l x vm after.0) g
          (rollback_last_tx-execute_tx m l x vm storage tx e) in
      (
        back.0,
        back.2,
        run_txs-halt ⦃e = main_executor m⦄ ⦃r = main_control m⦄ k gas_price impersonating batch_env
              ctx x storage next_log_index tx_index tx txs result reason f g h
            ∙ ap (resume after.1 rest) back.1,
      )
