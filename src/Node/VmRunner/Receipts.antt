-- ===== src/Node/VmRunner/Receipts.antt =====
-- The receipts that the loop of `run_tx_batch` of crates/core/src/node/inner/vm_runner.rs makes.
use anvil_zksync.Base.{
  ℕ, suc, ◌≡◌, refl, Bool, List, [], ◌∷◌, All, Option, none, some, Outcome, done, ◌>>=◌, unwrap,
  IfDone, IfDone-bind, IfDone-then, IfDone-imp, inl, inr, ◌⊎◌,
}
use anvil_zksync.Node.Storage.{Client, ForkStorageInner}
use anvil_zksync.Node.Inner.{BlockContext, L1BatchEnv}
use anvil_zksync.Node.VmRunner.{
  VmEvent, VmExecutionResultAndLogs, ExecutionResult, success, revert, halt, TxAnswer,
  executor_error, compression_error, executed, TxFields, RunnerCalls, BatchExecutor, BatchControl,
  TransactionValidationError, new_bytecodes, create_debug_output,
}
use anvil_zksync.Node.VmRunner.Run.{
  ApiLog, TransactionResult, RunResult, ran, failed, TxPlace, After, keep_tx, validation_failed,
  transaction_halt, logs_from, checked_sub, tx_result, bump_nonce, finish_tx, answered, l2_error,
  run_tx,
}
use anvil_zksync.Node.VmRunner.Batch.{RanTxs, with_result, after_error, resume, place_of, run_txs}

-- What a log says of where it stands.
pub record LogStands (p : TxPlace) (log : ApiLog) : Type 0 where
  pub in_block : log.block_number ≡ some p.block_ctx.miniblock
  pub of_block : log.block_hash ≡ p.block_ctx.hash
  pub of_tx : log.transaction_hash ≡ p.tx_hash
  pub indexed : log.transaction_index ≡ p.tx_index

pub record Stands {T : Type 0} (p : TxPlace) (r : TransactionResult T) : Type 0 where
  pub tx_hash : r.receipt.transaction_hash ≡ p.tx_hash
  pub indexed : r.receipt.transaction_index ≡ p.tx_index
  pub of_block : r.receipt.block_hash ≡ p.block_ctx.hash
  pub in_block : r.receipt.block_number ≡ p.block_ctx.miniblock
  pub in_batch : r.receipt.l1_batch_number ≡ p.batch_number
  pub logs : All (LogStands p) r.receipt.logs

logs_from-Stands :
    (p : TxPlace) (i : ℕ) (events : List VmEvent) → All (LogStands p) (logs_from p i events)
unfolding logs_from
logs_from-Stands p i [] = tt
logs_from-Stands p i (event ∷ events) = (
  record { in_block = refl; of_block = refl; of_tx = refl; indexed = refl },
  logs_from-Stands p (suc i) events,
)

abbrev pub StandsIfRan : {T : Type 0} → TxPlace → RunResult (TransactionResult T) → Type 0
StandsIfRan p (ran r) = Stands p r
StandsIfRan p (failed error) = Unit

module _ {T : Type 0} ⦃t : TxFields T⦄ where
  tx_result-Stands :
      (k : RunnerCalls) (gas_price : ℕ) (p : TxPlace) (next_log_index : ℕ) (tx : T)
      (result : VmExecutionResultAndLogs)
      → IfDone (Stands p) (tx_result k gas_price p next_log_index tx result)
  unfolding tx_result
  tx_result-Stands k gas_price p next_log_index tx result =
      IfDone-bind (Stands p) _ (new_bytecodes k tx result) λ bytecodes.
        IfDone-bind (Stands p) _ (unwrap (checked_sub (t.gas_limit tx) result.gas_refunded))
          λ gas_used. IfDone-bind (Stands p) _ (unwrap (create_debug_output k tx result)) λ debug.
            record {
              tx_hash = refl;
              indexed = refl;
              of_block = refl;
              in_block = refl;
              in_batch = refl;
              logs = logs_from-Stands p 0 result.events;
            }

module _ {C T : Type 0} ⦃c : Client C⦄ ⦃t : TxFields T⦄ where
  abbrev AfterStands : TxPlace → (ForkStorageInner C × ℕ) × RunResult (TransactionResult T) → Type 0
  AfterStands p after = StandsIfRan p after.1

  keep_tx-Stands :
      (k : RunnerCalls) (gas_price : ℕ) (impersonating : Bool) (p : TxPlace) (tx : T)
      (storage : ForkStorageInner C) (next_log_index : ℕ) (result : VmExecutionResultAndLogs)
      → IfDone
          (AfterStands p)
          (keep_tx k gas_price impersonating p tx storage next_log_index result)
  unfolding keep_tx
  keep_tx-Stands k gas_price impersonating p tx storage next_log_index result =
      IfDone-bind (AfterStands p) _ (bump_nonce k impersonating (t.initiator_account tx) storage)
        λ storage'.
          IfDone-then (Stands p) (AfterStands p) _
            (tx_result k gas_price p next_log_index tx result)
            (tx_result-Stands k gas_price p next_log_index tx result) λ kept stands. stands

  finish_tx-Stands :
      (k : RunnerCalls) (gas_price : ℕ) (impersonating : Bool) (p : TxPlace) (tx : T)
      (storage : ForkStorageInner C) (next_log_index : ℕ) (result : VmExecutionResultAndLogs)
      → IfDone
          (AfterStands p)
          (finish_tx k gas_price impersonating p tx storage next_log_index result)
  unfolding finish_tx
  finish_tx-Stands k gas_price impersonating p tx storage next_log_index result = go result.result
    where
      kept :
          IfDone
            (AfterStands p)
            (keep_tx k gas_price impersonating p tx storage next_log_index result)
      kept = keep_tx-Stands k gas_price impersonating p tx storage next_log_index result

      go :
          (o : ExecutionResult)
          → IfDone (AfterStands p) (elim o [
            | halt reason ↦ done ((storage, next_log_index), failed transaction_halt)
            | _ ↦ keep_tx k gas_price impersonating p tx storage next_log_index result
          ])
      go (success output) = kept
      go (revert output) = kept
      go (halt reason) = tt

  answered-Stands :
      (k : RunnerCalls) (gas_price : ℕ) (impersonating : Bool) (p : TxPlace) (tx : T)
      (storage : ForkStorageInner C) (next_log_index : ℕ) (answer : TxAnswer)
      → IfDone
          (AfterStands p)
          (answered k gas_price impersonating p tx storage next_log_index answer)
  answered-Stands k gas_price impersonating p tx storage next_log_index executor_error = tt
  answered-Stands k gas_price impersonating p tx storage next_log_index compression_error = tt
  answered-Stands k gas_price impersonating p tx storage next_log_index (executed result) =
      finish_tx-Stands k gas_price impersonating p tx storage next_log_index result

module _ {X C T : Type 0} ⦃e : BatchExecutor X C T⦄ ⦃c : Client C⦄ ⦃t : TxFields T⦄ where
  run_tx-Stands :
      (k : RunnerCalls) (gas_price : ℕ) (impersonating : Bool) (batch_env : L1BatchEnv)
      (p : TxPlace) (x : X) (storage : ForkStorageInner C) (next_log_index : ℕ) (tx : T)
      → IfDone
          (λ (after : After X C T). StandsIfRan p after.1.1)
          (run_tx k gas_price impersonating batch_env p x storage next_log_index tx)
  unfolding run_tx
  run_tx-Stands k gas_price impersonating batch_env p x storage next_log_index tx =
      go (l2_error k batch_env (t.l2_fee tx))
    where
      Q : After X C T → Type 0
      Q after = StandsIfRan p after.1.1

      after_vm :
          (answer : (X × ForkStorageInner C) × TxAnswer)
          → IfDone Q (
              answered k gas_price impersonating p tx answer.0.1 next_log_index answer.1 >>= λ rest.
              done (answer.0.0, rest))
      after_vm answer =
          IfDone-then (AfterStands p) Q _
            (answered k gas_price impersonating p tx answer.0.1 next_log_index answer.1)
            (answered-Stands k gas_price impersonating p tx answer.0.1 next_log_index answer.1)
            λ rest stands. stands

      go :
          (o : Option TransactionValidationError)
          → IfDone Q (elim o [
            | some error ↦ done (x, ((storage, next_log_index), failed (validation_failed error)))
            | none ↦
                let answer = e.execute_tx x storage tx in
                answered k gas_price impersonating p tx answer.0.1 next_log_index answer.1
                >>= λ rest. done (answer.0.0, rest)
          ])
      go (some error) = tt
      go none = after_vm (e.execute_tx x storage tx)

-- The results are those of some of the transactions, in their order, at the indices from the given
-- one on and without a gap.
module _ {T : Type 0} ⦃t : TxFields T⦄ where
  abbrev pub AllStand : BlockContext → L1BatchEnv → ℕ → List T → List (TransactionResult T) → Type 0
  AllStand ctx batch_env i txs [] = Unit
  AllStand ctx batch_env i [] (r ∷ results) = ⊥
  AllStand ctx batch_env i (tx ∷ txs) (r ∷ results) =
      (Stands (place_of ctx batch_env i (t.hash tx)) r × AllStand ctx batch_env (suc i) txs results)
      ⊎ AllStand ctx batch_env i txs (r ∷ results)

  abbrev pub RanStand :
      {X C : Type 0} → BlockContext → L1BatchEnv → ℕ → List T → RanTxs X C T → Type 0
  RanStand ctx batch_env i txs (storage, none) = Unit
  RanStand ctx batch_env i txs (storage, some (x, results)) = AllStand ctx batch_env i txs results

  RanStand-skip :
      {X C : Type 0} (ctx : BlockContext) (batch_env : L1BatchEnv) (i : ℕ) (tx : T) (txs : List T)
      (rest : RanTxs X C T)
      → RanStand ctx batch_env i txs rest
      → RanStand ctx batch_env i (tx ∷ txs) rest
  RanStand-skip ctx batch_env i tx txs (storage, none) h = tt
  RanStand-skip ctx batch_env i tx txs (storage, some (x, [])) h = tt
  RanStand-skip ctx batch_env i tx txs (storage, some (x, r ∷ results)) h = inr h

module _ {X C T : Type 0} ⦃e : BatchExecutor X C T⦄ ⦃r : BatchControl X⦄ ⦃c : Client C⦄
    ⦃t : TxFields T⦄ where
  RanStand-with_result :
      (ctx : BlockContext) (batch_env : L1BatchEnv) (i : ℕ) (tx : T) (txs : List T)
      (result : TransactionResult T) (rest : RanTxs X C T)
      → Stands (place_of ctx batch_env i (t.hash tx)) result
      → RanStand ctx batch_env (suc i) txs rest
      → RanStand ctx batch_env i (tx ∷ txs) (with_result result rest)
  RanStand-with_result ctx batch_env i tx txs result (storage, none) h hs = tt
  RanStand-with_result ctx batch_env i tx txs result (storage, some (x, results)) h hs = inl (h, hs)

  resume-RanStand :
      (ctx : BlockContext) (batch_env : L1BatchEnv) (i : ℕ) (storage : ForkStorageInner C) (tx : T)
      (txs : List T) (rest : X → Outcome (RanTxs X C T)) (o : Option X)
      → ((x : X) → IfDone (RanStand ctx batch_env i txs) (rest x))
      → IfDone (RanStand ctx batch_env i (tx ∷ txs)) (resume storage rest o)
  resume-RanStand ctx batch_env i storage tx txs rest none h = tt
  resume-RanStand ctx batch_env i storage tx txs rest (some x) h =
      IfDone-imp (λ after k. RanStand-skip ctx batch_env i tx txs after k) (rest x) (h x)

  -- However the executor answers, and whichever transactions fail: the receipts of a run that goes
  -- through are those of some of its transactions, in their order, numbered from the given index on
  -- without a gap; each of them and its logs have the hash of that transaction, and the hash and
  -- number of the block context that the loop is given.
  pub run_txs-RanStand :
      (k : RunnerCalls) (gas_price : ℕ) (impersonating : Bool) (batch_env : L1BatchEnv)
      (ctx : BlockContext) (x : X) (storage : ForkStorageInner C) (next_log_index tx_index : ℕ)
      (txs : List T)
      → IfDone
          (λ (after : RanTxs X C T). RanStand ctx batch_env tx_index txs after)
          (run_txs k gas_price impersonating batch_env ctx x storage next_log_index tx_index txs)
  unfolding run_txs
  run_txs-RanStand k gas_price impersonating batch_env ctx x storage next_log_index tx_index [] = tt
  run_txs-RanStand k gas_price impersonating batch_env ctx x storage next_log_index tx_index
        (tx ∷ txs) =
      IfDone-then (λ (after : After X C T). StandsIfRan place after.1.1)
        (RanStand ctx batch_env tx_index (tx ∷ txs)) _
        (run_tx k gas_price impersonating batch_env place x storage next_log_index tx)
        (run_tx-Stands k gas_price impersonating batch_env place x storage next_log_index tx)
        λ after stands.
          go (λ y s n i. run_txs-RanStand k gas_price impersonating batch_env ctx y s n i txs) after
            after.1.1 stands
    where
      place : TxPlace
      place = place_of ctx batch_env tx_index (t.hash tx)

      go :
          ((y : X) (s : ForkStorageInner C) (n i : ℕ)
            → IfDone
                (λ (after : RanTxs X C T). RanStand ctx batch_env i txs after)
                (run_txs k gas_price impersonating batch_env ctx y s n i txs))
          → (after : After X C T) (o : RunResult (TransactionResult T)) → StandsIfRan place o
          → IfDone
              (λ (rest : RanTxs X C T). RanStand ctx batch_env tx_index (tx ∷ txs) rest)
              (elim o [
                | ran r ↦
                    run_txs k gas_price impersonating batch_env ctx after.0 after.1.0.0 after.1.0.1
                      (suc tx_index)
                      txs
                    >>= λ rest. done (with_result r rest)
                | failed error ↦
                    resume after.1.0.0
                      (λ executor'.
                        run_txs k gas_price impersonating batch_env ctx executor' after.1.0.0
                          after.1.0.1 tx_index txs)
                      (after_error error after.0)
              ])
      go ih after (ran result) stands =
          IfDone-then (λ (rest : RanTxs X C T). RanStand ctx batch_env (suc tx_index) txs rest)
            (RanStand ctx batch_env tx_index (tx ∷ txs)) _
            (run_txs k gas_price impersonating batch_env ctx after.0 after.1.0.0 after.1.0.1
              (suc tx_index) txs)
            (ih after.0 after.1.0.0 after.1.0.1 (suc tx_index))
            λ rest h. RanStand-with_result ctx batch_env tx_index tx txs result rest stands h
      go ih after (failed error) stands =
          resume-RanStand ctx batch_env tx_index after.1.0.0 tx txs _ (after_error error after.0)
            λ y. ih y after.1.0.0 after.1.0.1 tx_index
