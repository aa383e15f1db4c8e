-- ===== src/Node/VmRunner/Batch.antt =====
-- `run_tx_batch` of crates/core/src/node/inner/vm_runner.rs: the batch of transactions, its block
-- contexts and its end.
use anvil_zksync.Base.{
  ℕ, suc, is_empty, ◌+◌, ◌%◌, Bool, true, false, List, [], ◌∷◌, map, Option, none, some,
  if◌then◌else◌, ◌==◌, Outcome, panic, done, ◌>>=◌, as_u64,
}
use anvil_zksync.Base.Words.{u32_mod}
use anvil_zksync.Node.Time.{TimeState, advance_timestamp}
use anvil_zksync.Node.Pool.{TxBatch}
use anvil_zksync.Node.FeeModel.{FeeCalls, FloatDefaults, TestNodeFeeInputProvider, gas_price}
use anvil_zksync.Node.Storage.{Client, ForkStorageInner}
use anvil_zksync.Node.Inner.{InMemoryNodeInner, BlockContext, L1BatchEnv, L2BlockEnv}
use anvil_zksync.Node.Inner.Env.{SystemContext, create_l1_batch_env, new_block}
use anvil_zksync.Node.Inner.Seal.{TxBatchExecutionResult}
use anvil_zksync.Node.VmRunner.{
  BatchExecutor, BatchControl, BatchFinisher, BatchEnd, TxFields, RunnerCalls,
}
use anvil_zksync.Node.VmRunner.Run.{
  TransactionResult, RunError, validation_failed, transaction_halt, other, ran, failed, TxPlace,
  After, run_tx,
}

-- The executor factory and the settings of the runner and of the node that the run of a batch reads.
pub record RunnerConfig (X C : Type 0) : Type 0 where
  pub init_main_batch : L1BatchEnv → ForkStorageInner C → X
  pub system_contracts_hashes : Bool → List ℕ
  pub generate_system_logs : Bool

-- A batch run to its end gives the executor and the results; `none` is an error.
abbrev pub RanTxs : Type 0 → Type 0 → Type 0 → Type 0
RanTxs X C T = ForkStorageInner C × Option (X × List (TransactionResult T))

abbrev pub with_result : {X C T : Type 0} → TransactionResult T → RanTxs X C T → RanTxs X C T
with_result r (storage, none) = (storage, none)
with_result r (storage, some (executor, results)) = (storage, some (executor, r ∷ results))

-- The run goes on with the executor, if there is one.
abbrev pub resume :
    {X C T : Type 0}
    → ForkStorageInner C
    → (X → Outcome (RanTxs X C T))
    → Option X
    → Outcome (RanTxs X C T)
resume storage rest none = done (storage, none)
resume storage rest (some x) = rest x

module _ {X : Type 0} ⦃e : BatchControl X⦄ where
  -- The executor after a failed transaction, when the run goes on.
  abbrev pub after_error : RunError → X → Option X
  after_error (validation_failed error) executor = e.rollback_last_tx executor
  after_error transaction_halt executor = e.rollback_last_tx executor
  after_error other executor = none

abbrev pub place_of : BlockContext → L1BatchEnv → ℕ → ℕ → TxPlace
place_of block_ctx batch_env tx_index hash = record {
  block_ctx = block_ctx;
  batch_number = batch_env.number;
  tx_index = tx_index;
  tx_hash = hash;
}

module _ {X C T : Type 0} ⦃e : BatchExecutor X C T⦄ ⦃r : BatchControl X⦄ ⦃c : Client C⦄
    ⦃t : TxFields T⦄ where
  -- The loop over the transactions, from the index on.
  unfoldable pub run_txs :
      RunnerCalls
      → ℕ
      → Bool
      → L1BatchEnv
      → BlockContext
      → X
      → ForkStorageInner C
      → ℕ
      → ℕ
      → List T
      → Outcome (RanTxs X C T)
  run_txs k gas_price imp batch_env ctx executor storage next_log_index tx_index [] =
      done (storage, some (executor, []))
  run_txs k gas_price imp batch_env ctx executor storage next_log_index tx_index (tx ∷ txs) =
      run_tx k gas_price imp batch_env (place_of ctx batch_env tx_index (t.hash tx)) executor
        storage next_log_index tx
      >>= λ (after : After X C T). elim after.1.1 [
        | ran r ↦
            run_txs k gas_price imp batch_env ctx after.0 after.1.0.0 after.1.0.1 (suc tx_index) txs
            >>= λ rest. done (with_result r rest)
        | failed error ↦
            resume after.1.0.0
              (λ executor'.
                run_txs k gas_price imp batch_env ctx executor' after.1.0.0 after.1.0.1 tx_index
                  txs)
              (after_error error after.0)
      ]

-- The context with the hash of the block that has the given transactions.
unfoldable pub with_hash : RunnerCalls → ℕ → BlockContext → List ℕ → BlockContext
with_hash k version ctx tx_hashes = record ctx {
  hash =
      k.compute_hash version (ctx.miniblock % u32_mod) ctx.timestamp ctx.prev_block_hash tx_hashes;
}

-- The environment of the virtual block: the timestamp is one later than that of the block, and the
-- sum panics past u64, like that of the number.
abbrev pub virtual_env : BlockContext → Outcome L2BlockEnv
virtual_env ctx = do
  number ← as_u64 (ctx.miniblock + 1)
  timestamp ← as_u64 (ctx.timestamp + 1)
  done (record {
    number = number % u32_mod;
    timestamp = timestamp;
    prev_block_hash = ctx.hash;
    max_virtual_blocks_to_create = 1;
  })

-- A virtual block follows a block that is not empty.
unfoldable pub block_ctxs_of :
    RunnerCalls → ℕ → BlockContext → Bool → TimeState → TimeState × List BlockContext
block_ctxs_of k version ctx true time = (time, ctx ∷ [])
block_ctxs_of k version ctx false time =
    let virtual = new_block ctx time in (virtual.0, ctx ∷ with_hash k version virtual.1 [] ∷ [])

abbrev pub tx_hashes_of : {T : Type 0} → List (TransactionResult T) → List ℕ
tx_hashes_of [] = []
tx_hashes_of (r ∷ results) = r.receipt.transaction_hash ∷ tx_hashes_of results

module _ {X : Type 0} ⦃e : BatchControl X⦄ where
  unfoldable pub start_virtual : Bool → BlockContext → X → Outcome (Option X)
  start_virtual true ctx executor = done (some executor)
  start_virtual false ctx executor = do
    l2_block_env ← virtual_env ctx
    done (e.start_next_l2_block executor l2_block_env)

module _ {X C D : Type 0} ⦃f : BatchFinisher X C D⦄ where
  abbrev pub end_batch : Bool → X → ForkStorageInner C → ForkStorageInner C × Option (BatchEnd D)
  end_batch true executor storage = f.finish_batch executor storage
  end_batch false executor storage = f.bootloader executor storage

  -- The end of a batch; an execution that failed panics.
  unfoldable pub finish :
      Bool → Option X → ForkStorageInner C → Outcome (ForkStorageInner C × Option (BatchEnd D))
  finish system_logs none storage = done (storage, none)
  finish system_logs (some executor) storage =
      let ended = end_batch system_logs executor storage in
      elim ended.1 [ none ↦ done ended | some end ↦ if end.is_failed then panic else done ended ]

-- The result of the batch, if it came to its end.
abbrev pub batch_result :
    {T D : Type 0}
    → List (TransactionResult T)
    → List ℕ
    → L1BatchEnv
    → List BlockContext
    → Option (BatchEnd D)
    → Option (TxBatchExecutionResult (TransactionResult T) D)
batch_result results hashes batch_env ctxs none = none
batch_result results hashes batch_env ctxs (some end) = some (record {
  tx_results = results;
  base_system_contracts_hashes = hashes;
  batch_env = batch_env;
  block_ctxs = ctxs;
  finished_l1_batch = end.finished_l1_batch;
  modified_storage_keys = end.modified_storage_keys;
})

module _ {R X L C D T P : Type 0} ⦃r : BatchControl X⦄ ⦃f : BatchFinisher X C D⦄ where
  -- What follows the loop.
  unfoldable pub finish_run :
      RunnerCalls
      → RunnerConfig X C
      → Bool
      → L1BatchEnv
      → BlockContext
      → InMemoryNodeInner R L C D P
      → X
      → List (TransactionResult T)
      → Outcome
          (InMemoryNodeInner R L C D P × Option (TxBatchExecutionResult (TransactionResult T) D))
  finish_run k config impersonating batch_env block_ctx node executor results = do
    let version = node.blockchain.protocol_version
    let ctx = with_hash k version block_ctx (tx_hashes_of results)
    let ctxs = block_ctxs_of k version ctx (is_empty results) node.time
    started ← start_virtual (is_empty results) ctx executor
    ended ← finish {D = D} config.generate_system_logs started node.fork_storage
    done (
      record node { time = ctxs.0; fork_storage = ended.0 },
      batch_result results (config.system_contracts_hashes impersonating) batch_env ctxs.1 ended.1,
    )

module _ {R X L C D T F S : Type 0} ⦃e : BatchExecutor X C T⦄ ⦃r : BatchControl X⦄
    ⦃f : BatchFinisher X C D⦄ ⦃c : Client C⦄ ⦃t : TxFields T⦄ ⦃s : SystemContext C⦄
    ⦃fee : FeeCalls F S⦄ where
  -- The hash of the block in the receipts is that of all transactions of the batch; the hash of the
  -- result is that of the transactions that have a receipt.
  unfoldable pub run_tx_batch :
      RunnerCalls
      → RunnerConfig X C
      → FloatDefaults S
      → TxBatch T
      → InMemoryNodeInner R L C D (TestNodeFeeInputProvider F S)
      → Outcome (
          InMemoryNodeInner R L C D (TestNodeFeeInputProvider F S)
          × Option (TxBatchExecutionResult (TransactionResult T) D))
  run_tx_batch k config d batch node = do
    envs ← create_l1_batch_env d node
    let advanced = advance_timestamp node.time
    let timed : InMemoryNodeInner R L C D (TestNodeFeeInputProvider F S) = record node {
      time = advanced.0;
    }
    if advanced.1 == envs.1.timestamp
        then (do
          let ctx = with_hash k node.blockchain.protocol_version envs.1 (map t.hash batch.txs)
          ran_txs ←
              run_txs k (gas_price node.fee_input_provider) batch.impersonating envs.0 ctx
                (config.init_main_batch envs.0 node.fork_storage) node.fork_storage 0 0 batch.txs
          let after : InMemoryNodeInner R L C D (TestNodeFeeInputProvider F S) = record timed {
            fork_storage = ran_txs.0;
          }
          elim ran_txs.1 [
            | none ↦ done (after, none)
            | some r ↦ finish_run k config batch.impersonating envs.0 ctx after r.0 r.1
          ])
        else done (timed, none)
