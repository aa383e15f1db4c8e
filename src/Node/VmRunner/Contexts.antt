-- ===== src/Node/VmRunner/Contexts.antt =====
-- The block contexts that `run_tx_batch` of crates/core/src/node/inner/vm_runner.rs gives to the
-- sealing of the batch.
use anvil_zksync.Base.{
  ℕ, is_empty, ◌+◌, ◌%◌, ◌≡◌, refl, inl, inr, Bool, true, false, List, [], ◌∷◌, map, Option, none,
  some, ◌==◌, ltb, done, IfDone, IfDone-bind, IfDone-then, Bool-cases,
}
use anvil_zksync.Base.Words.{saturating_add, u32_mod}
use anvil_zksync.Node.Time.{TimeState, peek_next_timestamp, advance_timestamp}
use anvil_zksync.Node.Time.Advance.{advance-peek}
use anvil_zksync.Node.Pool.{TxBatch}
use anvil_zksync.Node.FeeModel.{FeeCalls, FloatDefaults, TestNodeFeeInputProvider, gas_price}
use anvil_zksync.Node.Storage.{Client, ForkStorageInner}
use anvil_zksync.Node.Inner.{InMemoryNodeInner, BlockContext, L1BatchEnv}
use anvil_zksync.Node.Inner.Env.{SystemContext, last_env, create_l1_batch_env, new_block}
use anvil_zksync.Node.Inner.Seal.{TxBatchExecutionResult}
use anvil_zksync.Node.VmRunner.{
  BatchExecutor, BatchControl, BatchFinisher, BatchEnd, TxFields, RunnerCalls,
}
use anvil_zksync.Node.VmRunner.Run.{TransactionResult}
use anvil_zksync.Node.VmRunner.Batch.{
  RunnerConfig, with_hash, block_ctxs_of, tx_hashes_of, start_virtual, finish, batch_result,
  finish_run, run_txs, run_tx_batch,
}

-- A context follows another in the same batch.
pub record Follows (time : TimeState) (ctx virtual : BlockContext) : Type 0 where
  pub numbered : virtual.miniblock ≡ saturating_add ctx.miniblock 1
  pub in_batch : virtual.batch ≡ ctx.batch
  pub timed : virtual.timestamp ≡ peek_next_timestamp time
  pub linked : virtual.prev_block_hash ≡ ctx.hash

-- What stands after the context of a block that is empty, or not, and what the clock is then.
abbrev pub Rest : TimeState → BlockContext → Bool → List BlockContext → TimeState → Type 0
Rest time ctx true ctxs after = (ctxs ≡ []) × (after ≡ time)
Rest time ctx false ctxs after =
    (virtual : BlockContext) × (ctxs ≡ virtual ∷ [])
    × Follows time ctx virtual
    × (after ≡ (advance_timestamp time).0)

module _ {R L C D P T : Type 0} ⦃s : SystemContext C⦄ where
  -- The result of a batch that was run on the node.
  pub record Runs (k : RunnerCalls) (node after : InMemoryNodeInner R L C D P)
      (result : TxBatchExecutionResult (TransactionResult T) D) : Type 0 where
    pub ctx : BlockContext
    pub ctxs : List BlockContext
    pub contexts : result.block_ctxs ≡ ctx ∷ ctxs
    pub batch_number : result.batch_env.number ≡ (last_env node).0 + 1
    pub batch_timestamp : result.batch_env.timestamp ≡ ctx.timestamp
    pub in_batch : ctx.batch ≡ (last_env node).0 + 1
    pub numbered : ctx.miniblock ≡ (last_env node).1.number + 1
    pub linked : ctx.prev_block_hash ≡ (last_env node).1.hash
    pub timed : ctx.timestamp ≡ peek_next_timestamp node.time
    -- The hash is that of the transactions that have a receipt.
    pub hashed :
        ctx.hash
        ≡ k.compute_hash node.blockchain.protocol_version
            (ctx.miniblock % u32_mod)
            ctx.timestamp
            ctx.prev_block_hash
            (tx_hashes_of result.tx_results)
    pub virtual :
        Rest (advance_timestamp node.time).0 ctx (is_empty result.tx_results) ctxs after.time

  abbrev pub RunsOpt :
      RunnerCalls
      → InMemoryNodeInner R L C D P
      → InMemoryNodeInner R L C D P
      → Option (TxBatchExecutionResult (TransactionResult T) D)
      → Type 0
  RunsOpt k node after none = Unit
  RunsOpt k node after (some result) = Runs k node after result

module _ {R L C D P : Type 0} where
  -- Only the clock and the storage change.
  abbrev pub Keeps : InMemoryNodeInner R L C D P → InMemoryNodeInner R L C D P → Type 0
  Keeps node after = after ≡ record node { time = after.time; fork_storage = after.fork_storage }

block_ctxs_of-Rest :
    (k : RunnerCalls) (version : ℕ) (ctx : BlockContext) (empty : Bool) (time : TimeState)
    → (ctxs : List BlockContext) × ((block_ctxs_of k version ctx empty time).1 ≡ ctx ∷ ctxs)
      × Rest time ctx empty ctxs (block_ctxs_of k version ctx empty time).0
unfolding block_ctxs_of with_hash new_block
block_ctxs_of-Rest k version ctx true time = ([], refl, (refl, refl))
block_ctxs_of-Rest k version ctx false time =
    let virtual = with_hash k version (new_block ctx time).1 [] in
    let follows : Follows time ctx virtual = record {
      numbered = refl;
      in_batch = refl;
      timed = (advance-peek time).0;
      linked = refl;
    } in
    (virtual ∷ [], refl, (virtual, refl, follows, refl))

module _ {R L C D F S : Type 0} ⦃s : SystemContext C⦄ ⦃fee : FeeCalls F S⦄ where
  -- What the environment of a batch is made of.
  pub record EnvOf (node : InMemoryNodeInner R L C D (TestNodeFeeInputProvider F S))
      (batch_env : L1BatchEnv) (ctx : BlockContext) : Type 0 where
    pub batch_number : batch_env.number ≡ (last_env node).0 + 1
    pub batch_timestamp : batch_env.timestamp ≡ ctx.timestamp
    pub in_batch : ctx.batch ≡ (last_env node).0 + 1
    pub numbered : ctx.miniblock ≡ (last_env node).1.number + 1
    pub linked : ctx.prev_block_hash ≡ (last_env node).1.hash
    pub timed : ctx.timestamp ≡ peek_next_timestamp node.time

  create_l1_batch_env-EnvOf :
      (d : FloatDefaults S) (node : InMemoryNodeInner R L C D (TestNodeFeeInputProvider F S))
      → IfDone (λ envs. EnvOf node envs.0 envs.1) (create_l1_batch_env d node)
  unfolding create_l1_batch_env
  create_l1_batch_env-EnvOf d node = elim (Bool-cases (ltb ((last_env node).0 + 1) u32_mod)) [
    | inl e ↦ rw e (record {
      batch_number = refl;
      batch_timestamp = refl;
      in_batch = refl;
      numbered = refl;
      linked = refl;
      timed = refl;
    })
    | inr e ↦ rw e tt
  ]

  EnvOf-with_hash :
      (k : RunnerCalls) (node : InMemoryNodeInner R L C D (TestNodeFeeInputProvider F S))
      (batch_env : L1BatchEnv) (ctx : BlockContext) (hashes : List ℕ)
      → EnvOf node batch_env ctx
      → EnvOf node batch_env (with_hash k node.blockchain.protocol_version ctx hashes)
  unfolding with_hash
  EnvOf-with_hash k node batch_env ctx hashes e = record {
    batch_number = e.batch_number;
    batch_timestamp = e.batch_timestamp;
    in_batch = e.in_batch;
    numbered = e.numbered;
    linked = e.linked;
    timed = e.timed;
  }

module _ {R L C D P T : Type 0} ⦃s : SystemContext C⦄ where
  -- What is said of a run: the result, and that nothing but the clock and the storage changed.
  abbrev pub Good :
      RunnerCalls
      → InMemoryNodeInner R L C D P
      → InMemoryNodeInner R L C D P × Option (TxBatchExecutionResult (TransactionResult T) D)
      → Type 0
  Good k node after = RunsOpt k node after.0 after.1 × Keeps node after.0

module _ {R L C D T F S : Type 0} ⦃s : SystemContext C⦄ ⦃fee : FeeCalls F S⦄ where
  Runs-batch_result :
      (k : RunnerCalls) (node : InMemoryNodeInner R L C D (TestNodeFeeInputProvider F S))
      (hashes : List ℕ) (batch_env : L1BatchEnv) (block_ctx : BlockContext)
      → EnvOf node batch_env block_ctx
      → (results : List (TransactionResult T)) (storage : ForkStorageInner C)
        (ended : Option (BatchEnd D))
      → let ctx = with_hash k node.blockchain.protocol_version block_ctx (tx_hashes_of results) in
        let ctxs =
          block_ctxs_of k node.blockchain.protocol_version ctx
            (is_empty results)
            (advance_timestamp node.time).0 in
        RunsOpt k node
          (record node { time = ctxs.0; fork_storage = storage })
          (batch_result results hashes batch_env ctxs.1 ended)
  unfolding with_hash
  Runs-batch_result k node hashes batch_env block_ctx e results storage none = tt
  Runs-batch_result k node hashes batch_env block_ctx e results storage (some end) =
      let ctx = with_hash k node.blockchain.protocol_version block_ctx (tx_hashes_of results) in
      let rest =
        block_ctxs_of-Rest k node.blockchain.protocol_version ctx (is_empty results)
          (advance_timestamp node.time).0 in
      record {
        ctx = ctx;
        ctxs = rest.0;
        contexts = rest.1;
        batch_number = e.batch_number;
        batch_timestamp = e.batch_timestamp;
        in_batch = e.in_batch;
        numbered = e.numbered;
        linked = e.linked;
        timed = e.timed;
        hashed = refl;
        virtual = rest.2;
      }

module _ {R X L C D T F S : Type 0} ⦃r : BatchControl X⦄ ⦃f : BatchFinisher X C D⦄
    ⦃s : SystemContext C⦄ ⦃fee : FeeCalls F S⦄ where
  finish_run-Good :
      (k : RunnerCalls) (config : RunnerConfig X C) (impersonating : Bool) (batch_env : L1BatchEnv)
      (block_ctx : BlockContext) (node : InMemoryNodeInner R L C D (TestNodeFeeInputProvider F S))
      (storage : ForkStorageInner C) (executor : X) (results : List (TransactionResult T))
      → EnvOf node batch_env block_ctx
      → IfDone (Good k node) (
          finish_run k config impersonating batch_env block_ctx
            (record node { time = (advance_timestamp node.time).0; fork_storage = storage })
            executor
            results)
  unfolding finish_run
  finish_run-Good k config impersonating batch_env block_ctx node storage executor results e =
      let ctx = with_hash k node.blockchain.protocol_version block_ctx (tx_hashes_of results) in
      IfDone-bind (Good k node) _ (start_virtual (is_empty results) ctx executor) (λ started.
        IfDone-bind (Good k node) _ (finish {D = D} config.generate_system_logs started storage)
          (λ ended. (
            Runs-batch_result k node (config.system_contracts_hashes impersonating) batch_env
                block_ctx e results ended.0 ended.1,
            refl,
          )))

  -- What follows the loop, whether it came to its end or not.
  after_loop-Good :
      (k : RunnerCalls) (config : RunnerConfig X C) (impersonating : Bool) (batch_env : L1BatchEnv)
      (block_ctx : BlockContext) (node : InMemoryNodeInner R L C D (TestNodeFeeInputProvider F S))
      (storage : ForkStorageInner C)
      → EnvOf node batch_env block_ctx
      → (o : Option (X × List (TransactionResult T)))
      → let after : InMemoryNodeInner R L C D (TestNodeFeeInputProvider F S) = record node {
        time = (advance_timestamp node.time).0;
        fork_storage = storage;
      } in
        IfDone (Good k node) (elim o [
          | none ↦ done (after, none)
          | some ran_to ↦
              finish_run k config impersonating batch_env block_ctx after ran_to.0 ran_to.1
        ])
  after_loop-Good k config impersonating batch_env block_ctx node storage e none = (tt, refl)
  after_loop-Good k config impersonating batch_env block_ctx node storage e (some ran_to) =
      finish_run-Good k config impersonating batch_env block_ctx node storage ran_to.0 ran_to.1 e

module _ {R X L C D T F S : Type 0} ⦃e : BatchExecutor X C T⦄ ⦃r : BatchControl X⦄
    ⦃f : BatchFinisher X C D⦄ ⦃c : Client C⦄ ⦃t : TxFields T⦄ ⦃s : SystemContext C⦄
    ⦃fee : FeeCalls F S⦄ where
  -- A batch that is run to a result without a panic: its first block is the one after the last
  -- block of the system context, in the batch after the last one, linked to it by hash, at the time
  -- that the clock foretold, and with the hash of the transactions that have a receipt. Exactly if
  -- there is such a transaction, a second block follows the first one in the same batch. The clock
  -- is that of the last block, and of the node only the clock and the storage have changed, also
  -- when there is no result.
  pub run_tx_batch_lem :
      (k : RunnerCalls) (config : RunnerConfig X C) (d : FloatDefaults S) (batch : TxBatch T)
      (node : InMemoryNodeInner R L C D (TestNodeFeeInputProvider F S))
      → IfDone
          (λ (after : InMemoryNodeInner R L C D (TestNodeFeeInputProvider F S)
              × Option (TxBatchExecutionResult (TransactionResult T) D)).
            Good k node after)
          (run_tx_batch k config d batch node)
  unfolding run_tx_batch
  run_tx_batch_lem k config d batch node =
      IfDone-then (λ envs. EnvOf node envs.0 envs.1) (Good k node) _ (create_l1_batch_env d node)
        (create_l1_batch_env-EnvOf d node)
        (λ envs env_of. elim (Bool-cases ((advance_timestamp node.time).1 == envs.1.timestamp)) [
          | inl b ↦
              let ctx : BlockContext =
                with_hash k node.blockchain.protocol_version envs.1 (map t.hash batch.txs) in
              rw b (
                IfDone-bind (Good k node) _
                  (run_txs k (gas_price node.fee_input_provider) batch.impersonating envs.0 ctx
                    (config.init_main_batch envs.0 node.fork_storage) node.fork_storage 0 0
                    batch.txs)
                  (λ ran_txs.
                    after_loop-Good k config batch.impersonating envs.0 ctx node ran_txs.0
                      (EnvOf-with_hash k node envs.0 envs.1 (map t.hash batch.txs) env_of)
                      ran_txs.1))
          | inr b ↦ rw b (tt, refl)
        ])
