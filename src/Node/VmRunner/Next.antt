-- ===== src/Node/VmRunner/Next.antt =====
-- The blocks of a batch that `run_tx_batch` of crates/core/src/node/inner/vm_runner.rs has run are
-- the next blocks of the chain of crates/core/src/node/inner/blockchain.rs.
use anvil_zksync.Base.{
  ℕ, is_empty, ◌+◌, ◌≤◌, ◌<◌, ◌≡◌, ◌≢◌, sym, ◌∙◌, ap, subst, Bool, true, false, List, [], ◌∷◌,
  Option, none, some, nat_key, IfDone, IfDone-imp, arith,
}
use anvil_zksync.Base.Words.{u32_mod, u64_max}
use anvil_zksync.Node.Time.{TimeState, peek_next_timestamp, advance_timestamp}
use anvil_zksync.Node.Time.Calls.{IsValid, advance, step, step-IsValid}
use anvil_zksync.Node.Time.Advance.{advance-peek, peek_future}
use anvil_zksync.Node.Pool.{TxBatch}
use anvil_zksync.Node.FeeModel.{FeeCalls, FloatDefaults, TestNodeFeeInputProvider}
use anvil_zksync.Node.Storage.{Client}
use anvil_zksync.Node.Blockchain.{BlockchainState, Block, TransactionVariant, with_block}
use anvil_zksync.Node.Blockchain.Apply.{IsNext}
use anvil_zksync.Node.Blockchain.Batches.{L1BatchHeader}
use anvil_zksync.Node.Inner.{ApiTransaction, InMemoryNodeInner, BlockContext}
use anvil_zksync.Node.Inner.Env.{SystemContext, last_env}
use anvil_zksync.Node.Inner.Seal.{TxBatchExecutionResult, create_block}
use anvil_zksync.Node.VmRunner.{BatchExecutor, BatchControl, BatchFinisher, TxFields, RunnerCalls}
use anvil_zksync.Node.VmRunner.Run.{TransactionResult}
use anvil_zksync.Node.VmRunner.Batch.{RunnerConfig, run_tx_batch}
use anvil_zksync.Node.VmRunner.Contexts.{Follows, Rest, Runs, RunsOpt, run_tx_batch_lem}

advance-IsValid : (t : TimeState) → IsValid t → IsValid (advance_timestamp t).0
advance-IsValid t v = unfold step in step-IsValid t advance tt v

-- The next timestamp of a valid clock is a word.
peek-le : (t : TimeState) → IsValid t → peek_next_timestamp t ≤ u64_max
peek-le t v =
    subst (λ u. u.current_timestamp ≤ u64_max) (advance-peek t).1 (advance-IsValid t v).in_range

-- The second next timestamp is later than the next one, and a word.
peek-advance :
    (t : TimeState)
    → IsValid t
    → t.interval ≢ some 0
    → peek_next_timestamp t < u64_max
    → (peek_next_timestamp t < peek_next_timestamp (advance_timestamp t).0)
      × (peek_next_timestamp (advance_timestamp t).0 ≤ u64_max)
peek-advance t v i b =
    let time : TimeState = (advance_timestamp t).0 in
    let now : time.current_timestamp ≡ peek_next_timestamp t =
      ap (λ (u : TimeState). u.current_timestamp) (advance-peek t).1 in
    let same : time.interval ≡ t.interval = ap (λ (u : TimeState). u.interval) (advance-peek t).1 in
    (
      subst (λ n. n < peek_next_timestamp time) now
          (peek_future time (advance-IsValid t v) (λ e. i (sym same ∙ e))
            (subst (λ n. n < u64_max) (sym now) b)),
      peek-le time (advance-IsValid t v),
    )

module _ {R L C D P : Type 0} ⦃s : SystemContext C⦄ where
  -- The node's chain, its clock and the system context of its storage fit together, with room for
  -- two blocks and a batch.
  pub record IsReady (node : InMemoryNodeInner R L C D P) (latest : Block ApiTransaction)
      : Type 0 where
    pub same_batch : (last_env node).0 ≡ node.blockchain.current_batch
    pub same_block : (last_env node).1.number ≡ node.blockchain.current_block
    pub clock : IsValid node.time
    pub runs : node.time.interval ≢ some 0
    pub not_ahead : latest.timestamp ≤ node.time.current_timestamp
    pub now_room : node.time.current_timestamp < u64_max
    pub time_room : peek_next_timestamp node.time < u64_max
    pub block_room : node.blockchain.current_block + 2 < u32_mod
    pub batch_room : node.blockchain.current_batch + 1 < u32_mod

-- The contexts of a result give the next block of the chain and, when there is a second one, the
-- block after it.
abbrev pub NextBlocks :
    {R D E T : Type 0}
    → BlockchainState ApiTransaction R L1BatchHeader D
    → Block ApiTransaction
    → TxBatchExecutionResult T E
    → Type 0
NextBlocks chain latest result =
    (ctx : BlockContext) × (ctxs : List BlockContext) × (result.block_ctxs ≡ ctx ∷ ctxs)
    × ((txs : List (TransactionVariant ApiTransaction)) (gas_used logs_bloom : ℕ)
        → let block = create_block result.batch_env ctx txs gas_used logs_bloom in
          IsNext chain latest block
          × ((virtual : BlockContext) (rest : List BlockContext)
              → ctxs ≡ virtual ∷ rest
              → (rest ≡ [])
                × IsNext (with_block chain block.number block) block
                    (create_block result.batch_env virtual [] 0 0)))

abbrev pub NextOpt :
    {R D E T : Type 0}
    → BlockchainState ApiTransaction R L1BatchHeader D
    → Block ApiTransaction
    → Option (TxBatchExecutionResult T E)
    → Type 0
NextOpt chain latest none = Unit
NextOpt chain latest (some result) = NextBlocks chain latest result

module _ {R L C D P : Type 0} where
  abbrev pub next_batch :
      InMemoryNodeInner R L C D P → BlockchainState ApiTransaction R L1BatchHeader D
  next_batch node = record (node.blockchain) { current_batch = node.blockchain.current_batch + 1 }

-- A second context is the last one.
second-Rest :
    (time : TimeState) (ctx : BlockContext) (empty : Bool) (ctxs : List BlockContext)
    (after : TimeState) (Q : BlockContext → Type 0)
    → Rest time ctx empty ctxs after
    → ((virtual : BlockContext) → Follows time ctx virtual → Q virtual)
    → (virtual : BlockContext) (rest : List BlockContext) → ctxs ≡ virtual ∷ rest
    → (rest ≡ []) × Q virtual
second-Rest time ctx true ctxs after Q h q virtual rest e = absurd (cc)
second-Rest time ctx false ctxs after Q h q virtual rest e =
    let same : h.0 ≡ virtual = cc in let last : rest ≡ [] = cc in (last, subst Q same (q h.0 h.2))

module _ {R L C D P T : Type 0} ⦃s : SystemContext C⦄ where
  first-IsNext :
      (k : RunnerCalls) (node after : InMemoryNodeInner R L C D P) (latest : Block ApiTransaction)
      (result : TxBatchExecutionResult (TransactionResult T) D)
      (txs : List (TransactionVariant ApiTransaction)) (gas_used logs_bloom : ℕ)
      → IsReady node latest
      → (runs : Runs k node after result)
      → IsNext
          (next_batch node)
          latest
          (create_block result.batch_env runs.ctx txs gas_used logs_bloom)
  unfolding create_block
  first-IsNext k node after latest result txs gas_used logs_bloom ready runs =
      let later = peek_future node.time ready.clock ready.runs ready.now_room in
      record {
        numbered = runs.numbered ∙ ap (λ n. n + 1) ready.same_block;
        in_batch = ap some (runs.batch_number ∙ ap (λ n. n + 1) ready.same_batch);
        later = omega (arith, later, ready.not_ahead, runs.timed);
        small_number = omega (arith, ready.block_room);
        small_batch = ready.batch_room;
        small_timestamp = omega (arith, ready.time_room, runs.timed);
      }

  virtual-IsNext :
      (k : RunnerCalls) (node after : InMemoryNodeInner R L C D P) (latest : Block ApiTransaction)
      (result : TxBatchExecutionResult (TransactionResult T) D)
      (txs : List (TransactionVariant ApiTransaction)) (gas_used logs_bloom : ℕ)
      → IsReady node latest
      → (runs : Runs k node after result) (virtual : BlockContext)
      → Follows (advance_timestamp node.time).0 runs.ctx virtual
      → let block = create_block result.batch_env runs.ctx txs gas_used logs_bloom in
        IsNext
          (with_block (next_batch node) block.number block)
          block
          (create_block result.batch_env virtual [] 0 0)
  unfolding create_block
  virtual-IsNext k node after latest result txs gas_used logs_bloom ready runs virtual follows =
      let two = peek-advance node.time ready.clock ready.runs ready.time_room in
      record {
        numbered =
            ground (arith, follows.numbered, runs.numbered, ready.same_block, ready.block_room);
        in_batch = ap some (runs.batch_number ∙ ap (λ n. n + 1) ready.same_batch);
        later = omega (arith, two.0, runs.timed, follows.timed);
        small_number = omega (arith, ready.block_room);
        small_batch = ready.batch_room;
        small_timestamp = omega (arith, two.1, follows.timed);
      }

  NextBlocks-Runs :
      (k : RunnerCalls) (node after : InMemoryNodeInner R L C D P) (latest : Block ApiTransaction)
      → IsReady node latest
      → (o : Option (TxBatchExecutionResult (TransactionResult T) D)) → RunsOpt k node after o
      → NextOpt (next_batch node) latest o
  NextBlocks-Runs k node after latest ready none runs = tt
  NextBlocks-Runs k node after latest ready (some result) runs = (
    runs.ctx,
    runs.ctxs,
    runs.contexts,
    λ txs gas_used logs_bloom. (
      first-IsNext k node after latest result txs gas_used logs_bloom ready runs,
      second-Rest (advance_timestamp node.time).0 runs.ctx (is_empty result.tx_results) runs.ctxs
          after.time _ runs.virtual
          (virtual-IsNext k node after latest result txs gas_used logs_bloom ready runs),
    ),
  )

module _ {R X L C D T F S : Type 0} ⦃e : BatchExecutor X C T⦄ ⦃r : BatchControl X⦄
    ⦃f : BatchFinisher X C D⦄ ⦃c : Client C⦄ ⦃t : TxFields T⦄ ⦃s : SystemContext C⦄
    ⦃fee : FeeCalls F S⦄ where
  -- When the system context of the storage agrees with the node's chain on the last batch and block,
  -- the clock is valid, advances and is not behind the latest block, and numbers and time have room
  -- for two blocks: the blocks of a batch that is run to a result are what `apply_block` asks for,
  -- whatever transactions, gas and bloom they have. The first is the next one of the chain in the
  -- next batch, and a second one, the last, is the next one after it.
  pub run_tx_batch-NextBlocks :
      (k : RunnerCalls) (config : RunnerConfig X C) (d : FloatDefaults S) (batch : TxBatch T)
      (node : InMemoryNodeInner R L C D (TestNodeFeeInputProvider F S))
      (latest : Block ApiTransaction)
      → IsReady node latest
      → IfDone
          (λ (after : InMemoryNodeInner R L C D (TestNodeFeeInputProvider F S)
              × Option (TxBatchExecutionResult (TransactionResult T) D)).
            NextOpt (next_batch node) latest after.1)
          (run_tx_batch k config d batch node)
  run_tx_batch-NextBlocks k config d batch node latest ready =
      IfDone-imp (λ after good. NextBlocks-Runs k node after.0 latest ready after.1 good.0)
        (run_tx_batch k config d batch node) (run_tx_batch_lem k config d batch node)
