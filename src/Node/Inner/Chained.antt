-- ===== src/Node/Inner/Chained.antt =====
-- The chain of the node under `seal_block` of crates/core/src/node/inner/in_memory_inner.rs.
use anvil_zksync.Base.{
  Bool, true, false, if◌then◌else◌, ℕ, ◌≡◌, ◌≢◌, refl, sym, subst, List, [], ◌∷◌, Option, none,
  some, lookup, nat_key, Outcome, panic, done, IfDone, IfDone-bind, IfDone-then, IfDone-imp,
  lookup-insert, arith,
}
use anvil_zksync.Filters.{Log}
use anvil_zksync.Node.Blockchain.{Block, BlockchainState, apply_block, with_block}
use anvil_zksync.Node.Blockchain.Apply.{apply_block_sound, apply_block_complete}
use anvil_zksync.Node.Blockchain.Chain.{IsChain, apply_block-IsChain}
use anvil_zksync.Node.Blockchain.Queries.{get_block_by_hash, get_block_by_number}
use anvil_zksync.Node.Blockchain.Batches.{
  BatchTx, L1BatchHeader, FinishedL1Batch, batch_state, apply_batch,
}
use anvil_zksync.Node.Storage.{Client}
use anvil_zksync.Node.Inner.{
  ApiTransaction, InMemoryNodeInner, BlockContext, L1BatchEnv, MessageRoot, read_aggregation_root,
  store_factory_deps, set_values, archive_current, produce_block, produce_virtual,
}
use anvil_zksync.Node.Inner.Seal.{
  Executed, Emits, TxBatchExecutionResult, create_block, virtual_block_of, all_bytecodes,
  notify_txs, apply_node_batch, api_transactions, total_gas, block_of_result, seal_block,
}

IfDone-unless :
    {A : Type 0} (Q : A → Type 0) (b : Bool) (a : A) → Q a → IfDone Q (if b then done a else panic)
IfDone-unless Q true a h = h
IfDone-unless Q false a h = tt

module _ {R D : Type 0} ⦃b : BatchTx R⦄ where
  -- A batch leaves the blocks as they are.
  apply_batch-IsChain :
      (s : BlockchainState ApiTransaction R L1BatchHeader D) (timestamp : ℕ) (hashes : List ℕ)
      (txs : List R) (finished : FinishedL1Batch D) (root : ℕ)
      → IsChain s
      → IfDone
          (λ (t : BlockchainState ApiTransaction R L1BatchHeader D).
            IsChain t × (t.blocks ≡ s.blocks))
          (apply_batch s timestamp hashes txs finished root)
  unfolding apply_batch get_block_by_hash get_block_by_number
  apply_batch-IsChain s timestamp hashes txs finished root v =
      IfDone-unless
        (λ (t : BlockchainState ApiTransaction R L1BatchHeader D).
          IsChain t × (t.blocks ≡ s.blocks))
        _ (batch_state s timestamp hashes txs finished root)
        (
          record {
            tip = v.tip;
            bounded = v.bounded;
            linked = v.linked;
            numbered = v.numbered;
            filled = v.filled;
            ordered = v.ordered;
          },
          refl,
        )

module _ {T R H D : Type 0} where
  -- An accepted block extends the chain, and only its hash is new.
  abbrev pub Extended : BlockchainState T R H D → Block T → BlockchainState T R H D → Type 0
  Extended s block t =
      IsChain t
      × ((h : ℕ) → h ≢ block.hash → get_block_by_hash s h ≡ none → get_block_by_hash t h ≡ none)

  apply_block-Extended :
      (s : BlockchainState T R H D) (block : Block T)
      → IsChain s
      → get_block_by_hash s block.hash ≡ none
      → IfDone (Extended s block) (apply_block s block)
  unfolding get_block_by_hash
  apply_block-Extended s block v fresh = go (apply_block s block) refl
    where
      go :
          (o : Outcome (BlockchainState T R H D))
          → apply_block s block ≡ o
          → IfDone (Extended s block) o
      go panic e = tt
      go (done t) e =
          let next = apply_block_sound s t v.tip.0 block v.tip.1 e in
          let whole = apply_block_complete s v.tip.0 block v.tip.1 next in
          let same : with_block s block.number block ≡ t = cc (whole, e) in
          (
            (apply_block-IsChain s t block v fresh e).0,
            λ h ne k.
                subst (λ (u : BlockchainState T R H D). lookup h u.blocks ≡ none) same
                  (ground (arith, ne, k, lookup-insert block.hash h block s.blocks)),
          )

  -- The virtual block, if there is one, is neither a block of the chain nor the one before it.
  abbrev pub NewVirtual : BlockchainState T R H D → ℕ → Option (Block T) → Type 0
  NewVirtual s hash none = Unit
  NewVirtual s hash (some block) = (block.hash ≢ hash) × (get_block_by_hash s block.hash ≡ none)

  NewVirtual-same :
      (s t : BlockchainState T R H D) (hash : ℕ) (virtual_block : Option (Block T))
      → t.blocks ≡ s.blocks
      → NewVirtual s hash virtual_block
      → NewVirtual t hash virtual_block
  unfolding get_block_by_hash
  NewVirtual-same s t hash none e new = tt
  NewVirtual-same s t hash (some w) e new =
      (new.0, subst (λ blocks. lookup w.hash blocks ≡ none) (sym e) new.1)

module _ {R L C D P : Type 0} where
  produce_block-Extended :
      (node : InMemoryNodeInner R L C D P) (block : Block ApiTransaction)
      → IsChain node.blockchain
      → get_block_by_hash node.blockchain block.hash ≡ none
      → IfDone
          (λ (n : InMemoryNodeInner R L C D P). Extended node.blockchain block n.blockchain)
          (produce_block node block)
  produce_block-Extended node block v fresh =
      IfDone-then (Extended node.blockchain block)
        (λ (n : InMemoryNodeInner R L C D P). Extended node.blockchain block n.blockchain) _
        (apply_block node.blockchain block) (apply_block-Extended node.blockchain block v fresh)
        (λ t e. e)

  produce_virtual-IsChain :
      (s : BlockchainState ApiTransaction R L1BatchHeader D) (block : Block ApiTransaction)
      (node : InMemoryNodeInner R L C D P) (virtual_block : Option (Block ApiTransaction))
      → Extended s block node.blockchain
      → NewVirtual s block.hash virtual_block
      → IfDone
          (λ (n : InMemoryNodeInner R L C D P). IsChain n.blockchain)
          (produce_virtual node virtual_block)
  unfolding archive_current
  produce_virtual-IsChain s block node none e new = e.0
  produce_virtual-IsChain s block node (some w) e new =
      IfDone-imp (λ n x. x.0) (produce_block (archive_current node) w)
        (produce_block-Extended (archive_current node) w e.0 (e.1 w.hash new.0 new.1))

module _ {R L C D P : Type 0} ⦃b : BatchTx R⦄ ⦃x : Executed R⦄ ⦃c : Client C⦄ where
  apply_node_batch-IsChain :
      (root : MessageRoot) (node : InMemoryNodeInner R L C D P)
      (result : TxBatchExecutionResult R D) (block : Block ApiTransaction)
      (virtual_block : Option (Block ApiTransaction))
      → IsChain node.blockchain
      → get_block_by_hash node.blockchain block.hash ≡ none
      → NewVirtual node.blockchain block.hash virtual_block
      → IfDone
          (λ (n : InMemoryNodeInner R L C D P). IsChain n.blockchain)
          (apply_node_batch root node result block virtual_block)
  unfolding apply_node_batch get_block_by_hash archive_current
  apply_node_batch-IsChain root node result block virtual_block v fresh new =
      IfDone-bind _ _ (read_aggregation_root root node.fork_storage result.modified_storage_keys)
        (λ aggregation.
          IfDone-then _ (λ (n : InMemoryNodeInner R L C D P). IsChain n.blockchain) _
            (apply_batch node.blockchain result.batch_env.timestamp
              result.base_system_contracts_hashes result.tx_results result.finished_l1_batch
              aggregation.1)
            (apply_batch-IsChain node.blockchain _ _ _ _ _ v)
            (λ t e.
              let archived : InMemoryNodeInner R L C D P =
                archive_current (record node { blockchain = t; fork_storage = aggregation.0 }) in
              IfDone-then (λ (n : InMemoryNodeInner R L C D P). Extended t block n.blockchain)
                (λ (n : InMemoryNodeInner R L C D P). IsChain n.blockchain) _
                (produce_block archived block)
                (produce_block-Extended archived block e.0
                  (subst (λ blocks. lookup block.hash blocks ≡ none) (sym e.1) fresh))
                (λ n extended.
                  produce_virtual-IsChain t block
                    (record n {
                      fork_storage =
                          set_values
                            (store_factory_deps n.fork_storage (all_bytecodes result.tx_results))
                            result.modified_storage_keys;
                    })
                    virtual_block extended
                    (NewVirtual-same node.blockchain t block.hash virtual_block e.1 new))))

-- The hashes of the contexts are new to the chain, and no two are the same.
abbrev pub DifferentFrom : ℕ → List BlockContext → Type 0
DifferentFrom hash [] = Unit
DifferentFrom hash (ctx ∷ ctxs) = (ctx.hash ≢ hash) × DifferentFrom hash ctxs

abbrev pub NewHashes :
    {R D : Type 0} → BlockchainState ApiTransaction R L1BatchHeader D → List BlockContext → Type 0
NewHashes s [] = Unit
NewHashes s (ctx ∷ ctxs) =
    (get_block_by_hash s ctx.hash ≡ none) × (DifferentFrom ctx.hash ctxs × NewHashes s ctxs)

virtual-New :
    {R D : Type 0} (s : BlockchainState ApiTransaction R L1BatchHeader D) (env : L1BatchEnv)
    (ctx : BlockContext) (ctxs : List BlockContext)
    → NewHashes s (ctx ∷ ctxs)
    → NewVirtual s ctx.hash (virtual_block_of env (ctx ∷ ctxs))
unfolding virtual_block_of create_block
virtual-New s env ctx [] new = tt
virtual-New s env ctx (w ∷ []) new = (new.1.0.0, new.1.1.0)
virtual-New s env ctx (w ∷ _ ∷ _) new = tt

module _ {R L C D P : Type 0} ⦃b : BatchTx R⦄ ⦃x : Executed R⦄ ⦃m : Emits R L⦄ ⦃l : Log L⦄
    ⦃c : Client C⦄ where
  block_of_result-hash :
      (node : InMemoryNodeInner R L C D P) (result : TxBatchExecutionResult R D)
      (ctx : BlockContext)
      → IfDone
          (λ (block : Block ApiTransaction). block.hash ≡ ctx.hash)
          (block_of_result node result ctx)
  unfolding create_block api_transactions total_gas
  block_of_result-hash node result ctx =
      IfDone-bind (λ (block : Block ApiTransaction). block.hash ≡ ctx.hash) _
        (api_transactions ctx result.batch_env.number node.chain_id 0 result.tx_results)
        (λ transactions.
          IfDone-bind (λ (block : Block ApiTransaction). block.hash ≡ ctx.hash) _
            (total_gas 0 result.tx_results) (λ gas_used. refl))

  -- `seal_block` keeps the chain of the node whole, the virtual block included, when the hashes
  -- of the blocks of the batch are new to the chain and no two of them are the same.
  pub seal_block-IsChain :
      (root : MessageRoot) (node : InMemoryNodeInner R L C D P)
      (result : TxBatchExecutionResult R D)
      → IsChain node.blockchain
      → NewHashes node.blockchain result.block_ctxs
      → IfDone
          (λ (r : InMemoryNodeInner R L C D P × ℕ). IsChain r.0.blockchain)
          (seal_block root node result)
  unfolding seal_block create_block api_transactions total_gas apply_node_batch
  seal_block-IsChain root node result v new = go result.block_ctxs refl
    where
      go :
          (ctxs : List BlockContext)
          → result.block_ctxs ≡ ctxs
          → IfDone
              (λ (r : InMemoryNodeInner R L C D P × ℕ). IsChain r.0.blockchain)
              (seal_block root node result)
      go [] e = rw e tt
      go (ctx ∷ ctxs) e =
          let new' = subst (NewHashes node.blockchain) e new in
          rw e (
            IfDone-bind (λ (r : InMemoryNodeInner R L C D P × ℕ). IsChain r.0.blockchain) _
              (notify_txs node.filters result.tx_results ctx.miniblock)
              (λ filters.
                IfDone-then (λ (block : Block ApiTransaction). block.hash ≡ ctx.hash)
                  (λ (r : InMemoryNodeInner R L C D P × ℕ). IsChain r.0.blockchain) _
                  (block_of_result node result ctx) (block_of_result-hash node result ctx)
                  (λ block same.
                    IfDone-then (λ (n : InMemoryNodeInner R L C D P). IsChain n.blockchain)
                      (λ (r : InMemoryNodeInner R L C D P × ℕ). IsChain r.0.blockchain) _
                      (apply_node_batch root (record node { filters = filters }) result block
                        (virtual_block_of result.batch_env (ctx ∷ ctxs)))
                      (apply_node_batch-IsChain root (record node { filters = filters }) result
                        block (virtual_block_of result.batch_env (ctx ∷ ctxs)) v
                        (subst (λ h. get_block_by_hash node.blockchain h ≡ none) (sym same) new'.0)
                        (subst
                          (λ h.
                            NewVirtual node.blockchain h
                              (virtual_block_of result.batch_env (ctx ∷ ctxs)))
                          (sym same) (virtual-New node.blockchain result.batch_env ctx ctxs new')))
                      (λ n w. w))))
