-- ===== src/Node/Inner/Applied.antt =====
-- `apply_batch` of crates/core/src/node/inner/in_memory_inner.rs on a batch of one block.
use anvil_zksync.Base.{
  ℕ, ◌+◌, ◌<◌, ◌≡◌, refl, ap, subst, ◌∙◌, inl, inr, List, [], ◌∷◌, Option, none, some, lookup,
  nat_key, pair_key, pair_beq, pair_beq_iff, done, IfDone, IfDone-then, Distinct, or_else,
  lookup-insert_self, Bool-cases, ◌≤◌, ◌%◌, length, arith,
}
use anvil_zksync.Base.Words.{u32_mod}
use anvil_zksync.Node.Blockchain.{Block, BlockchainState, with_block}
use anvil_zksync.Node.Blockchain.Apply.{IsNext, apply_block_complete}
use anvil_zksync.Node.Blockchain.Batches.{
  BatchTx, L1BatchHeader, FinishedL1Batch, apply_batch, batch_state, l1_txs, u16_mod,
}
use anvil_zksync.Node.Blockchain.Queries.{get_block_by_hash}
use anvil_zksync.Node.Storage.{
  Client, ForkStorageInner, InMemoryStorage, set_value, store_factory_dep, raw_store_factory_dep,
}
use anvil_zksync.Node.Storage.Overlay.{visible, visible-set_value, read_value_internal_lem}
use anvil_zksync.Node.Inner.{
  ApiTransaction, State, InMemoryNodeInner, MessageRoot, read_modified, read_aggregation_root,
  store_factory_deps, set_values, archive_current, archive_state,
}
use anvil_zksync.Node.Inner.Seal.{Executed, TxBatchExecutionResult, apply_node_batch, all_bytecodes}

module _ {C : Type 0} ⦃c : Client C⦄ where
  -- The local storage and what the slots hold are the same.
  pub record Same (s t : ForkStorageInner C) : Type 0 where
    pub raw : t.raw_storage ≡ s.raw_storage
    pub slots : (j : ℕ × ℕ) → visible t j ≡ visible s j

  Same-trans : (s t u : ForkStorageInner C) → Same s t → Same t u → Same s u
  Same-trans s t u a b = record { raw = b.raw ∙ a.raw; slots = λ j. b.slots j ∙ a.slots j }

  read_modified-Same :
      (s t : ForkStorageInner C) (slot : ℕ × ℕ) (o : Option ℕ)
      → Same s t
      → IfDone (λ (r : ForkStorageInner C × ℕ). Same s r.0) (read_modified t slot o)
  read_modified-Same s t slot (some v) same = same
  read_modified-Same s t slot none same = elim (read_value_internal_lem t slot) [
    | inl r ↦
        rw r.result (Same-trans s t r.after same (record { raw = r.raw; slots = r.all_visible }))
    | inr e ↦ rw e.0 tt
  ]

  read_aggregation_root-Same :
      (root : MessageRoot) (s : ForkStorageInner C) (m : State)
      → IfDone (λ (r : ForkStorageInner C × ℕ). Same s r.0) (read_aggregation_root root s m)
  unfolding read_aggregation_root
  read_aggregation_root-Same root s m =
      IfDone-then (λ (r : ForkStorageInner C × ℕ). Same s r.0)
        (λ (r : ForkStorageInner C × ℕ). Same s r.0) _
        (read_modified s (root.l2_message_root_address, root.agg_tree_height_key)
          (lookup (root.l2_message_root_address, root.agg_tree_height_key) m))
        (read_modified-Same s s _ _ (record { raw = refl; slots = λ j. refl }))
        (λ h same. read_modified-Same s h.0 _ _ same)

  visible-store_factory_deps :
      (s : ForkStorageInner C) (deps : List (ℕ × List ℕ)) (j : ℕ × ℕ)
      → visible (store_factory_deps s deps) j ≡ visible s j
  unfolding store_factory_deps store_factory_dep raw_store_factory_dep visible
  visible-store_factory_deps s [] j = refl
  visible-store_factory_deps s ((h, code) ∷ deps) j =
      visible-store_factory_deps (store_factory_dep s h code) deps j

  visible-set_values :
      (s : ForkStorageInner C) (m : State) (j : ℕ × ℕ)
      → Distinct m
      → visible (set_values s m) j ≡ or_else (lookup j m) (visible s j)
  unfolding set_values
  visible-set_values s [] j d = refl
  visible-set_values s ((k, v) ∷ m) j d =
      visible-set_values (set_value s k v) m j d.1 ∙ elim (Bool-cases (pair_beq k j)) [
        | inl h ↦ rw (
          visible-set_value s k j v,
          h,
          subst (λ x. lookup x m ≡ none) ((pair_beq_iff k j).0 h) d.0,
        )
        | inr h ↦ rw (visible-set_value s k j v, h)
      ]

module _ {R D : Type 0} ⦃b : BatchTx R⦄ where
  apply_batch-below :
      (s : BlockchainState ApiTransaction R L1BatchHeader D) (timestamp : ℕ) (hashes : List ℕ)
      (txs : List R) (finished : FinishedL1Batch D) (root : ℕ)
      → s.current_batch + 1 < u32_mod
      → l1_txs txs % u16_mod ≤ length txs % u16_mod
      → apply_batch s timestamp hashes txs finished root
        ≡ done (batch_state s timestamp hashes txs finished root)
  unfolding apply_batch
  apply_batch-below s timestamp hashes txs finished root h counts = ground arith

module _ {R L C D P : Type 0} ⦃b : BatchTx R⦄ ⦃x : Executed R⦄ ⦃c : Client C⦄ where
  -- What sealing one block does to the node.
  pub record Applies (node after : InMemoryNodeInner R L C D P) (block : Block ApiTransaction)
      (m : State) : Type 0 where
    pub block_number : after.blockchain.current_block ≡ node.blockchain.current_block + 1
    pub batch_number : after.blockchain.current_batch ≡ node.blockchain.current_batch + 1
    pub current : after.blockchain.current_block_hash ≡ block.hash
    pub stored : get_block_by_hash after.blockchain block.hash ≡ some block
    pub archived :
        lookup node.blockchain.current_block_hash after.previous_states
        ≡ some node.fork_storage.raw_storage.state
    pub written :
        (j : ℕ × ℕ)
        → visible after.fork_storage j ≡ or_else (lookup j m) (visible node.fork_storage j)
    pub clock : after.time ≡ node.time
    pub filters : after.filters ≡ node.filters

  -- A batch with one block, which is the next one of the chain in the next batch: when the two
  -- slots of the aggregation root can be read, and the counts of transactions do not overflow on 16
  -- bits, it goes through. The block and the batch are
  -- current, the block is found under its hash, the state before it under the hash of the block
  -- before, the written slots hold their new values, and no other slot, the clock or a filter
  -- changes.
  pub apply_node_batch_lem :
      (root : MessageRoot) (node : InMemoryNodeInner R L C D P)
      (result : TxBatchExecutionResult R D) (latest block : Block ApiTransaction)
      (aggregation : ForkStorageInner C × ℕ)
      → read_aggregation_root root node.fork_storage result.modified_storage_keys ≡ done aggregation
      → Distinct result.modified_storage_keys
      → l1_txs result.tx_results % u16_mod ≤ length result.tx_results % u16_mod
      → lookup node.blockchain.current_block_hash node.blockchain.blocks ≡ some latest
      → (let chain = node.blockchain in
          IsNext (record chain { current_batch = node.blockchain.current_batch + 1 }) latest block)
      → (after : InMemoryNodeInner R L C D P) × (apply_node_batch root node result block none
          ≡ done after)
        × Applies node after block result.modified_storage_keys
  unfolding apply_node_batch archive_current archive_state get_block_by_hash
  apply_node_batch_lem root node result latest block aggregation e d counts f n =
      let m : State = result.modified_storage_keys in
      let same : Same node.fork_storage aggregation.0 =
        subst (IfDone (λ (r : ForkStorageInner C × ℕ). Same node.fork_storage r.0)) e
          (read_aggregation_root-Same root node.fork_storage m) in
      let chain : BlockchainState ApiTransaction R L1BatchHeader D =
        batch_state node.blockchain result.batch_env.timestamp result.base_system_contracts_hashes
          result.tx_results result.finished_l1_batch aggregation.1 in
      let next : IsNext chain latest block = record {
        numbered = n.numbered;
        in_batch = n.in_batch;
        later = n.later;
        small_number = n.small_number;
        small_batch = n.small_batch;
        small_timestamp = n.small_timestamp;
      } in
      let storage : ForkStorageInner C =
        store_factory_deps aggregation.0 (all_bytecodes result.tx_results) in
      let after : InMemoryNodeInner R L C D P = record node {
        blockchain = with_block chain block.number block;
        fork_storage = set_values storage m;
        previous_states =
            archive_state node.previous_states aggregation.0.raw_storage.state
              node.blockchain.current_block_hash;
      } in
      (
        after,
        rw (
          e,
          apply_batch-below node.blockchain result.batch_env.timestamp
              result.base_system_contracts_hashes result.tx_results result.finished_l1_batch
              aggregation.1 n.small_batch counts,
          apply_block_complete chain latest block f next,
        ),
        record {
          block_number = refl;
          batch_number = refl;
          current = refl;
          stored = lookup-insert_self block.hash block node.blockchain.blocks;
          archived =
              lookup-insert_self node.blockchain.current_block_hash _ _
              ∙ ap (λ (r : InMemoryStorage). some r.state) same.raw;
          written = λ j.
              visible-set_values storage m j d
              ∙ ap (or_else (lookup j m)) (
                  visible-store_factory_deps aggregation.0 (all_bytecodes result.tx_results) j
                  ∙ same.slots j);
          clock = refl;
          filters = refl;
        },
      )
