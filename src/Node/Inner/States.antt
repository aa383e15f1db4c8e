-- ===== src/Node/Inner/States.antt =====
-- `dump_state`, `load_state` and `get_storage_at_block` of
-- crates/core/src/node/inner/in_memory_inner.rs.
use anvil_zksync.Base.{
  ℕ, ◌≤◌, ◌<◌, ◌≡◌, Bool, true, false, List, [], map, Option, none, some, if◌then◌else◌, ltb, ◌==◌,
  is_empty, lookup, extend, nat_key, pair_key, length, Outcome, done, ◌>>=◌, as_u32, arith, lt→ltb,
}
use anvil_zksync.Base.Words.{u32_mod}
use anvil_zksync.Utils.{number, to_real_block_number}
use anvil_zksync.Node.Blockchain.{Block, load_blocks}
use anvil_zksync.Node.Blockchain.Queries.{BlockId, by_number, by_hash, inspect}
use anvil_zksync.Node.Blockchain.Batches.{BatchTx, load_transactions}
use anvil_zksync.Node.Storage.{
  Client, SerializableForkStorage, dump_state, load_state, read_value_internal,
  get_storage_at_forked,
}
use anvil_zksync.Node.Inner.{ApiTransaction, State, InMemoryNodeInner}

pub record StateV1 (R : Type 0) : Type 0 where
  pub blocks : List (Block ApiTransaction)
  pub transactions : List R
  pub fork_storage : SerializableForkStorage
  pub historical_states : List (ℕ × State)

pub data VersionedState (R : Type 0) : Type 0 where
  v1 : StateV1 R → VersionedState R
  unknown : ℕ → VersionedState R

pub data LoadResult (A : Type 0) : Type 0 where
  ok : A → LoadResult A
  loading_state_over_existing_state load_empty_state : LoadResult A
  unknown_state_version : ℕ → LoadResult A

pub data StorageResult : Type 0 where
  value : ℕ → StorageResult
  internal_error : StorageResult
  pruned_block : ℕ → StorageResult

abbrev values : {K V : Type 0} → List (K × V) → List V
values = map (λ e. e.1)

module _ {R L C D P : Type 0} where
  unfoldable pub dump_node : InMemoryNodeInner R L C D P → Bool → VersionedState R
  dump_node node preserve_historical_states = v1 (record {
    blocks = values node.blockchain.blocks;
    transactions = values node.blockchain.tx_results;
    fork_storage = dump_state node.fork_storage;
    historical_states = if preserve_historical_states then node.previous_states else [];
  })

module _ {R L C D P : Type 0} ⦃b : BatchTx R⦄ where
  unfoldable pub load_v1 :
      InMemoryNodeInner R L C D P
      → StateV1 R
      → Outcome (InMemoryNodeInner R L C D P × LoadResult Bool)
  load_v1 node state = if is_empty state.blocks then done (node, load_empty_state) else do
    loaded ← load_blocks node.blockchain node.time state.blocks
    done (
      record node {
        blockchain = load_transactions loaded.0 state.transactions;
        time = loaded.1;
        fork_storage = load_state node.fork_storage state.fork_storage;
        previous_states = extend node.previous_states state.historical_states;
      },
      ok true,
    )

  unfoldable pub load_version :
      InMemoryNodeInner R L C D P
      → VersionedState R
      → Outcome (InMemoryNodeInner R L C D P × LoadResult Bool)
  unfolding load_v1
  load_version node (v1 state) = load_v1 node state
  load_version node (unknown version) = done (node, unknown_state_version version)

  unfoldable pub load_node :
      InMemoryNodeInner R L C D P
      → VersionedState R
      → Outcome (InMemoryNodeInner R L C D P × LoadResult Bool)
  load_node node state =
      if ltb 1 (length node.blockchain.blocks)
      then done (node, loading_state_over_existing_state)
      else load_version node state

module _ {R L C D P : Type 0} ⦃b : BatchTx R⦄ where
  -- Loading is refused, and the node left as it was, when it has more than one block, when the
  -- version is not known, or when the state has no blocks.
  pub load_node-refuses :
      (node : InMemoryNodeInner R L C D P) (state : StateV1 R) (version : ℕ)
      → (1 < length node.blockchain.blocks
          → load_node node (v1 state) ≡ done (node, loading_state_over_existing_state))
        × (length node.blockchain.blocks ≤ 1
            → (load_node node (unknown version) ≡ done (node, unknown_state_version version))
              × (state.blocks ≡ [] → load_node node (v1 state) ≡ done (node, load_empty_state)))
  unfolding load_node load_v1 load_version
  load_node-refuses node state version =
      (λ h. ground (arith, h), λ h. (ground (arith, h), λ e. ground (arith, h, e)))

lt→neq : (n m : ℕ) → n < m → (n == m) ≡ false
lt→neq n m h = ground arith

-- The client's read of a slot at a block that the node did not produce; `none` is a failed call.
pub record RemoteAt (C : Type 0) : Type 0 where
  pub get_storage_at : C → ℕ × ℕ → Option BlockId → Option ℕ

abbrev remote_result : Option ℕ → StorageResult
remote_result none = internal_error
remote_result (some v) = value v

module _ {C : Type 0} ⦃a : RemoteAt C⦄ where
  -- Without a fork every slot holds zero.
  abbrev pub remote_at : Option C → ℕ × ℕ → Option BlockId → StorageResult
  remote_at none key block = value 0
  remote_at (some client) key block = remote_result (a.get_storage_at client key block)

module _ {R L C D P : Type 0} where
  -- The number of the block, or none for a hash that is not known.
  unfoldable pub number_of : InMemoryNodeInner R L C D P → Option BlockId → Option ℕ
  unfolding to_real_block_number
  number_of node none = some node.blockchain.current_block
  number_of node (some (by_number n)) = some (to_real_block_number n node.blockchain.current_block)
  number_of node (some (by_hash h)) = inspect (λ b. b.number) (lookup h node.blockchain.blocks)

module _ {R L C D P : Type 0} ⦃c : Client C⦄ ⦃a : RemoteAt C⦄ where
  -- A slot that the archived state does not have was not touched since the fork.
  unfoldable pub in_state : InMemoryNodeInner R L C D P → ℕ × ℕ → Option ℕ → StorageResult
  unfolding get_storage_at_forked
  in_state node key (some v) = value v
  in_state node key none = remote_result (get_storage_at_forked node.fork_storage.fork key)

  abbrev pub in_archive : InMemoryNodeInner R L C D P → ℕ × ℕ → ℕ → Option State → StorageResult
  in_archive node key n none = pruned_block n
  in_archive node key n (some state) = in_state node key (lookup key state)

  abbrev pub in_history :
      InMemoryNodeInner R L C D P → ℕ × ℕ → Option BlockId → ℕ → Option ℕ → StorageResult
  in_history node key block n none = remote_at node.fork_storage.fork.client key block
  in_history node key block n (some h) = in_archive node key n (lookup h node.previous_states)

  abbrev pub storage_at :
      InMemoryNodeInner R L C D P
      → ℕ × ℕ
      → Option BlockId
      → ℕ
      → Outcome (InMemoryNodeInner R L C D P × StorageResult)
  storage_at node key block n =
      if n == node.blockchain.current_block
      then (do
        r ← read_value_internal node.fork_storage key
        done (record node { fork_storage = r.0 }, value r.1))
      else done (node, in_history node key block n (lookup n node.blockchain.hashes))

  abbrev pub storage_at_number :
      InMemoryNodeInner R L C D P
      → ℕ × ℕ
      → Option BlockId
      → Option ℕ
      → Outcome (InMemoryNodeInner R L C D P × StorageResult)
  storage_at_number node key block none = done (node, internal_error)
  storage_at_number node key block (some block_number) = do
    n ← as_u32 block_number
    storage_at node key block n

  unfoldable pub get_storage_at_block :
      InMemoryNodeInner R L C D P
      → ℕ × ℕ
      → Option BlockId
      → Outcome (InMemoryNodeInner R L C D P × StorageResult)
  unfolding number_of
  get_storage_at_block node key block = storage_at_number node key block (number_of node block)

  -- A read at a block whose state is archived looks into that state.
  pub get_storage_at_block-archived :
      (node : InMemoryNodeInner R L C D P) (key : ℕ × ℕ) (n h v : ℕ) (state : State)
      → n < node.blockchain.current_block
      → n < u32_mod
      → lookup n node.blockchain.hashes ≡ some h
      → lookup h node.previous_states ≡ some state
      → lookup key state ≡ some v
      → get_storage_at_block node key (some (by_number (number n))) ≡ done (node, value v)
  unfolding get_storage_at_block number_of to_real_block_number in_state
  get_storage_at_block-archived node key n h v state p q e f g =
      rw (lt→ltb n u32_mod q, lt→neq n node.blockchain.current_block p, e, f, g)
