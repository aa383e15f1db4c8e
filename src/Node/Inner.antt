-- ===== src/Node/Inner.antt =====
-- crates/core/src/node/inner/in_memory_inner.rs: the node that the parts make up.
-- The locks around the parts are held for a whole call, and only one task writes, so that a call
-- is a function from the node. What the node calls of other crates, the fields of a transaction
-- result, the bloom filter and the hash function, is a parameter.
pub mod Seal
pub mod Env
pub mod Sealing
pub mod Applied
pub mod Chained
pub mod History
pub mod Snapshots
pub mod Revert
pub mod States
pub mod Tests
use anvil_zksync.Base.{
  ℕ, suc, ◌+◌, ◌*◌, ◌%◌, ◌^◌, Bool, List, [], ◌∷◌, ◌++◌, map, Option, none, some, if◌then◌else◌,
  ltb, ◌==◌, lookup, insert, nat_key, pair_key, length, Outcome, panic, done, ◌>>=◌,
}
use anvil_zksync.Base.Words.{u256_mod}
use anvil_zksync.Filters.{EthFilters}
use anvil_zksync.Node.Time.{TimeState}
use anvil_zksync.Node.Impersonate.{ImpersonationState}
use anvil_zksync.Node.FeeModel.{BatchFeeInput}
use anvil_zksync.Node.Blockchain.{BlockchainState, Block, apply_block}
use anvil_zksync.Node.Blockchain.Batches.{BatchTx, L1BatchHeader, FinishedL1Batch, apply_batch}
use anvil_zksync.Node.Storage.{
  Client, ForkStorageInner, read_value_internal, set_value, store_factory_dep,
}

-- A full transaction of the API, with the fields that `seal_block` sets.
pub record ApiTransaction : Type 0 where
  pub hash : ℕ
  pub block_hash : Option ℕ
  pub block_number : Option ℕ
  pub transaction_index : Option ℕ
  pub l1_batch_number : Option ℕ
  pub l1_batch_tx_index : Option ℕ
  pub transaction_type : Option ℕ
  pub v : Option ℕ

abbrev pub State : Type 0
State = List ((ℕ × ℕ) × ℕ)

-- `P` is the fee input provider, which the calls of this file only hand on. The configuration, the
-- system contracts and the key layout, which no call here changes, are left out, and the fork stands
-- in the storage that shares it.
pub record InMemoryNodeInner (R L C D P : Type 0) : Type 0 where
  pub blockchain : BlockchainState ApiTransaction R L1BatchHeader D
  pub time : TimeState
  pub fee_input_provider : P
  pub filters : EthFilters L
  pub fork_storage : ForkStorageInner C
  pub chain_id : ℕ
  pub impersonation : ImpersonationState
  pub rich_accounts : List ℕ
  pub previous_states : List (ℕ × State)

pub record BlockContext : Type 0 where
  pub hash : ℕ
  pub batch : ℕ
  pub miniblock : ℕ
  pub timestamp : ℕ
  pub prev_block_hash : ℕ

-- What the VM is told of the block that it runs, and of the batch: types of zksync_multivm.
pub record L2BlockEnv : Type 0 where
  pub number : ℕ
  pub timestamp : ℕ
  pub prev_block_hash : ℕ
  pub max_virtual_blocks_to_create : ℕ

pub record L1BatchEnv : Type 0 where
  pub number : ℕ
  pub timestamp : ℕ
  pub fee_input : BatchFeeInput
  pub first_l2_block : L2BlockEnv

-- The slots of the message root contract and `keccak256`, of other crates.
pub record MessageRoot : Type 0 where
  pub l2_message_root_address : ℕ
  pub agg_tree_height_key : ℕ
  pub agg_tree_nodes_key : ℕ
  pub keccak256 : ℕ → ℕ

abbrev pub max_previous_states : ℕ
max_previous_states = 128

abbrev pub remove_first : {A : Type 0} → List A → List A
remove_first [] = []
remove_first (x ∷ xs) = xs

unfoldable pub archive_state : List (ℕ × State) → State → ℕ → List (ℕ × State)
archive_state previous_states state block_hash = insert block_hash state (
    if ltb max_previous_states (length previous_states)
    then remove_first previous_states
    else previous_states)

unfoldable pub n_dim_array_key_in_layout : MessageRoot → ℕ → List ℕ → ℕ
n_dim_array_key_in_layout r key [] = key
n_dim_array_key_in_layout r key (index ∷ indices) =
    n_dim_array_key_in_layout r ((r.keccak256 key + index) % u256_mod) indices

module _ {C : Type 0} ⦃c : Client C⦄ where
  -- A slot as the batch leaves it: a modified one has its new value.
  abbrev pub read_modified :
      ForkStorageInner C → ℕ × ℕ → Option ℕ → Outcome (ForkStorageInner C × ℕ)
  read_modified s slot (some value) = done (s, value)
  read_modified s slot none = read_value_internal s slot

  unfoldable pub read_aggregation_root :
      MessageRoot → ForkStorageInner C → State → Outcome (ForkStorageInner C × ℕ)
  unfolding n_dim_array_key_in_layout
  read_aggregation_root r s modified_storage_keys = do
    let address = r.l2_message_root_address
    let height_slot : ℕ × ℕ = (address, r.agg_tree_height_key)
    height ← read_modified s height_slot (lookup height_slot modified_storage_keys)
    let key = n_dim_array_key_in_layout r r.agg_tree_nodes_key (height.1 ∷ 0 ∷ [])
    read_modified height.0 (address, key) (lookup (address, key) modified_storage_keys)

module _ {C : Type 0} where
  unfoldable pub store_factory_deps : ForkStorageInner C → List (ℕ × List ℕ) → ForkStorageInner C
  store_factory_deps s [] = s
  store_factory_deps s ((hash, code) ∷ rest) =
      store_factory_deps (store_factory_dep s hash code) rest

  unfoldable pub set_values : ForkStorageInner C → State → ForkStorageInner C
  set_values s [] = s
  set_values s ((key, value) ∷ rest) = set_values (set_value s key value) rest

module _ {R L C D P : Type 0} where
  -- The archived state stands under the hash of the block that it belongs to.
  unfoldable pub archive_current : InMemoryNodeInner R L C D P → InMemoryNodeInner R L C D P
  unfolding archive_state
  archive_current node = record node {
    previous_states =
        archive_state node.previous_states node.fork_storage.raw_storage.state
          node.blockchain.current_block_hash;
  }

  abbrev pub produce_block :
      InMemoryNodeInner R L C D P → Block ApiTransaction → Outcome (InMemoryNodeInner R L C D P)
  produce_block node block = do
    blockchain ← apply_block node.blockchain block
    done (record node { blockchain = blockchain })

  abbrev pub produce_virtual :
      InMemoryNodeInner R L C D P
      → Option (Block ApiTransaction)
      → Outcome (InMemoryNodeInner R L C D P)
  produce_virtual node none = done node
  produce_virtual node (some block) = produce_block (archive_current node) block
