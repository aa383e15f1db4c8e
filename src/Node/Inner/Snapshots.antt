-- ===== src/Node/Inner/Snapshots.antt =====
-- `snapshot` and `restore_snapshot` of crates/core/src/node/inner/in_memory_inner.rs, and the
-- snapshot list of crates/core/src/node/in_memory_ext.rs.
use anvil_zksync.Base.{ℕ, ◌≡◌, refl, List, Option}
use anvil_zksync.Filters.{EthFilters}
use anvil_zksync.Node.Impersonate.{ImpersonationState, set_state}
use anvil_zksync.Node.Blockchain.{Block}
use anvil_zksync.Node.Storage.{InMemoryStorage}
use anvil_zksync.Node.Inner.{ApiTransaction, State, InMemoryNodeInner}

pub record Snapshot (R L P : Type 0) : Type 0 where
  pub current_batch : ℕ
  pub current_block : ℕ
  pub current_block_hash : ℕ
  pub fee_input_provider : P
  pub tx_results : List (ℕ × R)
  pub blocks : List (ℕ × Block ApiTransaction)
  pub hashes : List (ℕ × ℕ)
  pub filters : EthFilters L
  pub impersonation_state : ImpersonationState
  pub rich_accounts : List ℕ
  pub previous_states : List (ℕ × State)
  pub raw_storage : InMemoryStorage
  pub value_read_cache : State
  pub factory_dep_cache : List (ℕ × Option (List ℕ))

module _ {R L C D P : Type 0} where
  unfoldable pub snapshot : InMemoryNodeInner R L C D P → Snapshot R L P
  snapshot node = record {
    current_batch = node.blockchain.current_batch;
    current_block = node.blockchain.current_block;
    current_block_hash = node.blockchain.current_block_hash;
    fee_input_provider = node.fee_input_provider;
    tx_results = node.blockchain.tx_results;
    blocks = node.blockchain.blocks;
    hashes = node.blockchain.hashes;
    filters = node.filters;
    impersonation_state = node.impersonation;
    rich_accounts = node.rich_accounts;
    previous_states = node.previous_states;
    raw_storage = node.fork_storage.raw_storage;
    value_read_cache = node.fork_storage.value_read_cache;
    factory_dep_cache = node.fork_storage.factory_dep_cache;
  }

  unfoldable pub restore_snapshot :
      InMemoryNodeInner R L C D P → Snapshot R L P → InMemoryNodeInner R L C D P
  unfolding set_state
  restore_snapshot node s =
      let chain = node.blockchain in
      let storage = node.fork_storage in
      record node {
        blockchain = record chain {
          current_batch = s.current_batch;
          current_block = s.current_block;
          current_block_hash = s.current_block_hash;
          tx_results = s.tx_results;
          blocks = s.blocks;
          hashes = s.hashes;
        };
        fee_input_provider = s.fee_input_provider;
        filters = s.filters;
        impersonation = set_state node.impersonation s.impersonation_state;
        rich_accounts = s.rich_accounts;
        previous_states = s.previous_states;
        fork_storage = record storage {
          raw_storage = s.raw_storage;
          value_read_cache = s.value_read_cache;
          factory_dep_cache = s.factory_dep_cache;
        };
      }

  -- What a snapshot does not hold: the clock, the batches and the protocol version of the chain,
  -- the fork, and the chain id.
  abbrev pub keeps_rest :
      InMemoryNodeInner R L C D P → InMemoryNodeInner R L C D P → InMemoryNodeInner R L C D P
  keeps_rest old now =
      let chain = old.blockchain in
      let storage = old.fork_storage in
      record old {
        time = now.time;
        chain_id = now.chain_id;
        blockchain = record chain {
          batches = now.blockchain.batches;
          protocol_version = now.blockchain.protocol_version;
        };
        fork_storage = record storage { fork = now.fork_storage.fork };
      }

  -- Whatever has happened since, restoring a snapshot gives the node as it was when the snapshot
  -- was taken, but for the clock, the batches, the protocol version, the fork and the chain id,
  -- which stay as they are.
  pub restore_snapshot-snapshot :
      (old now : InMemoryNodeInner R L C D P)
      → restore_snapshot now (snapshot old) ≡ keeps_rest old now
  unfolding restore_snapshot snapshot set_state
  restore_snapshot-snapshot old now = refl
