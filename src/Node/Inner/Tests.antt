-- ===== src/Node/Inner/Tests.antt =====
-- Concrete nodes for the theorems on crates/core/src/node/inner/in_memory_inner.rs.
use anvil_zksync.Base.{
  ℕ, ◌+◌, ◌≤◌, ◌≡◌, true, false, [], ◌∷◌, none, some, lookup, nat_key, pair_key, length, arith,
}
use anvil_zksync.Node.Blockchain.Batches.{l2, BatchTx}
use anvil_zksync.Node.Storage.Tests.{test_client, forked}
use anvil_zksync.Node.Inner.{InMemoryNodeInner, archive_state, max_previous_states}
use anvil_zksync.Node.Inner.Sealing.{archive_state_lem}
use anvil_zksync.Node.Inner.Snapshots.{keeps_rest}
use anvil_zksync.Node.Inner.Revert.{
  SnapshotNode, ok, take_snapshot, revert_snapshot, later, revert_snapshot-take_snapshot,
}
use anvil_zksync.Node.Inner.States.{StateV1, RemoteAt}

instance abbrev pub test_txs : BatchTx ℕ
test_txs = record { transaction_hash = λ n. n; common_data = λ n. l2 }

instance abbrev test_remote : RemoteAt ℕ
test_remote = record { get_storage_at = λ client key block. some 9 }

abbrev pub node_at : ℕ → InMemoryNodeInner ℕ ℕ ℕ ℕ ℕ
node_at block = record {
  blockchain = record {
    protocol_version = 26;
    current_batch = block;
    current_block = block;
    current_block_hash = block + 100;
    tx_results = [];
    blocks = [];
    hashes = (0, 100) ∷ [];
    batches = [];
  };
  time = record { current_timestamp = 1000; next_timestamp = none; interval = none };
  fee_input_provider = 0;
  filters = record { id_counter = 0; filters = [] };
  fork_storage = forked;
  chain_id = 260;
  impersonation = record { auto = false; accounts = [] };
  rich_accounts = [];
  previous_states = (100, ((1, 1), 4) ∷ []) ∷ [];
}

archive_state_lem_example :
    (lookup 101 (archive_state ((100, []) ∷ []) (((1, 1), 4) ∷ []) 101) ≡ some (((1, 1), 4) ∷ []))
    × (length (archive_state ((100, []) ∷ []) (((1, 1), 4) ∷ []) 101) ≤ max_previous_states + 1)
archive_state_lem_example = archive_state_lem ((100, []) ∷ []) (((1, 1), 4) ∷ []) 101 (omega arith)

abbrev api_node : SnapshotNode ℕ ℕ ℕ ℕ ℕ
api_node = record { inner = node_at 0; snapshots = [] }

revert_snapshot-take_snapshot_example :
    let (after, reply) = take_snapshot api_node in
    (reply ≡ ok (length api_node.snapshots + 1))
    × (after.inner ≡ api_node.inner)
    × (revert_snapshot (later after (node_at 5) []) (length api_node.snapshots + 1)
        ≡ (record { inner = keeps_rest api_node.inner (node_at 5); snapshots = [] }, ok true))
revert_snapshot-take_snapshot_example =
    revert_snapshot-take_snapshot api_node (node_at 5) [] (omega arith)

abbrev no_blocks : StateV1 ℕ
no_blocks = record {
  blocks = [];
  transactions = [];
  fork_storage = record { storage = []; factory_deps = [] };
  historical_states = [];
}
