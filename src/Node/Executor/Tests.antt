-- ===== src/Node/Executor/Tests.antt =====
-- A concrete executor for the theorems on crates/core/src/node/inner/node_executor.rs, and a batch
-- for `apply_batch` of crates/core/src/node/inner/in_memory_inner.rs.
use anvil_zksync.Base.{
  ◌+◌, done, arith, refl, IfDone, ℕ, ◌≡◌, false, List, [], ◌∷◌, none, some, lookup, nat_key, length,
}
use anvil_zksync.Filters.{Log}
use anvil_zksync.Node.Time.{advance_timestamp}
use anvil_zksync.Node.Pool.{TxBatch}
use anvil_zksync.Node.Storage.Tests.{test_client}
use anvil_zksync.Node.Blockchain.{Block}
use anvil_zksync.Node.Blockchain.Batches.{l1_txs}
use anvil_zksync.Node.FeeModel.{l1_pegged}
use anvil_zksync.Node.Inner.{
  ApiTransaction, InMemoryNodeInner, MessageRoot, read_aggregation_root, n_dim_array_key_in_layout,
}
use anvil_zksync.Node.Inner.Applied.{Applies, apply_node_batch_lem}
use anvil_zksync.Node.Inner.Tests.{node_at, test_txs}
use anvil_zksync.Node.Inner.Seal.{
  Executed, Emits, TxBatchExecutionResult, apply_node_batch, seal_block,
}
use anvil_zksync.Node.Inner.Chained.{seal_block-IsChain}
use anvil_zksync.Node.Inner.{archive_current, produce_block}
use anvil_zksync.Node.Inner.History.{get_storage_at_block-sealed}
use anvil_zksync.Node.Inner.States.{RemoteAt, value, get_storage_at_block}
use anvil_zksync.Node.Blockchain.Queries.{by_number}
use anvil_zksync.Utils.{number}
use anvil_zksync.Node.Storage.{ForkStorageInner}
use anvil_zksync.Node.Blockchain.Chain.{IsChain}
use anvil_zksync.Node.Blockchain.Queries.{get_block_by_hash, get_block_by_number}
use anvil_zksync.Node.Executor.{
  VmRunner, StorageKeyLayout, with_time, set_balance, set_nonce, set_code, set_storage, seal_blocks,
}
use anvil_zksync.Node.Executor.Intervals.{Numbers, seal_blocks_lem}
use anvil_zksync.Node.Executor.Accounts.{Writes, set_account_lem}

instance abbrev test_executed : Executed ℕ
test_executed = record {
  new_bytecodes = λ n. [];
  gas_used = λ n. 21000;
  tx_hash = λ n. n;
  l2_transaction = λ n. none;
  build_bloom = λ inputs. 0;
}

instance abbrev test_emits : Emits ℕ ℕ
test_emits = record { logs = λ n. [] }

instance abbrev test_log : Log ℕ
test_log = record { block_number = λ n. some n; address = λ n. n; topics = λ n. [] }

-- The result of running a batch of one block on a node: it writes the two slots of the aggregation
-- root, and one more.
abbrev result_on : InMemoryNodeInner ℕ ℕ ℕ ℕ ℕ → List ℕ → TxBatchExecutionResult ℕ ℕ
result_on node txs =
    let chain = node.blockchain in
    let timestamp = (advance_timestamp node.time).1 in
    record {
      tx_results = txs;
      base_system_contracts_hashes = [];
      batch_env = record {
        number = chain.current_batch + 1;
        timestamp = timestamp;
        fee_input = l1_pegged 1 1;
        first_l2_block = record {
          number = chain.current_block + 1;
          timestamp = timestamp;
          prev_block_hash = chain.current_block_hash;
          max_virtual_blocks_to_create = 1;
        };
      };
      block_ctxs =
          record {
            hash = chain.current_block_hash + 1;
            batch = chain.current_batch + 1;
            miniblock = chain.current_block + 1;
            timestamp = timestamp;
            prev_block_hash = chain.current_block_hash;
          }
          ∷ [];
      finished_l1_batch = record {
        l2_to_l1_messages = [];
        user_l2_to_l1_logs = [];
        used_contract_hashes = [];
        system_logs = [];
        pubdata_input = none;
        state_diffs = none;
      };
      modified_storage_keys = ((5, 1), 0) ∷ ((5, 2), 8) ∷ ((6, 6), 1) ∷ [];
    }

-- A runner that takes its time from the clock of the node.
instance abbrev test_runner :
    VmRunner ℕ ℕ (InMemoryNodeInner ℕ ℕ ℕ ℕ ℕ) (TxBatchExecutionResult ℕ ℕ)
test_runner = record {
  run_tx_batch = λ v batch node.
      done ((v, with_time node (advance_timestamp node.time).0), some (result_on node batch.txs));
}

abbrev root : MessageRoot
root = record {
  l2_message_root_address = 5;
  agg_tree_height_key = 1;
  agg_tree_nodes_key = 2;
  keccak256 = λ n. n;
}

abbrev batches : List (TxBatch ℕ)
batches =
    record { impersonating = false; txs = 7 ∷ [] } ∷ record { impersonating = false; txs = [] } ∷ []

abbrev layout : StorageKeyLayout
layout = record {
  code_key = λ a. (1, a);
  nonce_key = λ a. (2, a);
  base_token_key = λ a. (3, a);
  is_evm = λ code. false;
  era_hash = λ code. 77;
  evm_hash = λ code. 78;
  pad_evm_bytecode = λ code. code;
  nonces_to_full_nonce = λ a b. a;
}

set_account_lem_example :
    Writes (node_at 0) (set_storage (node_at 0) (4, 4) 6) (4, 4) 6
    × Writes (node_at 0) (set_balance layout (node_at 0) 9 6) (3, 9) 6
    × Writes (node_at 0) (set_nonce layout (node_at 0) 9 6) (2, 9) 6
    × (Writes (node_at 0) (set_code layout (node_at 0) 9 (1 ∷ [])) (1, 9) 77
        × (lookup 77 (set_code layout (node_at 0) 9 (1 ∷ [])).fork_storage.raw_storage.factory_deps
            ≡ some (1 ∷ [])))
set_account_lem_example = set_account_lem layout (node_at 0) 9 6 (4, 4) (1 ∷ [])

abbrev block_of : ℕ → ℕ → ℕ → ℕ → Block ApiTransaction
block_of hash n batch timestamp = record {
  hash = hash;
  parent_hash = 0;
  number = n;
  l1_batch_number = some batch;
  timestamp = timestamp;
  transactions = [];
  gas_used = 0;
  logs_bloom = 0;
}

abbrev first_node : InMemoryNodeInner ℕ ℕ ℕ ℕ ℕ
first_node = record (node_at 0) {
  blockchain = record {
    protocol_version = 26;
    current_batch = 0;
    current_block = 0;
    current_block_hash = 100;
    tx_results = [];
    blocks = (100, block_of 100 0 0 1000) ∷ [];
    hashes = (0, 100) ∷ [];
    batches = [];
  };
}

seal_blocks_lem_example :
    IfDone
      (λ r. (r.0.1.time.interval ≡ first_node.time.interval) × Numbers r.1 (length batches))
      (seal_blocks {V = ℕ} root 5 0 first_node batches)
seal_blocks_lem_example = seal_blocks_lem root 5 0 first_node batches

abbrev one_tx : TxBatchExecutionResult ℕ ℕ
unfolding advance_timestamp
one_tx = result_on first_node (7 ∷ [])

apply_node_batch_lem_example :
    (after : InMemoryNodeInner ℕ ℕ ℕ ℕ ℕ) × (apply_node_batch root first_node one_tx
        (block_of 101 1 1 1001)
        none
      ≡ done after)
    × Applies first_node after (block_of 101 1 1 1001) one_tx.modified_storage_keys
unfolding read_aggregation_root n_dim_array_key_in_layout l1_txs one_tx
apply_node_batch_lem_example =
    apply_node_batch_lem root first_node one_tx (block_of 100 0 0 1000) (block_of 101 1 1 1001)
      (first_node.fork_storage, 8) refl (refl, (refl, (refl, tt))) (omega arith) refl
      (record {
        numbered = refl;
        in_batch = refl;
        later = omega arith;
        small_number = omega arith;
        small_batch = omega arith;
        small_timestamp = omega arith;
      })

first_node-IsChain : IsChain first_node.blockchain
unfolding get_block_by_hash get_block_by_number
first_node-IsChain = record {
  tip = (block_of 100 0 0 1000, refl, refl);
  bounded = λ n h. ground arith;
  linked = λ n h f. ground arith;
  numbered = λ n b f. ground arith;
  filled = λ m n f g h. ground arith;
  ordered = λ m n a b f g h. ground arith;
}

-- The same batch, with a virtual block after its block.
abbrev with_virtual : TxBatchExecutionResult ℕ ℕ
with_virtual = record one_tx {
  block_ctxs =
      record { hash = 101; batch = 1; miniblock = 1; timestamp = 1001; prev_block_hash = 100 }
      ∷ record { hash = 102; batch = 1; miniblock = 2; timestamp = 1002; prev_block_hash = 101 }
      ∷ [];
}

seal_block-IsChain_example :
    IfDone
      (λ (r : InMemoryNodeInner ℕ ℕ ℕ ℕ ℕ × ℕ). IsChain r.0.blockchain)
      (seal_block root first_node with_virtual)
unfolding get_block_by_hash
seal_block-IsChain_example =
    seal_block-IsChain root first_node with_virtual first_node-IsChain
      (refl, ((ground arith, tt), (refl, (tt, tt))))

instance abbrev test_remote : RemoteAt ℕ
test_remote = record { get_storage_at = λ client key block. some 9 }

get_storage_at_block-sealed_example :
    (after : InMemoryNodeInner ℕ ℕ ℕ ℕ ℕ) × (produce_block
        (archive_current first_node)
        (block_of 101 1 0 1001)
      ≡ done after)
    × ((storage : ForkStorageInner ℕ)
        → let changed : InMemoryNodeInner ℕ ℕ ℕ ℕ ℕ = record after { fork_storage = storage } in
          get_storage_at_block changed (1, 1) (some (by_number (number 0)))
          ≡ done (changed, value 5))
get_storage_at_block-sealed_example =
    get_storage_at_block-sealed first_node (block_of 100 0 0 1000) (block_of 101 1 0 1001) (1, 1) 5
      (refl, refl)
      (record {
        numbered = refl;
        in_batch = refl;
        later = omega arith;
        small_number = omega arith;
        small_batch = omega arith;
        small_timestamp = omega arith;
      })
      refl
