-- ===== src/Node/Inner/Seal.antt =====
-- `apply_batch` and `seal_block` of crates/core/src/node/inner/in_memory_inner.rs, and
-- `create_block` of crates/core/src/node/in_memory.rs.
use anvil_zksync.Base.{
  ℕ, suc, ◌+◌, ◌*◌, ◌%◌, Bool, true, List, [], ◌∷◌, ◌++◌, map, Option, none, some, if◌then◌else◌,
  ◌==◌, Outcome, panic, done, ◌>>=◌, unwrap, as_u64,
}
use anvil_zksync.Base.Words.{u32_mod, checked_add_256}
use anvil_zksync.Filters.{
  Log, EthFilters, notify_new_block, notify_new_pending_transaction, notify_new_log,
}
use anvil_zksync.Node.Blockchain.{Block, TransactionVariant, full}
use anvil_zksync.Node.Blockchain.Batches.{BatchTx, FinishedL1Batch, apply_batch}
use anvil_zksync.Node.Storage.{Client}
use anvil_zksync.Node.Inner.{
  ApiTransaction, State, InMemoryNodeInner, BlockContext, L1BatchEnv, MessageRoot,
  read_aggregation_root, store_factory_deps, set_values, archive_current, produce_block,
  produce_virtual,
}

pub data BloomInput : Type 0 where
  topic address : ℕ → BloomInput

-- What `seal_block` reads of a `TransactionResult`, and what it calls of other crates: the API
-- transaction of an L2 transaction, if it is one, and the bloom filter.
pub record Executed (R : Type 0) : Type 0 where
  pub new_bytecodes : R → List (ℕ × List ℕ)
  pub gas_used : R → ℕ
  pub tx_hash : R → ℕ
  pub l2_transaction : R → Option ApiTransaction
  pub build_bloom : List BloomInput → ℕ

-- The logs of a receipt.
pub record Emits (R L : Type 0) : Type 0 where
  pub logs : R → List L

pub record TxBatchExecutionResult (R D : Type 0) : Type 0 where
  pub tx_results : List R
  pub base_system_contracts_hashes : List ℕ
  pub batch_env : L1BatchEnv
  pub block_ctxs : List BlockContext
  pub finished_l1_batch : FinishedL1Batch D
  pub modified_storage_keys : State

-- The fields of a block that the model keeps.
unfoldable pub create_block :
    L1BatchEnv
    → BlockContext
    → List (TransactionVariant ApiTransaction)
    → ℕ
    → ℕ
    → Block ApiTransaction
create_block batch_env ctx transactions gas_used logs_bloom = record {
  hash = ctx.hash;
  parent_hash = ctx.prev_block_hash;
  number = ctx.miniblock;
  l1_batch_number = some batch_env.number;
  timestamp = ctx.timestamp;
  transactions = transactions;
  gas_used = gas_used;
  logs_bloom = logs_bloom;
}

-- A second context is that of the virtual block, which is empty.
unfoldable pub virtual_block_of : L1BatchEnv → List BlockContext → Option (Block ApiTransaction)
unfolding create_block
virtual_block_of batch_env (_ ∷ ctx ∷ []) = some (create_block batch_env ctx [] 0 0)
virtual_block_of batch_env _ = none

-- The type is absent or that of a legacy transaction.
abbrev is_legacy : Option ℕ → Bool
is_legacy none = true
is_legacy (some t) = t == 0

-- The replay-protected form of `v`.
abbrev protected : ℕ → Option ℕ → Outcome (Option ℕ)
protected chain_id none = done none
protected chain_id (some v) = do w ← as_u64 (v + 35 + chain_id * 2); done (some w)

unfoldable pub with_protected_v : ℕ → ApiTransaction → Outcome ApiTransaction
with_protected_v chain_id t =
    if is_legacy t.transaction_type
    then (do v ← protected chain_id t.v; done (record t { v = v }))
    else done t

abbrev or_hash : ℕ → Option ApiTransaction → ApiTransaction
or_hash hash none = record {
  hash = hash;
  block_hash = none;
  block_number = none;
  transaction_index = none;
  l1_batch_number = none;
  l1_batch_tx_index = none;
  transaction_type = none;
  v = none;
}
or_hash hash (some t) = t

module _ {R : Type 0} ⦃x : Executed R⦄ where
  unfoldable pub api_transaction :
      BlockContext → ℕ → ℕ → ℕ → R → Outcome (TransactionVariant ApiTransaction)
  unfolding with_protected_v
  api_transaction ctx batch_number chain_id index tx_result = do
    let t = or_hash (x.tx_hash tx_result) (x.l2_transaction tx_result)
    transaction ← with_protected_v chain_id (record t {
      block_hash = some ctx.hash;
      block_number = some ctx.miniblock;
      transaction_index = some index;
      l1_batch_number = some batch_number;
      l1_batch_tx_index = some 0;
    })
    done (full transaction)

  -- The loop over the results, from the index on.
  unfoldable pub api_transactions :
      BlockContext → ℕ → ℕ → ℕ → List R → Outcome (List (TransactionVariant ApiTransaction))
  api_transactions ctx batch_number chain_id index [] = done []
  api_transactions ctx batch_number chain_id index (tx_result ∷ tx_results) = do
    transaction ← api_transaction ctx batch_number chain_id index tx_result
    transactions ← api_transactions ctx batch_number chain_id (suc index) tx_results
    done (transaction ∷ transactions)

  -- The sum on U256, which panics on an overflow.
  unfoldable pub total_gas : ℕ → List R → Outcome ℕ
  total_gas acc [] = done acc
  total_gas acc (tx_result ∷ tx_results) = do
    sum ← unwrap (checked_add_256 acc (x.gas_used tx_result))
    total_gas sum tx_results

  unfoldable pub all_bytecodes : List R → List (ℕ × List ℕ)
  all_bytecodes [] = []
  all_bytecodes (tx_result ∷ tx_results) = x.new_bytecodes tx_result ++ all_bytecodes tx_results

unfoldable pub log_inputs : {L : Type 0} ⦃l : Log L⦄ → List L → List BloomInput
log_inputs [] = []
log_inputs ⦃l⦄ (event ∷ logs) =
    map topic (l.topics event) ++ address (l.address event) ∷ log_inputs logs

unfoldable pub all_logs : {R L : Type 0} ⦃m : Emits R L⦄ → List R → List L
all_logs [] = []
all_logs ⦃m⦄ (tx_result ∷ tx_results) = m.logs tx_result ++ all_logs tx_results

module _ {L : Type 0} ⦃l : Log L⦄ where
  unfoldable pub notify_logs : EthFilters L → List L → ℕ → Outcome (EthFilters L)
  notify_logs filters [] miniblock = done filters
  notify_logs filters (entry ∷ logs) miniblock = do
    filters ← unwrap (notify_new_log filters entry miniblock)
    notify_logs filters logs miniblock

  unfoldable pub notify_blocks : EthFilters L → List BlockContext → EthFilters L
  notify_blocks filters [] = filters
  notify_blocks filters (ctx ∷ ctxs) = notify_blocks (notify_new_block filters ctx.hash) ctxs

module _ {R L : Type 0} ⦃b : BatchTx R⦄ ⦃m : Emits R L⦄ ⦃l : Log L⦄ where
  -- The first loop of `seal_block`.
  unfoldable pub notify_txs : EthFilters L → List R → ℕ → Outcome (EthFilters L)
  notify_txs filters [] miniblock = done filters
  notify_txs filters (tx_result ∷ tx_results) miniblock = do
    filters ←
        notify_logs (notify_new_pending_transaction filters (b.transaction_hash tx_result))
          (m.logs tx_result) miniblock
    notify_txs filters tx_results miniblock

module _ {R L C D P : Type 0} ⦃b : BatchTx R⦄ ⦃x : Executed R⦄ ⦃c : Client C⦄ where
  unfoldable pub apply_node_batch :
      MessageRoot
      → InMemoryNodeInner R L C D P
      → TxBatchExecutionResult R D
      → Block ApiTransaction
      → Option (Block ApiTransaction)
      → Outcome (InMemoryNodeInner R L C D P)
  apply_node_batch root node result block virtual_block = do
    aggregation ← read_aggregation_root root node.fork_storage result.modified_storage_keys
    blockchain ←
        apply_batch node.blockchain result.batch_env.timestamp result.base_system_contracts_hashes
          result.tx_results result.finished_l1_batch aggregation.1
    node ←
        produce_block
          (archive_current (record node { blockchain = blockchain; fork_storage = aggregation.0 }))
          block
    let storage = store_factory_deps node.fork_storage (all_bytecodes result.tx_results)
    produce_virtual (record node { fork_storage = set_values storage result.modified_storage_keys })
        virtual_block

module _ {R L C D P : Type 0} ⦃b : BatchTx R⦄ ⦃x : Executed R⦄ ⦃m : Emits R L⦄ ⦃l : Log L⦄
    ⦃c : Client C⦄ where
  abbrev pub block_of_result :
      InMemoryNodeInner R L C D P
      → TxBatchExecutionResult R D
      → BlockContext
      → Outcome (Block ApiTransaction)
  unfolding api_transactions total_gas create_block
  block_of_result node result ctx = do
    transactions ← api_transactions ctx result.batch_env.number node.chain_id 0 result.tx_results
    gas_used ← total_gas 0 result.tx_results
    done (
        create_block result.batch_env ctx transactions gas_used
          (x.build_bloom (log_inputs {L = L} (all_logs result.tx_results))))

  -- The result is the number of the first block, as a u32.
  unfoldable pub seal_block :
      MessageRoot
      → InMemoryNodeInner R L C D P
      → TxBatchExecutionResult R D
      → Outcome (InMemoryNodeInner R L C D P × ℕ)
  seal_block root node result = elim result.block_ctxs [
    | [] ↦ panic
    | (ctx ∷ ctxs) ↦ do
      filters ← notify_txs node.filters result.tx_results ctx.miniblock
      block ← block_of_result node result ctx
      node ←
          apply_node_batch root (record node { filters = filters }) result block
            (virtual_block_of result.batch_env result.block_ctxs)
      done (
        record node { filters = notify_blocks node.filters result.block_ctxs },
        ctx.miniblock % u32_mod,
      )
  ]
