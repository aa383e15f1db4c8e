-- ===== src/Node/Blockchain/Tests.antt =====
-- The chain of crates/core/src/node/inner/blockchain.rs at concrete blocks.
use anvil_zksync.Base.{
  ℕ, ◌+◌, ◌%◌, ◌^◌, ◌≤◌, ◌≡◌, refl, ◌≢◌, List, [], ◌∷◌, none, some, if◌then◌else◌, ◌==◌, lookup,
  nat_key, panic, done, arith, All, length,
}
use anvil_zksync.Node.Time.{TimeState, reset_to}
use anvil_zksync.Node.Blockchain.{
  Block, BlockchainState, new_genesis, apply_block, with_block, load_blocks, insert_blocks,
}
use anvil_zksync.Node.Blockchain.Queries.{get_block_by_hash, get_block_by_number, get_batch_header}
use anvil_zksync.Node.Blockchain.Batches.{
  CommonData, l1, l2, BatchTx, FinishedL1Batch, L1BatchHeader, apply_batch, last_with,
  apply_batch_lem,
}
use anvil_zksync.Node.Blockchain.Apply.{IsNext, apply_block_lem}
use anvil_zksync.Node.Blockchain.Chain.{IsChain, Extends, new_genesis-IsChain, apply_block-IsChain}
use anvil_zksync.Node.Blockchain.Load.{Stands, load_blocks_lem}

abbrev Tx : Type 0
Tx = ℕ × CommonData

instance abbrev tx_fields : BatchTx Tx
tx_fields = record { transaction_hash = λ t. t.0; common_data = λ t. t.1 }

abbrev State : Type 0
State = BlockchainState ℕ Tx L1BatchHeader ℕ

abbrev block_of : ℕ → ℕ → ℕ → ℕ → Block ℕ
block_of hash number batch timestamp = record {
  hash = hash;
  parent_hash = 0;
  number = number;
  l1_batch_number = some batch;
  timestamp = timestamp;
  transactions = [];
  gas_used = 0;
  logs_bloom = 0;
}

abbrev genesis_header : L1BatchHeader
genesis_header = record {
  number = 0;
  timestamp = 1000;
  l1_tx_count = 0;
  l2_tx_count = 0;
  priority_ops_onchain_data = [];
  l2_to_l1_logs = [];
  l2_to_l1_messages = [];
  used_contract_hashes = [];
  base_system_contracts_hashes = [];
  system_logs = [];
  protocol_version = none;
  pubdata_input = none;
}

abbrev start : State
start = record {
  protocol_version = 26;
  current_batch = 0;
  current_block = 0;
  current_block_hash = 500;
  tx_results = [];
  blocks = (500, block_of 500 0 0 1000) ∷ [];
  hashes = (0, 500) ∷ [];
  batches = (0, record { header = genesis_header; state_diffs = []; aggregation_root = 0 }) ∷ [];
}

abbrev batch_txs : List Tx
batch_txs = (71, l1 7) ∷ (72, l2) ∷ (73, l1 9) ∷ []

abbrev finished : FinishedL1Batch ℕ
finished = record {
  l2_to_l1_messages = 3 ∷ [];
  user_l2_to_l1_logs = [];
  used_contract_hashes = [];
  system_logs = [];
  pubdata_input = none;
  state_diffs = some (1 ∷ 2 ∷ []);
}

abbrev in_batch : State
in_batch = record start { current_batch = 1 }

in_batch-IsChain : IsChain in_batch
unfolding get_block_by_number get_block_by_hash
in_batch-IsChain = record {
  tip = (block_of 500 0 0 1000, refl, refl);
  bounded = λ n h. ground arith;
  linked = λ n h f. ground arith;
  numbered = λ n b f. ground arith;
  filled = λ m n f g h. ground arith;
  ordered = λ m n a b f g h. ground arith;
}

abbrev second : Block ℕ
second = block_of 501 1 1 1001

second-IsNext : IsNext in_batch (block_of 500 0 0 1000) second
second-IsNext = record {
  numbered = refl;
  in_batch = refl;
  later = omega arith;
  small_number = omega arith;
  small_batch = omega arith;
  small_timestamp = omega arith;
}

too_early : apply_block in_batch (block_of 501 1 1 1000) ≡ panic
unfolding apply_block
too_early = refl

new_genesis-IsChain_example :
    IsChain {R = Tx} {D = ℕ} (new_genesis 26 (block_of 500 0 0 1000) genesis_header)
new_genesis-IsChain_example = new_genesis-IsChain 26 (block_of 500 0 0 1000) genesis_header refl

apply_block_lem_example :
    (IsNext in_batch (block_of 500 0 0 1000) second
      → apply_block in_batch second ≡ done (with_block in_batch 1 second))
    × (¬ IsNext in_batch (block_of 500 0 0 1000) second → apply_block in_batch second ≡ panic)
apply_block_lem_example = apply_block_lem in_batch (block_of 500 0 0 1000) second refl

apply_block-IsChain_example : Extends in_batch second (with_block in_batch 1 second)
unfolding get_block_by_hash
apply_block-IsChain_example =
    apply_block-IsChain in_batch (with_block in_batch 1 second) second in_batch-IsChain refl
      ((apply_block_lem in_batch (block_of 500 0 0 1000) second refl).0 second-IsNext)

apply_batch_lem_example :
    (s' : State) × (header : L1BatchHeader) × (apply_batch start 1001 [] batch_txs finished 44
      ≡ done s')
    × (s'.current_batch ≡ 0 + 1)
    × (get_batch_header s' (0 + 1) ≡ some header)
    × (header.number ≡ 0 + 1)
    × (header.timestamp ≡ 1001)
    × (header.l1_tx_count + header.l2_tx_count ≡ length batch_txs)
    × (length header.priority_ops_onchain_data ≡ header.l1_tx_count)
    × ((n : ℕ)
        → get_batch_header s' n ≡ (if 0 + 1 == n then some header else get_batch_header start n))
    × ((h : ℕ) → lookup h s'.tx_results ≡ last_with h (lookup h start.tx_results) batch_txs)
apply_batch_lem_example =
    apply_batch_lem start 1001 [] batch_txs finished 44 (omega arith) (omega arith)

abbrev clock : TimeState
clock = record { current_timestamp = 5; next_timestamp = some 9; interval = none }

abbrev reset_clock : TimeState
reset_clock = record { current_timestamp = 1002; next_timestamp = none; interval = none }

abbrev loaded : State
loaded = record start {
  current_block = 2;
  current_block_hash = 502;
  current_batch = 2;
  hashes = (0, 500) ∷ (1, 501) ∷ (2, 502) ∷ [];
  blocks =
      (500, block_of 500 0 0 1000)
      ∷ (501, block_of 501 1 1 1001)
      ∷ (502, block_of 502 2 2 1002)
      ∷ [];
}

load_example :
    load_blocks start clock (block_of 501 1 1 1001 ∷ block_of 502 2 2 1002 ∷ [])
    ≡ done (loaded, reset_clock)
unfolding load_blocks insert_blocks reset_to
load_example = refl

load_blocks_lem_example :
    (latest : Block ℕ) × Stands latest loaded.blocks
    × ((h : ℕ) (b : Block ℕ) → get_block_by_hash loaded h ≡ some b → b.number ≤ latest.number)
    × (2 ≡ latest.number % 2 ^ 32)
    × (502 ≡ latest.hash)
    × (latest.l1_batch_number ≡ some 2)
    × (reset_clock
        ≡ record { current_timestamp = latest.timestamp; next_timestamp = none; interval = none })
    × All
        (λ b. get_block_by_hash loaded b.hash ≢ none)
        (block_of 501 1 1 1001 ∷ block_of 502 2 2 1002 ∷ [])
load_blocks_lem_example =
    load_blocks_lem start loaded clock reset_clock
      (block_of 501 1 1 1001 ∷ block_of 502 2 2 1002 ∷ []) load_example
