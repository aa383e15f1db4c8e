-- ===== src/Node/VmRunner/Tests.antt =====
-- A concrete executor for the theorems on crates/core/src/node/inner/vm_runner.rs.
use anvil_zksync.Base.{
  ℕ, ◌+◌, ◌==◌, refl, false, true, if◌then◌else◌, [], ◌∷◌, Option, none, some, nat_key, IfDone,
  arith,
}
use anvil_zksync.Node.Time.{peek_next_timestamp}
use anvil_zksync.Node.Pool.{TxBatch}
use anvil_zksync.Node.Storage.Tests.{test_client, forked}
use anvil_zksync.Node.FeeModel.{TestNodeFeeInputProvider, l1_pegged}
use anvil_zksync.Node.FeeModel.Tests.{test_calls, floats, provider}
use anvil_zksync.Node.Blockchain.{Block}
use anvil_zksync.Node.Inner.{ApiTransaction, InMemoryNodeInner, BlockContext, L1BatchEnv}
use anvil_zksync.Node.Inner.Tests.{node_at}
use anvil_zksync.Node.Inner.Env.{SystemContext, last_env}
use anvil_zksync.Node.Inner.Seal.{TxBatchExecutionResult}
use anvil_zksync.Node.VmRunner.{
  VmExecutionResultAndLogs, success, halt, executed, BatchExecutor, BatchControl, BatchFinisher,
  BatchEnd, L2Fee, TxFields, RunnerCalls,
}
use anvil_zksync.Node.VmRunner.Run.{TransactionResult}
use anvil_zksync.Node.VmRunner.Batch.{RunnerConfig, RanTxs, run_txs, run_tx_batch}
use anvil_zksync.Node.VmRunner.Next.{IsReady, NextOpt, next_batch, run_tx_batch-NextBlocks}
use anvil_zksync.Node.VmRunner.Receipts.{RanStand, run_txs-RanStand}

abbrev pub low_fee : L2Fee
low_fee = record {
  gas_limit = 100;
  gas_per_pubdata_limit = 100;
  max_fee_per_gas = 0;
  max_priority_fee_per_gas = 0;
}

-- A transaction is its hash; 13 halts, and the fee of 14 is too low.
instance abbrev pub test_fields : TxFields ℕ
test_fields = record {
  hash = λ n. n;
  l2_fee = λ n. if n == 14 then some low_fee else none;
  initiator_account = λ n. 1;
  recipient_account = λ n. some 2;
  gas_limit = λ n. 100;
  factory_deps = λ n. [];
  transaction_type = λ n. 2;
}

abbrev pub result_of : ℕ → VmExecutionResultAndLogs
result_of n = record {
  result = if n == 13 then halt 1 else success [];
  gas_used = 60;
  gas_refunded = 40;
  events = record { address = 5; indexed_topics = 6 ∷ []; value = [] } ∷ [];
  user_l2_to_l1_logs = [];
  storage_logs = [];
  dynamic_factory_deps = [];
}

instance abbrev test_executor : BatchExecutor ℕ ℕ ℕ
test_executor = record { execute_tx = λ x storage n. ((x + 1, storage), executed (result_of n)) }

instance abbrev test_control : BatchControl ℕ
test_control = record { rollback_last_tx = λ x. some x; start_next_l2_block = λ x env. some x }

abbrev pub test_end : BatchEnd ℕ
test_end = record {
  finished_l1_batch = record {
    l2_to_l1_messages = [];
    user_l2_to_l1_logs = [];
    used_contract_hashes = [];
    system_logs = [];
    pubdata_input = none;
    state_diffs = none;
  };
  is_failed = false;
  modified_storage_keys = [];
}

instance abbrev test_finisher : BatchFinisher ℕ ℕ ℕ
test_finisher = record {
  finish_batch = λ x storage. (storage, some test_end);
  bootloader = λ x storage. (storage, some test_end);
}

instance abbrev pub test_context : SystemContext ℕ
test_context = record {
  load_last_l1_batch = λ storage. some 4;
  load_last_l2_block = λ storage. some (record { number = 4; hash = 104; timestamp = 1000 });
  legacy_hash = λ n. n;
  fork_prices = λ n. record { l1_gas_price = 1; fair_l2_gas_price = 1; fair_pubdata_price = 1 };
}

abbrev pub calls : RunnerCalls
calls = record {
  use_boojum = false;
  fair_l2_gas_price = λ input. 1;
  bytecode_hash = λ code. 0;
  extract_bytecodes_marked_as_known = λ events. [];
  account_code_storage_address = 8;
  contract_deployer_address = 9;
  get_nonce_key = λ account. (7, account);
  compute_hash = λ version number timestamp prev hashes. number + timestamp;
}

abbrev config : RunnerConfig ℕ ℕ
config = record {
  init_main_batch = λ env storage. 0;
  system_contracts_hashes = λ impersonating. [];
  generate_system_logs = true;
}

abbrev pub fee_node : InMemoryNodeInner ℕ ℕ ℕ ℕ (TestNodeFeeInputProvider ℕ ℕ)
fee_node = record {
  blockchain = (node_at 4).blockchain;
  time = (node_at 4).time;
  fee_input_provider = provider;
  filters = (node_at 4).filters;
  fork_storage = forked;
  chain_id = 260;
  impersonation = (node_at 4).impersonation;
  rich_accounts = [];
  previous_states = [];
}

abbrev three_txs : TxBatch ℕ
three_txs = record { impersonating = false; txs = 11 ∷ 13 ∷ 12 ∷ [] }

abbrev latest : Block ApiTransaction
latest = record {
  hash = 104;
  parent_hash = 103;
  number = 4;
  l1_batch_number = some 4;
  timestamp = 1000;
  transactions = [];
  gas_used = 0;
  logs_bloom = 0;
}

fee_node-IsReady : IsReady fee_node latest
unfolding last_env peek_next_timestamp
fee_node-IsReady = record {
  same_batch = refl;
  same_block = refl;
  clock = record { in_range = omega arith; next_is_future = tt };
  runs = λ e. cc;
  not_ahead = omega arith;
  now_room = omega arith;
  time_room = omega arith;
  block_room = omega arith;
  batch_room = omega arith;
}

run_tx_batch-NextBlocks_example :
    IfDone
      (λ (after : InMemoryNodeInner ℕ ℕ ℕ ℕ (TestNodeFeeInputProvider ℕ ℕ)
          × Option (TxBatchExecutionResult (TransactionResult ℕ) ℕ)).
        NextOpt (next_batch fee_node) latest after.1)
      (run_tx_batch calls config floats three_txs fee_node)
run_tx_batch-NextBlocks_example =
    run_tx_batch-NextBlocks calls config floats three_txs fee_node latest fee_node-IsReady

abbrev pub test_env : L1BatchEnv
test_env = record {
  number = 5;
  timestamp = 1001;
  fee_input = l1_pegged 1 1;
  first_l2_block = record {
    number = 5;
    timestamp = 1001;
    prev_block_hash = 104;
    max_virtual_blocks_to_create = 1;
  };
}

abbrev pub test_ctx : BlockContext
test_ctx = record { hash = 9; batch = 5; miniblock = 5; timestamp = 1001; prev_block_hash = 104 }

run_txs-RanStand_example :
    IfDone
      (λ (after : RanTxs ℕ ℕ ℕ). RanStand test_ctx test_env 0 (11 ∷ 13 ∷ 12 ∷ []) after)
      (run_txs calls 1 false test_env test_ctx 0 forked 0 0 (11 ∷ 13 ∷ 12 ∷ []))
run_txs-RanStand_example =
    run_txs-RanStand calls 1 false test_env test_ctx 0 forked 0 0 (11 ∷ 13 ∷ 12 ∷ [])
