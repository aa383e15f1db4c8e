-- ===== src/Node/BatchVm/Tests.antt =====
-- A concrete VM for the theorems on the executor of crates/core/src/node/batch: its machine is the
-- list of the transactions that it has run.
use anvil_zksync.Base.{◌>>=◌, ℕ, ◌≡◌, refl, false, true, List, [], ◌∷◌, Option, none, some, done}
use anvil_zksync.Node.Storage.Tests.{test_client, forked}
use anvil_zksync.Node.VmRunner.{
  max_fee_per_gas_too_low, validate_tx, new_bytecodes, create_debug_output,
  contract_address_from_logs,
}
use anvil_zksync.Node.VmRunner.Run.{
  TransactionResult, finish_tx, keep_tx, tx_result, bump_nonce, logs_from, l2_to_l1_logs_from,
}
use anvil_zksync.Node.VmRunner.Batch.{with_result}
use anvil_zksync.Node.VmRunner.Tests.{test_fields, result_of, test_end, calls, test_env, test_ctx}
use anvil_zksync.Node.BatchVm.{
  VmInterface, MainBatchExecutor, execute_tx_in_vm_with_optional_compression, execute_in,
}
use anvil_zksync.Node.BatchVm.Commands.{with_vm, execute_tx}
use anvil_zksync.Node.BatchVm.Rollback.{
  SnapshotLaws, tail, AfterExecute, rollback_last_tx-execute_tx,
}
use anvil_zksync.Node.BatchVm.Failed.{run_on, run_txs-invalid, run_txs-halted}

abbrev Vm : Type 0
Vm = List ℕ × List (List ℕ)

abbrev roll : List ℕ → List (List ℕ) → Option Vm
roll machine [] = none
roll machine (h ∷ rest) = some (h, rest)

abbrev test_vm : VmInterface Vm ℕ ℕ ℕ
test_vm = record {
  make_snapshot = λ v. (v.0, v.0 ∷ v.1);
  rollback_to_the_latest_snapshot = λ v. roll v.0 v.1;
  pop_snapshot_no_rollback = λ v. (v.0, tail v.1);
  inspect_transaction = λ v storage n compress. (((n ∷ v.0, v.1), storage), (true, result_of n));
  start_new_l2_block = λ v env. v;
  finish_batch = λ v storage. (storage, test_end);
  bootloader = λ v storage. (storage, test_end);
  failed_to_publish_compressed_bytecodes = 2;
}

abbrev laws : SnapshotLaws test_vm (List ℕ)
laws = record {
  machine = λ v. v.0;
  snapshots = λ v. v.1;
  made = λ v. refl;
  made_machine = λ v. refl;
  popped = λ v. refl;
  popped_machine = λ v. refl;
  inspected = λ v s tx b. refl;
  rolled_back = λ v h rest e. ((h, rest), rolled v.0 v.1 h rest e, refl, refl);
  no_snapshot = λ v e. empty v.0 v.1 e;
}
  where
    rolled :
        (machine : List ℕ) (s : List (List ℕ)) (h : List ℕ) (rest : List (List ℕ))
        → s ≡ h ∷ rest
        → roll machine s ≡ some (h, rest)
    rolled machine s h rest e = rw e refl

    empty : (machine : List ℕ) (s : List (List ℕ)) → s ≡ [] → roll machine s ≡ none
    empty machine s e = rw e refl

-- The snapshot of the machine that has run nothing.
abbrev no_tx : List (List ℕ)
no_tx = [] ∷ []

-- An executor that has run transaction 11.
abbrev running : MainBatchExecutor Vm
running = record { enforced_bytecode_compression = false; vm = some (11 ∷ [], [] ∷ []) }

rollback_last_tx-execute_tx_example :
    let after = execute_tx test_vm running forked 12 in
    AfterExecute test_vm laws running (11 ∷ [], [] ∷ []) after.0.0 after.1
rollback_last_tx-execute_tx_example =
    rollback_last_tx-execute_tx test_vm laws running (11 ∷ [], [] ∷ []) forked 12 refl

-- The result of transaction 12 after another one.
abbrev kept : TransactionResult ℕ
kept = record {
  tx = 12;
  batch_number = 5;
  miniblock_number = 5;
  new_bytecodes = [];
  receipt = record {
    transaction_hash = 12;
    transaction_index = 1;
    block_hash = 9;
    block_number = 5;
    l1_batch_tx_index = 1;
    l1_batch_number = 5;
    from = 1;
    to = some 2;
    gas_used = 60;
    contract_address = none;
    logs =
        record {
          address = 5;
          topics = 6 ∷ [];
          log_data = [];
          block_hash = 9;
          block_number = some 5;
          l1_batch_number = 5;
          transaction_hash = 12;
          transaction_index = 1;
          log_index = 0;
          block_timestamp = 1001;
        }
        ∷ [];
    l2_to_l1_logs = [];
    status = 1;
    effective_gas_price = 1;
    transaction_type = 2;
  };
  debug = record {
    is_create = false;
    gas_used = 60;
    output = [];
    from = 1;
    to = 2;
    gas = 100;
    is_reverted = false;
  };
}

run_txs-invalid_example :
    let run = run_on test_vm calls 1 false test_env test_ctx in
    (w : Vm) × (w.0 ≡ 11 ∷ [])
    × (run running forked 0 1 (12 ∷ 14 ∷ 15 ∷ []) ≡ (
        run (with_vm running (some w)) forked 0 2 (15 ∷ []) >>= λ rest.
        done (with_result kept rest)))
unfolding validate_tx execute_tx execute_in execute_tx_in_vm_with_optional_compression finish_tx
    keep_tx tx_result bump_nonce new_bytecodes create_debug_output contract_address_from_logs
    logs_from l2_to_l1_logs_from
run_txs-invalid_example =
    run_txs-invalid test_vm laws calls 1 false test_env test_ctx running (11 ∷ [], [] ∷ []) forked
      forked 0 0 1 12 14 (15 ∷ []) (result_of 12) kept max_fee_per_gas_too_low refl refl refl refl
      refl

run_txs-halted_example :
    let run = run_on test_vm calls 1 false test_env test_ctx in
    (w : Vm) × (w.0 ≡ 11 ∷ [])
    × (run running forked 0 1 (13 ∷ 12 ∷ [])
        ≡ run (with_vm running (some w)) (execute_tx test_vm running forked 13).0.1 0 1 (12 ∷ []))
unfolding execute_tx execute_in execute_tx_in_vm_with_optional_compression
run_txs-halted_example =
    run_txs-halted test_vm laws calls 1 false test_env test_ctx running (11 ∷ [], [] ∷ []) forked 0
      1 13 (12 ∷ []) (result_of 13) 1 refl refl refl refl
