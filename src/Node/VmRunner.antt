-- ===== src/Node/VmRunner.antt =====
-- crates/core/src/node/inner/vm_runner.rs: the run of a batch of transactions.
-- The VM is the batch executor of zksync_multivm, a parameter with the calls that the runner makes
-- on it; the reports that go to the console are left out. The runner shares the node's clock and
-- storage, which are those of the node here.
pub mod Run
pub mod Batch
pub mod Contexts
pub mod Next
pub mod Receipts
pub mod Tests
use anvil_zksync.Base.{
  ◌%◌, ◌^◌, ℕ, ◌+◌, ◌-◌, ◌^◌, Bool, true, false, ◌&&◌, List, [], ◌∷◌, ◌++◌, Option, none, some,
  if◌then◌else◌, ltb, leb, ◌==◌, lookup, extend, nat_key, Outcome, panic, done, ◌>>=◌, unwrap,
}
use anvil_zksync.Base.Words.{u64_max}
use anvil_zksync.Node.Inner.{State, L2BlockEnv, L1BatchEnv}
use anvil_zksync.Node.FeeModel.{BatchFeeInput}
use anvil_zksync.Node.Storage.{ForkStorageInner}
use anvil_zksync.Node.Blockchain.Batches.{FinishedL1Batch}

pub data ExecutionResult : Type 0 where
  success : (output : List ℕ) → ExecutionResult
  revert : (output : List ℕ) → ExecutionResult
  halt : (reason : ℕ) → ExecutionResult

pub record VmEvent : Type 0 where
  pub address : ℕ
  pub indexed_topics : List ℕ
  pub value : List ℕ

pub record StorageLog : Type 0 where
  pub is_write : Bool
  pub key : ℕ × ℕ

pub record VmExecutionResultAndLogs : Type 0 where
  pub result : ExecutionResult
  pub gas_used : ℕ
  pub gas_refunded : ℕ
  pub events : List VmEvent
  pub user_l2_to_l1_logs : List ℕ
  pub storage_logs : List StorageLog
  pub dynamic_factory_deps : List (ℕ × List ℕ)

-- What `execute_tx` gives: an error, a bytecode compression error, or the result.
pub data TxAnswer : Type 0 where
  executor_error compression_error : TxAnswer
  executed : VmExecutionResultAndLogs → TxAnswer

-- What the end of a batch gives: the finished batch, whether its last execution failed, and the
-- modified slots.
pub record BatchEnd (D : Type 0) : Type 0 where
  pub finished_l1_batch : FinishedL1Batch D
  pub is_failed : Bool
  pub modified_storage_keys : State

-- `BatchExecutor` on a storage that it shares with the node. `none` is an error.
pub record BatchExecutor (X C T : Type 0) : Type 0 where
  pub execute_tx : X → ForkStorageInner C → T → (X × ForkStorageInner C) × TxAnswer

-- The calls of an executor between its transactions.
pub record BatchControl (X : Type 0) : Type 0 where
  pub rollback_last_tx : X → Option X
  pub start_next_l2_block : X → L2BlockEnv → Option X

-- The calls of an executor that end its batch.
pub record BatchFinisher (X C D : Type 0) : Type 0 where
  pub finish_batch : X → ForkStorageInner C → ForkStorageInner C × Option (BatchEnd D)
  pub bootloader : X → ForkStorageInner C → ForkStorageInner C × Option (BatchEnd D)

pub record L2Fee : Type 0 where
  pub gas_limit : ℕ
  pub gas_per_pubdata_limit : ℕ
  pub max_fee_per_gas : ℕ
  pub max_priority_fee_per_gas : ℕ

-- What the runner reads of a transaction; the fee is there for an L2 transaction.
pub record TxFields (T : Type 0) : Type 0 where
  pub hash : T → ℕ
  pub l2_fee : T → Option L2Fee
  pub initiator_account : T → ℕ
  pub recipient_account : T → Option ℕ
  pub gas_limit : T → ℕ
  pub factory_deps : T → List (List ℕ)
  pub transaction_type : T → ℕ

-- Functions and constants of other crates, and whether the VM is BoojumOS.
pub record RunnerCalls : Type 0 where
  pub use_boojum : Bool
  pub fair_l2_gas_price : BatchFeeInput → ℕ
  pub bytecode_hash : List ℕ → ℕ
  pub extract_bytecodes_marked_as_known : List VmEvent → List ℕ
  pub account_code_storage_address : ℕ
  pub contract_deployer_address : ℕ
  pub get_nonce_key : ℕ → ℕ × ℕ
  pub compute_hash : ℕ → ℕ → ℕ → ℕ → List ℕ → ℕ

pub data TransactionValidationError : Type 0 where
  invalid_gas_limit gas_per_pubdata_limit max_fee_per_gas_too_low : TransactionValidationError
  max_priority_fee_greater_than_max_fee : TransactionValidationError

unfoldable pub validate_tx : RunnerCalls → L1BatchEnv → L2Fee → Option TransactionValidationError
validate_tx k batch_env fee =
    if ltb u64_max fee.gas_limit
    then some invalid_gas_limit
    else if ltb u64_max fee.gas_per_pubdata_limit
    then some gas_per_pubdata_limit
    else if ltb fee.max_fee_per_gas (k.fair_l2_gas_price batch_env.fee_input)
    then some max_fee_per_gas_too_low
    else if ltb fee.max_fee_per_gas fee.max_priority_fee_per_gas
    then some max_priority_fee_greater_than_max_fee
    else none

abbrev pub hashed_deps : RunnerCalls → List (List ℕ) → List (ℕ × List ℕ)
hashed_deps k [] = []
hashed_deps k (bytecode ∷ deps) = (k.bytecode_hash bytecode, bytecode) ∷ hashed_deps k deps

-- Each saved hash with its bytecode; a hash without one panics.
abbrev pub deps_of : List (ℕ × List ℕ) → List ℕ → Outcome (List (ℕ × List ℕ))
deps_of m [] = done []
deps_of m (bytecode_hash ∷ hashes) = do
  bytecode ← unwrap (lookup bytecode_hash m)
  rest ← deps_of m hashes
  done ((bytecode_hash, bytecode) ∷ rest)

unfoldable pub new_bytecodes :
    {T : Type 0} ⦃t : TxFields T⦄
    → RunnerCalls
    → T
    → VmExecutionResultAndLogs
    → Outcome (List (ℕ × List ℕ))
new_bytecodes ⦃t⦄ k tx result =
    deps_of (extend (extend [] (hashed_deps k (t.factory_deps tx))) result.dynamic_factory_deps)
      (k.extract_bytecodes_marked_as_known result.events)

-- The last write to a code slot: later logs are looked at first. An address is the last 20 bytes of
-- the key.
unfoldable pub contract_address_from_logs : RunnerCalls → List StorageLog → Option ℕ
contract_address_from_logs k [] = none
contract_address_from_logs k (query ∷ logs) =
    let later = contract_address_from_logs k logs in
    elim later [
      | some address ↦ some address
      | none ↦
          if query.is_write && (query.key.0 == k.account_code_storage_address)
          then some (query.key.1 % 2 ^ 160)
          else none
    ]

pub record DebugCall : Type 0 where
  pub is_create : Bool
  pub gas_used : ℕ
  pub output : List ℕ
  pub from : ℕ
  pub to : ℕ
  pub gas : ℕ
  pub is_reverted : Bool

abbrev pub or_zero : Option ℕ → ℕ
or_zero none = 0
or_zero (some n) = n

abbrev is_to : ℕ → Option ℕ → Bool
is_to address none = false
is_to address (some a) = a == address

-- `create_debug_output` of crates/core/src/utils.rs: none for a halt.
unfoldable pub create_debug_output :
    {T : Type 0} ⦃t : TxFields T⦄ → RunnerCalls → T → VmExecutionResultAndLogs → Option DebugCall
create_debug_output ⦃t⦄ k tx result =
    let call : List ℕ → Bool → Option DebugCall = λ output is_reverted. some (record {
      is_create = is_to k.contract_deployer_address (t.recipient_account tx);
      gas_used = result.gas_used;
      output = output;
      from = t.initiator_account tx;
      to = or_zero (t.recipient_account tx);
      gas = t.gas_limit tx;
      is_reverted = is_reverted;
    }) in
    elim result.result [
      | success output ↦ call output false
      | revert output ↦ call output true
      | halt reason ↦ none
    ]
