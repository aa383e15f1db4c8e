-- ===== src/Node/VmRunner/Run.antt =====
-- `run_tx` of crates/core/src/node/inner/vm_runner.rs: one transaction, its receipt and its result.
use anvil_zksync.Base.{
  ℕ, suc, ◌+◌, ◌-◌, Bool, true, false, List, [], ◌∷◌, ◌++◌, Option, none, some, if◌then◌else◌, leb,
  length, Outcome, done, ◌>>=◌, unwrap,
}
use anvil_zksync.Base.Words.{checked_add_256}
use anvil_zksync.Filters.{Log}
use anvil_zksync.Node.Storage.{Client, ForkStorageInner, read_value_internal, set_value}
use anvil_zksync.Node.Inner.{BlockContext, L1BatchEnv}
use anvil_zksync.Node.VmRunner.{
  ExecutionResult, success, revert, halt, VmEvent, VmExecutionResultAndLogs, TxAnswer,
  executor_error, compression_error, executed, BatchExecutor, L2Fee, TxFields, RunnerCalls,
  TransactionValidationError, validate_tx, new_bytecodes, contract_address_from_logs, DebugCall,
  create_debug_output,
}

-- The fields that the runner sets from the context; the constant ones are left out.
pub record ApiLog : Type 0 where
  pub address : ℕ
  pub topics : List ℕ
  pub log_data : List ℕ
  pub block_hash : ℕ
  pub block_number : Option ℕ
  pub l1_batch_number : ℕ
  pub transaction_hash : ℕ
  pub transaction_index : ℕ
  pub log_index : ℕ
  pub block_timestamp : ℕ

instance abbrev pub api_log : Log ApiLog
api_log = record {
  block_number = λ log. log.block_number;
  address = λ log. log.address;
  topics = λ log. log.topics;
}

pub record L2ToL1Log : Type 0 where
  pub log : ℕ
  pub block_hash : ℕ
  pub block_number : ℕ
  pub log_index : ℕ
  pub transaction_log_index : ℕ
  pub transaction_index : ℕ
  pub transaction_hash : ℕ

pub record TransactionReceipt : Type 0 where
  pub transaction_hash : ℕ
  pub transaction_index : ℕ
  pub block_hash : ℕ
  pub block_number : ℕ
  pub l1_batch_tx_index : ℕ
  pub l1_batch_number : ℕ
  pub from : ℕ
  pub to : Option ℕ
  pub gas_used : ℕ
  pub contract_address : Option ℕ
  pub logs : List ApiLog
  pub l2_to_l1_logs : List L2ToL1Log
  pub status : ℕ
  pub effective_gas_price : ℕ
  pub transaction_type : ℕ

-- `info` of the source is the transaction with its batch and block numbers.
pub record TransactionResult (T : Type 0) : Type 0 where
  pub tx : T
  pub batch_number : ℕ
  pub miniblock_number : ℕ
  pub new_bytecodes : List (ℕ × List ℕ)
  pub receipt : TransactionReceipt
  pub debug : DebugCall

-- The errors of `run_tx`: the first two are reported, and the batch goes on.
pub data RunError : Type 0 where
  validation_failed : TransactionValidationError → RunError
  transaction_halt other : RunError

pub data RunResult (A : Type 0) : Type 0 where
  ran : A → RunResult A
  failed : RunError → RunResult A

-- Where a transaction stands: its context, batch, index and hash.
pub record TxPlace : Type 0 where
  pub block_ctx : BlockContext
  pub batch_number : ℕ
  pub tx_index : ℕ
  pub tx_hash : ℕ

-- The logs of the receipt, numbered from the index on.
unfoldable pub logs_from : TxPlace → ℕ → List VmEvent → List ApiLog
logs_from p log_idx [] = []
logs_from p log_idx (event ∷ events) =
    record {
      address = event.address;
      topics = event.indexed_topics;
      log_data = event.value;
      block_hash = p.block_ctx.hash;
      block_number = some p.block_ctx.miniblock;
      l1_batch_number = p.batch_number;
      transaction_hash = p.tx_hash;
      transaction_index = p.tx_index;
      log_index = log_idx;
      block_timestamp = p.block_ctx.timestamp;
    }
    ∷ logs_from p (suc log_idx) events

unfoldable pub l2_to_l1_logs_from : TxPlace → ℕ → ℕ → List ℕ → List L2ToL1Log
l2_to_l1_logs_from p next_log_index log_index [] = []
l2_to_l1_logs_from p next_log_index log_index (log ∷ logs) =
    record {
      log = log;
      block_hash = p.block_ctx.hash;
      block_number = p.block_ctx.miniblock;
      log_index = next_log_index + log_index;
      transaction_log_index = log_index;
      transaction_index = p.tx_index;
      transaction_hash = p.tx_hash;
    }
    ∷ l2_to_l1_logs_from p next_log_index (suc log_index) logs

abbrev pub status_of : ExecutionResult → ℕ
status_of (success output) = 1
status_of (revert output) = 0
status_of (halt reason) = 0

-- A subtraction on U256 panics below zero.
abbrev pub checked_sub : ℕ → ℕ → Option ℕ
checked_sub a b = if leb b a then some (a - b) else none

module _ {T : Type 0} ⦃t : TxFields T⦄ where
  -- The receipt and the result of a transaction that did not halt.
  unfoldable pub tx_result :
      RunnerCalls → ℕ → TxPlace → ℕ → T → VmExecutionResultAndLogs → Outcome (TransactionResult T)
  tx_result k gas_price p next_log_index tx result = do
    bytecodes ← new_bytecodes k tx result
    gas_used ← unwrap (checked_sub (t.gas_limit tx) result.gas_refunded)
    debug ← unwrap (create_debug_output k tx result)
    done (record {
      tx = tx;
      batch_number = p.batch_number;
      miniblock_number = p.block_ctx.miniblock;
      new_bytecodes = bytecodes ++ (if k.use_boojum then result.dynamic_factory_deps else []);
      receipt = record {
        transaction_hash = p.tx_hash;
        transaction_index = p.tx_index;
        block_hash = p.block_ctx.hash;
        block_number = p.block_ctx.miniblock;
        l1_batch_tx_index = p.tx_index;
        l1_batch_number = p.batch_number;
        from = t.initiator_account tx;
        to = t.recipient_account tx;
        gas_used = gas_used;
        contract_address = contract_address_from_logs k result.storage_logs;
        logs = logs_from p 0 result.events;
        l2_to_l1_logs = l2_to_l1_logs_from p next_log_index 0 result.user_l2_to_l1_logs;
        status = status_of result.result;
        effective_gas_price = gas_price;
        transaction_type = t.transaction_type tx;
      };
      debug = debug;
    })

module _ {C : Type 0} ⦃c : Client C⦄ where
  -- An impersonated sender's nonce goes up by one, since its account is not validated.
  unfoldable pub bump_nonce :
      RunnerCalls → Bool → ℕ → ForkStorageInner C → Outcome (ForkStorageInner C)
  bump_nonce k false account storage = done storage
  bump_nonce k true account storage = do
    nonce ← read_value_internal storage (k.get_nonce_key account)
    next ← unwrap (checked_add_256 nonce.1 1)
    done (set_value nonce.0 (k.get_nonce_key account) next)

module _ {C T : Type 0} ⦃c : Client C⦄ ⦃t : TxFields T⦄ where
  -- A transaction that did not halt.
  unfoldable pub keep_tx :
      RunnerCalls
      → ℕ
      → Bool
      → TxPlace
      → T
      → ForkStorageInner C
      → ℕ
      → VmExecutionResultAndLogs
      → Outcome ((ForkStorageInner C × ℕ) × RunResult (TransactionResult T))
  keep_tx k gas_price impersonating p tx storage next_log_index result = do
    storage' ← bump_nonce k impersonating (t.initiator_account tx) storage
    kept ← tx_result k gas_price p next_log_index tx result
    done ((storage', next_log_index + length result.user_l2_to_l1_logs), ran kept)

  -- What is left of `run_tx` when the VM has answered: the storage, the next log index and the result.
  unfoldable pub finish_tx :
      RunnerCalls
      → ℕ
      → Bool
      → TxPlace
      → T
      → ForkStorageInner C
      → ℕ
      → VmExecutionResultAndLogs
      → Outcome ((ForkStorageInner C × ℕ) × RunResult (TransactionResult T))
  finish_tx k gas_price impersonating p tx storage next_log_index result = elim result.result [
    | halt reason ↦ done ((storage, next_log_index), failed transaction_halt)
    | _ ↦ keep_tx k gas_price impersonating p tx storage next_log_index result
  ]

  abbrev pub answered :
      RunnerCalls
      → ℕ
      → Bool
      → TxPlace
      → T
      → ForkStorageInner C
      → ℕ
      → TxAnswer
      → Outcome ((ForkStorageInner C × ℕ) × RunResult (TransactionResult T))
  answered k gas_price impersonating p tx storage next_log_index executor_error =
      done ((storage, next_log_index), failed other)
  answered k gas_price impersonating p tx storage next_log_index compression_error =
      done ((storage, next_log_index), failed transaction_halt)
  answered k gas_price impersonating p tx storage next_log_index (executed result) =
      finish_tx k gas_price impersonating p tx storage next_log_index result

abbrev pub l2_error : RunnerCalls → L1BatchEnv → Option L2Fee → Option TransactionValidationError
l2_error k batch_env none = none
l2_error k batch_env (some fee) = validate_tx k batch_env fee

-- What a transaction leaves: the executor, the storage, the next log index and the result.
abbrev pub After : Type 0 → Type 0 → Type 0 → Type 0
After X C T = X × ((ForkStorageInner C × ℕ) × RunResult (TransactionResult T))

module _ {X C T : Type 0} ⦃e : BatchExecutor X C T⦄ ⦃c : Client C⦄ ⦃t : TxFields T⦄ where
  -- A transaction that is not valid does not reach the VM.
  unfoldable pub run_tx :
      RunnerCalls
      → ℕ
      → Bool
      → L1BatchEnv
      → TxPlace
      → X
      → ForkStorageInner C
      → ℕ
      → T
      → Outcome (After X C T)
  run_tx k gas_price impersonating batch_env p executor storage next_log_index tx =
      elim (l2_error k batch_env (t.l2_fee tx)) [
        | some error ↦
            done (executor, ((storage, next_log_index), failed (validation_failed error)))
        | none ↦ do
          let answer = e.execute_tx executor storage tx
          rest ← answered k gas_price impersonating p tx answer.0.1 next_log_index answer.1
          done (answer.0.0, rest)
      ]
