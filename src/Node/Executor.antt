-- ===== src/Node/Executor.antt =====
-- crates/core/src/node/inner/node_executor.rs: the task that carries out all commands that change
-- the node, one after the other. A reply goes back to the sender, or to the log when the sender is
-- gone: the model returns it. The VM runner, the hashes of bytecodes and the layout of the storage
-- keys are parameters.
pub mod Intervals
pub mod Accounts
pub mod Tests
use anvil_zksync.Base.{
  ℕ, suc, Bool, List, [], ◌∷◌, Option, none, some, if◌then◌else◌, ◌==◌, Outcome, panic, done, ◌>>=◌,
  as_u64,
}
use anvil_zksync.Base.Int.{ℤ}
use anvil_zksync.Filters.{Log}
use anvil_zksync.Node.Time.{
  TimeState, EnforceResult, increase_time, enforce_next_timestamp, set_current_timestamp_unchecked,
  get_block_timestamp_interval, set_block_timestamp_interval, remove_block_timestamp_interval,
}
use anvil_zksync.Node.Pool.{TxBatch}
use anvil_zksync.Node.FeeModel.{TestNodeFeeInputProvider, set_base_fee}
use anvil_zksync.Node.Storage.{Client, ForkStorageInner, set_value, store_factory_dep}
use anvil_zksync.Node.Blockchain.Batches.{BatchTx}
use anvil_zksync.Node.Inner.{InMemoryNodeInner, MessageRoot}
use anvil_zksync.Node.Inner.Seal.{Executed, Emits, TxBatchExecutionResult, seal_block}

-- `run_tx_batch` of the VM runner: it changes the node's clock and storage and its own state; no
-- result is an error.
pub record VmRunner (V T N E : Type 0) : Type 0 where
  pub run_tx_batch : V → TxBatch T → N → Outcome ((V × N) × Option E)

pub record StorageKeyLayout : Type 0 where
  pub code_key : ℕ → ℕ × ℕ
  pub nonce_key : ℕ → ℕ × ℕ
  pub base_token_key : ℕ → ℕ × ℕ
  pub is_evm : List ℕ → Bool
  pub era_hash : List ℕ → ℕ
  pub evm_hash : List ℕ → ℕ
  pub pad_evm_bytecode : List ℕ → List ℕ
  pub nonces_to_full_nonce : ℕ → ℕ → ℕ

module _ {R L C D P : Type 0} where
  abbrev pub with_time : InMemoryNodeInner R L C D P → TimeState → InMemoryNodeInner R L C D P
  with_time node time = record node { time = time }

  abbrev with_storage :
      InMemoryNodeInner R L C D P → ForkStorageInner C → InMemoryNodeInner R L C D P
  with_storage node storage = record node { fork_storage = storage }

  unfoldable pub set_code :
      StorageKeyLayout → InMemoryNodeInner R L C D P → ℕ → List ℕ → InMemoryNodeInner R L C D P
  set_code k node address bytecode =
      let hash = if k.is_evm bytecode then k.evm_hash bytecode else k.era_hash bytecode in
      let code = if k.is_evm bytecode then k.pad_evm_bytecode bytecode else bytecode in
      with_storage node
        (set_value (store_factory_dep node.fork_storage hash code) (k.code_key address) hash)

  unfoldable pub set_storage : InMemoryNodeInner R L C D P → ℕ × ℕ → ℕ → InMemoryNodeInner R L C D P
  set_storage node key value = with_storage node (set_value node.fork_storage key value)

  unfoldable pub set_balance :
      StorageKeyLayout → InMemoryNodeInner R L C D P → ℕ → ℕ → InMemoryNodeInner R L C D P
  set_balance k node address balance =
      with_storage node (set_value node.fork_storage (k.base_token_key address) balance)

  -- The deployment nonce is set to the same number.
  unfoldable pub set_nonce :
      StorageKeyLayout → InMemoryNodeInner R L C D P → ℕ → ℕ → InMemoryNodeInner R L C D P
  set_nonce k node address nonce =
      with_storage node
        (set_value node.fork_storage (k.nonce_key address) (k.nonces_to_full_nonce nonce nonce))

  unfoldable pub increase_node_time : InMemoryNodeInner R L C D P → ℕ → InMemoryNodeInner R L C D P
  increase_node_time node delta = with_time node (increase_time node.time delta).0

  unfoldable pub enforce_node_timestamp :
      InMemoryNodeInner R L C D P → ℕ → InMemoryNodeInner R L C D P × EnforceResult
  enforce_node_timestamp node timestamp =
      let result = enforce_next_timestamp node.time timestamp in (with_time node result.0, result.1)

  unfoldable pub set_node_timestamp :
      InMemoryNodeInner R L C D P → ℕ → InMemoryNodeInner R L C D P × ℤ
  set_node_timestamp node timestamp =
      let result = set_current_timestamp_unchecked node.time timestamp in
      (with_time node result.0, result.1)

  unfoldable pub set_timestamp_interval :
      InMemoryNodeInner R L C D P → ℕ → InMemoryNodeInner R L C D P
  set_timestamp_interval node delta =
      with_time node (set_block_timestamp_interval node.time (some delta))

  unfoldable pub remove_timestamp_interval :
      InMemoryNodeInner R L C D P → InMemoryNodeInner R L C D P × Bool
  remove_timestamp_interval node =
      let result = remove_block_timestamp_interval node.time in (with_time node result.0, result.1)

module _ {R L C D F S : Type 0} where
  -- `as_u64` panics on a fee past u64.
  unfoldable pub enforce_next_base_fee_per_gas :
      InMemoryNodeInner R L C D (TestNodeFeeInputProvider F S)
      → ℕ
      → Outcome (InMemoryNodeInner R L C D (TestNodeFeeInputProvider F S))
  enforce_next_base_fee_per_gas node base_fee = do
    fee ← as_u64 base_fee
    done (record node { fee_input_provider = set_base_fee node.fee_input_provider fee })

abbrev pub cons_number : ℕ → Option (List ℕ) → Option (List ℕ)
cons_number n none = none
cons_number n (some numbers) = some (n ∷ numbers)

module _ {R L C D P : Type 0} ⦃b : BatchTx R⦄ ⦃x : Executed R⦄ ⦃m : Emits R L⦄ ⦃l : Log L⦄
    ⦃c : Client C⦄ where
  -- The VM's result sealed; without a result there is no number.
  unfoldable pub seal_result :
      MessageRoot
      → InMemoryNodeInner R L C D P
      → Option (TxBatchExecutionResult R D)
      → Outcome (InMemoryNodeInner R L C D P × Option ℕ)
  seal_result root node none = done (node, none)
  seal_result root node (some result) = do
    sealed ← seal_block root node result
    done (sealed.0, some sealed.1)

module _ {R L C D P : Type 0} where
  -- From the second block on the given interval holds.
  abbrev pub interval_from : ℕ → ℕ → InMemoryNodeInner R L C D P → InMemoryNodeInner R L C D P
  interval_from i interval node =
      if i == 1
      then with_time node (set_block_timestamp_interval node.time (some interval))
      else node

module _ {R L C D P V T : Type 0} ⦃b : BatchTx R⦄ ⦃x : Executed R⦄ ⦃m : Emits R L⦄ ⦃l : Log L⦄
    ⦃c : Client C⦄
    ⦃vm : VmRunner V T (InMemoryNodeInner R L C D P) (TxBatchExecutionResult R D)⦄ where
  unfoldable pub execute_batch :
      MessageRoot
      → V
      → InMemoryNodeInner R L C D P
      → TxBatch T
      → Outcome ((V × InMemoryNodeInner R L C D P) × Option ℕ)
  unfolding seal_result
  execute_batch root v node tx_batch = do
    ran ← vm.run_tx_batch v tx_batch node
    sealed ← seal_result root ran.0.1 ran.1
    done ((ran.0.0, sealed.0), sealed.1)

  -- The first error ends the loop.
  unfoldable pub seal_each :
      MessageRoot
      → ℕ
      → ℕ
      → V
      → InMemoryNodeInner R L C D P
      → List (TxBatch T)
      → Outcome ((V × InMemoryNodeInner R L C D P) × Option (List ℕ))
  seal_each root interval i v node [] = done ((v, node), some [])
  seal_each root interval i v node (tx_batch ∷ tx_batches) =
      execute_batch root v (interval_from i interval node) tx_batch >>= λ r. elim r.1 [
        | none ↦ done (r.0, none)
        | some number ↦ seal_each root interval (suc i) r.0.0 r.0.1 tx_batches >>= λ rest.
            done (rest.0, cons_number number rest.1)
      ]

  unfoldable pub seal_blocks :
      MessageRoot
      → ℕ
      → V
      → InMemoryNodeInner R L C D P
      → List (TxBatch T)
      → Outcome ((V × InMemoryNodeInner R L C D P) × Option (List ℕ))
  seal_blocks root interval v node tx_batches = do
    let old_interval = get_block_timestamp_interval node.time
    r ← seal_each root interval 0 v node tx_batches
    let after = r.0.1
    done ((r.0.0, with_time after (set_block_timestamp_interval after.time old_interval)), r.1)
