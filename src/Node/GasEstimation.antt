-- ===== src/Node/GasEstimation.antt =====
-- `estimate_gas_inner` and `estimate_gas_step` of
-- crates/core/src/node/inner/in_memory_inner.rs.
-- The VM, the fee functions of zksync_multivm, the constants of zksync_types and the floating-point
-- scale are parameters, as are the fields of a transaction. An estimate reads the storage of the
-- node and writes to a view of its own. Sums and products of u64 panic when they overflow.
pub mod Search
pub mod Estimate
pub mod Pubdata
pub mod Result
pub mod Tests
use anvil_zksync.Base.{
  ℕ, zero, suc, ◌+◌, ◌*◌, ◌/◌, ◌%◌, Bool, true, false, List, [], ◌∷◌, Option, none, some,
  if◌then◌else◌, ltb, Outcome, panic, done, ◌>>=◌, unwrap, as_u64,
}
use anvil_zksync.Base.Words.{u32_mod, u64_mod, u256_mod, checked_add_256}
use anvil_zksync.Node.FeeModel.{
  FeeCalls, FloatDefaults, BatchFeeInput, TestNodeFeeInputProvider, get_batch_fee_input_scaled,
}
use anvil_zksync.Node.Storage.{Client, ForkStorageInner, read_value_internal}
use anvil_zksync.Node.Inner.{State, InMemoryNodeInner, L1BatchEnv}
use anvil_zksync.Node.Inner.Env.{SystemContext, create_l1_batch_env}
use anvil_zksync.Node.VmRunner.{ExecutionResult, success, revert, halt}

-- `ExecuteTransactionCommon`.
pub data Kind : Type 0 where
  l1 l2 protocol_upgrade : Kind

-- The fields of a transaction that an estimate reads or sets. A base fee is set as the maximum fee
-- and, for an L2 transaction, as the priority fee.
pub record EstimateTx (T : Type 0) : Type 0 where
  pub kind : T → Kind
  pub payer : T → ℕ
  pub value : T → ℕ
  pub max_fee_per_gas : T → ℕ
  pub gas_per_pubdata_byte_limit : T → ℕ
  pub with_base_fee : T → ℕ → T
  pub with_gas_limit : T → ℕ → T
  pub with_mint : T → ℕ → T

pub record StepResult : Type 0 where
  pub result : ExecutionResult
  pub pubdata_published : ℕ

pub record GasCalls (C T S : Type 0) : Type 0 where
  pub max_l2_tx_gas_limit : ℕ
  pub max_vm_pubdata_per_batch : ℕ
  pub adjust_pubdata_price_for_tx : BatchFeeInput → ℕ → BatchFeeInput
  -- The base fee and the gas for a byte of pubdata.
  pub derive_base_fee_and_gas_per_pubdata : BatchFeeInput → ℕ × ℕ
  pub derive_overhead : ℕ → ℕ → T → ℕ
  pub base_token_key : ℕ → ℕ × ℕ
  -- The VM on the storage, and on the slots that the view has written.
  pub inspect_one : L1BatchEnv → ForkStorageInner C → State → T → ForkStorageInner C × StepResult
  -- The product with the scale factor, as a u64.
  pub scale_gas : ℕ → S → ℕ

abbrev pub estimate_gas_acceptable_overestimation : ℕ
estimate_gas_acceptable_overestimation = 1000

abbrev pub checked_256 : ℕ → Option ℕ
checked_256 n = if ltb n u256_mod then some n else none

abbrev pub is_failed : ExecutionResult → Bool
is_failed (success output) = false
is_failed (revert output) = true
is_failed (halt reason) = true

module _ {T : Type 0} ⦃t : EstimateTx T⦄ where
  -- The transaction with its gas limit; an L1 transaction mints what it may need.
  unfoldable pub with_limit : Kind → T → ℕ → Outcome T
  with_limit l1 tx gas_limit = do
    cost ← unwrap (checked_256 (gas_limit * t.max_fee_per_gas tx))
    required_funds ← unwrap (checked_add_256 cost (t.value tx))
    done (t.with_mint (t.with_gas_limit tx gas_limit) required_funds)
  with_limit l2 tx gas_limit = done (t.with_gas_limit tx gas_limit)
  with_limit protocol_upgrade tx gas_limit = panic

module _ {C T S : Type 0} ⦃c : Client C⦄ ⦃t : EstimateTx T⦄ where
  -- The payer is given the cost of the gas.
  unfoldable pub estimate_gas_step :
      GasCalls C T S
      → L1BatchEnv
      → T
      → ℕ
      → ForkStorageInner C
      → ℕ
      → Outcome (ForkStorageInner C × StepResult)
  unfolding with_limit
  estimate_gas_step k batch_env tx gas_per_pubdata_byte storage tx_gas_limit = do
    gas_limit ←
        as_u64 (tx_gas_limit + k.derive_overhead tx_gas_limit (gas_per_pubdata_byte % u32_mod) tx)
    tx' ← with_limit (t.kind tx) tx gas_limit
    let balance_key = k.base_token_key (t.payer tx)
    balance ← read_value_internal storage balance_key
    added_balance ← unwrap (checked_256 (gas_limit * t.max_fee_per_gas tx))
    current_balance ← unwrap (checked_add_256 balance.1 added_balance)
    done (k.inspect_one batch_env balance.0 ((balance_key, current_balance) ∷ []) tx')

-- The bounds after an attempt in the middle.
abbrev pub narrow : Bool → ℕ → ℕ → ℕ → ℕ × ℕ
narrow true lower_bound mid upper_bound = (mid + 1, upper_bound)
narrow false lower_bound mid upper_bound = (lower_bound, mid)

-- The search for the least gas limit, on a bounded number of attempts. The result has the last two
-- bounds; there is none when the attempts are used up.
unfoldable pub bisect :
    {A : Type 0}
    → (A → ℕ → Outcome (A × StepResult))
    → ℕ
    → ℕ
    → A
    → ℕ
    → ℕ
    → Outcome (A × Option (ℕ × ℕ))
bisect try additional zero storage lower_bound upper_bound = done (
  storage,
  if ltb (lower_bound + estimate_gas_acceptable_overestimation) upper_bound
      then none
      else some (lower_bound, upper_bound),
)
bisect try additional (suc fuel) storage lower_bound upper_bound =
    if ltb (lower_bound + estimate_gas_acceptable_overestimation) upper_bound
    then (do
      let mid = (lower_bound + upper_bound) / 2
      try_gas_limit ← as_u64 (additional + mid)
      attempt ← try storage try_gas_limit
      let bounds = narrow (is_failed attempt.1.result) lower_bound mid upper_bound
      bisect try additional fuel attempt.0 bounds.0 bounds.1)
    else done (storage, some (lower_bound, upper_bound))
