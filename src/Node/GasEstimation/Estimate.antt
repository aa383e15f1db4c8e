-- ===== src/Node/GasEstimation/Estimate.antt =====
-- `check_if_executable` and `estimate_gas_inner` of
-- crates/core/src/node/inner/in_memory_inner.rs: the estimate around the search.
use anvil_zksync.Base.{
  ℕ, ◌+◌, ◌*◌, ◌%◌, List, Option, none, some, if◌then◌else◌, ltb, Outcome, done, ◌>>=◌, as_u64,
}
use anvil_zksync.Base.Words.{u32_mod, u64_mod}
use anvil_zksync.Node.FeeModel.{
  FeeCalls, FloatDefaults, TestNodeFeeInputProvider, get_batch_fee_input_scaled,
}
use anvil_zksync.Node.Storage.{Client, ForkStorageInner}
use anvil_zksync.Node.Inner.{InMemoryNodeInner, L1BatchEnv}
use anvil_zksync.Node.Inner.Env.{SystemContext, create_l1_batch_env}
use anvil_zksync.Node.VmRunner.{ExecutionResult, success, revert, halt}
use anvil_zksync.Node.GasEstimation.{Kind, l1, EstimateTx, GasCalls, estimate_gas_step, bisect}

pub record Fee : Type 0 where
  pub max_fee_per_gas : ℕ
  pub max_priority_fee_per_gas : ℕ
  pub gas_limit : ℕ
  pub gas_per_pubdata_limit : ℕ

pub data GasEstimationError : Type 0 where
  transaction_always_reverts transaction_revert : List ℕ → GasEstimationError
  transaction_always_halts transaction_halt : ℕ → GasEstimationError
  exceeds_limit_for_published_pubdata : (pubdata_published : ℕ) → GasEstimationError
  exceeds_block_gas_limit : (overhead gas_for_pubdata estimated_body_cost : ℕ) → GasEstimationError

pub data Estimate : Type 0 where
  fee : Fee → Estimate
  not_fee : GasEstimationError → Estimate

-- `check_if_executable`: what an execution with all gas says against an estimate.
abbrev pub not_executable : ExecutionResult → Option GasEstimationError
not_executable (success output) = none
not_executable (revert output) = some (transaction_always_reverts output)
not_executable (halt reason) = some (transaction_always_halts reason)

-- Enough attempts to halve any u64 away.
abbrev pub max_attempts : ℕ
max_attempts = 64

-- The gas for the pubdata, or an error.
pub data ForPubdata : Type 0 where
  additional_gas : ℕ → ForPubdata
  not_estimated : GasEstimationError → ForPubdata

-- The estimate from the last execution, at the suggested gas limit.
abbrev pub final_estimate : ℕ → ℕ → ℕ → ℕ → ℕ → ℕ → ExecutionResult → Estimate
final_estimate base_fee gas_per_pubdata_byte additional upper_bound suggested overhead
      (success output) =
    if ltb (suggested + overhead) u64_mod
    then fee (record {
      max_fee_per_gas = base_fee;
      max_priority_fee_per_gas = 0;
      gas_limit = suggested + overhead;
      gas_per_pubdata_limit = gas_per_pubdata_byte;
    })
    else not_fee (exceeds_block_gas_limit overhead additional upper_bound)
final_estimate base_fee gas_per_pubdata_byte additional upper_bound suggested overhead
      (revert output) =
    not_fee (transaction_revert output)
final_estimate base_fee gas_per_pubdata_byte additional upper_bound suggested overhead
      (halt reason) =
    not_fee (transaction_halt reason)

module _ {C T S : Type 0} ⦃c : Client C⦄ ⦃t : EstimateTx T⦄ where
  unfoldable pub gas_for_pubdata :
      GasCalls C T S
      → L1BatchEnv
      → T
      → ℕ
      → ForkStorageInner C
      → Kind
      → Outcome (ForkStorageInner C × ForPubdata)
  unfolding estimate_gas_step
  gas_for_pubdata k batch_env tx gas_per_pubdata_byte storage l1 = done (storage, additional_gas 0)
  gas_for_pubdata k batch_env tx gas_per_pubdata_byte storage _ = do
    pubdata_gas ← as_u64 (k.max_vm_pubdata_per_batch * gas_per_pubdata_byte)
    all_gas ← as_u64 (k.max_l2_tx_gas_limit + pubdata_gas)
    step ← estimate_gas_step k batch_env tx gas_per_pubdata_byte storage all_gas
    let published = step.1.pubdata_published
    elim (not_executable step.1.result) [
      | some error ↦ done (step.0, not_estimated error)
      | none ↦
          if ltb (k.max_vm_pubdata_per_batch % u32_mod) published
          then done (step.0, not_estimated (exceeds_limit_for_published_pubdata published))
          else as_u64 (published * gas_per_pubdata_byte) >>= λ gas.
              done (step.0, additional_gas gas)
    ]

  -- The last execution, at the suggested gas limit.
  unfoldable pub estimate_at :
      GasCalls C T S
      → S
      → L1BatchEnv
      → T
      → ℕ
      → ℕ
      → ForkStorageInner C
      → ℕ
      → ℕ
      → Outcome (ForkStorageInner C × Option Estimate)
  unfolding estimate_gas_step
  estimate_at k factor batch_env tx base_fee gas_per_pubdata_byte storage additional upper_bound =
      as_u64 (upper_bound + additional) >>= λ sum.
      let suggested = k.scale_gas sum factor in
      estimate_gas_step k batch_env tx gas_per_pubdata_byte storage suggested >>= λ step. done (
        step.0,
        some (
            final_estimate base_fee gas_per_pubdata_byte additional upper_bound suggested
              (k.derive_overhead suggested (gas_per_pubdata_byte % u32_mod) tx) step.1.result),
      )

  -- The search and the last execution; there is no result when the attempts are used up.
  unfoldable pub estimate_with :
      GasCalls C T S
      → S
      → L1BatchEnv
      → T
      → ℕ
      → ℕ
      → ForkStorageInner C
      → ℕ
      → Outcome (ForkStorageInner C × Option Estimate)
  unfolding estimate_gas_step bisect
  estimate_with k factor batch_env tx base_fee gas_per_pubdata_byte storage additional =
      bisect (estimate_gas_step k batch_env tx gas_per_pubdata_byte) additional max_attempts storage
        0 k.max_l2_tx_gas_limit
      >>= λ found. elim found.1 [
        | none ↦ done (found.0, none)
        | some bounds ↦
            estimate_at k factor batch_env tx base_fee gas_per_pubdata_byte found.0 additional
              bounds.1
      ]

  abbrev pub estimate_from :
      GasCalls C T S
      → S
      → L1BatchEnv
      → T
      → ℕ
      → ℕ
      → ForkStorageInner C × ForPubdata
      → Outcome (ForkStorageInner C × Option Estimate)
  estimate_from k factor batch_env tx base_fee gas_per_pubdata_byte (storage, not_estimated error) =
      done (storage, some (not_fee error))
  estimate_from k factor batch_env tx base_fee gas_per_pubdata_byte
        (storage, additional_gas additional) =
      estimate_with k factor batch_env tx base_fee gas_per_pubdata_byte storage additional

module _ {R L C D T F S : Type 0} ⦃c : Client C⦄ ⦃t : EstimateTx T⦄ ⦃s : SystemContext C⦄
    ⦃fees : FeeCalls F S⦄ where
  unfoldable pub estimate_gas_inner :
      GasCalls C T S
      → FloatDefaults S
      → InMemoryNodeInner R L C D (TestNodeFeeInputProvider F S)
      → T
      → Outcome (ForkStorageInner C × Option Estimate)
  unfolding create_l1_batch_env gas_for_pubdata estimate_with
  estimate_gas_inner k d node tx = do
    let fee_input =
        k.adjust_pubdata_price_for_tx (get_batch_fee_input_scaled node.fee_input_provider)
          (t.gas_per_pubdata_byte_limit tx)
    let prices = k.derive_base_fee_and_gas_per_pubdata fee_input
    let tx' = t.with_base_fee tx prices.0
    envs ← create_l1_batch_env d node
    let env : L1BatchEnv = envs.0
    let batch_env : L1BatchEnv = record env { fee_input = fee_input }
    pubdata ← gas_for_pubdata k batch_env tx' prices.1 node.fork_storage (t.kind tx')
    estimate_from k node.fee_input_provider.estimate_gas_scale_factor batch_env tx' prices.0
        prices.1 pubdata
