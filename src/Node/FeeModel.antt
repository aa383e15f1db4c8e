-- ===== src/Node/FeeModel.antt =====
-- crates/core/src/node/fee_model.rs: the fee input of a batch.
-- Floating-point numbers are the type `S`, and the fee parameters, which the zksync_types crate
-- builds and scales, the type `F`; what the code calls of that crate and of zksync_multivm is a
-- parameter.
pub mod Forced
pub mod Tests
use anvil_zksync.Base.{ℕ, ◌*◌, ◌/◌, Option, none, some, Outcome, panic, done, ◌>>=◌, as_u64}

pub record FeeModelConfigV2 (S : Type 0) : Type 0 where
  pub minimal_l2_gas_price : ℕ
  pub compute_overhead_part : S
  pub pubdata_overhead_part : S
  pub batch_overhead_l1_gas : ℕ
  pub max_gas_per_batch : ℕ
  pub max_pubdata_per_batch : ℕ

pub record PubdataIndependentInput : Type 0 where
  pub l1_gas_price : ℕ
  pub fair_l2_gas_price : ℕ
  pub fair_pubdata_price : ℕ

pub data BatchFeeInput : Type 0 where
  l1_pegged : (l1_gas_price fair_l2_gas_price : ℕ) → BatchFeeInput
  pubdata_independent : PubdataIndependentInput → BatchFeeInput

-- The numerator and the denominator are non-zero u64 values.
pub record BaseTokenConversionRatio : Type 0 where
  pub numerator : ℕ
  pub denominator : ℕ

pub data FeeParams (F : Type 0) : Type 0 where
  v1 : FeeParams F
  v2 : F → FeeParams F

-- The constants of crates/config/src/constants.rs; the floating-point ones are a parameter.
abbrev pub default_l1_gas_price : ℕ
default_l1_gas_price = 35932364075

abbrev pub default_l2_gas_price : ℕ
default_l2_gas_price = 45250000

abbrev pub default_fair_pubdata_price : ℕ
default_fair_pubdata_price = 13607659111

pub record FloatDefaults (S : Type 0) : Type 0 where
  pub price_scale_factor : S
  pub scale_factor : S
  pub float_zero : S
  pub float_one : S

pub record FeeCalls (F S : Type 0) : Type 0 where
  pub new_params : FeeModelConfigV2 S → ℕ → ℕ → BaseTokenConversionRatio → F
  pub scale : F → S → S → BatchFeeInput
  pub into_pubdata_independent : BatchFeeInput → PubdataIndependentInput
  pub base_fee_of : BatchFeeInput → ℕ
  pub fair_pubdata_price_of : BatchFeeInput → ℕ

pub record TestNodeFeeInputProvider (F S : Type 0) : Type 0 where
  pub estimate_gas_price_scale_factor : S
  pub estimate_gas_scale_factor : S
  pub fee_params : F
  pub forced_base_fee : Option ℕ

-- What `from_fork` reads of the fork's details.
pub record ForkFees (F S : Type 0) : Type 0 where
  pub fee_params : FeeParams F
  pub estimate_gas_price_scale_factor : S
  pub estimate_gas_scale_factor : S

module _ {S : Type 0} where
  unfoldable pub default_config : FloatDefaults S → FeeModelConfigV2 S
  default_config d = record {
    minimal_l2_gas_price = default_l2_gas_price;
    compute_overhead_part = d.float_zero;
    pubdata_overhead_part = d.float_one;
    batch_overhead_l1_gas = 800000;
    max_gas_per_batch = 200000000;
    max_pubdata_per_batch = 500000;
  }

module _ {F S : Type 0} where
  -- Parameters of the first version are a `todo!`.
  unfoldable pub from_fee_params_and_estimate_scale_factors :
      FeeParams F → S → S → Outcome (TestNodeFeeInputProvider F S)
  from_fee_params_and_estimate_scale_factors v1 price_factor factor = panic
  from_fee_params_and_estimate_scale_factors (v2 fee_params) price_factor factor = done (record {
    estimate_gas_price_scale_factor = price_factor;
    estimate_gas_scale_factor = factor;
    fee_params = fee_params;
    forced_base_fee = none;
  })

  unfoldable pub set_base_fee : TestNodeFeeInputProvider F S → ℕ → TestNodeFeeInputProvider F S
  set_base_fee p base_fee = record p { forced_base_fee = some base_fee }

module _ {F S : Type 0} ⦃f : FeeCalls F S⦄ where
  -- The prices in the base token, on u128, which must fit in a u64.
  unfoldable pub from_fork :
      FloatDefaults S
      → Option (ForkFees F S)
      → BaseTokenConversionRatio
      → Outcome (TestNodeFeeInputProvider F S)
  unfolding from_fee_params_and_estimate_scale_factors default_config
  from_fork d (some fork) ratio =
      from_fee_params_and_estimate_scale_factors fork.fee_params
        fork.estimate_gas_price_scale_factor fork.estimate_gas_scale_factor
  from_fork d none ratio = do
    l1_gas_price ← as_u64 (default_l1_gas_price * ratio.denominator / ratio.numerator)
    fair_pubdata_price ← as_u64 (default_fair_pubdata_price * ratio.denominator / ratio.numerator)
    done (record {
      estimate_gas_price_scale_factor = d.price_scale_factor;
      estimate_gas_scale_factor = d.scale_factor;
      fee_params = f.new_params (default_config d) l1_gas_price fair_pubdata_price ratio;
      forced_base_fee = none;
    })

  unfoldable pub enforce_base_fee : TestNodeFeeInputProvider F S → BatchFeeInput → BatchFeeInput
  enforce_base_fee p fee_input = elim p.forced_base_fee [
    | none ↦ fee_input
    | some base_fee ↦
        let pubdata_fee_input : PubdataIndependentInput = f.into_pubdata_independent fee_input in
        pubdata_independent (record pubdata_fee_input { fair_l2_gas_price = base_fee })
  ]

  unfoldable pub get_batch_fee_input :
      FloatDefaults S → TestNodeFeeInputProvider F S → BatchFeeInput
  unfolding enforce_base_fee
  get_batch_fee_input d p = enforce_base_fee p (f.scale p.fee_params d.float_one d.float_one)

  unfoldable pub get_batch_fee_input_scaled : TestNodeFeeInputProvider F S → BatchFeeInput
  unfolding enforce_base_fee
  get_batch_fee_input_scaled p =
      let scale_factor = p.estimate_gas_price_scale_factor in
      enforce_base_fee p (f.scale p.fee_params scale_factor scale_factor)

  unfoldable pub gas_price : TestNodeFeeInputProvider F S → ℕ
  gas_price p = f.base_fee_of (get_batch_fee_input_scaled p)

  unfoldable pub fair_pubdata_price : TestNodeFeeInputProvider F S → ℕ
  fair_pubdata_price p = f.fair_pubdata_price_of (get_batch_fee_input_scaled p)
