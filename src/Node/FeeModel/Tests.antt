-- ===== src/Node/FeeModel/Tests.antt =====
-- A concrete fee provider of crates/core/src/node/fee_model.rs, for the tests of other parts.
use anvil_zksync.Base.{ℕ, ◌*◌, none}
use anvil_zksync.Node.FeeModel.{FeeCalls, FloatDefaults, l1_pegged, TestNodeFeeInputProvider}

-- The parameters are one price, and a factor is a number.
instance abbrev pub test_calls : FeeCalls ℕ ℕ
test_calls = record {
  new_params = λ config l1_price pubdata_price ratio. l1_price;
  scale = λ price l1_factor l2_factor. l1_pegged (price * l1_factor) l2_factor;
  into_pubdata_independent =
      λ input. record { l1_gas_price = 1; fair_l2_gas_price = 2; fair_pubdata_price = 3 };
  base_fee_of = λ input. 1;
  fair_pubdata_price_of = λ input. 3;
}

abbrev pub floats : FloatDefaults ℕ
floats = record { price_scale_factor = 2; scale_factor = 1; float_zero = 0; float_one = 1 }

abbrev pub provider : TestNodeFeeInputProvider ℕ ℕ
provider = record {
  estimate_gas_price_scale_factor = 2;
  estimate_gas_scale_factor = 1;
  fee_params = 10;
  forced_base_fee = none;
}
