-- ===== src/Node/FeeModel/Forced.antt =====
-- A forced base fee, and the prices of a new node, in crates/core/src/node/fee_model.rs.
use anvil_zksync.Base.{ℕ, ◌≡◌, refl, none}
use anvil_zksync.Node.FeeModel.{
  FeeCalls, FloatDefaults, BatchFeeInput, pubdata_independent, PubdataIndependentInput,
  TestNodeFeeInputProvider, set_base_fee, get_batch_fee_input, get_batch_fee_input_scaled,
  enforce_base_fee,
}

-- A fee input with another L2 gas price.
abbrev pub at_price : PubdataIndependentInput → ℕ → BatchFeeInput
at_price input base_fee = pubdata_independent (record input { fair_l2_gas_price = base_fee })

module _ {F S : Type 0} ⦃f : FeeCalls F S⦄ where
  -- After `set_base_fee`, every fee input has that L2 gas price, with the L1 and pubdata prices of
  -- the scaled parameters, whatever fee was forced before; without a forced fee the input is that
  -- of the scaled parameters.
  pub set_base_fee_lem :
      (d : FloatDefaults S) (p : TestNodeFeeInputProvider F S) (earlier base_fee : ℕ)
      → p.forced_base_fee ≡ none
      → let forced = set_base_fee (set_base_fee p earlier) base_fee in
        let scaled = p.estimate_gas_price_scale_factor in
        (get_batch_fee_input d p ≡ f.scale p.fee_params d.float_one d.float_one)
        × (get_batch_fee_input d forced
            ≡ at_price (f.into_pubdata_independent (get_batch_fee_input d p)) base_fee)
        × (get_batch_fee_input_scaled p ≡ f.scale p.fee_params scaled scaled)
        × (get_batch_fee_input_scaled forced
            ≡ at_price (f.into_pubdata_independent (get_batch_fee_input_scaled p)) base_fee)
  unfolding set_base_fee get_batch_fee_input get_batch_fee_input_scaled enforce_base_fee
  set_base_fee_lem d p earlier base_fee h = rw h (refl, refl, refl, refl)
