-- ===== src/Node/GasEstimation/Result.antt =====
-- The fee that `estimate_gas_inner` of crates/core/src/node/inner/in_memory_inner.rs returns.
use anvil_zksync.Base.{
  ℕ, ◌+◌, ◌%◌, ◌≤◌, ◌<◌, ◌≡◌, refl, false, Option, none, some, ltb, Outcome, panic, done, ◌>>=◌,
  IfDone, IfDone-bind, IfDone-then, Bool-cases, inl, inr, arith,
}
use anvil_zksync.Base.Words.{u32_mod, u64_mod, u64_max}
use anvil_zksync.Node.FeeModel.{
  FeeCalls, FloatDefaults, TestNodeFeeInputProvider, get_batch_fee_input_scaled,
}
use anvil_zksync.Node.Storage.{Client, ForkStorageInner}
use anvil_zksync.Node.Inner.{InMemoryNodeInner, L1BatchEnv}
use anvil_zksync.Node.Inner.Env.{SystemContext, create_l1_batch_env}
use anvil_zksync.Node.VmRunner.{ExecutionResult, success, revert, halt}
use anvil_zksync.Node.GasEstimation.{
  EstimateTx, StepResult, GasCalls, is_failed, estimate_gas_step, bisect,
}
use anvil_zksync.Node.GasEstimation.Estimate.{
  Fee, Estimate, fee, not_fee, ForPubdata, additional_gas, not_estimated, max_attempts,
  gas_for_pubdata, final_estimate, estimate_at, estimate_with, estimate_from, estimate_gas_inner,
}
use anvil_zksync.Node.GasEstimation.Pubdata.{PubdataGas, PubdataGasIf, gas_for_pubdata-PubdataGas}
use anvil_zksync.Node.GasEstimation.Search.{Found, FoundOpt, bisect-Found}

module _ {C T S : Type 0} ⦃c : Client C⦄ ⦃t : EstimateTx T⦄ where
  -- What stands behind a fee.
  pub record Backed (k : GasCalls C T S) (factor : S) (tx : T) (base_fee gas_per_pubdata_byte : ℕ)
      (f : Fee) : Type 0 where
    pub batch_env : L1BatchEnv
    pub additional : ℕ
    pub for_pubdata : PubdataGas k batch_env tx gas_per_pubdata_byte additional
    pub lower_bound : ℕ
    pub upper_bound : ℕ
    pub suggested : ℕ
    pub before : ForkStorageInner C
    pub after : ForkStorageInner C × StepResult
    pub found :
        Found
          (estimate_gas_step k batch_env tx gas_per_pubdata_byte)
          additional
          0
          k.max_l2_tx_gas_limit
          lower_bound
          upper_bound
    pub scaled : suggested ≡ k.scale_gas (upper_bound + additional) factor
    pub ran : estimate_gas_step k batch_env tx gas_per_pubdata_byte before suggested ≡ done after
    pub succeeded : is_failed after.1.result ≡ false
    pub limit :
        f.gas_limit ≡ suggested + k.derive_overhead suggested (gas_per_pubdata_byte % u32_mod) tx
    pub in_range : f.gas_limit < u64_mod
    pub priced : f.max_fee_per_gas ≡ base_fee
    pub pubdata_limit : f.gas_per_pubdata_limit ≡ gas_per_pubdata_byte

  -- There is an estimate, and if it is a fee, then it is backed.
  abbrev pub Sound : GasCalls C T S → S → T → ℕ → ℕ → Option Estimate → Type 0
  Sound k factor tx base_fee gas_per_pubdata_byte none = ⊥
  Sound k factor tx base_fee gas_per_pubdata_byte (some (fee f)) =
      Backed k factor tx base_fee gas_per_pubdata_byte f
  Sound k factor tx base_fee gas_per_pubdata_byte (some (not_fee error)) = Unit

  final_estimate-Sound :
      (k : GasCalls C T S) (factor : S) (batch_env : L1BatchEnv) (tx : T)
      (base_fee gas_per_pubdata_byte additional lower_bound upper_bound : ℕ)
      (before : ForkStorageInner C) (after : ForkStorageInner C × StepResult)
      (result : ExecutionResult)
      → PubdataGas k batch_env tx gas_per_pubdata_byte additional
      → let suggested = k.scale_gas (upper_bound + additional) factor in
        let overhead = k.derive_overhead suggested (gas_per_pubdata_byte % u32_mod) tx in
        Found
          (estimate_gas_step k batch_env tx gas_per_pubdata_byte)
          additional
          0
          k.max_l2_tx_gas_limit
          lower_bound
          upper_bound
        → estimate_gas_step k batch_env tx gas_per_pubdata_byte before suggested ≡ done after
        → after.1.result ≡ result
        → Sound k factor tx base_fee gas_per_pubdata_byte (
            some (
              final_estimate base_fee gas_per_pubdata_byte additional upper_bound suggested overhead
                result))
  final_estimate-Sound k factor batch_env tx base_fee gpp additional lower_bound upper_bound before
        after (success output) p found ran e =
      let suggested = k.scale_gas (upper_bound + additional) factor in
      let overhead = k.derive_overhead suggested (gpp % u32_mod) tx in
      elim (Bool-cases (ltb (suggested + overhead) u64_mod)) [
        | inl h ↦ rw h (record {
          batch_env = batch_env;
          additional = additional;
          for_pubdata = p;
          lower_bound = lower_bound;
          upper_bound = upper_bound;
          suggested = suggested;
          before = before;
          after = after;
          found = found;
          scaled = refl;
          ran = ran;
          succeeded = rw e refl;
          limit = refl;
          in_range = ground (arith, h);
          priced = refl;
          pubdata_limit = refl;
        })
        | inr h ↦ rw h tt
      ]
  final_estimate-Sound k factor batch_env tx base_fee gpp additional lower_bound upper_bound before
        after (revert output) p found ran e =
      tt
  final_estimate-Sound k factor batch_env tx base_fee gpp additional lower_bound upper_bound before
        after (halt reason) p found ran e =
      tt

  run_step :
      (k : GasCalls C T S) (factor : S) (batch_env : L1BatchEnv) (tx : T)
      (base_fee gpp additional lower_bound upper_bound : ℕ) (before : ForkStorageInner C)
      → PubdataGas k batch_env tx gpp additional
      → let suggested = k.scale_gas (upper_bound + additional) factor in
        let overhead = k.derive_overhead suggested (gpp % u32_mod) tx in
        Found
          (estimate_gas_step k batch_env tx gpp)
          additional
          0
          k.max_l2_tx_gas_limit
          lower_bound
          upper_bound
        → (o : Outcome (ForkStorageInner C × StepResult))
        → estimate_gas_step k batch_env tx gpp before suggested ≡ o
        → IfDone
            (λ (r : ForkStorageInner C × Option Estimate). Sound k factor tx base_fee gpp r.1)
            (o >>= λ step. done (
              step.0,
              some (
                  final_estimate base_fee gpp additional upper_bound suggested overhead
                    step.1.result),
            ))
  run_step k factor batch_env tx base_fee gpp additional lower_bound upper_bound before p found
        panic e =
      tt
  run_step k factor batch_env tx base_fee gpp additional lower_bound upper_bound before p found
        (done after) e =
      final_estimate-Sound k factor batch_env tx base_fee gpp additional lower_bound upper_bound
        before after after.1.result p found e refl

  estimate_at-Sound :
      (k : GasCalls C T S) (factor : S) (batch_env : L1BatchEnv) (tx : T)
      (base_fee gpp additional lower_bound upper_bound : ℕ) (storage : ForkStorageInner C)
      → PubdataGas k batch_env tx gpp additional
      → Found
          (estimate_gas_step k batch_env tx gpp)
          additional
          0
          k.max_l2_tx_gas_limit
          lower_bound
          upper_bound
      → IfDone
          (λ (r : ForkStorageInner C × Option Estimate). Sound k factor tx base_fee gpp r.1)
          (estimate_at k factor batch_env tx base_fee gpp storage additional upper_bound)
  unfolding estimate_at
  estimate_at-Sound k factor batch_env tx base_fee gpp additional lower_bound upper_bound storage p
        found =
      elim (Bool-cases (ltb (upper_bound + additional) u64_mod)) [
        | inl h ↦ rw h (
            run_step k factor batch_env tx base_fee gpp additional lower_bound upper_bound storage p
              found
              (estimate_gas_step k batch_env tx gpp storage
                (k.scale_gas (upper_bound + additional) factor))
              refl)
        | inr h ↦ rw h tt
      ]

  estimate_with-Sound :
      (k : GasCalls C T S) (factor : S) (batch_env : L1BatchEnv) (tx : T)
      (base_fee gpp additional : ℕ) (storage : ForkStorageInner C)
      → PubdataGas k batch_env tx gpp additional
      → k.max_l2_tx_gas_limit ≤ u64_max
      → IfDone
          (λ (r : ForkStorageInner C × Option Estimate). Sound k factor tx base_fee gpp r.1)
          (estimate_with k factor batch_env tx base_fee gpp storage additional)
  unfolding estimate_with
  estimate_with-Sound k factor batch_env tx base_fee gpp additional storage p b =
      IfDone-then
        (λ (r : ForkStorageInner C × Option (ℕ × ℕ)).
          FoundOpt (estimate_gas_step k batch_env tx gpp) additional 0 k.max_l2_tx_gas_limit r.1)
        (λ (r : ForkStorageInner C × Option Estimate). Sound k factor tx base_fee gpp r.1) _
        (bisect (estimate_gas_step k batch_env tx gpp) additional max_attempts storage 0
          k.max_l2_tx_gas_limit)
        (bisect-Found (estimate_gas_step k batch_env tx gpp) additional max_attempts storage 0
          k.max_l2_tx_gas_limit (omega arith) (omega (arith, b)))
        (λ found h. go found.0 found.1 h)
    where
      go :
          (after : ForkStorageInner C) (o : Option (ℕ × ℕ))
          → FoundOpt (estimate_gas_step k batch_env tx gpp) additional 0 k.max_l2_tx_gas_limit o
          → IfDone
              (λ (r : ForkStorageInner C × Option Estimate). Sound k factor tx base_fee gpp r.1)
              (elim o [
                | none ↦ done (after, none)
                | some bounds ↦
                    estimate_at k factor batch_env tx base_fee gpp after additional bounds.1
              ])
      go after none h = absurd h
      go after (some bounds) h =
          estimate_at-Sound k factor batch_env tx base_fee gpp additional bounds.0 bounds.1 after p
            h

  estimate_from-Sound :
      (k : GasCalls C T S) (factor : S) (batch_env : L1BatchEnv) (tx : T) (base_fee gpp : ℕ)
      (pubdata : ForkStorageInner C × ForPubdata)
      → PubdataGasIf k batch_env tx gpp pubdata.1
      → k.max_l2_tx_gas_limit ≤ u64_max
      → IfDone
          (λ (r : ForkStorageInner C × Option Estimate). Sound k factor tx base_fee gpp r.1)
          (estimate_from k factor batch_env tx base_fee gpp pubdata)
  estimate_from-Sound k factor batch_env tx base_fee gpp (storage, not_estimated error) p b = tt
  estimate_from-Sound k factor batch_env tx base_fee gpp (storage, additional_gas additional) p b =
      estimate_with-Sound k factor batch_env tx base_fee gpp additional storage p b

module _ {R L C D T F S : Type 0} ⦃c : Client C⦄ ⦃t : EstimateTx T⦄ ⦃s : SystemContext C⦄
    ⦃fees : FeeCalls F S⦄ where
  -- When the largest gas limit is a u64, an estimate that does not panic ends, within its 64 attempts,
  -- with a fee or an error. Behind a fee stands a search that ended with close bounds, and an
  -- execution that succeeded at the scaled upper bound with the gas for pubdata, which is the price
  -- of what a successful execution with all gas published within the limit, or none for a priority
  -- transaction; the gas limit of the fee is that of the execution with its overhead, a u64, and the prices are those that were
  -- derived from the scaled and adjusted fee input.
  pub estimate_gas_inner_lem :
      (k : GasCalls C T S) (d : FloatDefaults S)
      (node : InMemoryNodeInner R L C D (TestNodeFeeInputProvider F S)) (tx : T)
      → k.max_l2_tx_gas_limit ≤ u64_max
      → let prices = k.derive_base_fee_and_gas_per_pubdata (
          k.adjust_pubdata_price_for_tx
            (get_batch_fee_input_scaled node.fee_input_provider)
            (t.gas_per_pubdata_byte_limit tx)) in
        IfDone
          (λ (r : ForkStorageInner C × Option Estimate).
            Sound k node.fee_input_provider.estimate_gas_scale_factor
              (t.with_base_fee tx prices.0)
              prices.0
              prices.1
              r.1)
          (estimate_gas_inner k d node tx)
  unfolding estimate_gas_inner
  estimate_gas_inner_lem k d node tx b =
      let fee_input =
        k.adjust_pubdata_price_for_tx (get_batch_fee_input_scaled node.fee_input_provider)
          (t.gas_per_pubdata_byte_limit tx) in
      let prices = k.derive_base_fee_and_gas_per_pubdata fee_input in
      let tx' = t.with_base_fee tx prices.0 in
      let factor = node.fee_input_provider.estimate_gas_scale_factor in
      let Q : ForkStorageInner C × Option Estimate → Type 0 =
        λ r. Sound k factor tx' prices.0 prices.1 r.1 in
      IfDone-bind Q _ (create_l1_batch_env d node) λ envs.
        let env : L1BatchEnv = envs.0 in
        let batch_env : L1BatchEnv = record env { fee_input = fee_input } in
        IfDone-then
          (λ (r : ForkStorageInner C × ForPubdata). PubdataGasIf k batch_env tx' prices.1 r.1) Q _
          (gas_for_pubdata k batch_env tx' prices.1 node.fork_storage (t.kind tx'))
          (gas_for_pubdata-PubdataGas k batch_env tx' prices.1 node.fork_storage)
          λ pubdata p. estimate_from-Sound k factor batch_env tx' prices.0 prices.1 pubdata p b
