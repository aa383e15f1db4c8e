-- ===== src/Node/GasEstimation/Pubdata.antt =====
-- The gas for pubdata of `estimate_gas_inner` of crates/core/src/node/inner/in_memory_inner.rs.
use anvil_zksync.Base.{
  ℕ, ◌+◌, ◌*◌, ◌%◌, ◌≤◌, ◌≡◌, ◌∙◌, refl, ap, subst, false, ◌⊎◌, inl, inr, none, some, ltb,
  if◌then◌else◌, Outcome, panic, done, ◌>>=◌, as_u64, IfDone, IfDone-then, Bool-cases, arith,
}
use anvil_zksync.Base.Words.{u32_mod, u64_mod}
use anvil_zksync.Node.Storage.{Client, ForkStorageInner}
use anvil_zksync.Node.Inner.{L1BatchEnv}
use anvil_zksync.Node.VmRunner.{ExecutionResult, success, revert, halt}
use anvil_zksync.Node.GasEstimation.{
  Kind, l1, l2, protocol_upgrade, EstimateTx, StepResult, GasCalls, is_failed, estimate_gas_step,
}
use anvil_zksync.Node.GasEstimation.Estimate.{
  exceeds_limit_for_published_pubdata, not_executable, ForPubdata, additional_gas, not_estimated,
  gas_for_pubdata,
}

as_u64-same : (n : ℕ) → IfDone (λ m. m ≡ n) (as_u64 n)
as_u64-same n = elim (Bool-cases (ltb n u64_mod)) [ inl h ↦ rw h refl | inr h ↦ rw h tt ]

module _ {C T S : Type 0} ⦃c : Client C⦄ ⦃t : EstimateTx T⦄ where
  -- An execution with all gas, which published what the gas for pubdata pays for.
  pub record Measured (k : GasCalls C T S) (batch_env : L1BatchEnv) (tx : T)
      (gas_per_pubdata_byte gas : ℕ) : Type 0 where
    pub before : ForkStorageInner C
    pub after : ForkStorageInner C × StepResult
    pub ran :
        estimate_gas_step k batch_env tx gas_per_pubdata_byte before
          (k.max_l2_tx_gas_limit + k.max_vm_pubdata_per_batch * gas_per_pubdata_byte)
        ≡ done after
    pub succeeded : is_failed after.1.result ≡ false
    pub within : after.1.pubdata_published ≤ k.max_vm_pubdata_per_batch % u32_mod
    pub priced : gas ≡ after.1.pubdata_published * gas_per_pubdata_byte

  -- The gas for pubdata of a transaction: none for a priority transaction.
  abbrev pub PubdataGas : GasCalls C T S → L1BatchEnv → T → ℕ → ℕ → Type 0
  PubdataGas k batch_env tx gas_per_pubdata_byte gas =
      ((t.kind tx ≡ l1) × (gas ≡ 0)) ⊎ Measured k batch_env tx gas_per_pubdata_byte gas

  abbrev pub PubdataGasIf : GasCalls C T S → L1BatchEnv → T → ℕ → ForPubdata → Type 0
  PubdataGasIf k batch_env tx gas_per_pubdata_byte (additional_gas gas) =
      PubdataGas k batch_env tx gas_per_pubdata_byte gas
  PubdataGasIf k batch_env tx gas_per_pubdata_byte (not_estimated error) = Unit

  not_executable-Measured :
      (k : GasCalls C T S) (batch_env : L1BatchEnv) (tx : T) (gpp : ℕ) (before : ForkStorageInner C)
      (after : ForkStorageInner C × StepResult) (result : ExecutionResult)
      → estimate_gas_step k batch_env tx gpp before
          (k.max_l2_tx_gas_limit + k.max_vm_pubdata_per_batch * gpp)
        ≡ done after
      → after.1.result ≡ result
      → let published = after.1.pubdata_published in
        IfDone
          (λ (r : ForkStorageInner C × ForPubdata). PubdataGasIf k batch_env tx gpp r.1)
          (elim (not_executable result) [
            | some error ↦ done (after.0, not_estimated error)
            | none ↦
                if ltb (k.max_vm_pubdata_per_batch % u32_mod) published
                then done (after.0, not_estimated (exceeds_limit_for_published_pubdata published))
                else as_u64 (published * gpp) >>= λ gas. done (after.0, additional_gas gas)
          ])
  not_executable-Measured k batch_env tx gpp before after (success output) ran e =
      elim (Bool-cases (ltb (k.max_vm_pubdata_per_batch % u32_mod) after.1.pubdata_published)) [
        | inl h ↦ rw h tt
        | inr h ↦ rw h (elim (Bool-cases (ltb (after.1.pubdata_published * gpp) u64_mod)) [
          | inl small ↦ rw small (
              inr (record {
                before = before;
                after = after;
                ran = ran;
                succeeded = rw e refl;
                within = ground (arith, h);
                priced = refl;
              }))
          | inr big ↦ rw big tt
        ])
      ]
  not_executable-Measured k batch_env tx gpp before after (revert output) ran e = tt
  not_executable-Measured k batch_env tx gpp before after (halt reason) ran e = tt

  run-Measured :
      (k : GasCalls C T S) (batch_env : L1BatchEnv) (tx : T) (gpp all_gas : ℕ)
      (before : ForkStorageInner C) (o : Outcome (ForkStorageInner C × StepResult))
      → all_gas ≡ k.max_l2_tx_gas_limit + k.max_vm_pubdata_per_batch * gpp
      → estimate_gas_step k batch_env tx gpp before all_gas ≡ o
      → IfDone
          (λ (r : ForkStorageInner C × ForPubdata). PubdataGasIf k batch_env tx gpp r.1)
          (o >>= λ step. elim (not_executable step.1.result) [
            | some error ↦ done (step.0, not_estimated error)
            | none ↦
                if ltb (k.max_vm_pubdata_per_batch % u32_mod) step.1.pubdata_published
                then done (
                  step.0,
                  not_estimated (exceeds_limit_for_published_pubdata step.1.pubdata_published),
                )
                else as_u64 (step.1.pubdata_published * gpp) >>= λ gas.
                    done (step.0, additional_gas gas)
          ])
  run-Measured k batch_env tx gpp all_gas before panic e f = tt
  run-Measured k batch_env tx gpp all_gas before (done after) e f =
      not_executable-Measured k batch_env tx gpp before after after.1.result
        (subst (λ g. estimate_gas_step k batch_env tx gpp before g ≡ done after) e f) refl

  gas_for_pubdata-measured :
      (k : GasCalls C T S) (batch_env : L1BatchEnv) (tx : T) (gpp : ℕ)
      (storage : ForkStorageInner C)
      → IfDone
          (λ (r : ForkStorageInner C × ForPubdata). PubdataGasIf k batch_env tx gpp r.1)
          (gas_for_pubdata k batch_env tx gpp storage l2)
  unfolding gas_for_pubdata estimate_gas_step
  gas_for_pubdata-measured k batch_env tx gpp storage =
      IfDone-then (λ m. m ≡ k.max_vm_pubdata_per_batch * gpp) Q _
        (as_u64 (k.max_vm_pubdata_per_batch * gpp)) (as_u64-same _)
        λ pubdata_gas e.
          IfDone-then (λ m. m ≡ k.max_l2_tx_gas_limit + pubdata_gas) Q _
            (as_u64 (k.max_l2_tx_gas_limit + pubdata_gas)) (as_u64-same _)
            λ all_gas f.
              run-Measured k batch_env tx gpp all_gas storage _
                (f ∙ ap (λ m. k.max_l2_tx_gas_limit + m) e) refl
    where
      Q : ForkStorageInner C × ForPubdata → Type 0
      Q r = PubdataGasIf k batch_env tx gpp r.1

  -- The gas for pubdata is that of what a successful execution with all gas publishes; a priority
  -- transaction has none.
  pub gas_for_pubdata-PubdataGas :
      (k : GasCalls C T S) (batch_env : L1BatchEnv) (tx : T) (gpp : ℕ)
      (storage : ForkStorageInner C)
      → IfDone
          (λ (r : ForkStorageInner C × ForPubdata). PubdataGasIf k batch_env tx gpp r.1)
          (gas_for_pubdata k batch_env tx gpp storage (t.kind tx))
  unfolding gas_for_pubdata
  gas_for_pubdata-PubdataGas k batch_env tx gpp storage = go (t.kind tx) refl
    where
      go :
          (kind : Kind)
          → t.kind tx ≡ kind
          → IfDone
              (λ (r : ForkStorageInner C × ForPubdata). PubdataGasIf k batch_env tx gpp r.1)
              (gas_for_pubdata k batch_env tx gpp storage kind)
      go l1 e = inl (e, refl)
      go l2 e = gas_for_pubdata-measured k batch_env tx gpp storage
      go protocol_upgrade e = gas_for_pubdata-measured k batch_env tx gpp storage
