-- ===== src/Node/GasEstimation/Tests.antt =====
-- A concrete estimate for the theorems on `estimate_gas_inner` of
-- crates/core/src/node/inner/in_memory_inner.rs: a transaction is its gas limit, and 5000 is enough.
use anvil_zksync.Base.{ℕ, ◌*◌, [], Option, if◌then◌else◌, ltb, Outcome, done, IfDone, arith}
use anvil_zksync.Node.FeeModel.Tests.{test_calls, floats}
use anvil_zksync.Node.Storage.{ForkStorageInner}
use anvil_zksync.Node.Storage.Tests.{test_client}
use anvil_zksync.Node.VmRunner.{success, revert}
use anvil_zksync.Node.VmRunner.Tests.{fee_node, test_context}
use anvil_zksync.Node.GasEstimation.{EstimateTx, l2, StepResult, GasCalls, bisect}
use anvil_zksync.Node.GasEstimation.Estimate.{Estimate, max_attempts, estimate_gas_inner}
use anvil_zksync.Node.GasEstimation.Search.{FoundOpt, bisect-Found}
use anvil_zksync.Node.GasEstimation.Result.{Sound, estimate_gas_inner_lem}

instance abbrev test_tx : EstimateTx ℕ
test_tx = record {
  kind = λ n. l2;
  payer = λ n. 1;
  value = λ n. 0;
  max_fee_per_gas = λ n. 1;
  gas_per_pubdata_byte_limit = λ n. 50000;
  with_base_fee = λ n fee. n;
  with_gas_limit = λ n limit. limit;
  with_mint = λ n mint. n;
}

abbrev step_of : ℕ → StepResult
step_of n = record { result = if ltb n 5000 then revert [] else success []; pubdata_published = 3 }

abbrev gas_calls : GasCalls ℕ ℕ ℕ
gas_calls = record {
  max_l2_tx_gas_limit = 80000000;
  max_vm_pubdata_per_batch = 100000;
  adjust_pubdata_price_for_tx = λ input limit. input;
  derive_base_fee_and_gas_per_pubdata = λ input. (25, 100);
  derive_overhead = λ limit per_byte n. 10;
  base_token_key = λ a. (3, a);
  inspect_one = λ env storage view n. (storage, step_of n);
  scale_gas = λ n factor. n * factor;
}

abbrev attempt : ℕ → ℕ → Outcome (ℕ × StepResult)
attempt a n = done (a, step_of n)

bisect-Found_example :
    IfDone (λ r. FoundOpt attempt 300 0 80000000 r.1) (bisect attempt 300 max_attempts 0 0 80000000)
bisect-Found_example =
    bisect-Found attempt 300 max_attempts 0 0 80000000 (omega arith) (omega arith)

estimate_gas_inner_lem_example :
    IfDone
      (λ (r : ForkStorageInner ℕ × Option Estimate). Sound gas_calls 1 0 25 100 r.1)
      (estimate_gas_inner gas_calls floats fee_node 0)
estimate_gas_inner_lem_example = estimate_gas_inner_lem gas_calls floats fee_node 0 (omega arith)
