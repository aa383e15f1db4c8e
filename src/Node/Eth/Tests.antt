-- ===== src/Node/Eth/Tests.antt =====
-- A concrete fee history for the theorem on crates/core/src/node/eth.rs: four blocks of ten.
use anvil_zksync.Base.{ℕ, ◌+◌, ◌≤◌, ◌≡◌, done, arith}
use anvil_zksync.Node.Eth.{FeeHistory, max_block_count, fee_history_impl}
use anvil_zksync.Node.Eth.Fees.{IsHistory, fee_history_impl_lem}

fee_history_impl_lem_example :
    (h : FeeHistory) × (n : ℕ) × (fee_history_impl 25 9 4 2 ≡ done h)
    × IsHistory 25 9 n 2 h
    × (1 ≤ n)
    × (n ≤ 9 + 1)
    × (n ≤ max_block_count)
    × (1 ≤ 4 → 4 ≤ 9 + 1 → 4 ≤ max_block_count → n ≡ 4)
fee_history_impl_lem_example = fee_history_impl_lem 25 9 4 2 (omega arith)
