-- ===== src/Utils.antt =====
-- crates/core/src/utils.rs: block numbers and human-readable sizes.
pub mod HumanSize
pub mod Tests
use anvil_zksync.Base.{ℕ}

-- `BlockNumber` of the zksync_types crate, as the code matches on it.
pub data BlockNumber : Type 0 where
  finalized pending committed l1_committed latest earliest : BlockNumber
  number : ℕ → BlockNumber

unfoldable pub to_real_block_number : BlockNumber → ℕ → ℕ
to_real_block_number finalized latest_block_number = latest_block_number
to_real_block_number pending latest_block_number = latest_block_number
to_real_block_number committed latest_block_number = latest_block_number
to_real_block_number l1_committed latest_block_number = latest_block_number
to_real_block_number latest latest_block_number = latest_block_number
to_real_block_number earliest latest_block_number = 0
to_real_block_number (number n) latest_block_number = n
