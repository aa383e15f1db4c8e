-- ===== src/Node/Eth/Fees.antt =====
-- `fee_history_impl` of crates/core/src/node/eth.rs.
use anvil_zksync.Base.{
  ℕ, zero, suc, ◌+◌, ◌-◌, ◌≤◌, ◌<◌, ◌≡◌, refl, ap, [], ◌∷◌, ◌++◌, length, done, arith, lt→ltb,
}
use anvil_zksync.Base.Words.{u32_mod}
use anvil_zksync.Node.Eth.{
  FeeHistory, repeated, max_block_count, history_length, last_of, fee_history_impl,
}

length-repeated : {A : Type 0} (n : ℕ) (a : A) → length (repeated n a) ≡ n
length-repeated zero a = omega arith
length-repeated (suc n) a = omega (arith, length-repeated n a)

last_of-repeated : (n a : ℕ) → 1 ≤ n → last_of (repeated n a) ≡ done a
last_of-repeated zero a h = absurd (omega (arith, h))
last_of-repeated (suc zero) a h = refl
last_of-repeated (suc (suc n)) a h = last_of-repeated (suc n) a (omega arith)

repeated_snoc : (n a : ℕ) → repeated n a ++ a ∷ [] ≡ repeated (suc n) a
repeated_snoc zero a = refl
repeated_snoc (suc n) a = ap (λ xs. a ∷ xs) (repeated_snoc n a)

-- The number of blocks is the one that was asked for, cut to what there is and to the largest one.
history_length_lem :
    (block_count current_block : ℕ)
    → let n = history_length block_count current_block in
      (1 ≤ n)
      × (n ≤ current_block + 1)
      × (n ≤ max_block_count)
      × (1 ≤ block_count
          → block_count ≤ current_block + 1
          → block_count ≤ max_block_count
          → n ≡ block_count)
unfolding history_length
history_length_lem block_count current_block = ground arith

-- The rows of the history belong to the same blocks, the last `n` ones up to the current one.
pub record IsHistory (gas_price current_block n reward_percentiles : ℕ) (h : FeeHistory)
    : Type 0 where
  pub up_to_current : h.oldest_block + n ≡ current_block + 1
  pub prices : h.base_fee_per_gas ≡ repeated (suc n) gas_price
  pub ratios : length h.gas_used_ratio ≡ n
  pub rewards : h.reward ≡ repeated n (repeated reward_percentiles 0)

-- When the next block number is a u32, a fee history is returned. It is of the blocks up to the current
-- one, at least one and at most 1024 and all blocks there are, and exactly as many as were asked for
-- if that is possible; it has a price, a ratio and a row of rewards for each of them, and one price
-- more for the next block.
pub fee_history_impl_lem :
    (gas_price current_block block_count reward_percentiles : ℕ)
    → current_block + 1 < u32_mod
    → (h : FeeHistory) × (n : ℕ) × (fee_history_impl gas_price current_block block_count
          reward_percentiles
        ≡ done h)
      × IsHistory gas_price current_block n reward_percentiles h
      × (1 ≤ n)
      × (n ≤ current_block + 1)
      × (n ≤ max_block_count)
      × (1 ≤ block_count
          → block_count ≤ current_block + 1
          → block_count ≤ max_block_count
          → n ≡ block_count)
unfolding fee_history_impl
fee_history_impl_lem gas_price current_block block_count reward_percentiles b =
    let n = history_length block_count current_block in
    let size = history_length_lem block_count current_block in
    let h : FeeHistory = record {
      oldest_block = current_block + 1 - length (repeated n gas_price);
      base_fee_per_gas = repeated n gas_price ++ gas_price ∷ [];
      gas_used_ratio = repeated n 0;
      reward = repeated n (repeated reward_percentiles 0);
    } in
    let is_history : IsHistory gas_price current_block n reward_percentiles h = record {
      up_to_current = omega (arith, length-repeated n gas_price, size.1);
      prices = repeated_snoc n gas_price;
      ratios = length-repeated n 0;
      rewards = refl;
    } in
    (
      h,
      n,
      rw (lt→ltb (current_block + 1) u32_mod b, last_of-repeated n gas_price size.0) refl,
      is_history,
      size.0,
      size.1,
      size.2,
      size.3,
    )
