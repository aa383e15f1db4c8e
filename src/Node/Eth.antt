-- ===== src/Node/Eth.antt =====
-- crates/core/src/node/eth.rs: what the calls of the eth namespace compute themselves. Most calls only
-- hand a question on to the chain, the filters, the storage or the fork, which have models of their
-- own.
pub mod Fees
pub mod Tests
use anvil_zksync.Base.{
  ℕ, zero, suc, ◌+◌, ◌-◌, Bool, true, false, List, [], ◌∷◌, ◌++◌, Option, none, some, if◌then◌else◌,
  ltb, length, Outcome, panic, done, ◌>>=◌, as_u32,
}
use anvil_zksync.Node.Blockchain.{Block, TransactionVariant, full, hash_only}

-- The fields of the answer that are filled, and the reward for each percentile.
pub record FeeHistory : Type 0 where
  pub oldest_block : ℕ
  pub base_fee_per_gas : List ℕ
  pub gas_used_ratio : List ℕ
  pub reward : List (List ℕ)

abbrev pub repeated : {A : Type 0} → ℕ → A → List A
repeated zero a = []
repeated (suc n) a = a ∷ repeated n a

abbrev pub min_of : ℕ → ℕ → ℕ
min_of a b = if ltb b a then b else a

-- `Ord::clamp`.
abbrev pub clamp : ℕ → ℕ → ℕ → ℕ
clamp n low high = if ltb n low then low else if ltb high n then high else n

abbrev pub max_block_count : ℕ
max_block_count = 1024

-- The number of blocks of a fee history.
unfoldable pub history_length : ℕ → ℕ → ℕ
history_length block_count current_block =
    clamp (min_of block_count max_block_count) 1 (current_block + 1)

-- `last().unwrap()` of the prices.
abbrev pub last_of : List ℕ → Outcome ℕ
last_of [] = panic
last_of (x ∷ []) = done x
last_of (x ∷ y ∷ xs) = last_of (y ∷ xs)

-- The sum of the block number panics past u32.
unfoldable pub fee_history_impl : ℕ → ℕ → ℕ → ℕ → Outcome FeeHistory
unfolding history_length
fee_history_impl gas_price current_block block_count reward_percentiles = do
  let count = history_length block_count current_block
  let base_fee_per_gas = repeated count gas_price
  next_block ← as_u32 (current_block + 1)
  last ← last_of base_fee_per_gas
  done (record {
    oldest_block = next_block - length base_fee_per_gas;
    base_fee_per_gas = base_fee_per_gas ++ last ∷ [];
    gas_used_ratio = repeated count 0;
    reward = repeated count (repeated reward_percentiles 0);
  })

module _ {T : Type 0} where
  -- A transaction of a block as it was asked for; a full one cannot be made from its hash.
  unfoldable pub as_asked : (T → ℕ) → Bool → TransactionVariant T → Outcome (TransactionVariant T)
  as_asked hash true (full tx) = done (full tx)
  as_asked hash false (full tx) = done (hash_only (hash tx))
  as_asked hash true (hash_only h) = panic
  as_asked hash false (hash_only h) = done (hash_only h)

  unfoldable pub all_as_asked :
      (T → ℕ) → Bool → List (TransactionVariant T) → Outcome (List (TransactionVariant T))
  unfolding as_asked
  all_as_asked hash full_transactions [] = done []
  all_as_asked hash full_transactions (tx ∷ txs) = do
    one ← as_asked hash full_transactions tx
    rest ← all_as_asked hash full_transactions txs
    done (one ∷ rest)

  -- The second part of `get_block_impl`, on the block that the chain or the fork has found.
  unfoldable pub block_as_asked : (T → ℕ) → Bool → Option (Block T) → Outcome (Option (Block T))
  unfolding all_as_asked
  block_as_asked hash full_transactions none = done none
  block_as_asked hash full_transactions (some block) = do
    transactions ← all_as_asked hash full_transactions block.transactions
    done (some (record block { transactions = transactions }))

-- The fee fields and the type of a `CallRequest`.
pub record CallFees : Type 0 where
  pub gas : Option ℕ
  pub gas_price : Option ℕ
  pub max_fee_per_gas : Option ℕ
  pub max_priority_fee_per_gas : Option ℕ
  pub transaction_type : Option ℕ

abbrev pub or_default : Option ℕ → ℕ → Option ℕ
or_default none default = some default
or_default (some n) default = some n

abbrev pub is_given : Option ℕ → Bool
is_given none = false
is_given (some n) = true

-- The defaults of `send_transaction_impl`; `none` is the error of two kinds of fees. The limit and the
-- type are constants of other crates.
unfoldable pub fill_fees : ℕ → ℕ → ℕ → CallFees → Option CallFees
fill_fees max_l1_transaction_gas_limit eip_1559_tx_type l2_gas_price tx =
    let gas = or_default tx.gas max_l1_transaction_gas_limit in
    if is_given tx.gas_price
    then (if is_given tx.max_fee_per_gas
        then none
        else if is_given tx.max_priority_fee_per_gas
        then none
        else some (record tx { gas = gas }))
    else some (record tx {
      gas = gas;
      gas_price = or_default tx.max_fee_per_gas l2_gas_price;
      max_priority_fee_per_gas = or_default tx.max_priority_fee_per_gas 0;
      transaction_type = or_default tx.transaction_type eip_1559_tx_type;
    })
