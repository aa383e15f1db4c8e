-- ===== src/Node/Mining.antt =====
-- `mine_block`, `mine_blocks` and the calls on the pool of crates/core/src/node/in_memory_ext.rs.
-- The executor's call, which seals the batches, is the function of `Node.Executor`: here is what is
-- sent to it.
pub mod Batched
pub mod Tests
use anvil_zksync.Base.{
  ℕ, zero, suc, Bool, ◌&&◌, List, [], ◌∷◌, Option, none, some, if◌then◌else◌, ltb, ◌==◌, Outcome,
  panic, done, ◌>>=◌, as_u64, map,
}
use anvil_zksync.Node.Impersonate.{ImpersonationState}
use anvil_zksync.Node.Pool.{
  Transaction, TxPool, TxBatch, PoolTransaction, take_uniform, drop_transactions, drop_transaction,
  clear,
}
use anvil_zksync.Node.Sealer.{BlockSealerMode, noop, immediate, fixed_time, batch_or_empty}

-- What a request to mine comes to: nothing, an error, or batches for the executor with the interval
-- between their blocks.
pub data MineRequest (T : Type 0) : Type 0 where
  nothing : MineRequest T
  same_timestamp_error : ℕ → MineRequest T
  seal_blocks : List (TxBatch T) → ℕ → MineRequest T

-- `map_or(1, |x| x.as_u64())` of a number on 64 bits.
abbrev pub one_or : Option ℕ → ℕ
one_or none = 1
one_or (some n) = n

module _ {T L : Type 0} ⦃t : Transaction T⦄ where
  -- The batch of `mine_block`, empty if the pool gives none.
  unfoldable pub mine_batch : ImpersonationState → TxPool T L → ℕ → TxPool T L × TxBatch T
  mine_batch s pool max_transactions =
      let taken = take_uniform s pool max_transactions in (taken.0, batch_or_empty taken.1)

  -- The loop of `mine_blocks`.
  unfoldable pub mine_batches :
      ImpersonationState → TxPool T L → ℕ → ℕ → TxPool T L × List (TxBatch T)
  mine_batches s pool max_transactions zero = (pool, [])
  mine_batches s pool max_transactions (suc num_blocks) =
      let first = mine_batch s pool max_transactions in
      let rest = mine_batches s first.0 max_transactions num_blocks in (rest.0, first.1 ∷ rest.1)

  unfoldable pub mine_blocks :
      ImpersonationState → TxPool T L → ℕ → Option ℕ → Option ℕ → TxPool T L × MineRequest T
  mine_blocks s pool max_transactions num_blocks interval =
      let n = one_or num_blocks in
      let interval_sec = one_or interval in
      let mined = mine_batches s pool max_transactions n in
      if n == 0
      then (pool, nothing)
      else if ltb 1 n && (interval_sec == 0)
      then (pool, same_timestamp_error n)
      else (mined.0, seal_blocks mined.1 interval_sec)

  unfoldable pub drop_by_hash : TxPool T L → ℕ → TxPool T L × Option ℕ
  drop_by_hash pool hash =
      let dropped = drop_transaction pool hash in
      (dropped.0, elim dropped.1 [ none ↦ none | some tx ↦ some (t.hash tx) ])

  unfoldable pub remove_pool_transactions : TxPool T L → ℕ → TxPool T L
  remove_pool_transactions pool address =
      (drop_transactions pool (λ p. t.initiator_account p.transaction == address)).0

module _ {T L : Type 0} where
  unfoldable pub drop_all_transactions : TxPool T L → TxPool T L
  drop_all_transactions pool = clear pool

module _ {X I : Type 0} where
  -- An interval of zero seconds stops sealing; the timer is made by the tokio crate.
  unfoldable pub set_interval_sealing : (ℕ → I) → ℕ → ℕ → BlockSealerMode X I
  set_interval_sealing new_interval max_transactions seconds =
      if seconds == 0
      then noop
      else fixed_time
          (record { max_transactions = max_transactions; interval = new_interval seconds })
