-- ===== src/Node/Pool/Split.antt =====
-- `take_uniform` of crates/core/src/node/pool.rs loses and reorders nothing.
use anvil_zksync.Base.{
  ℕ, zero, suc, ◌-◌, ◌≡◌, refl, ap, inl, inr, Bool, List, [], ◌∷◌, ◌++◌, Option, none, some, ◌==◌,
  arith, Bool-cases,
}
use anvil_zksync.Node.Impersonate.{ImpersonationState, is_impersonating}
use anvil_zksync.Node.Pool.{
  Transaction, TxPool, TxBatch, PoolTransaction, txs_of, take_loop, take_head, take_uniform,
}

abbrev pub batch_txs : {T : Type 0} → Option (TxBatch T) → List T
batch_txs none = []
batch_txs (some batch) = batch.txs

module _ {T : Type 0} ⦃t : Transaction T⦄ where
  take_loop-append :
      (s : ImpersonationState) (b : Bool) (k : ℕ) (qs : List (PoolTransaction T))
      → (take_loop s b k qs).0 ++ txs_of (take_loop s b k qs).1 ≡ txs_of qs
  unfolding take_loop
  take_loop-append s b zero qs = refl
  take_loop-append s b (suc k) [] = refl
  take_loop-append s b (suc k) (q ∷ qs) = ground (arith, take_loop-append s b k qs)

module _ {T L : Type 0} ⦃t : Transaction T⦄ where
  take_head-append :
      (s : ImpersonationState) (pool : TxPool T L) (n : ℕ) (qs : List (PoolTransaction T))
      → pool.inner ≡ qs
      → batch_txs (take_head s pool n qs).1 ++ txs_of (take_head s pool n qs).0.inner ≡ txs_of qs
  unfolding take_head
  take_head-append s pool n [] e = rw e
  take_head-append s pool n (q ∷ qs) e =
      ap (◌∷◌ q.transaction)
        (take_loop-append s (is_impersonating s (t.initiator_account q.transaction)) (n - 1) qs)

  -- The batch's transactions, if there is a batch, and then those that stay are the pool's.
  pub take_uniform-append :
      (s : ImpersonationState) (pool : TxPool T L) (n : ℕ)
      → batch_txs (take_uniform s pool n).1 ++ txs_of (take_uniform s pool n).0.inner
        ≡ txs_of pool.inner
  unfolding take_uniform
  take_uniform-append s pool n = elim (Bool-cases (n == 0)) [
    | inl e ↦ rw e
    | inr e ↦ rw e (take_head-append s pool n pool.inner refl)
  ]
