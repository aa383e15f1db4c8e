-- ===== src/Node/Mining/Batched.antt =====
-- `mine_blocks` of crates/core/src/node/in_memory_ext.rs takes its batches off the front of the
-- pool, and asks for none that would share a timestamp.
use anvil_zksync.Base.{
  ℕ, zero, suc, ◌<◌, ◌≡◌, refl, ap, sym, subst, ◌∙◌, ◌⊎◌, inl, inr, ◌&&◌, List, [], ◌∷◌, ◌++◌,
  append_assoc, Option, none, some, if◌then◌else◌, ltb, ◌==◌, length, arith,
}
use anvil_zksync.Node.Impersonate.{ImpersonationState}
use anvil_zksync.Node.Pool.{Transaction, PoolTransaction, TxPool, TxBatch, txs_of, take_uniform}
use anvil_zksync.Node.Pool.Order.{IsOrdered, take_uniform-IsOrdered}
use anvil_zksync.Node.Pool.Take.{Takes, take_uniform-Takes, take_uniform-none}
use anvil_zksync.Node.Sealer.{batch_or_empty, empty_batch}
use anvil_zksync.Node.Pool.Split.{batch_txs, take_uniform-append}
use anvil_zksync.Node.Mining.{
  nothing, same_timestamp_error, seal_blocks, mine_batch, mine_batches, mine_blocks,
}

abbrev pub all_txs : {T : Type 0} → List (TxBatch T) → List T
all_txs [] = []
all_txs (batch ∷ batches) = batch.txs ++ all_txs batches

batch_or_empty-txs : {T : Type 0} (o : Option (TxBatch T)) → (batch_or_empty o).txs ≡ batch_txs o
batch_or_empty-txs none = refl
batch_or_empty-txs (some batch) = refl

-- The third branch of `mine_blocks`.
not_refused :
    {A : Type 0} (n interval : ℕ) (a b c : A)
    → 0 < n
    → (n ≡ 1) ⊎ (0 < interval)
    → (if n == 0 then a else if ltb 1 n && (interval == 0) then b else c) ≡ c
not_refused n interval a b c h (inl e) = ground arith
not_refused n interval a b c h (inr l) = ground arith

module _ {T L : Type 0} ⦃t : Transaction T⦄ where
  -- An empty pool gives the empty batch; any other gives up the longest batch that its front allows.
  abbrev pub Mines : ImpersonationState → ℕ → TxPool T L → TxBatch T → TxPool T L → Type 0
  Mines s max pool batch pool' =
      ((pool.inner ≡ []) × (batch ≡ empty_batch) × (pool' ≡ pool))
      ⊎ ((taken : List (PoolTransaction T)) × Takes s pool max pool' batch taken)

  -- The batches are mined one after the other.
  abbrev pub AllMined : ImpersonationState → ℕ → TxPool T L → List (TxBatch T) → TxPool T L → Type 0
  AllMined s max pool [] pool' = pool' ≡ pool
  AllMined s max pool (batch ∷ batches) pool' =
      (next : TxPool T L) × Mines s max pool batch next × AllMined s max next batches pool'

  mine_batch-Mines :
      (s : ImpersonationState) (pool : TxPool T L) (max : ℕ)
      → 0 < max
      → IsOrdered pool
      → Mines s max pool (mine_batch s pool max).1 (mine_batch s pool max).0
  unfolding mine_batch
  mine_batch-Mines s pool max h v = go pool.inner refl
    where
      go :
          (qs : List (PoolTransaction T))
          → pool.inner ≡ qs
          → Mines s max pool
              (batch_or_empty (take_uniform s pool max).1)
              (take_uniform s pool max).0
      go [] e =
          let idle = take_uniform-none s pool max (inr e) in
          inl (
            e,
            ap (λ (r : TxPool T L × Option (TxBatch T)). batch_or_empty r.1) idle,
            ap (λ (r : TxPool T L × Option (TxBatch T)). r.0) idle,
          )
      go (q ∷ qs) e =
          let took = take_uniform-Takes s pool max h (λ f. cc (e, f)) v in
          inr (
            took.1,
            subst (λ o. Takes s pool max (take_uniform s pool max).0 (batch_or_empty o) took.1)
                (sym took.2) took.3,
          )

  mine_batches-AllMined :
      (s : ImpersonationState) (pool : TxPool T L) (max k : ℕ)
      → 0 < max
      → IsOrdered pool
      → AllMined s max pool (mine_batches s pool max k).1 (mine_batches s pool max k).0
  unfolding mine_batches mine_batch
  mine_batches-AllMined s pool max zero h v = refl
  mine_batches-AllMined s pool max (suc k) h v = (
    (mine_batch s pool max).0,
    mine_batch-Mines s pool max h v,
    mine_batches-AllMined s (mine_batch s pool max).0 max k h (take_uniform-IsOrdered s pool max v),
  )

  mine_batch-append :
      (s : ImpersonationState) (pool : TxPool T L) (n : ℕ)
      → (mine_batch s pool n).1.txs ++ txs_of (mine_batch s pool n).0.inner ≡ txs_of pool.inner
  unfolding mine_batch
  mine_batch-append s pool n =
      rw (batch_or_empty-txs (take_uniform s pool n).1) (take_uniform-append s pool n)

  mine_batches-append :
      (s : ImpersonationState) (pool : TxPool T L) (n k : ℕ)
      → (all_txs (mine_batches s pool n k).1 ++ txs_of (mine_batches s pool n k).0.inner
          ≡ txs_of pool.inner)
        × (length (mine_batches s pool n k).1 ≡ k)
  unfolding mine_batches
  mine_batches-append s pool n zero = (refl, refl)
  mine_batches-append s pool n (suc k) =
      let first = mine_batch s pool n in
      let (rest, count) = mine_batches-append s first.0 n k in
      (
        append_assoc first.1.txs _ _ ∙ ap (◌++◌ first.1.txs) rest ∙ mine_batch-append s pool n,
        ap suc count,
      )

  -- Of an ordered pool, with a limit on a batch that is not zero: a request for `n` blocks, with at
  -- least one second between any two, takes `n` batches off the front of the pool. While the pool is
  -- not empty each of them is the longest prefix of one impersonation status within the limit, and
  -- once it is empty they are empty; their transactions, one batch after the other, and those that
  -- stay are the pool's, in its order. A request for several blocks with no time between them is
  -- refused, and one for no blocks does nothing; neither touches the pool.
  pub mine_blocks_lem :
      (s : ImpersonationState) (pool : TxPool T L) (max n interval : ℕ)
      → 0 < max
      → IsOrdered pool
      → (0 < n
          → (n ≡ 1) ⊎ (0 < interval)
          → (batches : List (TxBatch T)) × (pool' : TxPool T L) × (mine_blocks s pool max
                (some n)
                (some interval)
              ≡ (pool', seal_blocks batches interval))
            × AllMined s max pool batches pool'
            × (all_txs batches ++ txs_of pool'.inner ≡ txs_of pool.inner)
            × (length batches ≡ n))
        × (1 < n → mine_blocks s pool max (some n) (some 0) ≡ (pool, same_timestamp_error n))
        × (mine_blocks s pool max (some 0) (some interval) ≡ (pool, nothing))
  unfolding mine_blocks
  mine_blocks_lem s pool max n interval small v = (
    λ h k.
        let mined = mine_batches s pool max n in
        let (append, count) = mine_batches-append s pool max n in
        (
          mined.1,
          mined.0,
          not_refused n interval _ _ _ h k,
          mine_batches-AllMined s pool max n small v,
          append,
          count,
        ),
    λ h. ground (arith, h),
    refl,
  )
