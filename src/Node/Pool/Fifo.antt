-- ===== src/Node/Pool/Fifo.antt =====
-- The submission order of crates/core/src/node/pool.rs under `TransactionOrder::Fifo`.
use Prim.Native.Nat.{Ordering}
use anvil_zksync.Base.{
  ℕ, ◌+◌, ◌≤◌, ◌<◌, ◌≡◌, refl, sym, ◌∙◌, ap, List, [], ◌∷◌, ◌++◌, All, arith, length, append_assoc,
  append-nil,
}
use anvil_zksync.Base.Words.{u64_max}
use anvil_zksync.Node.Pool.{
  PoolTransaction, TxPool, fifo, Transaction, Sender, cmp, insert_tx, txs_of, add_tx, add_txs,
  priority_of,
}
use anvil_zksync.Node.Pool.Order.{
  IsOrdered, Numbered, add_tx-IsOrdered, add_tx-number, All-insert_tx,
}

-- Nothing in the pool has a priority, as it is when the pool was made with `Fifo`.
pub record IsFifo {T L : Type 0} (pool : TxPool T L) : Type 0 where
  pub order : pool.transaction_order ≡ fifo
  pub unranked : All (λ p. p.priority ≡ 0) pool.inner
  pub ordered : IsOrdered pool

module _ {T : Type 0} where
  cmp-later :
      (p q : PoolTransaction T)
      → p.priority ≡ 0
      → q.priority ≡ 0
      → q.submission_number < p.submission_number
      → cmp p q ≡ Ordering.lt
  unfolding cmp
  cmp-later p q hp hq h = ground arith

  insert_tx_last :
      (p : PoolTransaction T) (n : ℕ) (qs : List (PoolTransaction T))
      → p.priority ≡ 0
      → n < p.submission_number
      → All (λ q. q.priority ≡ 0) qs
      → Numbered n qs
      → insert_tx p qs ≡ qs ++ p ∷ []
  unfolding insert_tx
  insert_tx_last p n [] hp h a b = refl
  insert_tx_last p n (q ∷ qs) hp h a b =
      rw (cmp-later p q hp a.0 (omega arith), insert_tx)
        (ap (◌∷◌ q) (insert_tx_last p n qs hp h a.1 b.1))

  txs_of-append : (ps qs : List (PoolTransaction T)) → txs_of (ps ++ qs) ≡ txs_of ps ++ txs_of qs
  txs_of-append [] qs = refl
  txs_of-append (p ∷ ps) qs = ap (◌∷◌ p.transaction) (txs_of-append ps qs)

module _ {T L : Type 0} ⦃t : Transaction T⦄ ⦃c : Sender L⦄ where
  add_tx-inner :
      (pool : TxPool T L) (tx : T)
      → pool.submission_number < u64_max
      → IsFifo pool
      → txs_of (add_tx pool tx).inner ≡ txs_of pool.inner ++ tx ∷ []
  unfolding add_tx priority_of
  add_tx-inner pool tx h v =
      ap txs_of (
        insert_tx_last _ pool.submission_number pool.inner (ground (arith, v.order)) (omega arith)
          v.unranked v.ordered.numbered)
      ∙ txs_of-append pool.inner _

  add_tx-IsFifo :
      (pool : TxPool T L) (tx : T)
      → pool.submission_number < u64_max
      → IsFifo pool
      → IsFifo (add_tx pool tx)
  add_tx-IsFifo pool tx h v = record {
    order = unfold add_tx in v.order;
    unranked =
        unfold add_tx priority_of in
        All-insert_tx _ _ pool.inner (ground (arith, v.order)) v.unranked;
    ordered = add_tx-IsOrdered pool tx h v.ordered;
  }

  -- With the order `Fifo`, and while the submission counter does not wrap around, transactions join
  -- the pool behind all earlier ones, in the order in which they are given.
  pub add_txs_lem :
      (pool : TxPool T L) (txs : List T)
      → pool.submission_number + length txs ≤ u64_max
      → IsFifo pool
      → (txs_of (add_txs pool txs).inner ≡ txs_of pool.inner ++ txs) × IsFifo (add_txs pool txs)
  unfolding add_txs
  add_txs_lem pool [] h v = (sym (append-nil (txs_of pool.inner)), v)
  add_txs_lem pool (tx ∷ txs) h v =
      let (e, w) =
        add_txs_lem (add_tx pool tx) txs (omega (arith, add_tx-number pool tx (omega arith)))
          (add_tx-IsFifo pool tx (omega arith) v) in
      (
        e
            ∙ ap (λ l. l ++ txs) (add_tx-inner pool tx (omega arith) v)
            ∙ append_assoc (txs_of pool.inner) (tx ∷ []) txs,
        w,
      )
