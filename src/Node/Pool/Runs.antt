-- ===== src/Node/Pool/Runs.antt =====
-- Sequences of calls of the pool of crates/core/src/node/pool.rs.
use anvil_zksync.Base.{
  ℕ, suc, ◌+◌, ◌≤◌, ◌≡◌, refl, Bool, false, not, List, [], ◌∷◌, ◌++◌, reverse, true, arith, keep_if,
  Bool-cases, inl, inr, ◌==◌, All,
}
use anvil_zksync.Base.Words.{u64_max}
use mathlib.Core.List.{Perm, perm_middle}
use mathlib.Core.List.Perm
use anvil_zksync.Node.Impersonate.{ImpersonationState}
use anvil_zksync.Node.Pool.{
  PoolTransaction, TxPool, TransactionOrder, Transaction, Sender, txs_of, new, clear,
  drop_transactions, add_tx, take_uniform, take_head,
}
use anvil_zksync.Node.Pool.Order.{
  IsOrdered, new-IsOrdered, clear-IsOrdered, drop_transactions-IsOrdered, add_tx-IsOrdered,
  add_tx-number, take_uniform-IsOrdered,
}

pub data Call (T : Type 0) : Type 0 where
  add : T → Call T
  drop_matching : (PoolTransaction T → Bool) → Call T
  clear_all : Call T
  take_batch : ImpersonationState → ℕ → Call T

-- How many transactions the calls submit.
abbrev pub submissions : {T : Type 0} → List (Call T) → ℕ
submissions [] = 0
submissions (add tx ∷ cs) = suc (submissions cs)
submissions (drop_matching f ∷ cs) = submissions cs
submissions (clear_all ∷ cs) = submissions cs
submissions (take_batch s n ∷ cs) = submissions cs

module _ {T L : Type 0} ⦃t : Transaction T⦄ ⦃c : Sender L⦄ where
  unfoldable pub run : TxPool T L → List (Call T) → TxPool T L
  run pool [] = pool
  run pool (add tx ∷ cs) = run (add_tx pool tx) cs
  run pool (drop_matching f ∷ cs) = run (drop_transactions pool f).0 cs
  run pool (clear_all ∷ cs) = run (clear pool) cs
  run pool (take_batch s n ∷ cs) = run (take_uniform s pool n).0 cs

  take_uniform-number :
      (s : ImpersonationState) (pool : TxPool T L) (n : ℕ)
      → (take_uniform s pool n).0.submission_number ≡ pool.submission_number
  unfolding take_uniform
  take_uniform-number s pool n = elim (Bool-cases (n == 0)) [
    | inl e ↦ rw e
    | inr e ↦ rw e (of_head pool.inner)
  ]
    where
      of_head :
          (qs : List (PoolTransaction T))
          → (take_head s pool n qs).0.submission_number ≡ pool.submission_number
      of_head [] = refl
      of_head (q ∷ qs) = refl

  run-IsOrdered_from :
      (pool : TxPool T L) (cs : List (Call T))
      → pool.submission_number + submissions cs ≤ u64_max
      → IsOrdered pool
      → IsOrdered (run pool cs)
  unfolding run
  run-IsOrdered_from pool [] h v = v
  run-IsOrdered_from pool (add tx ∷ cs) h v =
      run-IsOrdered_from (add_tx pool tx) cs (omega (arith, add_tx-number pool tx (omega arith)))
        (add_tx-IsOrdered pool tx (omega arith) v)
  run-IsOrdered_from pool (drop_matching f ∷ cs) h v =
      run-IsOrdered_from (drop_transactions pool f).0 cs (unfold drop_transactions in h)
        (drop_transactions-IsOrdered pool f v)
  run-IsOrdered_from pool (clear_all ∷ cs) h v =
      run-IsOrdered_from (clear pool) cs (unfold clear in h) (clear-IsOrdered pool v)
  run-IsOrdered_from pool (take_batch s n ∷ cs) h v =
      run-IsOrdered_from (take_uniform s pool n).0 cs (rw (take_uniform-number s pool n) h)
        (take_uniform-IsOrdered s pool n v)

  -- After any calls on a new pool that submit fewer than 2^64 transactions, the set is strictly
  -- descending: by priority, and at one priority by the time of submission.
  pub run-IsOrdered :
      (order : TransactionOrder) (cs : List (Call T))
      → submissions cs ≤ u64_max
      → IsOrdered {T = T} {L = L} (run (new order) cs)
  run-IsOrdered order cs h =
      run-IsOrdered_from (new order) cs (unfold new in omega arith) (new-IsOrdered order)

-- What `keep_if` takes out and what it leaves are together the whole.
keep_if-perm :
    {A : Type 0} (f : A → Bool) (qs : List A)
    → Perm (keep_if f qs ++ keep_if (λ p. not (f p)) qs) qs
keep_if-perm f [] = Perm.refl []
keep_if-perm f (q ∷ qs) = elim (Bool-cases (f q)) [
  | inl e ↦ rw e (Perm.cons q (keep_if-perm f qs))
  | inr e ↦ rw e (Perm.trans (perm_middle (keep_if f qs) _) (Perm.cons q (keep_if-perm f qs)))
]

keep_if-matched : {A : Type 0} (f : A → Bool) (qs : List A) → All (λ p. f p ≡ true) (keep_if f qs)
keep_if-matched f [] = tt
keep_if-matched f (q ∷ qs) = elim (Bool-cases (f q)) [
  | inl e ↦ rw e (e, keep_if-matched f qs)
  | inr e ↦ rw e (keep_if-matched f qs)
]

keep_if-unmatched :
    {A : Type 0} (f : A → Bool) (qs : List A) → All (λ p. f p ≡ false) (keep_if (λ p. not (f p)) qs)
keep_if-unmatched f [] = tt
keep_if-unmatched f (q ∷ qs) = elim (Bool-cases (f q)) [
  | inl e ↦ rw e (keep_if-unmatched f qs)
  | inr e ↦ rw e (e, keep_if-unmatched f qs)
]

module _ {T L : Type 0} where
  -- `drop_transactions` splits the pool: it returns the transactions of pool entries that all match,
  -- last first, keeps entries that all do not match, and these entries together are those of the
  -- pool, each as often.
  pub drop_transactions-perm :
      (pool : TxPool T L) (f : PoolTransaction T → Bool)
      → (gone : List (PoolTransaction T)) × ((drop_transactions pool f).1 ≡ reverse (txs_of gone))
        × All (λ p. f p ≡ true) gone
        × All (λ p. f p ≡ false) (drop_transactions pool f).0.inner
        × Perm (gone ++ (drop_transactions pool f).0.inner) pool.inner
  unfolding drop_transactions
  drop_transactions-perm pool f = (
    keep_if f pool.inner,
    refl,
    keep_if-matched f pool.inner,
    keep_if-unmatched f pool.inner,
    keep_if-perm f pool.inner,
  )
