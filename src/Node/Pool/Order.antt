-- ===== src/Node/Pool/Order.antt =====
-- The order of the set in crates/core/src/node/pool.rs, and that each call keeps it.
use Prim.Native.Nat.{Ordering}
use anvil_zksync.Base.{
  ℕ, suc, zero, ◌+◌, ◌-◌, ◌≤◌, ◌<◌, ◌≡◌, ◌==◌, Bool, not, List, [], ◌∷◌, keep_if, All, arith, ◌⊎◌,
  inl, inr, Bool-cases,
}
use anvil_zksync.Base.Words.{u64_max}
use anvil_zksync.Node.Impersonate.{ImpersonationState}
use anvil_zksync.Node.Pool.{
  PoolTransaction, TxPool, TransactionOrder, Transaction, Sender, cmp, insert_tx, take_loop,
  take_head, new, clear, drop_transactions, add_tx, take_uniform,
}

-- `p` is the greater: it has the higher priority, or it was submitted earlier at the same one.
abbrev pub Before : {T : Type 0} → PoolTransaction T → PoolTransaction T → Type 0
Before p q =
    (q.priority < p.priority)
    ⊎ ((q.priority ≡ p.priority) × (p.submission_number < q.submission_number))

abbrev pub Descending : {T : Type 0} → List (PoolTransaction T) → Type 0
Descending [] = Unit
Descending (p ∷ qs) = All (Before p) qs × Descending qs

-- Each submission number of the set lies between 1 and the counter.
abbrev pub Numbered : {T : Type 0} → ℕ → List (PoolTransaction T) → Type 0
Numbered n = All (λ p. p.submission_number ≤ n)

pub record IsOrdered {T L : Type 0} (pool : TxPool T L) : Type 0 where
  pub descending : Descending pool.inner
  pub numbered : Numbered pool.submission_number pool.inner

module _ {T : Type 0} where
  Before-trans : (p q r : PoolTransaction T) → Before p q → Before q r → Before p r
  Before-trans p q r h k = omega arith

  All-Before_trans :
      (p q : PoolTransaction T) (rs : List (PoolTransaction T))
      → Before p q
      → All (Before q) rs
      → All (Before p) rs
  All-Before_trans p q [] h k = tt
  All-Before_trans p q (r ∷ rs) h k = (Before-trans p q r h k.0, All-Before_trans p q rs h k.1)

  pub cmp-gt : (p q : PoolTransaction T) → cmp p q ≡ Ordering.gt → Before p q
  unfolding cmp
  cmp-gt p q h = ground arith

  pub cmp-lt : (p q : PoolTransaction T) → cmp p q ≡ Ordering.lt → Before q p
  unfolding cmp
  cmp-lt p q h = ground arith

  cmp-cases :
      (p q : PoolTransaction T)
      → (cmp p q ≡ Ordering.gt) ⊎ ((cmp p q ≡ Ordering.eq) ⊎ (cmp p q ≡ Ordering.lt))
  unfolding cmp
  cmp-cases p q = ground arith

  pub All-insert_tx {ℓ} :
      (P : PoolTransaction T → Type ℓ) (p : PoolTransaction T) (qs : List (PoolTransaction T))
      → P p
      → All P qs
      → All P (insert_tx p qs)
  unfolding insert_tx
  All-insert_tx P p [] h k = (h, tt)
  All-insert_tx P p (q ∷ qs) h k = elim (cmp-cases p q) [
    | inl e ↦ rw (e, insert_tx) (h, k)
    | inr (inl e) ↦ rw (e, insert_tx) k
    | inr (inr e) ↦ rw (e, insert_tx) (k.0, All-insert_tx P p qs h k.1)
  ]

  pub insert_tx-Descending :
      (p : PoolTransaction T) (qs : List (PoolTransaction T))
      → Descending qs
      → Descending (insert_tx p qs)
  unfolding insert_tx
  insert_tx-Descending p [] d = (tt, tt)
  insert_tx-Descending p (q ∷ qs) d = elim (cmp-cases p q) [
    | inl e ↦ rw (e, insert_tx) ((cmp-gt p q e, All-Before_trans p q qs (cmp-gt p q e) d.0), d)
    | inr (inl e) ↦ rw (e, insert_tx) d
    | inr (inr e) ↦
        rw (e, insert_tx)
          (All-insert_tx (Before q) p qs (cmp-lt p q e) d.0, insert_tx-Descending p qs d.1)
  ]

  pub All-keep_if {ℓ} :
      (P : PoolTransaction T → Type ℓ) (f : PoolTransaction T → Bool)
      (qs : List (PoolTransaction T))
      → All P qs
      → All P (keep_if f qs)
  All-keep_if P f [] h = tt
  All-keep_if P f (q ∷ qs) h = elim (Bool-cases (f q)) [
    | inl e ↦ rw e (h.0, All-keep_if P f qs h.1)
    | inr e ↦ rw e (All-keep_if P f qs h.1)
  ]

  pub keep_if-Descending :
      (f : PoolTransaction T → Bool) (qs : List (PoolTransaction T))
      → Descending qs
      → Descending (keep_if f qs)
  keep_if-Descending f [] d = tt
  keep_if-Descending f (q ∷ qs) d = elim (Bool-cases (f q)) [
    | inl e ↦ rw e (All-keep_if (Before q) f qs d.0, keep_if-Descending f qs d.1)
    | inr e ↦ rw e (keep_if-Descending f qs d.1)
  ]

  Numbered-mono : (m n : ℕ) (qs : List (PoolTransaction T)) → m ≤ n → Numbered m qs → Numbered n qs
  Numbered-mono m n [] h k = tt
  Numbered-mono m n (q ∷ qs) h k = (omega arith, Numbered-mono m n qs h k.1)

module _ {T L : Type 0} where
  pub new-IsOrdered : (order : TransactionOrder) → IsOrdered (new {T = T} {L = L} order)
  unfolding new
  new-IsOrdered order = record { descending = tt; numbered = tt }

  pub clear-IsOrdered : (pool : TxPool T L) → IsOrdered pool → IsOrdered (clear pool)
  unfolding clear
  clear-IsOrdered pool v = record { descending = tt; numbered = tt }

  pub drop_transactions-IsOrdered :
      (pool : TxPool T L) (f : PoolTransaction T → Bool)
      → IsOrdered pool
      → IsOrdered (drop_transactions pool f).0
  unfolding drop_transactions
  drop_transactions-IsOrdered pool f v = record {
    descending = keep_if-Descending (λ p. not (f p)) pool.inner v.descending;
    numbered = All-keep_if _ (λ p. not (f p)) pool.inner v.numbered;
  }

module _ {T L : Type 0} ⦃t : Transaction T⦄ ⦃c : Sender L⦄ where
  pub add_tx-number :
      (pool : TxPool T L) (tx : T)
      → pool.submission_number < u64_max
      → (add_tx pool tx).submission_number ≡ pool.submission_number + 1
  unfolding add_tx
  add_tx-number pool tx h = omega arith

  pub add_tx-IsOrdered :
      (pool : TxPool T L) (tx : T)
      → pool.submission_number < u64_max
      → IsOrdered pool
      → IsOrdered (add_tx pool tx)
  unfolding add_tx
  add_tx-IsOrdered pool tx h v = record {
    descending = insert_tx-Descending _ pool.inner v.descending;
    numbered =
        All-insert_tx _ _ pool.inner (omega arith)
          (Numbered-mono pool.submission_number _ pool.inner (omega arith) v.numbered);
  }

module _ {T : Type 0} ⦃t : Transaction T⦄ where
  pub take_loop-Descending :
      (s : ImpersonationState) (b : Bool) (k : ℕ) (qs : List (PoolTransaction T))
      → Descending qs
      → Descending (take_loop s b k qs).1
  unfolding take_loop
  take_loop-Descending s b zero qs d = d
  take_loop-Descending s b (suc k) [] d = tt
  take_loop-Descending s b (suc k) (q ∷ qs) d = ground (arith, take_loop-Descending s b k qs d.1)

  pub All-take_loop {ℓ} :
      (P : PoolTransaction T → Type ℓ) (s : ImpersonationState) (b : Bool) (k : ℕ)
      (qs : List (PoolTransaction T))
      → All P qs
      → All P (take_loop s b k qs).1
  unfolding take_loop
  All-take_loop P s b zero qs d = d
  All-take_loop P s b (suc k) [] d = tt
  All-take_loop P s b (suc k) (q ∷ qs) d = ground (arith, All-take_loop P s b k qs d.1)

module _ {T L : Type 0} ⦃t : Transaction T⦄ where
  take_head-IsOrdered :
      (s : ImpersonationState) (pool : TxPool T L) (n : ℕ) (qs : List (PoolTransaction T))
      → Descending qs
      → Numbered pool.submission_number qs
      → IsOrdered pool
      → IsOrdered (take_head s pool n qs).0
  unfolding take_head
  take_head-IsOrdered s pool n [] d k v = v
  take_head-IsOrdered s pool n (q ∷ qs) d k v = record {
    descending = take_loop-Descending s _ (n - 1) qs d.1;
    numbered = All-take_loop _ s _ (n - 1) qs k.1;
  }

  pub take_uniform-IsOrdered :
      (s : ImpersonationState) (pool : TxPool T L) (n : ℕ)
      → IsOrdered pool
      → IsOrdered (take_uniform s pool n).0
  unfolding take_uniform
  take_uniform-IsOrdered s pool n v = elim (Bool-cases (n == 0)) [
    | inl e ↦ rw e v
    | inr e ↦ rw e (take_head-IsOrdered s pool n pool.inner v.descending v.numbered v)
  ]
