-- ===== src/Node/Pool/Take.antt =====
-- `take_uniform` of crates/core/src/node/pool.rs: which transactions make up a batch.
use anvil_zksync.Base.{
  ℕ, suc, zero, ◌-◌, ◌≤◌, ◌<◌, ◌≡◌, ◌≢◌, ◌==◌, refl, ◌∙◌, ap, subst, Bool, true, false, List, [],
  ◌∷◌, ◌++◌, none, some, All, arith, length, ◌⊎◌, inl, inr, Bool-cases,
}
use anvil_zksync.Node.Impersonate.{ImpersonationState, is_impersonating}
use anvil_zksync.Node.Pool.{
  PoolTransaction, TxPool, TxBatch, Transaction, txs_of, take_loop, take_head, take_uniform, same,
}
use anvil_zksync.Node.Pool.Order.{IsOrdered, Before, Descending}

same-true : (b c : Bool) → same b c ≡ true → c ≡ b
same-true true c h = h
same-true false c h = ground arith

same-false : (b c : Bool) → same b c ≡ false → c ≢ b
same-false true c h = ground arith
same-false false c h = ground arith

module _ {T : Type 0} ⦃t : Transaction T⦄ where
  abbrev pub HasStatus : ImpersonationState → Bool → T → Type 0
  HasStatus s b tx = is_impersonating s (t.initiator_account tx) ≡ b

  -- The set is used up, or its next transaction has the other status.
  abbrev pub Stops : ImpersonationState → Bool → List (PoolTransaction T) → Type 0
  Stops s b [] = Unit {0}
  Stops s b (p ∷ ps) = is_impersonating s (t.initiator_account p.transaction) ≢ b

  -- `taken` and `left` are what a batch of at most `n` makes of the set `qs`.
  pub record Splits (s : ImpersonationState) (b : Bool) (n : ℕ)
      (qs taken left : List (PoolTransaction T)) : Type 0 where
    pub whole : qs ≡ taken ++ left
    pub uniform : All (HasStatus s b) (txs_of taken)
    pub small : length taken ≤ n
    pub maximal : (length taken ≡ n) ⊎ Stops s b left

  take_loop-Splits :
      (s : ImpersonationState) (b : Bool) (k : ℕ) (qs : List (PoolTransaction T))
      → (taken : List (PoolTransaction T)) × ((take_loop s b k qs).0 ≡ txs_of taken)
        × Splits s b k qs taken (take_loop s b k qs).1
  unfolding take_loop
  take_loop-Splits s b zero qs =
      ([], refl, record { whole = refl; uniform = tt; small = omega arith; maximal = inl refl })
  take_loop-Splits s b (suc k) [] =
      ([], refl, record { whole = refl; uniform = tt; small = omega arith; maximal = inr tt })
  take_loop-Splits s b (suc k) (q ∷ qs) =
      let status = is_impersonating s (t.initiator_account q.transaction) in
      let (taken, e, v) = take_loop-Splits s b k qs in
      elim (Bool-cases (same b status)) [
        | inl h ↦ (
          q ∷ taken,
          rw h (ap (◌∷◌ q.transaction) e),
          rw h (record {
            whole = ap (◌∷◌ q) v.whole;
            uniform = (same-true b status h, v.uniform);
            small = omega (arith, v.small);
            maximal = longer taken (take_loop s b k qs).1 v.maximal;
          }),
        )
        | inr h ↦ (
          [],
          rw h refl,
          rw h (record {
            whole = refl;
            uniform = tt;
            small = omega arith;
            maximal = inr (same-false b status h);
          }),
        )
      ]
    where
      longer :
          (taken left : List (PoolTransaction T))
          → (length taken ≡ k) ⊎ Stops s b left
          → (suc (length taken) ≡ suc k) ⊎ Stops s b left
      longer taken left (inl h) = inl (ap suc h)
      longer taken left (inr h) = inr h

  -- The taken transactions rank before all that are left.
  abbrev pub RanksBefore : List (PoolTransaction T) → List (PoolTransaction T) → Type 0
  RanksBefore taken left = All (λ p. All (Before p) left) taken

  All-append_right {ℓ} :
      (P : PoolTransaction T → Type ℓ) (ps qs : List (PoolTransaction T))
      → All P (ps ++ qs)
      → All P qs
  All-append_right P [] qs h = h
  All-append_right P (p ∷ ps) qs h = All-append_right P ps qs h.1

  Descending-RanksBefore :
      (taken left : List (PoolTransaction T)) → Descending (taken ++ left) → RanksBefore taken left
  Descending-RanksBefore [] left d = tt
  Descending-RanksBefore (p ∷ ps) left d =
      (All-append_right (Before p) ps left d.0, Descending-RanksBefore ps left d.1)

-- What `take_uniform` promises of a pool that is not empty and a limit that is not zero.
pub record Takes {T L : Type 0} ⦃t : Transaction T⦄ (s : ImpersonationState) (pool : TxPool T L)
    (n : ℕ) (pool' : TxPool T L) (batch : TxBatch T) (taken : List (PoolTransaction T))
    : Type 0 where
  pub txs : batch.txs ≡ txs_of taken
  pub split : Splits s batch.impersonating n pool.inner taken pool'.inner
  pub nonempty : 0 < length taken
  pub ranked : RanksBefore taken pool'.inner
  pub kept : pool' ≡ record pool { inner = pool'.inner }

module _ {T L : Type 0} ⦃t : Transaction T⦄ where
  take_head-Takes :
      (s : ImpersonationState) (pool : TxPool T L) (n : ℕ) (qs : List (PoolTransaction T))
      → 0 < n
      → qs ≢ []
      → pool.inner ≡ qs
      → Descending qs
      → (batch : TxBatch T) × (taken : List (PoolTransaction T)) × ((take_head s pool n qs).1
          ≡ some batch)
        × Takes s pool n (take_head s pool n qs).0 batch taken
  unfolding take_head
  take_head-Takes s pool n [] h k e d = absurd (k refl)
  take_head-Takes s pool n (q ∷ qs) h k e d =
      let b = is_impersonating s (t.initiator_account q.transaction) in
      let (taken, f, v) = take_loop-Splits s b (n - 1) qs in
      let left = (take_loop s b (n - 1) qs).1 in
      let whole : q ∷ qs ≡ q ∷ taken ++ left = ap (◌∷◌ q) v.whole in
      (
        record { impersonating = b; txs = q.transaction ∷ (take_loop s b (n - 1) qs).0 },
        q ∷ taken,
        refl,
        record {
          txs = ap (◌∷◌ q.transaction) f;
          split = record {
            whole = e ∙ whole;
            uniform = (refl, v.uniform);
            small = omega (arith, v.small);
            maximal = longer b taken left v.maximal;
          };
          nonempty = omega arith;
          ranked = Descending-RanksBefore (q ∷ taken) left (subst Descending whole d);
          kept = refl;
        },
      )
    where
      longer :
          (b : Bool) (taken left : List (PoolTransaction T))
          → (length taken ≡ n - 1) ⊎ Stops s b left
          → (suc (length taken) ≡ n) ⊎ Stops s b left
      longer b taken left (inl m) = inl (omega arith)
      longer b taken left (inr m) = inr m

  -- For a limit above zero and a pool in order that is not empty, `take_uniform` returns a batch of
  -- at least one transaction and at most `n`. The batch is the front of the set, and the rest of
  -- the set stays; every transaction of the batch has the batch's impersonation status; every
  -- one of them ranks before all that stay; and the batch could be no longer: it has `n`
  -- transactions, or the set is used up, or the next transaction has the other status.
  pub take_uniform-Takes :
      (s : ImpersonationState) (pool : TxPool T L) (n : ℕ)
      → 0 < n
      → pool.inner ≢ []
      → IsOrdered pool
      → (batch : TxBatch T) × (taken : List (PoolTransaction T)) × ((take_uniform s pool n).1
          ≡ some batch)
        × Takes s pool n (take_uniform s pool n).0 batch taken
  unfolding take_uniform
  take_uniform-Takes s pool n h k v = elim (Bool-cases (n == 0)) [
    | inl e ↦ absurd (ground arith)
    | inr e ↦ rw e (take_head-Takes s pool n pool.inner h k refl v.descending)
  ]

  take_head_empty :
      (s : ImpersonationState) (pool : TxPool T L) (n : ℕ) (qs : List (PoolTransaction T))
      → qs ≡ []
      → take_head s pool n qs ≡ (pool, none)
  unfolding take_head
  take_head_empty s pool n [] e = refl
  take_head_empty s pool n (q ∷ qs) e = cc

  -- A limit of zero, or an empty pool, gives no batch, and the pool stays as it was.
  pub take_uniform-none :
      (s : ImpersonationState) (pool : TxPool T L) (n : ℕ)
      → (n ≡ 0) ⊎ (pool.inner ≡ [])
      → take_uniform s pool n ≡ (pool, none)
  unfolding take_uniform
  take_uniform-none s pool n (inl e) = rw e
  take_uniform-none s pool n (inr e) = elim (Bool-cases (n == 0)) [
    | inl f ↦ rw f
    | inr f ↦ rw f (take_head_empty s pool n pool.inner e)
  ]
