-- ===== src/Node/Sealer/Polls.antt =====
-- The polls of crates/core/src/node/sealer.rs end, and are ready exactly if there is a batch.
use anvil_zksync.Base.{
  ℕ, zero, suc, ◌<◌, ◌≡◌, refl, inl, inr, Bool, true, false, none, some, arith, Bool-cases,
  Option-cases,
}
use anvil_zksync.Node.Impersonate.{ImpersonationState}
use anvil_zksync.Node.Pool.{Transaction, TxPool, TxBatch, take_uniform}
use anvil_zksync.Node.Sealer.{Receiver, ImmediateBlockSealer, pending, ready, drain, poll_immediate}

-- What the futures crate documents of its channel: a received hash leaves the channel, and a
-- channel without one stays so while nothing is sent.
pub record ChannelLaws (X : Type 0) ⦃r : Receiver X⦄ : Type 0 where
  pub leaves :
      (x : X) (h : ℕ) → (r.poll_next x).1 ≡ some h → r.queued (r.poll_next x).0 < r.queued x
  pub stays : (x : X) → (r.poll_next x).1 ≡ none → (r.poll_next (r.poll_next x).0).1 ≡ none

module _ {X : Type 0} ⦃r : Receiver X⦄ where
  -- With more fuel than hashes the channel is emptied.
  drain-empties :
      (k : ChannelLaws X) (n : ℕ) (x : X)
      → r.queued x < n
      → (d : X × Bool) × (drain n x ≡ some d) × ((r.poll_next d.0).1 ≡ none)
  unfolding drain
  drain-empties k zero x h = elim h [ ]
  drain-empties k (suc n) x h = elim (Option-cases (r.poll_next x).1) [
    | inl e ↦ (((r.poll_next x).0, false), rw (drain, e) refl, k.stays x e)
    | inr (a, e) ↦
        let lt : r.queued (r.poll_next x).0 < r.queued x = k.leaves x a e in
        let rest = drain-empties k n (r.poll_next x).0 (omega (arith, lt, h)) in
        ((rest.0.0, true), rw (drain, e, rest.1) refl, rest.2)
  ]

  drain-idle :
      (n : ℕ) (x : X) → (r.poll_next x).1 ≡ none → drain (suc n) x ≡ some ((r.poll_next x).0, false)
  unfolding drain
  drain-idle n x e = rw (drain, e) refl

module _ {X T L : Type 0} ⦃r : Receiver X⦄ ⦃t : Transaction T⦄ where
  -- One poll is enough when the pool gives a batch: it ends, the batch is ready, and the channel is
  -- as it was. When the pool gives none, two polls are, each with enough fuel for the channel: they
  -- end, the sealer waits, the pool is as it was, and no hash is left in the channel.
  pub poll_immediate_lem :
      (k : ChannelLaws X) (s : ImpersonationState) (sealer : ImmediateBlockSealer X)
      (pool : TxPool T L) (fuel : ℕ)
      → ((batch : TxBatch T)
          → (take_uniform s pool sealer.max_transactions).1 ≡ some batch
          → poll_immediate (suc fuel) s sealer pool
            ≡ some ((sealer, (take_uniform s pool sealer.max_transactions).0), ready batch))
        × ((take_uniform s pool sealer.max_transactions).1 ≡ none
            → (rx : X) × (poll_immediate (suc (suc fuel)) s sealer pool
                ≡ some (
                  (record { max_transactions = sealer.max_transactions; rx = rx }, pool),
                  pending,
                ))
              × ((r.poll_next rx).1 ≡ none))
  unfolding poll_immediate
  poll_immediate_lem k s sealer pool fuel = (
    λ batch e. rw (poll_immediate, e) refl,
    λ e.
        let drained = drain-empties k (suc (r.queued sealer.rx)) sealer.rx (omega arith) in
        let d = drained.0 in
        elim (Bool-cases d.1) [
          | inl f ↦ (
            (r.poll_next d.0).0,
            rw
                (
                  poll_immediate,
                  e,
                  drained.1,
                  f,
                  poll_immediate,
                  e,
                  drain-idle (r.queued d.0) d.0 drained.2,
                )
                refl,
            k.stays d.0 drained.2,
          )
          | inr f ↦ (d.0, rw (poll_immediate, e, drained.1, f) refl, drained.2)
        ],
  )
