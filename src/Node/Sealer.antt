-- ===== src/Node/Sealer.antt =====
-- crates/core/src/node/sealer.rs: when a batch of the pool is due to be sealed.
-- The channel of new transaction hashes, of the futures crate, and the timer, of the tokio crate,
-- are parameters. One poll runs to its end before the pool changes.
pub mod Polls
pub mod Tests
use anvil_zksync.Base.{ℕ, zero, suc, Bool, true, false, List, [], Option, none, some, if◌then◌else◌}
use anvil_zksync.Node.Impersonate.{ImpersonationState}
use anvil_zksync.Node.Pool.{Transaction, TxPool, TxBatch, take_uniform}

-- `poll_next` gives the next hash; none is a channel that is empty or closed. `queued` is the number
-- of hashes that wait in the channel.
pub record Receiver (X : Type 0) : Type 0 where
  pub poll_next : X → X × Option ℕ
  pub queued : X → ℕ

-- Whether the timer's next tick is due.
pub record Interval (I : Type 0) : Type 0 where
  pub poll_tick : I → I × Bool

pub record ImmediateBlockSealer (X : Type 0) : Type 0 where
  pub max_transactions : ℕ
  pub rx : X

pub record FixedTimeBlockSealer (I : Type 0) : Type 0 where
  pub max_transactions : ℕ
  pub interval : I

pub data BlockSealerMode (X I : Type 0) : Type 0 where
  noop : BlockSealerMode X I
  immediate : ImmediateBlockSealer X → BlockSealerMode X I
  fixed_time : FixedTimeBlockSealer I → BlockSealerMode X I

pub data Poll (B : Type 0) : Type 0 where
  pending : Poll B
  ready : B → Poll B

abbrev pub empty_batch : {T : Type 0} → TxBatch T
empty_batch = record { impersonating = false; txs = [] }

abbrev pub batch_or_empty : {T : Type 0} → Option (TxBatch T) → TxBatch T
batch_or_empty none = empty_batch
batch_or_empty (some batch) = batch

module _ {X I : Type 0} where
  unfoldable pub is_immediate : BlockSealerMode X I → Bool
  is_immediate noop = false
  is_immediate (immediate sealer) = true
  is_immediate (fixed_time sealer) = false

module _ {X : Type 0} ⦃r : Receiver X⦄ where
  -- The loop that empties the channel, and whether a hash was there, on fuel; there is no result when
  -- the fuel is used up.
  unfoldable pub drain : ℕ → X → Option (X × Bool)
  drain zero rx = none
  drain (suc fuel) rx =
      let rest = drain fuel (r.poll_next rx).0 in
      elim (r.poll_next rx).1 [
        | none ↦ some ((r.poll_next rx).0, false)
        | some hash ↦ elim rest [ none ↦ none | some after ↦ some (after.0, true) ]
      ]

module _ {X T L : Type 0} ⦃r : Receiver X⦄ ⦃t : Transaction T⦄ where
  -- `ImmediateBlockSealer::poll`, which calls itself after a hash has come, on fuel; there is no
  -- result when the fuel is used up.
  unfoldable pub poll_immediate :
      ℕ
      → ImpersonationState
      → ImmediateBlockSealer X
      → TxPool T L
      → Option ((ImmediateBlockSealer X × TxPool T L) × Poll (TxBatch T))
  poll_immediate zero s sealer pool = none
  poll_immediate (suc fuel) s sealer pool = elim (take_uniform s pool sealer.max_transactions).1 [
    | some batch ↦ some ((sealer, (take_uniform s pool sealer.max_transactions).0), ready batch)
    | none ↦ elim (drain (suc (r.queued sealer.rx)) sealer.rx) [
      | none ↦ none
      | some drained ↦
          let sealer' : ImmediateBlockSealer X = record sealer { rx = drained.0 } in
          let again = poll_immediate fuel s sealer' pool in
          if drained.1 then again else some ((sealer', pool), pending)
    ]
  ]

module _ {I T L : Type 0} ⦃i : Interval I⦄ ⦃t : Transaction T⦄ where
  -- `FixedTimeBlockSealer::poll`: a tick seals a block even if the pool is empty.
  unfoldable pub poll_fixed_time :
      ImpersonationState
      → FixedTimeBlockSealer I
      → TxPool T L
      → (FixedTimeBlockSealer I × TxPool T L) × Poll (TxBatch T)
  poll_fixed_time s sealer pool =
      let tick = i.poll_tick sealer.interval in
      let sealer' : FixedTimeBlockSealer I = record sealer { interval = tick.0 } in
      let taken = take_uniform s pool sealer.max_transactions in
      if tick.1
      then ((sealer', taken.0), ready (batch_or_empty taken.1))
      else ((sealer', pool), pending)

module _ {X I T L : Type 0} ⦃r : Receiver X⦄ ⦃i : Interval I⦄ ⦃t : Transaction T⦄ where
  -- `BlockSealerMode::poll`.
  unfoldable pub poll :
      ℕ
      → ImpersonationState
      → BlockSealerMode X I
      → TxPool T L
      → Option ((BlockSealerMode X I × TxPool T L) × Poll (TxBatch T))
  poll fuel s noop pool = some ((noop, pool), pending)
  poll fuel s (immediate sealer) pool = elim (poll_immediate fuel s sealer pool) [
    | none ↦ none
    | some p ↦ some ((immediate p.0.0, p.0.1), p.1)
  ]
  poll fuel s (fixed_time sealer) pool =
      let p = poll_fixed_time s sealer pool in some ((fixed_time p.0.0, p.0.1), p.1)
