-- ===== src/Node/Executor/Intervals.antt =====
-- `seal_blocks` of crates/core/src/node/inner/node_executor.rs: the interval that holds meanwhile
-- does not stay, and there is a number for each batch.
use anvil_zksync.Base.{
  IfDone, IfDone-bind, IfDone-then, ℕ, suc, ◌≡◌, refl, ap, List, [], ◌∷◌, Option, none, some,
  length, done, ◌>>=◌,
}
use anvil_zksync.Filters.{Log}
use anvil_zksync.Node.Time.{get_block_timestamp_interval, set_block_timestamp_interval}
use anvil_zksync.Node.Pool.{TxBatch}
use anvil_zksync.Node.Storage.{Client}
use anvil_zksync.Node.Blockchain.Batches.{BatchTx}
use anvil_zksync.Node.Inner.{InMemoryNodeInner, MessageRoot}
use anvil_zksync.Node.Inner.Seal.{Executed, Emits, TxBatchExecutionResult}
use anvil_zksync.Node.Executor.{
  VmRunner, execute_batch, interval_from, seal_each, seal_blocks, cons_number,
}

-- There is a number for each of `n` batches, or else an error.
abbrev pub Numbers : Option (List ℕ) → ℕ → Type 0
Numbers none n = Unit
Numbers (some numbers) n = length numbers ≡ n

Numbers-cons :
    (number : ℕ) (o : Option (List ℕ)) (n : ℕ)
    → Numbers o n
    → Numbers (cons_number number o) (suc n)
Numbers-cons number none n h = tt
Numbers-cons number (some numbers) n h = ap suc h

module _ {R L C D P V : Type 0} where
  abbrev pub Counted : ℕ → (V × InMemoryNodeInner R L C D P) × Option (List ℕ) → Type 0
  Counted n r = Numbers r.1 n

module _ {R L C D P V T : Type 0} ⦃b : BatchTx R⦄ ⦃x : Executed R⦄ ⦃m : Emits R L⦄ ⦃l : Log L⦄
    ⦃c : Client C⦄
    ⦃vm : VmRunner V T (InMemoryNodeInner R L C D P) (TxBatchExecutionResult R D)⦄ where
  seal_each-Numbers :
      (root : MessageRoot) (interval i : ℕ) (v : V) (node : InMemoryNodeInner R L C D P)
      (tx_batches : List (TxBatch T))
      → IfDone (Counted (length tx_batches)) (seal_each root interval i v node tx_batches)
  unfolding seal_each
  seal_each-Numbers root interval i v node [] = refl
  seal_each-Numbers root interval i v node (tx_batch ∷ tx_batches) =
      IfDone-bind (Counted (suc (length tx_batches))) _
        (execute_batch root v (interval_from i interval node) tx_batch)
        (λ r. go (λ w n. seal_each-Numbers root interval (suc i) w n tx_batches) r r.1)
    where
      go :
          ((w : V) (n : InMemoryNodeInner R L C D P)
            → IfDone (Counted (length tx_batches)) (seal_each root interval (suc i) w n tx_batches))
          → (r : (V × InMemoryNodeInner R L C D P) × Option ℕ) (o : Option ℕ)
          → IfDone (Counted (suc (length tx_batches))) (elim o [
            | none ↦ done (r.0, none)
            | some number ↦ seal_each root interval (suc i) r.0.0 r.0.1 tx_batches >>= λ rest.
                done (rest.0, cons_number number rest.1)
          ])
      go ih r none = tt
      go ih r (some number) =
          IfDone-then (Counted (length tx_batches)) (Counted (suc (length tx_batches))) _
            (seal_each root interval (suc i) r.0.0 r.0.1 tx_batches) (ih r.0.0 r.0.1)
            (λ rest h. Numbers-cons number rest.1 (length tx_batches) h)

  -- Whatever the batches do to the clock, and whether they are all sealed or one of them fails,
  -- the block timestamp interval is afterwards what it was before; on success there is one block
  -- number for each batch. Only a panic leaves nothing to say.
  pub seal_blocks_lem :
      (root : MessageRoot) (interval : ℕ) (v : V) (node : InMemoryNodeInner R L C D P)
      (tx_batches : List (TxBatch T))
      → IfDone
          (λ r. (r.0.1.time.interval ≡ node.time.interval) × Numbers r.1 (length tx_batches))
          (seal_blocks root interval v node tx_batches)
  unfolding seal_blocks get_block_timestamp_interval set_block_timestamp_interval
  seal_blocks_lem root interval v node tx_batches =
      IfDone-then (Counted (length tx_batches))
        (λ r. (r.0.1.time.interval ≡ node.time.interval) × Numbers r.1 (length tx_batches)) _
        (seal_each root interval 0 v node tx_batches)
        (seal_each-Numbers root interval 0 v node tx_batches) (λ r h. (refl, h))
