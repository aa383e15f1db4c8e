-- ===== src/L1Sidecar/Watcher.antt =====
-- crates/l1_sidecar/src/l1_watcher.rs: the priority transactions of L1 that go to the pool.
-- The answers of the L1 node are arguments. The numbers are u64 values, with a difference that
-- panics below zero and sums that panic past the word.
use anvil_zksync.Base.{
  ℕ, ◌+◌, ◌-◌, List, [], ◌∷◌, Option, none, some, if◌then◌else◌, ltb, leb, ◌==◌, length, Outcome,
  done, ◌>>=◌, as_u64, unwrap,
}
use anvil_zksync.Node.Pool.{Transaction, Sender, TxPool, add_tx}

-- `serial_id` of an L1 transaction.
pub record Serial (T : Type 0) : Type 0 where
  pub serial_id : T → ℕ

-- The provider and the addresses of the filter are left out.
pub record L1Watcher (T L : Type 0) : Type 0 where
  pub pool : TxPool T L
  pub next_expected_priority_id : ℕ
  pub from_block : ℕ

pub data PollResult : Type 0 where
  ok provider_error gap_in_priority_transactions serial_id_mismatch : PollResult

module _ {T : Type 0} ⦃s : Serial T⦄ where
  unfoldable pub skip_known : ℕ → List T → List T
  skip_known next [] = []
  skip_known next (tx ∷ txs) =
      let rest = skip_known next txs in if ltb (s.serial_id tx) next then rest else tx ∷ txs

  -- The serial of the last transaction.
  unfoldable pub last_serial : T → List T → ℕ
  last_serial tx [] = s.serial_id tx
  last_serial tx (tx' ∷ txs) = last_serial tx' txs

abbrev pub checked_difference : ℕ → ℕ → Option ℕ
checked_difference a b = if leb b a then some (a - b) else none

module _ {T L : Type 0} ⦃t : Transaction T⦄ ⦃n : Sender L⦄ where
  -- The loop that adds the new transactions.
  unfoldable pub add_each : TxPool T L → List T → TxPool T L
  add_each pool [] = pool
  add_each pool (tx ∷ txs) = add_each (add_tx pool tx) txs

module _ {T L : Type 0} ⦃s : Serial T⦄ ⦃t : Transaction T⦄ ⦃n : Sender L⦄ where
  unfoldable pub add_new : L1Watcher T L → ℕ → List T → Outcome (L1Watcher T L × PollResult)
  unfolding last_serial add_each
  add_new w to_block [] = done (w, ok)
  add_new w to_block (first ∷ txs) =
      if s.serial_id first == w.next_expected_priority_id
      then (as_u64 (last_serial first txs + 1) >>= λ next. as_u64 (to_block + 1) >>= λ from_block.
          done (
            record {
              pool = add_each w.pool (first ∷ txs);
              next_expected_priority_id = next;
              from_block = from_block;
            },
            ok,
          ))
      else done (w, serial_id_mismatch)

  unfoldable pub receive : L1Watcher T L → ℕ → List T → Outcome (L1Watcher T L × PollResult)
  unfolding last_serial skip_known add_new
  receive w to_block [] = done (w, ok)
  receive w to_block (first ∷ txs) = do
    difference ← unwrap (checked_difference (last_serial first txs) (s.serial_id first))
    count ← as_u64 (difference + 1)
    if count == length (first ∷ txs)
        then add_new w to_block (skip_known w.next_expected_priority_id (first ∷ txs))
        else done (w, gap_in_priority_transactions)

  -- The number of the latest block, and the transactions that the logs of a range of blocks give;
  -- none is an error.
  unfoldable pub poll_l1 :
      L1Watcher T L → Option ℕ → (ℕ → ℕ → Option (List T)) → Outcome (L1Watcher T L × PollResult)
  unfolding receive
  poll_l1 w none logs = done (w, provider_error)
  poll_l1 w (some to_block) logs =
      if ltb to_block w.from_block then done (w, ok) else elim (logs w.from_block to_block) [
        | none ↦ done (w, provider_error)
        | some txs ↦ receive w to_block txs
      ]
