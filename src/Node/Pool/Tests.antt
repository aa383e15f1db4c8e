-- ===== src/Node/Pool/Tests.antt =====
-- The pool of crates/core/src/node/pool.rs at concrete transactions: a transaction is its hash, its
-- sender and its fee.
use anvil_zksync.Base.{
  ℕ, ◌≡◌, refl, true, false, List, [], ◌∷◌, ◌++◌, reverse, some, arith, ◌==◌, All,
}
use mathlib.Core.List.{Perm}
use anvil_zksync.Node.Impersonate.{ImpersonationState, is_impersonating}
use anvil_zksync.Node.Pool.{
  PoolTransaction, TxPool, TxBatch, fifo, fees, Transaction, Sender, sent, disconnected, txs_of,
  new, drop_transactions, drop_transaction, add_tx, add_txs, take_uniform, take_loop, insert_tx,
  cmp, priority_of, notify_listeners,
}
use anvil_zksync.Node.Pool.Order.{IsOrdered}
use anvil_zksync.Node.Pool.Fifo.{IsFifo, add_txs_lem}
use anvil_zksync.Node.Pool.Take.{Takes, take_uniform-Takes}
use anvil_zksync.Node.Pool.Runs.{
  add, clear_all, take_batch, run, run-IsOrdered, drop_transactions-perm,
}

abbrev pub Tx : Type 0
Tx = ℕ × ℕ × ℕ

instance abbrev pub tx_fields : Transaction Tx
tx_fields = record { hash = λ t. t.0; initiator_account = λ t. t.1; max_fee_per_gas = λ t. t.2 }

-- A listener is its number: 0 is gone.
instance abbrev listener : Sender ℕ
listener = record { try_send = λ l h. (l, elim (l == 0) [ true ↦ disconnected | false ↦ sent ]) }

abbrev pub bob_impersonated : ImpersonationState
bob_impersonated = record { auto = false; accounts = 9 ∷ [] }

abbrev txs : List Tx
txs = (1, 5, 10) ∷ (2, 5, 30) ∷ (3, 9, 20) ∷ (4, 5, 30) ∷ []

abbrev empty_fees : TxPool Tx ℕ
empty_fees = record {
  inner = [];
  transaction_order = fees;
  submission_number = 0;
  tx_listeners = 0 ∷ 1 ∷ [];
}

abbrev empty_fifo : TxPool Tx ℕ
empty_fifo = record {
  inner = [];
  transaction_order = fifo;
  submission_number = 0;
  tx_listeners = [];
}

abbrev entry : Tx → ℕ → PoolTransaction Tx
entry tx n = record { transaction = tx; submission_number = n; priority = tx.2 }

abbrev pub filled : TxPool Tx ℕ
filled = record empty_fees {
  submission_number = 4;
  inner = entry (2, 5, 30) 2 ∷ entry (4, 5, 30) 4 ∷ entry (3, 9, 20) 3 ∷ entry (1, 5, 10) 1 ∷ [];
  tx_listeners = 1 ∷ [];
}

-- The greater fee goes first, and at one fee the earlier submission; a dead listener is dropped.
add_by_fee : add_txs empty_fees txs ≡ filled
unfolding add_txs add_tx insert_tx cmp priority_of notify_listeners
add_by_fee = refl

take_two :
    (take_uniform bob_impersonated filled 3).1
    ≡ some (record { impersonating = false; txs = (2, 5, 30) ∷ (4, 5, 30) ∷ [] })
unfolding take_uniform take_loop is_impersonating
take_two = refl

drop_third : (drop_transaction filled 3).1 ≡ some (3, 9, 20)
unfolding drop_transaction
drop_third = refl

pub filled-IsOrdered : IsOrdered filled
filled-IsOrdered = record { descending = omega arith; numbered = omega arith }

run-IsOrdered_example : IsOrdered {T = Tx} {L = ℕ} (
    run
      (new fees)
      (add (1, 5, 10) ∷ add (2, 5, 30) ∷ take_batch bob_impersonated 1 ∷ clear_all ∷ []))
run-IsOrdered_example =
    run-IsOrdered fees
      (add (1, 5, 10) ∷ add (2, 5, 30) ∷ take_batch bob_impersonated 1 ∷ clear_all ∷ [])
      (omega arith)

add_txs_lem_example :
    (txs_of (add_txs empty_fifo txs).inner ≡ txs) × IsFifo (add_txs empty_fifo txs)
add_txs_lem_example =
    add_txs_lem empty_fifo txs (omega arith)
      (record { order = refl; unranked = tt; ordered = record { descending = tt; numbered = tt } })

take_uniform-Takes_example :
    (batch : TxBatch Tx) × (taken : List (PoolTransaction Tx)) × ((take_uniform bob_impersonated
        filled 3).1
      ≡ some batch)
    × Takes bob_impersonated filled 3 (take_uniform bob_impersonated filled 3).0 batch taken
take_uniform-Takes_example =
    take_uniform-Takes bob_impersonated filled 3 (omega arith) (λ e. cc) filled-IsOrdered

drop_transactions-perm_example :
    let after = drop_transactions filled (λ p. p.transaction.1 == 5) in
    (gone : List (PoolTransaction Tx)) × (after.1 ≡ reverse (txs_of gone))
    × All (λ p. (p.transaction.1 == 5) ≡ true) gone
    × All (λ p. (p.transaction.1 == 5) ≡ false) after.0.inner
    × Perm (gone ++ after.0.inner) filled.inner
drop_transactions-perm_example = drop_transactions-perm filled (λ p. p.transaction.1 == 5)
