-- ===== src/Node/Pool.antt =====
-- crates/core/src/node/pool.rs and crates/types/src/transaction_order.rs: the mempool.
-- `Transaction` is a type of another crate: the model takes it as a parameter, with the three
-- accessors that the pool calls, and the channel to a listener as a parameter with `try_send`.
-- The ordered set of the source is a list, the greatest element first. The locks are held for a
-- whole call, so that a call is a function from the pool. The impersonation state is shared with
-- the rest of the node: it is an argument of the call that reads it.
pub mod Order
pub mod Fifo
pub mod Take
pub mod Split
pub mod Runs
pub mod Tests
use Prim.Native.Nat.{Ordering}
use anvil_zksync.Base.{
  ℕ, suc, zero, ◌-◌, Bool, true, false, not, List, [], ◌∷◌, ◌++◌, map, reverse, Option, none, some,
  if◌then◌else◌, ◌==◌, compare, keep_if,
}
use anvil_zksync.Base.Words.{wrapping_add}
use anvil_zksync.Node.Impersonate.{ImpersonationState, is_impersonating}

-- What the pool reads of a `zksync_types::Transaction`.
pub record Transaction (T : Type 0) : Type 0 where
  pub hash : T → ℕ
  pub initiator_account : T → ℕ
  pub max_fee_per_gas : T → ℕ

-- The outcome of `try_send` on a channel of the futures crate.
pub data SendResult : Type 0 where
  sent full disconnected : SendResult

pub record Sender (L : Type 0) : Type 0 where
  pub try_send : L → ℕ → L × SendResult

pub data TransactionOrder : Type 0 where
  fifo fees : TransactionOrder

pub record PoolTransaction (T : Type 0) : Type 0 where
  pub transaction : T
  pub submission_number : ℕ
  pub priority : ℕ

pub record TxPool (T L : Type 0) : Type 0 where
  pub inner : List (PoolTransaction T)
  pub transaction_order : TransactionOrder
  pub submission_number : ℕ
  pub tx_listeners : List L

pub record TxBatch (T : Type 0) : Type 0 where
  pub impersonating : Bool
  pub txs : List T

-- `Ord::cmp` of a `PoolTransaction`: by priority, and then the earlier submission is the greater.
unfoldable pub cmp : {T : Type 0} → PoolTransaction T → PoolTransaction T → Ordering
cmp p q = elim (compare p.priority q.priority) [
  | Ordering.lt ↦ Ordering.lt
  | Ordering.gt ↦ Ordering.gt
  | Ordering.eq ↦ compare q.submission_number p.submission_number
]

-- `BTreeSet::insert`: an element that compares equal to one of the set is not put in.
unfoldable pub insert_tx :
    {T : Type 0} → PoolTransaction T → List (PoolTransaction T) → List (PoolTransaction T)
insert_tx p [] = p ∷ []
insert_tx p (q ∷ qs) = elim (cmp p q) [
  | Ordering.gt ↦ p ∷ q ∷ qs
  | Ordering.eq ↦ q ∷ qs
  | Ordering.lt ↦ q ∷ insert_tx p qs
]

abbrev pub txs_of : {T : Type 0} → List (PoolTransaction T) → List T
txs_of = map (λ p. p.transaction)

abbrev same : Bool → Bool → Bool
same true b = b
same false b = not b

abbrev first : {T : Type 0} → List T → Option T
first [] = none
first (t ∷ ts) = some t

module _ {T : Type 0} ⦃t : Transaction T⦄ where
  unfoldable pub priority_of : TransactionOrder → T → ℕ
  priority_of fifo tx = 0
  priority_of fees tx = t.max_fee_per_gas tx

  -- The loop of `take_uniform`; the number is what is left of `n - taken_txs_number`.
  unfoldable pub take_loop :
      ImpersonationState → Bool → ℕ → List (PoolTransaction T) → List T × List (PoolTransaction T)
  take_loop s impersonating zero qs = ([], qs)
  take_loop s impersonating (suc k) [] = ([], [])
  take_loop s impersonating (suc k) (q ∷ qs) =
      let more = take_loop s impersonating k qs in
      if same impersonating (is_impersonating s (t.initiator_account q.transaction))
      then (q.transaction ∷ more.0, more.1)
      else ([], q ∷ qs)

module _ {T L : Type 0} where
  unfoldable pub new : TransactionOrder → TxPool T L
  new order = record {
    inner = [];
    transaction_order = order;
    submission_number = 0;
    tx_listeners = [];
  }

  unfoldable pub clear : TxPool T L → TxPool T L
  clear pool = record pool { inner = [] }

  -- The channel is made by the futures crate; the pool keeps its sender.
  unfoldable pub add_tx_listener : TxPool T L → L → TxPool T L
  add_tx_listener pool tx = record pool { tx_listeners = pool.tx_listeners ++ tx ∷ [] }

  unfoldable pub drop_transactions : TxPool T L → (PoolTransaction T → Bool) → TxPool T L × List T
  drop_transactions pool f = (
    record pool { inner = keep_if (λ p. not (f p)) pool.inner },
    reverse (txs_of (keep_if f pool.inner)),
  )

-- A listener whose receiver is gone is dropped; one whose channel is full stays.
module _ {L : Type 0} ⦃c : Sender L⦄ where
  abbrev keep_listener : L × SendResult → List L → List L
  keep_listener (l, sent) ls = l ∷ ls
  keep_listener (l, full) ls = l ∷ ls
  keep_listener (l, disconnected) ls = ls

  unfoldable pub notify_listeners : List L → ℕ → List L
  notify_listeners [] tx_hash = []
  notify_listeners (l ∷ ls) tx_hash =
      keep_listener (c.try_send l tx_hash) (notify_listeners ls tx_hash)

module _ {T L : Type 0} ⦃t : Transaction T⦄ ⦃c : Sender L⦄ where
  unfoldable pub add_tx : TxPool T L → T → TxPool T L
  add_tx pool tx =
      let number = wrapping_add pool.submission_number 1 in
      record pool {
        submission_number = number;
        inner =
            insert_tx
              (record {
                transaction = tx;
                submission_number = number;
                priority = priority_of pool.transaction_order tx;
              })
              pool.inner;
        tx_listeners = notify_listeners pool.tx_listeners (t.hash tx);
      }

  -- The body of the loop is that of `add_tx`, under one lock.
  unfoldable pub add_txs : TxPool T L → List T → TxPool T L
  add_txs pool [] = pool
  add_txs pool (tx ∷ txs) = add_txs (add_tx pool tx) txs

module _ {T L : Type 0} ⦃t : Transaction T⦄ where
  unfoldable pub drop_transaction : TxPool T L → ℕ → TxPool T L × Option T
  unfolding drop_transactions
  drop_transaction pool hash =
      let (pool', dropped) = drop_transactions pool (λ p. t.hash p.transaction == hash) in
      (pool', first dropped)

  take_head :
      ImpersonationState
      → TxPool T L
      → ℕ
      → List (PoolTransaction T)
      → TxPool T L × Option (TxBatch T)
  unfolding take_loop
  take_head s pool n [] = (pool, none)
  take_head s pool n (head_tx ∷ qs) =
      let impersonating = is_impersonating s (t.initiator_account head_tx.transaction) in
      let (taken, left) = take_loop s impersonating (n - 1) qs in
      (
        record pool { inner = left },
        some (record { impersonating = impersonating; txs = head_tx.transaction ∷ taken }),
      )

  unfoldable pub take_uniform :
      ImpersonationState → TxPool T L → ℕ → TxPool T L × Option (TxBatch T)
  unfolding take_head
  take_uniform s pool n = if n == 0 then (pool, none) else take_head s pool n pool.inner
