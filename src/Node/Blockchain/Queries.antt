-- ===== src/Node/Blockchain/Queries.antt =====
-- The queries of crates/core/src/node/inner/blockchain.rs: `ReadBlockchain` and the lookups of the
-- state.
use anvil_zksync.Base.{
  ℕ, List, Option, none, some, lookup, nat_key, Outcome, panic, done, ◌>>=◌, as_u32, get_elem?,
  length,
}
use anvil_zksync.Utils.{
  BlockNumber, finalized, pending, committed, l1_committed, latest, earliest, number,
}
use anvil_zksync.Node.Blockchain.{Block, BlockchainState, TransactionVariant, full, hash_only}

pub data BlockId : Type 0 where
  by_number : BlockNumber → BlockId
  by_hash : ℕ → BlockId

-- What the queries read of a `TransactionResult`.
pub record TransactionResult (R T L : Type 0) : Type 0 where
  pub transaction_hash : R → ℕ
  pub transaction : R → T
  pub logs : R → List L

abbrev pub inspect {ℓ κ} : {A : Type ℓ} {B : Type κ} → (A → B) → Option A → Option B
inspect f none = none
inspect f (some a) = some (f a)

abbrev pub at_hash : {B : Type 0} → List (ℕ × B) → Option ℕ → Option B
at_hash m none = none
at_hash m (some h) = lookup h m

module _ {T : Type 0} where
  -- `unreachable!` on a transaction of which only the hash is stored.
  abbrev pub full_tx : Option (TransactionVariant T) → Outcome (Option T)
  full_tx none = done none
  full_tx (some (full tx)) = done (some tx)
  full_tx (some (hash_only h)) = panic

  abbrev pub tx_at : ℕ → Option (Block T) → Outcome (Option T)
  tx_at index none = done none
  tx_at index (some block) = full_tx (get_elem? block.transactions index)

module _ {T R H D : Type 0} where
  unfoldable pub get_block_hash_by_number : BlockchainState T R H D → ℕ → Option ℕ
  get_block_hash_by_number s n = lookup n s.hashes

  -- A number past u32 panics.
  unfoldable pub get_block_hash_by_id : BlockchainState T R H D → BlockId → Outcome (Option ℕ)
  get_block_hash_by_id s (by_number finalized) = done (lookup s.current_block s.hashes)
  get_block_hash_by_id s (by_number pending) = done (lookup s.current_block s.hashes)
  get_block_hash_by_id s (by_number committed) = done (lookup s.current_block s.hashes)
  get_block_hash_by_id s (by_number l1_committed) = done (lookup s.current_block s.hashes)
  get_block_hash_by_id s (by_number latest) = done (lookup s.current_block s.hashes)
  get_block_hash_by_id s (by_number earliest) = done (lookup 0 s.hashes)
  get_block_hash_by_id s (by_number (number n)) = do n32 ← as_u32 n; done (lookup n32 s.hashes)
  get_block_hash_by_id s (by_hash h) = done (some h)

  -- `inspect_block_by_hash`, `_by_number` and `_by_id` with the block itself.
  unfoldable pub get_block_by_hash : BlockchainState T R H D → ℕ → Option (Block T)
  get_block_by_hash s h = lookup h s.blocks

  unfoldable pub get_block_by_number : BlockchainState T R H D → ℕ → Option (Block T)
  unfolding get_block_hash_by_number
  get_block_by_number s n = at_hash s.blocks (get_block_hash_by_number s n)

  unfoldable pub get_block_by_id : BlockchainState T R H D → BlockId → Outcome (Option (Block T))
  get_block_by_id s block_id = do h ← get_block_hash_by_id s block_id; done (at_hash s.blocks h)

  unfoldable pub get_block_hash_of_id : BlockchainState T R H D → BlockId → Outcome (Option ℕ)
  get_block_hash_of_id s block_id = do
    b ← get_block_by_id s block_id
    done (inspect (λ block. block.hash) b)

  unfoldable pub get_block_number_by_hash : BlockchainState T R H D → ℕ → Outcome (Option ℕ)
  get_block_number_by_hash s h = elim (get_block_by_hash s h) [
    | none ↦ done none
    | some block ↦ do n ← as_u32 block.number; done (some n)
  ]

  unfoldable pub get_block_tx_count_by_id : BlockchainState T R H D → BlockId → Outcome (Option ℕ)
  get_block_tx_count_by_id s block_id = do
    b ← get_block_by_id s block_id
    done (inspect (λ block. length block.transactions) b)

  unfoldable pub get_block_tx_by_id : BlockchainState T R H D → BlockId → ℕ → Outcome (Option T)
  get_block_tx_by_id s block_id index = do b ← get_block_by_id s block_id; tx_at index b

  unfoldable pub get_batch_header : BlockchainState T R H D → ℕ → Option H
  get_batch_header s n = inspect (λ b. b.header) (lookup n s.batches)

  unfoldable pub get_batch_state_diffs : BlockchainState T R H D → ℕ → Option (List D)
  get_batch_state_diffs s n = inspect (λ b. b.state_diffs) (lookup n s.batches)

  unfoldable pub get_batch_aggregation_root : BlockchainState T R H D → ℕ → Option ℕ
  get_batch_aggregation_root s n = inspect (λ b. b.aggregation_root) (lookup n s.batches)
