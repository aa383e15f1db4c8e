-- ===== src/Node/Blockchain.antt =====
-- crates/core/src/node/inner/blockchain.rs: the blocks, batches and transactions of the chain.
-- The lock around the state is held for a whole call. A hash map is a list of pairs; a hash is a
-- number. Of the block of the zksync_types crate the model keeps the fields that the code reads or
-- that tell blocks apart; `T` is its transaction and `R` the node's `TransactionResult`.
pub mod Batches
pub mod Queries
pub mod Apply
pub mod Chain
pub mod Load
pub mod Tests
use anvil_zksync.Node.Time.{TimeState, reset_to}
use anvil_zksync.Base.{
  ℕ, suc, ◌+◌, ◌-◌, ◌%◌, ◌^◌, Bool, not, List, [], ◌∷◌, Option, none, some, if◌then◌else◌, leb, ltb,
  ◌==◌, lookup, insert, nat_key, Outcome, panic, done, ◌>>=◌, ◌>>◌, unwrap, panic_if, as_u32,
  as_u64,
}

-- `TransactionVariant` of the zksync_types crate.
pub data TransactionVariant (T : Type 0) : Type 0 where
  full : T → TransactionVariant T
  hash_only : ℕ → TransactionVariant T

pub record Block (T : Type 0) : Type 0 where
  pub hash : ℕ
  pub parent_hash : ℕ
  pub number : ℕ
  pub l1_batch_number : Option ℕ
  pub timestamp : ℕ
  pub transactions : List (TransactionVariant T)
  pub gas_used : ℕ
  pub logs_bloom : ℕ

-- `H` is the batch header of the zksync_types crate, `D` a state diff.
pub record StoredL1BatchInfo (H D : Type 0) : Type 0 where
  pub header : H
  pub state_diffs : List D
  pub aggregation_root : ℕ

pub record BlockchainState (T R H D : Type 0) : Type 0 where
  pub protocol_version : ℕ
  pub current_batch : ℕ
  pub current_block : ℕ
  pub current_block_hash : ℕ
  pub tx_results : List (ℕ × R)
  pub blocks : List (ℕ × Block T)
  pub hashes : List (ℕ × ℕ)
  pub batches : List (ℕ × StoredL1BatchInfo H D)

-- What the state takes of a fork: `ForkDetails`.
pub record ForkDetails (T : Type 0) : Type 0 where
  pub protocol_version : ℕ
  pub batch_number : ℕ
  pub block_number : ℕ
  pub block_hash : ℕ
  pub api_block : Block T

module _ {T : Type 0} where
  -- `max_by_key` on the number: of equal ones the last.
  abbrev pub max_by_number : Block T → List (ℕ × Block T) → Block T
  max_by_number best [] = best
  max_by_number best ((h, b) ∷ rest) =
      max_by_number (if leb best.number b.number then b else best) rest

  abbrev pub latest_of : List (ℕ × Block T) → Option (Block T)
  latest_of [] = none
  latest_of ((h, b) ∷ rest) = some (max_by_number b rest)

module _ {T R H D : Type 0} where
  -- `Blockchain::new` on a fork.
  unfoldable pub new_forked : ForkDetails T → BlockchainState T R H D
  new_forked fork_details = record {
    protocol_version = fork_details.protocol_version;
    current_batch = fork_details.batch_number;
    current_block = fork_details.block_number;
    current_block_hash = fork_details.block_hash;
    tx_results = [];
    blocks = (fork_details.block_hash, fork_details.api_block) ∷ [];
    hashes = (fork_details.block_number, fork_details.block_hash) ∷ [];
    batches = [];
  }

  -- `Blockchain::new` on a genesis block and its batch header.
  unfoldable pub new_genesis : ℕ → Block T → H → BlockchainState T R H D
  new_genesis protocol_version genesis_block genesis_batch_header = record {
    protocol_version = protocol_version;
    current_batch = 0;
    current_block = 0;
    current_block_hash = genesis_block.hash;
    tx_results = [];
    blocks = (genesis_block.hash, genesis_block) ∷ [];
    hashes = (0, genesis_block.hash) ∷ [];
    batches =
        (0, record { header = genesis_batch_header; state_diffs = []; aggregation_root = 0 }) ∷ [];
  }

  -- The state after a block has passed the checks of `apply_block`.
  abbrev pub with_block : BlockchainState T R H D → ℕ → Block T → BlockchainState T R H D
  with_block s number block = record s {
    current_block = s.current_block + 1;
    current_block_hash = block.hash;
    hashes = insert number block.hash s.hashes;
    blocks = insert block.hash block s.blocks;
  }

  -- The addition to the block number panics past u32, as in a build with overflow checks.
  unfoldable pub apply_block : BlockchainState T R H D → Block T → Outcome (BlockchainState T R H D)
  apply_block s block = do
    latest_block ← unwrap (lookup s.current_block_hash s.blocks)
    current_block ← as_u32 (s.current_block + 1)
    actual_l1_batch_number ← unwrap block.l1_batch_number
    batch_number ← as_u32 actual_l1_batch_number
    panic_if (not (batch_number == s.current_batch))
    number ← as_u32 block.number
    panic_if (not (number == current_block))
    timestamp ← as_u64 block.timestamp
    latest_timestamp ← as_u64 latest_block.timestamp
    panic_if (leb timestamp latest_timestamp)
    done (with_block s number block)

  -- The loop of `load_blocks`.
  unfoldable pub insert_blocks : BlockchainState T R H D → List (Block T) → BlockchainState T R H D
  insert_blocks s [] = s
  insert_blocks s (block ∷ blocks) =
      insert_blocks
        (record s {
          hashes = insert (block.number % 2 ^ 32) block.hash s.hashes;
          blocks = insert block.hash block s.blocks;
        })
        blocks

  set_latest : BlockchainState T R H D → TimeState → Outcome (BlockchainState T R H D × TimeState)
  set_latest s time = do
    latest_block ← unwrap (latest_of s.blocks)
    l1_batch_number ← unwrap latest_block.l1_batch_number
    latest_batch_number ← as_u32 l1_batch_number
    latest_timestamp ← as_u64 latest_block.timestamp
    done (
      record s {
        current_block = latest_block.number % 2 ^ 32;
        current_block_hash = latest_block.hash;
        current_batch = latest_batch_number;
      },
      reset_to time latest_timestamp,
    )

  unfoldable pub load_blocks :
      BlockchainState T R H D
      → TimeState
      → List (Block T)
      → Outcome (BlockchainState T R H D × TimeState)
  unfolding set_latest
  load_blocks s time blocks = set_latest (insert_blocks s blocks) time
