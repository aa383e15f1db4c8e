-- ===== src/Node/Fork.antt =====
-- crates/core/src/node/inner/fork.rs and crates/common/src/cache.rs: what the node asks of the forked
-- chain, and the cache of the answers.
-- The client is a parameter that answers a question always in the same way; `none` is a failed call.
-- The files of the disk cache are written and never read again while the node runs, and are left
-- out, so that a disk cache is one in memory here.
pub mod Lookups
pub mod Cached
pub mod Answers
pub mod Tests
use anvil_zksync.Base.{
  ℕ, Bool, true, false, List, [], ◌∷◌, Option, none, some, if◌then◌else◌, lookup, insert, nat_key,
  pair_key,
}

pub data CacheConfig : Type 0 where
  off memory disk : CacheConfig

-- The number and hash of a block.
pub record BlockId (B : Type 0) : Type 0 where
  pub number : B → ℕ
  pub hash : B → ℕ

-- Blocks, lists of raw transactions, transactions, bridge addresses and lists of tokens. The selectors
-- of the resolver are strings, here numbers.
pub record Cache (B X T A K : Type 0) : Type 0 where
  pub config : CacheConfig
  pub block_hashes : List (ℕ × ℕ)
  pub blocks_full : List (ℕ × B)
  pub blocks_min : List (ℕ × B)
  pub block_raw_transactions : List (ℕ × X)
  pub transactions : List (ℕ × T)
  pub resolver_selectors : List (ℕ × ℕ)
  pub bridge_addresses : Option A
  pub confirmed_tokens : List ((ℕ × ℕ) × K)

-- Without a cache nothing is found and nothing is kept.
abbrev pub found_if : {V : Type 0} → CacheConfig → Option V → Option V
found_if off found = none
found_if memory found = found
found_if disk found = found

abbrev pub kept_if : {V : Type 0} → CacheConfig → V → V → V
kept_if off cache changed = cache
kept_if memory cache changed = changed
kept_if disk cache changed = changed

module _ {B X T A K : Type 0} where
  unfoldable pub get_block : Cache B X T A K → ℕ → Bool → Option B
  get_block c hash full_transactions =
      found_if c.config
        (if full_transactions then lookup hash c.blocks_full else lookup hash c.blocks_min)

  unfoldable pub get_block_hash : Cache B X T A K → ℕ → Option ℕ
  get_block_hash c number = found_if c.config (lookup number c.block_hashes)

  unfoldable pub get_block_raw_transactions : Cache B X T A K → ℕ → Option X
  get_block_raw_transactions c number = found_if c.config (lookup number c.block_raw_transactions)

  unfoldable pub get_transaction : Cache B X T A K → ℕ → Option T
  get_transaction c hash = found_if c.config (lookup hash c.transactions)

  unfoldable pub get_resolver_selector : Cache B X T A K → ℕ → Option ℕ
  get_resolver_selector c selector = found_if c.config (lookup selector c.resolver_selectors)

  unfoldable pub get_bridge_addresses : Cache B X T A K → Option A
  get_bridge_addresses c = found_if c.config c.bridge_addresses

  unfoldable pub get_confirmed_tokens : Cache B X T A K → ℕ → ℕ → Option K
  get_confirmed_tokens c from_token limit =
      found_if c.config (lookup (from_token, limit) c.confirmed_tokens)

  unfoldable pub insert_block_raw_transactions : Cache B X T A K → ℕ → X → Cache B X T A K
  insert_block_raw_transactions c number txs =
      kept_if c.config c
        (record c { block_raw_transactions = insert number txs c.block_raw_transactions })

  unfoldable pub insert_transaction : Cache B X T A K → ℕ → T → Cache B X T A K
  insert_transaction c hash tx =
      kept_if c.config c (record c { transactions = insert hash tx c.transactions })

  unfoldable pub insert_resolver_selector : Cache B X T A K → ℕ → ℕ → Cache B X T A K
  insert_resolver_selector c selector selector_value =
      kept_if c.config c
        (record c { resolver_selectors = insert selector selector_value c.resolver_selectors })

  unfoldable pub set_bridge_addresses : Cache B X T A K → A → Cache B X T A K
  set_bridge_addresses c addresses =
      kept_if c.config c (record c { bridge_addresses = some addresses })

  unfoldable pub set_confirmed_tokens : Cache B X T A K → ℕ → ℕ → K → Cache B X T A K
  set_confirmed_tokens c from_token limit tokens =
      kept_if c.config c
        (record c { confirmed_tokens = insert (from_token, limit) tokens c.confirmed_tokens })

module _ {B X T A K : Type 0} ⦃b : BlockId B⦄ where
  unfoldable pub insert_block : Cache B X T A K → ℕ → Bool → B → Cache B X T A K
  insert_block c hash full_transactions block =
      let hashes = insert (b.number block) (b.hash block) c.block_hashes in
      kept_if c.config c (
        if full_transactions
        then record c { block_hashes = hashes; blocks_full = insert hash block c.blocks_full }
        else record c { block_hashes = hashes; blocks_min = insert hash block c.blocks_min })
