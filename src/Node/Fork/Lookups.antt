-- ===== src/Node/Fork/Lookups.antt =====
-- The lookups of `Fork` in crates/core/src/node/inner/fork.rs that are cached.
use anvil_zksync.Base.{ℕ, true, Option, none, some}
use anvil_zksync.Node.Fork.{
  BlockId, Cache, get_block, get_block_hash, get_block_raw_transactions, get_transaction,
  get_bridge_addresses, get_confirmed_tokens, insert_block, insert_block_raw_transactions,
  insert_transaction, set_bridge_addresses, set_confirmed_tokens,
}

-- `api::BlockNumber`: a number, or a tag.
pub data BlockNumber : Type 0 where
  at_number at_tag : ℕ → BlockNumber

-- The answers of the client; blocks have their full transactions.
pub record ForkClient (C B X T A K : Type 0) : Type 0 where
  pub transaction_by_hash : C → ℕ → Option (Option T)
  pub raw_block_transactions : C → ℕ → Option X
  pub block_by_hash : C → ℕ → Option (Option B)
  pub block_by_number : C → BlockNumber → Option (Option B)
  pub bridge_contracts : C → Option A
  pub confirmed_tokens : C → ℕ → ℕ → Option K

pub record Fork (C B X T A K : Type 0) : Type 0 where
  pub client : Option C
  pub cache : Cache B X T A K

-- A call without a client has the given answer.
abbrev pub make_call : {C V : Type 0} → Option C → V → (C → V) → V
make_call none default call = default
make_call (some client) default call = call client

abbrev pub then_some : {V : Type 0} → Option V → Option (Option V)
then_some none = none
then_some (some v) = some (some v)

-- What is found in the cache, or the answer and the cache that has it.
abbrev pub or_ask :
    {C B X T A K V : Type 0}
    → Fork C B X T A K
    → Option V
    → Option (Option V)
    → (V → Cache B X T A K)
    → Fork C B X T A K × Option (Option V)
or_ask f (some v) answer keep = (f, some (some v))
or_ask f none none keep = (f, none)
or_ask f none (some none) keep = (f, some none)
or_ask f none (some (some v)) keep = (record f { cache = keep v }, some (some v))

abbrev pub and_then : {A B : Type 0} → Option A → (A → Option B) → Option B
and_then none f = none
and_then (some a) f = f a

module _ {C B X T A K : Type 0} ⦃r : ForkClient C B X T A K⦄ ⦃b : BlockId B⦄ where
  unfoldable pub transaction_by_hash : Fork C B X T A K → ℕ → Fork C B X T A K × Option (Option T)
  unfolding get_transaction insert_transaction
  transaction_by_hash f hash =
      or_ask f (get_transaction f.cache hash)
        (make_call f.client (some none) (λ client. r.transaction_by_hash client hash))
        (λ tx. insert_transaction f.cache hash tx)

  -- Without a client there is an error: no block.
  unfoldable pub raw_block_transactions :
      Fork C B X T A K → ℕ → Fork C B X T A K × Option (Option X)
  unfolding get_block_raw_transactions insert_block_raw_transactions
  raw_block_transactions f number =
      or_ask f (get_block_raw_transactions f.cache number)
        (make_call f.client none (λ client. then_some (r.raw_block_transactions client number)))
        (λ txs. insert_block_raw_transactions f.cache number txs)

  unfoldable pub block_by_hash : Fork C B X T A K → ℕ → Fork C B X T A K × Option (Option B)
  unfolding get_block insert_block
  block_by_hash f hash =
      or_ask f (get_block f.cache hash true)
        (make_call f.client (some none) (λ client. r.block_by_hash client hash))
        (λ block. insert_block f.cache hash true block)

  -- Only a block that is asked for by its number is cached.
  unfoldable pub block_by_number :
      Fork C B X T A K → BlockNumber → Fork C B X T A K × Option (Option B)
  unfolding get_block get_block_hash insert_block
  block_by_number f (at_number number) =
      or_ask f (and_then (get_block_hash f.cache number) (λ hash. get_block f.cache hash true))
        (make_call f.client (some none) (λ client. r.block_by_number client (at_number number)))
        (λ block. insert_block f.cache (b.hash block) true block)
  block_by_number f (at_tag tag) =
      (f, make_call f.client (some none) (λ client. r.block_by_number client (at_tag tag)))

  unfoldable pub bridge_contracts : Fork C B X T A K → Fork C B X T A K × Option (Option A)
  unfolding get_bridge_addresses set_bridge_addresses
  bridge_contracts f =
      or_ask f (get_bridge_addresses f.cache)
        (make_call f.client (some none) (λ client. then_some (r.bridge_contracts client)))
        (λ addresses. set_bridge_addresses f.cache addresses)

  unfoldable pub confirmed_tokens : Fork C B X T A K → ℕ → ℕ → Fork C B X T A K × Option (Option K)
  unfolding get_confirmed_tokens set_confirmed_tokens
  confirmed_tokens f from_token limit =
      or_ask f (get_confirmed_tokens f.cache from_token limit)
        (make_call f.client (some none)
          (λ client. then_some (r.confirmed_tokens client from_token limit)))
        (λ tokens. set_confirmed_tokens f.cache from_token limit tokens)
