-- ===== src/Node/Blockchain/Chain.antt =====
-- The chain of crates/core/src/node/inner/blockchain.rs: block numbers, the hashes under them, and
-- timestamps.
use anvil_zksync.Base.{
  ℕ, ◌+◌, ◌<◌, ◌≤◌, ◌≡◌, refl, sym, ◌∙◌, ap, ◌≢◌, Option, none, some, if◌then◌else◌, ◌==◌, lookup,
  nat_key, done, arith, subst, lookup-insert, lookup-insert_self,
}
use anvil_zksync.Node.Blockchain.{Block, BlockchainState, apply_block, with_block, new_genesis}
use anvil_zksync.Node.Blockchain.Queries.{get_block_by_number, get_block_by_hash}
use anvil_zksync.Node.Blockchain.Apply.{IsNext, apply_block_sound, apply_block_complete}

module _ {T R H D : Type 0} where
  pub record IsChain (s : BlockchainState T R H D) : Type 0 where
    -- The current block is stored under its number and under its hash.
    pub tip :
        (b : Block T) × (get_block_by_hash s s.current_block_hash ≡ some b)
        × (get_block_by_number s s.current_block ≡ some b)
    -- No number past the current one is known.
    pub bounded : (n : ℕ) → s.current_block < n → get_block_by_number s n ≡ none
    -- A hash under a number is that of a stored block.
    pub linked : (n h : ℕ) → lookup n s.hashes ≡ some h → get_block_by_hash s h ≢ none
    -- A block stored under a number has that number.
    pub numbered : (n : ℕ) (b : Block T) → get_block_by_number s n ≡ some b → b.number ≡ n
    -- From the first number that is known to the current one there is no gap.
    pub filled :
        (m n : ℕ)
        → get_block_by_number s m ≢ none
        → m ≤ n
        → n ≤ s.current_block
        → get_block_by_number s n ≢ none
    -- Later numbers have later timestamps.
    pub ordered :
        (m n : ℕ) (a b : Block T)
        → get_block_by_number s m ≡ some a
        → get_block_by_number s n ≡ some b
        → m < n
        → a.timestamp < b.timestamp

  -- A new block leaves what every other number finds.
  get_block_by_number-with_block :
      (s : BlockchainState T R H D) (block : Block T) (n : ℕ)
      → IsChain s
      → get_block_by_hash s block.hash ≡ none
      → get_block_by_number (with_block s (s.current_block + 1) block) n
        ≡ (if s.current_block + 1 == n then some block else get_block_by_number s n)
  unfolding get_block_by_number get_block_by_hash
  get_block_by_number-with_block s block n v fresh = go (lookup n s.hashes) refl
    where
      go :
          (o : Option ℕ)
          → lookup n s.hashes ≡ o
          → get_block_by_number (with_block s (s.current_block + 1) block) n
            ≡ (if s.current_block + 1 == n then some block else get_block_by_number s n)
      go none e = ground (
        arith,
        lookup-insert (s.current_block + 1) n block.hash s.hashes,
        lookup-insert block.hash block.hash block s.blocks,
      )
      go (some h) e = ground (
        arith,
        lookup-insert (s.current_block + 1) n block.hash s.hashes,
        lookup-insert block.hash block.hash block s.blocks,
        lookup-insert block.hash h block s.blocks,
        v.linked n h e,
      )

  with_block-IsChain :
      (s : BlockchainState T R H D) (latest block : Block T)
      → get_block_by_hash s s.current_block_hash ≡ some latest
      → get_block_by_hash s block.hash ≡ none
      → IsNext s latest block
      → IsChain s
      → IsChain (with_block s (s.current_block + 1) block)
  unfolding get_block_by_hash
  with_block-IsChain s latest block e fresh next v = record {
    tip = (
      block,
      lookup-insert_self block.hash block s.blocks,
      ground (arith, at (s.current_block + 1)),
    );
    bounded = λ n h. ground (arith, at n, v.bounded n);
    linked = λ n h f. ground (
      arith,
      lookup-insert (s.current_block + 1) n block.hash s.hashes,
      lookup-insert block.hash h block s.blocks,
      v.linked n h,
    );
    numbered = λ n b f. ground (arith, at n, v.numbered n b, next.numbered);
    filled = λ m n f g h. ground (arith, at m, at n, v.bounded m, v.filled m n);
    ordered = λ m n a b f g h. ground (
      arith,
      at m,
      at n,
      v.tip.1,
      v.tip.2,
      v.bounded m,
      v.bounded n,
      v.ordered m n a b,
      v.ordered m s.current_block a latest,
      next.later,
    );
  }
    where
      at :
          (n : ℕ)
          → get_block_by_number (with_block s (s.current_block + 1) block) n
            ≡ (if s.current_block + 1 == n then some block else get_block_by_number s n)
      at n = get_block_by_number-with_block s block n v fresh

  -- `t` is the well-formed chain `s` with `block` at its end.
  abbrev pub Extends : BlockchainState T R H D → Block T → BlockchainState T R H D → Type 0
  Extends s block t =
      IsChain t
      × (t.current_block ≡ s.current_block + 1)
      × (t.current_block_hash ≡ block.hash)
      × ((n : ℕ)
          → get_block_by_number t n
            ≡ (if s.current_block + 1 == n then some block else get_block_by_number s n))
      × (t.current_batch ≡ s.current_batch)

  -- A block that `apply_block` accepts, and whose hash is new, extends the chain: the chain stays
  -- well formed (the current block is stored under its hash and its number, the numbers that are
  -- known end there and have no gap, each of them leads to a stored block of that number, and their
  -- timestamps ascend; nothing is said of parent hashes, which the code does not read), the new block is the current one, every other number finds what it found before,
  -- and the batch is the same.
  pub apply_block-IsChain :
      (s s' : BlockchainState T R H D) (block : Block T)
      → IsChain s
      → get_block_by_hash s block.hash ≡ none
      → apply_block s block ≡ done s'
      → Extends s block s'
  apply_block-IsChain s s' block v fresh h = subst (Extends s block) same good
    where
      latest : Block T
      latest = v.tip.0

      found : lookup s.current_block_hash s.blocks ≡ some latest
      found = unfold get_block_by_hash in v.tip.1

      next : IsNext s latest block
      next = apply_block_sound s s' latest block found h

      same : with_block s (s.current_block + 1) block ≡ s'
      same =
          ap (λ n. with_block s n block) (sym next.numbered)
          ∙ cc (apply_block_complete s latest block found next)

      good : Extends s block (with_block s (s.current_block + 1) block)
      good = (
        with_block-IsChain s latest block v.tip.1 fresh next v,
        refl,
        refl,
        λ n. get_block_by_number-with_block s block n v fresh,
        refl,
      )

  -- A genesis block of number 0 makes a well-formed chain.
  pub new_genesis-IsChain :
      (protocol_version : ℕ) (block : Block T) (header : H)
      → block.number ≡ 0
      → IsChain (new_genesis {R = R} {D = D} protocol_version block header)
  unfolding new_genesis get_block_by_number get_block_by_hash
  new_genesis-IsChain protocol_version block header e = record {
    tip = (block, ground arith, ground arith);
    bounded = λ n h. ground arith;
    linked = λ n h f. ground arith;
    numbered = λ n b f. ground arith;
    filled = λ m n f g h. ground arith;
    ordered = λ m n a b f g h. ground arith;
  }
