-- ===== src/Node/Blockchain/Load.antt =====
-- `load_blocks` of crates/core/src/node/inner/blockchain.rs: the chain after a saved state is loaded.
use anvil_zksync.Base.{
  ℕ, ◌%◌, ◌^◌, ◌≤◌, ◌≡◌, refl, sym, subst, ◌≢◌, ◌⊎◌, inl, inr, Bool, true, false, List, [], ◌∷◌,
  none, some, if◌then◌else◌, leb, lookup, insert, nat_key, done, arith, >>=-eq-done, unwrap,
  unwrap-eq-done, as_u32, as_u64, lookup-insert, All,
}
use mathlib.Core.Option.{some-injective}
use anvil_zksync.Node.Time.{TimeState, reset_to}
use anvil_zksync.Node.Blockchain.{
  Block, BlockchainState, insert_blocks, load_blocks, max_by_number, latest_of,
}
use anvil_zksync.Node.Blockchain.Queries.{get_block_by_hash}

module _ {T : Type 0} where
  max_by_number-le :
      (best : Block T) (m : List (ℕ × Block T)) → best.number ≤ (max_by_number best m).number
  max_by_number-le best [] = omega arith
  max_by_number-le best ((h, b) ∷ rest) =
      ground (arith, max_by_number-le b rest, max_by_number-le best rest)

  max_by_number-lookup :
      (best : Block T) (m : List (ℕ × Block T)) (h : ℕ) (b : Block T)
      → lookup h m ≡ some b
      → b.number ≤ (max_by_number best m).number
  max_by_number-lookup best [] h b e = cc
  max_by_number-lookup best ((j, c) ∷ rest) h b e = ground (
    arith,
    max_by_number-le c rest,
    max_by_number-le best rest,
    max_by_number-lookup c rest h b,
    max_by_number-lookup best rest h b,
  )

  -- The block is one of the values of the map.
  abbrev pub Stands : Block T → List (ℕ × Block T) → Type 0
  Stands b [] = ⊥
  Stands b ((h, c) ∷ m) = (c ≡ b) ⊎ Stands b m

  -- A choice between two blocks, of which either way the greatest of the rest is known to stand.
  chosen-Stands :
      (b : Bool) (best c : Block T) (rest : List (ℕ × Block T))
      → ((x : Block T) → (x ≡ max_by_number x rest) ⊎ Stands (max_by_number x rest) rest)
      → let l = max_by_number (if b then c else best) rest in (best ≡ l) ⊎ ((c ≡ l) ⊎ Stands l rest)
  chosen-Stands true best c rest k = inr (k c)
  chosen-Stands false best c rest k = elim (k best) [ inl e ↦ inl e | inr e ↦ inr (inr e) ]

  max_by_number-Stands :
      (m : List (ℕ × Block T)) (best : Block T)
      → (best ≡ max_by_number best m) ⊎ Stands (max_by_number best m) m
  max_by_number-Stands [] best = inl refl
  max_by_number-Stands ((h, c) ∷ rest) best =
      chosen-Stands (leb best.number c.number) best c rest (max_by_number-Stands rest)

  -- The block that is made current is stored and has the greatest number of all that are stored.
  latest_of-max :
      (m : List (ℕ × Block T)) (latest : Block T)
      → latest_of m ≡ some latest
      → Stands latest m × ((h : ℕ) (b : Block T) → lookup h m ≡ some b → b.number ≤ latest.number)
  latest_of-max [] latest e = cc
  latest_of-max ((j, c) ∷ rest) latest e =
      subst
        (λ l.
          Stands l ((j, c) ∷ rest)
          × ((h : ℕ) (b : Block T) → lookup h ((j, c) ∷ rest) ≡ some b → b.number ≤ l.number))
        (some-injective _ _ e)
        (
          max_by_number-Stands rest c,
          λ h b f. ground (arith, max_by_number-le c rest, max_by_number-lookup c rest h b),
        )

module _ {T R H D : Type 0} where
  insert_blocks-keeps :
      (s : BlockchainState T R H D) (blocks : List (Block T)) (h : ℕ)
      → get_block_by_hash s h ≢ none
      → get_block_by_hash (insert_blocks s blocks) h ≢ none
  unfolding insert_blocks get_block_by_hash
  insert_blocks-keeps s [] h k = k
  insert_blocks-keeps s (block ∷ blocks) h k =
      insert_blocks-keeps
        (record s {
          hashes = insert (block.number % 2 ^ 32) block.hash s.hashes;
          blocks = insert block.hash block s.blocks;
        })
        blocks h (λ e. ground (arith, lookup-insert block.hash h block s.blocks))

  insert_blocks-found :
      (s : BlockchainState T R H D) (blocks : List (Block T))
      → All (λ b. get_block_by_hash (insert_blocks s blocks) b.hash ≢ none) blocks
  unfolding insert_blocks
  insert_blocks-found s [] = tt
  insert_blocks-found s (block ∷ blocks) =
      let s1 : BlockchainState T R H D = record s {
        hashes = insert (block.number % 2 ^ 32) block.hash s.hashes;
        blocks = insert block.hash block s.blocks;
      } in
      (
        insert_blocks-keeps s1 blocks block.hash (
            unfold get_block_by_hash in
            λ e. ground (arith, lookup-insert block.hash block.hash block s.blocks)),
        insert_blocks-found s1 blocks,
      )

  -- When `load_blocks` goes through, every loaded block's hash is known; one of the stored blocks,
  -- of which none has a greater number, is current, with its hash, its batch and its number as a
  -- u32; and the clock stands at that block's timestamp with no enforced timestamp pending.
  pub load_blocks_lem :
      (s s' : BlockchainState T R H D) (time time' : TimeState) (blocks : List (Block T))
      → load_blocks s time blocks ≡ done (s', time')
      → (latest : Block T) × Stands latest s'.blocks
        × ((h : ℕ) (b : Block T) → get_block_by_hash s' h ≡ some b → b.number ≤ latest.number)
        × (s'.current_block ≡ latest.number % 2 ^ 32)
        × (s'.current_block_hash ≡ latest.hash)
        × (latest.l1_batch_number ≡ some s'.current_batch)
        × (time' ≡ record {
          current_timestamp = latest.timestamp;
          next_timestamp = none;
          interval = time.interval;
        })
        × All (λ b. get_block_by_hash s' b.hash ≢ none) blocks
  unfolding load_blocks get_block_by_hash reset_to
  load_blocks_lem s s' time time' blocks h =
      let s1 = insert_blocks s blocks in
      let (latest, e1, k1) = >>=-eq-done (unwrap (latest_of s1.blocks)) _ h in
      let (batch, e2, k2) = >>=-eq-done (unwrap latest.l1_batch_number) _ k1 in
      let (batch32, e3, k3) = >>=-eq-done (as_u32 batch) _ k2 in
      let (timestamp, e4, k4) = >>=-eq-done (as_u64 latest.timestamp) _ k3 in
      let (stands, most) =
        latest_of-max s1.blocks latest (unwrap-eq-done (latest_of s1.blocks) e1) in
      let same : s'.blocks ≡ s1.blocks = ground arith in
      (
        latest,
        subst (Stands latest) (sym same) stands,
        λ j b f. most j b (ground arith),
        ground arith,
        ground arith,
        ground arith,
        ground arith,
        rw same (insert_blocks-found s blocks),
      )
