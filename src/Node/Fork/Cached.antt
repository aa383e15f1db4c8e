-- ===== src/Node/Fork/Cached.antt =====
-- The cached lookups of crates/core/src/node/inner/fork.rs answer as the client does.
use anvil_zksync.Base.{
  ℕ, ◌≡◌, refl, sym, ◌∙◌, ap, subst, inl, inr, true, List, Option, none, some, lookup, insert, Key,
  nat_key, pair_key, lookup-insert, Bool-cases,
}
use anvil_zksync.Node.Fork.{
  CacheConfig, off, memory, disk, BlockId, Cache, found_if, kept_if, insert_block,
}
use anvil_zksync.Node.Fork.Lookups.{at_number, ForkClient, Fork, or_ask}

-- Whatever the map has satisfies `P`.
abbrev pub Holds : {K V : Type 0} ⦃e : Key K⦄ → (K → V → Type 0) → List (K × V) → Type 0
Holds {K} {V} P m = (k : K) (v : V) → lookup k m ≡ some v → P k v

pub Holds-insert :
    {K V : Type 0} ⦃e : Key K⦄ (P : K → V → Type 0) (k : K) (v : V) (m : List (K × V))
    → P k v
    → Holds P m
    → Holds P (insert k v m)
Holds-insert ⦃e⦄ P k v m p h j w f = elim (Bool-cases (e.beq k j)) [
  | inl g ↦
      let same : k ≡ j = (e.beq_iff k j).0 g in
      let found : some v ≡ some w = sym (lookup-insert k j v m ∙ rw g refl) ∙ f in
      let value : v ≡ w = cc in subst (λ x. P j x) value (subst (λ x. P x v) same p)
  | inr g ↦ h j w (sym (lookup-insert k j v m ∙ rw g refl) ∙ f)
]

pub found_if-some :
    {V : Type 0} (config : CacheConfig) (o : Option V) (v : V)
    → found_if config o ≡ some v
    → o ≡ some v
found_if-some off o v e = absurd cc
found_if-some memory o v e = e
found_if-some disk o v e = e

pub kept_if-Holds :
    {V : Type 0} (P : V → Type 0) (config : CacheConfig) (cache changed : V)
    → P cache
    → P changed
    → P (kept_if config cache changed)
kept_if-Holds P off cache changed h k = h
kept_if-Holds P memory cache changed h k = k
kept_if-Holds P disk cache changed h k = k

module _ {C B X T A K : Type 0} (r : ForkClient C B X T A K) ⦃b : BlockId B⦄ where
  -- The client's answers on blocks fit together: a block that is found by its hash has it, and is
  -- found by its number, and one that is found by a number has it, and is found by its hash.
  pub record Consistent (client : C) : Type 0 where
    pub hashed :
        (h : ℕ) (block : B) → r.block_by_hash client h ≡ some (some block) → b.hash block ≡ h
    pub numbered :
        (h : ℕ) (block : B)
        → r.block_by_hash client h ≡ some (some block)
        → r.block_by_number client (at_number (b.number block)) ≡ some (some block)
    pub found :
        (n : ℕ) (block : B)
        → r.block_by_number client (at_number n) ≡ some (some block)
        → (b.number block ≡ n) × (r.block_by_hash client (b.hash block) ≡ some (some block))

module _ {C B X T A K : Type 0} ⦃r : ForkClient C B X T A K⦄ ⦃b : BlockId B⦄ where
  -- What the cache has is what the client says.
  pub record Agrees (client : C) (c : Cache B X T A K) : Type 0 where
    pub hashes :
        Holds
          (λ (n h : ℕ).
            (block : B) × (b.number block ≡ n) × (r.block_by_hash client h ≡ some (some block)))
          c.block_hashes
    pub blocks :
        Holds (λ (h : ℕ) (block : B). r.block_by_hash client h ≡ some (some block)) c.blocks_full
    pub raw :
        Holds
          (λ (n : ℕ) (txs : X). r.raw_block_transactions client n ≡ some txs)
          c.block_raw_transactions
    pub txs :
        Holds (λ (h : ℕ) (tx : T). r.transaction_by_hash client h ≡ some (some tx)) c.transactions
    pub bridge : (a : A) → c.bridge_addresses ≡ some a → r.bridge_contracts client ≡ some a
    pub tokens :
        Holds (λ (k : ℕ × ℕ) (t : K). r.confirmed_tokens client k.0 k.1 ≡ some t) c.confirmed_tokens

  pub insert_block-Agrees :
      (client : C) (c : Cache B X T A K) (h : ℕ) (block : B)
      → Consistent r client
      → r.block_by_hash client h ≡ some (some block)
      → Agrees client c
      → Agrees client (insert_block c h true block)
  unfolding insert_block
  insert_block-Agrees client c h block k e a =
      let here : r.block_by_hash client (b.hash block) ≡ some (some block) =
        ap (λ x. r.block_by_hash client x) (k.hashed h block e) ∙ e in
      kept_if-Holds (Agrees client) c.config c
        (record c {
          block_hashes = insert (b.number block) (b.hash block) c.block_hashes;
          blocks_full = insert h block c.blocks_full;
        })
        a
        (record {
          hashes =
              Holds-insert _ (b.number block) (b.hash block) c.block_hashes (block, refl, here)
                a.hashes;
          blocks = Holds-insert _ h block c.blocks_full e a.blocks;
          raw = a.raw;
          txs = a.txs;
          bridge = a.bridge;
          tokens = a.tokens;
        })

  -- A fork after a lookup: the same client, and a cache that agrees with it.
  abbrev pub Still : C → Fork C B X T A K → Type 0
  Still client f = (f.client ≡ some client) × Agrees client f.cache

  pub or_ask-Still :
      {V : Type 0} (client : C) (f : Fork C B X T A K) (found : Option V)
      (answer : Option (Option V)) (keep : V → Cache B X T A K)
      → Still client f
      → ((v : V) → found ≡ some v → answer ≡ some (some v))
      → ((v : V) → answer ≡ some (some v) → Agrees client (keep v))
      → ((or_ask f found answer keep).1 ≡ answer) × Still client (or_ask f found answer keep).0
  or_ask-Still client f (some v) answer keep s h k = (sym (h v refl), s)
  or_ask-Still client f none none keep s h k = (refl, s)
  or_ask-Still client f none (some none) keep s h k = (refl, s)
  or_ask-Still client f none (some (some v)) keep s h k = (refl, (s.0, k v refl))
