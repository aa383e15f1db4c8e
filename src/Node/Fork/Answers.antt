-- ===== src/Node/Fork/Answers.antt =====
-- Sequences of lookups on `Fork` of crates/core/src/node/inner/fork.rs.
use anvil_zksync.Base.{
  ℕ, ◌≡◌, refl, sym, ◌∙◌, ap, subst, true, List, [], ◌∷◌, Option, none, some, lookup, insert,
  nat_key, pair_key,
}
use anvil_zksync.Node.Fork.{
  BlockId, Cache, get_block, get_block_hash, get_block_raw_transactions, get_transaction,
  get_bridge_addresses, get_confirmed_tokens, insert_block, insert_block_raw_transactions,
  insert_transaction, set_bridge_addresses, set_confirmed_tokens,
}
use anvil_zksync.Node.Fork.Lookups.{
  BlockNumber, at_number, at_tag, ForkClient, Fork, make_call, then_some, or_ask, and_then,
  transaction_by_hash, raw_block_transactions, block_by_hash, block_by_number, bridge_contracts,
  confirmed_tokens,
}
use anvil_zksync.Node.Fork.Cached.{
  Holds-insert, found_if-some, kept_if-Holds, Consistent, Agrees, insert_block-Agrees, Still,
  or_ask-Still,
}

pub data Question : Type 0 where
  ask_transaction ask_raw ask_block : ℕ → Question
  ask_number : BlockNumber → Question
  ask_bridge : Question
  ask_tokens : ℕ → ℕ → Question

pub data Reply (B X T A K : Type 0) : Type 0 where
  transaction : Option (Option T) → Reply B X T A K
  raw : Option (Option X) → Reply B X T A K
  block : Option (Option B) → Reply B X T A K
  bridge : Option (Option A) → Reply B X T A K
  tokens : Option (Option K) → Reply B X T A K

then_some-eq : {V : Type 0} (o : Option V) (v : V) → then_some o ≡ some (some v) → o ≡ some v
then_some-eq none v e = absurd cc
then_some-eq (some w) v e = cc

module _ {C B X T A K : Type 0} ⦃r : ForkClient C B X T A K⦄ ⦃b : BlockId B⦄ where
  unfoldable pub ask : Fork C B X T A K → Question → Fork C B X T A K × Reply B X T A K
  unfolding transaction_by_hash raw_block_transactions block_by_hash block_by_number
      bridge_contracts confirmed_tokens
  ask f (ask_transaction h) =
      let answer = transaction_by_hash f h in (answer.0, transaction answer.1)
  ask f (ask_raw n) = let answer = raw_block_transactions f n in (answer.0, raw answer.1)
  ask f (ask_block h) = let answer = block_by_hash f h in (answer.0, block answer.1)
  ask f (ask_number n) = let answer = block_by_number f n in (answer.0, block answer.1)
  ask f ask_bridge = let answer = bridge_contracts f in (answer.0, bridge answer.1)
  ask f (ask_tokens n l) = let answer = confirmed_tokens f n l in (answer.0, tokens answer.1)

  unfoldable pub ask_all : Fork C B X T A K → List Question → List (Reply B X T A K)
  unfolding ask
  ask_all f [] = []
  ask_all f (q ∷ qs) = let answer = ask f q in answer.1 ∷ ask_all answer.0 qs

-- The answer of the client itself.
unfoldable pub direct :
    {C B X T A K : Type 0} ⦃r : ForkClient C B X T A K⦄ → C → Question → Reply B X T A K
direct ⦃r⦄ client (ask_transaction h) = transaction (r.transaction_by_hash client h)
direct ⦃r⦄ client (ask_raw n) = raw (then_some (r.raw_block_transactions client n))
direct ⦃r⦄ client (ask_block h) = block (r.block_by_hash client h)
direct ⦃r⦄ client (ask_number n) = block (r.block_by_number client n)
direct ⦃r⦄ client ask_bridge = bridge (then_some (r.bridge_contracts client))
direct ⦃r⦄ client (ask_tokens n l) = tokens (then_some (r.confirmed_tokens client n l))

unfoldable pub direct_all :
    {C B X T A K : Type 0} ⦃r : ForkClient C B X T A K⦄ → C → List Question → List (Reply B X T A K)
unfolding direct
direct_all client [] = []
direct_all client (q ∷ qs) = direct client q ∷ direct_all client qs

module _ {C B X T A K : Type 0} ⦃r : ForkClient C B X T A K⦄ ⦃b : BlockId B⦄ where
  by_number-found :
      (client : C) (c : Cache B X T A K) (n : ℕ) (v : B)
      → Consistent r client
      → Agrees client c
      → and_then (get_block_hash c n) (λ h. get_block c h true) ≡ some v
      → r.block_by_number client (at_number n) ≡ some (some v)
  unfolding get_block get_block_hash
  by_number-found client c n v k a = go (get_block_hash c n) refl
    where
      go :
          (o : Option ℕ)
          → get_block_hash c n ≡ o
          → and_then o (λ h. get_block c h true) ≡ some v
          → r.block_by_number client (at_number n) ≡ some (some v)
      go none e f = absurd cc
      go (some h) e f =
          let one = a.hashes n h (found_if-some c.config (lookup n c.block_hashes) h e) in
          let two = a.blocks h v (found_if-some c.config (lookup h c.blocks_full) v f) in
          let same : one.0 ≡ v = cc (one.2, two) in
          let numbered : b.number v ≡ n = ap (λ x. b.number x) (sym same) ∙ one.1 in
          subst (λ m. r.block_by_number client (at_number m) ≡ some (some v)) numbered
            (k.numbered h v two)

  answered-Still :
      {V : Type 0} (client : C) (f : Fork C B X T A K) (found : Option V)
      (default : Option (Option V)) (call : C → Option (Option V)) (keep : V → Cache B X T A K)
      → Still client f
      → ((v : V) → found ≡ some v → call client ≡ some (some v))
      → ((v : V) → call client ≡ some (some v) → Agrees client (keep v))
      → let after = or_ask f found (make_call f.client default call) keep in
        (after.1 ≡ call client) × Still client after.0
  answered-Still client f found default call keep s h k =
      let same : make_call f.client default call ≡ call client =
        ap (λ o. make_call o default call) s.0 in
      let after =
        or_ask-Still client f found (make_call f.client default call) keep s (λ v e. same ∙ h v e)
          (λ v e. k v (sym same ∙ e)) in
      (after.0 ∙ same, after.1)

  insert_transaction-Agrees :
      (client : C) (c : Cache B X T A K) (h : ℕ) (tx : T)
      → r.transaction_by_hash client h ≡ some (some tx)
      → Agrees client c
      → Agrees client (insert_transaction c h tx)
  unfolding insert_transaction
  insert_transaction-Agrees client c h tx e a =
      kept_if-Holds (Agrees client) c.config c
        (record c { transactions = insert h tx c.transactions }) a
        (record {
          hashes = a.hashes;
          blocks = a.blocks;
          raw = a.raw;
          txs = Holds-insert _ h tx c.transactions e a.txs;
          bridge = a.bridge;
          tokens = a.tokens;
        })

  insert_raw-Agrees :
      (client : C) (c : Cache B X T A K) (n : ℕ) (txs : X)
      → r.raw_block_transactions client n ≡ some txs
      → Agrees client c
      → Agrees client (insert_block_raw_transactions c n txs)
  unfolding insert_block_raw_transactions
  insert_raw-Agrees client c n txs e a =
      kept_if-Holds (Agrees client) c.config c
        (record c { block_raw_transactions = insert n txs c.block_raw_transactions }) a
        (record {
          hashes = a.hashes;
          blocks = a.blocks;
          raw = Holds-insert _ n txs c.block_raw_transactions e a.raw;
          txs = a.txs;
          bridge = a.bridge;
          tokens = a.tokens;
        })

  set_bridge-Agrees :
      (client : C) (c : Cache B X T A K) (addresses : A)
      → r.bridge_contracts client ≡ some addresses
      → Agrees client c
      → Agrees client (set_bridge_addresses c addresses)
  unfolding set_bridge_addresses
  set_bridge-Agrees client c addresses e a =
      kept_if-Holds (Agrees client) c.config c (record c { bridge_addresses = some addresses }) a
        (record {
          hashes = a.hashes;
          blocks = a.blocks;
          raw = a.raw;
          txs = a.txs;
          bridge = λ v f. e ∙ f;
          tokens = a.tokens;
        })

  set_tokens-Agrees :
      (client : C) (c : Cache B X T A K) (n l : ℕ) (t : K)
      → r.confirmed_tokens client n l ≡ some t
      → Agrees client c
      → Agrees client (set_confirmed_tokens c n l t)
  unfolding set_confirmed_tokens
  set_tokens-Agrees client c n l t e a =
      kept_if-Holds (Agrees client) c.config c
        (record c { confirmed_tokens = insert (n, l) t c.confirmed_tokens }) a
        (record {
          hashes = a.hashes;
          blocks = a.blocks;
          raw = a.raw;
          txs = a.txs;
          bridge = a.bridge;
          tokens = Holds-insert _ (n, l) t c.confirmed_tokens e a.tokens;
        })

  ask-Still :
      (client : C) (f : Fork C B X T A K) (q : Question)
      → Consistent r client
      → Still client f
      → ((ask f q).1 ≡ direct client q) × Still client (ask f q).0
  unfolding ask direct transaction_by_hash raw_block_transactions block_by_hash block_by_number
      bridge_contracts confirmed_tokens get_transaction insert_transaction get_block
      get_block_raw_transactions insert_block_raw_transactions get_bridge_addresses
      set_bridge_addresses get_confirmed_tokens set_confirmed_tokens
  ask-Still client f (ask_transaction h) k s =
      let after =
        answered-Still client f (get_transaction f.cache h) (some none)
          (λ cl. r.transaction_by_hash cl h) (λ tx. insert_transaction f.cache h tx) s
          (λ v e. s.1.txs h v (found_if-some f.cache.config (lookup h f.cache.transactions) v e))
          (λ v e. insert_transaction-Agrees client f.cache h v e s.1) in
      (ap transaction after.0, after.1)
  ask-Still client f (ask_raw n) k s =
      let after =
        answered-Still client f (get_block_raw_transactions f.cache n) none
          (λ cl. then_some (r.raw_block_transactions cl n))
          (λ txs. insert_block_raw_transactions f.cache n txs) s
          (λ v e. ap then_some (
            s.1.raw n v
              (found_if-some f.cache.config (lookup n f.cache.block_raw_transactions) v e)))
          (λ v e. insert_raw-Agrees client f.cache n v (then_some-eq _ v e) s.1) in
      (ap raw after.0, after.1)
  ask-Still client f (ask_block h) k s =
      let after =
        answered-Still client f (get_block f.cache h true) (some none) (λ cl. r.block_by_hash cl h)
          (λ v. insert_block f.cache h true v) s
          (λ v e. s.1.blocks h v (found_if-some f.cache.config (lookup h f.cache.blocks_full) v e))
          (λ v e. insert_block-Agrees client f.cache h v k e s.1) in
      (ap block after.0, after.1)
  ask-Still client f (ask_number (at_number n)) k s =
      let after =
        answered-Still client f
          (and_then (get_block_hash f.cache n) (λ h. get_block f.cache h true)) (some none)
          (λ cl. r.block_by_number cl (at_number n)) (λ v. insert_block f.cache (b.hash v) true v) s
          (λ v e. by_number-found client f.cache n v k s.1 e)
          (λ v e. insert_block-Agrees client f.cache (b.hash v) v k (k.found n v e).1 s.1) in
      (ap block after.0, after.1)
  ask-Still client f (ask_number (at_tag tag)) k s =
      (ap (λ o. block (make_call o (some none) (λ cl. r.block_by_number cl (at_tag tag)))) s.0, s)
  ask-Still client f ask_bridge k s =
      let after =
        answered-Still client f (get_bridge_addresses f.cache) (some none)
          (λ cl. then_some (r.bridge_contracts cl)) (λ v. set_bridge_addresses f.cache v) s
          (λ v e.
            ap then_some (s.1.bridge v (found_if-some f.cache.config f.cache.bridge_addresses v e)))
          (λ v e. set_bridge-Agrees client f.cache v (then_some-eq _ v e) s.1) in
      (ap bridge after.0, after.1)
  ask-Still client f (ask_tokens n l) k s =
      let after =
        answered-Still client f (get_confirmed_tokens f.cache n l) (some none)
          (λ cl. then_some (r.confirmed_tokens cl n l)) (λ v. set_confirmed_tokens f.cache n l v) s
          (λ v e. ap then_some (
            s.1.tokens (n, l) v
              (found_if-some f.cache.config (lookup (n, l) f.cache.confirmed_tokens) v e)))
          (λ v e. set_tokens-Agrees client f.cache n l v (then_some-eq _ v e) s.1) in
      (ap tokens after.0, after.1)

  -- The cache is not seen: on a fork whose cache agrees with its client, as an empty one does, any
  -- lookups one after the other have the answers that the client itself gives, errors included,
  -- whichever of them come from the cache and however the cache is configured. The client always
  -- answers a question in the same way, and its answers on blocks by hash and by number fit together.
  pub ask_all-direct :
      (client : C) (f : Fork C B X T A K) (qs : List Question)
      → Consistent r client
      → Still client f
      → ask_all f qs ≡ direct_all client qs
  unfolding ask_all direct_all
  ask_all-direct client f [] k s = refl
  ask_all-direct client f (q ∷ qs) k s =
      let one = ask-Still client f q k s in cc (one.0, ask_all-direct client (ask f q).0 qs k one.1)
