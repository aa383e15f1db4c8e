-- ===== src/Filters/Matches.antt =====
-- `LogFilter::matches` of crates/core/src/filters.rs against what a log filter means.
use anvil_zksync.Base.{
  ℕ, suc, zero, ◌≤◌, ◌≡◌, refl, ◌↔◌, ◌⊎◌, inl, inr, true, not, ◌||◌, List, [], ◌∷◌, Option, none,
  some, ◌==◌, all, is_empty, contains, take, get_elem?, arith, and_parts,
}
use anvil_zksync.Utils.{to_real_block_number}
use anvil_zksync.Filters.{Log, LogFilter, topic_matches, matched_topics, matches_at, matches}

-- The set at a place of the filter admits the topic: no set, an empty set, or a set that holds it.
abbrev pub Admits : List (Option (List ℕ)) → List ℕ → Type 0
Admits sets topics =
    (i : ℕ) (s : List ℕ) (topic : ℕ)
    → get_elem? sets i ≡ some (some s)
    → get_elem? topics i ≡ some topic
    → (s ≡ []) ⊎ (contains topic s ≡ true)

topic_matches_iff :
    (s : List ℕ) (topic : ℕ)
    → (topic_matches (some s) topic ≡ true) ↔ ((s ≡ []) ⊎ (contains topic s ≡ true))
unfolding topic_matches
topic_matches_iff [] topic = (λ h. inl refl, λ h. refl)
topic_matches_iff (x ∷ xs) topic = ground arith

topic_matches-none : (topic : ℕ) → topic_matches none topic ≡ true
unfolding topic_matches
topic_matches-none topic = refl

matched_topics_sound :
    (ss : List (Option (List ℕ))) (ts : List ℕ)
    → all (λ m. m) (matched_topics ss ts) ≡ true
    → Admits ss ts
unfolding matched_topics
matched_topics_sound [] ts h i s topic a b = cc
matched_topics_sound (o ∷ ss) [] h i s topic a b = cc
matched_topics_sound (o ∷ ss) (t ∷ ts) h zero s topic a b =
    (topic_matches_iff s topic).0 (ground (arith, and_parts (topic_matches o t) _ h))
matched_topics_sound (o ∷ ss) (t ∷ ts) h (suc i) s topic a b =
    matched_topics_sound ss ts (and_parts (topic_matches o t) _ h).1 i s topic a b

matched_topics_complete :
    (ss : List (Option (List ℕ))) (ts : List ℕ)
    → Admits ss ts
    → all (λ m. m) (matched_topics ss ts) ≡ true
unfolding matched_topics
matched_topics_complete [] ts h = refl
matched_topics_complete (o ∷ ss) [] h = matched_topics_complete ss [] (λ i s topic a b. cc)
matched_topics_complete (none ∷ ss) (t ∷ ts) h =
    rw (topic_matches-none t)
      (matched_topics_complete ss ts (λ i s topic a b. h (suc i) s topic a b))
matched_topics_complete (some s ∷ ss) (t ∷ ts) h =
    rw ((topic_matches_iff s t).1 (h 0 s t refl refl))
      (matched_topics_complete ss ts (λ i s topic a b. h (suc i) s topic a b))

all_other_iff :
    (addr : ℕ) (addrs : List ℕ) → (all (λ a. not (a == addr)) addrs ≡ not (contains addr addrs))
all_other_iff addr [] = refl
all_other_iff addr (a ∷ addrs) = ground (arith, all_other_iff addr addrs)

module _ {L : Type 0} ⦃l : Log L⦄ where
  -- What it means for a filter to want a log of block `n`.
  pub record Wants (f : LogFilter L) (entry : L) (latest n : ℕ) : Type 0 where
    pub from : to_real_block_number f.from_block latest ≤ n
    pub to : n ≤ to_real_block_number f.to_block latest
    pub address : (f.addresses ≡ []) ⊎ (contains (l.address entry) f.addresses ≡ true)
    pub topics : Admits f.topics (take 4 (l.topics entry))

  matches_at_sound :
      (f : LogFilter L) (entry : L) (latest n : ℕ)
      → matches_at f entry latest n ≡ true
      → Wants f entry latest n
  unfolding matches_at
  matches_at_sound f entry latest n h = record {
    from = ground arith;
    to = ground arith;
    address = addresses f.addresses (ground (arith, all_other_iff (l.address entry) f.addresses));
    topics = matched_topics_sound f.topics (take 4 (l.topics entry)) (ground arith);
  }
    where
      addresses :
          (addrs : List ℕ)
          → (is_empty addrs || contains (l.address entry) addrs) ≡ true
          → (addrs ≡ []) ⊎ (contains (l.address entry) addrs ≡ true)
      addresses [] h = inl refl
      addresses (a ∷ addrs) h = inr h

  matches_at_complete :
      (f : LogFilter L) (entry : L) (latest n : ℕ)
      → Wants f entry latest n
      → matches_at f entry latest n ≡ true
  unfolding matches_at
  matches_at_complete f entry latest n w = ground (
    arith,
    w.from,
    w.to,
    w.address,
    all_other_iff (l.address entry) f.addresses,
    matched_topics_complete f.topics (take 4 (l.topics entry)) w.topics,
  )

  -- A filter matches a log that lies in block `n` exactly if `n` lies between the filter's two
  -- bounds, read at the latest block, both included; the log's address is one of the filter's, if
  -- it names any; and each of the first four topics is in the filter's set at its place, if there
  -- is one that is not empty.
  pub matches_iff :
      (f : LogFilter L) (entry : L) (latest n : ℕ)
      → l.block_number entry ≡ some n
      → (matches f entry latest ≡ some true) ↔ Wants f entry latest n
  unfolding matches
  matches_iff f entry latest n e = (
    λ h. matches_at_sound f entry latest n (ground arith),
    λ w. ground (arith, matches_at_complete f entry latest n w),
  )
