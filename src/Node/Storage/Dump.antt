-- ===== src/Node/Storage/Dump.antt =====
-- `dump_state` and `load_state` of crates/core/src/node/inner/fork_storage.rs.
use anvil_zksync.Base.{
  ℕ, ◌≡◌, refl, subst, ◌∙◌, inl, inr, List, [], ◌∷◌, Option, none, some, ◌==◌, lookup, extend,
  nat_key, pair_key, arith, Bool-cases, ==_iff, Distinct, or_else, extend-Distinct, lookup-extend,
}
use anvil_zksync.Node.Storage.{
  Client, ForkStorageInner, SerializableForkStorage, dump_state, load_state, cached_deps,
}
use anvil_zksync.Node.Storage.Overlay.{visible}

abbrev pub join : {A : Type 0} → Option (Option A) → Option A
join none = none
join (some o) = o

lookup-cached_deps :
    (k : ℕ) (m : List (ℕ × Option (List ℕ)))
    → Distinct m
    → lookup k (cached_deps m) ≡ join (lookup k m)
lookup-cached_deps k [] d = refl
lookup-cached_deps k ((j, none) ∷ m) d = elim (Bool-cases (j == k)) [
  | inl h ↦
      rw (h, lookup-cached_deps k m d.1, subst (λ x. lookup x m ≡ none) ((==_iff j k).0 h) d.0)
  | inr h ↦ rw (h, lookup-cached_deps k m d.1)
]
lookup-cached_deps k ((j, some v) ∷ m) d = ground (arith, lookup-cached_deps k m d.1)

cached_deps-Distinct : (m : List (ℕ × Option (List ℕ))) → Distinct m → Distinct (cached_deps m)
cached_deps-Distinct [] d = tt
cached_deps-Distinct ((k, none) ∷ m) d = cached_deps-Distinct m d.1
cached_deps-Distinct ((k, some v) ∷ m) d =
    (rw (lookup-cached_deps k m d.1, d.0) refl, cached_deps-Distinct m d.1)

or_else_assoc : {A : Type 0} (a b d : Option A) → or_else (or_else a b) d ≡ or_else a (or_else b d)
or_else_assoc none b d = refl
or_else_assoc (some a) b d = refl

module _ {C : Type 0} where
  -- The four maps of a storage hold no key twice.
  pub record IsValid (s : ForkStorageInner C) : Type 0 where
    pub state : Distinct s.raw_storage.state
    pub factory_deps : Distinct s.raw_storage.factory_deps
    pub value_cache : Distinct s.value_read_cache
    pub dep_cache : Distinct s.factory_dep_cache

  -- Loading makes no key stand twice.
  pub load_state-IsValid :
      (t : ForkStorageInner C) (d : SerializableForkStorage) → IsValid t → IsValid (load_state t d)
  unfolding load_state
  load_state-IsValid t d v = record {
    state = extend-Distinct t.raw_storage.state d.storage v.state;
    factory_deps = extend-Distinct t.raw_storage.factory_deps d.factory_deps v.factory_deps;
    value_cache = v.value_cache;
    dep_cache = v.dep_cache;
  }

module _ {C D : Type 0} ⦃c : Client C⦄ where
  -- After the dump of one storage is loaded into another, a slot holds what the first one had
  -- locally, else what it had cached, else what the second one held.
  pub load_state-dump_state :
      (s : ForkStorageInner D) (t : ForkStorageInner C) (key : ℕ × ℕ)
      → IsValid s
      → visible (load_state t (dump_state s)) key
        ≡ or_else
            (lookup key s.raw_storage.state)
            (or_else (lookup key s.value_read_cache) (visible t key))
  unfolding visible load_state dump_state
  load_state-dump_state s t key v =
      rw
        (
          lookup-extend key t.raw_storage.state (extend s.value_read_cache s.raw_storage.state)
              (extend-Distinct s.value_read_cache s.raw_storage.state v.value_cache),
          lookup-extend key s.value_read_cache s.raw_storage.state v.state,
        )
        (or_else_assoc (or_else (lookup key s.raw_storage.state) (lookup key s.value_read_cache)) _
            _
          ∙ or_else_assoc (lookup key s.raw_storage.state) _ _)

  -- The same for a bytecode hash, where a cached miss is not dumped.
  pub load_state-dump_state_deps :
      (s : ForkStorageInner D) (t : ForkStorageInner C) (hash : ℕ)
      → IsValid s
      → lookup hash (load_state t (dump_state s)).raw_storage.factory_deps
        ≡ or_else (lookup hash s.raw_storage.factory_deps) (
            or_else
              (join (lookup hash s.factory_dep_cache))
              (lookup hash t.raw_storage.factory_deps))
  unfolding load_state dump_state
  load_state-dump_state_deps s t hash v =
      rw
        (
          lookup-extend hash t.raw_storage.factory_deps
              (extend (cached_deps s.factory_dep_cache) s.raw_storage.factory_deps)
              (extend-Distinct (cached_deps s.factory_dep_cache) s.raw_storage.factory_deps
                (cached_deps-Distinct s.factory_dep_cache v.dep_cache)),
          lookup-extend hash (cached_deps s.factory_dep_cache) s.raw_storage.factory_deps
              v.factory_deps,
          lookup-cached_deps hash s.factory_dep_cache v.dep_cache,
        )
        (or_else_assoc (lookup hash s.raw_storage.factory_deps) _ _)
