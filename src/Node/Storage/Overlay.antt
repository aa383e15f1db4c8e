-- ===== src/Node/Storage/Overlay.antt =====
-- Reads and writes of crates/core/src/node/inner/fork_storage.rs against one overlay of the local
-- storage, the cache and the forked chain.
use anvil_zksync.Base.{
  ℕ, ◌≡◌, refl, ap, subst, fun_ext, ◌∙◌, ◌⊎◌, inl, inr, ◌&&◌, List, [], ◌∷◌, Option, none, some,
  if◌then◌else◌, ◌==◌, lookup, insert, nat_key, pair_key, pair_beq, pair_beq_iff, Outcome, panic,
  done, ◌>>=◌, unwrap, arith, lookup-insert, lookup-insert_self, Option-cases, Bool-cases, or_else,
  ==_iff,
}
use mathlib.Core.Option
use anvil_zksync.Node.Storage.{
  Client, ForkStorageInner, get_storage_at_forked, read_value_internal, read_value_opt, read_cached,
  set_value, raw_set_value, is_write_initial_internal, raw_is_write_initial, get_bytecode_by_hash,
  dep_cached, load_factory_dep_internal, raw_load_factory_dep,
}

module _ {C : Type 0} ⦃c : Client C⦄ where
  -- What a slot holds: the local value, else the cached one, else the one of the forked chain.
  unfoldable pub visible : ForkStorageInner C → ℕ × ℕ → Option ℕ
  visible s key =
      or_else (lookup key s.raw_storage.state)
        (or_else (lookup key s.value_read_cache) (get_storage_at_forked s.fork key))

  -- The same for the bytecode under a hash, where the forked chain may have none.
  unfoldable pub visible_dep : ForkStorageInner C → ℕ → Option (Option (List ℕ))
  visible_dep s hash =
      or_else (Option.map some (lookup hash s.raw_storage.factory_deps))
        (or_else (lookup hash s.factory_dep_cache) (get_bytecode_by_hash s.fork hash))

  -- A remote value that is put into the cache changes no slot.
  visible-cached :
      (s : ForkStorageInner C) (key : ℕ × ℕ) (v : ℕ)
      → lookup key s.value_read_cache ≡ none
      → get_storage_at_forked s.fork key ≡ some v
      → (j : ℕ × ℕ)
      → visible (record s { value_read_cache = insert key v s.value_read_cache }) j ≡ visible s j
  unfolding visible
  visible-cached s key v e f j = elim (Bool-cases (pair_beq key j)) [
    | inl h ↦
        subst
          (λ x.
            visible (record s { value_read_cache = insert key v s.value_read_cache }) x
            ≡ visible s x)
          ((pair_beq_iff key j).0 h) (rw (lookup-insert_self key v s.value_read_cache, e, f))
    | inr h ↦ rw (lookup-insert key j v s.value_read_cache, h)
  ]

  -- A read that goes through.
  pub record ReadsTo (s : ForkStorageInner C) (key : ℕ × ℕ) : Type 0 where
    pub after : ForkStorageInner C
    pub value : ℕ
    pub result : read_value_internal s key ≡ done (after, value)
    pub is_visible : visible s key ≡ some value
    pub all_visible : (j : ℕ × ℕ) → visible after j ≡ visible s j
    pub raw : after.raw_storage ≡ s.raw_storage

  -- A read gives what the slot holds, and changes neither what any slot holds nor the local
  -- storage; it panics exactly if the slot is neither stored nor cached and the remote read fails.
  pub read_value_internal_lem :
      (s : ForkStorageInner C) (key : ℕ × ℕ)
      → ReadsTo s key ⊎ ((read_value_internal s key ≡ panic) × (visible s key ≡ none))
  unfolding visible read_value_internal read_value_opt read_cached
  read_value_internal_lem s key = elim (Option-cases (lookup key s.raw_storage.state)) [
    | inr (v, e) ↦ inl (record {
      after = s;
      value = v;
      result = rw e;
      is_visible = rw e;
      all_visible = λ j. refl;
      raw = refl;
    })
    | inl e ↦ elim (Option-cases (lookup key s.value_read_cache)) [
      | inr (v, f) ↦ inl (record {
        after = s;
        value = v;
        result = rw (e, f);
        is_visible = rw (e, f);
        all_visible = λ j. refl;
        raw = refl;
      })
      | inl f ↦ elim (Option-cases (get_storage_at_forked s.fork key)) [
        | inr (v, g) ↦ inl (record {
          after = record s { value_read_cache = insert key v s.value_read_cache };
          value = v;
          result = rw (e, f, g);
          is_visible = rw (e, f, g);
          all_visible = visible-cached s key v f g;
          raw = refl;
        })
        | inl g ↦ inr (rw (e, f, g), rw (e, f, g))
      ]
    ]
  ]

  -- A write changes what its slot holds, and no other slot.
  pub visible-set_value :
      (s : ForkStorageInner C) (key j : ℕ × ℕ) (v : ℕ)
      → visible (set_value s key v) j ≡ (if pair_beq key j then some v else visible s j)
  unfolding visible set_value raw_set_value
  visible-set_value s key j v = elim (Bool-cases (pair_beq key j)) [
    | inl h ↦ rw (lookup-insert key j v s.raw_storage.state, h)
    | inr h ↦ rw (lookup-insert key j v s.raw_storage.state, h)
  ]

  -- Is the slot written for the first time? Only if it holds zero and is not in the local storage.
  -- The answer needs a read, which goes through if `read_value_internal` does.
  pub is_write_initial_internal_lem :
      (s : ForkStorageInner C) (key : ℕ × ℕ) (r : ReadsTo s key)
      → is_write_initial_internal s key
        ≡ done (r.after, (r.value == 0) && raw_is_write_initial s.raw_storage key)
  unfolding is_write_initial_internal
  is_write_initial_internal_lem s key r = ground (arith, r.result, r.raw)

  visible_dep-cached :
      (s : ForkStorageInner C) (hash : ℕ) (v : Option (List ℕ))
      → lookup hash s.factory_dep_cache ≡ none
      → get_bytecode_by_hash s.fork hash ≡ some v
      → (j : ℕ)
      → visible_dep (record s { factory_dep_cache = insert hash v s.factory_dep_cache }) j
        ≡ visible_dep s j
  unfolding visible_dep
  visible_dep-cached s hash v e f j = elim (Bool-cases (hash == j)) [
    | inl h ↦
        subst
          (λ x.
            visible_dep (record s { factory_dep_cache = insert hash v s.factory_dep_cache }) x
            ≡ visible_dep s x)
          ((==_iff hash j).0 h) (rw (lookup-insert_self hash v s.factory_dep_cache, e, f))
    | inr h ↦ rw (lookup-insert hash j v s.factory_dep_cache, h)
  ]

  none-absurd :
      (s : ForkStorageInner C) (hash : ℕ) (answer : Option (List ℕ))
      → visible_dep s hash ≡ some answer
      → lookup hash s.raw_storage.factory_deps ≡ none
      → lookup hash s.factory_dep_cache ≡ none
      → get_bytecode_by_hash s.fork hash ≡ none
      → ⊥
  unfolding visible_dep
  none-absurd s hash answer h e f g = ground (arith, h, e, f, g)

  -- The bytecode under a hash is the local one, else the cached answer, else the one of the forked
  -- chain, and the storage keeps what each hash stands for.
  pub load_factory_dep_internal_lem :
      (s : ForkStorageInner C) (hash : ℕ) (answer : Option (List ℕ))
      → visible_dep s hash ≡ some answer
      → (after : ForkStorageInner C) × (load_factory_dep_internal s hash ≡ done (after, answer))
        × (after.raw_storage ≡ s.raw_storage)
        × ((j : ℕ) → visible_dep after j ≡ visible_dep s j)
  unfolding visible_dep load_factory_dep_internal raw_load_factory_dep dep_cached
  load_factory_dep_internal_lem s hash answer h =
      elim (Option-cases (lookup hash s.raw_storage.factory_deps)) [
        | inr (v, e) ↦ (s, ground (arith, h, e), refl, λ j. refl)
        | inl e ↦ elim (Option-cases (lookup hash s.factory_dep_cache)) [
          | inr (v, f) ↦ (s, ground (arith, h, e, f), refl, λ j. refl)
          | inl f ↦ elim (Option-cases (get_bytecode_by_hash s.fork hash)) [
            | inr (v, g) ↦ (
              record s { factory_dep_cache = insert hash v s.factory_dep_cache },
              ground (arith, h, e, f, g),
              refl,
              visible_dep-cached s hash v f g,
            )
            | inl g ↦ elim (none-absurd s hash answer h e f g) [ ]
          ]
        ]
      ]

pub data StorageCall : Type 0 where
  read : ℕ × ℕ → StorageCall
  write : ℕ × ℕ → ℕ → StorageCall

module _ {C : Type 0} ⦃c : Client C⦄ where
  -- What a sequence of calls answers to its reads.
  unfoldable pub answers : List StorageCall → ForkStorageInner C → Outcome (List ℕ)
  answers [] s = done []
  answers (read key ∷ calls) s = do
    r ← read_value_internal s key
    rest ← answers calls r.0
    done (r.1 ∷ rest)
  answers (write key value ∷ calls) s = answers calls (set_value s key value)

-- The same for a map from slots to values, where `none` is a slot that cannot be read.
unfoldable pub map_answers : List StorageCall → (ℕ × ℕ → Option ℕ) → Outcome (List ℕ)
map_answers [] m = done []
map_answers (read key ∷ calls) m = do
  value ← unwrap (m key)
  rest ← map_answers calls m
  done (value ∷ rest)
map_answers (write key value ∷ calls) m =
    map_answers calls (λ j. if pair_beq key j then some value else m j)

module _ {C : Type 0} ⦃c : Client C⦄ where
  -- The storage refines a map: any calls get the answers of a map that begins with what the slots
  -- hold, whatever is local, cached or remote.
  pub answers_lem :
      (calls : List StorageCall) (s : ForkStorageInner C)
      → answers calls s ≡ map_answers calls (visible s)
  unfolding answers map_answers
  answers_lem [] s = refl
  answers_lem (read key ∷ calls) s = elim (read_value_internal_lem s key) [
    | inl r ↦ rw (r.result, r.is_visible, answers_lem calls r.after, fun_ext r.all_visible)
    | inr e ↦ rw (e.0, e.1)
  ]
  answers_lem (write key value ∷ calls) s =
      answers_lem calls (set_value s key value)
      ∙ ap (map_answers calls) (fun_ext (λ j. visible-set_value s key j value))
