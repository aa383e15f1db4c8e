-- ===== src/Node/Storage.antt =====
-- crates/core/src/node/inner/fork_storage.rs and the in-memory storage of
-- crates/core/src/deps/mod.rs: the node's key-value storage, which reads what it does not have
-- from the forked chain. The locks are held for the reads and the writes of one call, so that a
-- call is a function from the storage. A storage key is a pair of an account and a slot, a value
-- or a hash is a number, and a bytecode is a list of bytes. The client of the remote chain is
-- network code: the model takes its two answers as a parameter; `none` is a call that failed.
pub mod Overlay
pub mod Dump
pub mod Tests
use anvil_zksync.Base.{
  ℕ, Bool, true, false, not, List, [], ◌∷◌, Option, none, some, if◌then◌else◌, ◌==◌, lookup, insert,
  extend, nat_key, pair_key, Outcome, panic, done, ◌>>=◌, unwrap,
}

-- What the storage asks of the client of a fork: the value of a slot at the forked block, and the
-- bytecode under a hash, if the remote chain has it.
pub record Client (C : Type 0) : Type 0 where
  pub fork_block_number : C → ℕ
  pub remote_storage_at : C → ℕ × ℕ → ℕ → Option ℕ
  pub remote_bytecode_by_hash : C → ℕ → Option (Option (List ℕ))

-- `Fork` of crates/core/src/node/inner/fork.rs: without a client the node does not fork.
pub record Fork (C : Type 0) : Type 0 where
  pub client : Option C

pub record InMemoryStorage : Type 0 where
  pub state : List ((ℕ × ℕ) × ℕ)
  pub factory_deps : List (ℕ × List ℕ)

pub record ForkStorageInner (C : Type 0) : Type 0 where
  pub raw_storage : InMemoryStorage
  pub value_read_cache : List ((ℕ × ℕ) × ℕ)
  pub factory_dep_cache : List (ℕ × Option (List ℕ))
  pub fork : Fork C

pub record SerializableForkStorage : Type 0 where
  pub storage : List ((ℕ × ℕ) × ℕ)
  pub factory_deps : List (ℕ × List ℕ)

unfoldable pub read_value_opt : InMemoryStorage → ℕ × ℕ → Option ℕ
read_value_opt s key = lookup key s.state

unfoldable pub raw_set_value : InMemoryStorage → ℕ × ℕ → ℕ → InMemoryStorage
raw_set_value s key value = record s { state = insert key value s.state }

unfoldable pub raw_store_factory_dep : InMemoryStorage → ℕ → List ℕ → InMemoryStorage
raw_store_factory_dep s hash bytecode = record s {
  factory_deps = insert hash bytecode s.factory_deps;
}

abbrev missing : Option ℕ → Bool
missing none = true
missing (some n) = false

-- `is_write_initial` of the in-memory storage: the key is not in the map.
unfoldable pub raw_is_write_initial : InMemoryStorage → ℕ × ℕ → Bool
raw_is_write_initial s key = missing (lookup key s.state)

unfoldable pub raw_load_factory_dep : InMemoryStorage → ℕ → Option (List ℕ)
raw_load_factory_dep s hash = lookup hash s.factory_deps

-- The cached bytecodes, without the hashes for which the remote chain had none.
abbrev pub cached_deps : List (ℕ × Option (List ℕ)) → List (ℕ × List ℕ)
cached_deps [] = []
cached_deps ((k, none) ∷ m) = cached_deps m
cached_deps ((k, some v) ∷ m) = (k, v) ∷ cached_deps m

module _ {C : Type 0} ⦃c : Client C⦄ where
  -- Without a fork every slot holds zero.
  abbrev storage_of_client : Option C → ℕ × ℕ → Option ℕ
  storage_of_client none key = some 0
  storage_of_client (some client) key = c.remote_storage_at client key (c.fork_block_number client)

  unfoldable pub get_storage_at_forked : Fork C → ℕ × ℕ → Option ℕ
  get_storage_at_forked fork key = storage_of_client fork.client key

  abbrev bytecode_of_client : Option C → ℕ → Option (Option (List ℕ))
  bytecode_of_client none hash = some none
  bytecode_of_client (some client) hash = c.remote_bytecode_by_hash client hash

  unfoldable pub get_bytecode_by_hash : Fork C → ℕ → Option (Option (List ℕ))
  get_bytecode_by_hash fork hash = bytecode_of_client fork.client hash

  -- The remote read: its result goes to the cache.
  abbrev pub read_remote : ForkStorageInner C → ℕ × ℕ → Option ℕ → Outcome (ForkStorageInner C × ℕ)
  read_remote s key none = panic
  read_remote s key (some value) =
      done (record s { value_read_cache = insert key value s.value_read_cache }, value)

  unfoldable pub read_cached :
      ForkStorageInner C → ℕ × ℕ → Option ℕ → Outcome (ForkStorageInner C × ℕ)
  unfolding get_storage_at_forked
  read_cached s key (some cached_value) = done (s, cached_value)
  read_cached s key none = read_remote s key (get_storage_at_forked s.fork key)

  abbrev pub read_local : ForkStorageInner C → ℕ × ℕ → Option ℕ → Outcome (ForkStorageInner C × ℕ)
  read_local s key (some local_value) = done (s, local_value)
  read_local s key none = read_cached s key (lookup key s.value_read_cache)

  unfoldable pub read_value_internal : ForkStorageInner C → ℕ × ℕ → Outcome (ForkStorageInner C × ℕ)
  unfolding read_value_opt
  read_value_internal s key = read_local s key (read_value_opt s.raw_storage key)

  abbrev pub dep_remote :
      ForkStorageInner C
      → ℕ
      → Option (Option (List ℕ))
      → Outcome (ForkStorageInner C × Option (List ℕ))
  dep_remote s hash none = panic
  dep_remote s hash (some result) =
      done (record s { factory_dep_cache = insert hash result s.factory_dep_cache }, result)

  unfoldable pub dep_cached :
      ForkStorageInner C
      → ℕ
      → Option (Option (List ℕ))
      → Outcome (ForkStorageInner C × Option (List ℕ))
  unfolding get_bytecode_by_hash
  dep_cached s hash (some value) = done (s, value)
  dep_cached s hash none = dep_remote s hash (get_bytecode_by_hash s.fork hash)

  abbrev pub dep_local :
      ForkStorageInner C → ℕ → Option (List ℕ) → Outcome (ForkStorageInner C × Option (List ℕ))
  dep_local s hash (some local_dep) = done (s, some local_dep)
  dep_local s hash none = dep_cached s hash (lookup hash s.factory_dep_cache)

  unfoldable pub load_factory_dep_internal :
      ForkStorageInner C → ℕ → Outcome (ForkStorageInner C × Option (List ℕ))
  unfolding raw_load_factory_dep
  load_factory_dep_internal s hash = dep_local s hash (raw_load_factory_dep s.raw_storage hash)

  -- A slot with a value was written before; one with zero only if it is in the local storage.
  unfoldable pub is_write_initial_internal :
      ForkStorageInner C → ℕ × ℕ → Outcome (ForkStorageInner C × Bool)
  unfolding read_value_internal raw_is_write_initial
  is_write_initial_internal s key = do
    result ← read_value_internal s key
    done (
      result.0,
      if not (result.1 == 0) then false else raw_is_write_initial result.0.raw_storage key,
    )

module _ {C : Type 0} where
  unfoldable pub dump_state : ForkStorageInner C → SerializableForkStorage
  dump_state s = record {
    storage = extend s.value_read_cache s.raw_storage.state;
    factory_deps = extend (cached_deps s.factory_dep_cache) s.raw_storage.factory_deps;
  }

  unfoldable pub load_state : ForkStorageInner C → SerializableForkStorage → ForkStorageInner C
  load_state s state = record s {
    raw_storage = record {
      state = extend s.raw_storage.state state.storage;
      factory_deps = extend s.raw_storage.factory_deps state.factory_deps;
    };
  }

  unfoldable pub set_value : ForkStorageInner C → ℕ × ℕ → ℕ → ForkStorageInner C
  unfolding raw_set_value
  set_value s key value = record s { raw_storage = raw_set_value s.raw_storage key value }

  unfoldable pub store_factory_dep : ForkStorageInner C → ℕ → List ℕ → ForkStorageInner C
  unfolding raw_store_factory_dep
  store_factory_dep s hash bytecode = record s {
    raw_storage = raw_store_factory_dep s.raw_storage hash bytecode;
  }
