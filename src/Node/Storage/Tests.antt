-- ===== src/Node/Storage/Tests.antt =====
-- Concrete storages for the theorems on crates/core/src/node/inner/fork_storage.rs.
use anvil_zksync.Base.{
  ℕ, ◌+◌, ◌≡◌, refl, List, [], ◌∷◌, none, some, lookup, nat_key, pair_key, or_else,
}
use anvil_zksync.Node.Storage.{Client, ForkStorageInner, dump_state, load_state}
use anvil_zksync.Node.Storage.Overlay.{
  visible, StorageCall, read, write, answers, map_answers, answers_lem,
}
use anvil_zksync.Node.Storage.Dump.{IsValid, load_state-dump_state}

-- A remote chain whose slot holds the sum of account and slot at block 7, and that has one bytecode.
instance abbrev pub test_client : Client ℕ
test_client = record {
  fork_block_number = λ n. n;
  remote_storage_at = λ n key block. some (key.0 + key.1 + block);
  remote_bytecode_by_hash = λ n hash. some (some (hash ∷ []));
}

abbrev pub forked : ForkStorageInner ℕ
forked = record {
  raw_storage = record { state = ((1, 1), 5) ∷ []; factory_deps = (3, 9 ∷ []) ∷ [] };
  value_read_cache = ((2, 2), 6) ∷ [];
  factory_dep_cache = (4, none) ∷ [];
  fork = record { client = some 7 };
}

abbrev blank : ForkStorageInner ℕ
blank = record {
  raw_storage = record { state = []; factory_deps = [] };
  value_read_cache = [];
  factory_dep_cache = [];
  fork = record { client = none };
}

forked-IsValid : IsValid forked
forked-IsValid = record {
  state = (refl, tt);
  factory_deps = (refl, tt);
  value_cache = (refl, tt);
  dep_cache = (refl, tt);
}

abbrev some_calls : List StorageCall
some_calls = read (3, 4) ∷ write (3, 4) 1 ∷ read (3, 4) ∷ read (1, 1) ∷ read (2, 2) ∷ []

answers_lem_example : answers some_calls forked ≡ map_answers some_calls (visible forked)
answers_lem_example = answers_lem some_calls forked

load_state-dump_state_example :
    visible (load_state blank (dump_state forked)) (2, 2)
    ≡ or_else
        (lookup (2, 2) forked.raw_storage.state)
        (or_else (lookup (2, 2) forked.value_read_cache) (visible blank (2, 2)))
load_state-dump_state_example = load_state-dump_state forked blank (2, 2) forked-IsValid
