-- ===== src/Node/Inner/Sealing.antt =====
-- The archive of earlier states that `apply_batch` of
-- crates/core/src/node/inner/in_memory_inner.rs keeps.
use anvil_zksync.Base.{
  ℕ, suc, ◌+◌, ◌≤◌, ◌≡◌, inl, inr, List, [], ◌∷◌, some, ltb, length, lookup, insert, nat_key,
  pair_key, arith, Bool-cases, lookup-insert_self,
}
use anvil_zksync.Node.Inner.{State, archive_state, max_previous_states, remove_first}

length-insert-le :
    {V : Type 0} (k : ℕ) (v : V) (m : List (ℕ × V)) → length (insert k v m) ≤ suc (length m)
length-insert-le k v [] = omega arith
length-insert-le k v ((j, w) ∷ m) = ground (arith, length-insert-le k v m)

length-remove_first :
    {A : Type 0} (xs : List A) (n : ℕ) → length xs ≤ suc n → length (remove_first xs) ≤ n
length-remove_first [] n h = omega arith
length-remove_first (x ∷ xs) n h = omega (arith, h)

-- The archive finds the new state under its block's hash, and with one state more than the
-- constant, or fewer, it never grows beyond that.
pub archive_state_lem :
    (previous_states : List (ℕ × State)) (state : State) (block_hash : ℕ)
    → length previous_states ≤ max_previous_states + 1
    → (lookup block_hash (archive_state previous_states state block_hash) ≡ some state)
      × (length (archive_state previous_states state block_hash) ≤ max_previous_states + 1)
unfolding archive_state
archive_state_lem previous_states state block_hash h =
    elim (Bool-cases (ltb max_previous_states (length previous_states))) [
      | inl e ↦ rw e (
        lookup-insert_self block_hash state (remove_first previous_states),
        ground (
          arith,
          length-insert-le block_hash state (remove_first previous_states),
          length-remove_first previous_states max_previous_states h,
        ),
      )
      | inr e ↦ rw e (
        lookup-insert_self block_hash state previous_states,
        ground (arith, e, length-insert-le block_hash state previous_states),
      )
    ]
