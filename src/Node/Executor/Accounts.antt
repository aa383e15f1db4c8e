-- ===== src/Node/Executor/Accounts.antt =====
-- The commands of crates/core/src/node/inner/node_executor.rs that set the nonce, the balance, the
-- code or a slot of an account.
use anvil_zksync.Base.{
  ℕ, ◌≡◌, List, some, if◌then◌else◌, lookup, pair_beq, lookup-insert_self, nat_key,
}
use anvil_zksync.Node.Storage.{Client, store_factory_dep, set_value, raw_store_factory_dep}
use anvil_zksync.Node.Storage.Overlay.{visible, visible-set_value}
use anvil_zksync.Node.Inner.{InMemoryNodeInner}
use anvil_zksync.Node.Executor.{StorageKeyLayout, set_balance, set_nonce, set_code, set_storage}

module _ {R L C D P : Type 0} ⦃c : Client C⦄ where
  -- What a slot of the node holds after a write to one slot.
  abbrev pub Writes : InMemoryNodeInner R L C D P → InMemoryNodeInner R L C D P → ℕ × ℕ → ℕ → Type 0
  Writes node after key value =
      (j : ℕ × ℕ)
      → visible after.fork_storage j
        ≡ (if pair_beq key j then some value else visible node.fork_storage j)

  -- Each of the four commands writes one slot, and no other: the given slot, the slot of the
  -- account's balance, that of its nonce, with the deployment nonce set to the same number, or
  -- that of its code, which holds the bytecode's hash; and the bytecode is then found under it.
  pub set_account_lem :
      (k : StorageKeyLayout) (node : InMemoryNodeInner R L C D P) (address value : ℕ) (key : ℕ × ℕ)
      (bytecode : List ℕ)
      → Writes node (set_storage node key value) key value
        × Writes node (set_balance k node address value) (k.base_token_key address) value
        × Writes node
            (set_nonce k node address value)
            (k.nonce_key address)
            (k.nonces_to_full_nonce value value)
        × (let hash = if k.is_evm bytecode then k.evm_hash bytecode else k.era_hash bytecode in
            Writes node (set_code k node address bytecode) (k.code_key address) hash
            × (lookup hash (set_code k node address bytecode).fork_storage.raw_storage.factory_deps
                ≡ some (if k.is_evm bytecode then k.pad_evm_bytecode bytecode else bytecode)))
  unfolding set_storage set_balance set_nonce set_code set_value store_factory_dep
      raw_store_factory_dep visible
  set_account_lem k node address value key bytecode = (
    λ j. visible-set_value node.fork_storage key j value,
    λ j. visible-set_value node.fork_storage (k.base_token_key address) j value,
    λ j.
        visible-set_value node.fork_storage (k.nonce_key address) j
          (k.nonces_to_full_nonce value value),
    (
      λ j.
          let hash = if k.is_evm bytecode then k.evm_hash bytecode else k.era_hash bytecode in
          let code = if k.is_evm bytecode then k.pad_evm_bytecode bytecode else bytecode in
          visible-set_value (store_factory_dep node.fork_storage hash code) (k.code_key address) j
            hash,
      lookup-insert_self _ _ node.fork_storage.raw_storage.factory_deps,
    ),
  )
