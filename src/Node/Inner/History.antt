-- ===== src/Node/Inner/History.antt =====
-- Reads of slots at earlier blocks, of crates/core/src/node/inner/in_memory_inner.rs, after a block
-- has been sealed.
use anvil_zksync.Base.{
  ℕ, ◌≡◌, refl, some, lookup, nat_key, done, arith, lookup-insert, lookup-insert_self, pair_key,
}
use anvil_zksync.Utils.{number}
use anvil_zksync.Node.Blockchain.{Block, with_block}
use anvil_zksync.Node.Blockchain.Apply.{IsNext, apply_block_complete}
use anvil_zksync.Node.Blockchain.Queries.{by_number}
use anvil_zksync.Node.Storage.{Client, ForkStorageInner}
use anvil_zksync.Node.Inner.{
  ApiTransaction, InMemoryNodeInner, archive_state, archive_current, produce_block,
}
use anvil_zksync.Node.Inner.States.{
  RemoteAt, value, get_storage_at_block, get_storage_at_block-archived,
}

module _ {R L C D P : Type 0} ⦃c : Client C⦄ ⦃a : RemoteAt C⦄ where
  -- The next block of the chain is sealed: it goes through, and whatever the storage of the node
  -- becomes after it, a read at the block that was current before gives what the local storage held
  -- then, for each slot that it had. The current block was stored under its hash, and its hash under
  -- its number.
  pub get_storage_at_block-sealed :
      (node : InMemoryNodeInner R L C D P) (latest block : Block ApiTransaction) (key : ℕ × ℕ)
      (v : ℕ)
      → (let chain = node.blockchain in
          (lookup chain.current_block_hash chain.blocks ≡ some latest)
          × (lookup chain.current_block chain.hashes ≡ some chain.current_block_hash))
      → IsNext node.blockchain latest block
      → lookup key node.fork_storage.raw_storage.state ≡ some v
      → (after : InMemoryNodeInner R L C D P) × (produce_block (archive_current node) block
          ≡ done after)
        × ((storage : ForkStorageInner C)
            → let changed : InMemoryNodeInner R L C D P = record after { fork_storage = storage } in
              get_storage_at_block changed key
                (some (by_number (number node.blockchain.current_block)))
              ≡ done (changed, value v))
  unfolding archive_current archive_state
  get_storage_at_block-sealed node latest block key v stored next held =
      let chain = node.blockchain in
      let after : InMemoryNodeInner R L C D P = record (archive_current node) {
        blockchain = with_block chain block.number block;
      } in
      (
        after,
        rw (apply_block_complete chain latest block stored.0 next) refl,
        λ storage.
            get_storage_at_block-archived (record after { fork_storage = storage }) key
              chain.current_block chain.current_block_hash v node.fork_storage.raw_storage.state
              (omega arith) (omega (arith, next.small_number))
              (ground (
                arith,
                lookup-insert block.number chain.current_block block.hash chain.hashes,
                next.numbered,
                stored.1,
              ))
              (lookup-insert_self chain.current_block_hash _ _) held,
      )
