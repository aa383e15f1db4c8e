-- ===== src/Node/Blockchain/Apply.antt =====
-- `apply_block` of crates/core/src/node/inner/blockchain.rs: when it goes through, and what it does.
use anvil_zksync.Base.{◌+◌, ◌<◌, ◌≡◌, refl, some, lookup, nat_key, Outcome, panic, done, arith}
use anvil_zksync.Base.Words.{u32_mod, u64_mod}
use anvil_zksync.Node.Blockchain.{Block, BlockchainState, apply_block, with_block}

module _ {T R H D : Type 0} where
  -- What a block must satisfy to be the next one of the chain.
  pub record IsNext (s : BlockchainState T R H D) (latest block : Block T) : Type 0 where
    pub numbered : block.number ≡ s.current_block + 1
    pub in_batch : block.l1_batch_number ≡ some s.current_batch
    pub later : latest.timestamp < block.timestamp
    pub small_number : s.current_block + 1 < u32_mod
    pub small_batch : s.current_batch < u32_mod
    pub small_timestamp : block.timestamp < u64_mod

  pub apply_block_complete :
      (s : BlockchainState T R H D) (latest block : Block T)
      → lookup s.current_block_hash s.blocks ≡ some latest
      → IsNext s latest block
      → apply_block s block ≡ done (with_block s block.number block)
  unfolding apply_block
  apply_block_complete s latest block e n = ground arith

  pub apply_block_sound :
      (s s' : BlockchainState T R H D) (latest block : Block T)
      → lookup s.current_block_hash s.blocks ≡ some latest
      → apply_block s block ≡ done s'
      → IsNext s latest block
  unfolding apply_block
  apply_block_sound s s' latest block e h = record {
    numbered = ground arith;
    in_batch = ground arith;
    later = ground arith;
    small_number = ground arith;
    small_batch = ground arith;
    small_timestamp = ground arith;
  }

  -- With a stored current block, `apply_block` goes through exactly for the next block: the number
  -- after the current one, in the current batch, with a timestamp later than the current block's,
  -- and with number, batch and timestamp within their words. It then makes the block current and
  -- stores it under its number and its hash; for any other block it panics.
  pub apply_block_lem :
      (s : BlockchainState T R H D) (latest block : Block T)
      → lookup s.current_block_hash s.blocks ≡ some latest
      → (IsNext s latest block → apply_block s block ≡ done (with_block s block.number block))
        × (¬ IsNext s latest block → apply_block s block ≡ panic)
  apply_block_lem s latest block e =
      (apply_block_complete s latest block e, λ k. go k (apply_block s block) refl)
    where
      go :
          ¬ IsNext s latest block
          → (o : Outcome (BlockchainState T R H D)) → apply_block s block ≡ o
          → o ≡ panic
      go k panic f = refl
      go k (done s') f = absurd (k (apply_block_sound s s' latest block e f))
