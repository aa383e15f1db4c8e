-- ===== src/Node/Inner/Env.antt =====
-- `create_l1_batch_env` and `BlockContext::new_block` of
-- crates/core/src/node/inner/in_memory_inner.rs, and `last_env` of
-- crates/core/src/node/inner/blockchain.rs.
use anvil_zksync.Base.{ℕ, ◌+◌, ◌%◌, Option, none, some, Outcome, done, ◌>>=◌, as_u32}
use anvil_zksync.Base.Words.{saturating_add, u32_mod}
use anvil_zksync.Node.Time.{TimeState, advance_timestamp, peek_next_timestamp}
use anvil_zksync.Node.FeeModel.{
  FeeCalls, FloatDefaults, BatchFeeInput, PubdataIndependentInput, pubdata_independent,
  TestNodeFeeInputProvider, get_batch_fee_input,
}
use anvil_zksync.Node.Storage.{ForkStorageInner}
use anvil_zksync.Node.Inner.{InMemoryNodeInner, BlockContext, L1BatchEnv}

pub record L2Block : Type 0 where
  pub number : ℕ
  pub hash : ℕ
  pub timestamp : ℕ

-- What zksync_multivm reads of the system context in the storage, the hash of a block that is only
-- a number, and the prices of a fork.
pub record SystemContext (C : Type 0) : Type 0 where
  pub load_last_l1_batch : ForkStorageInner C → Option ℕ
  pub load_last_l2_block : ForkStorageInner C → Option L2Block
  pub legacy_hash : ℕ → ℕ
  pub fork_prices : C → PubdataIndependentInput

abbrev pub or_current : ℕ → Option ℕ → ℕ
or_current current none = current
or_current current (some number) = number % u32_mod

abbrev pub or_block : L2Block → Option L2Block → L2Block
or_block current none = current
or_block current (some b) = b

-- A context in the same batch, with everything else one further.
unfoldable pub new_block : BlockContext → TimeState → TimeState × BlockContext
new_block ctx time =
    let advanced = advance_timestamp time in
    (
      advanced.0,
      record {
        hash = 0;
        batch = ctx.batch;
        miniblock = saturating_add ctx.miniblock 1;
        timestamp = advanced.1;
        prev_block_hash = ctx.hash;
      },
    )

module _ {R L C D P : Type 0} ⦃k : SystemContext C⦄ where
  -- The batch number of the storage is cut to a u32.
  unfoldable pub last_env : InMemoryNodeInner R L C D P → ℕ × L2Block
  last_env node = (
    or_current node.blockchain.current_batch (k.load_last_l1_batch node.fork_storage),
    or_block
        (record {
          number = node.blockchain.current_block;
          hash = k.legacy_hash node.blockchain.current_block;
          timestamp = node.time.current_timestamp;
        })
        (k.load_last_l2_block node.fork_storage),
  )

module _ {R L C D F S : Type 0} ⦃k : SystemContext C⦄ ⦃f : FeeCalls F S⦄ where
  unfoldable pub fee_input_of :
      FloatDefaults S → InMemoryNodeInner R L C D (TestNodeFeeInputProvider F S) → BatchFeeInput
  fee_input_of d node = elim node.fork_storage.fork.client [
    | some client ↦ pubdata_independent (k.fork_prices client)
    | none ↦ get_batch_fee_input d node.fee_input_provider
  ]

  -- The addition to the batch number panics past u32.
  unfoldable pub create_l1_batch_env :
      FloatDefaults S
      → InMemoryNodeInner R L C D (TestNodeFeeInputProvider F S)
      → Outcome (L1BatchEnv × BlockContext)
  unfolding last_env fee_input_of
  create_l1_batch_env d node = do
    let last = last_env node
    let last_l2_block = last.1
    let timestamp = peek_next_timestamp node.time
    batch ← as_u32 (last.0 + 1)
    let miniblock = last_l2_block.number + 1
    done (
      record {
        number = batch;
        timestamp = timestamp;
        fee_input = fee_input_of d node;
        first_l2_block = record {
          number = miniblock % u32_mod;
          timestamp = timestamp;
          prev_block_hash = last_l2_block.hash;
          max_virtual_blocks_to_create = 1;
        };
      },
      record {
        hash = 0;
        batch = batch;
        miniblock = miniblock;
        timestamp = timestamp;
        prev_block_hash = last_l2_block.hash;
      },
    )
