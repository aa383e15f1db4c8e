-- ===== src/Node/Mining/Tests.antt =====
-- A concrete pool for the theorem on `mine_blocks` of crates/core/src/node/in_memory_ext.rs.
use anvil_zksync.Base.{ℕ, ◌<◌, ◌≡◌, ◌⊎◌, List, ◌++◌, some, length, arith}
use anvil_zksync.Node.Pool.{TxBatch, TxPool, txs_of}
use anvil_zksync.Node.Pool.Tests.{Tx, tx_fields, bob_impersonated, filled, filled-IsOrdered}
use anvil_zksync.Node.Mining.{nothing, same_timestamp_error, seal_blocks, mine_blocks}
use anvil_zksync.Node.Mining.Batched.{all_txs, AllMined, mine_blocks_lem}

abbrev three : ℕ
three = 3

mine_blocks_lem_example :
    (0 < three
      → (three ≡ 1) ⊎ (0 < 5)
      → (batches : List (TxBatch Tx)) × (pool' : TxPool Tx ℕ) × (mine_blocks bob_impersonated filled
            2
            (some 3)
            (some 5)
          ≡ (pool', seal_blocks batches 5))
        × AllMined bob_impersonated 2 filled batches pool'
        × (all_txs batches ++ txs_of pool'.inner ≡ txs_of filled.inner)
        × (length batches ≡ three))
    × (1 < 3
        → mine_blocks bob_impersonated filled 2 (some 3) (some 0)
          ≡ (filled, same_timestamp_error 3))
    × (mine_blocks bob_impersonated filled 2 (some 0) (some 5) ≡ (filled, nothing))
mine_blocks_lem_example =
    mine_blocks_lem bob_impersonated filled 2 3 5 (omega arith) filled-IsOrdered
