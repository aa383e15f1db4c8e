-- ===== src/Node/Sealer/Tests.antt =====
-- A concrete sealer for the theorem on crates/core/src/node/sealer.rs.
use anvil_zksync.Base.{ℕ, zero, suc, ◌<◌, ◌≡◌, refl, Option, none, some, arith}
use anvil_zksync.Node.Pool.{TxBatch, take_uniform}
use anvil_zksync.Node.Pool.Tests.{Tx, tx_fields, bob_impersonated, filled}
use anvil_zksync.Node.Sealer.{Receiver, ImmediateBlockSealer, pending, ready, poll_immediate}
use anvil_zksync.Node.Sealer.Polls.{ChannelLaws, poll_immediate_lem}

-- A channel is the number of hashes in it.
abbrev next_hash : ℕ → ℕ × Option ℕ
next_hash zero = (zero, none)
next_hash (suc n) = (n, some n)

instance abbrev test_receiver : Receiver ℕ
test_receiver = record { poll_next = next_hash; queued = λ n. n }

next_hash-leaves : (x h : ℕ) → (next_hash x).1 ≡ some h → (next_hash x).0 < x
next_hash-leaves zero h e = cc
next_hash-leaves (suc n) h e = omega arith

next_hash-stays : (x : ℕ) → (next_hash x).1 ≡ none → (next_hash (next_hash x).0).1 ≡ none
next_hash-stays zero e = refl
next_hash-stays (suc n) e = cc

laws : ChannelLaws ℕ
laws = record { leaves = next_hash-leaves; stays = next_hash-stays }

abbrev sealer : ImmediateBlockSealer ℕ
sealer = record { max_transactions = 2; rx = 3 }

poll_immediate_lem_example :
    ((batch : TxBatch Tx)
      → (take_uniform bob_impersonated filled 2).1 ≡ some batch
      → poll_immediate 1 bob_impersonated sealer filled
        ≡ some ((sealer, (take_uniform bob_impersonated filled 2).0), ready batch))
    × ((take_uniform bob_impersonated filled 2).1 ≡ none
        → (rx : ℕ) × (poll_immediate 2 bob_impersonated sealer filled
            ≡ some ((record { max_transactions = 2; rx = rx }, filled), pending))
          × ((next_hash rx).1 ≡ none))
poll_immediate_lem_example = poll_immediate_lem laws bob_impersonated sealer filled 0
