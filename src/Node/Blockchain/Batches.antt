-- ===== src/Node/Blockchain/Batches.antt =====
-- `apply_batch` and `load_transactions` of crates/core/src/node/inner/blockchain.rs.
-- The batch header and the finished batch are types of other crates, with the fields that the code
-- fills or reads; their opaque contents are lists of words. `l2_to_l1_messages` of the finished
-- batch stands for what `extract_long_l2_to_l1_messages` of another crate finds in its events.
use anvil_zksync.Base.{
  ℕ, suc, ◌+◌, ◌-◌, ◌%◌, ◌^◌, ◌≤◌, ◌<◌, ◌≡◌, refl, ◌∙◌, ◌&&◌, not, Bool, true, false, List, [], ◌∷◌,
  Option, none, some, if◌then◌else◌, ◌==◌, ltb, lookup, insert, extend, nat_key, map, length, arith,
  lookup-insert, lookup-insert_self, Outcome, panic, done, ap,
}
use anvil_zksync.Base.Words.{u32_mod}
use anvil_zksync.Node.Blockchain.{BlockchainState}
use anvil_zksync.Node.Blockchain.Queries.{get_batch_header, inspect}

-- `ExecuteTransactionCommon`, with the on-chain data of a priority operation.
pub data CommonData : Type 0 where
  l1 : (onchain_data : ℕ) → CommonData
  l2 protocol_upgrade : CommonData

-- What `apply_batch` reads of a `TransactionResult`.
pub record BatchTx (R : Type 0) : Type 0 where
  pub transaction_hash : R → ℕ
  pub common_data : R → CommonData

pub record FinishedL1Batch (D : Type 0) : Type 0 where
  pub l2_to_l1_messages : List ℕ
  pub user_l2_to_l1_logs : List ℕ
  pub used_contract_hashes : List ℕ
  pub system_logs : List ℕ
  pub pubdata_input : Option (List ℕ)
  pub state_diffs : Option (List D)

pub record L1BatchHeader : Type 0 where
  pub number : ℕ
  pub timestamp : ℕ
  pub l1_tx_count : ℕ
  pub l2_tx_count : ℕ
  pub priority_ops_onchain_data : List ℕ
  pub l2_to_l1_logs : List ℕ
  pub l2_to_l1_messages : List ℕ
  pub used_contract_hashes : List ℕ
  pub base_system_contracts_hashes : List ℕ
  pub system_logs : List ℕ
  pub protocol_version : Option ℕ
  pub pubdata_input : Option (List ℕ)

abbrev pub u16_mod : ℕ
u16_mod = 2 ^ 16

abbrev unwrap_or_default : {A : Type 0} → Option (List A) → List A
unwrap_or_default none = []
unwrap_or_default (some xs) = xs

abbrev add_priority_op : CommonData → List ℕ → List ℕ
add_priority_op (l1 onchain_data) ops = onchain_data ∷ ops
add_priority_op l2 ops = ops
add_priority_op protocol_upgrade ops = ops

abbrev count_l1 : CommonData → ℕ → ℕ
count_l1 (l1 onchain_data) n = suc n
count_l1 l2 n = n
count_l1 protocol_upgrade n = n

inspect-if :
    {A B : Type 0} (b : Bool) (f : A → B) (a : A) (o : Option A)
    → inspect f (if b then some a else o) ≡ (if b then some (f a) else inspect f o)
inspect-if true f a o = refl
inspect-if false f a o = refl

module _ {R : Type 0} ⦃r : BatchTx R⦄ where
  unfoldable pub priority_ops : List R → List ℕ
  priority_ops [] = []
  priority_ops (tx ∷ txs) = add_priority_op (r.common_data tx) (priority_ops txs)

  -- `filter(matches!(.., L1(_))).count()`.
  unfoldable pub l1_txs : List R → ℕ
  l1_txs [] = 0
  l1_txs (tx ∷ txs) = count_l1 (r.common_data tx) (l1_txs txs)

  abbrev keyed : List R → List (ℕ × R)
  keyed = map (λ tx. (r.transaction_hash tx, tx))

  length-priority_ops : (txs : List R) → length (priority_ops txs) ≡ l1_txs txs
  unfolding priority_ops l1_txs
  length-priority_ops [] = refl
  length-priority_ops (tx ∷ txs) = ground (arith, length-priority_ops txs)

  l1_txs-le : (txs : List R) → l1_txs txs ≤ length txs
  unfolding l1_txs
  l1_txs-le [] = omega arith
  l1_txs-le (tx ∷ txs) = ground (arith, l1_txs-le txs)

  -- The last of the transactions with the hash, or else what was known.
  abbrev pub last_with : ℕ → Option R → List R → Option R
  last_with h known [] = known
  last_with h known (tx ∷ txs) =
      last_with h (if r.transaction_hash tx == h then some tx else known) txs

  lookup-extend-keyed :
      (h : ℕ) (m : List (ℕ × R)) (txs : List R)
      → lookup h (extend m (keyed txs)) ≡ last_with h (lookup h m) txs
  lookup-extend-keyed h m [] = refl
  lookup-extend-keyed h m (tx ∷ txs) =
      lookup-extend-keyed h (insert (r.transaction_hash tx) tx m) txs
      ∙ ap (λ o. last_with h o txs) (lookup-insert (r.transaction_hash tx) h tx m)

module _ {T R D : Type 0} ⦃r : BatchTx R⦄ where
  -- `load_transactions` inserts one at a time what `apply_batch` puts in by `extend`.
  unfoldable pub load_transactions :
      BlockchainState T R L1BatchHeader D → List R → BlockchainState T R L1BatchHeader D
  load_transactions s [] = s
  load_transactions s (tx ∷ txs) =
      load_transactions (record s { tx_results = insert (r.transaction_hash tx) tx s.tx_results })
        txs

  -- Both counts are u16; the difference is that of `apply_batch` when it does not panic.
  abbrev pub batch_header :
      BlockchainState T R L1BatchHeader D → ℕ → List ℕ → List R → FinishedL1Batch D → L1BatchHeader
  batch_header s batch_timestamp base_system_contracts_hashes tx_results finished =
      let l1_tx_count = l1_txs tx_results % u16_mod in
      record {
        number = s.current_batch + 1;
        timestamp = batch_timestamp;
        l1_tx_count = l1_tx_count;
        l2_tx_count = length tx_results % u16_mod - l1_tx_count;
        priority_ops_onchain_data = priority_ops tx_results;
        l2_to_l1_logs = finished.user_l2_to_l1_logs;
        l2_to_l1_messages = finished.l2_to_l1_messages;
        used_contract_hashes = finished.used_contract_hashes;
        base_system_contracts_hashes = base_system_contracts_hashes;
        system_logs = finished.system_logs;
        protocol_version = some s.protocol_version;
        pubdata_input = finished.pubdata_input;
      }

  abbrev pub batch_state :
      BlockchainState T R L1BatchHeader D
      → ℕ
      → List ℕ
      → List R
      → FinishedL1Batch D
      → ℕ
      → BlockchainState T R L1BatchHeader D
  batch_state s batch_timestamp base_system_contracts_hashes tx_results finished aggregation_root =
      record s {
        current_batch = s.current_batch + 1;
        batches =
            insert (s.current_batch + 1)
              (record {
                header =
                    batch_header s batch_timestamp base_system_contracts_hashes tx_results finished;
                state_diffs = unwrap_or_default finished.state_diffs;
                aggregation_root = aggregation_root;
              })
              s.batches;
        tx_results = extend s.tx_results (keyed tx_results);
      }

  -- The addition to the batch number panics past u32, and the difference of the counts below 0, as
  -- in a build with overflow checks.
  unfoldable pub apply_batch :
      BlockchainState T R L1BatchHeader D
      → ℕ
      → List ℕ
      → List R
      → FinishedL1Batch D
      → ℕ
      → Outcome (BlockchainState T R L1BatchHeader D)
  apply_batch s batch_timestamp base_system_contracts_hashes tx_results finished aggregation_root =
      if ltb (s.current_batch + 1) u32_mod
        && not (ltb (length tx_results % u16_mod) (l1_txs tx_results % u16_mod))
      then done (
          batch_state s batch_timestamp base_system_contracts_hashes tx_results finished
            aggregation_root)
      else panic

  -- While the batch number is below the last u32 and the batch has fewer than 2^16 transactions,
  -- `apply_batch` goes through: the next batch number is current, the batch found under it has that
  -- number, the given timestamp, and counts of the priority transactions and of the others that
  -- add up to all of them, with one piece of on-chain data for each priority transaction; every
  -- other batch is as before; and a transaction hash finds the last transaction of the batch with
  -- that hash, or else what it found before.
  pub apply_batch_lem :
      (s : BlockchainState T R L1BatchHeader D) (batch_timestamp : ℕ) (hashes : List ℕ)
      (tx_results : List R) (finished : FinishedL1Batch D) (root : ℕ)
      → s.current_batch + 1 < u32_mod
      → length tx_results < u16_mod
      → (s' : BlockchainState T R L1BatchHeader D) × (header : L1BatchHeader) × (apply_batch s
            batch_timestamp hashes tx_results finished root
          ≡ done s')
        × (s'.current_batch ≡ s.current_batch + 1)
        × (get_batch_header s' (s.current_batch + 1) ≡ some header)
        × (header.number ≡ s.current_batch + 1)
        × (header.timestamp ≡ batch_timestamp)
        × (header.l1_tx_count + header.l2_tx_count ≡ length tx_results)
        × (length header.priority_ops_onchain_data ≡ header.l1_tx_count)
        × ((n : ℕ)
            → get_batch_header s' n
              ≡ (if s.current_batch + 1 == n then some header else get_batch_header s n))
        × ((h : ℕ) → lookup h s'.tx_results ≡ last_with h (lookup h s.tx_results) tx_results)
  unfolding apply_batch get_batch_header
  apply_batch_lem s batch_timestamp hashes tx_results finished root small few = (
    batch_state s batch_timestamp hashes tx_results finished root,
    batch_header s batch_timestamp hashes tx_results finished,
    ground (arith, l1_txs-le tx_results),
    refl,
    ap (inspect (λ b. b.header)) (lookup-insert_self (s.current_batch + 1) _ s.batches),
    refl,
    refl,
    omega (arith, l1_txs-le tx_results),
    omega (arith, length-priority_ops tx_results, l1_txs-le tx_results),
    λ n.
        ap (inspect (λ b. b.header)) (lookup-insert (s.current_batch + 1) n _ s.batches)
        ∙ inspect-if (s.current_batch + 1 == n) (λ b. b.header) _ _,
    λ h. lookup-extend-keyed h s.tx_results tx_results,
  )

  -- Loading transactions one at a time leaves the state that `extend` would.
  load_transactions_lem :
      (s : BlockchainState T R L1BatchHeader D) (txs : List R)
      → load_transactions s txs ≡ record s { tx_results = extend s.tx_results (keyed txs) }
  unfolding load_transactions
  load_transactions_lem s [] = refl
  load_transactions_lem s (tx ∷ txs) =
      load_transactions_lem
        (record s { tx_results = insert (r.transaction_hash tx) tx s.tx_results }) txs
