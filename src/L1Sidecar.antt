-- ===== src/L1Sidecar.antt =====
-- crates/l1_sidecar: the components that talk to the L1 node.
-- A call of the sender's handle waits for the reply, and the sender carries out one command after
-- the other, so that a command is a function from the sender and the L1 here; dropped channels are
-- left out. The L1 node and the alloy crate that reaches it are a parameter, with one function for
-- each request; a request may fail, and the L1 may have changed all the same. The address, the chain
-- and the gas limit, which are constants, the blob, which is empty, and the reports are left out.
pub mod Contracts
pub mod Sender
pub mod Stuck
pub mod Auto
pub mod Watcher
pub mod Polls
pub mod Tests
use anvil_zksync.Base.{
  ℕ, ◌+◌, Bool, true, false, List, [], ◌∷◌, ◌++◌, Option, none, some, if◌then◌else◌,
}

-- What is read of a batch and its metadata.
pub record L1BatchWithMetadata : Type 0 where
  pub number : ℕ
  pub priority_ops : List ℕ

-- The calls of the contracts on L1.
pub data Call : Type 0 where
  commit_batches prove_batches : (last batch : L1BatchWithMetadata) → Call
  execute_batches : (batch : L1BatchWithMetadata) (tree : List ℕ) → Call

pub record TransactionRequest : Type 0 where
  pub call : Call
  pub max_fee_per_blob_gas : ℕ
  pub max_fee_per_gas : ℕ
  pub max_priority_fee_per_gas : ℕ

pub record Eip1559Estimation : Type 0 where
  pub max_fee_per_gas : ℕ
  pub max_priority_fee_per_gas : ℕ

pub record Receipt : Type 0 where
  pub transaction_hash : ℕ
  pub status : Bool

-- The L1 node as the provider reaches it; `none` is an error. A pending transaction is its hash.
-- `blob_sidecar` is whether a blob sidecar without data can be built.
pub record Provider (L : Type 0) : Type 0 where
  pub blob_sidecar : Bool
  pub get_gas_price : L → L × Option ℕ
  pub estimate_eip1559_fees : L → L × Option Eip1559Estimation
  pub send_transaction : L → TransactionRequest → L × Option ℕ
  pub get_receipt : L → ℕ → L × Option Receipt

-- The operator `?` on a request.
abbrev pub and_then : {L A B : Type 0} → L × Option A → (L → A → L × Option B) → L × Option B
and_then (l1, none) f = (l1, none)
and_then (l1, some a) f = f l1 a

abbrev pub request_of : Call → ℕ → Eip1559Estimation → TransactionRequest
request_of call gas_price fees = record {
  call = call;
  max_fee_per_blob_gas = gas_price;
  max_fee_per_gas = fees.max_fee_per_gas;
  max_priority_fee_per_gas = fees.max_priority_fee_per_gas;
}

-- A reverted transaction is an error.
abbrev pub hash_if_ok : Receipt → Option ℕ
hash_if_ok receipt = if receipt.status then some receipt.transaction_hash else none

-- The Merkle tree is the list of its leaves.
pub record L1Sender : Type 0 where
  pub last_committed_l1_batch : L1BatchWithMetadata
  pub last_proved_l1_batch : L1BatchWithMetadata
  pub l1_tx_merkle_tree : List ℕ

unfoldable pub new_sender : L1BatchWithMetadata → L1Sender
new_sender genesis = record {
  last_committed_l1_batch = genesis;
  last_proved_l1_batch = genesis;
  l1_tx_merkle_tree = [];
}

abbrev pub committed_if : Option ℕ → L1BatchWithMetadata → L1Sender → L1Sender
committed_if none batch s = s
committed_if (some hash) batch s = record s { last_committed_l1_batch = batch }

abbrev pub proved_if : Option ℕ → L1BatchWithMetadata → L1Sender → L1Sender
proved_if none batch s = s
proved_if (some hash) batch s = record s { last_proved_l1_batch = batch }

module _ {L : Type 0} ⦃p : Provider L⦄ where
  -- What the three `.._fallible` functions do with their call.
  unfoldable pub send_call : L → Call → L × Option ℕ
  send_call l1 call = and_then (p.get_gas_price l1) λ l1 gas_price.
      and_then (p.estimate_eip1559_fees l1) λ l1 fees.
        and_then (p.send_transaction l1 (request_of call gas_price fees)) λ l1 pending_tx.
          and_then (p.get_receipt l1 pending_tx) λ l1 receipt. (l1, hash_if_ok receipt)

  -- The blob sidecar is built before anything is asked of the L1.
  unfoldable pub with_sidecar : L → Call → L × Option ℕ
  unfolding send_call
  with_sidecar l1 call = if p.blob_sidecar then send_call l1 call else (l1, none)

  unfoldable pub commit : L1Sender → L → L1BatchWithMetadata → (L1Sender × L) × Option ℕ
  unfolding with_sidecar
  commit s l1 batch =
      let sent = with_sidecar l1 (commit_batches s.last_committed_l1_batch batch) in
      ((committed_if sent.1 batch s, sent.0), sent.1)

  unfoldable pub prove : L1Sender → L → L1BatchWithMetadata → (L1Sender × L) × Option ℕ
  unfolding with_sidecar
  prove s l1 batch =
      let sent = with_sidecar l1 (prove_batches s.last_proved_l1_batch batch) in
      ((proved_if sent.1 batch s, sent.0), sent.1)

  -- The priority operations are in the tree before the call is sent, but not if the blob sidecar
  -- cannot be built.
  unfoldable pub execute : L1Sender → L → L1BatchWithMetadata → (L1Sender × L) × Option ℕ
  unfolding send_call
  execute s l1 batch =
      let tree = s.l1_tx_merkle_tree ++ batch.priority_ops in
      let sent = send_call l1 (execute_batches batch tree) in
      if p.blob_sidecar
      then ((record s { l1_tx_merkle_tree = tree }, sent.0), sent.1)
      else ((s, l1), none)

-- The commands that reach the sender.
pub data Command : Type 0 where
  commit_command prove_command execute_command : L1BatchWithMetadata → Command

module _ {L : Type 0} ⦃p : Provider L⦄ where
  unfoldable pub command_step : L1Sender × L → Command → (L1Sender × L) × Option ℕ
  unfolding commit prove execute
  command_step (s, l1) (commit_command batch) = commit s l1 batch
  command_step (s, l1) (prove_command batch) = prove s l1 batch
  command_step (s, l1) (execute_command batch) = execute s l1 batch

  -- `L1Sender::run` on the commands that it gets until the channel is closed.
  unfoldable pub run_commands : L1Sender × L → List Command → L1Sender × L
  unfolding command_step
  run_commands state [] = state
  run_commands state (command ∷ commands) = run_commands (command_step state command).0 commands

  -- `commit_batch`, `prove_batch` and `execute_batch` of the sidecar; the metadata is none for a
  -- batch that does not exist.
  unfoldable pub request :
      (L1BatchWithMetadata → Command)
      → L1Sender × L
      → Option L1BatchWithMetadata
      → (L1Sender × L) × Option ℕ
  unfolding command_step
  request command state none = (state, none)
  request command state (some batch) = command_step state (command batch)

-- `L1ExecutorModeAuto`, with the sender that its handle reaches.
pub record AutoState (L : Type 0) : Type 0 where
  pub last_executed_batch : ℕ
  pub sender : L1Sender
  pub l1 : L

-- What a round of the loop gives: the batch is not ready, it was executed, or the loop has ended.
pub data Round : Type 0 where
  not_ready executed failed : Round

module _ {L : Type 0} ⦃p : Provider L⦄ where
  -- The first failure ends the executor with an error.
  unfoldable pub execute_on_l1 : AutoState L → ℕ → L1BatchWithMetadata → AutoState L × Round
  unfolding commit prove execute
  execute_on_l1 s next_batch batch =
      let c = commit s.sender s.l1 batch in
      elim c.1 [
        | none ↦ (record s { sender = c.0.0; l1 = c.0.1 }, failed)
        | some _ ↦
            let v = prove c.0.0 c.0.1 batch in
            elim v.1 [
              | none ↦ (record s { sender = v.0.0; l1 = v.0.1 }, failed)
              | some _ ↦
                  let x = execute v.0.0 v.0.1 batch in
                  elim x.1 [
                    | none ↦ (record s { sender = x.0.0; l1 = x.0.1 }, failed)
                    | some _ ↦ (
                      record { last_executed_batch = next_batch; sender = x.0.0; l1 = x.0.1 },
                      executed,
                    )
                  ]
            ]
      ]

  -- One round of `L1ExecutorModeAuto::run`.
  unfoldable pub round : (ℕ → Option L1BatchWithMetadata) → AutoState L → AutoState L × Round
  unfolding execute_on_l1
  round get_or_generate_metadata s =
      let next_batch = s.last_executed_batch + 1 in
      elim (get_or_generate_metadata next_batch) [
        | none ↦ (s, not_ready)
        | some batch ↦ execute_on_l1 s next_batch batch
      ]
