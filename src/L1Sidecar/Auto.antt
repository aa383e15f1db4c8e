-- ===== src/L1Sidecar/Auto.antt =====
-- crates/l1_sidecar/src/l1_executor.rs: the automatic execution of batches.
use anvil_zksync.Base.{ℕ, zero, suc, ◌+◌, ◌≡◌, ◌++◌, Option, some, true}
use anvil_zksync.L1Sidecar.{
  L1BatchWithMetadata, commit_batches, prove_batches, execute_batches, Provider, L1Sender,
  send_call, AutoState, executed, round,
}
use anvil_zksync.L1Sidecar.Contracts.{L1Contracts}

-- The rounds of the loop.
unfoldable pub rounds :
    {L : Type 0} ⦃p : Provider L⦄ → (ℕ → Option L1BatchWithMetadata) → ℕ → AutoState L → AutoState L
unfolding round
rounds metadata zero s = s
rounds metadata (suc k) s = rounds metadata k (round metadata s).0

module _ {L : Type 0} ⦃p : Provider L⦄ where
  -- What the node and the contracts accept: the batch after the last one, on the last one.
  pub record Accepts (c : L1Contracts L) : Type 0 where
    pub sidecar : p.blob_sidecar ≡ true
    pub commits :
        (l : L) (batch : L1BatchWithMetadata)
        → batch.number ≡ (c.view.committed l).number + 1
        → (hash : ℕ) × ((send_call l (commit_batches (c.view.committed l) batch)).1 ≡ some hash)
    pub proves :
        (l : L) (batch : L1BatchWithMetadata)
        → c.view.committed l ≡ batch
        → batch.number ≡ (c.view.proved l).number + 1
        → (hash : ℕ) × ((send_call l (prove_batches (c.view.proved l) batch)).1 ≡ some hash)
    pub executes :
        (l : L) (batch : L1BatchWithMetadata)
        → c.view.proved l ≡ batch
        → batch.number ≡ (c.view.executed l).number + 1
        → (hash : ℕ) × ((send_call l
              (execute_batches batch (c.view.tree l ++ batch.priority_ops))).1
            ≡ some hash)

module _ {L : Type 0} ⦃p : Provider L⦄ (c : L1Contracts L) where
  -- The executor, its sender and the L1 agree that the batches up to the last one are executed.
  pub record Synced (s : AutoState L) : Type 0 where
    pub committed_here : s.sender.last_committed_l1_batch ≡ c.view.committed s.l1
    pub proved_here : s.sender.last_proved_l1_batch ≡ c.view.proved s.l1
    pub tree_here : s.sender.l1_tx_merkle_tree ≡ c.view.tree s.l1
    pub committed : (c.view.committed s.l1).number ≡ s.last_executed_batch
    pub proved : (c.view.proved s.l1).number ≡ s.last_executed_batch
    pub executed : (c.view.executed s.l1).number ≡ s.last_executed_batch

  -- The state between the calls of a round.
  pub record Committed (s : AutoState L) (sender : L1Sender) (l : L) (batch : L1BatchWithMetadata)
      : Type 0 where
    pub committed_here : sender.last_committed_l1_batch ≡ c.view.committed l
    pub proved_here : sender.last_proved_l1_batch ≡ c.view.proved l
    pub tree_here : sender.l1_tx_merkle_tree ≡ c.view.tree l
    pub committed : c.view.committed l ≡ batch
    pub executed : (c.view.executed l).number ≡ s.last_executed_batch
