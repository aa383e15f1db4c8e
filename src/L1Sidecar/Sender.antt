-- ===== src/L1Sidecar/Sender.antt =====
-- crates/l1_sidecar/src/l1_sender.rs: what the sender knows of the L1.
use anvil_zksync.Base.{ℕ, ◌≡◌, ◌++◌, Option, none}
use anvil_zksync.L1Sidecar.{
  Call, commit_batches, prove_batches, execute_batches, L1Sender, Command, commit_command,
  prove_command, execute_command,
}
use anvil_zksync.L1Sidecar.Contracts.{View, Took}

-- The call that a command sends.
abbrev pub call_of : L1Sender → Command → Call
call_of s (commit_command batch) = commit_batches s.last_committed_l1_batch batch
call_of s (prove_command batch) = prove_batches s.last_proved_l1_batch batch
call_of s (execute_command batch) =
    execute_batches batch (s.l1_tx_merkle_tree ++ batch.priority_ops)

module _ {L : Type 0} (v : View L) where
  -- The sender's last batches are those of the L1.
  pub record Mirrors (state : L1Sender × L) : Type 0 where
    pub committed : state.0.last_committed_l1_batch ≡ v.committed state.1
    pub proved : state.0.last_proved_l1_batch ≡ v.proved state.1

  -- The call has gone through, but the sender got an error and keeps its last batches.
  pub record Lost (state : L1Sender × L) (call : Call) (after : (L1Sender × L) × Option ℕ)
      : Type 0 where
    pub error : after.1 ≡ none
    pub took : Took v state.1 call after.0.1
    pub committed : after.0.0.last_committed_l1_batch ≡ state.0.last_committed_l1_batch
    pub proved : after.0.0.last_proved_l1_batch ≡ state.0.last_proved_l1_batch
