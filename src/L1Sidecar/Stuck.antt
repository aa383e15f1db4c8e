-- ===== src/L1Sidecar/Stuck.antt =====
-- crates/l1_sidecar/src/l1_sender.rs: an execution that failed.
use anvil_zksync.Base.{◌<◌, ◌≡◌, List, [], ◌∷◌, length, none}
use anvil_zksync.L1Sidecar.{
  L1BatchWithMetadata, Provider, L1Sender, Command, commit_command, prove_command, execute_command,
  command_step,
}
use anvil_zksync.L1Sidecar.Contracts.{View}

module _ {L : Type 0} (v : View L) where
  -- The sender's tree is longer than that of the L1, which has executed `last`.
  pub record Ahead (last : L1BatchWithMetadata) (s : L1Sender) (l : L) : Type 0 where
    pub longer : length (v.tree l) < length s.l1_tx_merkle_tree
    pub executed : v.executed l ≡ last

-- The answers to the executions among the commands.
abbrev pub AllFail : {L : Type 0} ⦃p : Provider L⦄ → L1Sender × L → List Command → Type 0
AllFail state [] = Unit
AllFail state (commit_command batch ∷ commands) =
    AllFail (command_step state (commit_command batch)).0 commands
AllFail state (prove_command batch ∷ commands) =
    AllFail (command_step state (prove_command batch)).0 commands
AllFail state (execute_command batch ∷ commands) =
    let after = command_step state (execute_command batch) in
    (after.1 ≡ none) × AllFail after.0 commands
