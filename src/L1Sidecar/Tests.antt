-- ===== src/L1Sidecar/Tests.antt =====
-- Concrete L1 nodes for the theorems on crates/l1_sidecar.
use anvil_zksync.Base.{
  Bool, true, false, ◌&&◌, ◌==◌, if◌then◌else◌, Bool-cases, inl, inr, ℕ, ◌≡◌, refl, subst, List, [],
  ◌∷◌, ◌++◌, Option, none, some, IfDone, arith,
}
use anvil_zksync.Node.Pool.{Transaction, sent, Sender, fifo}
use anvil_zksync.L1Sidecar.{
  L1BatchWithMetadata, Call, commit_batches, prove_batches, execute_batches, Provider, L1Sender,
  Receipt, Eip1559Estimation, new_sender, Command, commit_command, prove_command, execute_command,
  AutoState,
}
use anvil_zksync.L1Sidecar.Contracts.{View, AfterSend, L1Contracts}
use anvil_zksync.L1Sidecar.Watcher.{Serial, L1Watcher}
use anvil_zksync.L1Sidecar.Polls.{Adds, Answer, Ascending, AllOrdered, run_polls, run_polls-Adds}

abbrev batch_of : ℕ → L1BatchWithMetadata
batch_of n = record { number = n; priority_ops = n ∷ [] }

abbrev eq_list : List ℕ → List ℕ → Bool
eq_list [] [] = true
eq_list [] (y ∷ ys) = false
eq_list (x ∷ xs) [] = false
eq_list (x ∷ xs) (y ∷ ys) = (x == y) && eq_list xs ys

eq_list_sound : (xs ys : List ℕ) → eq_list xs ys ≡ true → xs ≡ ys
eq_list_sound [] [] h = refl
eq_list_sound [] (y ∷ ys) h = absurd cc
eq_list_sound (x ∷ xs) [] h = absurd cc
eq_list_sound (x ∷ xs) (y ∷ ys) h = ground (arith, eq_list_sound xs ys)

-- An L1 that accepts every call, but an execution with another tree.
record L1State : Type 0 where
  committed : L1BatchWithMetadata
  proved : L1BatchWithMetadata
  executed : L1BatchWithMetadata
  tree : List ℕ

-- A pending transaction is 1, or 0 if it has been reverted.
abbrev apply_call : L1State → Call → L1State × Option ℕ
apply_call l (commit_batches last batch) = (record l { committed = batch }, some 1)
apply_call l (prove_batches last batch) = (record l { proved = batch }, some 1)
apply_call l (execute_batches batch leaves) =
    if eq_list leaves (l.tree ++ batch.priority_ops)
    then (record l { executed = batch; tree = leaves }, some 1)
    else (l, some 0)

abbrev receipt_of : ℕ → Receipt
receipt_of pending = record { transaction_hash = pending; status = pending == 1 }

abbrev test_fees : Eip1559Estimation
test_fees = record { max_fee_per_gas = 1; max_priority_fee_per_gas = 1 }

instance abbrev open_l1 : Provider L1State
open_l1 = record {
  blob_sidecar = true;
  get_gas_price = λ l. (l, some 1);
  estimate_eip1559_fees = λ l. (l, some test_fees);
  send_transaction = λ l tx. apply_call l tx.call;
  get_receipt = λ l pending. (l, some (receipt_of pending));
}

abbrev open_view : View L1State
open_view = record {
  committed = λ l. l.committed;
  proved = λ l. l.proved;
  executed = λ l. l.executed;
  tree = λ l. l.tree;
}

delivered : (l : L1State) (call : Call) → AfterSend open_view l call (apply_call l call)
delivered l (commit_batches last batch) = (refl, refl, refl, refl)
delivered l (prove_batches last batch) = (refl, refl, refl, refl)
delivered l (execute_batches batch leaves) =
    elim (Bool-cases (eq_list leaves (l.tree ++ batch.priority_ops))) [
      | inl e ↦ rw e (refl, refl, refl, refl, eq_list_sound leaves (l.tree ++ batch.priority_ops) e)
      | inr e ↦ rw e (refl, refl, refl, refl)
    ]

abbrev open_contracts : L1Contracts L1State
open_contracts = record {
  view = open_view;
  price_asked = λ l. (refl, refl, refl, refl);
  fees_asked = λ l. (refl, refl, refl, refl);
  delivers = λ l tx. delivered l tx.call;
}

abbrev genesis_l1 : L1State
genesis_l1 = record {
  committed = batch_of 0;
  proved = batch_of 0;
  executed = batch_of 0;
  tree = [];
}

abbrev some_commands : List Command
some_commands =
    commit_command (batch_of 1)
    ∷ execute_command (batch_of 1)
    ∷ commit_command (batch_of 2)
    ∷ prove_command (batch_of 1)
    ∷ []

abbrev start : L1Sender × L1State
unfolding new_sender
start = (new_sender (batch_of 0), genesis_l1)

abbrev auto_start : AutoState L1State
unfolding new_sender
auto_start = record { last_executed_batch = 0; sender = new_sender (batch_of 0); l1 = genesis_l1 }

-- An L1 that rejects every call; it is the list of the processed operations.
instance abbrev closed_l1 : Provider (List ℕ)
closed_l1 = record {
  blob_sidecar = true;
  get_gas_price = λ l. (l, some 1);
  estimate_eip1559_fees = λ l. (l, some test_fees);
  send_transaction = λ l tx. (l, some 0);
  get_receipt = λ l pending. (l, some (receipt_of pending));
}

abbrev closed_contracts : L1Contracts (List ℕ)
closed_contracts = record {
  view = record {
    committed = λ l. batch_of 1;
    proved = λ l. batch_of 1;
    executed = λ l. batch_of 0;
    tree = λ l. l;
  };
  price_asked = λ l. (refl, refl, refl, refl);
  fees_asked = λ l. (refl, refl, refl, refl);
  delivers = λ l tx. (refl, refl, refl, refl);
}

abbrev one_leaf : List ℕ
one_leaf = 9 ∷ []

abbrev sender_at_1 : L1Sender
sender_at_1 = record {
  last_committed_l1_batch = batch_of 1;
  last_proved_l1_batch = batch_of 1;
  l1_tx_merkle_tree = one_leaf;
}

abbrev retries : List Command
retries =
    execute_command (batch_of 1) ∷ commit_command (batch_of 2) ∷ execute_command (batch_of 1) ∷ []

-- A priority transaction is its serial.
instance abbrev test_serial : Serial ℕ
test_serial = record { serial_id = λ n. n }

instance abbrev test_transaction : Transaction ℕ
test_transaction = record { hash = λ n. n; initiator_account = λ n. n; max_fee_per_gas = λ n. n }

instance abbrev test_sender : Sender ℕ
test_sender = record { try_send = λ l hash. (l, sent) }

abbrev watcher : L1Watcher ℕ ℕ
watcher = record {
  pool = record { inner = []; transaction_order = fifo; submission_number = 0; tx_listeners = [] };
  next_expected_priority_id = 0;
  from_block = 0;
}

-- The second answer repeats what the first one said.
abbrev answers : List (Answer ℕ)
answers =
    (some 4, λ from_block to_block. some (0 ∷ 1 ∷ []))
    ∷ (some 7, λ from_block to_block. some (1 ∷ 2 ∷ []))
    ∷ []

abbrev AscendingOpt : Option (List ℕ) → Type 0
AscendingOpt none = Unit
AscendingOpt (some txs) = Ascending txs

answers-AllOrdered : AllOrdered answers
answers-AllOrdered = (
  λ from_block to_block txs e. subst AscendingOpt e (omega arith, (tt, tt)),
  (λ from_block to_block txs e. subst AscendingOpt e (omega arith, (tt, tt)), tt),
)

run_polls-Adds_example : IfDone (Adds watcher) (run_polls watcher answers)
run_polls-Adds_example = run_polls-Adds watcher answers answers-AllOrdered
