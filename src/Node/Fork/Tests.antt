-- ===== src/Node/Fork/Tests.antt =====
-- A concrete client for the theorem on the lookups of crates/core/src/node/inner/fork.rs: a block is
-- its number, its hash is 100 more, and it is known up to the number of the client.
use anvil_zksync.Base.{
  ℕ, ◌+◌, ◌≡◌, refl, List, [], ◌∷◌, Option, none, some, if◌then◌else◌, ◌==◌, arith,
}
use anvil_zksync.Node.Fork.{memory, BlockId}
use anvil_zksync.Node.Fork.Lookups.{BlockNumber, at_number, at_tag, ForkClient, Fork}
use anvil_zksync.Node.Fork.Cached.{Consistent, Agrees}
use anvil_zksync.Node.Fork.Answers.{
  Question, ask_transaction, ask_raw, ask_block, ask_number, ask_bridge, ask_tokens, ask_all,
  direct_all, ask_all-direct,
}

instance abbrev test_block : BlockId ℕ
test_block = record { number = λ n. n; hash = λ n. n + 100 }

-- The only block is number 7.
abbrev block_at : BlockNumber → Option ℕ
block_at (at_number n) = if n == 7 then some 7 else none
block_at (at_tag tag) = some 7

instance abbrev test_fork : ForkClient ℕ ℕ ℕ ℕ ℕ ℕ
test_fork = record {
  transaction_by_hash = λ client h. some (some h);
  raw_block_transactions = λ client n. none;
  block_by_hash = λ client h. some (if h == 107 then some 7 else none);
  block_by_number = λ client n. some (block_at n);
  bridge_contracts = λ client. some 3;
  confirmed_tokens = λ client n l. some (n + l);
}

test_fork-Consistent : Consistent test_fork 0
test_fork-Consistent = record {
  hashed = λ h block e. ground arith;
  numbered = λ h block e. ground arith;
  found = λ n block e. ground arith;
}

abbrev empty_fork : Fork ℕ ℕ ℕ ℕ ℕ ℕ
empty_fork = record {
  client = some 0;
  cache = record {
    config = memory;
    block_hashes = [];
    blocks_full = [];
    blocks_min = [];
    block_raw_transactions = [];
    transactions = [];
    resolver_selectors = [];
    bridge_addresses = none;
    confirmed_tokens = [];
  };
}

empty_fork-Agrees : Agrees {C = ℕ} 0 empty_fork.cache
empty_fork-Agrees = record {
  hashes = λ n h e. absurd cc;
  blocks = λ h block e. absurd cc;
  raw = λ n txs e. absurd cc;
  txs = λ h tx e. absurd cc;
  bridge = λ a e. absurd cc;
  tokens = λ k t e. absurd cc;
}

abbrev questions : List Question
questions =
    ask_block 107
    ∷ ask_number (at_number 7)
    ∷ ask_number (at_number 8)
    ∷ ask_raw 7
    ∷ ask_bridge
    ∷ ask_bridge
    ∷ ask_transaction 5
    ∷ ask_tokens 1 2
    ∷ []

ask_all-direct_example : ask_all empty_fork questions ≡ direct_all {C = ℕ} 0 questions
ask_all-direct_example =
    ask_all-direct 0 empty_fork questions test_fork-Consistent (refl, empty_fork-Agrees)
