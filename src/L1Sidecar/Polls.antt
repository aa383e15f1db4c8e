-- ===== src/L1Sidecar/Polls.antt =====
-- The polls of crates/l1_sidecar/src/l1_watcher.rs: which transactions reach the pool.
use anvil_zksync.Base.{
  ℕ, suc, ◌+◌, ◌-◌, ◌≤◌, ◌<◌, ◌≡◌, refl, sym, ◌∙◌, ap, subst, inl, inr, true, List, [], ◌∷◌, ◌++◌,
  Option, none, some, ltb, leb, ◌==◌, length, length-append, Outcome, done, ◌>>=◌, as_u64, IfDone,
  IfDone-bind, IfDone-then, IfDone-imp, Bool-cases, arith,
}
use anvil_zksync.Base.Words.{u64_mod}
use anvil_zksync.Node.Pool.{Transaction, Sender, TxPool, add_tx}
use anvil_zksync.L1Sidecar.Watcher.{
  Serial, L1Watcher, PollResult, ok, provider_error, gap_in_priority_transactions,
  serial_id_mismatch, skip_known, last_serial, add_each, add_new, receive, poll_l1,
}

module _ {T : Type 0} ⦃s : Serial T⦄ where
  -- The first serial, if any, is larger.
  abbrev pub Above : ℕ → List T → Type 0
  Above n [] = Unit
  Above n (tx ∷ txs) = n < s.serial_id tx

  -- The serials rise.
  abbrev pub Ascending : List T → Type 0
  Ascending [] = Unit
  Ascending (tx ∷ txs) = Above (s.serial_id tx) txs × Ascending txs

  -- The serials are `n` and the numbers after it.
  abbrev pub Consecutive : ℕ → List T → Type 0
  Consecutive n [] = Unit
  Consecutive n (tx ∷ txs) = (s.serial_id tx ≡ n) × Consecutive (n + 1) txs

  last_serial-ge :
      (tx : T) (txs : List T)
      → Ascending (tx ∷ txs)
      → s.serial_id tx + length txs ≤ last_serial tx txs
  unfolding last_serial
  last_serial-ge tx [] h = omega arith
  last_serial-ge tx (tx' ∷ txs) h = omega (arith, h.0, last_serial-ge tx' txs h.1)

  -- Rising serials with no room between them follow each other.
  Consecutive-Ascending :
      (tx : T) (txs : List T)
      → Ascending (tx ∷ txs)
      → last_serial tx txs ≡ s.serial_id tx + length txs
      → Consecutive (s.serial_id tx) (tx ∷ txs)
  unfolding last_serial
  Consecutive-Ascending tx [] h e = (refl, tt)
  Consecutive-Ascending tx (tx' ∷ txs) h e =
      let next : s.serial_id tx' ≡ s.serial_id tx + 1 =
        omega (arith, h.0, e, last_serial-ge tx' txs h.1) in
      (
        refl,
        subst (λ n. Consecutive n (tx' ∷ txs)) next
            (Consecutive-Ascending tx' txs h.1 (omega (arith, e, next))),
      )

  last_serial-Consecutive :
      (n : ℕ) (tx : T) (txs : List T)
      → Consecutive n (tx ∷ txs)
      → last_serial tx txs + 1 ≡ n + length (tx ∷ txs)
  unfolding last_serial
  last_serial-Consecutive n tx [] h = omega (arith, h.0)
  last_serial-Consecutive n tx (tx' ∷ txs) h =
      omega (arith, h.0, last_serial-Consecutive (n + 1) tx' txs h.1)

  Consecutive-++ :
      (n : ℕ) (xs ys : List T)
      → Consecutive n xs
      → Consecutive (n + length xs) ys
      → Consecutive n (xs ++ ys)
  Consecutive-++ n [] ys h k = subst (λ m. Consecutive m ys) (omega arith) k
  Consecutive-++ n (x ∷ xs) ys h k =
      (h.0, Consecutive-++ (n + 1) xs ys h.1 (subst (λ m. Consecutive m ys) (omega arith) k))

  -- What is left after the known ones follows from its first serial.
  abbrev FromFirst : List T → Type 0
  FromFirst [] = Unit
  FromFirst (tx ∷ txs) = Consecutive (s.serial_id tx) (tx ∷ txs)

  skip_known-FromFirst :
      (next n : ℕ) (txs : List T) → Consecutive n txs → FromFirst (skip_known next txs)
  unfolding skip_known
  skip_known-FromFirst next n [] h = tt
  skip_known-FromFirst next n (tx ∷ txs) h = elim (Bool-cases (ltb (s.serial_id tx) next)) [
    | inl e ↦ rw e (skip_known-FromFirst next (n + 1) txs h.1)
    | inr e ↦ rw e (refl, subst (λ m. Consecutive (m + 1) txs) (sym h.0) h.1)
  ]

  -- The priority requests of an answer of the L1 node come in the order of their serials.
  abbrev pub IsOrdered : (ℕ → ℕ → Option (List T)) → Type 0
  IsOrdered logs =
      (from_block to_block : ℕ) (txs : List T) → logs from_block to_block ≡ some txs → Ascending txs

tight_range : (a b m : ℕ) → leb a b ≡ true → ((b - a) + 1 == suc m) ≡ true → b ≡ a + m
tight_range a b m e f = ground arith

module _ {T L : Type 0} ⦃s : Serial T⦄ ⦃t : Transaction T⦄ ⦃n : Sender L⦄ where
  -- From a watcher to a later one: the pool has got some more transactions, whose serials are those
  -- that were expected, one after the other.
  pub record Adds (w after : L1Watcher T L) : Type 0 where
    pub new_txs : List T
    pub expected : Consecutive w.next_expected_priority_id new_txs
    pub added : after.pool ≡ add_each w.pool new_txs
    pub next : after.next_expected_priority_id ≡ w.next_expected_priority_id + length new_txs

  Adds-refl : (w : L1Watcher T L) → Adds w w
  unfolding add_each
  Adds-refl w = record { new_txs = []; expected = tt; added = refl; next = omega arith }

  add_new-Adds :
      (w : L1Watcher T L) (to_block : ℕ) (txs : List T)
      → FromFirst txs
      → IfDone (λ (r : L1Watcher T L × PollResult). Adds w r.0) (add_new w to_block txs)
  unfolding add_new
  add_new-Adds w to_block [] h = Adds-refl w
  add_new-Adds w to_block (first ∷ txs) h =
      elim (Bool-cases (s.serial_id first == w.next_expected_priority_id)) [
        | inr e ↦ rw e (Adds-refl w)
        | inl e ↦ elim (Bool-cases (ltb (last_serial first txs + 1) u64_mod)) [
          | inr f ↦ rw (e, f) tt
          | inl f ↦
              let same : s.serial_id first ≡ w.next_expected_priority_id = ground (arith, e) in
              let new : Consecutive w.next_expected_priority_id (first ∷ txs) =
                subst (λ m. Consecutive m (first ∷ txs)) same h in
              rw (e, f)
                (IfDone-bind (λ (r : L1Watcher T L × PollResult). Adds w r.0) _
                  (as_u64 (to_block + 1))
                  (λ from_block. record {
                    new_txs = first ∷ txs;
                    expected = new;
                    added = refl;
                    next = last_serial-Consecutive w.next_expected_priority_id first txs new;
                  }))
        ]
      ]

  receive-Adds :
      (w : L1Watcher T L) (to_block : ℕ) (txs : List T)
      → Ascending txs
      → IfDone (λ (r : L1Watcher T L × PollResult). Adds w r.0) (receive w to_block txs)
  unfolding receive
  receive-Adds w to_block [] h = Adds-refl w
  receive-Adds w to_block (first ∷ txs) h =
      elim (Bool-cases (leb (s.serial_id first) (last_serial first txs))) [
        | inr e ↦ rw e tt
        | inl e ↦
            let difference = last_serial first txs - s.serial_id first in
            elim (Bool-cases (ltb (difference + 1) u64_mod)) [
              | inr f ↦ rw (e, f) tt
              | inl f ↦ elim (Bool-cases (difference + 1 == length (first ∷ txs))) [
                | inr g ↦ rw (e, f, g) (Adds-refl w)
                | inl g ↦
                    let tight : last_serial first txs ≡ s.serial_id first + length txs =
                      tight_range (s.serial_id first) (last_serial first txs) (length txs) e g in
                    rw (e, f, g)
                      (add_new-Adds w to_block
                        (skip_known w.next_expected_priority_id (first ∷ txs))
                        (skip_known-FromFirst w.next_expected_priority_id (s.serial_id first)
                          (first ∷ txs) (Consecutive-Ascending first txs h tight)))
              ]
            ]
      ]

  poll_l1-Adds :
      (w : L1Watcher T L) (latest : Option ℕ) (logs : ℕ → ℕ → Option (List T))
      → IsOrdered logs
      → IfDone (λ (r : L1Watcher T L × PollResult). Adds w r.0) (poll_l1 w latest logs)
  unfolding poll_l1
  poll_l1-Adds w none logs h = Adds-refl w
  poll_l1-Adds w (some to_block) logs h = elim (Bool-cases (ltb to_block w.from_block)) [
    | inl e ↦ rw e (Adds-refl w)
    | inr e ↦ rw e (go (logs w.from_block to_block) (h w.from_block to_block))
  ]
    where
      go :
          (o : Option (List T))
          → ((txs : List T) → o ≡ some txs → Ascending txs)
          → IfDone
              (λ (r : L1Watcher T L × PollResult). Adds w r.0)
              (elim o [ none ↦ done (w, provider_error) | some txs ↦ receive w to_block txs ])
      go none k = Adds-refl w
      go (some txs) k = receive-Adds w to_block txs (k txs refl)

  add_each-++ :
      (pool : TxPool T L) (xs ys : List T)
      → add_each pool (xs ++ ys) ≡ add_each (add_each pool xs) ys
  unfolding add_each
  add_each-++ pool [] ys = refl
  add_each-++ pool (x ∷ xs) ys = add_each-++ (add_tx pool x) xs ys

  Adds-trans : (w v u : L1Watcher T L) → Adds w v → Adds v u → Adds w u
  Adds-trans w v u a b = record {
    new_txs = a.new_txs ++ b.new_txs;
    expected =
        Consecutive-++ w.next_expected_priority_id a.new_txs b.new_txs a.expected
          (subst (λ m. Consecutive m b.new_txs) a.next b.expected);
    added =
        b.added
        ∙ ap (λ pool. add_each pool b.new_txs) a.added
        ∙ sym (add_each-++ w.pool a.new_txs b.new_txs);
    next = omega (arith, a.next, b.next, length-append a.new_txs b.new_txs);
  }

-- The number of the latest block on L1, and what its logs say of a range of blocks.
abbrev pub Answer : Type 0 → Type 0
Answer T = Option ℕ × (ℕ → ℕ → Option (List T))

module _ {T : Type 0} ⦃s : Serial T⦄ where
  abbrev pub AllOrdered : List (Answer T) → Type 0
  AllOrdered [] = Unit
  AllOrdered (answer ∷ answers) = IsOrdered answer.1 × AllOrdered answers

module _ {T L : Type 0} ⦃s : Serial T⦄ ⦃t : Transaction T⦄ ⦃n : Sender L⦄ where
  abbrev pub continue_if :
      PollResult
      → L1Watcher T L
      → (L1Watcher T L → Outcome (L1Watcher T L))
      → Outcome (L1Watcher T L)
  continue_if ok w rest = rest w
  continue_if provider_error w rest = done w
  continue_if gap_in_priority_transactions w rest = done w
  continue_if serial_id_mismatch w rest = done w

  -- `L1Watcher::run`, until an error or for as many polls as there are answers.
  unfoldable pub run_polls : L1Watcher T L → List (Answer T) → Outcome (L1Watcher T L)
  unfolding poll_l1
  run_polls w [] = done w
  run_polls w (answer ∷ answers) =
      poll_l1 w answer.0 answer.1 >>= λ r. continue_if r.1 r.0 (λ after. run_polls after answers)

  continue_if-Adds :
      (w v : L1Watcher T L) (result : PollResult) (rest : L1Watcher T L → Outcome (L1Watcher T L))
      → Adds w v
      → IfDone (Adds v) (rest v)
      → IfDone (Adds w) (continue_if result v rest)
  continue_if-Adds w v ok rest a h = IfDone-imp (λ u b. Adds-trans w v u a b) (rest v) h
  continue_if-Adds w v provider_error rest a h = a
  continue_if-Adds w v gap_in_priority_transactions rest a h = a
  continue_if-Adds w v serial_id_mismatch rest a h = a

  -- However the polls go, and wherever they end with an error: the pool has got exactly the
  -- transactions of the serials from the first expected one up to the one expected next, each once
  -- and in order, provided that each answer lists its priority requests in the order of their
  -- serials. The answers may overlap and may have gaps.
  pub run_polls-Adds :
      (w : L1Watcher T L) (answers : List (Answer T))
      → AllOrdered answers
      → IfDone (Adds w) (run_polls w answers)
  unfolding run_polls
  run_polls-Adds w [] h = Adds-refl w
  run_polls-Adds w (answer ∷ answers) h =
      IfDone-then (λ (r : L1Watcher T L × PollResult). Adds w r.0) (Adds w) _
        (poll_l1 w answer.0 answer.1) (poll_l1-Adds w answer.0 answer.1 h.0)
        (λ r a.
          continue_if-Adds w r.0 r.1 (λ after. run_polls after answers) a
            (run_polls-Adds r.0 answers h.1))
