-- ===== src/L1Sidecar/Contracts.antt =====
-- The contracts on L1 that crates/l1_sidecar/src/l1_sender.rs calls: what is documented of them and
-- of the node that serves them.
use anvil_zksync.Base.{
  ℕ, ◌≡◌, refl, ◌∙◌, ap, ◌⊎◌, if◌then◌else◌, inl, inr, Bool, true, false, List, ◌++◌, Option, none,
  some,
}
use anvil_zksync.L1Sidecar.{
  L1BatchWithMetadata, Call, commit_batches, prove_batches, execute_batches, TransactionRequest,
  Receipt, Provider, and_then, hash_if_ok, request_of, Eip1559Estimation, send_call, with_sidecar,
}

-- The state of the contracts in the state of the L1: the last batches, and the leaves of the tree of
-- priority operations.
pub record View (L : Type 0) : Type 0 where
  pub committed : L → L1BatchWithMetadata
  pub proved : L → L1BatchWithMetadata
  pub executed : L → L1BatchWithMetadata
  pub tree : L → List ℕ

module _ {L : Type 0} (v : View L) where
  -- The contracts are as they were.
  abbrev pub Same : L → L → Type 0
  Same l l' =
      (v.committed l' ≡ v.committed l)
      × (v.proved l' ≡ v.proved l)
      × (v.executed l' ≡ v.executed l)
      × (v.tree l' ≡ v.tree l)

  -- What a call does when it goes through. An execution goes through only with the tree that has the
  -- operations of the contracts and then those of the batch.
  abbrev pub Took : L → Call → L → Type 0
  Took l (commit_batches last batch) l' =
      (v.committed l' ≡ batch)
      × (v.proved l' ≡ v.proved l)
      × (v.executed l' ≡ v.executed l)
      × (v.tree l' ≡ v.tree l)
  Took l (prove_batches last batch) l' =
      (v.committed l' ≡ v.committed l)
      × (v.proved l' ≡ batch)
      × (v.executed l' ≡ v.executed l)
      × (v.tree l' ≡ v.tree l)
  Took l (execute_batches batch leaves) l' =
      (v.committed l' ≡ v.committed l)
      × (v.proved l' ≡ v.proved l)
      × (v.executed l' ≡ batch)
      × (v.tree l' ≡ leaves)
      × (leaves ≡ v.tree l ++ batch.priority_ops)

  -- After an error, also one of the connection, the call has gone through or not.
  abbrev pub Unknown : L → Call → L → Type 0
  Unknown l call l' = Same l l' ⊎ Took l call l'

  abbrev pub ByStatus : Bool → L → Call → L → Type 0
  ByStatus true l call l' = Took l call l'
  ByStatus false l call l' = Same l l'

  abbrev pub AfterReceipt : L → Call → L × Option Receipt → Type 0
  AfterReceipt l call (l', none) = Unknown l call l'
  AfterReceipt l call (l', some receipt) = ByStatus receipt.status l call l'

  abbrev pub AfterSend : ⦃p : Provider L⦄ → L → Call → L × Option ℕ → Type 0
  AfterSend l call (l', none) = Unknown l call l'
  AfterSend ⦃p⦄ l call (l', some pending) = AfterReceipt l call (p.get_receipt l' pending)

  -- What an error and a hash say of the whole call.
  abbrev pub Ends : L → Call → L × Option ℕ → Type 0
  Ends l call (l', none) = Unknown l call l'
  Ends l call (l', some hash) = Took l call l'

  Same-trans : (l m n : L) → Same l m → Same m n → Same l n
  Same-trans l m n a b = (b.0 ∙ a.0, b.1 ∙ a.1, b.2 ∙ a.2, b.3 ∙ a.3)

  Took-after : (l m n : L) (call : Call) → Same l m → Took m call n → Took l call n
  Took-after l m n (commit_batches last batch) a b = (b.0, b.1 ∙ a.1, b.2 ∙ a.2, b.3 ∙ a.3)
  Took-after l m n (prove_batches last batch) a b = (b.0 ∙ a.0, b.1, b.2 ∙ a.2, b.3 ∙ a.3)
  Took-after l m n (execute_batches batch leaves) a b =
      (b.0 ∙ a.0, b.1 ∙ a.1, b.2, b.3, b.4 ∙ ap (λ t. t ++ batch.priority_ops) a.3)

  Ends-after : (l m : L) (call : Call) (r : L × Option ℕ) → Same l m → Ends m call r → Ends l call r
  Ends-after l m call (n, none) a (inl b) = inl (Same-trans l m n a b)
  Ends-after l m call (n, none) a (inr b) = inr (Took-after l m n call a b)
  Ends-after l m call (n, some hash) a b = Took-after l m n call a b

-- The documented behaviour of the node and the contracts, on an L1 that no one else writes to: the
-- requests for fees change nothing, and a call goes through exactly if its receipt says so. A
-- transaction without a receipt has gone through by the time of the error, or never does.
pub record L1Contracts (L : Type 0) ⦃p : Provider L⦄ : Type 0 where
  pub view : View L
  pub price_asked : (l : L) → Same view l (p.get_gas_price l).0
  pub fees_asked : (l : L) → Same view l (p.estimate_eip1559_fees l).0
  pub delivers :
      (l : L) (tx : TransactionRequest) → AfterSend view l tx.call (p.send_transaction l tx)

module _ {L : Type 0} ⦃p : Provider L⦄ (c : L1Contracts L) where
  of_status :
      (l m : L) (call : Call) (status : Bool) (hash : ℕ)
      → ByStatus c.view status l call m
      → Ends c.view l call (m, if status then some hash else none)
  of_status l m call true hash h = h
  of_status l m call false hash h = inl h

  of_receipt :
      (l : L) (call : Call) (r : L × Option Receipt)
      → AfterReceipt c.view l call r
      → Ends c.view l call (and_then r λ l' receipt. (l', hash_if_ok receipt))
  of_receipt l call (l', none) h = h
  of_receipt l call (l', some receipt) h =
      of_status l l' call receipt.status receipt.transaction_hash h

  of_send :
      (l : L) (call : Call) (r : L × Option ℕ)
      → AfterSend c.view l call r
      → Ends c.view l call (
          and_then r λ l1 pending.
            and_then (p.get_receipt l1 pending) λ l2 receipt. (l2, hash_if_ok receipt))
  of_send l call (l', none) h = h
  of_send l call (l', some pending) h = of_receipt l call (p.get_receipt l' pending) h

  -- A call that gives a hash has gone through; after an error it may have.
  pub send_call-Ends : (l : L) (call : Call) → Ends c.view l call (send_call l call)
  unfolding send_call
  send_call-Ends l call = priced (p.get_gas_price l) (c.price_asked l)
    where
      fees_of :
          (m : L) (price : ℕ) (r : L × Option Eip1559Estimation)
          → Same c.view m r.0
          → Ends c.view m call (
              and_then r λ l1 fees.
                and_then (p.send_transaction l1 (request_of call price fees)) λ l1 pending.
                  and_then (p.get_receipt l1 pending) λ l1 receipt. (l1, hash_if_ok receipt))
      fees_of m price (n, none) same = inl same
      fees_of m price (n, some fees) same = Ends-after c.view m n call _ same (
          of_send n call (p.send_transaction n (request_of call price fees))
            (c.delivers n (request_of call price fees)))

      priced :
          (r : L × Option ℕ)
          → Same c.view l r.0
          → Ends c.view l call (
              and_then r λ l1 price. and_then (p.estimate_eip1559_fees l1) λ l1 fees.
                and_then (p.send_transaction l1 (request_of call price fees)) λ l1 pending.
                  and_then (p.get_receipt l1 pending) λ l1 receipt. (l1, hash_if_ok receipt))
      priced (m, none) same = inl same
      priced (m, some price) same =
          Ends-after c.view l m call _ same
            (fees_of m price (p.estimate_eip1559_fees m) (c.fees_asked m))

  pub with_sidecar-Ends : (l : L) (call : Call) → Ends c.view l call (with_sidecar l call)
  unfolding with_sidecar
  with_sidecar-Ends l call = go p.blob_sidecar
    where
      go : (b : Bool) → Ends c.view l call (if b then send_call l call else (l, none))
      go true = send_call-Ends l call
      go false = inl (refl, refl, refl, refl)
