-- ===== src/Node/Inner/Revert.antt =====
-- The snapshot list of crates/core/src/node/in_memory_ext.rs: `evm_snapshot` and `evm_revert`.
use anvil_zksync.Base.{
  ℕ, suc, zero, ◌+◌, ◌-◌, ◌≤◌, ◌<◌, ◌≡◌, refl, ap, Bool, true, List, [], ◌∷◌, ◌++◌, Option, none,
  some, if◌then◌else◌, leb, length, get_elem?, take, arith, length-append,
}
use anvil_zksync.Node.Inner.{InMemoryNodeInner}
use anvil_zksync.Node.Inner.Snapshots.{
  Snapshot, snapshot, restore_snapshot, keeps_rest, restore_snapshot-snapshot,
}

-- The part of `InMemoryNode` that the two calls use.
pub record SnapshotNode (R L C D P : Type 0) : Type 0 where
  pub inner : InMemoryNodeInner R L C D P
  pub snapshots : List (Snapshot R L P)

pub data Reply (A : Type 0) : Type 0 where
  ok : A → Reply A
  maximum_exceeded no_snapshot : Reply A

abbrev pub max_snapshots : ℕ
max_snapshots = 100

pred_lem : (n : ℕ) → n + 1 - 1 ≡ n
pred_lem n = omega arith

module _ {A : Type 0} where
  get_elem?-mid : (xs ys : List (A)) (s : A) → get_elem? ((xs ++ s ∷ []) ++ ys) (length xs) ≡ some s
  get_elem?-mid [] ys s = refl
  get_elem?-mid (x ∷ xs) ys s = get_elem?-mid xs ys s

  take-mid : (xs ys : List (A)) (s : A) → take (length xs) ((xs ++ s ∷ []) ++ ys) ≡ xs
  take-mid [] ys s = refl
  take-mid (x ∷ xs) ys s = ap (◌∷◌ x) (take-mid xs ys s)

  get_elem?-past : (xs : List A) (i : ℕ) → length xs ≤ i → get_elem? xs i ≡ none
  get_elem?-past [] i h = refl
  get_elem?-past (x ∷ xs) zero h = ground (arith, h)
  get_elem?-past (x ∷ xs) (suc i) h = get_elem?-past xs i (omega (arith, h))

module _ {R L C D P : Type 0} where
  unfoldable pub take_snapshot : SnapshotNode R L C D P → SnapshotNode R L C D P × Reply ℕ
  take_snapshot node =
      if leb max_snapshots (length node.snapshots)
      then (node, maximum_exceeded)
      else let snapshots = node.snapshots ++ snapshot node.inner ∷ [] in
        (record node { snapshots = snapshots }, ok (length snapshots))

  -- The snapshot at the index; `drain` takes it out with all later ones.
  abbrev pub revert_at :
      SnapshotNode R L C D P → ℕ → Option (Snapshot R L P) → SnapshotNode R L C D P × Reply Bool
  revert_at node index none = (node, no_snapshot)
  revert_at node index (some s) = (
    record node { inner = restore_snapshot node.inner s; snapshots = take index node.snapshots },
    ok true,
  )

  unfoldable pub revert_snapshot : SnapshotNode R L C D P → ℕ → SnapshotNode R L C D P × Reply Bool
  revert_snapshot node snapshot_id =
      revert_at node (snapshot_id - 1) (get_elem? node.snapshots (snapshot_id - 1))

  -- What can happen between a snapshot and its revert: the inner node becomes any other, and more
  -- snapshots are taken.
  abbrev pub later :
      SnapshotNode R L C D P
      → InMemoryNodeInner R L C D P
      → List (Snapshot R L P)
      → SnapshotNode R L C D P
  later node now more = record { inner = now; snapshots = node.snapshots ++ more }

  take_snapshot-below :
      (node : SnapshotNode R L C D P)
      → length node.snapshots < max_snapshots
      → take_snapshot node ≡ (
        record node { snapshots = node.snapshots ++ snapshot node.inner ∷ [] },
        ok (length node.snapshots + 1),
      )
  unfolding take_snapshot
  take_snapshot-below node h =
      ground (arith, h, length-append node.snapshots (snapshot node.inner ∷ []))

  abbrev reverted :
      List (Snapshot R L P) → InMemoryNodeInner R L C D P → SnapshotNode R L C D P × Reply Bool
  reverted snapshots inner = (record { inner = inner; snapshots = snapshots }, ok true)

  -- With fewer than 100 snapshots a new one is taken under the next identifier. Whatever the node
  -- does then, and however many snapshots follow, a revert to that identifier restores the node as
  -- it was, but for what a snapshot does not hold, and leaves the earlier snapshots.
  pub revert_snapshot-take_snapshot :
      (node : SnapshotNode R L C D P) (now : InMemoryNodeInner R L C D P)
      (more : List (Snapshot R L P))
      → length node.snapshots < max_snapshots
      → let (after, reply) = take_snapshot node in
        (reply ≡ ok (length node.snapshots + 1))
        × (after.inner ≡ node.inner)
        × (revert_snapshot (later after now more) (length node.snapshots + 1)
            ≡ (record { inner = keeps_rest node.inner now; snapshots = node.snapshots }, ok true))
  unfolding take_snapshot revert_snapshot
  revert_snapshot-take_snapshot node now more h = rw (take_snapshot-below node h) (
    refl,
    refl,
    rw
        (
          pred_lem (length node.snapshots),
          get_elem?-mid node.snapshots more (snapshot node.inner),
          take-mid node.snapshots more (snapshot node.inner),
        )
        (ap (reverted node.snapshots) (restore_snapshot-snapshot node.inner now)),
  )

  -- A revert to an identifier that is not there changes nothing; identifier 0 stands for 1.
  pub revert_snapshot_lem :
      (node : SnapshotNode R L C D P) (id : ℕ)
      → length node.snapshots < id
      → revert_snapshot node id ≡ (node, no_snapshot)
  unfolding revert_snapshot
  revert_snapshot_lem node id h = rw (get_elem?-past node.snapshots (id - 1) (omega (arith, h)))
