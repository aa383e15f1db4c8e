-- ===== src/Base/Dict.antt =====
-- Maps as association lists: `HashMap`, `BTreeMap` and the insertion order of `IndexMap`.
-- A key stands in a list at most once when the list is built by `insert`; a new key goes to the
-- end, and a known key keeps its place, as in `IndexMap::insert`.
use Prim.Native.Nat.{ℕ}
use mathlib.Core.Path.{◌≡◌, refl, subst, ◌∙◌}
use mathlib.Core.Logic.{◌↔◌, inl, inr}
use mathlib.Core.Bool.{Bool, true, ◌&&◌}
use mathlib.Core.List.{List, [], ◌∷◌}
use mathlib.Core.Option.{Option, none, some}
use native.Mathlib.Omega.{arith}
use anvil_zksync.Base.Tests.{if◌then◌else◌, ◌==◌, ==_iff, Bool-cases}

-- Keys that can be compared: `Eq` of the source.
pub record Key {ℓ} (K : Type ℓ) : Type ℓ where
  pub beq : K → K → Bool
  pub beq_iff : (a b : K) → (beq a b ≡ true) ↔ (a ≡ b)

nat_beq : ℕ → ℕ → Bool
nat_beq a b = a == b

instance abbrev pub nat_key : Key ℕ
nat_key = record { beq = λ a b. a == b; beq_iff = ==_iff }

abbrev pub pair_beq : ℕ × ℕ → ℕ × ℕ → Bool
pair_beq (a, b) (c, d) = (a == c) && (b == d)

pub pair_beq_iff : (p q : ℕ × ℕ) → (pair_beq p q ≡ true) ↔ (p ≡ q)
pair_beq_iff (a, b) (c, d) = ground arith

instance abbrev pub pair_key : Key (ℕ × ℕ)
pair_key = record { beq = pair_beq; beq_iff = pair_beq_iff }

module _ {ℓ κ} {K : Type ℓ} {V : Type κ} ⦃e : Key K⦄ where
  abbrev pub lookup : K → List (K × V) → Option V
  lookup k [] = none
  lookup k ((j, v) ∷ m) = if e.beq j k then some v else lookup k m

  abbrev pub insert : K → V → List (K × V) → List (K × V)
  insert k v [] = (k, v) ∷ []
  insert k v ((j, w) ∷ m) = if e.beq j k then (k, v) ∷ m else (j, w) ∷ insert k v m

  abbrev pub remove : K → List (K × V) → List (K × V)
  remove k [] = []
  remove k ((j, w) ∷ m) = let rest = remove k m in if e.beq j k then rest else (j, w) ∷ rest

  -- `Extend::extend`: later pairs win.
  abbrev pub extend : List (K × V) → List (K × V) → List (K × V)
  extend m [] = m
  extend m ((k, v) ∷ rest) = extend (insert k v m) rest

pub beq_refl {ℓ} : {K : Type ℓ} ⦃e : Key K⦄ (k : K) → e.beq k k ≡ true
beq_refl ⦃e⦄ k = (e.beq_iff k k).1 refl

module _ {ℓ κ} {K : Type ℓ} {V : Type κ} ⦃e : Key K⦄ where
  pub lookup-insert :
      (k j : K) (v : V) (m : List (K × V))
      → lookup j (insert k v m) ≡ (if e.beq k j then some v else lookup j m)
  lookup-insert k j v [] = refl
  lookup-insert k j v ((i, w) ∷ m) =
      ground (arith, e.beq_iff k j, e.beq_iff i k, e.beq_iff i j, lookup-insert k j v m)

  pub lookup-insert_self : (k : K) (v : V) (m : List (K × V)) → lookup k (insert k v m) ≡ some v
  lookup-insert_self k v m = rw (lookup-insert k k v m, beq_refl k)

  pub lookup-remove :
      (k j : K) (m : List (K × V))
      → lookup j (remove k m) ≡ (if e.beq k j then none else lookup j m)
  lookup-remove k j [] = ground arith
  lookup-remove k j ((i, w) ∷ m) =
      ground (arith, e.beq_iff k j, e.beq_iff i k, e.beq_iff i j, lookup-remove k j m)

abbrev pub or_else {ℓ} : {A : Type ℓ} → Option A → Option A → Option A
or_else none o = o
or_else (some a) o = some a

module _ {ℓ κ} {K : Type ℓ} {V : Type κ} ⦃e : Key K⦄ where
  -- No key stands twice.
  abbrev pub Distinct : List (K × V) → Type κ
  Distinct [] = Unit
  Distinct ((k, v) ∷ m) = (lookup k m ≡ none) × Distinct m

  pub insert-Distinct : (k : K) (v : V) (m : List (K × V)) → Distinct m → Distinct (insert k v m)
  insert-Distinct k v [] d = (refl, tt)
  insert-Distinct k v ((j, w) ∷ m) d = elim (Bool-cases (e.beq j k)) [
    | inl h ↦ rw h (subst (λ x. lookup x m ≡ none) ((e.beq_iff j k).0 h) d.0, d.1)
    | inr h ↦ rw h (
      ground (arith, lookup-insert k j v m, h, d.0, e.beq_iff j k, e.beq_iff k j),
      insert-Distinct k v m d.1,
    )
  ]

  pub extend-Distinct : (m n : List (K × V)) → Distinct m → Distinct (extend m n)
  extend-Distinct m [] d = d
  extend-Distinct m ((k, v) ∷ n) d = extend-Distinct (insert k v m) n (insert-Distinct k v m d)

  -- The entries that are put in win.
  pub lookup-extend :
      (k : K) (m n : List (K × V))
      → Distinct n
      → lookup k (extend m n) ≡ or_else (lookup k n) (lookup k m)
  lookup-extend k m [] d = refl
  lookup-extend k m ((j, v) ∷ n) d =
      lookup-extend k (insert j v m) n d.1 ∙ elim (Bool-cases (e.beq j k)) [
        | inl h ↦
            rw (lookup-insert j k v m, h, subst (λ x. lookup x n ≡ none) ((e.beq_iff j k).0 h) d.0)
        | inr h ↦ rw (lookup-insert j k v m, h)
      ]
