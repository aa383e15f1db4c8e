-- ===== src/Base/Panics.antt =====
-- Code that may panic: `unwrap`, `expect`, `panic!` and the checked conversions of integers.
use Prim.Native.Nat.{ℕ}
use mathlib.Core.Path.{◌≡◌, refl}
use mathlib.Core.Bool.{Bool, true, false}
use mathlib.Core.Option.{Option, none, some}
use anvil_zksync.Base.Tests.{if◌then◌else◌, ltb}
use anvil_zksync.Base.Words.{u32_mod, u64_mod}

pub data Outcome {ℓ} (A : Type ℓ) : Type ℓ where
  panic : Outcome A
  done : A → Outcome A

infixl 5 ◌>>=◌ ◌>>◌
abbrev pub ◌>>=◌ {ℓ κ} : {A : Type ℓ} {B : Type κ} → Outcome A → (A → Outcome B) → Outcome B
panic >>= f = panic
done a >>= f = f a

abbrev pub ◌>>◌ {ℓ} : {B : Type ℓ} → Outcome (Unit {0}) → Outcome B → Outcome B
m >> k = m >>= λ _. k

-- `unwrap` and `expect`.
abbrev pub unwrap {ℓ} : {A : Type ℓ} → Option A → Outcome A
unwrap none = panic
unwrap (some a) = done a

-- `if b { panic!(..) }`.
abbrev pub panic_if : Bool → Outcome (Unit {0})
panic_if true = panic
panic_if false = done tt

-- The conversions `as_u32` and `as_u64` of the wide integers panic outside the range, and so does
-- an addition on u32.
abbrev pub as_u32 : ℕ → Outcome ℕ
as_u32 n = if ltb n u32_mod then done n else panic

abbrev pub as_u64 : ℕ → Outcome ℕ
as_u64 n = if ltb n u64_mod then done n else panic

pub >>=-eq-done {ℓ κ} :
    {A : Type ℓ} {B : Type κ} (m : Outcome A) (f : A → Outcome B) {b : B}
    → (m >>= f) ≡ done b
    → (a : A) × (m ≡ done a) × (f a ≡ done b)
>>=-eq-done (done a) f h = (a, refl, h)
>>=-eq-done panic f h = cc

pub unwrap-eq-done {ℓ} : {A : Type ℓ} (o : Option A) {a : A} → unwrap o ≡ done a → o ≡ some a
unwrap-eq-done none h = cc
unwrap-eq-done (some a) h = cc

-- What holds of a result, unless the code panics.
abbrev pub IfDone {ℓ κ} : {A : Type ℓ} → (A → Type κ) → Outcome A → Type κ
IfDone Q panic = Unit
IfDone Q (done a) = Q a

pub IfDone-bind {ℓ} :
    {A B : Type ℓ} (Q : B → Type ℓ) (f : A → Outcome B) (m : Outcome A)
    → ((a : A) → IfDone Q (f a))
    → IfDone Q (m >>= f)
IfDone-bind Q f panic h = tt
IfDone-bind Q f (done a) h = h a

pub IfDone-then {ℓ} :
    {A B : Type ℓ} (Q : A → Type ℓ) (S : B → Type ℓ) (f : A → Outcome B) (m : Outcome A)
    → IfDone Q m
    → ((a : A) → Q a → IfDone S (f a))
    → IfDone S (m >>= f)
IfDone-then Q S f panic h k = tt
IfDone-then Q S f (done a) h k = k a h

pub IfDone-imp {ℓ} :
    {A : Type ℓ} {Q S : A → Type ℓ}
    → ((a : A) → Q a → S a)
    → (m : Outcome A) → IfDone Q m
    → IfDone S m
IfDone-imp k panic h = tt
IfDone-imp k (done a) h = k a h
