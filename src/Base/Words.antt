-- ===== src/Base/Words.antt =====
-- Machine words of the source: u32, u64 and U256 are numbers below a bound, and an i128 is an
-- integer within its bounds.
use Prim.Native.Nat.{ℕ, ◌+◌, ◌-◌, ◌%◌, ◌^◌}
use mathlib.Core.Option.{Option, none, some}
use anvil_zksync.Base.Tests.{ltb, if◌then◌else◌}

abbrev pub u32_mod : ℕ
u32_mod = 2 ^ 32

abbrev pub u64_mod : ℕ
u64_mod = 2 ^ 64

abbrev pub u64_max : ℕ
u64_max = 2 ^ 64 - 1

abbrev pub u128_mod : ℕ
u128_mod = 2 ^ 128

abbrev pub u256_mod : ℕ
u256_mod = 2 ^ 256

-- `u64::saturating_add`.
abbrev pub saturating_add : ℕ → ℕ → ℕ
saturating_add a b = if ltb u64_max (a + b) then u64_max else a + b

-- `u64::wrapping_add`.
abbrev pub wrapping_add : ℕ → ℕ → ℕ
wrapping_add a b = (a + b) % u64_mod

-- `U256::checked_add`.
abbrev pub checked_add_256 : ℕ → ℕ → Option ℕ
checked_add_256 a b = if ltb (a + b) u256_mod then some (a + b) else none
