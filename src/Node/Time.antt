-- ===== src/Node/Time.antt =====
-- crates/core/src/node/inner/time.rs: the node's clock.
-- The lock around the state is taken for one whole call, so that a call is a function from the
-- state to the new state and the result. Timestamps are u64 values, in seconds.
pub mod Calls
pub mod Advance
pub mod Tests
use anvil_zksync.Base.{
  ℕ, ◌+◌, ◌-◌, ◌^◌, ◌≤◌, ◌<◌, Bool, true, false, Option, none, some, if◌then◌else◌, ltb, leb,
}
use anvil_zksync.Base.Int.{ℤ, pos, negsuc, pos_part, neg_part, sub_ℕ}
use anvil_zksync.Base.Words.{u64_max, saturating_add}

pub record TimeState : Type 0 where
  pub current_timestamp : ℕ
  pub next_timestamp : Option ℕ
  pub interval : Option ℕ

-- `TimestampBackwardsError`.
pub data EnforceResult : Type 0 where
  ok : EnforceResult
  timestamp_backwards : (timestamp_requested timestamp_now : ℕ) → EnforceResult

unfoldable pub new : ℕ → TimeState
new timestamp = record { current_timestamp = timestamp; next_timestamp = none; interval = none }

abbrev pub unwrap_or : Option ℕ → ℕ → ℕ
unwrap_or none d = d
unwrap_or (some n) d = n

-- `TimeState::interval`.
unfoldable pub interval_or_default : TimeState → ℕ
interval_or_default t = unwrap_or t.interval 1

-- The range of an i128, and its saturating subtraction.
abbrev i128_max : ℕ
i128_max = 2 ^ 127 - 1

unfoldable pub saturate_i128 : ℤ → ℤ
saturate_i128 (pos n) = if ltb i128_max n then pos i128_max else pos n
saturate_i128 (negsuc n) = if ltb i128_max n then negsuc i128_max else negsuc n

unfoldable pub set_current_timestamp_unchecked : TimeState → ℕ → TimeState × ℤ
unfolding saturate_i128
set_current_timestamp_unchecked t timestamp = (
  record t { current_timestamp = timestamp; next_timestamp = none },
  saturate_i128 (sub_ℕ timestamp t.current_timestamp),
)

unfoldable pub enforce_next_timestamp : TimeState → ℕ → TimeState × EnforceResult
enforce_next_timestamp t timestamp =
    if leb timestamp t.current_timestamp
    then (t, timestamp_backwards timestamp t.current_timestamp)
    else (record t { next_timestamp = some timestamp }, ok)

unfoldable pub increase_time : TimeState → ℕ → TimeState × ℕ
increase_time t seconds =
    let next = saturating_add t.current_timestamp seconds in
    (record t { current_timestamp = next; next_timestamp = none }, next)

unfoldable pub get_block_timestamp_interval : TimeState → Option ℕ
get_block_timestamp_interval t = t.interval

unfoldable pub set_block_timestamp_interval : TimeState → Option ℕ → TimeState
set_block_timestamp_interval t seconds = record t { interval = seconds }

is_some : Option ℕ → Bool
is_some none = false
is_some (some n) = true

unfoldable pub remove_block_timestamp_interval : TimeState → TimeState × Bool
unfolding is_some
remove_block_timestamp_interval t = (record t { interval = none }, is_some t.interval)

unfoldable pub peek_next_timestamp : TimeState → ℕ
unfolding interval_or_default
peek_next_timestamp t =
    unwrap_or t.next_timestamp (saturating_add t.current_timestamp (interval_or_default t))

next_of : TimeState → Option ℕ → ℕ
unfolding interval_or_default
next_of t (some next_timestamp) = next_timestamp
next_of t none = saturating_add t.current_timestamp (interval_or_default t)

unfoldable pub advance_timestamp : TimeState → TimeState × ℕ
unfolding next_of
advance_timestamp t =
    let next = next_of t t.next_timestamp in
    (record t { current_timestamp = next; next_timestamp = none }, next)

unfoldable pub reset_to : TimeState → ℕ → TimeState
reset_to t timestamp = record t { current_timestamp = timestamp; next_timestamp = none }
