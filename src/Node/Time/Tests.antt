-- ===== src/Node/Time/Tests.antt =====
-- The clock of crates/core/src/node/inner/time.rs at concrete times.
use anvil_zksync.Base.{◌≤◌, ◌≡◌, refl, List, [], ◌∷◌, none, some, arith}
use anvil_zksync.Base.Int.{negsuc}
use anvil_zksync.Node.Time.{
  TimeState, set_current_timestamp_unchecked, enforce_next_timestamp, peek_next_timestamp,
  advance_timestamp, increase_time, set_block_timestamp_interval,
}
use anvil_zksync.Node.Time.Calls.{
  Call, enforce, increase, set_interval, advance, IsValid, run, step, run-IsValid, run_mono,
}
use anvil_zksync.Node.Time.Advance.{advance-peek}

abbrev start : TimeState
start = record { current_timestamp = 1000; next_timestamp = none; interval = none }

abbrev enforced : TimeState
enforced = record { current_timestamp = 1000; next_timestamp = some 1500; interval = some 10 }

abbrev stalled : TimeState
stalled = record { current_timestamp = 1000; next_timestamp = none; interval = some 0 }

abbrev calls : List Call
calls = enforce 1200 ∷ advance ∷ set_interval (some 7) ∷ advance ∷ increase 100 ∷ []

start-IsValid : IsValid start
start-IsValid = record { in_range = omega arith; next_is_future = tt }

enforced-IsValid : IsValid enforced
enforced-IsValid = record { in_range = omega arith; next_is_future = omega arith }

stalled-IsValid : IsValid stalled
stalled-IsValid = record { in_range = omega arith; next_is_future = tt }

calls_end : (run start calls).current_timestamp ≡ 1307
unfolding run step increase_time advance_timestamp set_block_timestamp_interval
    enforce_next_timestamp
calls_end = refl

backwards : (set_current_timestamp_unchecked start 400).1 ≡ negsuc 599
unfolding set_current_timestamp_unchecked
backwards = refl

run-IsValid_example : IsValid (run start calls)
run-IsValid_example = run-IsValid start calls (omega arith) start-IsValid

run_mono_example : 1000 ≤ (run start calls).current_timestamp
run_mono_example = run_mono start calls (omega arith) (tt, (tt, (tt, (tt, (tt, tt))))) start-IsValid

advance-peek_example :
    ((advance_timestamp enforced).1 ≡ peek_next_timestamp enforced)
    × ((advance_timestamp enforced).0 ≡ record {
      current_timestamp = peek_next_timestamp enforced;
      next_timestamp = none;
      interval = some 10;
    })
advance-peek_example = advance-peek enforced
