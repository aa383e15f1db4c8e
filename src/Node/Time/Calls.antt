-- ===== src/Node/Time/Calls.antt =====
-- Sequences of calls of the clock of crates/core/src/node/inner/time.rs, and what they keep.
use anvil_zksync.Base.{ℕ, ◌≤◌, ◌<◌, ◌≡◌, refl, List, [], ◌∷◌, Option, none, some, All, arith}
use anvil_zksync.Base.Words.{u64_max}
use anvil_zksync.Node.Time.{
  TimeState, set_current_timestamp_unchecked, enforce_next_timestamp, increase_time,
  set_block_timestamp_interval, remove_block_timestamp_interval, advance_timestamp, reset_to,
}

pub data Call : Type 0 where
  set_current : ℕ → Call
  enforce : ℕ → Call
  increase : ℕ → Call
  set_interval : Option ℕ → Call
  remove_interval : Call
  advance : Call
  reset : ℕ → Call

unfoldable pub step : TimeState → Call → TimeState
step t (set_current n) = (set_current_timestamp_unchecked t n).0
step t (enforce n) = (enforce_next_timestamp t n).0
step t (increase n) = (increase_time t n).0
step t (set_interval i) = set_block_timestamp_interval t i
step t remove_interval = (remove_block_timestamp_interval t).0
step t advance = (advance_timestamp t).0
step t (reset n) = reset_to t n

unfoldable pub run : TimeState → List Call → TimeState
run t [] = t
run t (c ∷ cs) = run (step t c) cs

-- The timestamps that a caller passes are u64 values.
abbrev pub IsWord : Call → Type 0
IsWord (set_current n) = n ≤ u64_max
IsWord (enforce n) = n ≤ u64_max
IsWord (increase n) = n ≤ u64_max
IsWord (set_interval i) = Unit {0}
IsWord remove_interval = Unit {0}
IsWord advance = Unit {0}
IsWord (reset n) = n ≤ u64_max

-- The calls that are no explicit move of the clock to a given time.
abbrev pub IsForward : Call → Type 0
IsForward (set_current n) = ⊥
IsForward (enforce n) = Unit {0}
IsForward (increase n) = Unit {0}
IsForward (set_interval i) = Unit {0}
IsForward remove_interval = Unit {0}
IsForward advance = Unit {0}
IsForward (reset n) = ⊥

-- An enforced timestamp lies in the future of the clock, within a u64.
abbrev pub NextIsFuture : ℕ → Option ℕ → Type 0
NextIsFuture current none = Unit {0}
NextIsFuture current (some next) = (current < next) × (next ≤ u64_max)

pub record IsValid (t : TimeState) : Type 0 where
  pub in_range : t.current_timestamp ≤ u64_max
  pub next_is_future : NextIsFuture t.current_timestamp t.next_timestamp

advance-IsValid :
    (t : TimeState) (o : Option ℕ)
    → t.next_timestamp ≡ o
    → NextIsFuture t.current_timestamp o
    → IsValid (advance_timestamp t).0
unfolding advance_timestamp
advance-IsValid t none e h = record { in_range = ground arith; next_is_future = tt }
advance-IsValid t (some n) e h = record { in_range = ground arith; next_is_future = tt }

pub step-IsValid : (t : TimeState) (c : Call) → IsWord c → IsValid t → IsValid (step t c)
unfolding step set_current_timestamp_unchecked enforce_next_timestamp increase_time
    set_block_timestamp_interval remove_block_timestamp_interval reset_to
step-IsValid t (set_current n) w v = record { in_range = w; next_is_future = tt }
step-IsValid t (enforce n) w v = ground arith
step-IsValid t (increase n) w v = record { in_range = ground arith; next_is_future = tt }
step-IsValid t (set_interval i) w v = record {
  in_range = v.in_range;
  next_is_future = v.next_is_future;
}
step-IsValid t remove_interval w v = record {
  in_range = v.in_range;
  next_is_future = v.next_is_future;
}
step-IsValid t advance w v = advance-IsValid t t.next_timestamp refl v.next_is_future
step-IsValid t (reset n) w v = record { in_range = w; next_is_future = tt }

-- Whatever calls a client makes, with u64 arguments, a valid clock stays valid: its time is a u64,
-- and a pending enforced timestamp is later than the current one.
pub run-IsValid : (t : TimeState) (cs : List Call) → All IsWord cs → IsValid t → IsValid (run t cs)
unfolding run
run-IsValid t [] w v = v
run-IsValid t (c ∷ cs) w v = run-IsValid (step t c) cs w.1 (step-IsValid t c w.0 v)

advance-le :
    (t : TimeState) (o : Option ℕ)
    → t.next_timestamp ≡ o
    → NextIsFuture t.current_timestamp o
    → t.current_timestamp ≤ u64_max
    → t.current_timestamp ≤ (advance_timestamp t).1
unfolding advance_timestamp
advance-le t none e h b = ground arith
advance-le t (some n) e h b = ground arith

step_mono :
    (t : TimeState) (c : Call)
    → IsForward c
    → IsValid t
    → t.current_timestamp ≤ (step t c).current_timestamp
unfolding step enforce_next_timestamp increase_time set_block_timestamp_interval
    remove_block_timestamp_interval
step_mono t (set_current n) f v = absurd f
step_mono t (enforce n) f v = ground arith
step_mono t (increase n) f v = ground (arith, v.in_range)
step_mono t (set_interval i) f v = omega arith
step_mono t remove_interval f v = omega arith
step_mono t advance f v =
    unfold advance_timestamp in advance-le t t.next_timestamp refl v.next_is_future v.in_range
step_mono t (reset n) f v = absurd f

-- Along any calls with u64 arguments, of which none moves the clock to a given time, the time of a
-- valid clock never falls.
pub run_mono :
    (t : TimeState) (cs : List Call)
    → All IsWord cs
    → All IsForward cs
    → IsValid t
    → t.current_timestamp ≤ (run t cs).current_timestamp
unfolding run
run_mono t [] w f v = omega arith
run_mono t (c ∷ cs) w f v =
    omega (arith, step_mono t c f.0 v, run_mono (step t c) cs w.1 f.1 (step-IsValid t c w.0 v))
