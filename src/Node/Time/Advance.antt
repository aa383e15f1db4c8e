-- ===== src/Node/Time/Advance.antt =====
-- The time of the next block: crates/core/src/node/inner/time.rs, `peek_next_timestamp` and
-- `advance_timestamp`.
use anvil_zksync.Base.{ℕ, ◌+◌, ◌≤◌, ◌<◌, ◌≡◌, refl, ◌≢◌, Option, none, some, arith}
use anvil_zksync.Base.Words.{u64_max}
use anvil_zksync.Base.Int.{pos_part, neg_part}
use anvil_zksync.Node.Time.{
  TimeState, ok, timestamp_backwards, set_current_timestamp_unchecked, enforce_next_timestamp,
  peek_next_timestamp, advance_timestamp,
}
use anvil_zksync.Node.Time.Calls.{IsValid, NextIsFuture}

advance-peek_of :
    (t : TimeState) (o : Option ℕ)
    → t.next_timestamp ≡ o
    → (advance_timestamp t).1 ≡ peek_next_timestamp t
unfolding advance_timestamp peek_next_timestamp
advance-peek_of t none e = rw (e, advance_timestamp, peek_next_timestamp)
advance-peek_of t (some n) e = rw (e, advance_timestamp, peek_next_timestamp)

-- `advance_timestamp` returns what `peek_next_timestamp` foretold, makes it the current time, uses
-- up an enforced timestamp, and leaves the interval as it was.
pub advance-peek :
    (t : TimeState)
    → ((advance_timestamp t).1 ≡ peek_next_timestamp t)
      × ((advance_timestamp t).0 ≡ record {
        current_timestamp = peek_next_timestamp t;
        next_timestamp = none;
        interval = t.interval;
      })
advance-peek t = (e, f)
  where
    e : (advance_timestamp t).1 ≡ peek_next_timestamp t
    e = advance-peek_of t t.next_timestamp refl

    f : (advance_timestamp t).0 ≡ record {
      current_timestamp = peek_next_timestamp t;
      next_timestamp = none;
      interval = t.interval;
    }
    f = unfold advance_timestamp in ground (arith, e)

peek_future_of :
    (t : TimeState) (o : Option ℕ)
    → t.next_timestamp ≡ o
    → NextIsFuture t.current_timestamp o
    → t.interval ≢ some 0
    → t.current_timestamp < u64_max
    → t.current_timestamp < peek_next_timestamp t
unfolding peek_next_timestamp
peek_future_of t none e h i b = ground arith
peek_future_of t (some n) e h i b = ground arith

-- The time of the next block is later than the current time, unless the interval was set to zero
-- or the clock has reached the last u64.
pub peek_future :
    (t : TimeState)
    → IsValid t
    → t.interval ≢ some 0
    → t.current_timestamp < u64_max
    → t.current_timestamp < peek_next_timestamp t
peek_future t v i b = peek_future_of t t.next_timestamp refl v.next_is_future i b

-- With an interval of zero and no enforced timestamp the clock of a valid state stands still: the
-- next block has the time of the last one.
pub peek_stalls :
    (t : TimeState)
    → IsValid t
    → t.next_timestamp ≡ none
    → t.interval ≡ some 0
    → peek_next_timestamp t ≡ t.current_timestamp
unfolding peek_next_timestamp
peek_stalls t v e i = ground (arith, v.in_range)

-- `enforce_next_timestamp` takes exactly the timestamps after the current one: the next block has
-- that time; any other is refused with both times, and the clock is left as it was.
pub enforce_lem :
    (t : TimeState) (n : ℕ)
    → (t.current_timestamp < n
        → ((enforce_next_timestamp t n).1 ≡ ok)
          × (peek_next_timestamp (enforce_next_timestamp t n).0 ≡ n)
          × ((enforce_next_timestamp t n).0.current_timestamp ≡ t.current_timestamp))
      × (n ≤ t.current_timestamp
          → enforce_next_timestamp t n ≡ (t, timestamp_backwards n t.current_timestamp))
unfolding enforce_next_timestamp peek_next_timestamp
enforce_lem t n = (λ h. (ground arith, ground arith, ground arith), λ h. ground arith)

-- For a u64 timestamp and a u64 clock, `set_current_timestamp_unchecked` makes the timestamp the
-- current time, drops an enforced one, and returns exactly the signed difference: the saturating
-- subtraction on i128 never saturates.
pub set_current_lem :
    (t : TimeState) (n : ℕ)
    → n ≤ u64_max
    → t.current_timestamp ≤ u64_max
    → ((set_current_timestamp_unchecked t n).0.current_timestamp ≡ n)
      × ((set_current_timestamp_unchecked t n).0.next_timestamp ≡ none)
      × (pos_part (set_current_timestamp_unchecked t n).1 + t.current_timestamp
          ≡ neg_part (set_current_timestamp_unchecked t n).1 + n)
unfolding set_current_timestamp_unchecked
set_current_lem t n h b = (refl, refl, ground arith)
