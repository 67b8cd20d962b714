-- ===== src/RateLimit.antt =====
-- src/ichnos/ratelimit.py: the token bucket.
-- The source holds its tokens in a float; here a bucket holds `tokens * interval`, a whole number of clock
-- ticks, so the arithmetic is exact: one token is `interval` ticks. Rounding of floats is not modelled, nor are
-- `wait` and the sleep that it asks for, which depend on it.
-- Times are readings of the clock in ticks; the lock makes each method one step.
pub mod Bounds
mod Tests
use ichnos.Base.{
  ℕ, zero, suc, ◌+◌, ◌-◌, ◌*◌, ◌≤◌, min, leb, ltb, nat_eq, Bool, true, false, List, [], ◌∷◌, Option,
  none, some, if◌then◌else◌, Raises, ok, raised, value_error,
}

pub record TokenBucket : Type 0 where
  pub interval : ℕ
  pub capacity : ℕ
  -- `_tokens`, in ticks
  pub credit : ℕ
  pub last_refill : ℕ

-- `TokenBucket(interval_seconds, burst=burst)`, made at the time `now`.
unfoldable pub token_bucket : ℕ → ℕ → ℕ → Raises TokenBucket
token_bucket interval burst now =
    if nat_eq interval 0
    then raised value_error
    else if ltb burst 1
    then raised value_error
    else ok (record {
      interval = interval;
      capacity = burst;
      credit = burst * interval;
      last_refill = now;
    })

-- `_refill`: a clock that has not advanced changes nothing.
unfoldable pub refill : ℕ → TokenBucket → TokenBucket
refill now b = if leb now b.last_refill then b else record b {
  credit = min (b.capacity * b.interval) (b.credit + (now - b.last_refill));
  last_refill = now;
}

-- `if self._tokens >= 1: self._tokens -= 1`
take_token : TokenBucket → Bool × TokenBucket
take_token b =
    if leb b.interval b.credit
    then (true, record b { credit = b.credit - b.interval })
    else (false, b)

unfoldable pub try_acquire : ℕ → TokenBucket → Bool × TokenBucket
unfolding refill take_token
try_acquire now b = take_token (refill now b)

-- Attempts at the given times, in order: how many took a token, and the bucket.
unfoldable pub attempts : List ℕ → TokenBucket → ℕ × TokenBucket
attempts [] b = (0, b)
attempts (now ∷ times) b =
    let tried = try_acquire now b in
    let rest = attempts times tried.1 in ((if tried.0 then rest.0 + 1 else rest.0), rest.1)
