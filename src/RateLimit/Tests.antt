-- ===== src/RateLimit/Tests.antt =====
-- A concrete bucket: 5 ticks a token, one token at most.
use ichnos.Base.{ℕ, ◌+◌, ◌*◌, ◌≤◌, true, List, [], ◌∷◌, ok, ◌≡◌, refl, arith}
use ichnos.RateLimit.{TokenBucket, token_bucket, try_acquire, attempts}
use ichnos.RateLimit.Bounds.{IsValid, attempts_bounded, spacing}

abbrev full : TokenBucket
full = record { interval = 5; capacity = 1; credit = 5; last_refill = 100 }

full-IsValid : IsValid full
full-IsValid = record {
  interval_positive = omega arith;
  burst_positive = omega arith;
  within = omega arith;
}

abbrev times : List ℕ
times = 205 ∷ 205 ∷ 208 ∷ 211 ∷ []

full_made : token_bucket 5 1 100 ≡ ok full
unfolding token_bucket
full_made = refl

-- Idle until 205 after one attempt: the burst of 1 and one token for the 6 ticks after that.
attempts_bounded_example : (attempts times (attempts (100 ∷ []) full).1).0 * 5 + 205 ≤ 1 * 5 + 211
attempts_bounded_example =
    attempts_bounded 5 1 100 full (100 ∷ []) times 205 211 full_made (omega arith) (omega arith)
      (omega arith) (omega arith)

first_taken : (try_acquire 100 full).0 ≡ true
unfolding try_acquire
first_taken = refl

second_taken : (try_acquire 106 (try_acquire 100 full).1).0 ≡ true
unfolding try_acquire
second_taken = refl

spacing_example : 100 + 5 ≤ 106
spacing_example = spacing 100 106 full full-IsValid refl (omega arith) first_taken second_taken
