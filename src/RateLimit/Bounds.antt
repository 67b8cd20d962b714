-- ===== src/RateLimit/Bounds.antt =====
-- The tokens that a bucket gives against the time that passes (src/ichnos/ratelimit.py).
use ichnos.Base.{
  ℕ, ◌+◌, ◌*◌, ◌≤◌, ◌<◌, Bool, true, false, List, [], ◌∷◌, if◌then◌else◌, ok, ◌≡◌, ◌∙◌, arith, All,
  All-map,
}
use ichnos.RateLimit.{TokenBucket, token_bucket, try_acquire, attempts}

pub record IsValid (b : TokenBucket) : Type 0 where
  pub interval_positive : 0 < b.interval
  pub burst_positive : 1 ≤ b.capacity
  pub within : b.credit ≤ b.capacity * b.interval

-- A bucket that the constructor accepts is valid; it refuses an interval or a burst of 0.
token_bucket-IsValid :
    (interval burst now : ℕ) (b : TokenBucket) → token_bucket interval burst now ≡ ok b → IsValid b
unfolding token_bucket
token_bucket-IsValid interval burst now b h = ground arith

-- One attempt neither loses the bucket's settings nor creates credit: what it spends and keeps is at most
-- what was there and the time that passed.
pub record Paid (b : TokenBucket) (n : ℕ) (b' : TokenBucket) : Type 0 where
  pub interval : b'.interval ≡ b.interval
  pub capacity : b'.capacity ≡ b.capacity
  pub later : b.last_refill ≤ b'.last_refill
  pub balance : n * b.interval + b'.credit + b.last_refill ≤ b.credit + b'.last_refill

abbrev cost : Bool → ℕ
cost true = 1
cost false = 0

try_acquire-Paid :
    (now : ℕ) (b : TokenBucket) → Paid b (cost (try_acquire now b).0) (try_acquire now b).1
unfolding try_acquire
try_acquire-Paid now b = ground arith

pub try_acquire-IsValid : (now : ℕ) (b : TokenBucket) → IsValid b → IsValid (try_acquire now b).1
unfolding try_acquire
try_acquire-IsValid now b v = ground arith

last_refill-try_acquire :
    (now limit : ℕ) (b : TokenBucket)
    → now ≤ limit
    → b.last_refill ≤ limit
    → (try_acquire now b).1.last_refill ≤ limit
unfolding try_acquire
last_refill-try_acquire now limit b h k = ground arith

Paid-trans : (n m : ℕ) (a b c : TokenBucket) → Paid a n b → Paid b m c → Paid a (n + m) c
Paid-trans n m a b c p q = record {
  interval = q.interval ∙ p.interval;
  capacity = q.capacity ∙ p.capacity;
  later = omega (arith, p.later, q.later);
  balance = omega (arith, p.balance, (rw p.interval at q.balance));
}

count_cost : (taken : Bool) (n : ℕ) → (if taken then n + 1 else n) ≡ cost taken + n
count_cost true n = omega arith
count_cost false n = omega arith

-- Whatever the order of the times, a token more costs an interval more.
attempts-Paid :
    (times : List ℕ) (b : TokenBucket) → Paid b (attempts times b).0 (attempts times b).1
unfolding attempts
attempts-Paid [] b = omega arith
attempts-Paid (now ∷ times) b =
    let b' = (try_acquire now b).1 in
    rw (count_cost (try_acquire now b).0 (attempts times b').0)
      (Paid-trans _ _ b b' _ (try_acquire-Paid now b) (attempts-Paid times b'))

last_refill-attempts :
    (times : List ℕ) (limit : ℕ) (b : TokenBucket)
    → All (λ t. t ≤ limit) times
    → b.last_refill ≤ limit
    → (attempts times b).1.last_refill ≤ limit
unfolding attempts
last_refill-attempts [] limit b h k = k
last_refill-attempts (now ∷ times) limit b h k =
    last_refill-attempts times limit (try_acquire now b).1 h.1
      (last_refill-try_acquire now limit b h.0 k)

attempts-IsValid : (times : List ℕ) (b : TokenBucket) → IsValid b → IsValid (attempts times b).1
unfolding attempts
attempts-IsValid [] b v = v
attempts-IsValid (now ∷ times) b v =
    attempts-IsValid times (try_acquire now b).1 (try_acquire-IsValid now b v)

-- However long a valid bucket has been left alone, an attempt finds no more than a burst in it.
try_acquire_capped :
    (since now : ℕ) (b : TokenBucket)
    → IsValid b
    → b.last_refill ≤ since
    → since ≤ now
    → (cost (try_acquire now b).0 * b.interval + (try_acquire now b).1.credit
        ≤ b.capacity * b.interval)
      × (since ≤ (try_acquire now b).1.last_refill)
unfolding try_acquire
try_acquire_capped since now b v h k = ground arith

-- The attempts of a window of time, on a valid bucket that was last refilled before the window.
window_bounded :
    (times : List ℕ) (since limit : ℕ) (b : TokenBucket)
    → IsValid b
    → b.last_refill ≤ since
    → since ≤ limit
    → All (λ t. (since ≤ t) × (t ≤ limit)) times
    → (attempts times b).0 * b.interval + since ≤ b.capacity * b.interval + limit
unfolding attempts
window_bounded [] since limit b v h k w = omega (arith, k)
window_bounded (now ∷ times) since limit b v h k w =
    let b' = (try_acquire now b).1 in
    let paid = try_acquire-Paid now b in
    let rest = attempts-Paid times b' in
    rw (count_cost (try_acquire now b).0 (attempts times b').0) (
      omega (
        arith,
        try_acquire_capped since now b v h w.0.0,
        (rw paid.interval at rest.balance),
        last_refill-attempts times limit b'
            (All-map _ _ times (λ t (p : (since ≤ t) × (t ≤ limit)). p.1) w.1)
            (last_refill-try_acquire now limit b w.0.1 (omega (arith, h, k))),
      ))

created :
    (interval burst now : ℕ) (b : TokenBucket)
    → token_bucket interval burst now ≡ ok b
    → (b.interval ≡ interval) × (b.capacity ≡ burst) × (b.last_refill ≡ now)
unfolding token_bucket
created interval burst now b h = ground arith

-- A bucket that the constructor made, after any attempts in any order at readings up to `since`: of the
-- attempts at any readings from `since` to `limit`, at most `burst + (limit - since) / interval` take a
-- token, however long the bucket had been idle.
pub attempts_bounded :
    (interval burst start : ℕ) (b : TokenBucket) (earlier times : List ℕ) (since limit : ℕ)
    → token_bucket interval burst start ≡ ok b
    → start ≤ since
    → since ≤ limit
    → All (λ t. t ≤ since) earlier
    → All (λ t. (since ≤ t) × (t ≤ limit)) times
    → (attempts times (attempts earlier b).1).0 * interval + since ≤ burst * interval + limit
attempts_bounded interval burst start b earlier times since limit made h k before within =
    let made_with = created interval burst start b made in
    let paid = attempts-Paid earlier b in
    let b' = (attempts earlier b).1 in
    let bounded =
      window_bounded times since limit b'
        (attempts-IsValid earlier b (token_bucket-IsValid interval burst start b made))
        (last_refill-attempts earlier since b before (omega (arith, made_with.2, h))) k within in
    rw (paid.interval ∙ made_with.0, paid.capacity ∙ made_with.1) at bounded

-- With a burst of 1, two attempts in a row that each take a token are at least an interval apart.
pub spacing :
    (now next : ℕ) (b : TokenBucket)
    → IsValid b
    → b.capacity ≡ 1
    → b.last_refill ≤ now
    → (try_acquire now b).0 ≡ true
    → (try_acquire next (try_acquire now b).1).0 ≡ true
    → now + b.interval ≤ next
unfolding try_acquire
spacing now next b v one h p q = ground arith
