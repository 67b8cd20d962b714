-- ===== src/Blocklist/Collapse/Ranges.antt =====
-- The networks that stand for a range of addresses, and for a list of addresses.
use native.Mathlib.Nat.{div-div-eq-div-mul, mul_left_comm, pow-le-pow_right}
use native.Mathlib.Omega.{pow_step}
use ichnos.Base.{
  ℕ, zero, suc, ◌+◌, ◌-◌, ◌*◌, ◌/◌, ◌%◌, ◌^◌, ◌≤◌, ◌<◌, leb, nat_eq, ◌&&◌, ◌||◌, ◌≡◌, refl, sym, ap,
  ◌∙◌, arith, Bool-cases, inl, inr, List, [], ◌∷◌, any, any-append, All, All-append,
}
use ichnos.Blocklist.Collapse.{
  block_size, right_zeros, bit_length, host_bits, summarize, summarize_address_range, summarize_all,
  summarize_sorted, runs,
}
use ichnos.Blocklist.Collapse.Cover.{covers, IsBlock, covers_interval, pow_pos}

div-pow_suc : (n k : ℕ) → n / 2 ^ suc k ≡ n / 2 / 2 ^ k
div-pow_suc n k = ap (λ (t : ℕ). n / t) (pow_step 2 k) ∙ sym (div-div-eq-div-mul n 2 (2 ^ k))

right_zeros-le : (bits n : ℕ) → right_zeros bits n ≤ bits
unfolding right_zeros
right_zeros-le zero n = omega arith
right_zeros-le (suc bits) n = ground (arith, right_zeros-le bits (n / 2))

double : (n m q x : ℕ) → n % 2 ≡ 0 → q ≡ 2 * m → x * m ≡ n / 2 → x * q ≡ n
double n m q x even e h =
    let twice : x * (2 * m) ≡ 2 * (x * m) = mul_left_comm x 2 m in
    ap (λ (t : ℕ). x * t) e ∙ twice ∙ omega (arith, even, h)

-- Low bits that are 0 may be cleared.
cleared-right_zeros : (bits n k : ℕ) → k ≤ right_zeros bits n → n / 2 ^ k * 2 ^ k ≡ n
unfolding right_zeros
cleared-right_zeros bits n zero h = omega arith
cleared-right_zeros zero n (suc k) h = ground (arith, h)
cleared-right_zeros (suc bits) n (suc k) h = elim (Bool-cases (nat_eq (n % 2) 0)) [
  | inl e ↦ rw (div-pow_suc n k) (
      double n (2 ^ k) (2 ^ suc k) (n / 2 / 2 ^ k) (ground (arith, e)) (pow_step 2 k)
        (cleared-right_zeros bits (n / 2) k (ground (arith, h, e))))
  | inr e ↦ ground (arith, h, e)
]

pow-bit_length : (bits n : ℕ) → 0 < n → 2 ^ bit_length bits (n / 2) ≤ n
unfolding bit_length
pow-bit_length zero n h = omega (arith, h)
pow-bit_length (suc bits) n h = elim (Bool-cases (nat_eq (n / 2) 0)) [
  | inl e ↦ rw e (omega (arith, h))
  | inr e ↦ rw e (
      omega (
        arith,
        pow_step 2 (bit_length bits (n / 2 / 2)),
        pow-bit_length bits (n / 2) (ground (arith, e)),
      ))
]

one_less : (k : ℕ) → suc k - 1 ≡ k
one_less k = omega arith

pow-host : (bits n : ℕ) → 0 < n → 2 ^ (bit_length (suc bits) n - 1) ≤ n
unfolding bit_length
pow-host bits n h = elim (Bool-cases (nat_eq n 0)) [
  | inl e ↦ ground (arith, e, h)
  | inr e ↦ rw (e, one_less (bit_length bits (n / 2))) (pow-bit_length bits n h)
]

two_pow_mono : (i j : ℕ) → i ≤ j → 2 ^ i ≤ 2 ^ j
two_pow_mono i j h = pow-le-pow_right (omega arith) h

module _ (width : ℕ) where
  IsBlock-first : (f l : ℕ) → f ≤ l → l < 2 ^ width → IsBlock width (f, width - host_bits width f l)
  unfolding host_bits
  IsBlock-first f l h b =
      let k = host_bits width f l in
      let z : k ≤ right_zeros width f = omega arith in
      let w : k ≤ width = omega (arith, right_zeros-le width f, z) in
      let back : width - (width - k) ≡ k = omega (arith, w) in
      record {
        prefix = omega arith;
        masked = ap (λ (t : ℕ). f / 2 ^ t * 2 ^ t) back ∙ cleared-right_zeros width f k z;
        inside = omega (arith, h, b);
      }

  size-first : (f l : ℕ) → f ≤ l → f + block_size width (f, width - host_bits width f l) ≤ l + 1
  unfolding host_bits
  size-first f l h =
      let k = host_bits width f l in
      let top = bit_length (suc width) (l - f + 1) - 1 in
      let w : k ≤ width = omega (arith, right_zeros-le width f) in
      let back : width - (width - k) ≡ k = omega (arith, w) in
      let high : k ≤ top = omega arith in
      rw back (omega (arith, two_pow_mono k top high, pow-host width (l - f + 1) (omega arith), h))

  first_back : (f l : ℕ) → width - (width - host_bits width f l) ≡ host_bits width f l
  unfolding host_bits
  first_back f l = omega (arith, right_zeros-le width f)

  -- The networks of a range cover the range.
  pub any-summarize :
      (fuel f l a : ℕ)
      → suc l ≤ f + fuel
      → l < 2 ^ width
      → any (covers width a) (summarize width fuel f l) ≡ (leb f a && leb a l)
  unfolding summarize
  any-summarize zero f l a h b = ground (arith, h)
  any-summarize (suc fuel) f l a h b = elim (Bool-cases (leb f l)) [
    | inl e ↦
        let s = 2 ^ host_bits width f l in
        let one =
          covers_interval width a (f, width - host_bits width f l)
            (IsBlock-first f l (ground (arith, e)) b) in
        let size = size-first f l (ground (arith, e)) in
        let more =
          any-summarize fuel (f + s) l a (omega (arith, h, pow_pos (host_bits width f l))) b in
        rw (summarize, e, one, more, first_back f l) (ground (arith, size, first_back f l))
    | inr e ↦ rw (summarize, e) (ground (arith, e))
  ]

  pub IsBlock-summarize :
      (fuel f l : ℕ) → l < 2 ^ width → All (IsBlock width) (summarize width fuel f l)
  unfolding summarize
  IsBlock-summarize zero f l b = tt
  IsBlock-summarize (suc fuel) f l b = elim (Bool-cases (leb f l)) [
    | inl e ↦
        rw (All, summarize, e)
          (
            IsBlock-first f l (ground (arith, e)) b,
            IsBlock-summarize fuel (f + 2 ^ host_bits width f l) l b,
          )
    | inr e ↦ rw (All, summarize, e) tt
  ]

  pub any-summarize_range :
      (f l a : ℕ)
      → l < 2 ^ width
      → any (covers width a) (summarize_address_range width (f, l)) ≡ (leb f a && leb a l)
  unfolding summarize_address_range
  any-summarize_range f l a b = any-summarize (suc l - f) f l a (omega arith) b

  any-runs :
      (f l a : ℕ) (more : List ℕ)
      → f ≤ l
      → l < 2 ^ width
      → All (λ n. n < 2 ^ width) more
      → any (covers width a) (summarize_all width (runs f l more))
        ≡ ((leb f a && leb a l) || any (nat_eq a) more)
  unfolding runs summarize_all
  any-runs f l a [] h b inside =
      any-append (covers width a) (summarize_address_range width (f, l)) []
      ∙ rw (any-summarize_range f l a b) refl
  any-runs f l a (x ∷ more) h b inside = elim (Bool-cases (nat_eq x (l + 1))) [
    | inl e ↦
        rw (e, any-runs f x a more (ground (arith, e, h)) inside.0 inside.1) (ground (arith, e, h))
    | inr e ↦
        rw
          (
            e,
            any-append (covers width a) (summarize_address_range width (f, l))
                (summarize_all width (runs x x more)),
            any-summarize_range f l a b,
            any-runs x x a more (omega arith) inside.0 inside.1,
          )
          (ground (arith, e, h))
  ]

  -- The networks of a list of addresses cover those addresses.
  pub any-summarize_sorted :
      (a : ℕ) (hosts : List ℕ)
      → All (λ n. n < 2 ^ width) hosts
      → any (covers width a) (summarize_sorted width hosts) ≡ any (nat_eq a) hosts
  unfolding summarize_sorted
  any-summarize_sorted a [] inside = refl
  any-summarize_sorted a (x ∷ more) inside =
      rw (any-runs x x a more (omega arith) inside.0 inside.1) (ground arith)

  IsBlock-runs :
      (f l : ℕ) (more : List ℕ)
      → l < 2 ^ width
      → All (λ n. n < 2 ^ width) more
      → All (IsBlock width) (summarize_all width (runs f l more))
  unfolding runs summarize_all summarize_address_range
  IsBlock-runs f l [] b inside =
      All-append (IsBlock width) (summarize width (suc l - f) f l) []
        (IsBlock-summarize (suc l - f) f l b) tt
  IsBlock-runs f l (x ∷ more) b inside = elim (Bool-cases (nat_eq x (l + 1))) [
    | inl e ↦ rw e (IsBlock-runs f x more inside.0 inside.1)
    | inr e ↦ rw e (
        All-append (IsBlock width) (summarize width (suc l - f) f l)
          (summarize_all width (runs x x more)) (IsBlock-summarize (suc l - f) f l b)
          (IsBlock-runs x x more inside.0 inside.1))
  ]

  pub IsBlock-summarize_sorted :
      (hosts : List ℕ)
      → All (λ n. n < 2 ^ width) hosts
      → All (IsBlock width) (summarize_sorted width hosts)
  unfolding summarize_sorted
  IsBlock-summarize_sorted [] inside = tt
  IsBlock-summarize_sorted (x ∷ more) inside = IsBlock-runs x x more inside.0 inside.1

  pub IsBlock-summarize_range :
      (f l : ℕ) → l < 2 ^ width → All (IsBlock width) (summarize_address_range width (f, l))
  unfolding summarize_address_range
  IsBlock-summarize_range f l b = IsBlock-summarize (suc l - f) f l b
