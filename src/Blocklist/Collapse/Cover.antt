-- ===== src/Blocklist/Collapse/Cover.antt =====
-- Which addresses a network covers, by blocks and by intervals.
use native.Mathlib.Nat.{
  one-le-pow, pow-suc, div-div-eq-div-mul, mul-div_cancel, div-mul-le_self, le-div_iff_mul-le,
  div-lt_iff_lt-mul,
}
use mathlib.Core.Path.{subst}
use ichnos.Base.{
  ℕ, zero, suc, ◌+◌, ◌-◌, ◌*◌, ◌/◌, ◌^◌, ◌≤◌, ◌<◌, leb, nat_eq, Bool, false, ◌&&◌, ◌||◌, ◌≡◌, ◌≢◌,
  refl, sym, ap, ◌∙◌, arith, ◌↔◌,
}
use ichnos.Blocklist.Collapse.{Block, same_block, block_size, supernet, broadcast}

pub pow_pos : (h : ℕ) → 0 < 2 ^ h
pow_pos h = one-le-pow h 2 (omega arith)

halved : (a h : ℕ) → a / 2 ^ suc h ≡ a / 2 ^ h / 2
halved a h = ap (λ (t : ℕ). a / t) (pow-suc 2 h) ∙ sym (div-div-eq-div-mul a (2 ^ h) 2)

quotient_interval :
    (a n q s : ℕ) → 0 < s → q * s ≡ n → nat_eq (a / s) q ≡ (leb n a && leb a (n + s - 1))
quotient_interval a n q s h e =
    let low : (q ≤ a / s) ↔ (q * s ≤ a) = le-div_iff_mul-le h in
    let high : (a / s < suc q) ↔ (a < suc q * s) = div-lt_iff_lt-mul h in
    let next : suc q * s ≡ q * s + s = omega arith in ground (arith, low, high, next, e, h)

module _ (width : ℕ) where
  -- `address in network`, of one version.
  abbrev pub covers : ℕ → Block → Bool
  covers a b = nat_eq (a / block_size width b) (b.0 / block_size width b)

  -- The host bits are cleared, and the network lies in the address space.
  pub record IsBlock (b : Block) : Type 0 where
    pub prefix : b.1 ≤ width
    pub masked : b.0 / block_size width b * block_size width b ≡ b.0
    pub inside : b.0 < 2 ^ width

  -- The same as an interval.
  pub covers_interval :
      (a : ℕ) (b : Block) → IsBlock b → covers a b ≡ (leb b.0 a && leb a (broadcast width b))
  covers_interval a b v =
      quotient_interval a b.0 (b.0 / block_size width b) (block_size width b)
        (pow_pos (width - b.1)) v.masked

  pub supernet-IsBlock : (b : Block) → IsBlock b → IsBlock (supernet width b)
  unfolding supernet
  supernet-IsBlock (n, zero) v = v
  supernet-IsBlock (n, suc p) v = record {
    prefix = omega (arith, v.prefix);
    masked =
        ap (λ (t : ℕ). t * 2 ^ (width - p))
          (mul-div_cancel (n / 2 ^ (width - p)) (pow_pos (width - p)));
    inside = omega (arith, div-mul-le_self n (2 ^ (width - p)), v.inside);
  }

  one_bit : (p : ℕ) → suc p ≤ width → width - p ≡ suc (width - suc p)
  one_bit p h = omega (arith, h)

  covers-supernet :
      (a n p : ℕ)
      → suc p ≤ width
      → covers a (supernet width (n, suc p))
        ≡ nat_eq (a / block_size width (n, suc p) / 2) (n / block_size width (n, suc p) / 2)
  unfolding supernet
  covers-supernet a n p h =
      rw (mul-div_cancel (n / 2 ^ (width - p)) (pow_pos (width - p)))
        (rw (one_bit p h) (rw (halved a (width - suc p), halved n (width - suc p)) refl))

  -- Two numbers with the same half.
  halves : (x u v : ℕ) → u ≢ v → u / 2 ≡ v / 2 → nat_eq (x / 2) (u / 2) ≡ (nat_eq x u || nat_eq x v)
  halves x u v ne e = ground arith

  same_half :
      (n m p : ℕ)
      → suc p ≤ width
      → supernet width (m, suc p) ≡ supernet width (n, suc p)
      → n / block_size width (n, suc p) / 2 ≡ m / block_size width (m, suc p) / 2
  unfolding supernet
  same_half n m p h e =
      let S = 2 ^ (width - p) in
      let pos = pow_pos (width - p) in
      let up = λ (k : ℕ). ap (λ (t : ℕ). k / 2 ^ t) (one_bit p h) ∙ halved k (width - suc p) in
      sym (up n)
      ∙ sym (mul-div_cancel (n / S) pos)
      ∙ ap (λ (b : Block). b.0 / S) (sym e)
      ∙ mul-div_cancel (m / S) pos
      ∙ up m

  covers-supernet_pair :
      (a n m p : ℕ)
      → suc p ≤ width
      → IsBlock (n, suc p)
      → IsBlock (m, suc p)
      → n ≢ m
      → supernet width (m, suc p) ≡ supernet width (n, suc p)
      → covers a (supernet width (n, suc p)) ≡ (covers a (n, suc p) || covers a (m, suc p))
  covers-supernet_pair a n m p h v w ne e =
      let s = block_size width (n, suc p) in
      covers-supernet a n p h
      ∙ halves (a / s) (n / s) (m / s) (λ q. ne (sym v.masked ∙ ap (λ (t : ℕ). t * s) q ∙ w.masked))
          (same_half n m p h e)

  -- The whole address space is its own supernet, and covers each half.
  covers-whole :
      (a n m : ℕ)
      → 1 ≤ width
      → supernet width (m, 1) ≡ (n, 0)
      → covers a (n, 0) ≡ (covers a (n, 0) || covers a (m, 1))
  covers-whole a n m h e =
      ground (arith, ap (λ (b : Block). covers a b) (sym e) ∙ covers-supernet a m 0 h)

  differ : (n m p : ℕ) → same_block (m, suc p) (n, suc p) ≡ false → n ≢ m
  differ n m p d e = ground (arith, d, e)

  covers-level :
      (a n m p q : ℕ)
      → q ≡ p
      → IsBlock (n, suc p)
      → IsBlock (m, suc q)
      → same_block (m, suc q) (n, suc p) ≡ false
      → supernet width (m, suc q) ≡ supernet width (n, suc p)
      → covers a (supernet width (n, suc p)) ≡ (covers a (n, suc p) || covers a (m, suc q))
  covers-level a n m p q level v =
      subst
        (λ k.
          IsBlock (m, suc k)
          → same_block (m, suc k) (n, suc p) ≡ false
          → supernet width (m, suc k) ≡ supernet width (n, suc p)
          → covers a (supernet width (n, suc p)) ≡ (covers a (n, suc p) || covers a (m, suc k)))
        (sym level) (λ w d e. covers-supernet_pair a n m p v.prefix v w (differ n m p d) e)

  -- Two different networks with the same supernet: it covers what they cover.
  pub covers-merged :
      (a : ℕ) (b c : Block)
      → IsBlock b
      → IsBlock c
      → same_block c b ≡ false
      → supernet width c ≡ supernet width b
      → covers a (supernet width b) ≡ (covers a b || covers a c)
  unfolding supernet
  covers-merged a (n, zero) (m, zero) v w d e = ground (arith, d, ap (λ (b : Block). b.0) e)
  covers-merged a (n, zero) (m, suc zero) v w d e = covers-whole a n m w.prefix e
  covers-merged a (n, zero) (m, suc (suc q)) v w d e = ground (arith, ap (λ (b : Block). b.1) e)
  covers-merged a (n, suc zero) (m, zero) v w d e =
      ground (arith, covers-whole a m n v.prefix (sym e), ap (λ (b : Block). covers a b) e)
  covers-merged a (n, suc (suc p)) (m, zero) v w d e = ground (arith, ap (λ (b : Block). b.1) e)
  covers-merged a (n, suc p) (m, suc q) v w d e =
      covers-level a n m p q (ap (λ (b : Block). b.1) e) v w d e
