-- ===== src/Blocklist/Collapse/Pruning.antt =====
-- Dropping the networks that lie in one before them: the addresses covered stay.
use ichnos.Base.{
  ℕ, leb, Bool, true, false, ◌||◌, ◌≡◌, refl, ap, arith, Bool-cases, inl, inr, List, [], ◌∷◌, any,
  All,
}
use ichnos.Base.Sort.{IsSorted}
use ichnos.Blocklist.Collapse.{Block, block_le, broadcast, uncovered, prune}
use ichnos.Blocklist.Collapse.Cover.{covers, IsBlock, covers_interval}

pub block_le-total : (b c : Block) → block_le b c ≡ false → block_le c b ≡ true
block_le-total b c e = ground (arith, e)

pub block_le_trans :
    (b c d : Block) → block_le b c ≡ true → block_le c d ≡ true → block_le b d ≡ true
block_le_trans b c d e f = ground (arith, e, f)

absorbed :
    (p q x y : Bool) → (q ≡ true → p ≡ true) → (p || x) ≡ (p || y) → (p || x) ≡ (p || (q || y))
absorbed true q x y h e = refl
absorbed false true x y h e = ground (arith, h)
absorbed false false x y h e = e

module _ (width : ℕ) where
  covers-inner :
      (a : ℕ) (b c : Block)
      → IsBlock width b
      → IsBlock width c
      → block_le b c ≡ true
      → leb (broadcast width c) (broadcast width b) ≡ true
      → covers width a c ≡ true
      → covers width a b ≡ true
  covers-inner a b c v w e f h =
      ground (arith, covers_interval width a b v, covers_interval width a c w, e, f, h)

  any-uncovered :
      (a : ℕ) (last : Block) (bs : List Block)
      → IsBlock width last
      → All (IsBlock width) bs
      → IsSorted block_le (last ∷ bs)
      → (covers width a last || any (covers width a) (uncovered width last bs))
        ≡ (covers width a last || any (covers width a) bs)
  unfolding uncovered
  any-uncovered a last [] v vs s = refl
  any-uncovered a last (b ∷ bs) v vs s =
      elim (Bool-cases (leb (broadcast width b) (broadcast width last))) [
        | inl e ↦
            let inner = covers-inner a last b v vs.0 s.0.0 e in
            let more = any-uncovered a last bs v vs.1 (s.0.1, s.1.1) in
            rw e (absorbed (covers width a last) (covers width a b) _ _ inner more)
        | inr e ↦ rw e (ap (λ t. covers width a last || t) (any-uncovered a b bs vs.0 vs.1 s.1))
      ]

  -- `covers` of a sorted list survives `prune`.
  pub any-prune :
      (a : ℕ) (bs : List Block)
      → All (IsBlock width) bs
      → IsSorted block_le bs
      → any (covers width a) (prune width bs) ≡ any (covers width a) bs
  unfolding prune
  any-prune a [] v s = refl
  any-prune a (b ∷ bs) v s = any-uncovered a b bs v.0 v.1 s

  pub All-uncovered {κ} :
      (P : Block → Type κ) (last : Block) (bs : List Block)
      → All P bs
      → All P (uncovered width last bs)
  unfolding uncovered
  All-uncovered P last [] v = tt
  All-uncovered P last (b ∷ bs) v =
      elim (Bool-cases (leb (broadcast width b) (broadcast width last))) [
        | inl e ↦ rw e (All-uncovered P last bs v.1)
        | inr e ↦ rw e (v.0, All-uncovered P b bs v.1)
      ]

  pub All-prune {κ} : (P : Block → Type κ) (bs : List Block) → All P bs → All P (prune width bs)
  unfolding prune
  All-prune P [] v = tt
  All-prune P (b ∷ bs) v = (v.0, All-uncovered P b bs v.1)
