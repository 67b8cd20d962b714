-- ===== src/Blocklist/Collapse/Whole.antt =====
-- `collapse_addresses` keeps the addresses covered, and gives networks of the address space again.
use ichnos.Base.{
  ℕ, suc, ◌+◌, ◌-◌, ◌^◌, ◌≤◌, ◌<◌, leb, nat_eq, true, ◌||◌, not, ◌≡◌, refl, ap, ◌∙◌, arith,
  Bool-cases, inl, inr, List, [], ◌∷◌, ◌++◌, map, any, any-append, All, All-append, length, keep_if,
}
use ichnos.Base.Sort.{sorted, sorted-IsSorted, any-sorted, All-sorted}
use mathlib.Core.List.{reverse}
use native.Mathlib.Nat.{div-one}
use ichnos.Base.{All-reverse, any-reverse, length-reverse, All-keep_if}
use ichnos.Blocklist.Collapse.{
  Block, block_le, is_host, distinct, merge, summarize_sorted, collapse_internal,
  collapse_addresses,
}
use ichnos.Blocklist.Collapse.Cover.{covers, IsBlock}
use ichnos.Blocklist.Collapse.Ranges.{any-summarize_sorted, IsBlock-summarize_sorted}
use ichnos.Blocklist.Collapse.Merging.{any-merge, IsBlock-merge}
use ichnos.Blocklist.Collapse.Pruning.{any-prune, All-prune, block_le-total, block_le_trans}

any_same :
    (a n : ℕ) (ns : List ℕ)
    → nat_eq a n ≡ true
    → any (nat_eq n) ns ≡ true
    → any (nat_eq a) ns ≡ true
any_same a n [] e h = ground (arith, h)
any_same a n (m ∷ ns) e h = ground (arith, e, h, any_same a n ns e)

any-distinct : (a : ℕ) (ns : List ℕ) → any (nat_eq a) (distinct ns) ≡ any (nat_eq a) ns
unfolding distinct
any-distinct a [] = refl
any-distinct a (n ∷ ns) = elim (Bool-cases (nat_eq a n)) [
  | inl e ↦ ground (arith, any-distinct a ns, e, any_same a n ns)
  | inr e ↦ ground (arith, any-distinct a ns, e)
]

All-distinct {κ} : (P : ℕ → Type κ) (ns : List ℕ) → All P ns → All P (distinct ns)
unfolding distinct
All-distinct P [] h = tt
All-distinct P (n ∷ ns) h = elim (Bool-cases (any (nat_eq n) ns)) [
  | inl e ↦ rw e (All-distinct P ns h.1)
  | inr e ↦ rw e (h.0, All-distinct P ns h.1)
]

module _ (width : ℕ) where
  addresses : List Block → List ℕ
  addresses bs = map (λ (b : Block). b.0) (keep_if (is_host width) bs)

  All-addresses :
      (bs : List Block) → All (IsBlock width) bs → All (λ n. n < 2 ^ width) (addresses bs)
  unfolding addresses
  All-addresses [] v = tt
  All-addresses (b ∷ bs) v = elim (Bool-cases (is_host width b)) [
    | inl e ↦ rw e (v.0.inside, All-addresses bs v.1)
    | inr e ↦ rw e (All-addresses bs v.1)
  ]

  -- A network of one address covers that address.
  covers-host : (a : ℕ) (b : Block) → is_host width b ≡ true → covers width a b ≡ nat_eq a b.0
  covers-host a b e =
      let none_left : width - b.1 ≡ 0 = ground (arith, e) in
      rw (none_left, div-one a, div-one b.0) refl

  any-hosts_and_nets :
      (a : ℕ) (bs : List Block)
      → (any (nat_eq a) (addresses bs)
          || any (covers width a) (keep_if (λ b. not (is_host width b)) bs))
        ≡ any (covers width a) bs
  unfolding addresses
  any-hosts_and_nets a [] = refl
  any-hosts_and_nets a (b ∷ bs) = elim (Bool-cases (is_host width b)) [
    | inl e ↦ rw e (ground (arith, covers-host a b e, any-hosts_and_nets a bs))
    | inr e ↦ rw e (ground (arith, any-hosts_and_nets a bs))
  ]

  kept : List Block → List Block
  kept bs =
      map (λ (e : Block × Block). e.1) (merge width (suc (length bs + length bs)) (reverse bs) [])

  enough :
      (bs : List Block) → length (reverse bs) + length (reverse bs) ≤ suc (length bs + length bs)
  enough bs = omega (arith, length-reverse bs)

  any-collapse_internal :
      (a : ℕ) (bs : List Block)
      → All (IsBlock width) bs
      → any (covers width a) (collapse_internal width bs) ≡ any (covers width a) bs
  unfolding collapse_internal kept
  any-collapse_internal a bs v =
      let fuel = suc (length bs + length bs) in
      let blocks =
        IsBlock-merge width fuel (reverse bs) (enough bs) (All-reverse (IsBlock width) bs v) in
      any-prune width a (sorted block_le (kept bs))
        (All-sorted block_le (IsBlock width) (kept bs) blocks)
        (sorted-IsSorted block_le block_le-total block_le_trans (kept bs))
      ∙ any-sorted block_le (covers width a) (kept bs)
      ∙ any-merge width a fuel (reverse bs) (enough bs) (All-reverse (IsBlock width) bs v)
      ∙ any-reverse (covers width a) bs

  IsBlock-collapse_internal :
      (bs : List Block) → All (IsBlock width) bs → All (IsBlock width) (collapse_internal width bs)
  unfolding collapse_internal kept
  IsBlock-collapse_internal bs v = All-prune width (IsBlock width) (sorted block_le (kept bs)) (
      All-sorted block_le (IsBlock width) (kept bs) (
        IsBlock-merge width (suc (length bs + length bs)) (reverse bs) (enough bs)
          (All-reverse (IsBlock width) bs v)))

  hosts : List Block → List ℕ
  hosts bs = sorted leb (distinct (addresses bs))

  All-hosts : (bs : List Block) → All (IsBlock width) bs → All (λ n. n < 2 ^ width) (hosts bs)
  unfolding hosts
  All-hosts bs v =
      All-sorted leb (λ n. n < 2 ^ width) (distinct (addresses bs))
        (All-distinct (λ n. n < 2 ^ width) (addresses bs) (All-addresses bs v))

  parts-IsBlock :
      (bs : List Block)
      → All (IsBlock width) bs
      → All
          (IsBlock width)
          (summarize_sorted width (hosts bs) ++ keep_if (λ b. not (is_host width b)) bs)
  parts-IsBlock bs v =
      All-append (IsBlock width) (summarize_sorted width (hosts bs))
        (keep_if (λ b. not (is_host width b)) bs)
        (IsBlock-summarize_sorted width (hosts bs) (All-hosts bs v))
        (All-keep_if (IsBlock width) (λ b. not (is_host width b)) bs v)

  -- The networks returned cover exactly the addresses that the given ones cover.
  pub any-collapse_addresses :
      (a : ℕ) (bs : List Block)
      → All (IsBlock width) bs
      → any (covers width a) (collapse_addresses width bs) ≡ any (covers width a) bs
  unfolding collapse_addresses addresses hosts
  any-collapse_addresses a bs v =
      let nets = keep_if (λ b. not (is_host width b)) bs in
      any-collapse_internal a (summarize_sorted width (hosts bs) ++ nets) (parts-IsBlock bs v)
      ∙ any-append (covers width a) (summarize_sorted width (hosts bs)) nets
      ∙ ap (λ t. t || any (covers width a) nets)
          (any-summarize_sorted width a (hosts bs) (All-hosts bs v)
            ∙ any-sorted leb (nat_eq a) (distinct (addresses bs))
            ∙ any-distinct a (addresses bs))
      ∙ any-hosts_and_nets a bs

  pub IsBlock-collapse_addresses :
      (bs : List Block) → All (IsBlock width) bs → All (IsBlock width) (collapse_addresses width bs)
  unfolding collapse_addresses addresses hosts
  IsBlock-collapse_addresses bs v =
      IsBlock-collapse_internal
        (summarize_sorted width (hosts bs) ++ keep_if (λ b. not (is_host width b)) bs)
        (parts-IsBlock bs v)
