-- ===== src/Blocklist/Collapse.antt =====
-- What src/ichnos/blocklist.py and src/ichnos/jurisdiction.py use of the standard library's `ipaddress`
-- on lists of networks of one version: `collapse_addresses` and `summarize_address_range`. The width
-- of an address in bits is a parameter.
pub mod Cover
pub mod Ranges
pub mod Merging
pub mod Pruning
pub mod Whole
use ichnos.Base.{
  ℕ, zero, suc, ◌+◌, ◌-◌, ◌*◌, ◌/◌, ◌%◌, ◌^◌, ltb, leb, nat_eq, Bool, true, false, ◌&&◌, ◌||◌, not,
  List, [], ◌∷◌, ◌++◌, map, Option, none, some, length, keep_if, if◌then◌else◌, min, any, ◌≡◌, refl,
}
use mathlib.Core.List.{reverse}
use ichnos.Base.Sort.{sorted}

-- A network: its address with the host bits cleared, and its prefix length.
abbrev pub Block : Type 0
Block = ℕ × ℕ

abbrev pub same_block : Block → Block → Bool
same_block b c = nat_eq b.0 c.0 && nat_eq b.1 c.1

-- The order of networks: by address, then by netmask.
abbrev pub block_le : Block → Block → Bool
block_le b c = ltb b.0 c.0 || (nat_eq b.0 c.0 && leb b.1 c.1)

-- A number that is there already is not added again.
unfoldable pub distinct : List ℕ → List ℕ
distinct [] = []
distinct (a ∷ more) = let rest = distinct more in if any (nat_eq a) more then rest else a ∷ rest

-- `_find_address_range`, after its first address.
unfoldable pub runs : ℕ → ℕ → List ℕ → List (ℕ × ℕ)
runs first last [] = (first, last) ∷ []
runs first last (a ∷ more) =
    let longer = runs first a more in
    let fresh = runs a a more in if nat_eq a (last + 1) then longer else (first, last) ∷ fresh

-- `_count_righthand_zero_bits(number, bits)`
unfoldable pub right_zeros : ℕ → ℕ → ℕ
right_zeros zero n = 0
right_zeros (suc bits) n = if nat_eq (n % 2) 0 then suc (right_zeros bits (n / 2)) else 0

-- `n.bit_length()` of a number of at most `bits` bits.
unfoldable pub bit_length : ℕ → ℕ → ℕ
bit_length zero n = 0
bit_length (suc bits) n = if nat_eq n 0 then 0 else suc (bit_length bits (n / 2))

unfoldable pub put_back :
    Block × Block → Option (Block × List (Block × Block)) → Option (Block × List (Block × Block))
put_back e none = none
put_back e (some (c, m)) = some (c, e ∷ m)

-- `subnets.get(key)` with what `del subnets[key]` leaves.
unfoldable pub take_out : Block → List (Block × Block) → Option (Block × List (Block × Block))
unfolding put_back
take_out k [] = none
take_out k ((j, b) ∷ m) =
    let deeper = put_back (j, b) (take_out k m) in if same_block j k then some (b, m) else deeper

module _ (width : ℕ) where
  unfoldable pub host_bits : ℕ → ℕ → ℕ
  host_bits first last =
      min (right_zeros width first) (bit_length (suc width) (last - first + 1) - 1)

  -- The loop of `summarize_address_range`, on fuel.
  unfoldable pub summarize : ℕ → ℕ → ℕ → List Block
  summarize zero first last = []
  summarize (suc fuel) first last = elim (leb first last) [
    | true ↦
        (first, width - host_bits first last)
        ∷ summarize fuel (first + 2 ^ host_bits first last) last
    | false ↦ []
  ]

  -- `summarize_address_range`: each round goes on by one address at least.
  unfoldable pub summarize_address_range : ℕ × ℕ → List Block
  summarize_address_range (first, last) = summarize (suc last - first) first last

  unfoldable pub summarize_all : List (ℕ × ℕ) → List Block
  unfolding summarize_address_range
  summarize_all [] = []
  summarize_all (r ∷ rs) = summarize_address_range r ++ summarize_all rs

  unfoldable pub summarize_sorted : List ℕ → List Block
  unfolding summarize_all runs
  summarize_sorted [] = []
  summarize_sorted (a ∷ more) = summarize_all (runs a a more)

  abbrev pub block_size : Block → ℕ
  block_size b = 2 ^ (width - b.1)

  -- `net.supernet()`; that of a network of prefix length 0 is itself.
  unfoldable pub supernet : Block → Block
  supernet (n, zero) = (n, 0)
  supernet (n, suc p) = (n / 2 ^ (width - p) * 2 ^ (width - p), p)

  -- The loop of `_collapse_addresses_internal`, on fuel: the networks to merge, the next one first, and
  -- the dictionary `subnets`.
  unfoldable pub merge : ℕ → List Block → List (Block × Block) → List (Block × Block)
  unfolding supernet take_out
  merge zero stack subnets = subnets
  merge (suc fuel) [] subnets = subnets
  merge (suc fuel) (b ∷ stack) subnets = elim (take_out (supernet b) subnets) [
    | none ↦ merge fuel stack ((supernet b, b) ∷ subnets)
    | some (e, others) ↦
        let dropped = merge fuel stack subnets in
        let merged = merge fuel (supernet b ∷ stack) others in
        if same_block e b then dropped else merged
  ]

  abbrev pub broadcast : Block → ℕ
  broadcast b = b.0 + block_size b - 1

  -- The networks that end behind the last one kept.
  unfoldable pub uncovered : Block → List Block → List Block
  uncovered last [] = []
  uncovered last (b ∷ bs) =
      let skip = uncovered last bs in
      let rest = uncovered b bs in if leb (broadcast b) (broadcast last) then skip else b ∷ rest

  unfoldable pub prune : List Block → List Block
  unfolding uncovered
  prune [] = []
  prune (b ∷ bs) = b ∷ uncovered b bs

  abbrev pub is_host : Block → Bool
  is_host b = nat_eq b.1 width

  -- `_collapse_addresses_internal(addresses)`: each round of the loop shortens the stack or the dictionary.
  unfoldable pub collapse_internal : List Block → List Block
  unfolding merge prune
  collapse_internal blocks = prune (
      sorted block_le (
        map (λ (e : Block × Block). e.1)
          (merge (suc (length blocks + length blocks)) (reverse blocks) [])))

  -- `collapse_addresses(networks)`
  unfoldable pub collapse_addresses : List Block → List Block
  unfolding summarize_sorted collapse_internal distinct
  collapse_addresses blocks =
      let hosts = sorted leb (distinct (map (λ (b : Block). b.0) (keep_if is_host blocks))) in
      collapse_internal (summarize_sorted hosts ++ keep_if (λ b. not (is_host b)) blocks)

collapse_example :
    collapse_addresses 32 ((12, 32) ∷ (8, 30) ∷ (13, 32) ∷ (0, 29) ∷ (14, 31) ∷ (9, 32) ∷ [])
    ≡ (0, 28) ∷ []
unfolding collapse_addresses sorted summarize host_bits right_zeros bit_length
collapse_example = refl
