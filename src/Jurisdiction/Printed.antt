-- ===== src/Jurisdiction/Printed.antt =====
-- Lists of printed IPv4 networks, by the addresses that they cover.
use ichnos.Base.{
  ℕ, ◌+◌, ◌-◌, ◌^◌, ◌<◌, Str, leb, ltb, nat_eq, Bool, false, ◌&&◌, ◌||◌, ◌≡◌, refl, sym, ap, ◌∙◌,
  arith, Bool-cases, Option-cases, inl, inr, List, [], ◌∷◌, ◌++◌, map, map-append, any, any-append,
  All, All-append, Option, none, some, ok, ◌>>=◌,
}
use ichnos.Blocklist.{v4, Network, net4, within, any_within, parse_v4}
use ichnos.Blocklist.Collapse.{Block, summarize_address_range}
use ichnos.Blocklist.Collapse.Cover.{covers, IsBlock}
use ichnos.Blocklist.Collapse.Ranges.{any-summarize_range, IsBlock-summarize_range}
use ichnos.Blocklist.Layers.{address_text, network_text}
use ichnos.Blocklist.Layers.Printed.{ip_network-network_text}
use ichnos.Blocklist.Layers.Parsed.{IsNetwork, parse_v4-inside}
use ichnos.Blocklist.Layers.Listed.{is_v6, collapsed-any_within}
use ichnos.Jurisdiction.{
  Count, plus, minus, last_address, cidrs_between, cidrs_from, range_to_cidrs,
}
use ichnos.Jurisdiction.Refresh.{Outside, parse_all, collapse}

-- The texts are those of networks, which cover the addresses that the test accepts.
pub record IsPrinted (cidrs : List Str) (test : ℕ → Bool) : Type 0 where
  pub blocks : List Block
  pub printed : cidrs ≡ map (network_text address_text) blocks
  pub inside : All (IsBlock 32) blocks
  pub cover : (a : ℕ) → any (covers 32 a) blocks ≡ test a

pub nothing-IsPrinted : IsPrinted [] (λ a. false)
nothing-IsPrinted = record { blocks = []; printed = refl; inside = tt; cover = λ a. refl }

pub append-IsPrinted :
    (xs ys : List Str) (f g : ℕ → Bool)
    → IsPrinted xs f
    → IsPrinted ys g
    → IsPrinted (xs ++ ys) (λ a. f a || g a)
append-IsPrinted xs ys f g p q = record {
  blocks = p.blocks ++ q.blocks;
  printed =
      rw (p.printed, q.printed) (sym (map-append (network_text address_text) p.blocks q.blocks));
  inside = All-append (IsBlock 32) p.blocks q.blocks p.inside q.inside;
  cover = λ a. any-append (covers 32 a) p.blocks q.blocks ∙ rw (p.cover a, q.cover a) refl;
}

pub same-IsPrinted :
    (xs : List Str) (f g : ℕ → Bool) → ((a : ℕ) → f a ≡ g a) → IsPrinted xs f → IsPrinted xs g
same-IsPrinted xs f g e p = record {
  blocks = p.blocks;
  printed = p.printed;
  inside = p.inside;
  cover = λ a. p.cover a ∙ e a;
}

-- The addresses of a range that stays within the address space.
abbrev pub in_range : ℕ → Count → ℕ → Bool
in_range first (plus n) a = leb first a && ltb a (first + n) && leb (first + n) (2 ^ 32)
in_range first (minus n) a = false

abbrev pub texts_of : Option (List Str) → List Str
texts_of none = []
texts_of (some cidrs) = cidrs

abbrev pub in_range_from : Option ℕ → Count → ℕ → Bool
in_range_from none count a = false
in_range_from (some first) count a = in_range first count a

cidrs_between-IsPrinted :
    (first last : ℕ)
    → last < 2 ^ 32
    → IsPrinted (texts_of (cidrs_between first last)) (λ a. leb first a && leb a last)
unfolding cidrs_between
cidrs_between-IsPrinted first last h = elim (Bool-cases (ltb last first)) [
  | inl e ↦
      rw (cidrs_between, e)
        (same-IsPrinted [] (λ a. false) (λ a. leb first a && leb a last) (λ a. ground (arith, e))
          nothing-IsPrinted)
  | inr e ↦
      rw (cidrs_between, e)
        (record {
          blocks = summarize_address_range 32 (first, last);
          printed = refl;
          inside = IsBlock-summarize_range 32 first last h;
          cover = λ a. any-summarize_range 32 first last a h;
        })
]

cidrs_from-IsPrinted :
    (first : ℕ) (count : Count)
    → first < 2 ^ 32
    → IsPrinted (texts_of (cidrs_from first count)) (in_range first count)
unfolding cidrs_from last_address
cidrs_from-IsPrinted first (plus n) h = elim (Bool-cases (nat_eq (first + n) 0)) [
  | inl e ↦
      rw (cidrs_from, last_address, e)
        (same-IsPrinted [] (λ a. false) (in_range first (plus n)) (λ a. ground (arith, e))
          nothing-IsPrinted)
  | inr e ↦ elim (Bool-cases (ltb (first + n - 1) (2 ^ 32))) [
    | inl f ↦
        rw (cidrs_from, last_address, e, f)
          (same-IsPrinted (texts_of (cidrs_between first (first + n - 1)))
            (λ a. leb first a && leb a (first + n - 1)) (in_range first (plus n))
            (λ a. ground (arith, e, f))
            (cidrs_between-IsPrinted first (first + n - 1) (ground (arith, f))))
    | inr f ↦
        rw (cidrs_from, last_address, e, f)
          (same-IsPrinted [] (λ a. false) (in_range first (plus n)) (λ a. ground (arith, e, f))
            nothing-IsPrinted)
  ]
]
cidrs_from-IsPrinted first (minus n) h = elim (Bool-cases (ltb n first)) [
  | inl e ↦
      rw (cidrs_from, last_address, e)
        (same-IsPrinted (texts_of (cidrs_between first (first - n - 1)))
          (λ a. leb first a && leb a (first - n - 1)) (λ a. false) (λ a. ground (arith, e))
          (cidrs_between-IsPrinted first (first - n - 1) (omega (arith, h))))
  | inr e ↦ rw (cidrs_from, last_address, e) nothing-IsPrinted
]

pub range_to_cidrs-IsPrinted :
    (start : Str) (count : Count)
    → IsPrinted (texts_of (range_to_cidrs start count)) (in_range_from (parse_v4 start) count)
unfolding range_to_cidrs
range_to_cidrs-IsPrinted start count = elim (Option-cases (parse_v4 start)) [
  | inl e ↦ rw (range_to_cidrs, e) nothing-IsPrinted
  | inr (first, e) ↦
      rw (range_to_cidrs, e) (cidrs_from-IsPrinted first count (parse_v4-inside start first e))
]

as_network : Block → Network
as_network b = net4 b.0 b.1

parse_all-printed :
    (out : Outside) (bs : List Block)
    → All (IsBlock 32) bs
    → parse_all out (map (network_text address_text) bs) ≡ ok (map as_network bs)
unfolding parse_all as_network
parse_all-printed out [] v = refl
parse_all-printed out (b ∷ bs) v =
    rw (parse_all, ip_network-network_text out.parse_v6 b v.0, parse_all-printed out bs v.1) refl

networks_of-IsNetwork : (bs : List Block) → All (IsBlock 32) bs → All IsNetwork (map as_network bs)
unfolding as_network
networks_of-IsNetwork [] v = tt
networks_of-IsNetwork (b ∷ bs) v = (v.0, networks_of-IsNetwork bs v.1)

all_of_v4 : (bs : List Block) → any is_v6 (map as_network bs) ≡ false
unfolding as_network
all_of_v4 [] = refl
all_of_v4 (b ∷ bs) = all_of_v4 bs

within-covers :
    (a : ℕ) (bs : List Block) → any (within (v4 a)) (map as_network bs) ≡ any (covers 32 a) bs
unfolding as_network within
within-covers a [] = refl
within-covers a (b ∷ bs) = ap (λ t. covers 32 a b || t) (within-covers a bs)

-- `_collapse` keeps the addresses.
pub collapse-IsPrinted :
    (out : Outside) (cidrs : List Str) (test : ℕ → Bool) (a : ℕ)
    → IsPrinted cidrs test
    → (collapse out cidrs >>= any_within out.parse_v6 (v4 a)) ≡ ok (test a)
unfolding collapse
collapse-IsPrinted out cidrs test a p =
    rw (p.printed, parse_all-printed out p.blocks p.inside)
      (collapsed-any_within out.parse_v6 out.print_v6 (v4 a) (map as_network p.blocks)
          (networks_of-IsNetwork p.blocks p.inside) (all_of_v4 p.blocks)
        ∙ ap ok (within-covers a p.blocks ∙ p.cover a))
