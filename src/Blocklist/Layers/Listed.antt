-- ===== src/Blocklist/Layers/Listed.antt =====
-- The list that `build_blocklist` returns, against the entries of the three layers.
use ichnos.Base.{
  if◌then◌else◌, ℕ, Str, Bool, true, false, ◌||◌, ◌≡◌, refl, sym, ap, ◌∙◌, arith, Option-cases, inl,
  inr, List, [], ◌∷◌, ◌++◌, map, any, All, Option, none, some, Raises, ok, raised, type_error,
  ◌>>=◌,
}
use ichnos.Base.Sort.{sorted, All-sorted, any-sorted}
use ichnos.Blocklist.{
  Address, v4, v6, Network, net4, net6, within, ip_address, parse_entry, any_within, is_blocked,
}
use ichnos.Blocklist.Collapse.{Block, block_le, collapse_addresses}
use ichnos.Blocklist.Collapse.Cover.{covers, IsBlock}
use ichnos.Blocklist.Collapse.Whole.{any-collapse_addresses, IsBlock-collapse_addresses}
use ichnos.Blocklist.Layers.{
  address_text, network_text, all_v4, all_v6, collapsed, networks, build_blocklist,
}
use ichnos.Blocklist.Layers.Printed.{ip_network-network_text}
use ichnos.Blocklist.Layers.Parsed.{IsNetwork, networks-IsNetwork}

abbrev pub is_v4 : Network → Bool
is_v4 (net4 n p) = true
is_v4 (net6 n p) = false

abbrev pub is_v6 : Network → Bool
is_v6 (net4 n p) = false
is_v6 (net6 n p) = true

-- The address is in the network that the entry stands for, if it stands for one.
unfoldable pub listed : (Str → Option ℕ) → Address → Str → Bool
listed parse_v6 x entry = elim (parse_entry parse_v6 entry) [ none ↦ false | some n ↦ within x n ]

pub within_block : Address → Block → Bool
within_block x b = within x (net4 b.0 b.1)

-- The blocks of a list of IPv4 networks.
pub record Blocks (ns : List Network) : Type 0 where
  pub blocks : List Block
  pub found : all_v4 ns ≡ some blocks
  pub inside : All (IsBlock 32) blocks
  pub same : (x : Address) → any (within_block x) blocks ≡ any (within x) ns

pub all_v4-Blocks : (ns : List Network) → All IsNetwork ns → any is_v6 ns ≡ false → Blocks ns
unfolding all_v4 within_block
all_v4-Blocks [] v h = record { blocks = []; found = refl; inside = tt; same = λ x. refl }
all_v4-Blocks (net4 n p ∷ ns) v h =
    let r = all_v4-Blocks ns v.1 h in
    record {
      blocks = (n, p) ∷ r.blocks;
      found = rw r.found refl;
      inside = (v.0, r.inside);
      same = λ x. ap (λ t. within x (net4 n p) || t) (r.same x);
    }
all_v4-Blocks (net6 n p ∷ ns) v h = ground (arith, h)

never : (n : ℕ) (bs : List Block) → any (within_block (v6 n)) bs ≡ false
unfolding within_block within
never n [] = refl
never n (b ∷ bs) = never n bs

any-within_block :
    (x : Address) (bs cs : List Block)
    → ((a : ℕ) → any (covers 32 a) bs ≡ any (covers 32 a) cs)
    → any (within_block x) bs ≡ any (within_block x) cs
unfolding within_block within
any-within_block (v4 a) bs cs same = same a
any-within_block (v6 n) bs cs same = never n bs ∙ sym (never n cs)

or_if : (p q : Bool) → (if p then ok true else ok q) ≡ ok (p || q)
or_if true q = refl
or_if false q = refl

no_v4 : (ns : List Network) → any is_v6 ns ≡ true → all_v4 ns ≡ none
unfolding all_v4
no_v4 [] h = ground (arith, h)
no_v4 (net4 n p ∷ ns) h = rw (no_v4 ns h) refl
no_v4 (net6 n p ∷ ns) h = refl

no_v6 : (ns : List Network) → any is_v4 ns ≡ true → all_v6 ns ≡ none
unfolding all_v6
no_v6 [] h = ground (arith, h)
no_v6 (net4 n p ∷ ns) h = refl
no_v6 (net6 n p ∷ ns) h = rw (no_v6 ns h) refl

is_blocked-found :
    (parse_v6 : Str → Option ℕ) (ip : Str) (x : Address) (cidrs : Raises (List Str))
    → ip_address parse_v6 ip ≡ some x
    → (cidrs >>= is_blocked parse_v6 ip) ≡ (cidrs >>= any_within parse_v6 x)
unfolding is_blocked
is_blocked-found parse_v6 ip x (ok cidrs) e = rw (is_blocked, e) refl
is_blocked-found parse_v6 ip x (raised r) e = refl

any_within-printed :
    (parse_v6 : Str → Option ℕ) (x : Address) (bs : List Block)
    → All (IsBlock 32) bs
    → any_within parse_v6 x (map (network_text address_text) bs) ≡ ok (any (within_block x) bs)
unfolding any_within within_block
any_within-printed parse_v6 x [] v = refl
any_within-printed parse_v6 x (b ∷ bs) v =
    rw (any_within, ip_network-network_text parse_v6 b v.0, any_within-printed parse_v6 x bs v.1)
      (or_if (within x (net4 b.0 b.1)) (any (within_block x) bs))

-- What `collapsed` prints is in `is_blocked`'s answer exactly as its networks.
pub collapsed-any_within :
    (parse_v6 : Str → Option ℕ) (print_v6 : ℕ → Str) (x : Address) (ns : List Network)
    → All IsNetwork ns
    → any is_v6 ns ≡ false
    → (collapsed print_v6 ns >>= any_within parse_v6 x) ≡ ok (any (within x) ns)
unfolding collapsed
collapsed-any_within parse_v6 print_v6 x ns v h =
    let r = all_v4-Blocks ns v h in
    let kept = collapse_addresses 32 r.blocks in
    rw (collapsed, r.found)
      (any_within-printed parse_v6 x (sorted block_le kept)
          (All-sorted block_le (IsBlock 32) kept (IsBlock-collapse_addresses 32 r.blocks r.inside))
        ∙ ap ok (
            any-within_block x (sorted block_le kept) r.blocks (λ a.
              any-sorted block_le (covers 32 a) kept
              ∙ any-collapse_addresses 32 a r.blocks r.inside)
            ∙ r.same x))

any-networks :
    (parse_v6 : Str → Option ℕ) (x : Address) (entries : List Str)
    → any (within x) (networks parse_v6 entries) ≡ any (listed parse_v6 x) entries
unfolding networks listed
any-networks parse_v6 x [] = refl
any-networks parse_v6 x (e ∷ es) = elim (Option-cases (parse_entry parse_v6 e)) [
  | inl h ↦ rw (networks, listed, h) (any-networks parse_v6 x es)
  | inr (n, h) ↦ rw (networks, listed, h) (ap (λ t. within x n || t) (any-networks parse_v6 x es))
]

-- Where no entry of the three layers stands for an IPv6 network, `build_blocklist` returns a list, and
-- `is_blocked` with that list says of an address whether it lies in the network of an entry of some layer
-- that parses; an entry that does not parse has no effect.
pub build_blocklist-listed :
    (parse_v6 : Str → Option ℕ) (print_v6 : ℕ → Str) (exclusions jurisdiction bogons : List Str)
    → any is_v6 (networks parse_v6 (bogons ++ (exclusions ++ jurisdiction))) ≡ false
    → (ip : Str) (x : Address) → ip_address parse_v6 ip ≡ some x
    → (build_blocklist parse_v6 print_v6 exclusions jurisdiction bogons >>= is_blocked parse_v6 ip)
      ≡ ok (any (listed parse_v6 x) (bogons ++ (exclusions ++ jurisdiction)))
unfolding build_blocklist
build_blocklist-listed parse_v6 print_v6 exclusions jurisdiction bogons h ip x e =
    let entries = bogons ++ (exclusions ++ jurisdiction) in
    let ns = networks parse_v6 entries in
    is_blocked-found parse_v6 ip x (collapsed print_v6 ns) e
    ∙ collapsed-any_within parse_v6 print_v6 x ns (networks-IsNetwork parse_v6 entries) h
    ∙ ap ok (any-networks parse_v6 x entries)

-- Networks of both versions, an IPv4 and an IPv6 entry anywhere in the three layers, make
-- `build_blocklist` raise `TypeError`.
pub build_blocklist-mixed :
    (parse_v6 : Str → Option ℕ) (print_v6 : ℕ → Str) (exclusions jurisdiction bogons : List Str)
    → any is_v4 (networks parse_v6 (bogons ++ (exclusions ++ jurisdiction))) ≡ true
    → any is_v6 (networks parse_v6 (bogons ++ (exclusions ++ jurisdiction))) ≡ true
    → build_blocklist parse_v6 print_v6 exclusions jurisdiction bogons ≡ raised type_error
unfolding build_blocklist
build_blocklist-mixed parse_v6 print_v6 exclusions jurisdiction bogons h k =
    let ns = networks parse_v6 (bogons ++ (exclusions ++ jurisdiction)) in
    rw (collapsed, no_v4 ns k, no_v6 ns h) refl
