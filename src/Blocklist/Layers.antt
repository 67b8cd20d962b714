-- ===== src/Blocklist/Layers.antt =====
-- `build_blocklist` of src/ichnos/blocklist.py: the three layers merged into one list of networks.
-- How an IPv6 address is printed is left to the parameter `print_v6`.
pub mod Printed
pub mod Parsed
pub mod Listed
pub mod Filed
mod Tests
use ichnos.Base.{
  ℕ, ◌/◌, ◌%◌, Str, codes, ◌≡◌, refl, List, [], ◌∷◌, ◌++◌, map, Option, none, some, strip, Raises,
  ok, raised, type_error,
}
use ichnos.Base.Decimal.{decimal}
use ichnos.Base.Sort.{sorted}
use ichnos.Blocklist.{Network, net4, net6, parse_entry}
use ichnos.Blocklist.Collapse.{
  Block, block_le, collapse_addresses, summarize, host_bits, right_zeros, bit_length,
}

-- `str(IPv4Address(n))`
unfoldable pub address_text : ℕ → Str
unfolding decimal
address_text n =
    decimal (n / 256 / 256 / 256)
    ++ (46
        ∷ (decimal (n / 256 / 256 % 256)
            ++ (46 ∷ (decimal (n / 256 % 256) ++ (46 ∷ decimal (n % 256))))))

-- `str(network)`
unfoldable pub network_text : (ℕ → Str) → Block → Str
unfolding decimal
network_text print b = print b.0 ++ (47 ∷ decimal b.1)

-- The networks, if all are of version 4.
unfoldable pub all_v4 : List Network → Option (List Block)
all_v4 [] = some []
all_v4 (net4 n p ∷ ns) = elim (all_v4 ns) [ none ↦ none | some bs ↦ some ((n, p) ∷ bs) ]
all_v4 (net6 n p ∷ ns) = none

unfoldable pub all_v6 : List Network → Option (List Block)
all_v6 [] = some []
all_v6 (net4 n p ∷ ns) = none
all_v6 (net6 n p ∷ ns) = elim (all_v6 ns) [ none ↦ none | some bs ↦ some ((n, p) ∷ bs) ]

module _ (print_v6 : ℕ → Str) where
  -- `[str(net) for net in sorted(collapse_addresses(networks))]`: networks of both versions cannot be
  -- compared.
  unfoldable pub collapsed : List Network → Raises (List Str)
  unfolding all_v4 all_v6 network_text address_text collapse_addresses sorted
  collapsed ns = elim (all_v4 ns) [
    | some bs ↦ ok (map (network_text address_text) (sorted block_le (collapse_addresses 32 bs)))
    | none ↦ elim (all_v6 ns) [
      | some bs ↦ ok (map (network_text print_v6) (sorted block_le (collapse_addresses 128 bs)))
      | none ↦ raised type_error
    ]
  ]

module _ (parse_v6 : Str → Option ℕ) where
  -- The loop over the entries; those that do not parse are skipped.
  unfoldable pub networks : List Str → List Network
  unfolding parse_entry
  networks [] = []
  networks (entry ∷ entries) = elim (parse_entry parse_v6 entry) [
    | none ↦ networks entries
    | some n ↦ n ∷ networks entries
  ]

  unfoldable pub build_blocklist : (ℕ → Str) → List Str → List Str → List Str → Raises (List Str)
  unfolding collapsed networks
  build_blocklist print_v6 exclusion_entries jurisdiction_cidrs bogons =
      collapsed print_v6 (networks (bogons ++ (exclusion_entries ++ jurisdiction_cidrs)))

-- `DEFAULT_BOGONS`
abbrev pub default_bogons : List Str
default_bogons =
    codes "0.0.0.0/8"
    ∷ codes "10.0.0.0/8"
    ∷ codes "100.64.0.0/10"
    ∷ codes "127.0.0.0/8"
    ∷ codes "169.254.0.0/16"
    ∷ codes "172.16.0.0/12"
    ∷ codes "192.0.0.0/24"
    ∷ codes "192.0.2.0/24"
    ∷ codes "192.88.99.0/24"
    ∷ codes "192.168.0.0/16"
    ∷ codes "198.18.0.0/15"
    ∷ codes "198.51.100.0/24"
    ∷ codes "203.0.113.0/24"
    ∷ codes "224.0.0.0/4"
    ∷ codes "240.0.0.0/4"
    ∷ codes "255.255.255.255/32"
    ∷ []

unread : Str → Option ℕ
unread s = none

build_blocklist_example :
    build_blocklist unread decimal
      (codes "192.0.3.0/24" ∷ codes "# note" ∷ codes "203.0.112.9" ∷ codes "11.0.0.0/8" ∷ [])
      []
      (codes "10.0.0.0/8" ∷ codes "192.0.2.0/24" ∷ [])
    ≡ ok (codes "10.0.0.0/7" ∷ codes "192.0.2.0/23" ∷ codes "203.0.112.9/32" ∷ [])
unfolding build_blocklist unread strip summarize host_bits right_zeros bit_length
build_blocklist_example = refl
