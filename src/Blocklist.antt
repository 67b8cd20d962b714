-- ===== src/Blocklist.antt =====
-- src/ichnos/blocklist.py, with what it uses of the standard library's `ipaddress`: the text of an
-- IPv4 address or network, and whether an address lies in a network. The text syntax of IPv6 is
-- left to the parameter `parse_v6`.
pub mod File
pub mod Collapse
pub mod Layers
pub mod Bare
use ichnos.Base.{
  ◌≡◌, refl, ℕ, zero, suc, ◌+◌, ◌-◌, ◌*◌, ◌/◌, ◌^◌, Str, codes, strip, file_lines, with_newline,
  split, leb, nat_eq, nonempty, Bool, true, false, not, ◌&&◌, List, [], ◌∷◌, ◌++◌, Option, none,
  some, length, keep_if, if◌then◌else◌, Raises, ok, raised, value_error, map,
}

pub data Address : Type 0 where
  v4 : ℕ → Address
  v6 : ℕ → Address

-- The network address, its host bits cleared, and the prefix length.
pub data Network : Type 0 where
  net4 : ℕ → ℕ → Network
  net6 : ℕ → ℕ → Network

is_digit : ℕ → Bool
is_digit c = leb 48 c && leb c 57

-- The value of a run of ASCII digits, at least one.
digits_from : ℕ → Str → Option ℕ
unfolding is_digit
digits_from acc [] = some acc
digits_from acc (c ∷ s) = if is_digit c then digits_from (acc * 10 + (c - 48)) s else none

number : Str → Option ℕ
unfolding digits_from
number [] = none
number (c ∷ s) = digits_from 0 (c ∷ s)

leading_zero : Str → Bool
leading_zero (c ∷ d ∷ s) = nat_eq c 48
leading_zero _ = false

-- `_parse_octet`: at most three digits, no leading zero, at most 255.
octet : Str → Option ℕ
unfolding number leading_zero
octet s =
    if leb (length s) 3 && not (leading_zero s)
    then elim (number s) [ none ↦ none | some n ↦ if leb n 255 then some n else none ]
    else none

-- The four texts between the dots.
dotted : Str → Option (Str × Str × Str × Str)
dotted s = elim (split 46 s) [
  | none ↦ none
  | some (a, r) ↦ elim (split 46 r) [
    | none ↦ none
    | some (b, r') ↦ elim (split 46 r') [ none ↦ none | some (c, d) ↦ some (a, b, c, d) ]
  ]
]

join_octets : Option ℕ → Option ℕ → Option ℕ → Option ℕ → Option ℕ
join_octets (some a) (some b) (some c) (some d) = some (((a * 256 + b) * 256 + c) * 256 + d)
join_octets _ _ _ _ = none

-- `IPv4Address(text)`, as its integer.
unfoldable pub parse_v4 : Str → Option ℕ
unfolding octet dotted join_octets split
parse_v4 s = elim (dotted s) [
  | none ↦ none
  | some (a, b, c, d) ↦ join_octets (octet a) (octet b) (octet c) (octet d)
]

parse_v4_example : parse_v4 (codes "10.0.1.255") ≡ some 167772671
unfolding parse_v4
parse_v4_example = refl

-- The prefix length whose netmask is `m`, or else whose hostmask is `m`, looked for from `p` down.
prefix_of_mask : ℕ → ℕ → (ℕ → ℕ) → Option ℕ
prefix_of_mask zero m mask = if nat_eq m (mask 0) then some 0 else none
prefix_of_mask (suc p) m mask =
    let rest = prefix_of_mask p m mask in if nat_eq m (mask (suc p)) then some (suc p) else rest

or_else : Option ℕ → Option ℕ → Option ℕ
or_else (some n) o = some n
or_else none o = o

-- `_prefix_from_ip_string`
dotted_mask : Str → Option ℕ
unfolding parse_v4 prefix_of_mask or_else
dotted_mask s = elim (parse_v4 s) [
  | none ↦ none
  | some m ↦
      or_else (prefix_of_mask 32 m (λ p. 2 ^ 32 - 2 ^ (32 - p)))
        (prefix_of_mask 32 m (λ p. 2 ^ (32 - p) - 1))
]

bounded : ℕ → Option ℕ → Option ℕ
bounded limit none = none
bounded limit (some n) = if leb n limit then some n else none

-- `_make_netmask` of `IPv4Network`: a prefix length, or a netmask or hostmask in dotted form.
prefix_v4 : Str → Option ℕ
unfolding bounded number dotted_mask or_else
prefix_v4 s = or_else (bounded 32 (number s)) (dotted_mask s)

abbrev masked : ℕ → ℕ → ℕ → ℕ
masked width n p = n / 2 ^ (width - p) * 2 ^ (width - p)

network_v4 : Option ℕ → Option ℕ → Option Network
network_v4 (some n) (some p) = some (net4 (masked 32 n p) p)
network_v4 _ _ = none

network_v6 : Option ℕ → Option ℕ → Option Network
network_v6 (some n) (some p) = some (net6 (masked 128 n p) p)
network_v6 _ _ = none

first_network : Option Network → Option Network → Option Network
first_network (some n) o = some n
first_network none o = o

-- `address in network`: never across versions.
unfoldable pub within : Address → Network → Bool
within (v4 a) (net4 n p) = nat_eq (a / 2 ^ (32 - p)) (n / 2 ^ (32 - p))
within (v6 a) (net6 n p) = nat_eq (a / 2 ^ (128 - p)) (n / 2 ^ (128 - p))
within _ _ = false

-- `IPv6Address(text)` is a parameter.
module _ (parse_v6 : Str → Option ℕ) where
  unfoldable pub ip_address : Str → Option Address
  ip_address s = elim (parse_v4 s) [
    | some n ↦ some (v4 n)
    | none ↦ elim (parse_v6 s) [ some n ↦ some (v6 n) | none ↦ none ]
  ]

  -- `ip_network(text, strict=False)`; a second `/` is refused.
  unfoldable pub ip_network : Str → Option Network
  unfolding first_network network_v4 network_v6 prefix_v4 bounded number
  ip_network s = elim (split 47 s) [
    | none ↦ first_network (network_v4 (parse_v4 s) (some 32)) (network_v6 (parse_v6 s) (some 128))
    | some (a, p) ↦
        first_network (network_v4 (parse_v4 a) (prefix_v4 p))
          (network_v6 (parse_v6 a) (bounded 128 (number p)))
  ]

  entry_network : Str → Option Network
  entry_network [] = none
  entry_network (c ∷ s) =
      if nat_eq c 35
      then none
      else ip_network (elim (split 47 (c ∷ s)) [ none ↦ (c ∷ s) ++ codes "/32" | some _ ↦ c ∷ s ])

  -- `_parse`: `none` stands for `ValueError`.
  unfoldable pub parse_entry : Str → Option Network
  unfolding ip_network entry_network
  parse_entry entry = entry_network (strip entry)

  -- `any(address in ip_network(cidr, strict=False) for cidr in cidrs)`
  pub any_within : Address → List Str → Raises Bool
  any_within a [] = ok false
  any_within a (cidr ∷ cidrs) = elim (ip_network cidr) [
    | none ↦ raised value_error
    | some n ↦ let rest = any_within a cidrs in if within a n then ok true else rest
  ]

  -- `is_blocked`
  unfoldable pub is_blocked : Str → List Str → Raises Bool
  unfolding any_within ip_address ip_network parse_v4 within
  is_blocked ip cidrs = elim (ip_address ip) [ none ↦ ok true | some a ↦ any_within a cidrs ]

-- `read_blocklist_file`, given the contents of the file, if there is one.
unfoldable pub read_blocklist_file : Option Str → List Str
read_blocklist_file none = []
read_blocklist_file (some contents) = keep_if nonempty (map strip (file_lines contents))

-- `write_blocklist_file`: the contents that replace the file.
unfoldable pub write_blocklist_file : List Str → Str
write_blocklist_file cidrs = with_newline cidrs

no_v6 : Str → Option ℕ
no_v6 s = none

is_blocked_example :
    is_blocked no_v6
      (codes "192.0.2.77")
      (codes "10.0.0.0/8" ∷ codes "192.0.2.9/255.255.255.0" ∷ codes "bad" ∷ [])
    ≡ ok true
unfolding is_blocked no_v6
is_blocked_example = refl
