-- ===== src/Jurisdiction.antt =====
-- src/ichnos/jurisdiction.py: the networks that the regional registries delegate to a country.
-- Fetching a page is the parameter `fetch`; so are the order in which Python goes through a set, the clock,
-- `str.lower`, and the values of the digits outside ASCII.
pub mod Printed
pub mod Allocated
pub mod Refresh
mod Tests
use ichnos.Base.{
  ℕ, zero, suc, ◌+◌, ◌-◌, ◌*◌, ◌^◌, Str, codes, strip, nonempty, contains, ◌==◌, ltb, leb, nat_eq,
  split_all, splitlines, Bool, true, false, not, ◌&&◌, ◌||◌, List, [], ◌∷◌, ◌++◌, map, keep_if,
  Option, none, some, if◌then◌else◌, Raises, ok, raised, value_error, other, ◌>>=◌, ◌≡◌, refl,
}
use ichnos.Base.Dict.{lookup}
use ichnos.Models.{Datetime}
use ichnos.Blocklist.{Network, parse_v4, ip_network}
use ichnos.Blocklist.Collapse.{
  Block, summarize_address_range, summarize, host_bits, right_zeros, bit_length,
}
use ichnos.Blocklist.Layers.{address_text, network_text, collapsed}

abbrev pub default_countries : List Str
default_countries = codes "JP" ∷ codes "KP" ∷ codes "KR" ∷ codes "CN" ∷ codes "RU" ∷ codes "IR" ∷ []

abbrev pub rir_delegated_stats_urls : List (Str × Str)
rir_delegated_stats_urls =
    (codes "apnic", codes "https://ftp.apnic.net/apnic/stats/apnic/delegated-apnic-extended-latest")
    ∷ (
      codes "ripencc",
      codes "https://ftp.ripe.net/pub/stats/ripencc/delegated-ripencc-extended-latest",
    )
    ∷ (codes "arin", codes "https://ftp.arin.net/pub/stats/arin/delegated-arin-extended-latest")
    ∷ (
      codes "lacnic",
      codes "https://ftp.lacnic.net/pub/stats/lacnic/delegated-lacnic-extended-latest",
    )
    ∷ (
      codes "afrinic",
      codes "https://ftp.afrinic.net/pub/stats/afrinic/delegated-afrinic-extended-latest",
    )
    ∷ []

abbrev pub country_rir_hint : List (Str × Str)
country_rir_hint =
    (codes "JP", codes "apnic")
    ∷ (codes "KP", codes "apnic")
    ∷ (codes "KR", codes "apnic")
    ∷ (codes "CN", codes "apnic")
    ∷ (codes "RU", codes "ripencc")
    ∷ (codes "IR", codes "ripencc")
    ∷ []

pub data Count : Type 0 where
  plus : ℕ → Count
  minus : ℕ → Count

module _ (other_digit : ℕ → Option ℕ) where
  digit_value : ℕ → Option ℕ
  digit_value c = if leb 48 c && leb c 57 then some (c - 48) else other_digit c

  -- Digits, with single underscores between them; the flag says that a digit came just before.
  int_digits : Bool → ℕ → Str → Option ℕ
  unfolding digit_value
  int_digits after acc [] = if after then some acc else none
  int_digits after acc (c ∷ s) =
      let next = int_digits false acc s in
      if nat_eq c 95
      then (if after then next else none)
      else elim (digit_value c) [ none ↦ none | some d ↦ int_digits true (acc * 10 + d) s ]

  signed : Str → Option Count
  unfolding int_digits
  signed [] = none
  signed (c ∷ s) =
      if nat_eq c 45
      then elim (int_digits false 0 s) [ none ↦ none | some n ↦ some (minus n) ]
      else (if nat_eq c 43
          then elim (int_digits false 0 s) [ none ↦ none | some n ↦ some (plus n) ]
          else elim (int_digits false 0 (c ∷ s)) [ none ↦ none | some n ↦ some (plus n) ])

  -- `int(value)`
  unfoldable pub parse_count : Str → Option Count
  unfolding signed
  parse_count s = signed (strip s)

-- `IPv4Address(int(first) + count - 1)`
last_address : ℕ → Count → Option ℕ
last_address first (plus n) =
    if nat_eq (first + n) 0
    then none
    else (if ltb (first + n - 1) (2 ^ 32) then some (first + n - 1) else none)
last_address first (minus n) = if ltb n first then some (first - n - 1) else none

-- `[str(net) for net in summarize_address_range(first, last)]`
cidrs_between : ℕ → ℕ → Option (List Str)
unfolding summarize_address_range
cidrs_between first last =
    if ltb last first
    then none
    else some (map (network_text address_text) (summarize_address_range 32 (first, last)))

cidrs_from : ℕ → Count → Option (List Str)
unfolding last_address cidrs_between
cidrs_from first count = elim (last_address first count) [
  | none ↦ none
  | some last ↦ cidrs_between first last
]

-- `_range_to_cidrs`; `none` stands for `ValueError`.
unfoldable pub range_to_cidrs : Str → Count → Option (List Str)
unfolding cidrs_from parse_v4
range_to_cidrs start count = elim (parse_v4 start) [
  | none ↦ none
  | some first ↦ cidrs_from first count
]

-- `not line or line.startswith("#") or line.startswith("2|")`
is_passed_over : Str → Bool
is_passed_over [] = true
is_passed_over (c ∷ []) = nat_eq c 35
is_passed_over (c ∷ d ∷ s) = nat_eq c 35 || (nat_eq c 50 && nat_eq d 124)

-- The country, the type, the start and the value of a line of seven fields or more.
fields_of : List Str → Option (Str × Str × Str × Str)
fields_of (registry ∷ cc ∷ record_type ∷ start ∷ value ∷ f ∷ g ∷ rest) =
    some (cc, record_type, start, value)
fields_of _ = none

record_of : Str → Option (Str × Str × Str × Str)
unfolding is_passed_over fields_of
record_of line = if is_passed_over line then none else fields_of (split_all 124 line)

module _ (other_digit : ℕ → Option ℕ) where
  value_cidrs : Str → Option Count → List Str
  unfolding range_to_cidrs
  value_cidrs start none = []
  value_cidrs start (some count) = elim (range_to_cidrs start count) [
    | none ↦ []
    | some cidrs ↦ cidrs
  ]

  record_cidrs : List Str → Option (Str × Str × Str × Str) → List Str
  unfolding value_cidrs
  record_cidrs wanted none = []
  record_cidrs wanted (some (cc, record_type, start, value)) =
      if not (contains cc wanted) || not (record_type == codes "ipv4")
      then []
      else value_cidrs start (parse_count other_digit value)

  -- One round of the loop of `parse_delegated_stats`: what it adds.
  line_cidrs : List Str → Str → List Str
  unfolding record_of record_cidrs
  line_cidrs wanted line = record_cidrs wanted (record_of line)

  lines_cidrs : List Str → List Str → List Str
  unfolding line_cidrs
  lines_cidrs wanted [] = []
  lines_cidrs wanted (line ∷ lines) = line_cidrs wanted line ++ lines_cidrs wanted lines

  unfoldable pub parse_delegated_stats : Str → List Str → List Str
  unfolding lines_cidrs
  parse_delegated_stats text country_codes = lines_cidrs country_codes (splitlines text)

range_to_cidrs_example :
    range_to_cidrs (codes "1.0.1.0") (plus 768)
    ≡ some (codes "1.0.1.0/24" ∷ codes "1.0.2.0/23" ∷ [])
unfolding range_to_cidrs summarize host_bits right_zeros bit_length network_text address_text
range_to_cidrs_example = refl
