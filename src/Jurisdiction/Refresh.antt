-- ===== src/Jurisdiction/Refresh.antt =====
-- The refresh of src/ichnos/jurisdiction.py, from the registries and from ipdeny.com.
pub mod Registries
use ichnos.Base.{
  ℕ, zero, suc, ◌+◌, ◌-◌, ◌*◌, ◌^◌, Str, codes, strip, nonempty, contains, ◌==◌, ltb, leb, nat_eq,
  split_all, splitlines, Bool, true, false, not, ◌&&◌, ◌||◌, List, [], ◌∷◌, ◌++◌, map, keep_if,
  Option, none, some, if◌then◌else◌, Raises, ok, raised, value_error, other, ◌>>=◌, ◌≡◌, refl,
}
use ichnos.Base.Dict.{lookup}
use ichnos.Models.{Datetime}
use ichnos.Blocklist.{Network, parse_v4, ip_network}
use ichnos.Blocklist.Collapse.{
  Block, summarize_address_range, summarize, host_bits, right_zeros, bit_length,
}
use ichnos.Blocklist.Layers.{address_text, network_text, collapsed}
use ichnos.Jurisdiction.{rir_delegated_stats_urls, country_rir_hint, parse_delegated_stats}

pub record JurisdictionRefreshResult : Type 0 where
  pub cidrs : List Str
  pub source : Str
  pub countries : List Str
  pub fetched_at : Datetime

-- The parser and the printer of IPv6 addresses, `list` of a set, the clock, the network.
pub record Outside : Type 0 where
  pub parse_v6 : Str → Option ℕ
  pub print_v6 : ℕ → Str
  pub other_digit : ℕ → Option ℕ
  pub lower : Str → Str
  pub order : List Str → List Str
  pub now : Datetime
  pub fetch : Str → Raises Str

module _ (out : Outside) where
  -- `[ip_network(c, strict=False) for c in cidrs]`
  unfoldable pub parse_all : List Str → Raises (List Network)
  parse_all [] = ok []
  parse_all (c ∷ cs) = elim (ip_network out.parse_v6 c) [
    | none ↦ raised value_error
    | some n ↦ parse_all cs >>= (λ ns. ok (n ∷ ns))
  ]

  -- `_collapse`
  unfoldable pub collapse : List Str → Raises (List Str)
  unfolding parse_all
  collapse cidrs = parse_all cidrs >>= collapsed out.print_v6

  result : Str → List Str → List Str → JurisdictionRefreshResult
  result source countries cidrs = record {
    cidrs = cidrs;
    source = source;
    countries = countries;
    fetched_at = out.now;
  }

  finish : Str → List Str → Raises (List Str) → Raises JurisdictionRefreshResult
  unfolding collapse result
  finish source countries cidrs = (cidrs >>= collapse) >>= (λ c. ok (result source countries c))

  -- The registries of the countries: a country without one is refused.
  rirs_of : List (Str × Str) → List Str → Raises (List Str)
  unfolding lookup
  rirs_of hint [] = ok []
  rirs_of hint (cc ∷ ccs) = elim (lookup cc hint) [
    | none ↦ raised value_error
    | some rir ↦ rirs_of hint ccs >>= (λ rirs. ok (rir ∷ rirs))
  ]

  -- `rir_hint[cc] == rir`
  is_registered : List (Str × Str) → Str → Str → Bool
  unfolding lookup
  is_registered hint rir cc = elim (lookup cc hint) [ none ↦ false | some r ↦ r == rir ]

  -- The loop over the registries; a registry without a URL is a `KeyError`.
  fetch_rirs : List (Str × Str) → List Str → List Str → Raises (List Str)
  unfolding is_registered lookup parse_delegated_stats
  fetch_rirs hint countries [] = ok []
  fetch_rirs hint countries (rir ∷ rirs) = elim (lookup rir rir_delegated_stats_urls) [
    | none ↦ raised other
    | some url ↦ out.fetch url >>= (λ text. fetch_rirs hint countries rirs >>= (λ more. ok (
        parse_delegated_stats out.other_digit text (keep_if (is_registered hint rir) countries)
        ++ more)))
  ]

  unfoldable pub refresh_from_rir : List (Str × Str) → List Str → Raises JurisdictionRefreshResult
  unfolding finish rirs_of fetch_rirs
  refresh_from_rir rir_hint countries =
      finish (codes "rir") countries
        (rirs_of rir_hint countries >>= (λ rirs. fetch_rirs rir_hint countries (out.order rirs)))

  ipdeny_url : Str → Str
  ipdeny_url cc =
      codes "https://www.ipdeny.com/ipblocks/data/countries/" ++ (out.lower cc ++ codes ".zone")

  fetch_zones : List Str → Raises (List Str)
  unfolding ipdeny_url splitlines
  fetch_zones [] = ok []
  fetch_zones (cc ∷ ccs) = out.fetch (ipdeny_url cc) >>= (λ text.
      fetch_zones ccs
      >>= (λ more. ok (map strip (keep_if (λ l. nonempty (strip l)) (splitlines text)) ++ more)))

  unfoldable pub refresh_from_ipdeny : List Str → Raises JurisdictionRefreshResult
  unfolding finish fetch_zones
  refresh_from_ipdeny countries = finish (codes "ipdeny") countries (fetch_zones countries)

  unfoldable pub refresh_jurisdiction_blocklist : List Str → Str → Raises JurisdictionRefreshResult
  unfolding refresh_from_rir refresh_from_ipdeny
  refresh_jurisdiction_blocklist countries source =
      if source == codes "rir"
      then refresh_from_rir country_rir_hint countries
      else (if source == codes "ipdeny" then refresh_from_ipdeny countries else raised value_error)
