-- ===== src/Jurisdiction/Refresh/Registries.antt =====
-- The refresh from the registries, against the files that they publish.
use ichnos.Base.{
  ℕ, Str, contains, eq_iff, codes, splitlines, Bool, true, false, ◌&&◌, ◌≡◌, refl, sym, ap, ◌∙◌,
  arith, Option-cases, inl, inr, List, [], ◌∷◌, ◌++◌, keep_if, any, any-cong, any-keep_if, any-and,
  any_comm, All, All-each, All-map, Option, none, some, Raises, ok, raised, value_error, ◌>>=◌,
}
use ichnos.Base.Dict.{lookup}
use ichnos.Base.Members.{All-members, any-picked}
use ichnos.Blocklist.{v4, any_within}
use ichnos.Jurisdiction.{parse_delegated_stats, rir_delegated_stats_urls}
use ichnos.Jurisdiction.Refresh.{
  Outside, JurisdictionRefreshResult, collapse, result, finish, rirs_of, is_registered, fetch_rirs,
  refresh_from_rir,
}
use ichnos.Jurisdiction.Printed.{
  IsPrinted, nothing-IsPrinted, append-IsPrinted, same-IsPrinted, collapse-IsPrinted,
}
use ichnos.Jurisdiction.Allocated.{allocated, parse_delegated_stats-IsPrinted}

-- Each country has a registry, and the registry a file.
pub record HasRegistry (hint : List (Str × Str)) (country : Str) : Type 0 where
  pub rir : Str
  pub url : Str
  pub hinted : lookup country hint ≡ some rir
  pub published : lookup rir rir_delegated_stats_urls ≡ some url

abbrev page_at : (Str → Str) → Option Str → List Str
page_at page none = []
page_at page (some url) = splitlines (page url)

abbrev lines_for : (Str → Str) → Option Str → List Str
lines_for page none = []
lines_for page (some rir) = page_at page (lookup rir rir_delegated_stats_urls)

-- The lines of the file of a country's registry.
abbrev pub registry_lines : (Str → Str) → List (Str × Str) → Str → List Str
registry_lines page hint country = lines_for page (lookup country hint)

some_inj : (x y : Str) → ◌≡◌ {A = Option Str} (some x) (some y) → x ≡ y
some_inj x y e = ap (λ o. elim o [ none ↦ x | some z ↦ z ]) e

module _ (out : Outside) (page : Str → Str) (fetched : (url : Str) → out.fetch url ≡ ok (page url))
    (hint : List (Str × Str)) (countries : List Str) where
  of_registry : Str → ℕ → Bool
  of_registry rir a =
      any
        (λ line.
          any (λ c. allocated out.other_digit c a line)
            (keep_if (is_registered out hint rir) countries))
        (lines_for page (some rir))

  record Fetched (rirs : List Str) : Type 0 where
    cidrs : List Str
    done : fetch_rirs out hint countries rirs ≡ ok cidrs
    printed : IsPrinted cidrs (λ a. any (λ r. of_registry r a) rirs)

  HasFile : Str → Type 0
  HasFile rir = (url : Str) × (lookup rir rir_delegated_stats_urls ≡ some url)

  fetch_rirs-Fetched : (rirs : List Str) → All HasFile rirs → Fetched rirs
  unfolding fetch_rirs HasFile of_registry
  fetch_rirs-Fetched [] h = record { cidrs = []; done = refl; printed = nothing-IsPrinted }
  fetch_rirs-Fetched (rir ∷ rirs) h =
      let (url, e) = h.0 in
      let more = fetch_rirs-Fetched rirs h.1 in
      let wanted = keep_if (is_registered out hint rir) countries in
      let here = parse_delegated_stats out.other_digit (page url) wanted in
      record {
        cidrs = here ++ more.cidrs;
        done = rw (fetch_rirs, e, fetched url, more.done) refl;
        printed =
            append-IsPrinted here more.cidrs (of_registry rir)
              (λ a. any (λ r. of_registry r a) rirs)
              (same-IsPrinted here
                (λ a.
                  any (λ line. any (λ c. allocated out.other_digit c a line) wanted)
                    (splitlines (page url)))
                (of_registry rir) (λ a. rw (of_registry, e) refl)
                (parse_delegated_stats-IsPrinted out.other_digit (page url) wanted))
              more.printed;
      }

  record Resolved (cs : List Str) : Type 0 where
    rirs : List Str
    found : rirs_of out hint cs ≡ ok rirs
    files : All HasFile rirs
    hits : All (λ c. (r : Str) → lookup c hint ≡ some r → contains r rirs ≡ true) cs

  rirs_of-Resolved : (cs : List Str) → All (HasRegistry hint) cs → Resolved cs
  unfolding rirs_of contains HasFile
  rirs_of-Resolved [] h = record { rirs = []; found = refl; files = tt; hits = tt }
  rirs_of-Resolved (c ∷ cs) h =
      let more = rirs_of-Resolved cs h.1 in
      let r0 = h.0.rir in
      record {
        rirs = r0 ∷ more.rirs;
        found = rw (rirs_of, h.0.hinted, more.found) refl;
        files = ((h.0.url, h.0.published), more.files);
        hits = (
          λ r e. let same = some_inj r r0 (sym e ∙ h.0.hinted) in ground (arith, eq_iff r r0, same),
          All-map _ _ cs (λ x k r e. ground (arith, k r e)) more.hits,
        );
      }

  of_both : Str → Str → ℕ → Bool
  of_both rir c a = any (allocated out.other_digit c a) (lines_for page (some rir))

  of_registry-split :
      (rir : Str) (a : ℕ)
      → of_registry rir a ≡ any (λ c. is_registered out hint rir c && of_both rir c a) countries
  unfolding of_registry of_both
  of_registry-split rir a =
      let ls = lines_for page (some rir) in
      any-cong _ _ ls (
        All-each _ ls (λ line.
          any-keep_if (is_registered out hint rir) (λ c. allocated out.other_digit c a line)
            countries))
      ∙ any_comm (λ line c. is_registered out hint rir c && allocated out.other_digit c a line) ls
          countries
      ∙ any-cong _ _ countries (
          All-each _ countries
            (λ c. any-and (is_registered out hint rir c) (allocated out.other_digit c a) ls))

  Hits : List Str → Str → Type 0
  Hits rirs c = (r : Str) → lookup c hint ≡ some r → contains r rirs ≡ true

  picked :
      (rirs : List Str) (a : ℕ) (c : Str)
      → Hits rirs c
      → HasRegistry hint c
      → any (λ r. is_registered out hint r c && of_both r c a) rirs
        ≡ any (allocated out.other_digit c a) (registry_lines page hint c)
  unfolding Hits is_registered of_both
  picked rirs a c hit known =
      rw (is_registered, registry_lines, known.hinted)
        (any-picked known.rir (λ r. of_both r c a) rirs ∙ rw (hit known.rir known.hinted) refl)

  picked_all :
      (rirs : List Str) (a : ℕ) (cs : List Str)
      → All (Hits rirs) cs
      → All (HasRegistry hint) cs
      → All
          (λ c.
            any (λ r. is_registered out hint r c && of_both r c a) rirs
            ≡ any (allocated out.other_digit c a) (registry_lines page hint c))
          cs
  picked_all rirs a [] h k = tt
  picked_all rirs a (c ∷ cs) h k = (picked rirs a c h.0 k.0, picked_all rirs a cs h.1 k.1)

  -- The files of the registries with the countries registered there, and the file of each country.
  by_country :
      (rirs : List Str) (a : ℕ)
      → All (Hits rirs) countries
      → All (HasRegistry hint) countries
      → any (λ r. of_registry r a) rirs
        ≡ any (λ c. any (allocated out.other_digit c a) (registry_lines page hint c)) countries
  by_country rirs a hits known =
      any-cong _ _ rirs (All-each _ rirs (λ r. of_registry-split r a))
      ∙ any_comm (λ r c. is_registered out hint r c && of_both r c a) rirs countries
      ∙ any-cong _ _ countries (picked_all rirs a countries hits known)

  only_cidrs :
      {A : Type 0} (f : List Str → Raises A) (c : Raises (List Str))
      → ((c >>= (λ cidrs. ok (result out (codes "rir") countries cidrs)))
          >>= (λ r. f (JurisdictionRefreshResult.cidrs r)))
        ≡ (c >>= f)
  unfolding result
  only_cidrs f (ok cidrs) = refl
  only_cidrs f (raised e) = refl

  finished :
      (x : ℕ) (cidrs : Raises (List Str)) (b : Raises Bool)
      → ((cidrs >>= collapse out) >>= any_within out.parse_v6 (v4 x)) ≡ b
      → (finish out (codes "rir") countries cidrs
          >>= (λ r. any_within out.parse_v6 (v4 x) (JurisdictionRefreshResult.cidrs r)))
        ≡ b
  unfolding finish
  finished x cidrs b h = only_cidrs (any_within out.parse_v6 (v4 x)) (cidrs >>= collapse out) ∙ h

-- Where every page can be fetched, every country asked for has a registry with a file, and the order in
-- which Python goes through a set keeps its elements: `refresh_from_rir` returns, and an IPv4 address is
-- covered by its list just when, for some country asked for, the file of that country's registry has an
-- IPv4 record of the country whose range contains the address and lies in the address space.
pub refresh_from_rir-allocated :
    (out : Outside) (page : Str → Str)
    → ((url : Str) → out.fetch url ≡ ok (page url))
    → ((x : Str) (xs : List Str) → contains x (out.order xs) ≡ contains x xs)
    → (hint : List (Str × Str)) (countries : List Str) → All (HasRegistry hint) countries
    → (a : ℕ)
    → (refresh_from_rir out hint countries
        >>= (λ r. any_within out.parse_v6 (v4 a) (JurisdictionRefreshResult.cidrs r)))
      ≡ ok (any (λ c. any (allocated out.other_digit c a) (registry_lines page hint c)) countries)
unfolding refresh_from_rir Hits
refresh_from_rir-allocated out page fetched order hint countries known a =
    let found = rirs_of-Resolved out page fetched hint countries countries known in
    let rirs = out.order found.rirs in
    let files =
      All-members (HasFile out page fetched hint countries) found.rirs rirs
        (λ x. order x found.rirs) found.files in
    let got = fetch_rirs-Fetched out page fetched hint countries rirs files in
    let hits =
      All-map _ (Hits out page fetched hint countries rirs) countries
        (λ c h r e. order r found.rirs ∙ h r e) found.hits in
    rw (found.found, got.done)
      (finished out page fetched hint countries a (ok got.cidrs) _ (
        collapse-IsPrinted out got.cidrs _ a got.printed
        ∙ ap ok (by_country out page fetched hint countries rirs a hits known)))

lacks_registry : List (Str × Str) → Str → Bool
lacks_registry hint country = elim (lookup country hint) [ none ↦ true | some rir ↦ false ]

rirs_of-lacking :
    (out : Outside) (hint : List (Str × Str)) (countries : List Str)
    → any (lacks_registry hint) countries ≡ true
    → rirs_of out hint countries ≡ raised value_error
unfolding rirs_of lacks_registry
rirs_of-lacking out hint [] h = ground (arith, h)
rirs_of-lacking out hint (c ∷ cs) h = elim (Option-cases (lookup c hint)) [
  | inl e ↦ rw (rirs_of, e) refl
  | inr (r, e) ↦ rw (rirs_of, e, rirs_of-lacking out hint cs (rw (lacks_registry, e) at h)) refl
]
