-- ===== src/Jurisdiction/Tests.antt =====
-- A registry's file with a comment, a summary line, a record of another country and records of two.
use ichnos.Base.{Str, codes, str_eq, List, [], ◌∷◌, ◌++◌, any, none, ok, ◌>>=◌, ◌≡◌, refl}
use ichnos.Base.Decimal.{decimal}
use ichnos.Base.Dict.{lookup}
use ichnos.Blocklist.{v4, any_within}
use ichnos.Jurisdiction.{country_rir_hint}
use ichnos.Jurisdiction.Refresh.{Outside, JurisdictionRefreshResult, refresh_from_rir}
use ichnos.Jurisdiction.Allocated.{allocated}
use ichnos.Jurisdiction.Refresh.Registries.{registry_lines, refresh_from_rir-allocated}

abbrev file : Str
file =
    codes "# stats"
    ++ (10
        ∷ (codes "2|apnic|20260807|4|19830613|20260806|+1000"
            ++ (10
                ∷ (codes "apnic|AU|ipv4|1.0.0.0|256|20110811|assigned|A9"
                    ++ (10
                        ∷ (codes "apnic|JP|ipv4|1.0.16.0|4096|20110412|allocated|A2"
                            ++ (10 ∷ codes "apnic|KR|ipv4|1.11.0.0|768|20100101|allocated|A3")))))))

abbrev out : Outside
out = record {
  parse_v6 = λ s. none;
  print_v6 = λ n. decimal n;
  other_digit = λ c. none;
  lower = λ s. s;
  order = λ xs. xs;
  now = record {
    year = 2026;
    month = 8;
    day = 7;
    hour = 3;
    minute = 0;
    second = 0;
    microsecond = 0;
  };
  fetch = λ url. ok file;
}

abbrev countries : List Str
countries = codes "KR" ∷ codes "JP" ∷ []

refresh_from_rir-allocated_example :
    (refresh_from_rir out country_rir_hint countries
      >>= (λ r. any_within out.parse_v6 (v4 16781577) (JurisdictionRefreshResult.cidrs r)))
    ≡ ok (
        any
          (λ c.
            any
              (allocated out.other_digit c 16781577)
              (registry_lines (λ url. file) country_rir_hint c))
          countries)
unfolding lookup str_eq
refresh_from_rir-allocated_example =
    refresh_from_rir-allocated out (λ url. file) (λ url. refl) (λ x xs. refl) country_rir_hint
      countries
      (
        record {
          rir = codes "apnic";
          url = codes "https://ftp.apnic.net/apnic/stats/apnic/delegated-apnic-extended-latest";
          hinted = refl;
          published = refl;
        },
        (
          record {
            rir = codes "apnic";
            url = codes "https://ftp.apnic.net/apnic/stats/apnic/delegated-apnic-extended-latest";
            hinted = refl;
            published = refl;
          },
          tt,
        ),
      )
      16781577
