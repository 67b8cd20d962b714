-- ===== src/Cli/JurisdictionList/Tests.antt =====
-- A refresh for two countries with a zone of two networks side by side, and a new instance that pulls its list.
use ichnos.Base.{
  codes, is_space, strip, str_eq, true, [], ◌∷◌, ◌++◌, All, none, some, ok, ◌≡◌, refl,
}
use ichnos.Base.Decimal.{decimal}
use ichnos.Base.Dict.{lookup}
use ichnos.Models.{Datetime}
use ichnos.Blocklist.{ip_network}
use ichnos.Blocklist.Layers.{collapsed}
use ichnos.Jurisdiction.Refresh.{Outside, JurisdictionRefreshResult, refresh_jurisdiction_blocklist}
use ichnos.Cli.{starts_with_hash, read_jurisdiction_cidrs}
use ichnos.Cli.Scanning.{Config, Station, client_error, answer_of, pull_jurisdiction}
use ichnos.Cli.JurisdictionList.{Store, countries_of, cmd_jurisdiction_refresh}
use ichnos.Cli.JurisdictionList.Delivered.{IsListed, jurisdiction_list_delivered}

abbrev sunday : Datetime
sunday = record {
  year = 2026;
  month = 3;
  day = 1;
  hour = 3;
  minute = 0;
  second = 0;
  microsecond = 0;
}

abbrev out : Outside
out = record {
  parse_v6 = λ s. none;
  print_v6 = λ n. decimal n;
  other_digit = λ c. none;
  lower = λ s. s;
  order = λ xs. xs;
  now = sunday;
  fetch = λ url. ok (codes "1.0.16.0/20" ++ (10 ∷ codes "1.0.0.0/20"));
}

abbrev config : Config
config = record {
  blocklist_path = codes "b";
  jurisdiction_blocklist_path = codes "j";
  jurisdiction_s3_bucket = codes "bucket";
  known_responsive_path = λ p. p;
  user_agent = none;
}

abbrev env : Station
env = record {
  config = config;
  run_command = λ args input. [];
  parse_v6 = λ s. none;
  print_v6 = λ n. decimal n;
  s3 = client_error none;
}

abbrev result : JurisdictionRefreshResult
result = record {
  cidrs = codes "1.0.0.0/19" ∷ [];
  source = codes "ipdeny";
  countries = codes "jp" ∷ codes "kr" ∷ [];
  fetched_at = sunday;
}

refresh_result :
    refresh_jurisdiction_blocklist out (countries_of (some (codes "jp,kr"))) (codes "ipdeny")
    ≡ ok result
unfolding refresh_jurisdiction_blocklist str_eq countries_of strip ip_network collapsed
refresh_result = refl

listed : All IsListed result.cidrs
unfolding is_space starts_with_hash
listed = (
  (
    record {
      first = 49;
      middle = codes ".0.0.0/1";
      last = 57;
      whole = refl;
      first_plain = refl;
      last_plain = refl;
      line = (
        (refl, refl),
        (
          (refl, refl),
          (
            (refl, refl),
            (
              (refl, refl),
              (
                (refl, refl),
                ((refl, refl), ((refl, refl), ((refl, refl), ((refl, refl), ((refl, refl), tt))))),
              ),
            ),
          ),
        ),
      );
    },
    refl,
  ),
  tt,
)

abbrev before : Store
before = record { files = []; object = none }

jurisdiction_list_delivered_example :
    let after =
      cmd_jurisdiction_refresh out config (ok tt) (some (codes "jp,kr")) (codes "ipdeny") before in
    let pulled =
      pull_jurisdiction (record env { config = config; s3 = answer_of after.1.object }) [] in
    (after.0 ≡ ok 0)
    × (read_jurisdiction_cidrs (lookup config.jurisdiction_blocklist_path after.1.files)
        ≡ result.cidrs)
    × (pulled.0 ≡ ok true)
    × (read_jurisdiction_cidrs (lookup config.jurisdiction_blocklist_path pulled.1) ≡ result.cidrs)
unfolding lookup
jurisdiction_list_delivered_example =
    jurisdiction_list_delivered out config (some (codes "jp,kr")) (codes "ipdeny") before result
      refresh_result listed refl env [] refl
