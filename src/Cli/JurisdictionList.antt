-- ===== src/Cli/JurisdictionList.antt =====
-- src/ichnos/cli.py: `cmd_jurisdiction_refresh`. The object in S3 is its contents, if it is there;
-- `upload` is how `s3.upload_file` ends, which replaces the object where it succeeds.
pub mod Delivered
mod Tests
use ichnos.Base.{
  ℕ, Str, codes, nonempty, split_all, Bool, true, false, List, [], ◌∷◌, Option, none, some,
  if◌then◌else◌, Raises, ok, raised, ◌==◌,
}
use ichnos.Base.Dict.{lookup, store}
use ichnos.Blocklist.{write_blocklist_file}
use ichnos.Jurisdiction.{default_countries}
use ichnos.Jurisdiction.Refresh.{Outside, JurisdictionRefreshResult, refresh_jurisdiction_blocklist}
use ichnos.Cli.Scanning.{Files, Config}

-- The files of the instance, and the object that new instances pull.
pub record Store : Type 0 where
  pub files : Files
  pub object : Option Str

-- `tuple(args.countries.split(",")) if args.countries else DEFAULT_COUNTRIES`
unfoldable pub countries_of : Option Str → List Str
unfolding split_all
countries_of none = default_countries
countries_of (some value) = if nonempty value then split_all 44 value else default_countries

uploaded : Str → Raises (Unit {0}) → Store → Raises ℕ × Store
uploaded contents (ok u) s = (ok 0, record s { object = some contents })
uploaded contents (raised e) s = (raised e, s)

module _ (out : Outside) (config : Config) (upload : Raises (Unit {0})) where
  unfoldable pub refreshed : Raises JurisdictionRefreshResult → Store → Raises ℕ × Store
  unfolding uploaded store write_blocklist_file
  refreshed (raised e) s = (raised e, s)
  refreshed (ok r) s =
      let contents = write_blocklist_file r.cidrs in
      let written = record s {
        files = store config.jurisdiction_blocklist_path contents s.files;
      } in
      if nonempty config.jurisdiction_s3_bucket
      then uploaded contents upload written
      else (ok 0, written)

  -- `cmd_jurisdiction_refresh`
  unfoldable pub cmd_jurisdiction_refresh : Option Str → Str → Store → Raises ℕ × Store
  unfolding refreshed countries_of refresh_jurisdiction_blocklist
  cmd_jurisdiction_refresh countries source s =
      refreshed (refresh_jurisdiction_blocklist out (countries_of countries) source) s
