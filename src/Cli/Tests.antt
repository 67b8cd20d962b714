-- ===== src/Cli/Tests.antt =====
-- A concrete publish cycle with no pending files, and a rebuild whose query fails.
use ichnos.Base.{
  Str, codes, false, List, [], ◌∷◌, ◌++◌, Option, none, Raises, ok, raised, odata_error, ◌≡◌, refl,
  inr,
}
use ichnos.Base.Dict.{lookup, store}
use ichnos.Base.Sort.{sorted}
use ichnos.Json.{Json}
use ichnos.Publish.{exclusion_rows}
use ichnos.Publish.Pending.{clear_pending, read_pending_datasets}
use ichnos.Publish.Hour.{Service, Cycle, publish_hour}
use ichnos.Publish.Hour.Accounting.{commits_of, names_of}
use ichnos.Responsive.{Host}
use ichnos.Cli.{Settings, exit_code, with_exclusions, cmd_publish, cmd_responsive_refresh}
use ichnos.Cli.Publishing.{Kept, cmd_publish_keeps, cmd_publish_success}
use ichnos.Cli.Rebuilding.{failed_query_keeps_file}

abbrev service : Service
service = record {
  convert = λ d rows. ok tt;
  create_session = λ d. ok tt;
  upload_file = λ d rows. ok tt;
  inspect = λ d rows. ok false;
  commit = λ d rows r. ok tt;
}

abbrev settings : Settings
settings = record {
  client_id = codes "id";
  client_secret = codes "secret";
  jurisdiction_blocklist = none;
  bogons = codes "10.0.0.0/8" ∷ [];
}

abbrev no_json : Str → Option Json
no_json s = none

abbrev cycle : Cycle
cycle = record { log = []; dir = [] }

cmd_publish_keeps_example :
    Kept no_json service settings
      (codes "ssh.ndjson")
      cycle
      (cmd_publish no_json service settings (ok []) cycle).1
cmd_publish_keeps_example =
    cmd_publish_keeps no_json service settings (codes "ssh.ndjson") (ok []) cycle

nothing_pending : read_pending_datasets no_json cycle.dir ≡ ok []
unfolding read_pending_datasets sorted
nothing_pending = refl

exit_zero : (cmd_publish no_json service settings (ok []) cycle).0 ≡ ok 0
unfolding cmd_publish read_pending_datasets sorted exit_code publish_hour with_exclusions store
    exclusion_rows
exit_zero = refl

cmd_publish_success_example :
    ((cmd_publish no_json service settings (ok []) cycle).1.log
      ≡ [] ++ commits_of (with_exclusions settings [] []))
    × ((cmd_publish no_json service settings (ok []) cycle).1.dir
        ≡ clear_pending (names_of (with_exclusions settings [] [])) [])
cmd_publish_success_example =
    cmd_publish_success no_json service settings [] [] cycle nothing_pending exit_zero

abbrev unreachable : Str → Raises (List Host)
unreachable protocol = raised odata_error

abbrev files : List (Str × Str)
files = (codes "/var/ssh", codes "192.0.2.1 \n") ∷ []

failed_query_keeps_file_example :
    lookup
      (codes "/var/ssh")
      (cmd_responsive_refresh
        (λ p. codes "/var/" ++ p)
        unreachable
        settings
        (ok tt)
        (codes "ssh" ∷ [])
        files).1
    ≡ lookup (codes "/var/ssh") files
failed_query_keeps_file_example =
    failed_query_keeps_file (λ p. codes "/var/" ++ p) unreachable (codes "/var/ssh") settings
      (ok tt) (codes "ssh" ∷ []) files (inr (odata_error, refl), tt)
