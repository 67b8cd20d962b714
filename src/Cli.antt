-- ===== src/Cli.antt =====
-- src/ichnos/cli.py: the commands of the cron jobs, as far as they are bookkeeping.
-- A command's result is its exit code or an exception that no handler catches.
pub mod Publishing
pub mod Rebuilding
pub mod Handover
pub mod Scanning
pub mod JurisdictionList
mod Tests
use ichnos.Base.{
  ℕ, zero, suc, ◌+◌, Str, codes, nat_eq, strip, nonempty, file_lines, Bool, true, false, not, ◌&&◌,
  ◌||◌, List, [], ◌∷◌, map, Option, none, some, if◌then◌else◌, keep_if, Raises, ok, raised, Error,
  publish_error, upload_error, odata_error, ◌>>=◌,
}
use ichnos.Base.Dict.{lookup, store}
use ichnos.Json.{Json}
use ichnos.Models.{Exclusion, ScheduleEntry}
use ichnos.Scanner.{ScanRunOutcome}
use ichnos.Publish.{Row, exclusion_rows, empty_batch, add_scan_outcome, datasets}
use ichnos.Publish.Pending.{Dir, file_of, append_ndjson, read_pending_datasets}
use ichnos.Publish.Hour.{Service, Cycle, publish_hour}
use ichnos.Responsive.{Host, refresh_protocol}

pub starts_with_hash : Str → Bool
starts_with_hash [] = false
starts_with_hash (c ∷ s) = nat_eq c 35

-- `_read_jurisdiction_cidrs`, given the contents of the file, if there is one.
unfoldable pub read_jurisdiction_cidrs : Option Str → List Str
unfolding starts_with_hash
read_jurisdiction_cidrs none = []
read_jurisdiction_cidrs (some contents) =
    map strip (keep_if (λ l. nonempty (strip l) && not (starts_with_hash l)) (file_lines contents))

append_all : List (Str × List Row) → Dir → Dir
append_all [] dir = dir
append_all ((dataset, rows) ∷ more) dir = append_all more (append_ndjson (file_of dataset) rows dir)

-- `_write_pending_outcome`
unfoldable pub write_pending_outcome : ScanRunOutcome → Dir → Dir
unfolding append_all
write_pending_outcome outcome dir = append_all (datasets (add_scan_outcome outcome empty_batch)) dir

-- What the environment gives to `cmd_publish`.
pub record Settings : Type 0 where
  pub client_id : Str
  pub client_secret : Str
  pub jurisdiction_blocklist : Option Str
  pub bogons : List Str

-- The exit code: what the two `except` clauses catch is logged, and any other exception passes.
unfoldable pub exit_code : Raises (Unit {0}) → Raises ℕ
exit_code (ok u) = ok 0
exit_code (raised publish_error) = ok 1
exit_code (raised upload_error) = ok 1
exit_code (raised e) = raised e

-- `datasets` with the snapshot of what is not scanned.
unfoldable pub with_exclusions :
    Settings → List Exclusion → List (Str × List Row) → List (Str × List Row)
with_exclusions s exclusions pending =
    store (codes "exclusions")
      (exclusion_rows exclusions (read_jurisdiction_cidrs s.jurisdiction_blocklist) s.bogons)
      pending

module _ (loads : Str → Option Json) (service : Service) (s : Settings) where
  published : Raises (Unit {0}) × Cycle → Raises ℕ × Cycle
  published (r, c) = (exit_code r, c)

  -- From `store.exclusions.list_all()` on.
  listed : List (Str × List Row) → Cycle → Raises (List Exclusion) → Raises ℕ × Cycle
  unfolding published
  listed pending c (ok exclusions) =
      published (publish_hour service (with_exclusions s exclusions pending) c)
  listed pending c (raised e) = (raised e, c)

  credentials : Bool
  credentials = nonempty s.client_id && nonempty s.client_secret

  read : Raises (List Exclusion) → Cycle → Raises (List (Str × List Row)) → Raises ℕ × Cycle
  unfolding listed credentials
  read exclusions c (ok pending) = if credentials then listed pending c exclusions else (ok 1, c)
  read exclusions c (raised e) = (raised e, c)

  -- `cmd_publish`: the pending files are read before the credentials are checked.
  unfoldable pub cmd_publish : Raises (List Exclusion) → Cycle → Raises ℕ × Cycle
  unfolding read
  cmd_publish exclusions c = read exclusions c (read_pending_datasets loads c.dir)

-- What the loop of `cmd_responsive_refresh` changes: the files, by path, and the failures.
pub record Rebuild : Type 0 where
  pub files : List (Str × Str)
  pub failures : ℕ

put_file : Str → Option Str → List (Str × Str) → List (Str × Str)
put_file path none files = files
put_file path (some contents) files = store path contents files

module _ (path_of : Str → Str) (fetch : Str → Raises (List Host)) where
  count_failure : Bool → Rebuild → Rebuild
  count_failure true r = r
  count_failure false r = record r { failures = r.failures + 1 }

  -- What follows one `refresh_protocol`.
  refreshed : Str → Raises Bool × Option Str → Rebuild → Raises (Unit {0}) × Rebuild
  unfolding count_failure put_file
  refreshed path (ok fine, file) r =
      (ok tt, count_failure fine (record r { files = put_file path file r.files }))
  refreshed path (raised e, file) r = (raised e, r)

  refresh_one : Str → Rebuild → Raises (Unit {0}) × Rebuild
  unfolding refreshed
  refresh_one protocol r =
      let path = path_of protocol in
      refreshed path (refresh_protocol (fetch protocol) (lookup path r.files)) r

  -- An exception ends the loop.
  unless_raised :
      Raises (Unit {0}) → Rebuild → Raises (Unit {0}) × Rebuild → Raises (Unit {0}) × Rebuild
  unless_raised (ok u) now later = later
  unless_raised (raised e) now later = (raised e, now)

  -- The loop over the protocols.
  unfoldable pub refresh_all : List Str → Rebuild → Raises (Unit {0}) × Rebuild
  unfolding refresh_one unless_raised
  refresh_all [] r = (ok tt, r)
  refresh_all (protocol ∷ protocols) r =
      let now = refresh_one protocol r in
      let later = refresh_all protocols now.1 in unless_raised now.0 now.1 later

  refresh_code : Raises (Unit {0}) × Rebuild → Raises ℕ × List (Str × Str)
  refresh_code (ok u, r) = (if nat_eq r.failures 0 then ok 0 else ok 1, r.files)
  refresh_code (raised e, r) = (raised e, r.files)

  -- From where the access token is known or not: any other exception than `ODataError` passes.
  with_token : Raises (Unit {0}) → List Str → List (Str × Str) → Raises ℕ × List (Str × Str)
  unfolding refresh_code
  with_token (raised odata_error) protocols files = (ok 1, files)
  with_token (raised e) protocols files = (raised e, files)
  with_token (ok u) protocols files =
      refresh_code (refresh_all protocols (record { files = files; failures = 0 }))

-- `[args.protocol] if args.protocol else [e.protocol for e in store.schedule.list_enabled()]`
unfoldable pub chosen_protocols : Option Str → List ScheduleEntry → List Str
chosen_protocols none enabled = map (λ (e : ScheduleEntry). e.protocol) enabled
chosen_protocols (some p) enabled =
    if nonempty p then p ∷ [] else map (λ (e : ScheduleEntry). e.protocol) enabled

-- `cmd_responsive_refresh`: `token` is how `fetch_access_token` ends, `fetch` is
-- `fetch_responsive_hosts` with the token that it gave.
unfoldable pub cmd_responsive_refresh :
    (Str → Str)
    → (Str → Raises (List Host))
    → Settings
    → Raises (Unit {0})
    → List Str
    → List (Str × Str)
    → Raises ℕ × List (Str × Str)
unfolding with_token
cmd_responsive_refresh path_of fetch s token protocols files =
    if nonempty s.client_id && nonempty s.client_secret
    then with_token path_of fetch token protocols files
    else (ok 1, files)
