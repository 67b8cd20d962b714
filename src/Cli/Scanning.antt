-- ===== src/Cli/Scanning.antt =====
-- src/ichnos/cli.py: `_rebuild_blocklist`, `cmd_scan` and `cmd_refresh`, with `download_file` of
-- src/ichnos/s3sync.py. Files are a dictionary of their contents by path; the answer of S3 is a parameter.
pub mod Excluded
pub mod Refused
pub mod Untouched
mod Tests
use ichnos.Base.{
  ℕ, zero, suc, ◌+◌, ◌%◌, Str, codes, ◌==◌, nonempty, Bool, true, false, not, ◌&&◌, ◌||◌, List, [],
  ◌∷◌, ◌++◌, map, Option, none, some, if◌then◌else◌, Raises, ok, raised, Error, other,
}
use ichnos.Base.Dict.{lookup, store}
use ichnos.Models.{Exclusion, ScheduleEntry}
use ichnos.Blocklist.{write_blocklist_file}
use ichnos.Blocklist.Layers.{build_blocklist, default_bogons}
use ichnos.Scanner.{Platform, Job, Run}
use ichnos.Scanner.Stream.{Event}
use ichnos.Scanner.Scan.{Command, Surroundings, run_scan_target, run_scan_discovery}
use ichnos.Scanner.Refresh.{Turn, run_refresh_scan}
use ichnos.Responsive.{read_responsive_file, rotate_checked}
use ichnos.Publish.Pending.{Dir}
use ichnos.Cli.{read_jurisdiction_cidrs, write_pending_outcome, put_file}

abbrev pub Files : Type 0
Files = List (Str × Str)

-- What `s3.download_file` does: the object's contents, a `ClientError` with its code, another exception.
pub data S3Answer : Type 0 where
  object : Str → S3Answer
  client_error : Option Str → S3Answer
  failure : Error → S3Answer

is_missing : Option Str → Bool
is_missing none = false
is_missing (some code) = (code == codes "404") || (code == codes "NoSuchKey")

-- `download_file` of s3sync.py
unfoldable pub download_file : S3Answer → Str → Files → Raises Bool × Files
unfolding is_missing store
download_file (object contents) path files = (ok true, store path contents files)
download_file (client_error code) path files =
    if is_missing code then (ok false, files) else (raised other, files)
download_file (failure e) path files = (raised e, files)

-- What S3 answers for an object that is there, or is not.
abbrev pub answer_of : Option Str → S3Answer
answer_of none = client_error (some (codes "404"))
answer_of (some contents) = object contents

-- The paths and the bucket of the settings; `known_responsive_path` by protocol.
pub record Config : Type 0 where
  pub blocklist_path : Str
  pub jurisdiction_blocklist_path : Str
  pub jurisdiction_s3_bucket : Str
  pub known_responsive_path : Str → Str
  pub user_agent : Option Str

-- What the commands use of the outside.
pub record Station : Type 0 where
  pub config : Config
  pub run_command : Command
  pub parse_v6 : Str → Option ℕ
  pub print_v6 : ℕ → Str
  pub s3 : S3Answer

module _ (env : Station) where
  unfoldable pub exists_file : Str → Files → Bool
  exists_file path files = elim (lookup path files) [ none ↦ false | some contents ↦ true ]

  -- The jurisdiction list of an instance that has none.
  unfoldable pub pull_jurisdiction : Files → Raises Bool × Files
  unfolding download_file exists_file lookup
  pull_jurisdiction files =
      let path = env.config.jurisdiction_blocklist_path in
      if not (exists_file path files) && nonempty env.config.jurisdiction_s3_bucket
      then download_file env.s3 path files
      else (ok false, files)

  write_built : Raises (List Str) → Files → Raises (Unit {0}) × Files
  unfolding write_blocklist_file store
  write_built (ok cidrs) files =
      (ok tt, store env.config.blocklist_path (write_blocklist_file cidrs) files)
  write_built (raised e) files = (raised e, files)

  -- From `store.exclusions.list_all()` on.
  merge_layers : Raises (List Exclusion) → List Str → Files → Raises (Unit {0}) × Files
  unfolding write_built build_blocklist lookup read_jurisdiction_cidrs
  merge_layers (raised e) extra files = (raised e, files)
  merge_layers (ok exclusions) extra files =
      write_built
        (build_blocklist env.parse_v6 env.print_v6
          (map (λ (e : Exclusion). e.ip_or_cidr) exclusions ++ extra)
          (read_jurisdiction_cidrs (lookup env.config.jurisdiction_blocklist_path files))
          default_bogons)
        files

  unless_failed :
      Raises (List Exclusion) → List Str → Raises Bool × Files → Raises (Unit {0}) × Files
  unfolding merge_layers
  unless_failed exclusions extra (ok found, files) = merge_layers exclusions extra files
  unless_failed exclusions extra (raised e, files) = (raised e, files)

  -- `_rebuild_blocklist`
  unfoldable pub rebuild_blocklist :
      Raises (List Exclusion) → List Str → Files → Raises (Unit {0}) × Files
  unfolding unless_failed pull_jurisdiction
  rebuild_blocklist exclusions extra files =
      unless_failed exclusions extra (pull_jurisdiction files)

  unfoldable pub surroundings : Files → Surroundings
  unfolding lookup
  surroundings files = record {
    run_command = env.run_command;
    parse_v6 = env.parse_v6;
    blocklist_path = env.config.blocklist_path;
    blocklist = lookup env.config.blocklist_path files;
    user_agent = env.config.user_agent;
  }

unfoldable pub job_of : Str → Str → ScheduleEntry → Job
job_of scan_id protocol entry = record {
  scan_id = scan_id;
  protocol = protocol;
  port = entry.port;
  zgrab2_module = entry.zgrab2_module;
}

-- One target, or what the discovery pipeline reports for a number of candidates.
pub data Mode : Type 0 where
  target : Str → Mode
  discovery : ℕ → List Event → Bool → Mode

module _ (P : Platform) where
  -- What a command changes: the files, the pending rows, the claimed fingerprints, the clock's readings.
  pub record Machine : Type 0 where
    pub files : Files
    pub pending : Dir
    pub state : P.index.State
    pub ticks : ℕ

  module _ (env : Station) where
    unfoldable pub run_mode : Job → ℕ → Mode → Machine → Raises (Unit {0}) × Run P
    unfolding surroundings run_scan_target run_scan_discovery
    run_mode job seed (target ip) m =
        run_scan_target P job (surroundings env m.files) (some seed) ip m.state m.ticks
    run_mode job seed (discovery candidates events exited_cleanly) m = (
      ok tt,
      run_scan_discovery P job (surroundings env m.files) seed candidates events exited_cleanly
          m.state m.ticks,
    )

    -- The rows of a run that has not raised become pending.
    after_run : Raises (Unit {0}) × Run P → Machine → Raises ℕ × Machine
    unfolding write_pending_outcome
    after_run (ok u, w) m = (
      ok 0,
      record m {
        pending = write_pending_outcome w.outcome m.pending;
        state = w.state;
        ticks = w.ticks;
      },
    )
    after_run (raised e, w) m = (raised e, record m { state = w.state; ticks = w.ticks })

    scan_rebuilt : Job → ℕ → Mode → Machine → Raises (Unit {0}) × Files → Raises ℕ × Machine
    unfolding run_mode after_run
    scan_rebuilt job seed mode m (ok u, files) =
        after_run (run_mode job seed mode (record m { files = files })) (record m { files = files })
    scan_rebuilt job seed mode m (raised e, files) = (raised e, record m { files = files })

    -- `cmd_scan`: `seed` is the option, or else what the clock and the protocol's salt give; `entry` is what `store.schedule.get` returns.
    unfoldable pub cmd_scan :
        Str
        → Str
        → ℕ
        → Mode
        → Option ScheduleEntry
        → Raises (List Exclusion)
        → Machine
        → Raises ℕ × Machine
    unfolding scan_rebuilt rebuild_blocklist job_of read_responsive_file lookup
    cmd_scan scan_id protocol seed mode none exclusions m = (ok 1, m)
    cmd_scan scan_id protocol seed mode (some entry) exclusions m =
        let known =
          read_responsive_file (lookup (env.config.known_responsive_path protocol) m.files) in
        if entry.enabled
        then scan_rebuilt (job_of scan_id protocol entry) seed mode m
            (rebuild_blocklist env exclusions known m.files)
        else (ok 1, m)

    -- The cursor goes on by the hosts that were attempted.
    rotate_file : Str → ℕ → Str → Files → Files
    unfolding put_file rotate_checked lookup
    rotate_file path covered stamp files =
        put_file path (rotate_checked covered stamp (lookup path files)) files

    refreshed_run : Str → Str → Raises (Unit {0}) × Run P → Machine → Raises ℕ × Machine
    unfolding after_run rotate_file
    refreshed_run path stamp (ok u, w) m = (
      ok 0,
      record (after_run (ok u, w) m).1 {
        files = rotate_file path w.outcome.metadata.targets_attempted stamp m.files;
      },
    )
    refreshed_run path stamp (raised e, w) m = after_run (raised e, w) m

    refresh_rebuilt :
        Job
        → Str
        → Str
        → ℕ
        → Option ℕ
        → List Turn
        → Machine
        → Raises (Unit {0}) × Files
        → Raises ℕ × Machine
    unfolding refreshed_run run_refresh_scan surroundings read_responsive_file lookup
    refresh_rebuilt job path stamp start budget turns m (ok u, files) =
        refreshed_run path stamp
          (run_refresh_scan P job (surroundings env files)
            (read_responsive_file (lookup path files)) start budget turns m.state m.ticks)
          (record m { files = files })
    refresh_rebuilt job path stamp start budget turns m (raised e, files) =
        (raised e, record m { files = files })

    -- `cmd_refresh`; `stamp` is the time that the cursor notes.
    unfoldable pub cmd_refresh :
        Str
        → Str
        → Str
        → ℕ
        → Option ℕ
        → List Turn
        → Option ScheduleEntry
        → Raises (List Exclusion)
        → Machine
        → Raises ℕ × Machine
    unfolding refresh_rebuilt rebuild_blocklist job_of
    cmd_refresh scan_id protocol stamp start budget turns none exclusions m = (ok 1, m)
    cmd_refresh scan_id protocol stamp start budget turns (some entry) exclusions m =
        if entry.enabled
        then refresh_rebuilt (job_of scan_id protocol entry)
            (env.config.known_responsive_path protocol) stamp start budget turns m
            (rebuild_blocklist env exclusions [] m.files)
        else (ok 1, m)
