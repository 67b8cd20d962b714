-- ===== src/Cli/Scanning/Untouched.antt =====
-- What `cmd_refresh` leaves alone where it fails.
use ichnos.Base.{
  ℕ, Str, ◌==◌, Bool, false, not, ◌&&◌, List, [], Option, none, some, Bool-cases, inl, inr, Raises,
  ok, raised, Error, ◌≡◌, refl, ◌∙◌, nonempty,
}
use ichnos.Base.Dict.{lookup, store, lookup-store}
use ichnos.Models.{Exclusion, ScheduleEntry}
use ichnos.Scanner.{Platform, Job, Run}
use ichnos.Scanner.Refresh.{Turn}
use ichnos.Cli.Scanning.{
  Files, S3Answer, object, client_error, failure, Station, is_missing, download_file, exists_file,
  pull_jurisdiction, write_built, merge_layers, unless_failed, rebuild_blocklist, Machine,
  after_run, refreshed_run, refresh_rebuilt, cmd_refresh, job_of,
}

-- The pending rows and the file at the path are as they were.
abbrev pub Untouched : (P : Platform) → Str → Machine P → Machine P → Type 0
Untouched P path m m' = (m'.pending ≡ m.pending) × (lookup path m'.files ≡ lookup path m.files)

stored_elsewhere :
    (path p contents : Str) (files : Files)
    → (p == path) ≡ false
    → lookup path (store p contents files) ≡ lookup path files
stored_elsewhere path p contents files h = rw (lookup-store p path contents files, h) refl

module _ (env : Station) (path : Str) (apart : (env.config.blocklist_path == path) ≡ false)
    (away : (env.config.jurisdiction_blocklist_path == path) ≡ false) where
  same-download_file :
      (a : S3Answer) (files : Files)
      → lookup path (download_file a env.config.jurisdiction_blocklist_path files).1
        ≡ lookup path files
  unfolding download_file
  same-download_file (object contents) files =
      stored_elsewhere path env.config.jurisdiction_blocklist_path contents files away
  same-download_file (client_error code) files = elim (Bool-cases (is_missing code)) [
    | inl e ↦ rw (download_file, e) refl
    | inr e ↦ rw (download_file, e) refl
  ]
  same-download_file (failure e) files = refl

  same-pull_jurisdiction :
      (files : Files) → lookup path (pull_jurisdiction env files).1 ≡ lookup path files
  unfolding pull_jurisdiction
  same-pull_jurisdiction files =
      elim (Bool-cases (
        not (exists_file env env.config.jurisdiction_blocklist_path files)
        && nonempty env.config.jurisdiction_s3_bucket)) [
          | inl e ↦ rw (pull_jurisdiction, e) (same-download_file env.s3 files)
          | inr e ↦ rw (pull_jurisdiction, e) refl
        ]

  same-write_built :
      (r : Raises (List Str)) (files : Files)
      → lookup path (write_built env r files).1 ≡ lookup path files
  unfolding write_built
  same-write_built (ok cidrs) files = stored_elsewhere path env.config.blocklist_path _ files apart
  same-write_built (raised e) files = refl

  same-merge_layers :
      (es : Raises (List Exclusion)) (extra : List Str) (files : Files)
      → lookup path (merge_layers env es extra files).1 ≡ lookup path files
  unfolding merge_layers
  same-merge_layers (ok es) extra files = same-write_built _ files
  same-merge_layers (raised e) extra files = refl

  same-unless_failed :
      (es : Raises (List Exclusion)) (extra : List Str) (p : Raises Bool × Files)
      → lookup path (unless_failed env es extra p).1 ≡ lookup path p.1
  unfolding unless_failed
  same-unless_failed es extra (ok found, files) = same-merge_layers es extra files
  same-unless_failed es extra (raised e, files) = refl

  same-rebuild_blocklist :
      (es : Raises (List Exclusion)) (extra : List Str) (files : Files)
      → lookup path (rebuild_blocklist env es extra files).1 ≡ lookup path files
  unfolding rebuild_blocklist
  same-rebuild_blocklist es extra files =
      same-unless_failed es extra (pull_jurisdiction env files) ∙ same-pull_jurisdiction files

  module _ (P : Platform) where
    run-Untouched :
        (stamp : Str) (e : Error) (m before : Machine P) (r : Raises (Unit {0}) × Run P)
        → (refreshed_run P env path stamp r m).0 ≡ raised e
        → Untouched P path before m
        → Untouched P path before (refreshed_run P env path stamp r m).1
    unfolding refreshed_run after_run
    run-Untouched stamp e m before (ok u, w) h k = cc
    run-Untouched stamp e m before (raised x, w) h k = k

    rebuilt-Untouched :
        (job : Job) (stamp : Str) (start : ℕ) (budget : Option ℕ) (turns : List Turn) (e : Error)
        (m : Machine P) (r : Raises (Unit {0}) × Files)
        → lookup path r.1 ≡ lookup path m.files
        → (refresh_rebuilt P env job path stamp start budget turns m r).0 ≡ raised e
        → Untouched P path m (refresh_rebuilt P env job path stamp start budget turns m r).1
    unfolding refresh_rebuilt
    rebuilt-Untouched job stamp start budget turns e m (ok u, files) same h =
        run-Untouched stamp e (record m { files = files }) m _ h (refl, same)
    rebuilt-Untouched job stamp start budget turns e m (raised x, files) same h = (refl, same)

-- Whatever exception `cmd_refresh` ends with - from S3, the exclusion table, the merging of the block list or the
-- run - the pending rows are as they were, and so is the protocol's list of known hosts, where its path is
-- not that of another list: the cursor has not moved.
pub cmd_refresh_failure :
    (P : Platform) (env : Station) (scan_id protocol stamp : Str) (start : ℕ) (budget : Option ℕ)
    (turns : List Turn) (entry : Option ScheduleEntry) (exclusions : Raises (List Exclusion))
    (m : Machine P) (e : Error)
    → (env.config.blocklist_path == env.config.known_responsive_path protocol) ≡ false
    → (env.config.jurisdiction_blocklist_path == env.config.known_responsive_path protocol) ≡ false
    → (cmd_refresh P env scan_id protocol stamp start budget turns entry exclusions m).0 ≡ raised e
    → Untouched P
        (env.config.known_responsive_path protocol)
        m
        (cmd_refresh P env scan_id protocol stamp start budget turns entry exclusions m).1
unfolding cmd_refresh
cmd_refresh_failure P env scan_id protocol stamp start budget turns none exclusions m e apart away
      h =
    (refl, refl)
cmd_refresh_failure P env scan_id protocol stamp start budget turns (some entry) exclusions m e
      apart away h =
    let path = env.config.known_responsive_path protocol in
    elim (Bool-cases entry.enabled) [
      | inl on ↦
          rw (cmd_refresh, on)
            (rebuilt-Untouched env path apart away P (job_of scan_id protocol entry) stamp start
              budget turns e m (rebuild_blocklist env exclusions [] m.files)
              (same-rebuild_blocklist env path apart away exclusions [] m.files)
              (rw (cmd_refresh, on) at h))
      | inr off ↦ rw (cmd_refresh, off) (refl, refl)
    ]
