-- ===== src/Cli/Scanning/Refused.antt =====
-- Hosts that a layer lists are not contacted by `cmd_scan` and `cmd_refresh`.
use ichnos.Base.{
  ℕ, Str, codes, Bool, true, false, List, [], any, All, All-map, Option, none, some, Raises, ok,
  raised, ◌≡◌, refl, sym, ap, ◌∙◌,
}
use ichnos.Base.Dict.{lookup}
use ichnos.Models.{Exclusion, ScheduleEntry}
use ichnos.Blocklist.{Address, ip_address, is_blocked, read_blocklist_file}
use ichnos.Blocklist.Layers.{networks}
use ichnos.Blocklist.Layers.Listed.{is_v6, listed}
use ichnos.Scanner.{Platform, Job}
use ichnos.Scanner.Scan.{Command, Surroundings, begin_run, attempt_one, end_run, run_scan_target}
use ichnos.Scanner.Refresh.{Turn, run_turns, begin_loop}
use ichnos.Scanner.Refresh.Covered.{turns-IsCovering}
use ichnos.Responsive.{read_responsive_file}
use ichnos.Cli.Scanning.{
  Files, Station, pull_jurisdiction, unless_failed, merge_layers, write_built, rebuild_blocklist,
  surroundings, target, Machine, job_of, run_mode, after_run, scan_rebuilt, cmd_scan,
}
use ichnos.Cli.Scanning.Excluded.{layers, rebuild_blocklist-listed}

module _ (P : Platform) where
  refused_target :
      (job : Job) (out : Surroundings) (seed : Option ℕ) (ip : Str) (s : P.index.State) (t : ℕ)
      → is_blocked out.parse_v6 ip (read_blocklist_file out.blocklist) ≡ ok true
      → run_scan_target P job out seed ip s t ≡ (
        ok tt,
        end_run P job out
            (codes "completed")
            (attempt_one P job out (begin_run P job out seed s t)),
      )
  unfolding run_scan_target
  refused_target job out seed ip s t h = rw h refl

  -- The effect of a run that refuses its target.
  refused : (env : Station) → Job → ℕ → Files → Machine P → Raises ℕ × Machine P
  refused env job seed files m =
      let m' = record m { files = files } in
      let out = surroundings env files in
      after_run P env
        (
          ok tt,
          end_run P job out (codes "completed")
              (attempt_one P job out (begin_run P job out (some seed) m.state m.ticks)),
        )
        m'

  refused_by :
      (env : Station) (job : Job) (seed : ℕ) (ip : Str) (m : Machine P)
      (r : Raises (Unit {0}) × Files)
      → r.0 ≡ ok tt
      → is_blocked env.parse_v6 ip (read_blocklist_file (lookup env.config.blocklist_path r.1))
        ≡ ok true
      → scan_rebuilt P env job seed (target ip) m r ≡ refused env job seed r.1 m
  unfolding scan_rebuilt run_mode refused surroundings
  refused_by env job seed ip m (ok u, files) h k =
      ap (λ w. after_run P env w (record m { files = files }))
        (refused_target job (surroundings env files) (some seed) ip m.state m.ticks k)
  refused_by env job seed ip m (raised e, files) h k = cc

  -- The hosts that the nightly list of a protocol names.
  abbrev pub known_hosts : Station → Str → Files → List Str
  known_hosts env protocol files =
      read_responsive_file (lookup (env.config.known_responsive_path protocol) files)

  module _ (env : Station) (protocol : Str) (exclusions : List Exclusion) (m : Machine P)
      (pulled : Files) (found : Bool)
      (available : pull_jurisdiction env m.files ≡ (ok found, pulled))
      (one_version : any is_v6
          (networks env.parse_v6 (layers env exclusions (known_hosts env protocol m.files) pulled))
        ≡ false) where
    rebuilt_files : Files
    rebuilt_files =
        (rebuild_blocklist env (ok exclusions) (known_hosts env protocol m.files) m.files).1

    scan-refused :
        (scan_id : Str) (seed : ℕ) (entry : ScheduleEntry) (ip : Str) (x : Address)
        → entry.enabled ≡ true
        → ip_address env.parse_v6 ip ≡ some x
        → any
            (listed env.parse_v6 x)
            (layers env exclusions (known_hosts env protocol m.files) pulled)
          ≡ true
        → cmd_scan P env scan_id protocol seed (target ip) (some entry) (ok exclusions) m
          ≡ refused env (job_of scan_id protocol entry) seed rebuilt_files m
    unfolding cmd_scan scan_rebuilt run_mode refused rebuilt_files surroundings
    scan-refused scan_id seed entry ip x on e h =
        let (done, blocked) =
          rebuild_blocklist-listed env exclusions (known_hosts env protocol m.files) m.files pulled
            found available one_version ip x e in
        rw (cmd_scan, on)
          (refused_by env (job_of scan_id protocol entry) seed ip m
            (rebuild_blocklist env (ok exclusions) (known_hosts env protocol m.files) m.files) done
            (blocked ∙ ap ok h))

  -- Where the layers can be built, `cmd_scan --target` of an address that some layer lists returns 0 and
  -- claims no fingerprint, and nothing of its effect depends on what the command lines that it could run
  -- would print. The hosts of the protocol's nightly list count as entries of the opt-out layer.
  pub cmd_scan-refused :
      (env : Station) (protocol : Str) (exclusions : List Exclusion) (m : Machine P)
      (pulled : Files) (found : Bool)
      → pull_jurisdiction env m.files ≡ (ok found, pulled)
      → any is_v6
          (networks env.parse_v6 (layers env exclusions (known_hosts env protocol m.files) pulled))
        ≡ false
      → (scan_id : Str) (seed : ℕ) (entry : ScheduleEntry) (ip : Str) (x : Address)
      → entry.enabled ≡ true
      → ip_address env.parse_v6 ip ≡ some x
      → any
          (listed env.parse_v6 x)
          (layers env exclusions (known_hosts env protocol m.files) pulled)
        ≡ true
      → ((cmd_scan P env scan_id protocol seed (target ip) (some entry) (ok exclusions) m).0 ≡ ok 0)
        × ((cmd_scan P env scan_id protocol seed (target ip) (some entry) (ok exclusions) m).1.state
            ≡ m.state)
        × ((run : Command)
            → cmd_scan P
                (record env { run_command = run })
                scan_id
                protocol
                seed
                (target ip)
                (some entry)
                (ok exclusions)
                m
              ≡ cmd_scan P env scan_id protocol seed (target ip) (some entry) (ok exclusions) m)
  unfolding refused rebuilt_files rebuild_blocklist unless_failed merge_layers write_built
      pull_jurisdiction after_run end_run attempt_one begin_run
  cmd_scan-refused env protocol exclusions m pulled found available one_version scan_id seed entry
        ip x on e h =
      let same =
        scan-refused env protocol exclusions m pulled found available one_version scan_id seed entry
          ip x on e h in
      (
        ap (λ r. r.0) same,
        ap (λ r. r.1.state) same,
        λ run.
            scan-refused (record env { run_command = run }) protocol exclusions m pulled found
              available one_version scan_id seed entry ip x on e h
            ∙ sym same,
      )

  unlisted : (b : Bool) (r : Raises Bool) → r ≡ ok b → r ≡ ok false → b ≡ false
  unlisted true r h k = cc
  unlisted false r h k = refl

  -- Where the layers can be built: in the loop of `run_refresh_scan` with the block list file and the known
  -- hosts of `cmd_refresh`, whatever the two threads do and whatever the deadline, no host that is handed to
  -- ZGrab2 is an address that a layer lists - a built-in range, an opt-out or the jurisdiction list.
  pub refresh_unlisted :
      (env : Station) (protocol : Str) (exclusions : List Exclusion) (files pulled : Files)
      (found : Bool)
      → pull_jurisdiction env files ≡ (ok found, pulled)
      → any is_v6 (networks env.parse_v6 (layers env exclusions [] pulled)) ≡ false
      → (job : Job) (deadline : Option ℕ) (turns : List Turn) (s : P.index.State) (t : ℕ)
      → let out = surroundings env (rebuild_blocklist env (ok exclusions) [] files).1 in
        All
          (λ ip.
            (x : Address)
            → ip_address env.parse_v6 ip ≡ some x
            → any (listed env.parse_v6 x) (layers env exclusions [] pulled) ≡ false)
          (run_turns P job out (read_blocklist_file out.blocklist) deadline turns (
            begin_loop P job out
              (known_hosts env protocol (rebuild_blocklist env (ok exclusions) [] files).1)
              (begin_run P job out none s t))).handed
  unfolding surroundings
  refresh_unlisted env protocol exclusions files pulled found available one_version job deadline
        turns s t =
      let after = (rebuild_blocklist env (ok exclusions) [] files).1 in
      let out = surroundings env after in
      let covering =
        turns-IsCovering P job out (read_blocklist_file out.blocklist)
          (known_hosts env protocol after) deadline turns s t in
      All-map _ _ _
        (λ ip free x e.
          unlisted _ _
            (rebuild_blocklist-listed env exclusions [] files pulled found available one_version ip
              x e).1
            free)
        covering.allowed
