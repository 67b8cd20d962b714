-- ===== src/Cli/Scanning/Tests.antt =====
-- A station with an opt-out, a jurisdiction list in S3 and a nightly list of one known host.
use ichnos.Base.{
  raised, other, ℕ, Str, codes, strip, str_eq, words_of, file_lines, true, false, [], ◌∷◌, ◌++◌,
  any, All, none, some, ok, ◌≡◌, refl,
}
use ichnos.Base.Decimal.{decimal}
use ichnos.Base.Dict.{lookup}
use ichnos.Models.{Datetime, Exclusion, self_serve, ScheduleEntry}
use ichnos.Storage.Memory.{memory_index}
use ichnos.Blocklist.{within, v4, Address, ip_address, is_blocked, read_blocklist_file}
use ichnos.Blocklist.Layers.{networks}
use ichnos.Blocklist.Layers.Listed.{listed}
use ichnos.Scanner.{Platform, Job}
use ichnos.Scanner.Scan.{Command, begin_run}
use ichnos.Scanner.Refresh.{round, run_turns, begin_loop}
use ichnos.Responsive.{read_responsive_file}
use ichnos.Cli.{read_jurisdiction_cidrs}
use ichnos.Cli.Scanning.{
  Files, object, Station, pull_jurisdiction, rebuild_blocklist, surroundings, target, Machine,
  cmd_scan, cmd_refresh,
}
use ichnos.Cli.Scanning.Excluded.{layers, rebuild_blocklist-listed}
use ichnos.Cli.Scanning.Untouched.{Untouched, cmd_refresh_failure}
use ichnos.Cli.Scanning.Refused.{known_hosts, cmd_scan-refused, refresh_unlisted}

abbrev morning : ℕ → Datetime
morning n = record {
  year = 2026;
  month = 3;
  day = 4;
  hour = 6;
  minute = 0;
  second = n;
  microsecond = 0;
}

abbrev platform : Platform
platform = record {
  index = memory_index;
  clock = morning;
  normalize = λ m r. ok r;
  sha256 = λ s. s;
  loads = λ s. none;
}

abbrev jurisdiction_text : Str
jurisdiction_text = codes "1.0.16.0/20" ++ (10 ∷ [])

abbrev env : Station
env = record {
  config = record {
    blocklist_path = codes "blocklist.conf";
    jurisdiction_blocklist_path = codes "jurisdiction.conf";
    jurisdiction_s3_bucket = codes "bucket";
    known_responsive_path = λ p. p;
    user_agent = none;
  };
  run_command = λ args input. [];
  parse_v6 = λ s. none;
  print_v6 = λ n. decimal n;
  s3 = object jurisdiction_text;
}

abbrev opt_out : Exclusion
opt_out = record {
  ip_or_cidr = codes "198.51.99.0/24";
  source = self_serve;
  requested_at = morning 0;
  reason = none;
  requester_ip = none;
}

abbrev ssh : ScheduleEntry
ssh = record {
  protocol = codes "ssh";
  port = 22;
  zgrab2_module = codes "ssh";
  enabled = true;
  cadence = codes "hourly";
  rate_share = codes "1.0";
}

abbrev job : Job
job = record { scan_id = codes "s"; protocol = codes "ssh"; port = 22; zgrab2_module = codes "ssh" }

abbrev files : Files
files = (codes "ssh", codes "8.8.8.8" ++ (10 ∷ [])) ∷ []

abbrev pulled : Files
pulled = files ++ ((codes "jurisdiction.conf", jurisdiction_text) ∷ [])

abbrev machine : Machine platform
machine = record { files = files; pending = []; state = []; ticks = 0 }

rebuild_blocklist-listed_example :
    ((rebuild_blocklist env (ok (opt_out ∷ [])) [] files).0 ≡ ok tt)
    × (is_blocked env.parse_v6 (codes "1.0.17.9") (
          read_blocklist_file (
            lookup env.config.blocklist_path
              (rebuild_blocklist env (ok (opt_out ∷ [])) [] files).1))
        ≡ ok (any (listed env.parse_v6 (v4 16781577)) (layers env (opt_out ∷ []) [] pulled)))
unfolding pull_jurisdiction networks ip_address str_eq strip read_jurisdiction_cidrs file_lines
rebuild_blocklist-listed_example =
    rebuild_blocklist-listed env (opt_out ∷ []) [] files pulled true refl refl (codes "1.0.17.9")
      (v4 16781577) refl

cmd_scan-refused_example :
    ((cmd_scan platform env
        (codes "s")
        (codes "ssh")
        1
        (target (codes "8.8.8.8"))
        (some ssh)
        (ok (opt_out ∷ []))
        machine).0
      ≡ ok 0)
    × ((cmd_scan platform env
          (codes "s")
          (codes "ssh")
          1
          (target (codes "8.8.8.8"))
          (some ssh)
          (ok (opt_out ∷ []))
          machine).1.state
        ≡ [])
    × ((run : Command)
        → cmd_scan platform
            (record env { run_command = run })
            (codes "s")
            (codes "ssh")
            1
            (target (codes "8.8.8.8"))
            (some ssh)
            (ok (opt_out ∷ []))
            machine
          ≡ cmd_scan platform env
              (codes "s")
              (codes "ssh")
              1
              (target (codes "8.8.8.8"))
              (some ssh)
              (ok (opt_out ∷ []))
              machine)
unfolding pull_jurisdiction networks ip_address listed read_responsive_file str_eq strip file_lines
    words_of read_jurisdiction_cidrs within
cmd_scan-refused_example =
    cmd_scan-refused platform env (codes "ssh") (opt_out ∷ []) machine pulled true refl refl
      (codes "s") 1 ssh (codes "8.8.8.8") (v4 134744072) refl refl refl

abbrev out_after : Files
out_after = (rebuild_blocklist env (ok (opt_out ∷ [])) [] files).1

refresh_unlisted_example :
    All
      (λ ip.
        (x : Address)
        → ip_address env.parse_v6 ip ≡ some x
        → any (listed env.parse_v6 x) (layers env (opt_out ∷ []) [] pulled) ≡ false)
      (run_turns platform job
        (surroundings env out_after)
        (read_blocklist_file (surroundings env out_after).blocklist)
        none
        (round 0 ∷ [])
        (begin_loop platform job
          (surroundings env out_after)
          (known_hosts platform env (codes "ssh") out_after)
          (begin_run platform job (surroundings env out_after) none [] 0))).handed
unfolding pull_jurisdiction networks str_eq strip read_jurisdiction_cidrs file_lines
refresh_unlisted_example =
    refresh_unlisted platform env (codes "ssh") (opt_out ∷ []) files pulled true refl refl job none
      (round 0 ∷ []) [] 0

failed_refresh :
    (cmd_refresh platform env
      (codes "s")
      (codes "ssh")
      (codes "2026")
      0
      none
      (round 0 ∷ [])
      (some ssh)
      (raised other)
      machine).0
    ≡ raised other
unfolding cmd_refresh str_eq
failed_refresh = refl

cmd_refresh_failure_example :
    Untouched platform
      (codes "ssh")
      machine
      (cmd_refresh platform env
        (codes "s")
        (codes "ssh")
        (codes "2026")
        0
        none
        (round 0 ∷ [])
        (some ssh)
        (raised other)
        machine).1
unfolding str_eq
cmd_refresh_failure_example =
    cmd_refresh_failure platform env (codes "s") (codes "ssh") (codes "2026") 0 none (round 0 ∷ [])
      (some ssh) (raised other) machine other refl refl failed_refresh
