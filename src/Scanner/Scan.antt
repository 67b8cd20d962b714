-- ===== src/Scanner/Scan.antt =====
-- src/ichnos/scanner.py: `grab_one`, `_grab_and_record` and `run_scan`.
-- `run_command` gives the standard output of a command line on a standard input.
pub mod Outcome
pub mod Once
use ichnos.Base.{
  ℕ, zero, suc, ◌+◌, Str, codes, ◌==◌, strip, nonempty, leb, nat_eq, Bool, true, false, ◌&&◌, ◌||◌,
  List, [], ◌∷◌, ◌++◌, Option, none, some, if◌then◌else◌, Raises, ok, raised, attribute_error,
  ◌>>=◌,
}
use ichnos.Json.{Json, obj, Fields}
use ichnos.Base.Decimal.{decimal}
use ichnos.Models.{Datetime, ScanMetadataRecord}
use ichnos.Blocklist.{is_blocked, read_blocklist_file}
use ichnos.Scanner.{
  Platform, Job, World, Run, ScanRunOutcome, tick, record_grab_result, successful_module_result,
}
use ichnos.Scanner.Stream.{Event, stream_discover_and_grab}

-- The line boundaries of `str.splitlines`.
is_boundary : ℕ → Bool
is_boundary c =
    (leb 10 c && leb c 13)
    || (leb 28 c && leb c 30)
    || nat_eq c 133
    || nat_eq c 8232
    || nat_eq c 8233

-- `s.splitlines()[0]` of a text that is not empty.
unfoldable pub first_line : Str → Str
unfolding is_boundary
first_line [] = []
first_line (c ∷ s) = if is_boundary c then [] else c ∷ first_line s

-- `_user_agent_args`
unfoldable pub user_agent_args : Str → Option Str → List Str
user_agent_args m none = []
user_agent_args m (some agent) =
    if nonempty agent && (m == codes "http") then codes "--user-agent" ∷ agent ∷ [] else []

abbrev pub Command : Type 0
Command = List Str → Str → Str

-- Everything of a run that comes from outside the worker.
pub record Surroundings : Type 0 where
  pub run_command : Command
  pub parse_v6 : Str → Option ℕ
  pub blocklist_path : Str
  -- the contents of the file there
  pub blocklist : Option Str
  pub user_agent : Option Str

module _ (P : Platform) (job : Job) (out : Surroundings) where
  parsed_result : Option Json → Raises (Option Fields)
  parsed_result none = ok none
  parsed_result (some (obj r)) = successful_module_result r job.zgrab2_module
  parsed_result (some v) = raised attribute_error

  -- `grab_one`
  unfoldable pub grab_one : Str → Raises (Option Fields)
  unfolding parsed_result first_line user_agent_args
  grab_one ip =
      let cmd =
        (codes "zgrab2"
          ∷ job.zgrab2_module
          ∷ codes "--port"
          ∷ decimal job.port
          ∷ codes "--blocklist-file"
          ∷ out.blocklist_path
          ∷ [])
        ++ user_agent_args job.zgrab2_module out.user_agent in
      let output = strip (out.run_command cmd (ip ++ (10 ∷ []))) in
      if nonempty (first_line output) then parsed_result (P.loads (first_line output)) else ok none

  settled : Str → Run P → Raises (Option Fields) → Raises (Unit {0}) × Run P
  settled ip w (ok m) = record_grab_result P job m ip w
  settled ip w (raised e) = (raised e, w)

  -- `_grab_and_record`; an exception of the grab, or of the claim, passes through.
  unfoldable pub grab_and_record : Str → Run P → Raises (Unit {0}) × Run P
  unfolding settled
  grab_and_record ip w = settled ip w (grab_one ip)

  -- `ScanRunOutcome(metadata=ScanMetadataRecord(...))`, after the first reading of the clock.
  unfoldable pub begin_run : Option ℕ → P.index.State → ℕ → Run P
  begin_run seed s t = record {
    outcome = record {
      metadata = record {
        scan_id = job.scan_id;
        protocol = job.protocol;
        started_at = P.clock t;
        ended_at = none;
        targets_attempted = 0;
        hosts_responsive = 0;
        status = codes "running";
        seed = seed;
        software_versions = [];
        commit_id = none;
        rows_written = none;
      };
      observations = [];
      new_versions = [];
    };
    state = s;
    ticks = t + 1;
  }

  unfoldable pub attempt_one : Run P → Run P
  attempt_one w = record w {
    outcome = record w.outcome {
      metadata = record w.outcome.metadata {
        targets_attempted = w.outcome.metadata.targets_attempted + 1;
      };
    };
  }

  -- `metadata.ended_at = clock()` and the status.
  unfoldable pub end_run : Str → Run P → Run P
  end_run status w = record w {
    outcome = record w.outcome {
      metadata = record w.outcome.metadata { ended_at = some (P.clock w.ticks); status = status };
    };
    ticks = w.ticks + 1;
  }

  target_grabbed : Raises (Unit {0}) × Run P → Raises (Unit {0}) × Run P
  unfolding end_run
  target_grabbed (ok _, w) = (ok tt, end_run (codes "completed") w)
  target_grabbed (raised e, w) = (raised e, w)

  target_checked : Str → Raises Bool → Run P → Raises (Unit {0}) × Run P
  unfolding attempt_one target_grabbed end_run
  target_checked ip (raised e) w = (raised e, w)
  target_checked ip (ok true) w = (ok tt, end_run (codes "completed") (attempt_one w))
  target_checked ip (ok false) w = target_grabbed (grab_and_record ip (attempt_one w))

  -- `run_scan` with `target_ip`: the wait for the rate limiter only takes time.
  unfoldable pub run_scan_target : Option ℕ → Str → P.index.State → ℕ → Raises (Unit {0}) × Run P
  unfolding target_checked begin_run
  run_scan_target seed ip s t =
      target_checked ip (is_blocked out.parse_v6 ip (read_blocklist_file out.blocklist))
        (begin_run seed s t)

  -- The status at the end: a failure that the discovery noted stays.
  final_status : Run P → Str
  final_status w =
      if w.outcome.metadata.status == codes "failed" then codes "failed" else codes "completed"

  -- `run_scan` without `target_ip`
  unfoldable pub run_scan_discovery : ℕ → ℕ → List Event → Bool → P.index.State → ℕ → Run P
  unfolding begin_run final_status end_run
  run_scan_discovery seed candidate_count events exited_cleanly s t =
      let w =
        stream_discover_and_grab P job candidate_count events exited_cleanly
          (begin_run (some seed) s t) in
      end_run (final_status w) w
