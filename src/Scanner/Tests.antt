-- ===== src/Scanner/Tests.antt =====
-- A concrete run: a platform on the in-memory index, and a host that answers.
use ichnos.Base.{
  ℕ, Str, codes, contains, strip, nonempty, true, false, List, [], ◌∷◌, ◌++◌, Option, none, some,
  if◌then◌else◌, ok, All, split, ◌==◌, ◌≡◌, refl, str_eq, file_lines, str_le,
}
use ichnos.Base.Sort.{sorted}
use ichnos.Json.{Json, null, text, obj, Fields, end, field, get}
use ichnos.Json.Print.{dumps, compact_style}
use ichnos.Models.{Datetime, Observation}
use ichnos.Storage.Memory.{memory_index, claim_memory}
use ichnos.Fingerprint.{fingerprint_id}
use ichnos.Blocklist.{is_blocked, read_blocklist_file}
use ichnos.Scanner.{Platform, Job, Run, record_grab_result, successful_module_result}
use ichnos.Scanner.Record.{observed}
use ichnos.Scanner.Consistent.{IsConsistent, count_answered, fingerprints}
use ichnos.Scanner.Consistent.Kept.{record-IsConsistent}
use ichnos.Scanner.Stream.{
  Event, zmap_line, zgrab2_line, Grabbing, new_grabber, submit, step, close, record_unanswered, run,
  stream_discover_and_grab,
}
use ichnos.Scanner.Stream.Answered.{submitted_hosts}
use ichnos.Scanner.Stream.Reader.{EventIsResult, observed-stream, malformed-data_loses_host}
use ichnos.Scanner.Scan.{Surroundings, grab_one, begin_run, run_scan_target, run_scan_discovery}
use ichnos.Scanner.Scan.Outcome.{discovery_end, target_observed}
use ichnos.Scanner.Scan.Once.{discovery-IsConsistent, published_once}
use ichnos.Scanner.Refresh.{Turn, round, result_line, begin_loop, run_turns}
use ichnos.Scanner.Refresh.Covered.{IsCovering, turns-IsCovering}

abbrev noon : ℕ → Datetime
noon n = record {
  year = 2026;
  month = 1;
  day = 2;
  hour = 12;
  minute = 0;
  second = n;
  microsecond = 0;
}

abbrev host : Str
host = codes "192.0.2.1"

-- A successful grab of ssh.
abbrev answer_of_host : Fields
answer_of_host =
    field (codes "status") (text (codes "success"))
      (field (codes "result") (text (codes "SSH-2.0-OpenSSH_9.6")) end)

abbrev result_of : Json → Json
result_of found = obj (field (codes "ip") (text host) (field (codes "data") found end))

abbrev good_line : Str
good_line = codes "good"

abbrev bad_line : Str
bad_line = codes "bad"

loads : Str → Option Json
loads line =
    if line == good_line
    then some (result_of (obj (field (codes "ssh") (obj answer_of_host) end)))
    else if line == bad_line
    then some (result_of null)
    else none

abbrev platform : Platform
platform = record {
  index = memory_index;
  clock = noon;
  normalize = λ m r. ok r;
  sha256 = λ s. s;
  loads = loads;
}

abbrev job : Job
job = record {
  scan_id = codes "ssh-1";
  protocol = codes "ssh";
  port = 22;
  zgrab2_module = codes "ssh";
}

abbrev surroundings : Surroundings
surroundings = record {
  run_command = λ cmd input. good_line ++ (10 ∷ []);
  parse_v6 = λ s. none;
  blocklist_path = codes "/etc/blocklist";
  blocklist = some (codes "198.51.100.0/24\n");
  user_agent = none;
}

abbrev events : List Event
events =
    zmap_line (codes "192.0.2.1,synack")
    ∷ zgrab2_line good_line
    ∷ zmap_line (codes "192.0.2.2,rst")
    ∷ []

started : Run platform
started = begin_run platform job surroundings none [] 0

started-IsConsistent : IsConsistent platform job started
unfolding started begin_run count_answered
started-IsConsistent = record { responsive = refl; labelled = tt; backed = tt; distinct = tt }

record-IsConsistent_example :
    IsConsistent platform job (record_grab_result platform job (some answer_of_host) host started).1
record-IsConsistent_example =
    record-IsConsistent platform job (some answer_of_host) host started started-IsConsistent

discovery-IsConsistent_example :
    IsConsistent platform job (run_scan_discovery platform job surroundings 7 2 events true [] 0)
discovery-IsConsistent_example =
    discovery-IsConsistent platform job surroundings 7 2 events true [] 0

discovery_end_example :
    ((run_scan_discovery platform job surroundings 7 2 events false [] 0).outcome.metadata.status
      ≡ codes "failed")
    × ((run_scan_discovery platform job surroundings 7 2 events false []
          0).outcome.metadata.targets_attempted
        ≡ 2)
discovery_end_example = discovery_end platform job surroundings 7 2 events false [] 0

turns : List Turn
turns = round 0 ∷ result_line good_line ∷ round 5 ∷ []

abbrev known_hosts : List Str
known_hosts = host ∷ codes "198.51.100.9" ∷ []

turns-IsCovering_example :
    IsCovering platform job surroundings (codes "198.51.100.0/24" ∷ []) known_hosts (
      run_turns platform job surroundings (codes "198.51.100.0/24" ∷ []) (some 10) turns (
        begin_loop platform job surroundings known_hosts
          (begin_run platform job surroundings none [] 0)))
turns-IsCovering_example =
    turns-IsCovering platform job surroundings (codes "198.51.100.0/24" ∷ []) known_hosts (some 10)
      turns [] 0

free : is_blocked surroundings.parse_v6 host (read_blocklist_file surroundings.blocklist) ≡ ok false
unfolding is_blocked read_blocklist_file file_lines strip
free = refl

grabbed : grab_one platform job surroundings host ≡ ok (some answer_of_host)
unfolding grab_one loads strip successful_module_result get str_eq
grabbed = refl

target_observed_example :
    (o : Observation) × ((run_scan_target platform job surroundings none host []
        0).1.outcome.observations
      ≡ o ∷ [])
    × (o.ip ≡ host)
target_observed_example =
    target_observed platform job surroundings none host [] 0 (some answer_of_host) free grabbed

shaped : All (EventIsResult platform job) events
unfolding loads strip str_eq get
shaped = (tt, ((tt, tt), (tt, tt)))

reported : contains host (submitted_hosts events) ≡ true
unfolding contains submitted_hosts strip split str_eq
reported = refl

observed-stream_example :
    observed host (stream_discover_and_grab platform job 2 events true started).outcome.observations
    ≡ true
observed-stream_example = observed-stream platform job 2 events true started host shaped reported

waiting : Grabbing platform job
waiting = submit host (new_grabber platform job started)

bad_loaded : loads (strip bad_line) ≡ some (result_of null)
unfolding loads strip str_eq
bad_loaded = refl

bad_full : nonempty (strip bad_line) ≡ true
unfolding strip
bad_full = refl

bad_host :
    get (codes "ip") (field (codes "ip") (text host) (field (codes "data") null end))
    ≡ some (text host)
unfolding get str_eq
bad_host = refl

bad_data :
    get (codes "data") (field (codes "ip") (text host) (field (codes "data") null end)) ≡ some null
unfolding get str_eq
bad_data = refl

malformed-data_loses_host_example :
    (contains host (step platform job (zgrab2_line bad_line) waiting).pending ≡ false)
    × ((step platform job (zgrab2_line bad_line) waiting).world ≡ waiting.world)
    × (step platform job (zgrab2_line good_line) (step platform job (zgrab2_line bad_line) waiting)
        ≡ step platform job (zgrab2_line bad_line) waiting)
malformed-data_loses_host_example =
    malformed-data_loses_host platform job bad_line host
      (field (codes "ip") (text host) (field (codes "data") null end)) null waiting good_line
      bad_loaded bad_full bad_host refl bad_data refl (unfold waiting submit new_grabber in refl)

abbrev fingerprint : Str
fingerprint = dumps compact_style (obj answer_of_host)

published :
    contains fingerprint (
      fingerprints
        (run_scan_discovery platform job surroundings 7 2 events true [] 0).outcome.new_versions)
    ≡ true
unfolding contains run_scan_discovery stream_discover_and_grab close record_unanswered sorted run
    step split strip str_eq loads get successful_module_result record_grab_result claim_memory dumps
    str_le fingerprint_id
published = refl

published_once_example :
    contains fingerprint (
      fingerprints
        (run_scan_discovery platform job surroundings 8 2 events true
          (run_scan_discovery platform job surroundings 7 2 events true [] 0).state
          9).outcome.new_versions)
    ≡ false
published_once_example =
    published_once platform job job surroundings surroundings 7 2 8 2 events events true true [] 0 9
      fingerprint published
