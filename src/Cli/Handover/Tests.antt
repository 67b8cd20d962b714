-- ===== src/Cli/Handover/Tests.antt =====
-- A concrete run of one observation, handed over to a pending file that has a line.
use ichnos.Base.{
  Str, codes, ◌==◌, contains, str_eq, with_newline, false, [], ◌∷◌, ◌++◌, map, Option, none, some,
  if◌then◌else◌, ok, ◌>>=◌, ◌≡◌, refl,
}
use ichnos.Base.Dict.{lookup}
use ichnos.Json.{Json, obj}
use ichnos.Json.Print.{dumps, default_style}
use ichnos.Json.Print.OneLine.{has_plain_numbers}
use ichnos.Models.{Datetime, Observation, observation_row, VersionRecord}
use ichnos.Scanner.{ScanRunOutcome}
use ichnos.Publish.{Row}
use ichnos.Publish.Pending.{Dir, file_of, contents, read_rows}
use ichnos.Publish.Pending.Rows.{IsStored}
use ichnos.Cli.{write_pending_outcome}
use ichnos.Cli.Handover.{observation_rows, observations_reach_publish}

abbrev noon : Datetime
noon = record {
  year = 2026;
  month = 1;
  day = 2;
  hour = 12;
  minute = 0;
  second = 0;
  microsecond = 0;
}

abbrev observation : Observation
observation = record {
  scan_id = codes "ssh-1";
  observed_at = noon;
  ip = codes "192.0.2.1";
  port = 22;
  protocol = codes "ssh";
  response_status = codes "closed";
  fingerprint_id = none;
}

abbrev outcome : ScanRunOutcome
outcome = record {
  metadata = record {
    scan_id = codes "ssh-1";
    protocol = codes "ssh";
    started_at = noon;
    ended_at = some noon;
    targets_attempted = 1;
    hosts_responsive = 0;
    status = codes "completed";
    seed = none;
    software_versions = [];
    commit_id = none;
    rows_written = none;
  };
  observations = observation ∷ [];
  new_versions = [];
}

abbrev row : Row
row = obj (observation_row observation)

loads : Str → Option Json
loads s = if s == dumps default_style row then some row else none

row-IsStored : IsStored loads row
unfolding loads has_plain_numbers observation_row str_eq dumps
row-IsStored = record {
  fields = observation_row observation;
  object = refl;
  plain = refl;
  round_trip = refl;
}

abbrev pending : Dir
pending = (codes "observations.ndjson", codes "{}\n") ∷ []

held : contents (file_of (codes "observations")) pending ≡ with_newline (codes "{}" ∷ [])
unfolding file_of lookup with_newline str_eq
held = refl

no_protocol :
    contains (codes "observations") (map (λ (v : Str × VersionRecord). v.0) outcome.new_versions)
    ≡ false
unfolding contains
no_protocol = refl

observations_reach_publish_example :
    read_rows loads
      (contents (file_of (codes "observations")) (write_pending_outcome outcome pending))
    ≡ (read_rows loads (contents (file_of (codes "observations")) pending) >>= λ old.
        ok (old ++ observation_rows outcome))
observations_reach_publish_example =
    observations_reach_publish loads outcome pending (codes "{}" ∷ []) held
      (((refl, refl), ((refl, refl), tt)), tt) (row-IsStored, tt) no_protocol
