-- ===== src/Publish/Tests.antt =====
-- A concrete cycle: one dataset with rows, a service that accepts everything, and one run's outcome.
use ichnos.Base.{
  Str, codes, ◌==◌, false, List, [], ◌∷◌, ◌++◌, map, Option, none, some, if◌then◌else◌, ok, ◌>>=◌,
  ◌≡◌, refl, All, IsLine, with_newline, str_eq,
}
use ichnos.Base.Dict.{lookup}
use ichnos.Json.{Json, text, obj, Fields, end, field}
use ichnos.Json.Print.{dumps}
use ichnos.Json.Print.OneLine.{has_plain_numbers}
use ichnos.Models.{Datetime, VersionRecord, version_row}
use ichnos.Scanner.{ScanRunOutcome}
use ichnos.Publish.{Row, empty_batch, rows_of, add_scan_outcome, scan_metadata_row}
use ichnos.Publish.Batches.{rows_for, add_scan_outcome_appends}
use ichnos.Publish.Pending.{ndjson, read_rows}
use ichnos.Publish.Pending.Rows.{IsStored, read_rows-append}
use ichnos.Publish.Hour.{Service, Cycle, publish_hour}
use ichnos.Publish.Hour.Accounting.{IsAccounted, publish_hour-IsAccounted}

abbrev fields_of_row : Fields
fields_of_row = field (codes "ip") (text (codes "192.0.2.1")) end

abbrev row : Row
row = obj fields_of_row

abbrev row_line : Str
row_line = codes "{\"ip\": \"192.0.2.1\"}"

loads : Str → Option Json
loads s = if s == row_line then some row else none

row-IsStored : IsStored loads row
unfolding has_plain_numbers loads dumps str_eq
row-IsStored = record { fields = fields_of_row; object = refl; plain = refl; round_trip = refl }

abbrev old_lines : List Str
old_lines = codes "x" ∷ []

old-IsLine : All IsLine old_lines
old-IsLine = (((refl, refl), tt), tt)

read_rows-append_example :
    read_rows loads (with_newline old_lines ++ ndjson (row ∷ []))
    ≡ (read_rows loads (with_newline old_lines) >>= λ old. ok (old ++ (row ∷ [])))
read_rows-append_example = read_rows-append loads old_lines (row ∷ []) old-IsLine (row-IsStored, tt)

abbrev service : Service
service = record {
  convert = λ d rows. ok tt;
  create_session = λ d. ok tt;
  upload_file = λ d rows. ok tt;
  inspect = λ d rows. ok false;
  commit = λ d rows r. ok tt;
}

abbrev observations : Str
observations = codes "observations"

abbrev pending_file : Str
pending_file = codes "observations.ndjson"

abbrev cycle : Cycle
cycle = record { log = []; dir = (pending_file, row_line) ∷ [] }

abbrev one_dataset : List (Str × List Row)
one_dataset = (observations, row ∷ []) ∷ []

publish_hour-IsAccounted_example :
    IsAccounted service one_dataset cycle (publish_hour service one_dataset cycle)
publish_hour-IsAccounted_example = publish_hour-IsAccounted service one_dataset cycle

abbrev noon : Datetime
noon = record {
  year = 2026;
  month = 1;
  day = 2;
  hour = 12;
  minute = 0;
  second = 0;
  microsecond = 0;
}

abbrev outcome : ScanRunOutcome
outcome = record {
  metadata = record {
    scan_id = codes "ssh-1";
    protocol = codes "ssh";
    started_at = noon;
    ended_at = some noon;
    targets_attempted = 1;
    hosts_responsive = 1;
    status = codes "completed";
    seed = none;
    software_versions = [];
    commit_id = none;
    rows_written = none;
  };
  observations = [];
  new_versions =
      (
        codes "ssh",
        record {
          fingerprint_id = codes "f";
          protocol = codes "ssh";
          first_seen = noon;
          payload = fields_of_row;
        },
      )
      ∷ [];
}

add_scan_outcome_appends_example :
    ((add_scan_outcome outcome empty_batch).observations ≡ [] ++ [])
    × ((add_scan_outcome outcome empty_batch).versions
        ≡ [] ++ map (λ (e : Str × VersionRecord). obj (version_row e.1)) outcome.new_versions)
    × ((add_scan_outcome outcome empty_batch).scan_metadata
        ≡ [] ++ (scan_metadata_row outcome.metadata ∷ []))
    × (rows_of (codes "ssh") (add_scan_outcome outcome empty_batch).protocol_rows
        ≡ [] ++ rows_for (codes "ssh") outcome.new_versions)
unfolding lookup
add_scan_outcome_appends_example = add_scan_outcome_appends outcome empty_batch (codes "ssh")
