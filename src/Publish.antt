-- ===== src/Publish.antt =====
-- src/ichnos/publish.py: the rows of a batch, by the dataset that they will be committed to.
pub mod Pending
pub mod Hour
pub mod Batches
mod Tests
use ichnos.Base.{
  ℕ, Str, codes, ◌==◌, Bool, true, false, not, ◌&&◌, ◌||◌, List, [], ◌∷◌, ◌++◌, map, Option, none,
  some, if◌then◌else◌, keep_if,
}
use ichnos.Base.Dict.{lookup, store, values}
use ichnos.Json.{Json, null, num, text, obj, Fields, end, field}
use ichnos.Base.Decimal.{decimal}
use ichnos.Models.{
  Datetime, isoformat, Exclusion, ExclusionSource, bogon, jurisdiction, value, optional_text,
  Observation, observation_row, VersionRecord, version_row, ScanMetadataRecord,
}
use ichnos.Scanner.{ScanRunOutcome}

abbrev pub Row : Type 0
Row = Json

-- `{**row, key: v}`: in place for a key that is there.
unfoldable pub set_field : Str → Json → Fields → Fields
set_field k v end = field k v end
set_field k v (field j w fs) = if j == k then field j v fs else field j w (set_field k v fs)

optional_number : Option ℕ → Json
unfolding decimal
optional_number none = null
optional_number (some n) = num (decimal n)

optional_time : Option Datetime → Json
unfolding isoformat
optional_time none = null
optional_time (some t) = text (isoformat t)

-- `_scan_metadata_dict`
unfoldable pub scan_metadata_row : ScanMetadataRecord → Row
unfolding optional_number optional_time decimal isoformat
scan_metadata_row r = obj (
    field (codes "scan_id") (text r.scan_id) (
      field (codes "protocol") (text r.protocol) (
        field (codes "started_at") (text (isoformat r.started_at)) (
          field (codes "ended_at") (optional_time r.ended_at) (
            field (codes "targets_attempted") (num (decimal r.targets_attempted)) (
              field (codes "hosts_responsive") (num (decimal r.hosts_responsive)) (
                field (codes "status") (text r.status)
                  (field (codes "seed") (optional_number r.seed) end))))))))

-- The row of a version in its protocol's dataset.
unfoldable pub protocol_row : VersionRecord → Row
unfolding set_field isoformat
protocol_row v = obj (
    set_field (codes "first_seen") (text (isoformat v.first_seen))
      (set_field (codes "fingerprint_id") (text v.fingerprint_id) v.payload))

pub record PublishBatch : Type 0 where
  pub observations : List Row
  pub versions : List Row
  pub protocol_rows : List (Str × List Row)
  pub scan_metadata : List Row

abbrev pub empty_batch : PublishBatch
empty_batch = record { observations = []; versions = []; protocol_rows = []; scan_metadata = [] }

-- `d.get(k, [])`
abbrev pub rows_of : Str → List (Str × List Row) → List Row
rows_of k d = elim (lookup k d) [ none ↦ [] | some rows ↦ rows ]

-- `d.setdefault(k, []).append(row)`
unfoldable pub append_row : Str → Row → List (Str × List Row) → List (Str × List Row)
append_row k row d = store k (rows_of k d ++ (row ∷ [])) d

-- The loop over `outcome.new_versions`.
unfoldable pub add_versions : List (Str × VersionRecord) → PublishBatch → PublishBatch
unfolding append_row protocol_row version_row
add_versions [] b = b
add_versions ((protocol, v) ∷ vs) b = add_versions vs (record b {
  versions = b.versions ++ (obj (version_row v) ∷ []);
  protocol_rows = append_row protocol (protocol_row v) b.protocol_rows;
})

-- `PublishBatch.add_scan_outcome`
unfoldable pub add_scan_outcome : ScanRunOutcome → PublishBatch → PublishBatch
unfolding observation_row scan_metadata_row
add_scan_outcome outcome b =
    let b' = add_versions outcome.new_versions (record b {
      observations = b.observations ++ map (λ o. obj (observation_row o)) outcome.observations;
    }) in
    record b' { scan_metadata = b'.scan_metadata ++ (scan_metadata_row outcome.metadata ∷ []) }

abbrev pub some_rows : List Row → Bool
some_rows [] = false
some_rows (r ∷ rs) = true

unfoldable pub any_rows : List (List Row) → Bool
any_rows [] = false
any_rows (rows ∷ more) = some_rows rows || any_rows more

-- `PublishBatch.is_empty`
unfoldable pub is_empty : PublishBatch → Bool
unfolding any_rows
is_empty b = not (
    some_rows b.observations
    || some_rows b.versions
    || any_rows (values b.protocol_rows)
    || some_rows b.scan_metadata)

-- `result.update(d)`
unfoldable pub update : List (Str × List Row) → List (Str × List Row) → List (Str × List Row)
update result [] = result
update result ((k, rows) ∷ d) = update (store k rows result) d

-- `PublishBatch.datasets`
unfoldable pub datasets : PublishBatch → List (Str × List Row)
unfolding update
datasets b =
    keep_if (λ d. some_rows d.1)
      (update
        ((codes "observations", b.observations)
          ∷ (codes "versions", b.versions)
          ∷ (codes "scan_metadata", b.scan_metadata)
          ∷ [])
        b.protocol_rows)

constant_layer_timestamp : Str
constant_layer_timestamp = codes "1970-01-01T00:00:00+00:00"

exclusion_row : Str → ExclusionSource → Str → Json → Json → Row
unfolding value
exclusion_row entry source requested_at reason requester_ip = obj (
    field (codes "ip_or_cidr") (text entry) (
      field (codes "source") (text (value source)) (
        field (codes "requested_at") (text requested_at)
          (field (codes "reason") reason (field (codes "requester_ip") requester_ip end)))))

-- `exclusion_rows`
unfoldable pub exclusion_rows : List Exclusion → List Str → List Str → List Row
unfolding exclusion_row constant_layer_timestamp isoformat optional_text
exclusion_rows exclusions jurisdiction_cidrs bogons =
    map
      (λ cidr.
        exclusion_row cidr bogon constant_layer_timestamp
          (text (codes "reserved, private or non-routable space")) null)
      bogons
    ++ (map
          (λ cidr.
            exclusion_row cidr jurisdiction constant_layer_timestamp
              (text (codes "jurisdiction pre-exclusion")) null)
          jurisdiction_cidrs
        ++ map
            (λ (e : Exclusion).
              exclusion_row e.ip_or_cidr e.source (isoformat e.requested_at)
                (optional_text e.reason) (optional_text e.requester_ip))
            exclusions)
