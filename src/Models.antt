-- ===== src/Models.antt =====
-- The record types of src/ichnos/models.py, shared by storage, scanner and publisher.
mod Dates
pub use Dates.{Datetime}
unfoldable pub use Dates.{isoformat}
use ichnos.Base.Decimal.{decimal}
use ichnos.Base.{ℕ, Str, codes, List, Bool, Option, none, some}
use ichnos.Json.{Json, null, num, text, Fields, end, field, obj}
use ichnos.Json.Print.{dumps, sorted_style}

pub data ExclusionSource : Type 0 where
  self_serve jurisdiction manual bogon : ExclusionSource

-- `source.value`
unfoldable pub value : ExclusionSource → Str
value self_serve = codes "self-serve"
value jurisdiction = codes "jurisdiction"
value manual = codes "manual"
value bogon = codes "bogon"

pub record Exclusion : Type 0 where
  pub ip_or_cidr : Str
  pub source : ExclusionSource
  pub requested_at : Datetime
  pub reason : Option Str
  pub requester_ip : Option Str

-- `rate_share` is the decimal text of the source's float: nothing computes with it.
pub record ScheduleEntry : Type 0 where
  pub protocol : Str
  pub port : ℕ
  pub zgrab2_module : Str
  pub enabled : Bool
  pub cadence : Str
  pub rate_share : Str

pub record ScanMetadataRecord : Type 0 where
  pub scan_id : Str
  pub protocol : Str
  pub started_at : Datetime
  pub ended_at : Option Datetime
  pub targets_attempted : ℕ
  pub hosts_responsive : ℕ
  pub status : Str
  pub seed : Option ℕ
  pub software_versions : List (Str × Str)
  pub commit_id : Option Str
  pub rows_written : Option ℕ

pub record Observation : Type 0 where
  pub scan_id : Str
  pub observed_at : Datetime
  pub ip : Str
  pub port : ℕ
  pub protocol : Str
  pub response_status : Str
  pub fingerprint_id : Option Str

pub record VersionRecord : Type 0 where
  pub fingerprint_id : Str
  pub protocol : Str
  pub first_seen : Datetime
  pub payload : Fields

-- A value that may be `None`, in a row.
unfoldable pub optional_text : Option Str → Json
optional_text none = null
optional_text (some s) = text s

-- `Observation.as_dict`
unfoldable pub observation_row : Observation → Fields
unfolding isoformat optional_text decimal
observation_row o = field (codes "scan_id") (text o.scan_id) (
    field (codes "observed_at") (text (isoformat o.observed_at)) (
      field (codes "ip") (text o.ip) (
        field (codes "port") (num (decimal o.port)) (
          field (codes "protocol") (text o.protocol) (
            field (codes "response_status") (text o.response_status)
              (field (codes "fingerprint_id") (optional_text o.fingerprint_id) end))))))

-- `VersionRecord.as_dict`
unfoldable pub version_row : VersionRecord → Fields
unfolding isoformat dumps
version_row v = field (codes "fingerprint_id") (text v.fingerprint_id) (
    field (codes "protocol") (text v.protocol) (
      field (codes "first_seen") (text (isoformat v.first_seen))
        (field (codes "payload") (text (dumps sorted_style (obj v.payload))) end)))
