-- ===== src/Scanner.antt =====
-- src/ichnos/scanner.py: what one scan run keeps, and the recording of one grab.
-- The worker's surroundings are the record `Platform`: the clock, as the readings that its calls
-- return one after another; the version index; the normalizer; SHA-256; `json.loads`.

pub mod Stream
pub mod Record
pub mod Consistent
pub mod Scan
pub mod Refresh
mod Tests
use ichnos.Base.{
  ℕ, zero, suc, ◌+◌, Str, codes, ◌==◌, nonempty, Bool, true, false, ◌&&◌, List, [], ◌∷◌, ◌++◌,
  Option, none, some, if◌then◌else◌, Raises, ok, raised, Error, attribute_error, ◌>>=◌,
}
use ichnos.Json.{Json, obj, text, null, Fields, get}
use ichnos.Models.{Datetime, Observation, VersionRecord, ScanMetadataRecord}
use ichnos.Storage.{VersionIndex}
use ichnos.Fingerprint.{fingerprint_id}

pub record Platform : Type 1 where
  pub index : VersionIndex
  pub clock : ℕ → Datetime
  pub normalize : Str → Fields → Raises Fields
  pub sha256 : Str → Str
  pub loads : Str → Option Json

-- `ScanRunOutcome`
pub record ScanRunOutcome : Type 0 where
  pub metadata : ScanMetadataRecord
  pub observations : List Observation
  pub new_versions : List (Str × VersionRecord)

-- The arguments that one run passes to each `_record_grab_result`.
pub record Job : Type 0 where
  pub scan_id : Str
  pub protocol : Str
  pub port : ℕ
  pub zgrab2_module : Str

abbrev pub success : Str
success = codes "success"

abbrev pub grab_failed : Str
grab_failed = codes "grab-failed"

abbrev pub normalize_failed : Str
normalize_failed = codes "normalize-failed"

abbrev pub closed : Str
closed = codes "closed"

-- The objects that a run mutates: its outcome, the shared index, and how often the clock was read.
pub record World (State : Type 0) : Type 0 where
  pub outcome : ScanRunOutcome
  pub state : State
  pub ticks : ℕ

-- `outcome.observations.append(Observation(...))`
unfoldable pub observe : {S : Type 0} → Job → Datetime → Str → Str → Option Str → World S → World S
observe job at ip status fingerprint w = record w {
  outcome = record w.outcome {
    observations =
        w.outcome.observations
        ++ (record {
          scan_id = job.scan_id;
          observed_at = at;
          ip = ip;
          port = job.port;
          protocol = job.protocol;
          response_status = status;
          fingerprint_id = fingerprint;
        }
            ∷ []);
  };
}

-- `metadata.hosts_responsive += 1`
unfoldable pub count_responsive : {S : Type 0} → World S → World S
count_responsive w = record w {
  outcome = record w.outcome {
    metadata = record w.outcome.metadata {
      hosts_responsive = w.outcome.metadata.hosts_responsive + 1;
    };
  };
}

unfoldable pub tick : {S : Type 0} → World S → World S
tick w = record w { ticks = w.ticks + 1 }

-- `outcome.new_versions.append((protocol, VersionRecord(...)))`
unfoldable pub add_version : {S : Type 0} → Job → Datetime → Str → Fields → World S → World S
add_version job at fp payload w = record w {
  outcome = record w.outcome {
    new_versions =
        w.outcome.new_versions
        ++ ((
          job.protocol,
          record {
            fingerprint_id = fp;
            protocol = job.protocol;
            first_seen = at;
            payload = payload;
          },
        )
            ∷ []);
  };
}

module _ (P : Platform) where
  abbrev pub Run : Type 0
  Run = World P.index.State

  -- What follows `version_index.claim(fp_id)`, which may raise.
  after_claim : Job → Datetime → Str → Fields → Raises Bool → Run → Raises (Unit {0}) × Run
  unfolding add_version
  after_claim job at fp payload (ok false) w = (ok tt, w)
  after_claim job at fp payload (ok true) w = (ok tt, add_version job at fp payload w)
  after_claim job at fp payload (raised e) w = (raised e, w)

  -- What follows the `try` block: the host is recorded whether or not its answer could be read.
  record_fingerprint : Job → Str → Datetime → Raises (Fields × Str) → Run → Raises (Unit {0}) × Run
  unfolding observe after_claim
  record_fingerprint job ip at (raised e) w = (ok tt, observe job at ip normalize_failed none w)
  record_fingerprint job ip at (ok (payload, fp)) w =
      let w' = observe job at ip success (some fp) w in
      let claimed = P.index.claim fp w'.state in
      after_claim job at fp payload claimed.0 (record w' { state = claimed.1 })

  -- The body of the `try` block.
  fingerprinted : Job → Fields → Raises (Fields × Str)
  fingerprinted job result = do
    payload ← P.normalize job.zgrab2_module result
    ok (payload, fingerprint_id P.sha256 payload)

  -- `_record_grab_result`
  unfoldable pub record_grab_result : Job → Option Fields → Str → Run → Raises (Unit {0}) × Run
  unfolding observe tick count_responsive record_fingerprint fingerprinted
  record_grab_result job none ip w =
      (ok tt, observe job (P.clock w.ticks) ip grab_failed none (tick w))
  record_grab_result job (some result) ip w =
      record_fingerprint job ip (P.clock w.ticks) (fingerprinted job result)
        (tick (count_responsive w))

-- `result.get("status") == "success"`
succeeded : Option Json → Bool
succeeded (some (text s)) = s == success
succeeded _ = false

-- The part of `successful_module_result` behind `record.get("data", {})`; a `.get` on what is no
-- dictionary raises `AttributeError`.
module_result : Str → Option Json → Raises (Option Fields)
unfolding succeeded get
module_result m none = ok none
module_result m (some (obj modules)) = elim (get m modules) [
  | some (obj result) ↦
      if succeeded (get (codes "status") result) then ok (some result) else ok none
  | _ ↦ ok none
]
module_result m (some _) = raised attribute_error

-- `successful_module_result`
unfoldable pub successful_module_result : Fields → Str → Raises (Option Fields)
unfolding module_result
successful_module_result r m = module_result m (get (codes "data") r)
