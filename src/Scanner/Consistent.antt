-- ===== src/Scanner/Consistent.antt =====
-- What it means that the record of a run is consistent (src/ichnos/scanner.py).
pub mod Kept
use ichnos.Base.{
  ℕ, suc, ◌+◌, Str, codes, ◌==◌, contains, contains-append, Bool, true, false, ◌||◌, List, [], ◌∷◌,
  ◌++◌, map, Option, none, some, if◌then◌else◌, Raises, ok, raised, ◌≡◌, refl, arith, eq_iff, All,
  All-append, All-map,
}
use ichnos.Json.{Fields}
use ichnos.Models.{Datetime, Observation, VersionRecord}
use ichnos.Storage.{VersionIndex}
use ichnos.Scanner.{
  Platform, Job, World, Run, ScanRunOutcome, success, grab_failed, normalize_failed, closed,
  observe, tick, count_responsive, add_version, after_claim, record_fingerprint, fingerprinted,
  record_grab_result,
}

abbrev pub is_some {ℓ} : {A : Type ℓ} → Option A → Bool
is_some none = false
is_some (some a) = true

-- A host that spoke the protocol: fingerprinted, or answered in a way that could not be normalized.
abbrev pub answered : Observation → Bool
answered o = (o.response_status == success) || (o.response_status == normalize_failed)

unfoldable pub count_answered : List Observation → ℕ
count_answered [] = 0
count_answered (o ∷ os) = if answered o then suc (count_answered os) else count_answered os

-- A fingerprint is there exactly with the status "success", and the row names the run that made it.
pub record Labelled (job : Job) (o : Observation) : Type 0 where
  pub fingerprint : is_some o.fingerprint_id ≡ (o.response_status == success)
  pub scan : o.scan_id ≡ job.scan_id
  pub protocol : o.protocol ≡ job.protocol
  pub port : o.port ≡ job.port

-- Some observation carries this fingerprint.
unfoldable pub carries : Str → List Observation → Bool
carries fp [] = false
carries fp (o ∷ os) = elim o.fingerprint_id [ none ↦ false | some f ↦ f == fp ] || carries fp os

abbrev pub fingerprints : List (Str × VersionRecord) → List Str
fingerprints vs = map (λ (e : Str × VersionRecord). e.1.fingerprint_id) vs

abbrev pub Distinct : List Str → Type 0
Distinct [] = Unit
Distinct (x ∷ xs) = (contains x xs ≡ false) × Distinct xs

module _ (P : Platform) (job : Job) where
  -- A published version is of the run's protocol, is recorded in the index, and some host serves it.
  pub record IsBacked (s : P.index.State) (os : List Observation) (v : Str × VersionRecord)
      : Type 0 where
    pub dataset : v.0 ≡ job.protocol
    pub protocol : v.1.protocol ≡ job.protocol
    pub claimed : P.index.seen v.1.fingerprint_id s ≡ true
    pub served : carries v.1.fingerprint_id os ≡ true

  pub record IsConsistent (w : Run P) : Type 0 where
    pub responsive : w.outcome.metadata.hosts_responsive ≡ count_answered w.outcome.observations
    pub labelled : All (Labelled job) w.outcome.observations
    pub backed : All (IsBacked w.state w.outcome.observations) w.outcome.new_versions
    pub distinct : Distinct (fingerprints w.outcome.new_versions)
