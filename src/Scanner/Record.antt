-- ===== src/Scanner/Record.antt =====
-- What one `_record_grab_result` does to the list of observations.
use ichnos.Base.{
  ◌+◌, ℕ, Str, ◌==◌, Bool, true, false, ◌||◌, List, [], ◌∷◌, ◌++◌, Option, none, some, Raises, ok,
  raised, ◌≡◌, refl, arith,
}
use ichnos.Json.{Fields}
use ichnos.Models.{Datetime, Observation}
use ichnos.Scanner.{
  Platform, Job, Run, record_grab_result, record_fingerprint, fingerprinted, after_claim, tick,
  count_responsive, observe, add_version,
}

-- Some observation is of this host.
pub observed : Str → List Observation → Bool
observed ip [] = false
observed ip (o ∷ os) = (o.ip == ip) || observed ip os

pub observed-append :
    (ip : Str) (os ps : List Observation)
    → observed ip (os ++ ps) ≡ (observed ip os || observed ip ps)
unfolding observed
observed-append ip [] ps = refl
observed-append ip (o ∷ os) ps = ground (arith, observed-append ip os ps)

module _ (P : Platform) (job : Job) where
  -- One more observation of the host, whatever the grab, the normalizer and the claim did.
  abbrev pub Records : Str → Run P → Run P → Type 0
  Records ip w w' =
      (o : Observation) × (w'.outcome.observations ≡ w.outcome.observations ++ (o ∷ []))
      × (o.ip ≡ ip)
      × (o.observed_at ≡ P.clock w.ticks)

  observations-after_claim :
      (at : Datetime) (fp : Str) (payload : Fields) (c : Raises Bool) (w : Run P)
      → (after_claim P job at fp payload c w).1.outcome.observations ≡ w.outcome.observations
  unfolding after_claim
  observations-after_claim at fp payload (ok false) w = refl
  observations-after_claim at fp payload (ok true) w = refl
  observations-after_claim at fp payload (raised e) w = refl

  Records-fingerprint :
      (ip : Str) (r : Raises (Fields × Str)) (w : Run P)
      → Records ip w (record_fingerprint P job ip (P.clock w.ticks) r (tick (count_responsive w))).1
  unfolding record_fingerprint observe tick count_responsive
  Records-fingerprint ip (raised e) w = (_, refl, refl, refl)
  Records-fingerprint ip (ok (payload, fp)) w =
      (_, observations-after_claim (P.clock w.ticks) fp payload _ _, refl, refl)

  pub record-Records :
      (m : Option Fields) (ip : Str) (w : Run P) → Records ip w (record_grab_result P job m ip w).1
  unfolding record_grab_result
  record-Records none ip w = (_, refl, refl, refl)
  record-Records (some r) ip w = Records-fingerprint ip (fingerprinted P job r) w

  -- The host is observed, and so are those that were.
  pub observed-record :
      (m : Option Fields) (ip j : Str) (w : Run P)
      → observed j (record_grab_result P job m ip w).1.outcome.observations
        ≡ (observed j w.outcome.observations || (ip == j))
  unfolding observed
  observed-record m ip j w =
      let (o, e, i, _) = record-Records m ip w in rw (e, observed-append, ← i) (ground arith)

  metadata-after_claim :
      (at : Datetime) (fp : Str) (payload : Fields) (c : Raises Bool) (w : Run P)
      → (after_claim P job at fp payload c w).1.outcome.metadata ≡ w.outcome.metadata
  unfolding after_claim add_version
  metadata-after_claim at fp payload (ok false) w = refl
  metadata-after_claim at fp payload (ok true) w = refl
  metadata-after_claim at fp payload (raised e) w = refl

  metadata-fingerprint :
      (ip : Str) (at : Datetime) (r : Raises (Fields × Str)) (w : Run P)
      → (record_fingerprint P job ip at r w).1.outcome.metadata ≡ w.outcome.metadata
  unfolding record_fingerprint observe
  metadata-fingerprint ip at (raised e) w = refl
  metadata-fingerprint ip at (ok (payload, fp)) w = metadata-after_claim at fp payload _ _

  -- A recording changes nothing of the metadata but `hosts_responsive`.
  pub metadata-record :
      (m : Option Fields) (ip : Str) (w : Run P)
      → (n : ℕ) × ((record_grab_result P job m ip w).1.outcome.metadata
          ≡ record w.outcome.metadata { hosts_responsive = n })
  unfolding record_grab_result tick count_responsive
  metadata-record none ip w = (w.outcome.metadata.hosts_responsive, unfold observe in refl)
  metadata-record (some r) ip w = (
    w.outcome.metadata.hosts_responsive + 1,
    metadata-fingerprint ip (P.clock w.ticks) (fingerprinted P job r) _,
  )
