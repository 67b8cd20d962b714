-- ===== src/Scanner/Consistent/Kept.antt =====
-- `_record_grab_result` and the consistency of a run (src/ichnos/scanner.py).
use ichnos.Base.{
  ◌+◌, Str, ◌==◌, str_eq, contains, contains-append, Bool, true, false, ◌||◌, List, [], ◌∷◌, ◌++◌,
  map-append, Option, none, some, Raises, ok, raised, ◌≡◌, refl, arith, eq_iff, All, All-append,
  All-map,
}
use ichnos.Json.{Fields}
use ichnos.Models.{Datetime, Observation, VersionRecord}
use ichnos.Scanner.{
  Platform, Job, Run, success, grab_failed, normalize_failed, observe, tick, count_responsive,
  add_version, after_claim, record_fingerprint, fingerprinted, record_grab_result,
}
use ichnos.Scanner.Consistent.{
  is_some, count_answered, carries, fingerprints, Distinct, IsBacked, IsConsistent,
}

count_answered-append :
    (os ps : List Observation) → count_answered (os ++ ps) ≡ count_answered os + count_answered ps
unfolding count_answered
count_answered-append [] ps = omega arith
count_answered-append (o ∷ os) ps = ground (arith, count_answered-append os ps)

carries-append :
    (fp : Str) (os ps : List Observation) → carries fp (os ++ ps) ≡ (carries fp os || carries fp ps)
unfolding carries
carries-append fp [] ps = refl
carries-append fp (o ∷ os) ps = ground (arith, carries-append fp os ps)

Distinct-snoc :
    (xs : List Str) (x : Str) → Distinct xs → contains x xs ≡ false → Distinct (xs ++ (x ∷ []))
unfolding contains
Distinct-snoc [] x d n = (refl, tt)
Distinct-snoc (y ∷ ys) x d n = (
  rw (contains-append y ys (x ∷ [])) (unfold contains in ground (arith, eq_iff x y, eq_iff y x)),
  Distinct-snoc ys x d.1 (ground arith),
)

module _ (P : Platform) (job : Job) where
  -- A fingerprint that the index has not seen is not among the versions.
  fresh :
      (s : P.index.State) (os : List Observation) (fp : Str) (vs : List (Str × VersionRecord))
      → All (IsBacked P job s os) vs
      → P.index.seen fp s ≡ false
      → contains fp (fingerprints vs) ≡ false
  unfolding contains
  fresh s os fp [] h n = refl
  fresh s os fp ((p, v) ∷ vs) h n =
      ground (arith, eq_iff fp v.fingerprint_id, fresh s os fp vs h.1 n, h.0.claimed)

  IsBacked-append :
      (s : P.index.State) (os ps : List Observation) (v : Str × VersionRecord)
      → IsBacked P job s os v
      → IsBacked P job s (os ++ ps) v
  IsBacked-append s os ps v b = record {
    dataset = b.dataset;
    protocol = b.protocol;
    claimed = b.claimed;
    served = rw carries-append (ground (arith, b.served));
  }

  IsBacked-claim :
      (fp : Str) (s : P.index.State) (os : List Observation) (v : Str × VersionRecord)
      → IsBacked P job s os v
      → IsBacked P job (P.index.claim fp s).1 os v
  IsBacked-claim fp s os v b = record {
    dataset = b.dataset;
    protocol = b.protocol;
    claimed = P.index.claim_keeps fp v.1.fingerprint_id s b.claimed;
    served = b.served;
  }

  -- An observation of a host that did not speak the protocol.
  pub IsConsistent-silent :
      (at : Datetime) (ip st : Str) (fp : Option Str) (w : Run P)
      → is_some fp ≡ (st == success)
      → ((st == success) || (st == normalize_failed)) ≡ false
      → IsConsistent P job w
      → IsConsistent P job (observe job at ip st fp (tick w))
  unfolding observe tick
  IsConsistent-silent at ip st fp w l s c = record {
    responsive = rw count_answered-append (unfold count_answered in ground (arith, c.responsive));
    labelled =
        All-append _ w.outcome.observations _ c.labelled
          (record { fingerprint = l; scan = refl; protocol = refl; port = refl }, tt);
    backed =
        All-map _ _ w.outcome.new_versions (IsBacked-append w.state w.outcome.observations _)
          c.backed;
    distinct = c.distinct;
  }

  -- An observation of a host that did.
  IsConsistent-answered :
      (at : Datetime) (ip st : Str) (fp : Option Str) (w : Run P)
      → is_some fp ≡ (st == success)
      → ((st == success) || (st == normalize_failed)) ≡ true
      → IsConsistent P job w
      → IsConsistent P job (observe job at ip st fp (tick (count_responsive w)))
  unfolding observe tick count_responsive
  IsConsistent-answered at ip st fp w l s c = record {
    responsive = rw count_answered-append (unfold count_answered in ground (arith, c.responsive));
    labelled =
        All-append _ w.outcome.observations _ c.labelled
          (record { fingerprint = l; scan = refl; protocol = refl; port = refl }, tt);
    backed =
        All-map _ _ w.outcome.new_versions (IsBacked-append w.state w.outcome.observations _)
          c.backed;
    distinct = c.distinct;
  }

  IsConsistent-claim :
      (fp : Str) (w : Run P)
      → IsConsistent P job w
      → IsConsistent P job (record w { state = (P.index.claim fp w.state).1 })
  IsConsistent-claim fp w c = record {
    responsive = c.responsive;
    labelled = c.labelled;
    backed =
        All-map _ _ w.outcome.new_versions (IsBacked-claim fp w.state w.outcome.observations)
          c.backed;
    distinct = c.distinct;
  }

  IsConsistent-version :
      (at : Datetime) (fp : Str) (payload : Fields) (w : Run P)
      → IsConsistent P job w
      → (P.index.claim fp w.state).0 ≡ ok true
      → carries fp w.outcome.observations ≡ true
      → IsConsistent P job
          (add_version job at fp payload (record w { state = (P.index.claim fp w.state).1 }))
  unfolding add_version
  IsConsistent-version at fp payload w c won served = record {
    responsive = c.responsive;
    labelled = c.labelled;
    backed =
        All-append _ w.outcome.new_versions _
          (All-map _ _ w.outcome.new_versions (IsBacked-claim fp w.state w.outcome.observations)
            c.backed)
          (
            record {
              dataset = refl;
              protocol = refl;
              claimed = P.index.claim_true_seen fp w.state won;
              served = served;
            },
            tt,
          );
    distinct = rw map-append (
        Distinct-snoc (fingerprints w.outcome.new_versions) fp c.distinct (
          fresh w.state w.outcome.observations fp w.outcome.new_versions c.backed
            (P.index.claim_true_new fp w.state won)));
  }

  IsConsistent-after_claim :
      (at : Datetime) (fp : Str) (payload : Fields) (w : Run P) (r : Raises Bool)
      → IsConsistent P job w
      → (P.index.claim fp w.state).0 ≡ r
      → carries fp w.outcome.observations ≡ true
      → IsConsistent P job
          (after_claim P job at fp payload r (record w { state = (P.index.claim fp w.state).1 })).1
  unfolding after_claim
  IsConsistent-after_claim at fp payload w (ok true) c won served =
      IsConsistent-version at fp payload w c won served
  IsConsistent-after_claim at fp payload w (ok false) c won served = IsConsistent-claim fp w c
  IsConsistent-after_claim at fp payload w (raised e) c won served = IsConsistent-claim fp w c

  carries-observe :
      (at : Datetime) (ip fp : Str) (w : Run P)
      → carries fp (observe job at ip success (some fp) w).outcome.observations ≡ true
  unfolding observe
  carries-observe at ip fp w = rw carries-append (unfold carries in ground (arith, eq_iff fp fp))

  IsConsistent-fingerprint :
      (at : Datetime) (ip : Str) (r : Raises (Fields × Str)) (w : Run P)
      → IsConsistent P job w
      → IsConsistent P job (record_fingerprint P job ip at r (tick (count_responsive w))).1
  unfolding record_fingerprint str_eq
  IsConsistent-fingerprint at ip (raised e) w c =
      IsConsistent-answered at ip normalize_failed none w refl refl c
  IsConsistent-fingerprint at ip (ok (payload, fp)) w c =
      let w' = observe job at ip success (some fp) (tick (count_responsive w)) in
      IsConsistent-after_claim at fp payload w' _
        (IsConsistent-answered at ip success (some fp) w refl refl c) refl
        (carries-observe at ip fp (tick (count_responsive w)))

  -- `_record_grab_result` keeps a run consistent, whether or not the grab, the normalizer or the claim
  -- failed.
  pub record-IsConsistent :
      (m : Option Fields) (ip : Str) (w : Run P)
      → IsConsistent P job w
      → IsConsistent P job (record_grab_result P job m ip w).1
  unfolding record_grab_result str_eq
  record-IsConsistent none ip w c =
      IsConsistent-silent (P.clock w.ticks) ip grab_failed none w refl refl c
  record-IsConsistent (some r) ip w c =
      IsConsistent-fingerprint (P.clock w.ticks) ip (fingerprinted P job r) w c
