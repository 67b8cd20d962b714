-- ===== src/Scanner/Scan/Outcome.antt =====
-- The outcome of `run_scan`, on each of its paths.
use ichnos.Base.{
  ℕ, Str, codes, str_eq, Bool, true, false, List, [], ◌∷◌, Option, some, if◌then◌else◌, Raises, ok,
  raised, ◌≡◌, refl, ◌∙◌, ap,
}
use ichnos.Json.{Fields}
use ichnos.Models.{Observation}
use ichnos.Blocklist.{is_blocked, read_blocklist_file}
use ichnos.Scanner.{Platform, Job, Run, observe, tick, record_grab_result}
use ichnos.Scanner.Record.{record-Records, metadata-record}
use ichnos.Scanner.Scan.{
  Surroundings, grab_one, grab_and_record, settled, target_grabbed, target_checked, begin_run,
  attempt_one, end_run, run_scan_target, run_scan_discovery,
}
use ichnos.Scanner.Stream.{
  Event, stream_discover_and_grab, set_targets, fail, close, run, new_grabber,
}
use ichnos.Scanner.Stream.Keeps.{Keeps, keeps-grabbing}

module _ (P : Platform) (job : Job) where
  -- The two fields of the metadata that say how a run went.
  abbrev HasEnd : Str → ℕ → Run P → Type 0
  HasEnd st n w = (w.outcome.metadata.status ≡ st) × (w.outcome.metadata.targets_attempted ≡ n)

  HasEnd-record :
      (st : Str) (n : ℕ) (m : Option Fields) (ip : Str) (w : Run P)
      → HasEnd st n w
      → HasEnd st n (record_grab_result P job m ip w).1
  HasEnd-record st n m ip w h =
      let (_, e) = metadata-record P job m ip w in
      (ap (λ d. d.status) e ∙ h.0, ap (λ d. d.targets_attempted) e ∙ h.1)

  HasEnd-Keeps : (st : Str) (n : ℕ) → Keeps P job (HasEnd st n)
  HasEnd-Keeps st n = record { grab = HasEnd-record st n; rst = λ ip w h. unfold observe tick in h }

module _ (P : Platform) (job : Job) (out : Surroundings) where
  discovery-grabbed :
      (seed n : ℕ) (es : List Event) (s : P.index.State) (t : ℕ)
      → HasEnd P job
          (codes "running")
          n
          (close P job (
            run P job es (
              new_grabber P job (set_targets P job n (begin_run P job out (some seed) s t))))).world
  discovery-grabbed seed n es s t =
      keeps-grabbing P job (HasEnd-Keeps P job (codes "running") n) n es
        (begin_run P job out (some seed) s t) (unfold set_targets begin_run in (refl, refl))

  -- A discovery run ends "failed" exactly if ZMap's exit code was not 0, and "completed" otherwise;
  -- whatever was found, it reports as many attempted targets as candidates were asked for.
  pub discovery_end :
      (seed n : ℕ) (es : List Event) (exited_cleanly : Bool) (s : P.index.State) (t : ℕ)
      → ((run_scan_discovery P job out seed n es exited_cleanly s t).outcome.metadata.status
          ≡ (if exited_cleanly then codes "completed" else codes "failed"))
        × ((run_scan_discovery P job out seed n es exited_cleanly s
              t).outcome.metadata.targets_attempted
            ≡ n)
  unfolding run_scan_discovery stream_discover_and_grab str_eq
  discovery_end seed n es true s t = let h = discovery-grabbed seed n es s t in (rw h.0, h.1)
  discovery_end seed n es false s t =
      (unfold fail in refl, unfold fail in (discovery-grabbed seed n es s t).1)

  target-observations :
      (r : Raises (Unit {0}) × Run P)
      → (target_grabbed P job out r).1.outcome.observations ≡ r.1.outcome.observations
  unfolding target_grabbed
  target-observations (ok u, w) = unfold end_run in refl
  target-observations (raised e, w) = refl

  grab_and_record-ok :
      (ip : Str) (m : Option Fields) (w : Run P)
      → grab_one P job out ip ≡ ok m
      → grab_and_record P job out ip w ≡ record_grab_result P job m ip w
  unfolding grab_and_record
  grab_and_record-ok ip m w h = ap (λ r. settled P job out ip w r) h

  -- A target that is not blocked, whose grab does not raise, leaves exactly one observation: of that
  -- target, whatever ZGrab2 answered, and also where the claim of its fingerprint raises.
  pub target_observed :
      (seed : Option ℕ) (ip : Str) (s : P.index.State) (t : ℕ) (m : Option Fields)
      → is_blocked out.parse_v6 ip (read_blocklist_file out.blocklist) ≡ ok false
      → grab_one P job out ip ≡ ok m
      → (o : Observation) × ((run_scan_target P job out seed ip s t).1.outcome.observations
          ≡ o ∷ [])
        × (o.ip ≡ ip)
  unfolding run_scan_target target_checked
  target_observed seed ip s t m free grabbed =
      let w = attempt_one P job out (begin_run P job out seed s t) in
      let (o, e, i, _) = record-Records P job m ip w in
      (
        o,
        rw (free, grab_and_record-ok ip m w grabbed)
            (target-observations _ ∙ e ∙ (unfold begin_run attempt_one in refl)),
        i,
      )
