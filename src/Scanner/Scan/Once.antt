-- ===== src/Scanner/Scan/Once.antt =====
-- Discovery runs one after another (`run_scan` of src/ichnos/scanner.py).
use ichnos.Base.{
  ℕ, Str, contains, Bool, true, false, List, [], ◌∷◌, Option, some, ◌≡◌, refl, arith, eq_iff, All,
}
use ichnos.Models.{VersionRecord}
use ichnos.Scanner.{Platform, Job, Run}
use ichnos.Scanner.Consistent.{IsConsistent, IsBacked, fingerprints, count_answered}
use ichnos.Scanner.Scan.{Surroundings, begin_run, end_run, run_scan_discovery}
use ichnos.Scanner.Stream.{Event}
use ichnos.Scanner.Stream.Sound.{stream-IsConsistent}
use ichnos.Scanner.Stream.Once.{IsNew, IsNew-stream}

module _ (P : Platform) (job : Job) (out : Surroundings) where
  begin-IsConsistent :
      (seed : Option ℕ) (s : P.index.State) (t : ℕ)
      → IsConsistent P job (begin_run P job out seed s t)
  unfolding begin_run count_answered
  begin-IsConsistent seed s t = record {
    responsive = refl;
    labelled = tt;
    backed = tt;
    distinct = tt;
  }

  -- A discovery run ends consistent, whatever lines its two processes print, in whatever order, and
  -- with either exit code of ZMap: `hosts_responsive` counts the observations of hosts that spoke the
  -- protocol; an observation carries a fingerprint exactly if its status is "success", and names this
  -- run, its protocol and its port; the new versions have distinct fingerprints, and each is recorded in
  -- the index and carried by an observation.
  pub discovery-IsConsistent :
      (seed n : ℕ) (es : List Event) (exited_cleanly : Bool) (s : P.index.State) (t : ℕ)
      → IsConsistent P job (run_scan_discovery P job out seed n es exited_cleanly s t)
  unfolding run_scan_discovery end_run
  discovery-IsConsistent seed n es b s t =
      let c =
        stream-IsConsistent P job n es b (begin_run P job out (some seed) s t)
          (begin-IsConsistent (some seed) s t) in
      record {
        responsive = c.responsive;
        labelled = c.labelled;
        backed = c.backed;
        distinct = c.distinct;
      }

  discovery-IsNew :
      (seed n : ℕ) (es : List Event) (b : Bool) (s : P.index.State) (t : ℕ)
      → IsNew P job s (run_scan_discovery P job out seed n es b s t)
  unfolding run_scan_discovery end_run begin_run
  discovery-IsNew seed n es b s t =
      let c =
        IsNew-stream P job s n es b (begin_run P job out (some seed) s t)
          (record { unseen = tt; grown = λ f h. h }) in
      record { unseen = c.unseen; grown = c.grown }

not_among :
    (P : Platform) (s : P.index.State) (f : Str) (vs : List (Str × VersionRecord))
    → P.index.seen f s ≡ true
    → All (λ v. P.index.seen v.1.fingerprint_id s ≡ false) vs
    → contains f (fingerprints vs) ≡ false
unfolding contains
not_among P s f [] seen h = refl
not_among P s f ((p, v) ∷ vs) seen h =
    ground (arith, eq_iff f v.fingerprint_id, not_among P s f vs seen h.1, h.0)

seen_if_backed :
    (P : Platform) (job : Job) (w : Run P) (f : Str) (vs : List (Str × VersionRecord))
    → All (IsBacked P job w.state w.outcome.observations) vs
    → contains f (fingerprints vs) ≡ true
    → P.index.seen f w.state ≡ true
unfolding contains
seen_if_backed P job w f [] b h = cc
seen_if_backed P job w f ((p, v) ∷ vs) b h =
    ground (arith, eq_iff f v.fingerprint_id, seen_if_backed P job w f vs b.1, b.0.claimed)

-- Two discovery runs, of any protocols, the second on the version index that the first left: no
-- fingerprint that the first publishes as a new version is published as a new version by the second.
pub published_once :
    (P : Platform) (job job' : Job) (out out' : Surroundings) (seed n seed' n' : ℕ)
    (es es' : List Event) (b b' : Bool) (s : P.index.State) (t t' : ℕ) (f : Str)
    → contains f (fingerprints (run_scan_discovery P job out seed n es b s t).outcome.new_versions)
      ≡ true
    → contains f (
        fingerprints
          (run_scan_discovery P job' out' seed' n' es' b'
            (run_scan_discovery P job out seed n es b s t).state
            t').outcome.new_versions)
      ≡ false
published_once P job job' out out' seed n seed' n' es es' b b' s t t' f h =
    let w = run_scan_discovery P job out seed n es b s t in
    let w' = run_scan_discovery P job' out' seed' n' es' b' w.state t' in
    not_among P w.state f w'.outcome.new_versions
      (seen_if_backed P job w f w.outcome.new_versions
        (discovery-IsConsistent P job out seed n es b s t).backed h)
      (discovery-IsNew P job' out' seed' n' es' b' w.state t').unseen
