-- ===== src/Cli/Rebuilding/Derived.antt =====
-- What an exit code of 0 of the nightly rebuild says.
use ichnos.Base.{
  ℕ, ◌≤◌, ◌<◌, Str, ◌==◌, nonempty, false, ◌&&◌, List, [], ◌∷◌, Option, some, Raises, ok, raised,
  Error, odata_error, ◌≡◌, refl, sym, ap, ◌∙◌, arith, All, All-map, eq_iff, Bool-cases, inl, inr,
  ◌⊎◌,
}
use mathlib.Core.Path.{subst}
use ichnos.Base.Dict.{lookup, store, lookup-store}
use ichnos.Responsive.{Host, write_responsive_file, refresh_protocol}
use ichnos.Cli.{
  Settings, Rebuild, put_file, count_failure, refreshed, refresh_one, unless_raised, refresh_all,
  refresh_code, with_token, cmd_responsive_refresh,
}
use ichnos.Cli.Rebuilding.{Spares, spared-loop}

module _ (path_of : Str → Str) (fetch : Str → Raises (List Host)) where
  -- The query was answered, and the file has the answer.
  abbrev pub IsDerived : List (Str × Str) → Str → Type 0
  IsDerived files p =
      (hosts : List Host) × (fetch p ≡ ok hosts)
      × (lookup (path_of p) files ≡ some (write_responsive_file hosts))

  -- No two protocols share a file.
  abbrev pub OwnFiles : List Str → Type 0
  OwnFiles [] = Unit
  OwnFiles (p ∷ ps) = All (λ q. (path_of q == path_of p) ≡ false) ps × OwnFiles ps

  failures-refreshed :
      (path : Str) (a : Raises (List Host)) (file : Option Str) (r : Rebuild)
      → r.failures ≤ (refreshed path_of fetch path (refresh_protocol a file) r).1.failures
  unfolding refreshed refresh_protocol count_failure
  failures-refreshed path (ok hosts) file r = omega arith
  failures-refreshed path (raised odata_error) file r = omega arith
  failures-refreshed path (raised e) file r = omega arith

  failures-one : (p : Str) (r : Rebuild) → r.failures ≤ (refresh_one path_of fetch p r).1.failures
  unfolding refresh_one
  failures-one p r = failures-refreshed (path_of p) (fetch p) (lookup (path_of p) r.files) r

  failures-next :
      (q : Raises (Unit {0})) (now : Rebuild) (later : Raises (Unit {0}) × Rebuild) (n : ℕ)
      → n ≤ now.failures
      → now.failures ≤ later.1.failures
      → n ≤ (unless_raised path_of fetch q now later).1.failures
  unfolding unless_raised
  failures-next (ok u) now later n h k = omega (arith, h, k)
  failures-next (raised e) now later n h k = h

  failures-all :
      (ps : List Str) (r : Rebuild) → r.failures ≤ (refresh_all path_of fetch ps r).1.failures
  unfolding refresh_all
  failures-all [] r = omega arith
  failures-all (p ∷ ps) r =
      let one = refresh_one path_of fetch p r in
      failures-next one.0 one.1 (refresh_all path_of fetch ps one.1) r.failures (failures-one p r)
        (failures-all ps one.1)

  -- How one protocol's rebuild ends: written, counted as a failure, or raised.
  Written : Str → Rebuild → Type 0
  Written p r =
      (hosts : List Host) × (fetch p ≡ ok hosts)
      × (refresh_one path_of fetch p r
          ≡ (ok tt, record r { files = store (path_of p) (write_responsive_file hosts) r.files }))

  Failed : Str → Rebuild → Type 0
  Failed p r =
      ((refresh_one path_of fetch p r).0 ≡ ok tt)
      × (r.failures < (refresh_one path_of fetch p r).1.failures)

  Broken : Str → Rebuild → Type 0
  Broken p r = (e : Error) × ((refresh_one path_of fetch p r).0 ≡ raised e)

  ending :
      (p : Str) (r : Rebuild) (a : Raises (List Host))
      → fetch p ≡ a
      → Written p r ⊎ (Failed p r ⊎ Broken p r)
  unfolding Written Failed Broken refresh_one refreshed refresh_protocol count_failure put_file
  ending p r (ok hosts) e = inl (hosts, e, rw e refl)
  ending p r (raised odata_error) e = inr (inl (rw e refl, rw e (omega arith)))
  ending p r (raised y) e = inr (inr (y, rw e refl))

  goes_on :
      (p : Str) (ps : List Str) (r : Rebuild)
      → (refresh_one path_of fetch p r).0 ≡ ok tt
      → refresh_all path_of fetch (p ∷ ps) r
        ≡ refresh_all path_of fetch ps (refresh_one path_of fetch p r).1
  unfolding refresh_all unless_raised
  goes_on p ps r h = rw h refl

  stops :
      (p : Str) (ps : List Str) (r : Rebuild) (e : Error)
      → (refresh_one path_of fetch p r).0 ≡ raised e
      → (refresh_all path_of fetch (p ∷ ps) r).0 ≡ raised e
  unfolding refresh_all unless_raised
  stops p ps r e h = rw h refl

  lookup-written :
      (path text : Str) (files : List (Str × Str)) → lookup path (store path text files) ≡ some text
  lookup-written path text files =
      ground (arith, lookup-store path path text files, eq_iff path path)

  IsDerived-loop :
      (ps : List Str) (r : Rebuild)
      → OwnFiles ps
      → (refresh_all path_of fetch ps r).0 ≡ ok tt
      → (refresh_all path_of fetch ps r).1.failures ≡ 0
      → All (IsDerived (refresh_all path_of fetch ps r).1.files) ps
  unfolding Written Failed Broken
  IsDerived-loop [] r own done clean = tt
  IsDerived-loop (p ∷ ps) r own done clean = elim (ending p r (fetch p) refl) [
    | inl (hosts, e, one) ↦
        let now = (refresh_one path_of fetch p r).1 in
        let whole = goes_on p ps r (ap (λ w. w.0) one) in
        subst (λ w. All (IsDerived w.1.files) (p ∷ ps)) (sym whole)
          (
            (
              hosts,
              e,
              spared-loop path_of fetch (path_of p) ps now (
                    All-map (λ q. (path_of q == path_of p) ≡ false)
                      (Spares path_of fetch (path_of p)) ps (λ q h. inl h) own.0)
                  ∙ ap (λ w. lookup (path_of p) w.1.files) one
                  ∙ lookup-written (path_of p) (write_responsive_file hosts) r.files,
            ),
            IsDerived-loop ps now own.1 (rw whole at done) (rw whole at clean),
          )
    | inr (inl (went, more)) ↦
        let now = (refresh_one path_of fetch p r).1 in
        let whole = goes_on p ps r went in
        ground (arith, more, failures-all ps now, (rw whole at clean))
    | inr (inr (e, broke)) ↦ ground (arith, done, stops p ps r e broke)
  ]

  refresh_code-zero :
      (ps : List Str) (w : Raises (Unit {0}) × Rebuild)
      → (refresh_code path_of fetch w).0 ≡ ok 0
      → (w.0 ≡ ok tt) × ((w.1.failures ≡ 0) × ((refresh_code path_of fetch w).1 ≡ w.1.files))
  unfolding refresh_code
  refresh_code-zero ps (ok u, r) h = (refl, (ground (arith, h), refl))
  refresh_code-zero ps (raised e, r) h = cc

  IsDerived-token :
      (token : Raises (Unit {0})) (ps : List Str) (files : List (Str × Str))
      → OwnFiles ps
      → (with_token path_of fetch token ps files).0 ≡ ok 0
      → All (IsDerived (with_token path_of fetch token ps files).1) ps
  unfolding with_token
  IsDerived-token (ok u) ps files own h =
      let start : Rebuild = record { files = files; failures = 0 } in
      let (done, (clean, same)) = refresh_code-zero ps (refresh_all path_of fetch ps start) h in
      subst (λ fs. All (IsDerived fs) ps) (sym same) (IsDerived-loop ps start own done clean)
  IsDerived-token (raised odata_error) ps files own h = ground (arith, h)
  IsDerived-token (raised e) ps files own h = cc

  -- An exit code of 0 of the nightly rebuild, of protocols that do not share files, means that the query of
  -- each protocol was answered, and that its file holds what was derived from the answer.
  pub rebuild_success :
      (s : Settings) (token : Raises (Unit {0})) (ps : List Str) (files : List (Str × Str))
      → OwnFiles ps
      → (cmd_responsive_refresh path_of fetch s token ps files).0 ≡ ok 0
      → All (IsDerived (cmd_responsive_refresh path_of fetch s token ps files).1) ps
  unfolding cmd_responsive_refresh
  rebuild_success s token ps files own h =
      elim (Bool-cases (nonempty s.client_id && nonempty s.client_secret)) [
        | inl e ↦ rw e (IsDerived-token token ps files own (rw e at h))
        | inr e ↦ ground (arith, e, h)
      ]
