-- ===== src/Cli/Rebuilding.antt =====
-- What the nightly rebuild of the lists of known hosts does to the files.
pub mod Derived
mod Tests
use ichnos.Base.{
  Str, ◌==◌, nonempty, Bool, true, false, ◌&&◌, List, [], ◌∷◌, Option, none, some, Raises, ok,
  raised, Error, odata_error, ◌≡◌, refl, ◌∙◌, arith, All, eq_iff, Bool-cases, inl, inr, ◌⊎◌,
}
use ichnos.Base.Dict.{lookup, lookup-store}
use ichnos.Responsive.{Host, write_responsive_file, refresh_protocol}
use ichnos.Cli.{
  Settings, Rebuild, put_file, count_failure, refreshed, refresh_one, unless_raised, refresh_all,
  refresh_code, with_token, cmd_responsive_refresh,
}

module _ (path_of : Str → Str) (fetch : Str → Raises (List Host)) where
  -- This protocol's file is another one, or its query failed.
  abbrev pub Spares : Str → Str → Type 0
  Spares path p = ((path_of p == path) ≡ false) ⊎ ((e : Error) × (fetch p ≡ raised e))

  lookup-put_same :
      (path p : Str) (o : Option Str) (files : List (Str × Str))
      → lookup p files ≡ o
      → lookup path (put_file p o files) ≡ lookup path files
  unfolding put_file
  lookup-put_same path p none files e = refl
  lookup-put_same path p (some text) files e =
      ground (arith, lookup-store p path text files, e, eq_iff p path)

  lookup-put_other :
      (path p : Str) (o : Option Str) (files : List (Str × Str))
      → (p == path) ≡ false
      → lookup path (put_file p o files) ≡ lookup path files
  unfolding put_file
  lookup-put_other path p none files e = refl
  lookup-put_other path p (some text) files e = rw (lookup-store p path text files, e) refl

  files-count_failure : (b : Bool) (r : Rebuild) → (count_failure path_of fetch b r).files ≡ r.files
  unfolding count_failure
  files-count_failure true r = refl
  files-count_failure false r = refl

  failed-refreshed :
      (path p : Str) (e : Error) (r : Rebuild)
      → lookup path
          (refreshed path_of fetch p (refresh_protocol (raised e) (lookup p r.files)) r).1.files
        ≡ lookup path r.files
  unfolding refreshed refresh_protocol count_failure
  failed-refreshed path p odata_error r = lookup-put_same path p (lookup p r.files) r.files refl
  failed-refreshed path p e r = refl

  other-refreshed :
      (path p : Str) (answer : Raises (List Host)) (r : Rebuild)
      → (p == path) ≡ false
      → lookup path
          (refreshed path_of fetch p (refresh_protocol answer (lookup p r.files)) r).1.files
        ≡ lookup path r.files
  unfolding refreshed refresh_protocol count_failure
  other-refreshed path p (ok hosts) r h =
      lookup-put_other path p (some (write_responsive_file hosts)) r.files h
  other-refreshed path p (raised odata_error) r h =
      lookup-put_other path p (lookup p r.files) r.files h
  other-refreshed path p (raised e) r h = refl

  spared-one :
      (path p : Str) (r : Rebuild)
      → Spares path p
      → lookup path (refresh_one path_of fetch p r).1.files ≡ lookup path r.files
  unfolding refresh_one
  spared-one path p r (inl h) = other-refreshed path (path_of p) (fetch p) r h
  spared-one path p r (inr (e, h)) = rw h (failed-refreshed path (path_of p) e r)

  -- Where the loop goes on, and where it stops.
  after-one :
      (path : Str) (old : Option Str) (q : Raises (Unit {0})) (now : Rebuild)
      (later : Raises (Unit {0}) × Rebuild)
      → lookup path now.files ≡ old
      → lookup path later.1.files ≡ lookup path now.files
      → lookup path (unless_raised path_of fetch q now later).1.files ≡ old
  unfolding unless_raised
  after-one path old (ok u) now later h k = k ∙ h
  after-one path old (raised e) now later h k = h

  pub spared-loop :
      (path : Str) (protocols : List Str) (r : Rebuild)
      → All (Spares path) protocols
      → lookup path (refresh_all path_of fetch protocols r).1.files ≡ lookup path r.files
  unfolding refresh_all
  spared-loop path [] r h = refl
  spared-loop path (p ∷ protocols) r h =
      let now = refresh_one path_of fetch p r in
      after-one path (lookup path r.files) now.0 now.1 (refresh_all path_of fetch protocols now.1)
        (spared-one path p r h.0) (spared-loop path protocols now.1 h.1)

  files-refresh_code :
      (w : Raises (Unit {0}) × Rebuild) → (refresh_code path_of fetch w).1 ≡ w.1.files
  unfolding refresh_code
  files-refresh_code (ok u, r) = refl
  files-refresh_code (raised e, r) = refl

  spared-token :
      (path : Str) (token : Raises (Unit {0})) (protocols : List Str) (files : List (Str × Str))
      → All (Spares path) protocols
      → lookup path (with_token path_of fetch token protocols files).1 ≡ lookup path files
  unfolding with_token
  spared-token path (ok u) protocols files h =
      rw
        (files-refresh_code
          (refresh_all path_of fetch protocols (record { files = files; failures = 0 })))
        (spared-loop path protocols (record { files = files; failures = 0 }) h)
  spared-token path (raised odata_error) protocols files h = refl
  spared-token path (raised e) protocols files h = refl

  -- However the command ends, the file at a path is as it was, unless some protocol whose file it is had its
  -- query answered: a query that fails, a missing access token or missing credentials truncate nothing.
  pub failed_query_keeps_file :
      (path : Str) (s : Settings) (token : Raises (Unit {0})) (protocols : List Str)
      (files : List (Str × Str))
      → All (Spares path) protocols
      → lookup path (cmd_responsive_refresh path_of fetch s token protocols files).1
        ≡ lookup path files
  unfolding cmd_responsive_refresh
  failed_query_keeps_file path s token protocols files h =
      elim (Bool-cases (nonempty s.client_id && nonempty s.client_secret)) [
        | inl e ↦ rw e (spared-token path token protocols files h)
        | inr e ↦ rw e refl
      ]
