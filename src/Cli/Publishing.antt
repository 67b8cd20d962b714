-- ===== src/Cli/Publishing.antt =====
-- What a publish cycle commits and leaves pending.
use ichnos.Base.{
  Str, contains, Bool, true, false, List, [], ◌++◌, map, append-nil, Option, none, if◌then◌else◌,
  Raises, ok, raised, ◌≡◌, refl, sym, ap, ◌∙◌, arith, publish_error, upload_error,
}
use ichnos.Base.Dict.{lookup}
use ichnos.Json.{Json}
use ichnos.Models.{Exclusion}
use ichnos.Publish.{Row}
use ichnos.Publish.Pending.{file_of, clear_pending, read_pending_datasets}
use ichnos.Publish.Hour.{Service, Cycle, publish_hour}
use ichnos.Publish.Hour.Accounting.{IsAccounted, publish_hour-IsAccounted, commits_of, names_of}
use ichnos.Publish.Hour.Left.{pending_after}
use ichnos.Cli.{
  Settings, exit_code, with_exclusions, cmd_publish, read, listed, published, credentials,
}

module _ (loads : Str → Option Json) (service : Service) (s : Settings) where
  -- A pending file is as it was, or gone with its dataset committed.
  abbrev pub Kept : Str → Cycle → Cycle → Type 0
  Kept f c c' =
      (done : List (Str × List Row)) × (c'.log ≡ c.log ++ commits_of done)
      × (lookup f c'.dir
          ≡ (if contains f (map file_of (names_of done)) then none else lookup f c.dir))

  Kept-refl : (f : Str) (c : Cycle) → Kept f c c
  unfolding commits_of names_of contains
  Kept-refl f c = ([], sym (append-nil c.log), refl)

  Kept-listed :
      (f : Str) (c : Cycle) (pending : List (Str × List Row)) (es : Raises (List Exclusion))
      → Kept f c (listed loads service s pending c es).1
  unfolding listed published
  Kept-listed f c pending (ok es) = pending_after service (with_exclusions s es pending) c f
  Kept-listed f c pending (raised e) = Kept-refl f c

  Kept-if :
      (b : Bool) (f : Str) (c : Cycle) (pending : List (Str × List Row))
      (es : Raises (List Exclusion))
      → Kept f c (if b then listed loads service s pending c es else (ok 1, c)).1
  Kept-if true f c pending es = Kept-listed f c pending es
  Kept-if false f c pending es = Kept-refl f c

  Kept-read :
      (f : Str) (c : Cycle) (es : Raises (List Exclusion)) (r : Raises (List (Str × List Row)))
      → Kept f c (read loads service s es c r).1
  unfolding read
  Kept-read f c es (ok pending) = Kept-if (credentials loads service s) f c pending es
  Kept-read f c es (raised e) = Kept-refl f c

  -- However the command ends - with either exit code or an exception, from the pending files, the exclusion
  -- table, the converter or the service - each pending file is as it was, or it is gone and a dataset of
  -- its name has been committed.
  pub cmd_publish_keeps :
      (f : Str) (exclusions : Raises (List Exclusion)) (c : Cycle)
      → Kept f c (cmd_publish loads service s exclusions c).1
  unfolding cmd_publish
  cmd_publish_keeps f exclusions c = Kept-read f c exclusions (read_pending_datasets loads c.dir)

  all_done :
      (d : List (Str × List Row)) (c : Cycle) (r : Raises (Unit {0}) × Cycle)
      → IsAccounted service d c r
      → exit_code r.0 ≡ ok 0
      → (r.1.log ≡ c.log ++ commits_of d) × (r.1.dir ≡ clear_pending (names_of d) c.dir)
  unfolding exit_code
  all_done d c (ok u, c') a h =
      rw (a.parts ∙ ap (λ rest. a.done ++ rest) a.stopped ∙ append-nil a.done)
        (a.committed, a.cleared)
  all_done d c (raised publish_error, c') a h = ground (arith, h)
  all_done d c (raised upload_error, c') a h = ground (arith, h)
  all_done d c (raised e, c') a h = cc

  success-if :
      (b : Bool) (pending : List (Str × List Row)) (es : List Exclusion) (c : Cycle)
      → (if b then listed loads service s pending c (ok es) else (ok 1, c)).0 ≡ ok 0
      → ((if b then listed loads service s pending c (ok es) else (ok 1, c)).1.log
          ≡ c.log ++ commits_of (with_exclusions s es pending))
        × ((if b then listed loads service s pending c (ok es) else (ok 1, c)).1.dir
            ≡ clear_pending (names_of (with_exclusions s es pending)) c.dir)
  unfolding listed published
  success-if true pending es c h =
      all_done (with_exclusions s es pending) c
        (publish_hour service (with_exclusions s es pending) c)
        (publish_hour-IsAccounted service (with_exclusions s es pending) c) h
  success-if false pending es c h = ground (arith, h)

  -- Where the pending files and the exclusion table can be read and the exit code is 0, every dataset with
  -- rows has been committed, once each and in order, the snapshot of the exclusions among them; and their
  -- pending files are gone, and no others.
  pub cmd_publish_success :
      (pending : List (Str × List Row)) (exclusions : List Exclusion) (c : Cycle)
      → read_pending_datasets loads c.dir ≡ ok pending
      → (cmd_publish loads service s (ok exclusions) c).0 ≡ ok 0
      → ((cmd_publish loads service s (ok exclusions) c).1.log
          ≡ c.log ++ commits_of (with_exclusions s exclusions pending))
        × ((cmd_publish loads service s (ok exclusions) c).1.dir
            ≡ clear_pending (names_of (with_exclusions s exclusions pending)) c.dir)
  unfolding cmd_publish read
  cmd_publish_success pending exclusions c loaded h =
      rw loaded (success-if (credentials loads service s) pending exclusions c (rw loaded at h))
