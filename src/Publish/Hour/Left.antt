-- ===== src/Publish/Hour/Left.antt =====
-- The pending files that a publish cycle leaves (src/ichnos/publish.py).
use ichnos.Base.{Str, contains, List, ◌++◌, map, none, if◌then◌else◌, ◌≡◌, ap, ◌∙◌}
use ichnos.Base.Dict.{lookup}
use ichnos.Publish.{Row}
use ichnos.Publish.Pending.{file_of}
use ichnos.Publish.Hour.{Service, Cycle, publish_hour}
use ichnos.Publish.Hour.Accounting.{
  names_of, commits_of, publish_hour-IsAccounted, lookup-clear_pending,
}

module _ (service : Service) where
  -- After a cycle, each pending file is either as it was, or gone with its dataset committed.
  pub pending_after :
      (datasets : List (Str × List Row)) (c : Cycle) (f : Str)
      → (done : List (Str × List Row)) × ((publish_hour service datasets c).1.log
          ≡ c.log ++ commits_of done)
        × (lookup f (publish_hour service datasets c).1.dir
            ≡ (if contains f (map file_of (names_of done)) then none else lookup f c.dir))
  pending_after datasets c f =
      let a = publish_hour-IsAccounted service datasets c in
      (
        a.done,
        a.committed,
        ap (λ dir. lookup f dir) a.cleared ∙ lookup-clear_pending f (names_of a.done) c.dir,
      )
