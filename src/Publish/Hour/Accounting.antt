-- ===== src/Publish/Hour/Accounting.antt =====
-- Which datasets a publish cycle commits, and which pending files it leaves.
use ichnos.Base.{
  Str, contains, true, false, List, [], ◌∷◌, ◌++◌, map, append_assoc, append-nil, none,
  if◌then◌else◌, Raises, ok, raised, ◌≡◌, refl, sym, ap, ◌∙◌, arith, Bool-cases, inl, inr, eq_iff,
}
use ichnos.Base.Dict.{lookup, remove, lookup-remove}
use ichnos.Publish.{Row, some_rows}
use ichnos.Publish.Pending.{Dir, file_of, clear_pending}
use ichnos.Publish.Hour.{Service, Commit, Cycle, resolution_of, send, land, publish_hour}

-- The commits of some datasets: one for each that has rows, in order.
unfoldable pub commits_of : List (Str × List Row) → List Commit
commits_of [] = []
commits_of ((d, rows) ∷ more) =
    if some_rows rows
    then record { dataset = d; rows = rows; resolution = resolution_of d } ∷ commits_of more
    else commits_of more

-- Their names.
unfoldable pub names_of : List (Str × List Row) → List Str
names_of [] = []
names_of ((d, rows) ∷ more) = if some_rows rows then d ∷ names_of more else names_of more

module _ (service : Service) where
  -- Where a cycle stopped: at the end, or at a dataset whose sending raised this exception.
  abbrev pub StoppedAt : Raises (Unit {0}) → List (Str × List Row) → Type 0
  StoppedAt (ok u) rest = rest ≡ []
  StoppedAt (raised e) [] = ⊥
  StoppedAt (raised e) ((d, rows) ∷ rest) = send service d rows ≡ raised e

  pub record IsAccounted (datasets : List (Str × List Row)) (c : Cycle)
      (r : Raises (Unit {0}) × Cycle) : Type 0 where
    pub done : List (Str × List Row)
    pub rest : List (Str × List Row)
    pub parts : datasets ≡ done ++ rest
    pub committed : r.1.log ≡ c.log ++ commits_of done
    pub cleared : r.1.dir ≡ clear_pending (names_of done) c.dir
    pub stopped : StoppedAt r.0 rest

  IsAccounted-landed :
      (d : Str) (rows : List Row) (more : List (Str × List Row)) (c : Cycle)
      (r : Raises (Unit {0}) × Cycle)
      → some_rows rows ≡ true
      → IsAccounted more (land service d rows c) r
      → IsAccounted ((d, rows) ∷ more) c r
  unfolding land commits_of names_of clear_pending
  IsAccounted-landed d rows more c r full a = record {
    done = (d, rows) ∷ a.done;
    rest = a.rest;
    parts = ap (λ (l : List (Str × List Row)). (d, rows) ∷ l) a.parts;
    committed = rw full (a.committed ∙ append_assoc c.log (_ ∷ []) (commits_of a.done));
    cleared = rw full a.cleared;
    stopped = a.stopped;
  }

  IsAccounted-skipped :
      (d : Str) (rows : List Row) (more : List (Str × List Row)) (c : Cycle)
      (r : Raises (Unit {0}) × Cycle)
      → some_rows rows ≡ false
      → IsAccounted more c r
      → IsAccounted ((d, rows) ∷ more) c r
  unfolding commits_of names_of
  IsAccounted-skipped d rows more c r empty a = record {
    done = (d, rows) ∷ a.done;
    rest = a.rest;
    parts = ap (λ (l : List (Str × List Row)). (d, rows) ∷ l) a.parts;
    committed = rw empty a.committed;
    cleared = rw empty a.cleared;
    stopped = a.stopped;
  }

  IsAccounted-sent :
      (d : Str) (rows : List Row) (more : List (Str × List Row)) (c : Cycle) (s : Raises (Unit {0}))
      → some_rows rows ≡ true
      → send service d rows ≡ s
      → IsAccounted more (land service d rows c) (publish_hour service more (land service d rows c))
      → IsAccounted ((d, rows) ∷ more) c (elim s [
        | ok _ ↦ publish_hour service more (land service d rows c)
        | raised e ↦ (raised e, c)
      ])
  unfolding commits_of names_of clear_pending
  IsAccounted-sent d rows more c (ok u) full e a = IsAccounted-landed d rows more c _ full a
  IsAccounted-sent d rows more c (raised x) full e a = record {
    done = [];
    rest = (d, rows) ∷ more;
    parts = refl;
    committed = sym (append-nil c.log);
    cleared = refl;
    stopped = e;
  }

  -- Whatever the converter and the service do, a cycle splits its datasets in two: those of a first part
  -- that have rows have been committed, once each and in order, and their pending files, and no others,
  -- are gone; a cycle that returns has no second part, and one that raises stopped at the first dataset
  -- of the second part, whose sending raised.
  pub publish_hour-IsAccounted :
      (datasets : List (Str × List Row)) (c : Cycle)
      → IsAccounted datasets c (publish_hour service datasets c)
  unfolding publish_hour commits_of names_of clear_pending
  publish_hour-IsAccounted [] c = record {
    done = [];
    rest = [];
    parts = refl;
    committed = sym (append-nil c.log);
    cleared = refl;
    stopped = refl;
  }
  publish_hour-IsAccounted ((d, rows) ∷ more) c = elim (Bool-cases (some_rows rows)) [
    | inl full ↦ rw full (
        IsAccounted-sent d rows more c (send service d rows) full refl
          (publish_hour-IsAccounted more (land service d rows c)))
    | inr empty ↦
        rw empty (IsAccounted-skipped d rows more c _ empty (publish_hour-IsAccounted more c))
  ]

pub lookup-clear_pending :
    (f : Str) (names : List Str) (dir : Dir)
    → lookup f (clear_pending names dir)
      ≡ (if contains f (map file_of names) then none else lookup f dir)
unfolding clear_pending contains
lookup-clear_pending f [] dir = refl
lookup-clear_pending f (n ∷ names) dir = ground (
  arith,
  lookup-clear_pending f names (remove (file_of n) dir),
  lookup-remove (file_of n) f dir,
  eq_iff f (file_of n),
  eq_iff (file_of n) f,
)
