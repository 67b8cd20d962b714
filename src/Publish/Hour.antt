-- ===== src/Publish/Hour.antt =====
-- src/ichnos/publish.py: `publish_hour`. The converter and the upload service are a parameter: each
-- of their calls may raise, and `inspect` says whether there are issues.
pub mod Accounting
pub mod Left
pub mod Checked
use ichnos.Base.{
  Str, codes, ◌==◌, contains, Bool, true, false, List, [], ◌∷◌, ◌++◌, map, Option, none, some,
  if◌then◌else◌, Raises, ok, raised, Error, publish_error, ◌>>=◌, keep_if,
}
use ichnos.Publish.{Row, some_rows}
use ichnos.Publish.Pending.{Dir, clear_pending}

-- `ConflictResolution`
pub data Resolution : Type 0 where
  append overwrite : Resolution

pub record Service : Type 0 where
  pub convert : Str → List Row → Raises (Unit {0})
  pub create_session : Str → Raises (Unit {0})
  pub upload_file : Str → List Row → Raises (Unit {0})
  pub inspect : Str → List Row → Raises Bool
  pub commit : Str → List Row → Resolution → Raises (Unit {0})

pub record Commit : Type 0 where
  pub dataset : Str
  pub rows : List Row
  pub resolution : Resolution

-- What has been committed, in order, and the pending directory.
pub record Cycle : Type 0 where
  pub log : List Commit
  pub dir : Dir

-- `OVERWRITE_DATASETS`
abbrev pub overwrite_datasets : List Str
overwrite_datasets = codes "exclusions" ∷ []

unfoldable pub resolution_of : Str → Resolution
resolution_of dataset = if contains dataset overwrite_datasets then overwrite else append

no_issues : Bool → Raises (Unit {0})
no_issues true = raised publish_error
no_issues false = ok tt

module _ (service : Service) where
  -- The body of the loop for a dataset with rows, up to its commit.
  unfoldable pub send : Str → List Row → Raises (Unit {0})
  unfolding no_issues resolution_of
  send dataset rows = do
    _ ← service.convert dataset rows
    _ ← service.create_session dataset
    _ ← service.upload_file dataset rows
    issues ← service.inspect dataset rows
    _ ← no_issues issues
    service.commit dataset rows (resolution_of dataset)

  -- `results[dataset] = commit` and the caller's `on_commit`, which clears the dataset's pending file.
  unfoldable pub land : Str → List Row → Cycle → Cycle
  unfolding resolution_of clear_pending
  land dataset rows c = record {
    log =
        c.log
        ++ (record { dataset = dataset; rows = rows; resolution = resolution_of dataset } ∷ []);
    dir = clear_pending (dataset ∷ []) c.dir;
  }

  unfoldable pub publish_hour : List (Str × List Row) → Cycle → Raises (Unit {0}) × Cycle
  unfolding send land
  publish_hour [] c = (ok tt, c)
  publish_hour ((dataset, rows) ∷ more) c =
      let skipped = publish_hour more c in
      let landed = publish_hour more (land dataset rows c) in
      if some_rows rows
      then elim (send dataset rows) [ ok _ ↦ landed | raised e ↦ (raised e, c) ]
      else skipped
