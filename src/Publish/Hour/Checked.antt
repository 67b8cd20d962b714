-- ===== src/Publish/Hour/Checked.antt =====
-- What comes before each commit of `publish_hour` (src/ichnos/publish.py).
use ichnos.Base.{codes, ◌==◌, true, false, List, ◌++◌, if◌then◌else◌, Raises, ok, ◌≡◌, All}
use ichnos.Publish.{some_rows}
use ichnos.Publish.Hour.{append, overwrite, Service, Commit, Cycle}

module _ (service : Service) where
  -- The rows were converted and uploaded, the inspection found no issues, and the service accepted the commit;
  -- it overwrites the snapshot of the exclusions and appends to any other dataset.
  pub record IsChecked (k : Commit) : Type 0 where
    pub some_committed : some_rows k.rows ≡ true
    pub converted : service.convert k.dataset k.rows ≡ ok tt
    pub session : service.create_session k.dataset ≡ ok tt
    pub uploaded : service.upload_file k.dataset k.rows ≡ ok tt
    pub inspected : service.inspect k.dataset k.rows ≡ ok false
    pub accepted : service.commit k.dataset k.rows k.resolution ≡ ok tt
    pub resolved : k.resolution ≡ (if k.dataset == codes "exclusions" then overwrite else append)

  -- The commits that a cycle adds to the log.
  Added : Cycle → Raises (Unit {0}) × Cycle → Type 0
  Added c r = (added : List Commit) × (r.1.log ≡ c.log ++ added) × All IsChecked added
