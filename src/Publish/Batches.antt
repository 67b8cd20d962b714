-- ===== src/Publish/Batches.antt =====
-- What `PublishBatch.add_scan_outcome` adds to a batch.
use ichnos.Base.{
  Str, ◌==◌, List, [], ◌∷◌, ◌++◌, map, append_assoc, append-nil, if◌then◌else◌, ◌≡◌, refl, sym, ap,
  ◌∙◌, arith, eq_iff, Bool-cases, inl, inr,
}
use ichnos.Base.Dict.{lookup-store}
use ichnos.Json.{obj}
use ichnos.Models.{Observation, observation_row, VersionRecord, version_row}
use ichnos.Scanner.{ScanRunOutcome}
use ichnos.Publish.{
  Row, PublishBatch, rows_of, append_row, protocol_row, scan_metadata_row, add_versions,
  add_scan_outcome,
}

-- The rows that a list of new versions means for one protocol's dataset.
pub rows_for : Str → List (Str × VersionRecord) → List Row
rows_for p [] = []
rows_for p ((q, v) ∷ vs) = if q == p then protocol_row v ∷ rows_for p vs else rows_for p vs

rows_of-append_row :
    (k p : Str) (row : Row) (d : List (Str × List Row))
    → rows_of p (append_row k row d) ≡ (if k == p then rows_of p d ++ (row ∷ []) else rows_of p d)
unfolding append_row
rows_of-append_row k p row d =
    ground (arith, lookup-store k p (rows_of k d ++ (row ∷ [])) d, eq_iff k p)

rows_of-add_versions :
    (p : Str) (vs : List (Str × VersionRecord)) (b : PublishBatch)
    → rows_of p (add_versions vs b).protocol_rows ≡ rows_of p b.protocol_rows ++ rows_for p vs
unfolding add_versions rows_for
rows_of-add_versions p [] b = sym (append-nil _)
rows_of-add_versions p ((q, v) ∷ vs) b =
    rows_of-add_versions p vs _
    ∙ rw rows_of-append_row (elim (Bool-cases (q == p)) [
      | inl e ↦
          rw e (append_assoc (rows_of p b.protocol_rows) (protocol_row v ∷ []) (rows_for p vs))
      | inr e ↦ rw e
    ])

versions-add_versions :
    (vs : List (Str × VersionRecord)) (b : PublishBatch)
    → (add_versions vs b).versions ≡ b.versions ++ map (λ e. obj (version_row e.1)) vs
unfolding add_versions
versions-add_versions [] b = sym (append-nil _)
versions-add_versions ((q, v) ∷ vs) b =
    versions-add_versions vs _
    ∙ append_assoc b.versions (obj (version_row v) ∷ [])
        (map (λ (e : Str × VersionRecord). obj (version_row e.1)) vs)

others-add_versions :
    (vs : List (Str × VersionRecord)) (b : PublishBatch)
    → ((add_versions vs b).observations ≡ b.observations)
      × ((add_versions vs b).scan_metadata ≡ b.scan_metadata)
unfolding add_versions
others-add_versions [] b = (refl, refl)
others-add_versions ((q, v) ∷ vs) b = others-add_versions vs _

-- Adding a run's outcome to a batch appends, behind the rows that were there and in the run's order: a
-- row for each observation, one for each new version, one row of metadata, and to the dataset of each
-- protocol exactly the rows of the new versions under that protocol.
pub add_scan_outcome_appends :
    (outcome : ScanRunOutcome) (b : PublishBatch) (p : Str)
    → ((add_scan_outcome outcome b).observations
        ≡ b.observations ++ map (λ o. obj (observation_row o)) outcome.observations)
      × ((add_scan_outcome outcome b).versions
          ≡ b.versions ++ map (λ e. obj (version_row e.1)) outcome.new_versions)
      × ((add_scan_outcome outcome b).scan_metadata
          ≡ b.scan_metadata ++ (scan_metadata_row outcome.metadata ∷ []))
      × (rows_of p (add_scan_outcome outcome b).protocol_rows
          ≡ rows_of p b.protocol_rows ++ rows_for p outcome.new_versions)
unfolding add_scan_outcome
add_scan_outcome_appends outcome b p =
    let b' = record b {
      observations =
          b.observations ++ map (λ (o : Observation). obj (observation_row o)) outcome.observations;
    } in
    (
      (others-add_versions outcome.new_versions b').0,
      versions-add_versions outcome.new_versions b',
      ap (λ rows. rows ++ (scan_metadata_row outcome.metadata ∷ []))
          (others-add_versions outcome.new_versions b').1,
      rows_of-add_versions p outcome.new_versions b',
    )
