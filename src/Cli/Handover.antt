-- ===== src/Cli/Handover.antt =====
-- From a run to the next publish cycle: what `_write_pending_outcome` adds to the pending files.
mod Tests
use ichnos.Base.{
  ℕ, Str, codes, ◌==◌, str_eq, IsLine, Raises, ok, ◌>>=◌, contains, with_newline,
  with_newline-append, Bool, true, false, ◌||◌, List, [], ◌∷◌, ◌++◌, map, map-append, append-nil,
  append_assoc, Option, none, some, if◌then◌else◌, keep_if, ◌≡◌, refl, sym, ap, ◌∙◌, arith, All,
  length, length-append, eq_iff, Bool-cases, inl, inr,
}
use ichnos.Base.Dict.{lookup, store, lookup-store}
use ichnos.Json.{Json, obj}
use ichnos.Json.Print.{dumps, default_style}
use ichnos.Models.{observation_row, VersionRecord, version_row, Observation}
use ichnos.Scanner.{ScanRunOutcome}
use ichnos.Publish.{
  Row, PublishBatch, empty_batch, add_scan_outcome, add_versions, append_row, rows_of, datasets,
  update, some_rows, scan_metadata_row, protocol_row,
}
use ichnos.Publish.Batches.{rows_for, add_scan_outcome_appends}
use ichnos.Publish.Pending.{Dir, ndjson, file_of, contents, append_ndjson, read_rows}
use ichnos.Publish.Pending.Rows.{IsStored, read_rows-append}
use ichnos.Cli.{append_all, write_pending_outcome}

-- All rows under one name.
gathered : Str → List (Str × List Row) → List Row
gathered d [] = []
gathered d ((k, rows) ∷ more) = if k == d then rows ++ gathered d more else gathered d more

abbrev keys : List (Str × List Row) → List Str
keys m = map (λ (e : Str × List Row). e.0) m

suffix_cancel : (s t u : Str) → s ++ u ≡ t ++ u → s ≡ t
suffix_cancel [] [] u h = refl
suffix_cancel [] (b ∷ t) u h = ground (arith, ap length h, length-append t u)
suffix_cancel (a ∷ s) [] u h = ground (arith, ap length h, length-append s u)
suffix_cancel (a ∷ s) (b ∷ t) u h = ground (arith, suffix_cancel s t u, h)

same_name : (k d : Str) → file_of k ≡ file_of d → k ≡ d
unfolding file_of
same_name k d h = suffix_cancel k d (codes ".ndjson") h

same_file : (k d : Str) → (file_of k == file_of d) ≡ (k == d)
same_file k d = elim (Bool-cases (k == d)) [
  | inl e ↦ ground (arith, e, eq_iff k d, eq_iff (file_of k) (file_of d))
  | inr e ↦ elim (Bool-cases (file_of k == file_of d)) [
    | inl f ↦ ground (arith, e, f, eq_iff k d, eq_iff (file_of k) (file_of d), same_name k d)
    | inr f ↦ f ∙ sym e
  ]
]

ndjson-append : (xs ys : List Row) → ndjson (xs ++ ys) ≡ ndjson xs ++ ndjson ys
unfolding ndjson
ndjson-append xs ys =
    rw (map-append (dumps default_style) xs ys)
      (with_newline-append (map (dumps default_style) xs) (map (dumps default_style) ys))

contents-append_ndjson :
    (k d : Str) (rows : List Row) (dir : Dir)
    → contents (file_of d) (append_ndjson (file_of k) rows dir)
      ≡ (if k == d then contents (file_of d) dir ++ ndjson rows else contents (file_of d) dir)
unfolding append_ndjson
contents-append_ndjson k d [] dir =
    unfold ndjson with_newline in ground (arith, append-nil (contents (file_of d) dir))
contents-append_ndjson k d (r ∷ rows) dir = ground (
  arith,
  lookup-store (file_of k) (file_of d) (contents (file_of k) dir ++ ndjson (r ∷ rows)) dir,
  same_file k d,
  eq_iff k d,
)

contents-hit :
    (k d : Str) (rows : List Row) (dir : Dir)
    → (k == d) ≡ true
    → contents (file_of d) (append_ndjson (file_of k) rows dir)
      ≡ contents (file_of d) dir ++ ndjson rows
contents-hit k d rows dir e = rw (contents-append_ndjson k d rows dir, e) refl

contents-miss :
    (k d : Str) (rows : List Row) (dir : Dir)
    → (k == d) ≡ false
    → contents (file_of d) (append_ndjson (file_of k) rows dir) ≡ contents (file_of d) dir
contents-miss k d rows dir e = rw (contents-append_ndjson k d rows dir, e) refl

contents-append_all :
    (d : Str) (ds : List (Str × List Row)) (dir : Dir)
    → contents (file_of d) (append_all ds dir) ≡ contents (file_of d) dir ++ ndjson (gathered d ds)
unfolding append_all gathered
contents-append_all d [] dir =
    unfold ndjson with_newline in sym (append-nil (contents (file_of d) dir))
contents-append_all d ((k, rows) ∷ more) dir = elim (Bool-cases (k == d)) [
  | inl e ↦ rw e (
      contents-append_all d more (append_ndjson (file_of k) rows dir)
      ∙ ap (λ t. t ++ ndjson (gathered d more)) (contents-hit k d rows dir e)
      ∙ append_assoc (contents (file_of d) dir) (ndjson rows) (ndjson (gathered d more))
      ∙ ap (λ t. contents (file_of d) dir ++ t) (sym (ndjson-append rows (gathered d more))))
  | inr e ↦ rw e (
      contents-append_all d more (append_ndjson (file_of k) rows dir)
      ∙ ap (λ t. t ++ ndjson (gathered d more)) (contents-miss k d rows dir e))
]

gathered-keep_if :
    (d : Str) (m : List (Str × List Row))
    → gathered d (keep_if (λ e. some_rows e.1) m) ≡ gathered d m
unfolding gathered
gathered-keep_if d [] = refl
gathered-keep_if d ((k, []) ∷ m) = ground (arith, gathered-keep_if d m)
gathered-keep_if d ((k, r ∷ rows) ∷ m) = rw (gathered-keep_if d m) refl

gathered-absent :
    (d : Str) (m : List (Str × List Row)) → contains d (keys m) ≡ false → gathered d m ≡ []
unfolding gathered contains
gathered-absent d [] h = refl
gathered-absent d ((k, rows) ∷ m) h = ground (arith, h, eq_iff k d, eq_iff d k, gathered-absent d m)

gathered-store :
    (k d : Str) (rows : List Row) (m : List (Str × List Row))
    → (k == d) ≡ false
    → gathered d (store k rows m) ≡ gathered d m
unfolding gathered store
gathered-store k d rows [] e = rw e refl
gathered-store k d rows ((j, old) ∷ m) e =
    ground (arith, e, eq_iff j k, eq_iff j d, eq_iff k d, gathered-store k d rows m)

keys-store :
    (k d : Str) (rows : List Row) (m : List (Str × List Row))
    → contains d (keys (store k rows m)) ≡ ((d == k) || contains d (keys m))
unfolding store contains
keys-store k d rows [] = refl
keys-store k d rows ((j, old) ∷ m) =
    ground (arith, eq_iff j k, eq_iff d j, eq_iff d k, keys-store k d rows m)

gathered-update :
    (d : Str) (m ds : List (Str × List Row))
    → contains d (keys ds) ≡ false
    → gathered d (update m ds) ≡ gathered d m
unfolding update contains
gathered-update d m [] n = refl
gathered-update d m ((k, rows) ∷ ds) n =
    gathered-update d (store k rows m) ds (ground (arith, n))
    ∙ gathered-store k d rows m (ground (arith, n, eq_iff k d, eq_iff d k))

keys-append_row :
    (p d : Str) (row : Row) (m : List (Str × List Row))
    → (d == p) ≡ false
    → contains d (keys m) ≡ false
    → contains d (keys (append_row p row m)) ≡ false
unfolding append_row
keys-append_row p d row m e n = rw (keys-store p d (rows_of p m ++ (row ∷ [])) m, e) n

keys-add_versions :
    (d : Str) (vs : List (Str × VersionRecord)) (b : PublishBatch)
    → contains d (keys b.protocol_rows) ≡ false
    → contains d (map (λ (v : Str × VersionRecord). v.0) vs) ≡ false
    → contains d (keys (add_versions vs b).protocol_rows) ≡ false
unfolding add_versions contains
keys-add_versions d [] b h n = h
keys-add_versions d ((p, v) ∷ vs) b h n =
    keys-add_versions d vs _
      (keys-append_row p d (protocol_row v) b.protocol_rows (ground (arith, n)) h)
      (ground (arith, n))

abbrev protocols_of : ScanRunOutcome → List Str
protocols_of outcome = map (λ (v : Str × VersionRecord). v.0) outcome.new_versions

-- `observations` is the first of the datasets that no protocol can replace.
gathered-datasets :
    (b : PublishBatch)
    → contains (codes "observations") (keys b.protocol_rows) ≡ false
    → gathered (codes "observations") (datasets b) ≡ b.observations
unfolding datasets gathered str_eq
gathered-datasets b n =
    let base =
      (codes "observations", b.observations)
      ∷ (codes "versions", b.versions)
      ∷ (codes "scan_metadata", b.scan_metadata)
      ∷ [] in
    gathered-keep_if (codes "observations") (update base b.protocol_rows)
    ∙ gathered-update (codes "observations") base b.protocol_rows n
    ∙ append-nil b.observations

keys-add_scan_outcome :
    (outcome : ScanRunOutcome)
    → contains (codes "observations") (protocols_of outcome) ≡ false
    → contains (codes "observations") (keys (add_scan_outcome outcome empty_batch).protocol_rows)
      ≡ false
unfolding add_scan_outcome
keys-add_scan_outcome outcome n =
    keys-add_versions (codes "observations") outcome.new_versions _ (unfold contains in refl) n

abbrev pub observation_rows : ScanRunOutcome → List Row
observation_rows outcome = map (λ (o : Observation). obj (observation_row o)) outcome.observations

observations_appended :
    (outcome : ScanRunOutcome) (dir : Dir)
    → contains (codes "observations") (protocols_of outcome) ≡ false
    → contents (file_of (codes "observations")) (write_pending_outcome outcome dir)
      ≡ contents (file_of (codes "observations")) dir ++ ndjson (observation_rows outcome)
unfolding write_pending_outcome
observations_appended outcome dir n =
    let b = add_scan_outcome outcome empty_batch in
    contents-append_all (codes "observations") (datasets b) dir
    ∙ ap (λ rows. contents (file_of (codes "observations")) dir ++ ndjson rows)
        (gathered-datasets b (keys-add_scan_outcome outcome n)
          ∙ (add_scan_outcome_appends outcome empty_batch (codes "observations")).0)

-- What the next publish cycle reads from the pending file of observations, after a run has handed over its
-- outcome: the rows that it would have read before, then a row for each observation of the run, in order;
-- and it raises exactly if it did before. The file held whole lines, `json` is assumed to read each
-- observation's row back as it printed it, and no protocol is called "observations".
pub observations_reach_publish :
    (loads : Str → Option Json) (outcome : ScanRunOutcome) (dir : Dir) (ls : List Str)
    → contents (file_of (codes "observations")) dir ≡ with_newline ls
    → All IsLine ls
    → All (IsStored loads) (observation_rows outcome)
    → contains (codes "observations") (map (λ (v : Str × VersionRecord). v.0) outcome.new_versions)
      ≡ false
    → read_rows loads
        (contents (file_of (codes "observations")) (write_pending_outcome outcome dir))
      ≡ (read_rows loads (contents (file_of (codes "observations")) dir) >>= λ old.
          ok (old ++ observation_rows outcome))
observations_reach_publish loads outcome dir ls held lines stored n =
    ap (λ s. read_rows loads s)
      (observations_appended outcome dir n ∙ ap (λ s. s ++ ndjson (observation_rows outcome)) held)
    ∙ read_rows-append loads ls (observation_rows outcome) lines stored
    ∙ ap (λ s. read_rows loads s >>= λ old. ok (old ++ observation_rows outcome)) (sym held)
