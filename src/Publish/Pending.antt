-- ===== src/Publish/Pending.antt =====
-- src/ichnos/publish.py: the pending directory, as its files by name, each with its text.
-- `json.loads` is the parameter `loads`; `none` stands for its `ValueError`.
pub mod Rows
use ichnos.Base.{
  Str, codes, ◌==◌, strip, nonempty, file_lines, with_newline, Bool, true, false, List, [], ◌∷◌,
  ◌++◌, map, Option, none, some, if◌then◌else◌, Raises, ok, raised, value_error, ◌>>=◌, str_le,
}
use ichnos.Base.Dict.{lookup, store, remove}
use ichnos.Base.Sort.{sorted}
use ichnos.Json.{Json}
use ichnos.Json.Print.{dumps, default_style}
use ichnos.Publish.{Row, some_rows}

abbrev pub Dir : Type 0
Dir = List (Str × Str)

-- The text that both `write_ndjson` and `append_ndjson` write for some rows.
unfoldable pub ndjson : List Row → Str
ndjson rows = with_newline (map (dumps default_style) rows)

-- `f"{dataset}.ndjson"`
unfoldable pub file_of : Str → Str
file_of dataset = dataset ++ codes ".ndjson"

abbrev pub contents : Str → Dir → Str
contents name dir = elim (lookup name dir) [ none ↦ [] | some s ↦ s ]

-- `append_ndjson`
unfoldable pub append_ndjson : Str → List Row → Dir → Dir
unfolding ndjson
append_ndjson name rows dir =
    if some_rows rows then store name (contents name dir ++ ndjson rows) dir else dir

-- `name[:-len(".ndjson")]` if the name ends so.
unfoldable pub stem : Str → Option Str
stem [] = none
stem (c ∷ s) =
    if (c ∷ s) == codes ".ndjson"
    then some []
    else elim (stem s) [ none ↦ none | some r ↦ some (c ∷ r) ]

-- `clear_pending`
unfoldable pub clear_pending : List Str → Dir → Dir
unfolding file_of
clear_pending [] dir = dir
clear_pending (name ∷ names) dir = clear_pending names (remove (file_of name) dir)

module _ (loads : Str → Option Json) where
  loaded : Option Json → Raises Json
  loaded none = raised value_error
  loaded (some j) = ok j

  -- The rows of the lines of a file; blank lines are skipped.
  unfoldable pub rows_from : List Str → Raises (List Row)
  unfolding loaded
  rows_from [] = ok []
  rows_from (l ∷ ls) =
      let rest = rows_from ls in
      if nonempty (strip l)
      then (do row ← loaded (loads (strip l)); rows ← rest; ok (row ∷ rows))
      else rest

  -- The rows of one pending file.
  unfoldable pub read_rows : Str → Raises (List Row)
  unfolding rows_from
  read_rows s = rows_from (file_lines s)

  read_file : Str → Str → List (Str × List Row) → Raises (List (Str × List Row))
  unfolding stem read_rows
  read_file name s rest = elim (stem name) [
    | none ↦ ok rest
    | some dataset ↦ do
      rows ← read_rows s
      ok (if some_rows rows then (dataset, rows) ∷ rest else rest)
  ]

  read_files : Dir → Raises (List (Str × List Row))
  unfolding read_file
  read_files [] = ok []
  read_files ((name, s) ∷ files) = do rest ← read_files files; read_file name s rest

  abbrev by_name : Str × Str → Str × Str → Bool
  by_name f g = str_le f.0 g.0

  -- `read_pending_datasets`: in the order of the file names.
  unfoldable pub read_pending_datasets : Dir → Raises (List (Str × List Row))
  unfolding read_files
  read_pending_datasets dir = read_files (sorted by_name dir)
