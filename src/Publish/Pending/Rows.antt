-- ===== src/Publish/Pending/Rows.antt =====
-- Reading a pending file after rows were appended (src/ichnos/publish.py).
use ichnos.Base.{
  Str, strip, strip-framed, nonempty, is_space, file_lines-with_newline, with_newline,
  with_newline-append, IsLine, true, List, [], ◌∷◌, ◌++◌, map, Option, some, ok, ◌>>=◌, ◌≡◌, refl,
  arith, All, All-append,
}
use ichnos.Json.{Json, obj, Fields}
use ichnos.Json.Print.{dumps, default_style}
use ichnos.Json.Print.OneLine.{has_plain_numbers, dumps-IsLine, IsPlain}
use ichnos.Publish.{Row}
use ichnos.Publish.Pending.{ndjson, rows_from, read_rows}

IsPlain-default : IsPlain default_style
IsPlain-default = record {
  items = ((refl, refl), ((refl, refl), tt));
  keys = ((refl, refl), ((refl, refl), tt));
}

module _ (loads : Str → Option Json) where
  -- A row that `json` reads back as it was written: an object, whose numbers print without line breaks.
  pub record IsStored (row : Row) : Type 0 where
    pub fields : Fields
    pub object : row ≡ obj fields
    pub plain : has_plain_numbers row ≡ true
    pub round_trip : loads (dumps default_style row) ≡ some row

  IsLine-rows : (rows : List Row) → All IsStored rows → All IsLine (map (dumps default_style) rows)
  IsLine-rows [] h = tt
  IsLine-rows (r ∷ rows) h =
      (dumps-IsLine default_style IsPlain-default r h.0.plain, IsLine-rows rows h.1)

  strip-row : (row : Row) → IsStored row → strip (dumps default_style row) ≡ dumps default_style row
  unfolding dumps is_space
  strip-row row h = rw h.object (strip-framed 123 125 _ refl refl)

  nonempty-row : (row : Row) → IsStored row → nonempty (strip (dumps default_style row)) ≡ true
  nonempty-row row h = rw (strip-row row h, h.object) (unfold dumps in refl)

  rows_from-stored :
      (rows : List Row)
      → All IsStored rows
      → rows_from loads (map (dumps default_style) rows) ≡ ok rows
  unfolding rows_from
  rows_from-stored [] h = refl
  rows_from-stored (r ∷ rows) h =
      rw (nonempty-row r h.0, strip-row r h.0, h.0.round_trip, rows_from-stored rows h.1)

  rows_from-append :
      (xs : List Str) (ys : List Str) (new : List Row)
      → rows_from loads ys ≡ ok new
      → rows_from loads (xs ++ ys) ≡ (rows_from loads xs >>= λ old. ok (old ++ new))
  unfolding rows_from
  rows_from-append [] ys new h = h
  rows_from-append (x ∷ xs) ys new h = ground (arith, rows_from-append xs ys new h)

  -- Reading a pending file after rows were appended gives the rows that it gave before, followed by the
  -- appended rows; and it raises exactly if it did before. The file holds whole lines, of any text, and
  -- `json` is assumed to read each of the new rows back as it printed it.
  pub read_rows-append :
      (ls : List Str) (rows : List Row)
      → All IsLine ls
      → All IsStored rows
      → read_rows loads (with_newline ls ++ ndjson rows)
        ≡ (read_rows loads (with_newline ls) >>= λ old. ok (old ++ rows))
  unfolding read_rows ndjson
  read_rows-append ls rows old new =
      let printed = map (dumps default_style) rows in
      rw
        (
          ← with_newline-append ls printed,
          file_lines-with_newline (ls ++ printed)
              (All-append _ ls printed old (IsLine-rows rows new)),
          file_lines-with_newline ls old,
        )
        (rows_from-append ls printed rows (rows_from-stored rows new))
