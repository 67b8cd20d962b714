-- ===== src/Blocklist/File.antt =====
-- Writing and reading the block list file (src/ichnos/blocklist.py).
mod Tests
use ichnos.Base.{
  ℕ, Str, is_space, strip, strip-framed, nonempty, file_lines, file_lines-with_newline,
  with_newline, IsLine, Bool, true, false, List, [], ◌∷◌, ◌++◌, map, Option, some, keep_if,
  if◌then◌else◌, ◌≡◌, refl, sym, All,
}
use ichnos.Blocklist.{read_blocklist_file, write_blocklist_file}

-- A text of two characters or more, on one line, that neither begins nor ends with white space.
pub record IsEntry (l : Str) : Type 0 where
  pub first : ℕ
  pub middle : Str
  pub last : ℕ
  pub whole : l ≡ first ∷ (middle ++ (last ∷ []))
  pub first_plain : is_space first ≡ false
  pub last_plain : is_space last ≡ false
  pub line : IsLine l

pub strip-IsEntry : (l : Str) → IsEntry l → strip l ≡ l
strip-IsEntry l e = rw e.whole (strip-framed e.first e.last e.middle e.first_plain e.last_plain)

pub nonempty-IsEntry : (l : Str) → IsEntry l → nonempty l ≡ true
nonempty-IsEntry l e = rw e.whole refl

stripped : (ls : List Str) → All IsEntry ls → keep_if nonempty (map strip ls) ≡ ls
stripped [] h = refl
stripped (l ∷ ls) h = rw (strip-IsEntry l h.0, nonempty-IsEntry l h.0, stripped ls h.1) refl

pub lines : (ls : List Str) → All IsEntry ls → All IsLine ls
lines [] h = tt
lines (l ∷ ls) h = (h.0.line, lines ls h.1)

-- Entries of two characters or more, each on one line and neither beginning nor ending with white space,
-- are read back from the block list file as they were written, in order.
pub read_blocklist_file-write_blocklist_file :
    (cidrs : List Str)
    → All IsEntry cidrs
    → read_blocklist_file (some (write_blocklist_file cidrs)) ≡ cidrs
unfolding read_blocklist_file write_blocklist_file
read_blocklist_file-write_blocklist_file cidrs h =
    rw (file_lines-with_newline cidrs (lines cidrs h)) (stripped cidrs h)
