-- ===== src/Base/Lines.antt =====
-- Text files: iteration over the lines of a file opened in text mode, `str.split`.
use Prim.Native.Nat.{ℕ}
use mathlib.Core.Path.{◌≡◌, refl, sym}
use mathlib.Core.Bool.{Bool, false, ◌&&◌, ◌||◌}
use mathlib.Core.Option.{Option, none, some}
use mathlib.Core.List.{List, [], ◌∷◌, ◌++◌, append_assoc, append-nil}
use native.Mathlib.Omega.{arith}
use ichnos.Base.Tests.{nat_eq, leb, if◌then◌else◌}
use ichnos.Base.Text.{Str, is_space}
use ichnos.Base.Lists.{All}

-- Universal newlines: "\r\n" and "\r" are read as "\n". The flag says that "\r" came just before.
universal : Bool → Str → Str
universal after [] = []
universal after (c ∷ s) =
    let rest = universal (nat_eq c 13) s in
    if nat_eq c 10 && after then rest else (if nat_eq c 13 then 10 else c) ∷ rest

-- Put a character in front of the first line.
abbrev pub push_front : ℕ → List Str → List Str
push_front c [] = (c ∷ []) ∷ []
push_front c (l ∷ ls) = (c ∷ l) ∷ ls

-- The lines of a text, without their newlines; no line follows the last newline.
lines_of : Str → List Str
lines_of [] = []
lines_of (c ∷ s) = if nat_eq c 10 then [] ∷ lines_of s else push_front c (lines_of s)

-- `for line in f`, less the newline that ends each line, which every reader strips.
unfoldable pub file_lines : Str → List Str
unfolding universal lines_of
file_lines s = lines_of (universal false s)

abbrev flush : Str → List Str → List Str
flush [] ws = ws
flush (c ∷ w) ws = (c ∷ w) ∷ ws

-- `s.split()`: the runs of characters that are not white space; the first result is the run that
-- the text begins with, which may be empty.
split_runs : Str → Str × List Str
unfolding is_space
split_runs [] = ([], [])
split_runs (c ∷ s) =
    let (w, ws) = split_runs s in if is_space c then ([], flush w ws) else (c ∷ w, ws)

unfoldable pub words_of : Str → List Str
unfolding split_runs
words_of s = flush (split_runs s).0 (split_runs s).1

-- `s.split(sep, 1)` at a separator of one character: `none` if it does not occur.
unfoldable pub split : ℕ → Str → Option (Str × Str)
split sep [] = none
split sep (c ∷ s) =
    if nat_eq c sep
    then some ([], s)
    else elim (split sep s) [ none ↦ none | some (a, b) ↦ some (c ∷ a, b) ]

-- `s.split(sep)` at a separator of one character.
unfoldable pub split_all : ℕ → Str → List Str
split_all sep [] = [] ∷ []
split_all sep (c ∷ s) =
    let rest = split_all sep s in if nat_eq c sep then [] ∷ rest else push_front c rest

-- The characters that end a line for `splitlines`, once `\r` and `\r\n` have become `\n`.
is_line_end : ℕ → Bool
is_line_end c =
    (leb 10 c && leb c 12)
    || (leb 28 c && leb c 30)
    || nat_eq c 133
    || nat_eq c 8232
    || nat_eq c 8233

lines_at_ends : Str → List Str
unfolding is_line_end
lines_at_ends [] = []
lines_at_ends (c ∷ s) =
    let rest = lines_at_ends s in if is_line_end c then [] ∷ rest else push_front c rest

-- `s.splitlines()`
unfoldable pub splitlines : Str → List Str
unfolding lines_at_ends universal
splitlines s = lines_at_ends (universal false s)

-- `f.write(f"{line}\n")` for each line.
unfoldable pub with_newline : List Str → Str
with_newline [] = []
with_newline (l ∷ ls) = l ++ (10 ∷ with_newline ls)

-- No line break within.
abbrev pub IsLine : Str → Type 0
IsLine l = All (λ c. (nat_eq c 10 ≡ false) × (nat_eq c 13 ≡ false)) l

universal-IsLine :
    (l rest : Str)
    → IsLine l
    → universal false (l ++ (10 ∷ rest)) ≡ l ++ (10 ∷ universal false rest)
unfolding universal
universal-IsLine [] rest h = refl
universal-IsLine (c ∷ l) rest h = ground (arith, universal-IsLine l rest h.1)

lines_of-IsLine : (l rest : Str) → IsLine l → lines_of (l ++ (10 ∷ rest)) ≡ l ∷ lines_of rest
unfolding lines_of
lines_of-IsLine [] rest h = refl
lines_of-IsLine (c ∷ l) rest h = ground (arith, lines_of-IsLine l rest h.1)

-- Lines that were written one by one are read back one by one.
pub file_lines-with_newline : (ls : List Str) → All IsLine ls → file_lines (with_newline ls) ≡ ls
unfolding file_lines with_newline
file_lines-with_newline [] h = refl
file_lines-with_newline (l ∷ ls) h = ground (
  arith,
  universal-IsLine l (with_newline ls) h.0,
  lines_of-IsLine l (universal false (with_newline ls)) h.0,
  file_lines-with_newline ls h.1,
)

pub with_newline-append :
    (xs ys : List Str) → with_newline (xs ++ ys) ≡ with_newline xs ++ with_newline ys
unfolding with_newline
with_newline-append [] ys = refl
with_newline-append (x ∷ xs) ys =
    rw (with_newline-append xs ys) (sym (append_assoc x (10 ∷ with_newline xs) (with_newline ys)))

abbrev Unspaced : Str → Type 0
Unspaced s = All (λ c. is_space c ≡ false) s

split_runs-append :
    (w rest : Str)
    → Unspaced w
    → split_runs (w ++ rest) ≡ (w ++ (split_runs rest).0, (split_runs rest).1)
unfolding split_runs
split_runs-append [] rest h = refl
split_runs-append (c ∷ w) rest h = rw (h.0, split_runs-append w rest h.1)

split_runs-word : (w : Str) → Unspaced w → split_runs w ≡ (w, [])
unfolding split_runs
split_runs-word [] h = refl
split_runs-word (c ∷ w) h = rw (h.0, split_runs-word w h.1)

-- A text with no white space but a trailing space is one word.
pub words-one :
    (s : Str) (c : ℕ) (w : Str) → s ≡ c ∷ w → Unspaced s → words_of (s ++ (32 ∷ [])) ≡ s ∷ []
unfolding words_of
words-one s c w e h =
    rw (split_runs-append s (32 ∷ []) h) (unfold split_runs is_space in rw (append-nil, e))

-- Two words that a space parts.
pub words-pair :
    (s : Str) (c : ℕ) (w : Str) (d : ℕ) (v : Str)
    → s ≡ c ∷ w
    → Unspaced s
    → Unspaced (d ∷ v)
    → words_of (s ++ (32 ∷ (d ∷ v))) ≡ s ∷ (d ∷ v) ∷ []
unfolding words_of
words-pair s c w d v e h k =
    rw (split_runs-append s (32 ∷ (d ∷ v)) h)
      (unfold split_runs is_space in rw (split_runs-word v k.1, k.0, append-nil, e))
