-- ===== src/Base/Text.antt =====
-- Python's `str` as the list of its code points: equality, order, membership, `strip`.
use Prim.Native.Char.{code}
use Prim.Native.Nat.{ℕ}
use Prim.Native.String.{String}
use mathlib.Core.Path.{◌≡◌, refl, ap, sym, ◌∙◌}
use mathlib.Core.Logic.{◌↔◌}
use mathlib.Core.Bool.{Bool, true, false, ◌&&◌, ◌||◌}
use mathlib.Core.List.{List, [], ◌∷◌, ◌++◌, reverse, reverse-append, reverse-reverse}
use native.Mathlib.Omega.{arith}
use ichnos.Base.Tests.{ltb, leb, nat_eq, if◌then◌else◌}

abbrev pub Str : Type 0
Str = List ℕ

-- A literal of the source.
abbrev pub codes : String → Str
codes String.[] = []
codes (String.◌∷◌ c s) = code c ∷ codes s

unfoldable pub str_eq : Str → Str → Bool
str_eq [] [] = true
str_eq (a ∷ s) (b ∷ t) = nat_eq a b && str_eq s t
str_eq _ _ = false

infix 50 ◌==◌
abbrev pub ◌==◌ : Str → Str → Bool
◌==◌ = str_eq

pub str_eq→eq : (s t : Str) → (s == t) ≡ true → s ≡ t
unfolding str_eq
str_eq→eq [] [] h = refl
str_eq→eq [] (b ∷ t) h = ground arith
str_eq→eq (a ∷ s) [] h = ground arith
str_eq→eq (a ∷ s) (b ∷ t) h = ground (arith, str_eq→eq s t)

pub str_eq_refl : (s : Str) → (s == s) ≡ true
unfolding str_eq
str_eq_refl [] = refl
str_eq_refl (a ∷ s) = ground (arith, str_eq_refl s)

pub eq_iff : (s t : Str) → ((s == t) ≡ true) ↔ (s ≡ t)
eq_iff s t = (str_eq→eq s t, λ e. ground (arith, str_eq_refl s))

-- `<=` on `str` compares code point by code point.
unfoldable pub str_le : Str → Str → Bool
str_le [] t = true
str_le (a ∷ s) [] = false
str_le (a ∷ s) (b ∷ t) = ltb a b || (nat_eq a b && str_le s t)

pub str_le_total : (s t : Str) → str_le s t ≡ false → str_le t s ≡ true
unfolding str_le
str_le_total [] t h = ground arith
str_le_total (a ∷ s) [] h = refl
str_le_total (a ∷ s) (b ∷ t) h = ground (arith, str_le_total s t)

pub str_le_antisym : (s t : Str) → str_le s t ≡ true → str_le t s ≡ true → s ≡ t
unfolding str_le
str_le_antisym [] [] h k = refl
str_le_antisym [] (b ∷ t) h k = ground (arith, k)
str_le_antisym (a ∷ s) [] h k = ground (arith, h)
str_le_antisym (a ∷ s) (b ∷ t) h k = ground (arith, str_le_antisym s t)

pub str_le_trans : (s t u : Str) → str_le s t ≡ true → str_le t u ≡ true → str_le s u ≡ true
unfolding str_le
str_le_trans [] t u h k = refl
str_le_trans (a ∷ s) [] u h k = ground arith
str_le_trans (a ∷ s) (b ∷ t) [] h k = ground arith
str_le_trans (a ∷ s) (b ∷ t) (c ∷ u) h k = ground (arith, str_le_trans s t u)

-- `x in xs` for a list or a set of texts.
unfoldable pub contains : Str → List Str → Bool
contains x [] = false
contains x (y ∷ ys) = (x == y) || contains x ys

-- `str.isspace` of one character.
unfoldable pub is_space : ℕ → Bool
is_space c =
    (leb 9 c && leb c 13)
    || (leb 28 c && leb c 32)
    || nat_eq c 133
    || nat_eq c 160
    || nat_eq c 5760
    || (leb 8192 c && leb c 8202)
    || nat_eq c 8232
    || nat_eq c 8233
    || nat_eq c 8239
    || nat_eq c 8287
    || nat_eq c 12288

unfoldable pub lstrip : Str → Str
unfolding is_space
lstrip [] = []
lstrip (c ∷ s) = if is_space c then lstrip s else c ∷ s

unfoldable pub rstrip : Str → Str
unfolding lstrip
rstrip s = reverse (lstrip (reverse s))

unfoldable pub strip : Str → Str
unfolding lstrip rstrip
strip s = rstrip (lstrip s)

-- `bool(s)`
abbrev pub nonempty : Str → Bool
nonempty [] = false
nonempty (c ∷ s) = true

pub contains-append :
    (x : Str) (xs ys : List Str) → contains x (xs ++ ys) ≡ (contains x xs || contains x ys)
unfolding contains
contains-append x [] ys = refl
contains-append x (z ∷ xs) ys = ground (arith, contains-append x xs ys)

lstrip-cons : (a : ℕ) (s : Str) → is_space a ≡ false → lstrip (a ∷ s) ≡ a ∷ s
unfolding lstrip
lstrip-cons a s h = rw h

-- A text that begins and ends with a character that is no white space stays as it is.
pub strip-framed :
    (a b : ℕ) (s : Str)
    → is_space a ≡ false
    → is_space b ≡ false
    → strip (a ∷ (s ++ (b ∷ []))) ≡ a ∷ (s ++ (b ∷ []))
unfolding strip rstrip
strip-framed a b s h k =
    rw
      (
        lstrip-cons a (s ++ (b ∷ [])) h,
        reverse-append (a ∷ s) (b ∷ []),
        lstrip-cons b (reverse (a ∷ s)) k,
      )
      (ap reverse (sym (reverse-append (a ∷ s) (b ∷ []))) ∙ reverse-reverse (a ∷ (s ++ (b ∷ []))))
