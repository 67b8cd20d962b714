-- ===== src/Json/Print/OneLine.antt =====
-- The line breaks in what `json.dumps` prints.
use ichnos.Base.{
  ℕ, ◌+◌, ◌-◌, ◌/◌, ◌%◌, ltb, leb, Str, codes, nat_eq, Bool, true, false, ◌&&◌, List, [], ◌∷◌, ◌++◌,
  map, if◌then◌else◌, ◌≡◌, refl, arith, All, All-append, IsLine, Bool-cases, inl, inr,
}
use ichnos.Base.Sort.{All-sorted}
use ichnos.Json.{Json, null, bool, num, text, arr, obj, Items, nil, cons, Fields, end, field}
use ichnos.Json.Print.{
  Style, hex_digit, unit_escape, escape, escape_all, quote, join, by_key, arrange, member, braces,
  brackets, dumps, dump_items, dump_fields,
}

abbrev not_break : ℕ → Bool
not_break c = if nat_eq c 10 then false else if nat_eq c 13 then false else true

one_line : Str → Bool
one_line [] = true
one_line (c ∷ s) = not_break c && one_line s

one_line→IsLine : (s : Str) → one_line s ≡ true → IsLine s
unfolding one_line
one_line→IsLine [] h = tt
one_line→IsLine (c ∷ s) h = (ground arith, one_line→IsLine s (ground arith))

-- The texts that stand for the numbers of a document have no line break.
unfoldable mutual
  unfolding one_line

  pub has_plain_numbers : Json → Bool
  has_plain_numbers (num t) = one_line t
  has_plain_numbers (arr xs) = items_plain xs
  has_plain_numbers (obj fs) = fields_plain fs
  has_plain_numbers null = true
  has_plain_numbers (bool b) = true
  has_plain_numbers (text s) = true

  items_plain : Items → Bool
  items_plain nil = true
  items_plain (cons x xs) = has_plain_numbers x && items_plain xs

  fields_plain : Fields → Bool
  fields_plain end = true
  fields_plain (field k v fs) = has_plain_numbers v && fields_plain fs

abbrev Plain : ℕ → Type 0
Plain c = (nat_eq c 10 ≡ false) × (nat_eq c 13 ≡ false)

Plain-hex_digit : (d : ℕ) → Plain (hex_digit d)
unfolding hex_digit
Plain-hex_digit d = ground arith

IsLine-unit_escape : (u : ℕ) → IsLine (unit_escape u)
unfolding unit_escape
IsLine-unit_escape u = (
  (refl, refl),
  (
    (refl, refl),
    (Plain-hex_digit _, (Plain-hex_digit _, (Plain-hex_digit _, (Plain-hex_digit _, tt)))),
  ),
)

IsLine-if : (b : Bool) (s t : Str) → IsLine s → IsLine t → IsLine (if b then s else t)
IsLine-if true s t h k = h
IsLine-if false s t h k = k

IsLine-printable :
    (c : ℕ) (b : Bool) (t : Str)
    → (leb 32 c && leb c 126) ≡ b
    → IsLine t
    → IsLine (if b then c ∷ [] else t)
IsLine-printable c true t e k = (ground arith, tt)
IsLine-printable c false t e k = k

IsLine-unicode :
    (c : ℕ)
    → IsLine (
        if ltb c 65536
        then unit_escape c
        else unit_escape (55296 + (c - 65536) / 1024 % 1024)
          ++ unit_escape (56320 + (c - 65536) % 1024))
IsLine-unicode c =
    IsLine-if (ltb c 65536) _ _ (IsLine-unit_escape c)
      (All-append _ (unit_escape _) _ (IsLine-unit_escape _) (IsLine-unit_escape _))

abbrev short : (e : ℕ) → Plain e → IsLine (92 ∷ e ∷ [])
short e p = ((refl, refl), (p, tt))

IsLine-escape : (c : ℕ) → IsLine (escape c)
unfolding escape
IsLine-escape c = IsLine-if (nat_eq c 34) _ _ (short 34 (refl, refl)) (
    IsLine-if (nat_eq c 92) _ _ (short 92 (refl, refl)) (
      IsLine-if (nat_eq c 10) _ _ (short 110 (refl, refl)) (
        IsLine-if (nat_eq c 13) _ _ (short 114 (refl, refl)) (
          IsLine-if (nat_eq c 9) _ _ (short 116 (refl, refl)) (
            IsLine-if (nat_eq c 8) _ _ (short 98 (refl, refl)) (
              IsLine-if (nat_eq c 12) _ _ (short 102 (refl, refl))
                (IsLine-printable c _ _ refl (IsLine-unicode c))))))))

IsLine-escape_all : (s : Str) → IsLine (escape_all s)
unfolding escape_all
IsLine-escape_all [] = tt
IsLine-escape_all (c ∷ s) = All-append _ (escape c) _ (IsLine-escape c) (IsLine-escape_all s)

IsLine-quote : (s : Str) → IsLine (quote s)
unfolding quote
IsLine-quote s =
    ((refl, refl), All-append _ (escape_all s) _ (IsLine-escape_all s) ((refl, refl), tt))

-- Separators that are themselves on one line.
pub record IsPlain (st : Style) : Type 0 where
  pub items : IsLine st.item_separator
  pub keys : IsLine st.key_separator

module _ (st : Style) (plain : IsPlain st) where
  IsLine-join : (xs : List Str) → All IsLine xs → IsLine (join st.item_separator xs)
  unfolding join
  IsLine-join [] h = tt
  IsLine-join (x ∷ []) h = h.0
  IsLine-join (x ∷ y ∷ rest) h =
      All-append _ x _ h.0
        (All-append _ st.item_separator _ plain.items (IsLine-join (y ∷ rest) h.1))

  IsLine-brackets : (xs : List Str) → All IsLine xs → IsLine (brackets st xs)
  unfolding brackets
  IsLine-brackets xs h = (
    (refl, refl),
    All-append _ (join st.item_separator xs) _ (IsLine-join xs h) ((refl, refl), tt),
  )

  IsLine-members :
      (ps : List (Str × Str)) → All (λ p. IsLine p.1) ps → All IsLine (map (member st) ps)
  unfolding member
  IsLine-members [] h = tt
  IsLine-members (p ∷ ps) h = (
    All-append _ (quote p.0) _ (IsLine-quote p.0) (All-append _ st.key_separator _ plain.keys h.0),
    IsLine-members ps h.1,
  )

  IsLine-arrange :
      (ps : List (Str × Str)) → All (λ p. IsLine p.1) ps → All (λ p. IsLine p.1) (arrange st ps)
  unfolding arrange
  IsLine-arrange ps h = elim (Bool-cases st.sort_keys) [
    | inl e ↦ rw e (All-sorted by_key (λ p. IsLine p.1) ps h)
    | inr e ↦ rw e h
  ]

  IsLine-braces : (ps : List (Str × Str)) → All (λ p. IsLine p.1) ps → IsLine (braces st ps)
  unfolding braces
  IsLine-braces ps h = (
    (refl, refl),
    All-append _ (join st.item_separator (map (member st) (arrange st ps))) _
        (IsLine-join _ (IsLine-members (arrange st ps) (IsLine-arrange ps h))) ((refl, refl), tt),
  )

  mutual
    unfolding dumps dump_items dump_fields has_plain_numbers items_plain fields_plain

    line_of : (j : Json) → has_plain_numbers j ≡ true → IsLine (dumps st j)
    line_of null h = one_line→IsLine (codes "null") refl
    line_of (bool true) h = one_line→IsLine (codes "true") refl
    line_of (bool false) h = one_line→IsLine (codes "false") refl
    line_of (num t) h = one_line→IsLine t h
    line_of (text s) h = IsLine-quote s
    line_of (arr xs) h = IsLine-brackets (dump_items st xs) (lines_of_items xs h)
    line_of (obj fs) h = IsLine-braces (dump_fields st fs) (lines_of_fields fs h)

    lines_of_items : (xs : Items) → items_plain xs ≡ true → All IsLine (dump_items st xs)
    lines_of_items nil h = tt
    lines_of_items (cons x xs) h = (line_of x (ground arith), lines_of_items xs (ground arith))

    lines_of_fields :
        (fs : Fields) → fields_plain fs ≡ true → All (λ p. IsLine p.1) (dump_fields st fs)
    lines_of_fields end h = tt
    lines_of_fields (field k v fs) h = (line_of v (ground arith), lines_of_fields fs (ground arith))

  -- A document prints on one line, in any style whose separators are on one line.
  pub dumps-IsLine : (j : Json) → has_plain_numbers j ≡ true → IsLine (dumps st j)
  dumps-IsLine j h = line_of j h
