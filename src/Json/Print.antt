-- ===== src/Json/Print.antt =====
-- `json.dumps` with `ensure_ascii`, its default: sorted or insertion order, two styles of separator.
pub mod OneLine
pub mod Order
use ichnos.Base.{
  ◌≡◌, refl, ℕ, ◌+◌, ◌-◌, ◌/◌, ◌%◌, Str, codes, ltb, leb, nat_eq, str_le, Bool, true, false, ◌&&◌,
  List, [], ◌∷◌, ◌++◌, map, if◌then◌else◌,
}
use ichnos.Base.Sort.{sorted}
use ichnos.Json.{Json, null, bool, num, text, arr, obj, Items, nil, cons, Fields, end, field}

-- One lower-case hexadecimal digit.
hex_digit : ℕ → ℕ
hex_digit d = if ltb d 10 then 48 + d else 87 + d

-- The escape `\uXXXX` of one UTF-16 unit.
unit_escape : ℕ → Str
unfolding hex_digit
unit_escape u =
    92
    ∷ 117
    ∷ hex_digit (u / 4096 % 16)
    ∷ hex_digit (u / 256 % 16)
    ∷ hex_digit (u / 16 % 16)
    ∷ hex_digit (u % 16)
    ∷ []

-- One character of a text: the short escapes, printable ASCII as it is, the rest as `\uXXXX`, by a
-- surrogate pair above U+FFFF.
escape : ℕ → Str
unfolding unit_escape
escape c =
    if nat_eq c 34
    then 92 ∷ 34 ∷ []
    else if nat_eq c 92
    then 92 ∷ 92 ∷ []
    else if nat_eq c 10
    then 92 ∷ 110 ∷ []
    else if nat_eq c 13
    then 92 ∷ 114 ∷ []
    else if nat_eq c 9
    then 92 ∷ 116 ∷ []
    else if nat_eq c 8
    then 92 ∷ 98 ∷ []
    else if nat_eq c 12
    then 92 ∷ 102 ∷ []
    else if leb 32 c && leb c 126
    then c ∷ []
    else if ltb c 65536
    then unit_escape c
    else unit_escape (55296 + (c - 65536) / 1024 % 1024) ++ unit_escape (56320 + (c - 65536) % 1024)

escape_all : Str → Str
unfolding escape
escape_all [] = []
escape_all (c ∷ s) = escape c ++ escape_all s

quote : Str → Str
unfolding escape_all
quote s = 34 ∷ (escape_all s ++ (34 ∷ []))

-- `separators` and `sort_keys`.
pub record Style : Type 0 where
  pub item_separator : Str
  pub key_separator : Str
  pub sort_keys : Bool

join : Str → List Str → Str
join sep [] = []
join sep (x ∷ []) = x
join sep (x ∷ y ∷ rest) = x ++ (sep ++ join sep (y ∷ rest))

abbrev by_key : Str × Str → Str × Str → Bool
by_key p q = str_le p.0 q.0

arrange : Style → List (Str × Str) → List (Str × Str)
arrange st pairs = if st.sort_keys then sorted by_key pairs else pairs

member : Style → Str × Str → Str
unfolding quote
member st p = quote p.0 ++ (st.key_separator ++ p.1)

braces : Style → List (Str × Str) → Str
unfolding arrange member join
braces st pairs = 123 ∷ (join st.item_separator (map (member st) (arrange st pairs)) ++ (125 ∷ []))

brackets : Style → List Str → Str
unfolding join
brackets st items = 91 ∷ (join st.item_separator items ++ (93 ∷ []))

unfoldable mutual
  unfolding quote braces brackets

  pub dumps : Style → Json → Str
  dumps st null = codes "null"
  dumps st (bool true) = codes "true"
  dumps st (bool false) = codes "false"
  dumps st (num t) = t
  dumps st (text s) = quote s
  dumps st (arr xs) = brackets st (dump_items st xs)
  dumps st (obj fs) = braces st (dump_fields st fs)

  dump_items : Style → Items → List Str
  dump_items st nil = []
  dump_items st (cons x xs) = dumps st x ∷ dump_items st xs

  dump_fields : Style → Fields → List (Str × Str)
  dump_fields st end = []
  dump_fields st (field k v fs) = (k, dumps st v) ∷ dump_fields st fs

-- `json.dumps(value)`
abbrev pub default_style : Style
default_style = record {
  item_separator = codes ", ";
  key_separator = codes ": ";
  sort_keys = false;
}

-- `json.dumps(value, sort_keys=True)`
abbrev pub sorted_style : Style
sorted_style = record { item_separator = codes ", "; key_separator = codes ": "; sort_keys = true }

-- `json.dumps(value, sort_keys=True, separators=(",", ":"))`
abbrev pub compact_style : Style
compact_style = record { item_separator = codes ","; key_separator = codes ":"; sort_keys = true }

dumps_example :
    dumps compact_style (
      obj (
        field
          (codes "b")
          (arr (cons null (cons (bool true) nil)))
          (field (codes "a") (text (codes "x\n")) end)))
    ≡ codes "{\"a\":\"x\\n\",\"b\":[null,true]}"
unfolding dumps sorted str_le
dumps_example = refl
