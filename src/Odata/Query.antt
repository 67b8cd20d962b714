-- ===== src/Odata/Query.antt =====
-- The queries of src/ichnos/odata.py: how they are spelled, and what `grouped_max` and `distinct_values`
-- make of the rows.
pub mod Quoted
pub mod Options
use ichnos.Base.{
  ℕ, zero, suc, ◌+◌, ◌-◌, ◌/◌, ◌%◌, Str, codes, nonempty, ltb, leb, nat_eq, Bool, true, false, not,
  ◌&&◌, ◌||◌, List, [], ◌∷◌, ◌++◌, map, any, Option, none, some, if◌then◌else◌, Raises, ok, raised,
  Error, value_error, attribute_error, type_error, odata_error, ◌>>=◌, ◌≡◌, refl,
}
use ichnos.Base.Decimal.{decimal}
use ichnos.Json.{Json, null, text, arr, obj, Items, nil, cons, Fields, end, field, get, truthy}
use ichnos.Odata.{Response, Read, failed_read, iter_rows}

-- `urllib.parse.quote`: a character of ASCII letters, digits, `_.-~` or `safe` stays as it is.
always_safe : ℕ → Bool
always_safe c =
    (leb 48 c && leb c 57)
    || (leb 65 c && leb c 90)
    || (leb 97 c && leb c 122)
    || nat_eq c 95
    || nat_eq c 46
    || nat_eq c 45
    || nat_eq c 126

-- The bytes of one character in UTF-8.
utf8 : ℕ → List ℕ
utf8 c =
    if ltb c 128
    then c ∷ []
    else (if ltb c 2048
        then (192 + c / 64) ∷ (128 + c % 64) ∷ []
        else (if ltb c 65536
            then (224 + c / 4096) ∷ (128 + c / 64 % 64) ∷ (128 + c % 64) ∷ []
            else (240 + c / 262144)
              ∷ (128 + c / 4096 % 64)
              ∷ (128 + c / 64 % 64)
              ∷ (128 + c % 64)
              ∷ []))

hex : ℕ → ℕ
hex n = if ltb n 10 then 48 + n else 55 + n

escape : List ℕ → Str
unfolding hex
escape [] = []
escape (b ∷ bs) = 37 ∷ hex (b / 16) ∷ hex (b % 16) ∷ escape bs

-- A surrogate cannot be encoded.
unfoldable pub quote : Str → Str → Raises Str
unfolding always_safe utf8 escape
quote safe [] = ok []
quote safe (c ∷ s) =
    let rest = quote safe s in
    if leb 55296 c && leb c 57343
    then raised value_error
    else (if always_safe c || any (nat_eq c) safe
        then rest >>= (λ q. ok (c ∷ q))
        else rest >>= (λ q. ok (escape (utf8 c) ++ q)))

join_commas : List Str → Str
join_commas [] = []
join_commas (c ∷ []) = c
join_commas (c ∷ d ∷ cs) = c ++ (44 ∷ join_commas (d ∷ cs))

-- `filter(where)/groupby((columns),aggregate(max_column with max as alias))`
unfoldable pub grouped_expression : List Str → Str → Str → Str → Str
unfolding join_commas
grouped_expression columns max_column alias where_clause =
    let inner =
      codes "groupby(("
      ++ (join_commas columns
          ++ (codes "),aggregate("
              ++ (max_column ++ (codes " with max as " ++ (alias ++ codes "))"))))) in
    if nonempty where_clause
    then codes "filter(" ++ (where_clause ++ (codes ")/" ++ inner))
    else inner

order_option : Option Str → Raises Str
unfolding quote
order_option none = ok []
order_option (some order_by) =
    if nonempty order_by then quote [] order_by >>= (λ q. ok (codes "&$orderby=" ++ q)) else ok []

unfoldable pub grouped_query : List Str → Str → Str → Str → Option Str → ℕ → Raises Str
unfolding quote order_option grouped_expression decimal
grouped_query columns max_column alias where_clause order_by top = do
  apply_expr ← quote (codes "()/,") (grouped_expression columns max_column alias where_clause)
  ordering ← order_option order_by
  ok (codes "$apply=" ++ (apply_expr ++ (ordering ++ (codes "&$top=" ++ decimal top))))

present : Option Json → Bool
present none = false
present (some null) = false
present (some v) = true

-- `all(row.get(c) is not None for c in columns)`
has_columns : List Str → Json → Raises Bool
unfolding present get
has_columns [] row = ok true
has_columns (c ∷ cs) (obj fs) =
    let rest = has_columns cs (obj fs) in if present (get c fs) then rest else ok false
has_columns (c ∷ cs) _ = raised attribute_error

unfoldable pub rows_with : List Str → List Json → Raises (List Json)
unfolding has_columns
rows_with columns [] = ok []
rows_with columns (row ∷ rows) =
    has_columns columns row
    >>= (λ kept. rows_with columns rows >>= (λ rest. ok (if kept then row ∷ rest else rest)))

unfoldable pub select_rows : List Str → Read → Read
unfolding rows_with
select_rows columns r = record r {
  rows = elim r.rows [ none ↦ none | some rows ↦ some (rows >>= rows_with columns) ];
}

-- `grouped_max`: one page is asked for.
unfoldable pub grouped_max :
    (Str → Raises Response) → Str → Str → Str → List Str → Str → Str → Str → Option Str → ℕ → Read
unfolding iter_rows select_rows grouped_query failed_read
grouped_max send base_url prefix path columns max_column alias where_clause order_by top =
    elim (grouped_query columns max_column alias where_clause order_by top) [
      | raised e ↦ failed_read [] e
      | ok query ↦ select_rows columns (iter_rows send base_url 1 true prefix path query)
    ]

-- `distinct_values`
unfoldable pub distinct_query : Str → Str → ℕ → Raises Str
unfolding quote decimal
distinct_query column where_clause top =
    let groups = codes "groupby((" ++ (column ++ codes "))") in
    quote (codes "()/,") (
      if nonempty where_clause
      then codes "filter(" ++ (where_clause ++ (codes ")/" ++ groups))
      else groups)
    >>= (λ q. ok (codes "$apply=" ++ (q ++ (codes "&$top=" ++ decimal top))))

column_values : Str → List Json → Raises (List Json)
unfolding get
column_values column [] = ok []
column_values column (obj fs ∷ rows) =
    column_values column rows
    >>= (λ rest. ok (elim (get column fs) [ none ↦ rest | some null ↦ rest | some v ↦ v ∷ rest ]))
column_values column (_ ∷ rows) = raised attribute_error

unfoldable pub distinct_values : (Str → Raises Response) → Str → Str → Str → Str → Str → ℕ → Read
unfolding iter_rows distinct_query column_values failed_read
distinct_values send base_url prefix path column where_clause top =
    elim (distinct_query column where_clause top) [
      | raised e ↦ failed_read [] e
      | ok query ↦
          let r = iter_rows send base_url 1 true prefix path query in
          record r {
            rows = elim r.rows [ none ↦ none | some rows ↦ some (rows >>= column_values column) ];
          }
    ]

quote_example : quote (codes "()/,") (codes "a eq 'é'") ≡ ok (codes "a%20eq%20%27%C3%A9%27")
unfolding quote
quote_example = refl
