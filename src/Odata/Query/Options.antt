-- ===== src/Odata/Query/Options.antt =====
-- The query of `grouped_max` (src/ichnos/odata.py) as a server reads it.
use ichnos.Base.{
  ℕ, Str, codes, ltb, nat_eq, Bool, true, ◌&&◌, List, [], ◌∷◌, ◌++◌, map, split, split_all, All,
  All-append, Raises, ok, raised, Option, none, some, ◌>>=◌, ◌≡◌, refl, sym, ap, ◌∙◌, ◌<◌, arith,
  if◌then◌else◌,
}
use ichnos.Base.Decimal.{decimal, is_decimal_digit, decimal-digits}
use ichnos.Odata.Query.{quote, grouped_expression, order_option, grouped_query}
use ichnos.Odata.Query.Quoted.{
  is_inert, IsInert, IsPlain, unescape, outside, unescape-IsPlain, utf8_bytes, Reads, quote-Reads,
}

-- A URL's query ends where a fragment begins.
unfoldable pub before_fragment : Str → Str
before_fragment [] = []
before_fragment (c ∷ s) = let rest = before_fragment s in if nat_eq c 35 then [] else c ∷ rest

-- An option is a name, `=` and a value, both decoded.
unfoldable pub option_of : Str → List ℕ × List ℕ
unfolding split unescape
option_of part = elim (split 61 part) [
  | none ↦ (unescape outside part, [])
  | some (name, value) ↦ (unescape outside name, unescape outside value)
]

-- The options of a query, which `&` parts.
unfoldable pub options : Str → List (List ℕ × List ℕ)
unfolding before_fragment split_all option_of
options query = map option_of (split_all 38 (before_fragment query))

before_fragment-append :
    (part rest : Str) → IsInert part → before_fragment (part ++ rest) ≡ part ++ before_fragment rest
unfolding before_fragment
before_fragment-append [] rest h = refl
before_fragment-append (c ∷ part) rest h = ground (arith, h.0, before_fragment-append part rest h.1)

split_all-more :
    (part rest : Str) → IsInert part → split_all 38 (part ++ (38 ∷ rest)) ≡ part ∷ split_all 38 rest
unfolding split_all
split_all-more [] rest h = refl
split_all-more (c ∷ part) rest h = ground (arith, h.0, split_all-more part rest h.1)

split_all-last : (part : Str) → IsInert part → split_all 38 part ≡ part ∷ []
unfolding split_all
split_all-last [] h = refl
split_all-last (c ∷ part) h = ground (arith, h.0, split_all-last part h.1)

before_fragment-IsInert : (part : Str) → IsInert part → before_fragment part ≡ part
unfolding before_fragment
before_fragment-IsInert [] h = refl
before_fragment-IsInert (c ∷ part) h = ground (arith, h.0, before_fragment-IsInert part h.1)

options-more :
    (part rest : Str) → IsInert part → options (part ++ (38 ∷ rest)) ≡ option_of part ∷ options rest
unfolding options
options-more part rest h =
    rw (before_fragment-append part (38 ∷ rest) h)
      (unfold before_fragment in rw (split_all-more part (before_fragment rest) h) refl)

options-last : (part : Str) → IsInert part → options part ≡ option_of part ∷ []
unfolding options
options-last part h = rw (before_fragment-IsInert part h, split_all-last part h) refl

-- What an ordering adds to the options.
abbrev pub ordering_option : Option Str → List (List ℕ × List ℕ)
ordering_option none = []
ordering_option (some []) = []
ordering_option (some (c ∷ s)) = (codes "$orderby", utf8_bytes (c ∷ s)) ∷ []

digits-IsPlain : (s : Str) → All (λ c. is_decimal_digit c ≡ true) s → IsPlain s
digits-IsPlain [] h = tt
digits-IsPlain (c ∷ s) h = (ground (arith, h.0), digits-IsPlain s h.1)

plain-IsInert : (s : Str) → IsPlain s → IsInert s
plain-IsInert [] h = tt
plain-IsInert (c ∷ s) h = (ground (arith, h.0), plain-IsInert s h.1)

all_inert : Str → Bool
all_inert [] = true
all_inert (c ∷ s) = is_inert c && all_inert s

inert : (s : Str) → all_inert s ≡ true → IsInert s
unfolding all_inert
inert [] h = tt
inert (c ∷ s) h = (ground (arith, h), inert s (ground (arith, h)))

-- An option whose name is written out.
prefixed : (name value : Str) → all_inert name ≡ true → IsInert value → IsInert (name ++ value)
prefixed name value h k = All-append (λ c. is_inert c ≡ true) name value (inert name h) k

options-top : (top : ℕ) → options (codes "$top=" ++ decimal top) ≡ (codes "$top", decimal top) ∷ []
unfolding all_inert
options-top top =
    let plain = digits-IsPlain (decimal top) (decimal-digits top) in
    options-last (codes "$top=" ++ decimal top)
      (prefixed (codes "$top=") (decimal top) refl (plain-IsInert (decimal top) plain))
    ∙ (unfold option_of in rw (unescape-IsPlain (decimal top) plain) refl)

ok_inj : (s t : Str) → ◌≡◌ {A = Raises Str} (ok s) (ok t) → s ≡ t
ok_inj s t e = ap (λ (r : Raises Str). elim r [ ok u ↦ u | raised x ↦ s ]) e

-- A query from its encoded expression and, where there is one, its encoded ordering.
apply_top :
    (a : Str) (bs : List ℕ) (top : ℕ)
    → Reads (ok a) bs
    → options (codes "$apply=" ++ (a ++ (codes "&$top=" ++ decimal top)))
      ≡ (codes "$apply", bs) ∷ (codes "$top", decimal top) ∷ []
unfolding Reads all_inert
apply_top a bs top h =
    options-more (codes "$apply=" ++ a) (codes "$top=" ++ decimal top)
      (prefixed (codes "$apply=") a refl h.0)
    ∙ rw (options-top top) (unfold option_of in rw h.1 refl)

apply_order_top :
    (a o : Str) (bs cs : List ℕ) (top : ℕ)
    → Reads (ok a) bs
    → Reads (ok o) cs
    → options
        (codes "$apply=" ++ (a ++ (codes "&$orderby=" ++ (o ++ (codes "&$top=" ++ decimal top)))))
      ≡ (codes "$apply", bs) ∷ (codes "$orderby", cs) ∷ (codes "$top", decimal top) ∷ []
unfolding Reads all_inert
apply_order_top a o bs cs top h k =
    options-more (codes "$apply=" ++ a)
      (codes "$orderby=" ++ (o ++ (codes "&$top=" ++ decimal top)))
      (prefixed (codes "$apply=") a refl h.0)
    ∙ rw
        (
          options-more (codes "$orderby=" ++ o) (codes "$top=" ++ decimal top)
              (prefixed (codes "$orderby=") o refl k.0),
          options-top top,
        )
        (unfold option_of in rw (h.1, k.1) refl)

with_top :
    (r : Raises Str) (bs : List ℕ) (top : ℕ) (q : Str)
    → Reads r bs
    → (r >>= (λ a. ok (codes "$apply=" ++ (a ++ (codes "&$top=" ++ decimal top))))) ≡ ok q
    → options q ≡ (codes "$apply", bs) ∷ (codes "$top", decimal top) ∷ []
with_top (ok a) bs top q h e = ap options (sym (ok_inj _ q e)) ∙ apply_top a bs top h
with_top (raised x) bs top q h e = cc

with_order :
    (r t : Raises Str) (bs cs : List ℕ) (top : ℕ) (q : Str)
    → Reads r bs
    → Reads t cs
    → (r >>= (λ a.
        (t >>= (λ o. ok (codes "&$orderby=" ++ o)))
        >>= (λ o. ok (codes "$apply=" ++ (a ++ (o ++ (codes "&$top=" ++ decimal top)))))))
      ≡ ok q
    → options q ≡ (codes "$apply", bs) ∷ (codes "$orderby", cs) ∷ (codes "$top", decimal top) ∷ []
with_order (ok a) (ok o) bs cs top q h k e =
    ap options (sym (ok_inj _ q e)) ∙ apply_order_top a o bs cs top h k
with_order (ok a) (raised x) bs cs top q h k e = cc
with_order (raised x) t bs cs top q h k e = cc

-- All characters are code points.
unfoldable pub is_unicode : Str → Bool
is_unicode [] = true
is_unicode (c ∷ s) = ltb c 1114112 && is_unicode s

code_points : (s : Str) → is_unicode s ≡ true → All (λ c. c < 1114112) s
unfolding is_unicode
code_points [] h = tt
code_points (c ∷ s) h = (ground (arith, h), code_points s (ground (arith, h)))

ordered :
    (r : Raises Str) (bs : List ℕ) (order_by : Option Str) (top : ℕ) (q : Str)
    → Reads r bs
    → All (λ c. c < 1114112) (elim order_by [ none ↦ [] | some s ↦ s ])
    → (r >>= (λ a.
        order_option order_by
        >>= (λ o. ok (codes "$apply=" ++ (a ++ (o ++ (codes "&$top=" ++ decimal top)))))))
      ≡ ok q
    → options q
      ≡ (codes "$apply", bs) ∷ (ordering_option order_by ++ ((codes "$top", decimal top) ∷ []))
unfolding order_option
ordered r bs none top q h k e = with_top r bs top q h e
ordered r bs (some []) top q h k e = with_top r bs top q h e
ordered r bs (some (c ∷ s)) top q h k e =
    with_order r (quote [] (c ∷ s)) bs (utf8_bytes (c ∷ s)) top q h (quote-Reads [] (c ∷ s) tt k) e

-- Where the expression and the ordering are texts of Unicode and the query can be encoded: a server that ends
-- the query at a `#`, parts it at `&` and decodes names and values reads the options `$apply`, with the bytes
-- of the whole expression in UTF-8, then `$orderby`, with those of the ordering, where one is given that is
-- not empty, then `$top`, and no other, whatever characters the filter holds.
pub grouped_query-options :
    (columns : List Str) (max_column alias where_clause : Str) (order_by : Option Str) (top : ℕ)
    (q : Str)
    → is_unicode (grouped_expression columns max_column alias where_clause) ≡ true
    → is_unicode (elim order_by [ none ↦ [] | some s ↦ s ]) ≡ true
    → grouped_query columns max_column alias where_clause order_by top ≡ ok q
    → options q
      ≡ (codes "$apply", utf8_bytes (grouped_expression columns max_column alias where_clause))
        ∷ (ordering_option order_by ++ ((codes "$top", decimal top) ∷ []))
unfolding grouped_query order_option
grouped_query-options columns max_column alias where_clause order_by top q h k e =
    let expression = grouped_expression columns max_column alias where_clause in
    ordered (quote (codes "()/,") expression) (utf8_bytes expression) order_by top q
      (quote-Reads (codes "()/,") expression (refl, (refl, (refl, (refl, tt))))
        (code_points expression h))
      (code_points _ k) e
