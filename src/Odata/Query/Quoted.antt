-- ===== src/Odata/Query/Quoted.antt =====
-- What percent-encoding does to a text, and how a server undoes it (src/ichnos/odata.py).
use ichnos.Base.{
  ℕ, ◌+◌, ◌-◌, ◌*◌, ◌/◌, ◌%◌, ◌<◌, Str, leb, ltb, nat_eq, nat_eq_iff, Bool, true, not, ◌&&◌, ◌||◌,
  List, [], ◌∷◌, ◌++◌, any, All, All-append, Raises, ok, raised, ◌>>=◌, ◌≡◌, refl, ap, ◌∙◌, arith,
  Bool-cases, inl, inr, if◌then◌else◌,
}
use ichnos.Odata.Query.{always_safe, utf8, hex, escape, quote}

-- A character that neither ends a query option nor the query: no `&`, `#`, `+`, space or control, in ASCII.
abbrev pub is_inert : ℕ → Bool
is_inert c = leb 33 c && ltb c 127 && not (nat_eq c 38) && not (nat_eq c 35) && not (nat_eq c 43)

abbrev pub IsInert : Str → Type 0
IsInert s = All (λ c. is_inert c ≡ true) s

hex-is_inert : (n : ℕ) → n < 16 → is_inert (hex n) ≡ true
unfolding hex
hex-is_inert n h = ground (arith, h)

escape-IsInert : (bs : List ℕ) → All (λ b. b < 256) bs → IsInert (escape bs)
unfolding escape
escape-IsInert [] h = tt
escape-IsInert (b ∷ bs) h = (
  refl,
  (
    hex-is_inert (b / 16) (omega (arith, h.0)),
    (hex-is_inert (b % 16) (omega arith), escape-IsInert bs h.1),
  ),
)

bytes : (c : ℕ) → c < 1114112 → All (λ b. b < 256) (utf8 c)
unfolding utf8
bytes c h = elim (Bool-cases (ltb c 128)) [
  | inl e ↦ rw e (ground (arith, e), tt)
  | inr e ↦ elim (Bool-cases (ltb c 2048)) [
    | inl f ↦ rw (e, f) (ground (arith, f), (omega arith, tt))
    | inr f ↦ elim (Bool-cases (ltb c 65536)) [
      | inl g ↦ rw (e, f, g) (ground (arith, g), (omega arith, (omega arith, tt)))
      | inr g ↦ rw (e, f, g) (omega (arith, h), (omega arith, (omega arith, (omega arith, tt))))
    ]
  ]
]

-- Such a character that is no `%` either stands for itself.
abbrev pub is_plain : ℕ → Bool
is_plain c = is_inert c && not (nat_eq c 37)

abbrev pub IsPlain : Str → Type 0
IsPlain s = All (λ c. is_plain c ≡ true) s

safe_member : (c : ℕ) (safe : Str) → IsPlain safe → any (nat_eq c) safe ≡ true → is_plain c ≡ true
safe_member c [] h e = ground (arith, e)
safe_member c (d ∷ ds) h e = elim (Bool-cases (nat_eq c d)) [
  | inl same ↦ ap is_plain ((nat_eq_iff c d).0 same) ∙ h.0
  | inr apart ↦ safe_member c ds h.1 (ground (arith, e, apart))
]

kept_plain :
    (c : ℕ) (safe : Str)
    → IsPlain safe
    → (always_safe c || any (nat_eq c) safe) ≡ true
    → is_plain c ≡ true
unfolding always_safe
kept_plain c safe h e = elim (Bool-cases (always_safe c)) [
  | inl a ↦ ground (arith, a)
  | inr a ↦ safe_member c safe h (ground (arith, a, e))
]

-- How a server reads an encoded text: `%` and two hexadecimal digits are a byte, `+` is a space.
pub data Escape : Type 0 where
  outside : Escape
  first : Escape
  second : ℕ → Escape

abbrev hex_value : ℕ → ℕ
hex_value c = if leb c 57 then c - 48 else (if leb 97 c then c - 87 else c - 55)

abbrev escape_after : Escape → ℕ → Escape
escape_after outside c = if nat_eq c 37 then first else outside
escape_after first c = second (hex_value c)
escape_after (second h) c = outside

abbrev byte_at : Escape → ℕ → List ℕ
byte_at outside c = if nat_eq c 37 then [] else (if nat_eq c 43 then 32 ∷ [] else c ∷ [])
byte_at first c = []
byte_at (second h) c = (16 * h + hex_value c) ∷ []

unfoldable pub unescape : Escape → Str → List ℕ
unescape at [] = []
unescape at (c ∷ s) = byte_at at c ++ unescape (escape_after at c) s

-- The bytes of a text in UTF-8.
unfoldable pub utf8_bytes : Str → List ℕ
unfolding utf8
utf8_bytes [] = []
utf8_bytes (c ∷ s) = utf8 c ++ utf8_bytes s

unescape-plain :
    (c : ℕ) (s : Str) → is_plain c ≡ true → unescape outside (c ∷ s) ≡ c ∷ unescape outside s
unfolding unescape
unescape-plain c s h = ground (arith, h)

pub unescape-IsPlain : (s : Str) → IsPlain s → unescape outside s ≡ s
unescape-IsPlain [] h = unfold unescape in refl
unescape-IsPlain (c ∷ s) h = rw (unescape-plain c s h.0, unescape-IsPlain s h.1) refl

hex_value-hex : (n : ℕ) → n < 16 → hex_value (hex n) ≡ n
unfolding hex
hex_value-hex n h = ground (arith, h)

unescape-escape :
    (bs : List ℕ) (s : Str)
    → All (λ b. b < 256) bs
    → unescape outside (escape bs ++ s) ≡ bs ++ unescape outside s
unfolding unescape escape
unescape-escape [] s h = refl
unescape-escape (b ∷ bs) s h =
    rw
      (
        hex_value-hex (b / 16) (omega (arith, h.0)),
        hex_value-hex (b % 16) (omega arith),
        unescape-escape bs s h.1,
      )
      (ap (λ t. t ∷ (bs ++ unescape outside s)) (omega arith))

utf8-ascii : (c : ℕ) → is_plain c ≡ true → utf8 c ≡ c ∷ []
unfolding utf8
utf8-ascii c h = ground (arith, h)

-- What an encoding can give of a text with these bytes: inert characters, which are read as the bytes.
unfoldable pub Reads : Raises Str → List ℕ → Type 0
Reads (ok q) bs = IsInert q × (unescape outside q ≡ bs)
Reads (raised e) bs = Unit

Reads-kept :
    (r : Raises Str) (c : ℕ) (bs : List ℕ)
    → is_plain c ≡ true
    → Reads r bs
    → Reads (r >>= (λ q. ok (c ∷ q))) (utf8 c ++ bs)
unfolding Reads
Reads-kept (ok q) c bs h k =
    ((ground (arith, h), k.0), rw (unescape-plain c q h, utf8-ascii c h, k.1) refl)
Reads-kept (raised e) c bs h k = tt

Reads-escaped :
    (r : Raises Str) (cs bs : List ℕ)
    → All (λ b. b < 256) cs
    → Reads r bs
    → Reads (r >>= (λ q. ok (escape cs ++ q))) (cs ++ bs)
unfolding Reads
Reads-escaped (ok q) cs bs h k = (
  All-append (λ c. is_inert c ≡ true) (escape cs) q (escape-IsInert cs h) k.0,
  unescape-escape cs q h ∙ ap (λ t. cs ++ t) k.1,
)
Reads-escaped (raised e) cs bs h k = tt

pub quote-Reads :
    (safe s : Str) → IsPlain safe → All (λ c. c < 1114112) s → Reads (quote safe s) (utf8_bytes s)
unfolding quote utf8_bytes
quote-Reads safe [] h k = unfold Reads unescape in (tt, refl)
quote-Reads safe (c ∷ s) h k =
    let rest = quote-Reads safe s h k.1 in
    elim (Bool-cases (leb 55296 c && leb c 57343)) [
      | inl e ↦ rw (quote, e) (unfold Reads in tt)
      | inr e ↦ elim (Bool-cases (always_safe c || any (nat_eq c) safe)) [
        | inl f ↦
            rw (quote, e, f)
              (Reads-kept (quote safe s) c (utf8_bytes s) (kept_plain c safe h f) rest)
        | inr f ↦
            rw (quote, e, f)
              (Reads-escaped (quote safe s) (utf8 c) (utf8_bytes s) (bytes c k.0) rest)
      ]
    ]
