-- ===== src/Webapp/Honoured.antt =====
-- An opt-out that is accepted is one that the block list takes up.
use mathlib.Core.List.{reverse, reverse-append, reverse-cons}
use ichnos.Base.{
  ℕ, Str, is_space, lstrip, rstrip, strip, strip-framed, split, ◌==◌, Bool, true, false, List, [],
  ◌∷◌, ◌++◌, map, any, Option, none, some, Bool-cases, inl, inr, Raises, ok, raised, ◌≡◌, refl, ap,
  arith,
}
use ichnos.Base.Dict.{store, values}
use ichnos.Models.{Exclusion}
use ichnos.Storage.Memory.{Exclusions, list_all}
use ichnos.Blocklist.{v4, parse_v4, within}
use ichnos.Blocklist.Bare.{parse_entry-bare}
use ichnos.Blocklist.Layers.Listed.{listed}
use ichnos.Webapp.{
  Form, Service, valid_ip_or_cidr, exclusion_of, answered, verify_challenge, answer_of,
  opt_out_submit,
}

-- A text that a stripped text can be: nothing, or with a plain first character.
data IsLeading : Str → Type 0 where
  nothing : IsLeading []
  leading : (c : ℕ) (s : Str) → is_space c ≡ false → IsLeading (c ∷ s)

lstrip-IsLeading : (s : Str) → IsLeading (lstrip s)
unfolding lstrip
lstrip-IsLeading [] = nothing
lstrip-IsLeading (c ∷ s) = elim (Bool-cases (is_space c)) [
  | inl e ↦ rw (lstrip, e) (lstrip-IsLeading s)
  | inr e ↦ rw (lstrip, e) (leading c s e)
]

record Before (a : ℕ) (s : Str) : Type 0 where
  front : Str
  whole : s ≡ front ++ (a ∷ [])
  plain : IsLeading front

lstrip-Before : (a : ℕ) (u : Str) → is_space a ≡ false → Before a (lstrip (u ++ (a ∷ [])))
unfolding lstrip
lstrip-Before a [] h = record { front = []; whole = rw (lstrip, h) refl; plain = nothing }
lstrip-Before a (c ∷ u) h = elim (Bool-cases (is_space c)) [
  | inl e ↦ rw (lstrip, e) (lstrip-Before a u h)
  | inr e ↦ rw (lstrip, e) (record { front = c ∷ u; whole = refl; plain = leading c u e })
]

-- What has no white space at its ends.
data IsStripped : Str → Type 0 where
  empty : IsStripped []
  single : (a : ℕ) → is_space a ≡ false → IsStripped (a ∷ [])
  framed :
      (a b : ℕ) (s : Str)
      → is_space a ≡ false
      → is_space b ≡ false
      → IsStripped (a ∷ (s ++ (b ∷ [])))

strip-IsStripped : (s : Str) → IsStripped s → strip s ≡ s
unfolding strip lstrip rstrip
strip-IsStripped s empty = refl
strip-IsStripped s (single a h) = rw (strip, lstrip, h) (rw (rstrip, lstrip, h) refl)
strip-IsStripped s (framed a b t h k) = strip-framed a b t h k

reversed-IsStripped :
    (a : ℕ) (f : Str) → is_space a ≡ false → IsLeading f → IsStripped (reverse (f ++ (a ∷ [])))
reversed-IsStripped a f h nothing = single a h
reversed-IsStripped a f h (leading c g k) =
    rw (reverse-append (c ∷ g) (a ∷ []), reverse-cons c g) (framed a c (reverse g) h k)

rstrip-IsStripped : (s : Str) → IsLeading s → IsStripped (rstrip s)
unfolding rstrip lstrip
rstrip-IsStripped s nothing = empty
rstrip-IsStripped s (leading a u h) =
    let b = lstrip-Before a (reverse u) h in
    rw (rstrip, reverse-cons a u, b.whole) (reversed-IsStripped a b.front h b.plain)

-- Stripping twice is stripping once.
strip-strip : (s : Str) → strip (strip s) ≡ strip s
unfolding strip
strip-strip s = strip-IsStripped (strip s) (rstrip-IsStripped (lstrip s) (lstrip-IsLeading s))

entry_of : Exclusion → Str
entry_of e = e.ip_or_cidr

any-store :
    (test : Str → Bool) (k : Str) (e : Exclusion) (rows : List (Str × Exclusion))
    → test e.ip_or_cidr ≡ true
    → any test (map entry_of (values (store k e rows))) ≡ true
unfolding store entry_of
any-store test k e [] h = ground (arith, h)
any-store test k e ((j, d) ∷ rows) h = elim (Bool-cases (j == k)) [
  | inl same ↦ rw (store, same) (ground (arith, h))
  | inr apart ↦ rw (store, apart) (ground (arith, any-store test k e rows h))
]

bare_listed :
    (parse_v6 : Str → Option ℕ) (s : Str) (n : ℕ)
    → split 47 (strip s) ≡ none
    → parse_v4 (strip s) ≡ some n
    → listed parse_v6 (v4 n) (strip s) ≡ true
unfolding listed within
bare_listed parse_v6 s n h e =
    rw (listed, parse_entry-bare parse_v6 (strip s) n (strip-strip s) h e) (ground arith)

ok_inj : {m n : ℕ} → ◌≡◌ {A = Raises ℕ} (ok m) (ok n) → m ≡ n
ok_inj {m} e = ap (λ (r : Raises ℕ). elim r [ ok k ↦ k | raised x ↦ m ]) e

-- Only the branch that adds the entry answers with 200.
accepted :
    (service : Service) (form : Form) (rows : Exclusions) (r : Raises Bool) (test : Str → Bool)
    → (answered service form r rows).0 ≡ ok 200
    → test (strip form.ip_or_cidr) ≡ true
    → any test (map entry_of (list_all (answered service form r rows).1)) ≡ true
unfolding answered exclusion_of
accepted service form rows (raised e) test h k = cc
accepted service form rows (ok false) test h k = ground (arith, ok_inj h)
accepted service form rows (ok true) test h k =
    elim (Bool-cases (valid_ip_or_cidr service (strip form.ip_or_cidr))) [
      | inl e ↦
          rw (answered, e)
            (any-store test (strip form.ip_or_cidr) (exclusion_of service form) rows k)
      | inr e ↦ ground (arith, ok_inj (rw (answered, e) at h))
    ]

-- An opt-out for one IPv4 address, with any white space around it, that the form's handler answers with 200
-- is in the exclusion table from then on, as an entry that lists that address for the block list.
pub opt_out_honoured :
    (service : Service) (form : Form) (rows : Exclusions) (n : ℕ)
    → (opt_out_submit service form rows).0 ≡ ok 200
    → split 47 (strip form.ip_or_cidr) ≡ none
    → parse_v4 (strip form.ip_or_cidr) ≡ some n
    → any
        (listed service.parse_v6 (v4 n))
        (map (λ (e : Exclusion). e.ip_or_cidr) (list_all (opt_out_submit service form rows).1))
      ≡ true
unfolding opt_out_submit entry_of
opt_out_honoured service form rows n h k e =
    accepted service form rows
      (verify_challenge service form.a form.b form.token (answer_of service form))
      (listed service.parse_v6 (v4 n)) h (bare_listed service.parse_v6 form.ip_or_cidr n k e)
