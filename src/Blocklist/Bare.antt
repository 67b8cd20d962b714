-- ===== src/Blocklist/Bare.antt =====
-- A block list entry that is an IPv4 address and no network.
use ichnos.Base.{
  ℕ, leb, nat_eq, nat_eq_iff, Str, codes, strip, split, Bool, true, false, not, ◌&&◌, [], ◌∷◌, ◌++◌,
  length, Option, none, some, if◌then◌else◌, Option-cases, Bool-cases, inl, inr, ◌≡◌, refl, sym, ap,
  ◌∙◌, arith,
}
use native.Mathlib.Nat.{div-one}
use ichnos.Blocklist.{
  net4, is_digit, digits_from, number, leading_zero, octet, join_octets, dotted, parse_v4, bounded,
  prefix_v4, network_v4, first_network, ip_network, entry_network, parse_entry,
}

same_both {ℓ} : {A : Type ℓ} (t : Bool) (x : A) → (if t then x else x) ≡ x
same_both true x = refl
same_both false x = refl

octet-hash : (s : Str) → octet (35 ∷ s) ≡ none
unfolding octet number digits_from is_digit
octet-hash s = same_both (leb (length (35 ∷ s)) 3 && not (leading_zero (35 ∷ s))) none

parse_v4-hash : (s : Str) → parse_v4 (35 ∷ s) ≡ none
unfolding parse_v4 dotted split join_octets
parse_v4-hash s = elim (Option-cases (split 46 s)) [
  | inl e ↦ rw (parse_v4, dotted, split, e) refl
  | inr ((a, r), e) ↦ elim (Option-cases (split 46 r)) [
    | inl f ↦ rw (parse_v4, dotted, split, e, f) refl
    | inr ((b, q), f) ↦ elim (Option-cases (split 46 q)) [
      | inl g ↦ rw (parse_v4, dotted, split, e, f, g) refl
      | inr ((c, d), g) ↦ rw (parse_v4, dotted, split, e, f, g) (rw (octet-hash a) refl)
    ]
  ]
]

some_none {κ} : {A : Type 0} {C : Type κ} (x : A) → ◌≡◌ {A = Option A} (some x) none → C
some_none x h = cc

no_slash : (s : Str) → split 47 s ≡ none → (r : Str) → split 47 (s ++ (47 ∷ r)) ≡ some (s, r)
unfolding split
no_slash [] h r = refl
no_slash (c ∷ s) h r = elim (Bool-cases (nat_eq c 47)) [
  | inl e ↦ some_none ([], s) (rw (split, e) at h)
  | inr e ↦ elim (Option-cases (split 47 s)) [
    | inl f ↦ rw (split, e, no_slash s f r) refl
    | inr ((a, b), f) ↦ some_none (c ∷ a, b) (rw (split, e, f) at h)
  ]
]

empty_text : parse_v4 [] ≡ none
unfolding parse_v4
empty_text = refl

with_prefix :
    (parse_v6 : Str → Option ℕ) (s : Str) (n : ℕ)
    → split 47 s ≡ none
    → parse_v4 s ≡ some n
    → ip_network parse_v6 (s ++ codes "/32") ≡ some (net4 n 32)
unfolding ip_network
with_prefix parse_v6 s n k e =
    rw (ip_network, no_slash s k (codes "32"), e)
      (unfold prefix_v4 bounded number digits_from is_digit network_v4 first_network in
        ap (λ m. some (net4 m 32)) (rw (div-one n) (omega arith)))

-- It stands for the network of that address alone.
pub parse_entry-bare :
    (parse_v6 : Str → Option ℕ) (s : Str) (n : ℕ)
    → strip s ≡ s
    → split 47 s ≡ none
    → parse_v4 s ≡ some n
    → parse_entry parse_v6 s ≡ some (net4 n 32)
unfolding parse_entry entry_network
parse_entry-bare parse_v6 [] n h k e = some_none n (sym e ∙ empty_text)
parse_entry-bare parse_v6 (c ∷ s) n h k e = elim (Bool-cases (nat_eq c 35)) [
  | inl f ↦
      some_none n (sym e ∙ ap (λ d. parse_v4 (d ∷ s)) ((nat_eq_iff c 35).0 f) ∙ parse_v4-hash s)
  | inr f ↦ rw (parse_entry, h, entry_network, f, k) (with_prefix parse_v6 (c ∷ s) n k e)
]
