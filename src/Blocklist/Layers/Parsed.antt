-- ===== src/Blocklist/Layers/Parsed.antt =====
-- The networks that entries parse to have their host bits cleared and lie in the address space.
use native.Mathlib.Nat.{mul-div_cancel, div-mul-le_self}
use mathlib.Core.Path.{subst}
use ichnos.Base.{
  ℕ, zero, suc, ◌-◌, ◌*◌, ◌/◌, ◌^◌, ◌≤◌, ◌<◌, leb, nat_eq, Str, codes, strip, split, Bool, true,
  false, not, ◌&&◌, ◌≡◌, ap, arith, Bool-cases, Option-cases, inl, inr, List, [], ◌∷◌, ◌++◌, All,
  Option, none, some, if◌then◌else◌, length,
}
use ichnos.Blocklist.{
  Network, net4, net6, octet, number, leading_zero, join_octets, dotted, parse_v4, bounded, or_else,
  prefix_of_mask, dotted_mask, prefix_v4, network_v4, network_v6, first_network, ip_network,
  entry_network, parse_entry,
}
use ichnos.Blocklist.Collapse.Cover.{IsBlock, pow_pos}
use ichnos.Blocklist.Layers.{networks}

abbrev Holds {ℓ κ} : {A : Type ℓ} → (A → Type κ) → Option A → Type κ
Holds P none = Unit
Holds P (some x) = P x

-- An IPv4 network of the address space.
abbrev pub IsNetwork : Network → Type 0
IsNetwork (net4 n p) = IsBlock 32 (n, p)
IsNetwork (net6 n p) = Unit

Holds-if {ℓ κ} :
    {A : Type ℓ} (P : A → Type κ) (t : Bool) (a b : Option A)
    → Holds P a
    → Holds P b
    → Holds P (if t then a else b)
Holds-if P true a b h k = h
Holds-if P false a b h k = k

Holds-bounded : (limit : ℕ) (o : Option ℕ) → Holds (λ n. n ≤ limit) (bounded limit o)
unfolding bounded
Holds-bounded limit none = tt
Holds-bounded limit (some n) = elim (Bool-cases (leb n limit)) [
  | inl e ↦ rw e (ground (arith, e))
  | inr e ↦ rw e tt
]

Holds-within :
    (limit : ℕ) (o : Option ℕ)
    → Holds
        (λ n. n ≤ limit)
        (elim o [ none ↦ none | some n ↦ if leb n limit then some n else none ])
Holds-within limit none = tt
Holds-within limit (some n) = elim (Bool-cases (leb n limit)) [
  | inl e ↦ rw e (ground (arith, e))
  | inr e ↦ rw e tt
]

Holds-octet : (s : Str) → Holds (λ n. n ≤ 255) (octet s)
unfolding octet
Holds-octet s =
    Holds-if (λ n. n ≤ 255) (leb (length s) 3 && not (leading_zero s)) _ none
      (Holds-within 255 (number s)) tt

Holds-join_octets :
    (a b c d : Option ℕ)
    → Holds (λ n. n ≤ 255) a
    → Holds (λ n. n ≤ 255) b
    → Holds (λ n. n ≤ 255) c
    → Holds (λ n. n ≤ 255) d
    → Holds (λ n. n < 2 ^ 32) (join_octets a b c d)
unfolding join_octets
Holds-join_octets (some a) (some b) (some c) (some d) h k l m = omega (arith, h, k, l, m)
Holds-join_octets none b c d h k l m = tt
Holds-join_octets (some a) none c d h k l m = tt
Holds-join_octets (some a) (some b) none d h k l m = tt
Holds-join_octets (some a) (some b) (some c) none h k l m = tt

Holds-quad :
    (o : Option (Str × Str × Str × Str))
    → Holds
        (λ n. n < 2 ^ 32)
        (elim o [
          | none ↦ none
          | some (a, b, c, d) ↦ join_octets (octet a) (octet b) (octet c) (octet d)
        ])
Holds-quad none = tt
Holds-quad (some (a, b, c, d)) =
    Holds-join_octets (octet a) (octet b) (octet c) (octet d) (Holds-octet a) (Holds-octet b)
      (Holds-octet c) (Holds-octet d)

parse_v4-Holds : (s : Str) → Holds (λ n. n < 2 ^ 32) (parse_v4 s)
unfolding parse_v4
parse_v4-Holds s = Holds-quad (dotted s)

pub parse_v4-inside : (s : Str) (n : ℕ) → parse_v4 s ≡ some n → n < 2 ^ 32
parse_v4-inside s n e = subst (Holds (λ m. m < 2 ^ 32)) e (parse_v4-Holds s)

Holds-or_else {κ} :
    (P : ℕ → Type κ) (a b : Option ℕ) → Holds P a → Holds P b → Holds P (or_else a b)
unfolding or_else
Holds-or_else P none b h k = k
Holds-or_else P (some n) b h k = h

weaker : (p : ℕ) (o : Option ℕ) → Holds (λ n. n ≤ p) o → Holds (λ n. n ≤ suc p) o
weaker p none h = tt
weaker p (some n) h = omega (arith, h)

Holds-prefix_of_mask : (p m : ℕ) (mask : ℕ → ℕ) → Holds (λ n. n ≤ p) (prefix_of_mask p m mask)
unfolding prefix_of_mask
Holds-prefix_of_mask zero m mask =
    Holds-if (λ n. n ≤ 0) (nat_eq m (mask 0)) (some 0) none (omega arith) tt
Holds-prefix_of_mask (suc p) m mask =
    Holds-if (λ n. n ≤ suc p) (nat_eq m (mask (suc p))) (some (suc p)) (prefix_of_mask p m mask)
      (omega arith) (weaker p (prefix_of_mask p m mask) (Holds-prefix_of_mask p m mask))

by_mask :
    (o : Option ℕ)
    → Holds
        (λ n. n ≤ 32)
        (elim o [
          | none ↦ none
          | some m ↦
              or_else
                (prefix_of_mask 32 m (λ p. 2 ^ 32 - 2 ^ (32 - p)))
                (prefix_of_mask 32 m (λ p. 2 ^ (32 - p) - 1))
        ])
by_mask none = tt
by_mask (some m) =
    Holds-or_else (λ n. n ≤ 32) _ _ (Holds-prefix_of_mask 32 m (λ p. 2 ^ 32 - 2 ^ (32 - p)))
      (Holds-prefix_of_mask 32 m (λ p. 2 ^ (32 - p) - 1))

Holds-prefix_v4 : (s : Str) → Holds (λ n. n ≤ 32) (prefix_v4 s)
unfolding prefix_v4 dotted_mask
Holds-prefix_v4 s =
    Holds-or_else (λ n. n ≤ 32) (bounded 32 (number s)) (dotted_mask s)
      (Holds-bounded 32 (number s)) (by_mask (parse_v4 s))

network_v4-Holds :
    (a p : Option ℕ)
    → Holds (λ n. n < 2 ^ 32) a
    → Holds (λ n. n ≤ 32) p
    → Holds IsNetwork (network_v4 a p)
unfolding network_v4
network_v4-Holds none p h k = tt
network_v4-Holds (some n) none h k = tt
network_v4-Holds (some n) (some p) h k =
    let s = 2 ^ (32 - p) in
    record {
      prefix = k;
      masked = ap (λ (t : ℕ). t * s) (mul-div_cancel (n / s) (pow_pos (32 - p)));
      inside = omega (arith, div-mul-le_self n s, h);
    }

network_v6-Holds : (a p : Option ℕ) → Holds IsNetwork (network_v6 a p)
unfolding network_v6
network_v6-Holds none p = tt
network_v6-Holds (some n) none = tt
network_v6-Holds (some n) (some p) = tt

first_network-Holds :
    (a b : Option Network)
    → Holds IsNetwork a
    → Holds IsNetwork b
    → Holds IsNetwork (first_network a b)
unfolding first_network
first_network-Holds none b h k = k
first_network-Holds (some n) b h k = h

module _ (parse_v6 : Str → Option ℕ) where
  parts-Holds :
      (s : Str) (o : Option (Str × Str))
      → Holds IsNetwork (elim o [
        | none ↦
            first_network (network_v4 (parse_v4 s) (some 32)) (network_v6 (parse_v6 s) (some 128))
        | some (a, p) ↦
            first_network
              (network_v4 (parse_v4 a) (prefix_v4 p))
              (network_v6 (parse_v6 a) (bounded 128 (number p)))
      ])
  parts-Holds s none =
      first_network-Holds (network_v4 (parse_v4 s) (some 32)) (network_v6 (parse_v6 s) (some 128))
        (network_v4-Holds (parse_v4 s) (some 32) (parse_v4-Holds s) (omega arith))
        (network_v6-Holds (parse_v6 s) (some 128))
  parts-Holds s (some (a, p)) =
      first_network-Holds (network_v4 (parse_v4 a) (prefix_v4 p))
        (network_v6 (parse_v6 a) (bounded 128 (number p)))
        (network_v4-Holds (parse_v4 a) (prefix_v4 p) (parse_v4-Holds a) (Holds-prefix_v4 p))
        (network_v6-Holds (parse_v6 a) (bounded 128 (number p)))

  pub ip_network-Holds : (s : Str) → Holds IsNetwork (ip_network parse_v6 s)
  unfolding ip_network
  ip_network-Holds s = parts-Holds s (split 47 s)

  entry_network-Holds : (s : Str) → Holds IsNetwork (entry_network parse_v6 s)
  unfolding entry_network
  entry_network-Holds [] = tt
  entry_network-Holds (c ∷ s) = Holds-if IsNetwork (nat_eq c 35) none _ tt (
      ip_network-Holds (elim (split 47 (c ∷ s)) [ none ↦ (c ∷ s) ++ codes "/32" | some _ ↦ c ∷ s ]))

  parse_entry-Holds : (s : Str) → Holds IsNetwork (parse_entry parse_v6 s)
  unfolding parse_entry
  parse_entry-Holds s = entry_network-Holds (strip s)

  pub networks-IsNetwork : (entries : List Str) → All IsNetwork (networks parse_v6 entries)
  unfolding networks
  networks-IsNetwork [] = tt
  networks-IsNetwork (e ∷ es) = elim (Option-cases (parse_entry parse_v6 e)) [
    | inl h ↦ rw (h, networks) (networks-IsNetwork es)
    | inr (n, h) ↦
        rw (h, networks) (subst (Holds IsNetwork) h (parse_entry-Holds e), networks-IsNetwork es)
  ]
