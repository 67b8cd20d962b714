-- ===== src/Blocklist/Layers/Printed.antt =====
-- The printed form of an IPv4 network is read back as that network.
use ichnos.Base.{
  ℕ, zero, suc, ◌+◌, ◌*◌, ◌/◌, ◌%◌, ◌^◌, ◌≤◌, ◌<◌, leb, nat_eq, nat_eq_iff, Str, split, Bool, true,
  false, not, ◌&&◌, ◌≡◌, refl, ap, arith, Bool-cases, inl, inr, [], ◌∷◌, ◌++◌, All, All-append,
  length, length-append, Option, none, some,
}
use ichnos.Base.Decimal.{decimal}
use ichnos.Blocklist.{
  net4, octet, number, join_octets, dotted, parse_v4, bounded, prefix_v4, ip_network,
}
use ichnos.Blocklist.Collapse.{Block}
use ichnos.Blocklist.Collapse.Cover.{IsBlock}
use ichnos.Blocklist.Layers.{address_text, network_text}

split-first :
    (sep : ℕ) (w r : Str)
    → All (λ c. nat_eq c sep ≡ false) w
    → split sep (w ++ (sep ∷ r)) ≡ some (w, r)
unfolding split
split-first sep [] r h = ground arith
split-first sep (c ∷ w) r h = rw (h.0, split-first sep w r h.1) refl

-- A test that holds below `n`.
below : (ℕ → Bool) → ℕ → Bool
below test zero = true
below test (suc n) = test n && below test n

below-at : (test : ℕ → Bool) (n m : ℕ) → below test n ≡ true → m < n → test m ≡ true
unfolding below
below-at test zero m h k = ground (arith, k)
below-at test (suc n) m h k = elim (Bool-cases (nat_eq m n)) [
  | inl e ↦ ground (arith, h, ap test ((nat_eq_iff m n).0 e))
  | inr e ↦ below-at test n m (ground (arith, h)) (ground (arith, e, k))
]

is_value : ℕ → Option ℕ → Bool
is_value n none = false
is_value n (some m) = nat_eq m n

is_value→eq : (n : ℕ) (o : Option ℕ) → is_value n o ≡ true → o ≡ some n
unfolding is_value
is_value→eq n none h = ground (arith, h)
is_value→eq n (some m) h = ap some ((nat_eq_iff m n).0 h)

no_separator : Str → Bool
no_separator [] = true
no_separator (c ∷ s) = not (nat_eq c 46) && not (nat_eq c 47) && no_separator s

reads_back : ℕ → Bool
unfolding is_value no_separator
reads_back n =
    is_value n (octet (decimal n)) && is_value n (number (decimal n)) && no_separator (decimal n)

all_octets : below reads_back 256 ≡ true
unfolding below reads_back octet number decimal
all_octets = refl

record ReadsBack (n : ℕ) : Type 0 where
  as_octet : octet (decimal n) ≡ some n
  as_number : number (decimal n) ≡ some n
  plain : no_separator (decimal n) ≡ true

decimal-ReadsBack : (n : ℕ) → n < 256 → ReadsBack n
unfolding reads_back
decimal-ReadsBack n h =
    let t = below-at reads_back 256 n all_octets h in
    record {
      as_octet = is_value→eq n (octet (decimal n)) (ground (arith, t));
      as_number = is_value→eq n (number (decimal n)) (ground (arith, t));
      plain = ground (arith, t);
    }

no_dot : (s : Str) → no_separator s ≡ true → All (λ c. nat_eq c 46 ≡ false) s
unfolding no_separator
no_dot [] h = tt
no_dot (c ∷ s) h = (ground (arith, h), no_dot s (ground (arith, h)))

no_slash-append :
    (s t : Str)
    → no_separator s ≡ true
    → All (λ c. nat_eq c 47 ≡ false) t
    → All (λ c. nat_eq c 47 ≡ false) (s ++ t)
unfolding no_separator
no_slash-append [] t h k = k
no_slash-append (c ∷ s) t h k = (ground (arith, h), no_slash-append s t (ground (arith, h)) k)

no_slash : (s : Str) → no_separator s ≡ true → All (λ c. nat_eq c 47 ≡ false) s
unfolding no_separator
no_slash [] h = tt
no_slash (c ∷ s) h = (ground (arith, h), no_slash s (ground (arith, h)))

top_octet : (n : ℕ) → n < 2 ^ 32 → n / 256 / 256 / 256 < 256
top_octet n h = omega (arith, h)

octets_joined :
    (n : ℕ)
    → ((n / 256 / 256 / 256 * 256 + n / 256 / 256 % 256) * 256 + n / 256 % 256) * 256 + n % 256 ≡ n
octets_joined n = omega arith

-- An address below 2 ^ 32 is printed in dotted form and read back.
parse_v4-address_text : (n : ℕ) → n < 2 ^ 32 → parse_v4 (address_text n) ≡ some n
unfolding parse_v4 address_text dotted join_octets
parse_v4-address_text n h =
    let a = decimal-ReadsBack (n / 256 / 256 / 256) (top_octet n h) in
    let b = decimal-ReadsBack (n / 256 / 256 % 256) (omega arith) in
    let c = decimal-ReadsBack (n / 256 % 256) (omega arith) in
    let d = decimal-ReadsBack (n % 256) (omega arith) in
    rw
      (
        parse_v4,
        address_text,
        dotted,
        split-first 46 (decimal (n / 256 / 256 / 256)) _ (no_dot _ a.plain),
        split-first 46 (decimal (n / 256 / 256 % 256)) _ (no_dot _ b.plain),
        split-first 46 (decimal (n / 256 % 256)) (decimal (n % 256)) (no_dot _ c.plain),
        a.as_octet,
        b.as_octet,
        c.as_octet,
        d.as_octet,
      )
      (ap some (octets_joined n))

address_text-no_slash : (n : ℕ) → n < 2 ^ 32 → All (λ c. nat_eq c 47 ≡ false) (address_text n)
unfolding address_text
address_text-no_slash n h =
    let octet_plain = λ (m : ℕ) (k : m < 256). ReadsBack.plain (decimal-ReadsBack m k) in
    no_slash-append (decimal (n / 256 / 256 / 256)) _ (octet_plain _ (top_octet n h)) (
      refl,
      no_slash-append (decimal (n / 256 / 256 % 256)) _
          (octet_plain (n / 256 / 256 % 256) (omega arith))
          (
            refl,
            no_slash-append (decimal (n / 256 % 256)) _ (octet_plain (n / 256 % 256) (omega arith))
                (refl, no_slash (decimal (n % 256)) (octet_plain (n % 256) (omega arith))),
          ),
    )

prefix_v4-decimal : (p : ℕ) → p ≤ 32 → prefix_v4 (decimal p) ≡ some p
unfolding prefix_v4 bounded
prefix_v4-decimal p h =
    rw (ReadsBack.as_number (decimal-ReadsBack p (omega (arith, h)))) (ground (arith, h))

-- A network with its host bits cleared is read back from its printed form.
pub ip_network-network_text :
    (parse_v6 : Str → Option ℕ) (b : Block)
    → IsBlock 32 b
    → ip_network parse_v6 (network_text address_text b) ≡ some (net4 b.0 b.1)
unfolding ip_network network_text
ip_network-network_text parse_v6 b v =
    rw
      (
        ip_network,
        network_text,
        split-first 47 (address_text b.0) (decimal b.1) (address_text-no_slash b.0 v.inside),
        parse_v4-address_text b.0 v.inside,
        prefix_v4-decimal b.1 v.prefix,
      )
      (ap (λ n. some (net4 n b.1)) v.masked)

abbrev pub is_printed : ℕ → Bool
is_printed c = leb 46 c && leb c 57

all_printed : Str → Bool
all_printed [] = true
all_printed (c ∷ s) = is_printed c && all_printed s

all_octets_printed : below (λ n. all_printed (decimal n)) 256 ≡ true
unfolding below all_printed decimal
all_octets_printed = refl

all_printed-All : (s : Str) → all_printed s ≡ true → All (λ c. is_printed c ≡ true) s
unfolding all_printed
all_printed-All [] h = tt
all_printed-All (c ∷ s) h = (ground (arith, h), all_printed-All s (ground (arith, h)))

decimal-printed : (n : ℕ) → n < 256 → All (λ c. is_printed c ≡ true) (decimal n)
decimal-printed n h =
    all_printed-All (decimal n) (below-at (λ m. all_printed (decimal m)) 256 n all_octets_printed h)

then_mark :
    (s t : Str) (c : ℕ)
    → is_printed c ≡ true
    → All (λ d. is_printed d ≡ true) s
    → All (λ d. is_printed d ≡ true) t
    → All (λ d. is_printed d ≡ true) (s ++ (c ∷ t))
then_mark s t c e h k = All-append (λ d. is_printed d ≡ true) s (c ∷ t) h (e, k)

-- A printed network is made of digits, dots and a slash.
pub network_text-printed :
    (b : Block) → IsBlock 32 b → All (λ c. is_printed c ≡ true) (network_text address_text b)
unfolding network_text address_text
network_text-printed b v =
    let n = b.0 in
    then_mark (address_text n) (decimal b.1) 47 refl
      (then_mark (decimal (n / 256 / 256 / 256)) _ 46 refl
        (decimal-printed (n / 256 / 256 / 256) (top_octet n v.inside))
        (then_mark (decimal (n / 256 / 256 % 256)) _ 46 refl
          (decimal-printed (n / 256 / 256 % 256) (omega arith))
          (then_mark (decimal (n / 256 % 256)) (decimal (n % 256)) 46 refl
            (decimal-printed (n / 256 % 256) (omega arith))
            (decimal-printed (n % 256) (omega arith)))))
      (decimal-printed b.1 (omega (arith, v.prefix)))

pub network_text-long : (b : Block) → 2 ≤ length (network_text address_text b)
unfolding network_text address_text
network_text-long b =
    let n = b.0 in
    omega (
      arith,
      length-append (address_text n) (47 ∷ decimal b.1),
      length-append (decimal (n / 256 / 256 / 256)) (
          46
          ∷ (decimal (n / 256 / 256 % 256)
              ++ (46 ∷ (decimal (n / 256 % 256) ++ (46 ∷ decimal (n % 256)))))),
    )
