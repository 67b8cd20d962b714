-- ===== src/Responsive/Cursor.antt =====
-- `advance_responsive_cursor` as a queue (src/ichnos/responsive.py).
use ichnos.Base.{
  ℕ, zero, suc, Str, ◌==◌, str_eq_refl, eq_iff, contains, Bool, true, false, not, List, [], ◌∷◌,
  ◌++◌, map, some, ◌≡◌, refl, sym, arith, All, append-nil, All-map, keep_if, keep_if-append, take,
  drop, take-append-drop, Bool-cases, inl, inr,
}
use ichnos.Responsive.{Host, addresses, advance}

-- No two hosts have the same address.
abbrev pub Distinct : List Host → Type 0
Distinct [] = Unit
Distinct (h ∷ hs) = (contains h.0 (addresses hs) ≡ false) × Distinct hs

abbrev stamped : Str → List Host → List Host
stamped stamp hosts = map (λ (h : Host). (h.0, stamp)) hosts

keep_if-every {ℓ} :
    {A : Type ℓ} (test : A → Bool) (xs : List A)
    → All (λ x. test x ≡ true) xs
    → keep_if test xs ≡ xs
keep_if-every test [] h = refl
keep_if-every test (x ∷ xs) h = rw (h.0, keep_if-every test xs h.1)

keep_if-none {ℓ} :
    {A : Type ℓ} (test : A → Bool) (xs : List A)
    → All (λ x. test x ≡ false) xs
    → keep_if test xs ≡ []
keep_if-none test [] h = refl
keep_if-none test (x ∷ xs) h = rw (h.0, keep_if-none test xs h.1)

later-contains :
    (y : Str) (zs : List Str) (x : Host) → contains x.0 zs ≡ true → contains x.0 (y ∷ zs) ≡ true
unfolding contains
later-contains y zs x h = ground arith

-- Each host of a list is among its addresses.
pub self-contains : (hosts : List Host) → All (λ h. contains h.0 (addresses hosts) ≡ true) hosts
self-contains [] = tt
self-contains (h ∷ hosts) = (
  unfold contains in rw (str_eq_refl h.0),
  All-map _ _ hosts (later-contains h.0 (addresses hosts)) (self-contains hosts),
)

apart : (x y : Str) → (x == y) ≡ false → (y == x) ≡ false
apart x y h = elim (Bool-cases (y == x)) [
  | inl e ↦ ground (arith, h, e, eq_iff y x, eq_iff x y)
  | inr e ↦ e
]

-- An address that is not in a list differs from those of each suffix.
absent-drop :
    (x : Str) (n : ℕ) (hosts : List Host)
    → contains x (addresses hosts) ≡ false
    → All (λ h. (h.0 == x) ≡ false) (drop n hosts)
unfolding contains
absent-drop x zero [] e = tt
absent-drop x zero (h ∷ hosts) e =
    (apart x h.0 (ground arith), absent-drop x zero hosts (ground arith))
absent-drop x (suc n) [] e = tt
absent-drop x (suc n) (h ∷ hosts) e = absent-drop x n hosts (ground arith)

neither :
    (x : Str) (seen : List Str) (hosts : List Host)
    → All (λ h. (h.0 == x) ≡ false) hosts
    → All (λ h. contains h.0 seen ≡ false) hosts
    → All (λ h. contains h.0 (x ∷ seen) ≡ false) hosts
unfolding contains
neither x seen [] h k = tt
neither x seen (y ∷ hosts) h k = (rw (h.0, k.0), neither x seen hosts h.1 k.1)

-- With distinct addresses none of those behind the first `n` is among the first `n`.
rest-apart :
    (n : ℕ) (hosts : List Host)
    → Distinct hosts
    → All (λ h. contains h.0 (addresses (take n hosts)) ≡ false) (drop n hosts)
unfolding contains
rest-apart zero [] d = tt
rest-apart zero (h ∷ hosts) d = (refl, rest-apart zero hosts d.1)
rest-apart (suc n) [] d = tt
rest-apart (suc n) (h ∷ hosts) d =
    neither h.0 (addresses (take n hosts)) (drop n hosts) (absent-drop h.0 n hosts d.0)
      (rest-apart n hosts d.1)

negated :
    (seen : List Str) (b c : Bool) (hosts : List Host)
    → not b ≡ c
    → All (λ h. contains h.0 seen ≡ b) hosts
    → All (λ h. not (contains h.0 seen) ≡ c) hosts
negated seen b c [] e h = tt
negated seen b c (x ∷ hosts) e h = (rw h.0 e, negated seen b c hosts e h.1)

-- The split of a list by a test that holds of all of a prefix and of none behind it.
split-prefix :
    (seen : List Str) (xs ys : List Host)
    → All (λ h. contains h.0 seen ≡ true) xs
    → All (λ h. contains h.0 seen ≡ false) ys
    → (keep_if (λ h. contains h.0 seen) (xs ++ ys) ≡ xs)
      × (keep_if (λ h. not (contains h.0 seen)) (xs ++ ys) ≡ ys)
split-prefix seen xs ys h k = (
  rw (
    keep_if-append (λ (h : Host). contains h.0 seen) xs ys,
    keep_if-every (λ (h : Host). contains h.0 seen) xs h,
    keep_if-none (λ (h : Host). contains h.0 seen) ys k,
    append-nil,
  ),
  rw (
    keep_if-append (λ (h : Host). not (contains h.0 seen)) xs ys,
    keep_if-none (λ (h : Host). not (contains h.0 seen)) xs (negated seen true false xs refl h),
    keep_if-every (λ (h : Host). not (contains h.0 seen)) ys (negated seen false true ys refl k),
  ),
)

advance-parts :
    (stamp : Str) (h : Host) (xs ys hosts : List Host)
    → (h ∷ xs) ++ ys ≡ hosts
    → All (λ k. contains k.0 (addresses (h ∷ xs)) ≡ false) ys
    → advance (addresses (h ∷ xs)) stamp hosts ≡ some (ys ++ stamped stamp (h ∷ xs))
unfolding advance
advance-parts stamp h xs ys hosts e apart =
    let (kept, moved) =
      split-prefix (addresses (h ∷ xs)) (h ∷ xs) ys (self-contains (h ∷ xs)) apart in
    rw (sym e) (rw (kept, moved))

-- Where the addresses are distinct, a run that has walked the first `n` hosts, `n` not 0, of a list that
-- is not empty puts exactly these behind the others, each with the new stamp, and keeps the order of both.
pub advance-rotates :
    (n : ℕ) (stamp : Str) (h : Host) (hosts : List Host)
    → Distinct (h ∷ hosts)
    → advance (addresses (take (suc n) (h ∷ hosts))) stamp (h ∷ hosts)
      ≡ some (drop n hosts ++ map (λ (x : Host). (x.0, stamp)) (take (suc n) (h ∷ hosts)))
advance-rotates n stamp h hosts d =
    advance-parts stamp h (take n hosts) (drop n hosts) (h ∷ hosts)
      (take-append-drop (suc n) (h ∷ hosts)) (rest-apart (suc n) (h ∷ hosts) d)
