-- ===== src/Base/Lists.antt =====
-- Lists measured by native numbers, under the library's names.
use Prim.Native.Nat.{ℕ, zero, suc, ◌+◌, min}
use mathlib.Core.Path.{◌≡◌, refl, ap, sym, ◌∙◌}
use mathlib.Core.List.{List, [], ◌∷◌, ◌++◌, reverse, reverse_aux}
use mathlib.Core.Logic.{inl, inr}
use ichnos.Base.Tests.{Bool-cases}
use mathlib.Core.Bool.{Bool, true, false, ◌||◌, ◌&&◌}
use ichnos.Base.Tests.{if◌then◌else◌}
use native.Mathlib.Omega.{arith}

module _ {ℓ} {A : Type ℓ} where
  abbrev pub length : List A → ℕ
  length [] = 0
  length (x ∷ xs) = suc (length xs)

  abbrev pub take : ℕ → List A → List A
  take zero xs = []
  take (suc n) [] = []
  take (suc n) (x ∷ xs) = x ∷ take n xs

  abbrev pub drop : ℕ → List A → List A
  drop zero xs = xs
  drop (suc n) [] = []
  drop (suc n) (x ∷ xs) = drop n xs

  -- A predicate that holds of each element; it computes to a tuple.
  abbrev pub All {κ} : (A → Type κ) → List A → Type κ
  All P [] = Unit
  All P (x ∷ xs) = P x × All P xs

  -- `any(test(x) for x in xs)`
  abbrev pub any : (A → Bool) → List A → Bool
  any test [] = false
  any test (x ∷ xs) = test x || any test xs

  -- `[x for x in xs if test(x)]`
  abbrev pub keep_if : (A → Bool) → List A → List A
  keep_if test [] = []
  keep_if test (x ∷ xs) = if test x then x ∷ keep_if test xs else keep_if test xs

  pub length-append : (xs ys : List A) → length (xs ++ ys) ≡ length xs + length ys
  length-append [] ys = omega arith
  length-append (x ∷ xs) ys = omega (arith, length-append xs ys)

  pub take-append-drop : (n : ℕ) (xs : List A) → take n xs ++ drop n xs ≡ xs
  take-append-drop zero xs = refl
  take-append-drop (suc n) [] = refl
  take-append-drop (suc n) (x ∷ xs) = ap (λ t. x ∷ t) (take-append-drop n xs)

  pub length-take : (n : ℕ) (xs : List A) → length (take n xs) ≡ min n (length xs)
  length-take zero xs = omega arith
  length-take (suc n) [] = omega arith
  length-take (suc n) (x ∷ xs) = omega (arith, length-take n xs)

  pub All-append {κ} : (P : A → Type κ) (xs ys : List A) → All P xs → All P ys → All P (xs ++ ys)
  All-append P [] ys h k = k
  All-append P (x ∷ xs) ys h k = (h.0, All-append P xs ys h.1 k)

  pub All-map {κ μ} :
      (P : A → Type κ) (Q : A → Type μ) (xs : List A) → ((x : A) → P x → Q x) → All P xs → All Q xs
  All-map P Q [] f h = tt
  All-map P Q (x ∷ xs) f h = (f x h.0, All-map P Q xs f h.1)

  pub keep_if-append :
      (test : A → Bool) (xs ys : List A)
      → keep_if test (xs ++ ys) ≡ keep_if test xs ++ keep_if test ys
  keep_if-append test [] ys = refl
  keep_if-append test (x ∷ xs) ys = ground (arith, keep_if-append test xs ys)

  pub any-append :
      (test : A → Bool) (xs ys : List A) → any test (xs ++ ys) ≡ (any test xs || any test ys)
  any-append test [] ys = refl
  any-append test (x ∷ xs) ys = ground (arith, any-append test xs ys)

  any-reverse_aux :
      (test : A → Bool) (xs ys : List A)
      → any test (reverse_aux xs ys) ≡ (any test xs || any test ys)
  any-reverse_aux test [] ys = refl
  any-reverse_aux test (x ∷ xs) ys = ground (arith, any-reverse_aux test xs (x ∷ ys))

  pub any-reverse : (test : A → Bool) (xs : List A) → any test (reverse xs) ≡ any test xs
  any-reverse test xs = ground (arith, any-reverse_aux test xs [])

  All-reverse_aux {κ} :
      (P : A → Type κ) (xs ys : List A) → All P xs → All P ys → All P (reverse_aux xs ys)
  All-reverse_aux P [] ys h k = k
  All-reverse_aux P (x ∷ xs) ys h k = All-reverse_aux P xs (x ∷ ys) h.1 (h.0, k)

  pub All-reverse {κ} : (P : A → Type κ) (xs : List A) → All P xs → All P (reverse xs)
  All-reverse P xs h = All-reverse_aux P xs [] h tt

  length-reverse_aux : (xs ys : List A) → length (reverse_aux xs ys) ≡ length xs + length ys
  length-reverse_aux [] ys = omega arith
  length-reverse_aux (x ∷ xs) ys = omega (arith, length-reverse_aux xs (x ∷ ys))

  pub length-reverse : (xs : List A) → length (reverse xs) ≡ length xs
  length-reverse xs = omega (arith, length-reverse_aux xs [])

  pub All-keep_if {κ} :
      (P : A → Type κ) (test : A → Bool) (xs : List A) → All P xs → All P (keep_if test xs)
  All-keep_if P test [] h = tt
  All-keep_if P test (x ∷ xs) h = elim (Bool-cases (test x)) [
    | inl e ↦ rw e (h.0, All-keep_if P test xs h.1)
    | inr e ↦ rw e (All-keep_if P test xs h.1)
  ]

  pub any-cong : (s t : A → Bool) (xs : List A) → All (λ x. s x ≡ t x) xs → any s xs ≡ any t xs
  any-cong s t [] h = refl
  any-cong s t (x ∷ xs) h = rw (h.0, any-cong s t xs h.1) refl

  pub All-each {κ} : (P : A → Type κ) (xs : List A) → ((x : A) → P x) → All P xs
  All-each P [] f = tt
  All-each P (x ∷ xs) f = (f x, All-each P xs f)

  pub any-keep_if : (p t : A → Bool) (xs : List A) → any t (keep_if p xs) ≡ any (λ x. p x && t x) xs
  any-keep_if p t [] = refl
  any-keep_if p t (x ∷ xs) = ground (arith, any-keep_if p t xs)

  pub any-nothing : (xs : List A) → any (λ x. false) xs ≡ false
  any-nothing [] = refl
  any-nothing (x ∷ xs) = any-nothing xs

  pub any-and : (b : Bool) (t : A → Bool) (xs : List A) → any (λ x. b && t x) xs ≡ (b && any t xs)
  any-and true t xs = refl
  any-and false t xs = any-nothing xs

  pub any-or : (s t : A → Bool) (xs : List A) → any (λ x. s x || t x) xs ≡ (any s xs || any t xs)
  any-or s t [] = refl
  any-or s t (x ∷ xs) = ground (arith, any-or s t xs)

-- `any` over two lists, in either order.
pub any_comm {ℓ κ} :
    {A : Type ℓ} {B : Type κ} (t : A → B → Bool) (xs : List A) (ys : List B)
    → any (λ x. any (t x) ys) xs ≡ any (λ y. any (λ x. t x y) xs) ys
any_comm t [] ys = sym (any-nothing ys)
any_comm t (x ∷ xs) ys =
    ap (λ b. any (t x) ys || b) (any_comm t xs ys)
    ∙ sym (any-or (t x) (λ y. any (λ z. t z y) xs) ys)
