-- ===== src/Base/Sort.antt =====
-- Python's `sorted`: stable, by a Boolean order.
use mathlib.Core.Path.{◌≡◌}
use mathlib.Core.Bool.{Bool, true, false}
use mathlib.Core.List.{List, [], ◌∷◌, map}
use mathlib.Core.Logic.{inl, inr}
use ichnos.Base.Tests.{if◌then◌else◌, Bool-cases}
use mathlib.Core.Bool.{◌||◌}
use mathlib.Core.Path.{refl, ap}
use native.Mathlib.Omega.{arith}
use ichnos.Base.Text.{Str, ◌==◌, contains}
use ichnos.Base.Lists.{All, All-map, any}

module _ {ℓ} {A : Type ℓ} (le : A → A → Bool) where
  insert : A → List A → List A
  insert x [] = x ∷ []
  insert x (y ∷ ys) = if le x y then x ∷ (y ∷ ys) else y ∷ insert x ys

  unfoldable pub sorted : List A → List A
  unfolding insert
  sorted [] = []
  sorted (x ∷ xs) = insert x (sorted xs)

  abbrev pub IsSorted : List A → Type ℓ
  IsSorted [] = Unit
  IsSorted (x ∷ xs) = All (λ y. le x y ≡ true) xs × IsSorted xs

contains-insert :
    (le : Str → Str → Bool) (x y : Str) (ys : List Str)
    → contains x (insert le y ys) ≡ ((x == y) || contains x ys)
unfolding insert contains
contains-insert le x y [] = refl
contains-insert le x y (z ∷ ys) = ground (arith, contains-insert le x y ys)

pub contains-sorted :
    (le : Str → Str → Bool) (x : Str) (xs : List Str) → contains x (sorted le xs) ≡ contains x xs
unfolding sorted contains
contains-sorted le x [] = refl
contains-sorted le x (y ∷ ys) =
    ground (arith, contains-insert le x y (sorted le ys), contains-sorted le x ys)

module _ {ℓ κ} {A : Type ℓ} (le : A → A → Bool) (P : A → Type κ) where
  All-insert : (x : A) (xs : List A) → P x → All P xs → All P (insert le x xs)
  unfolding insert
  All-insert x [] p h = (p, tt)
  All-insert x (y ∷ ys) p h = elim (Bool-cases (le x y)) [
    | inl e ↦ rw e (p, h)
    | inr e ↦ rw e (h.0, All-insert x ys p h.1)
  ]

  pub All-sorted : (xs : List A) → All P xs → All P (sorted le xs)
  unfolding sorted
  All-sorted [] h = tt
  All-sorted (x ∷ xs) h = All-insert x (sorted le xs) h.0 (All-sorted xs h.1)

module _ {ℓ} {A : Type ℓ} (le : A → A → Bool) (test : A → Bool) where
  any-insert : (x : A) (xs : List A) → any test (insert le x xs) ≡ (test x || any test xs)
  unfolding insert
  any-insert x [] = refl
  any-insert x (y ∷ ys) = ground (arith, any-insert x ys)

  pub any-sorted : (xs : List A) → any test (sorted le xs) ≡ any test xs
  unfolding sorted
  any-sorted [] = refl
  any-sorted (x ∷ xs) = rw (any-insert x (sorted le xs), any-sorted xs) refl

contains-key-insert :
    {A : Type 0} (le : A → A → Bool) (key : A → Str) (x : Str) (y : A) (ys : List A)
    → contains x (map key (insert le y ys)) ≡ ((x == key y) || contains x (map key ys))
unfolding insert contains
contains-key-insert le key x y [] = refl
contains-key-insert le key x y (z ∷ ys) = ground (arith, contains-key-insert le key x y ys)

-- Sorting keeps the keys.
pub contains-key-sorted :
    {A : Type 0} (le : A → A → Bool) (key : A → Str) (x : Str) (xs : List A)
    → contains x (map key (sorted le xs)) ≡ contains x (map key xs)
unfolding sorted contains
contains-key-sorted le key x [] = refl
contains-key-sorted le key x (y ∷ ys) =
    rw (contains-key-insert le key x y (sorted le ys), contains-key-sorted le key x ys) refl

module _ {ℓ} {A : Type ℓ} (le : A → A → Bool) (total : (x y : A) → le x y ≡ false → le y x ≡ true)
    (trans : (x y z : A) → le x y ≡ true → le y z ≡ true → le x z ≡ true) where
  above :
      (x y : A) (ys : List A)
      → le x y ≡ true
      → All (λ z. le y z ≡ true) ys
      → All (λ z. le x z ≡ true) ys
  above x y ys e h = All-map _ _ ys (λ z k. trans x y z e k) h

  IsSorted-insert : (x : A) (ys : List A) → IsSorted le ys → IsSorted le (insert le x ys)
  unfolding insert
  IsSorted-insert x [] h = (tt, tt)
  IsSorted-insert x (y ∷ ys) h = elim (Bool-cases (le x y)) [
    | inl e ↦ rw e ((e, above x y ys e h.0), h)
    | inr e ↦
        rw e (All-insert le (λ z. le y z ≡ true) x ys (total x y e) h.0, IsSorted-insert x ys h.1)
  ]

  pub sorted-IsSorted : (xs : List A) → IsSorted le (sorted le xs)
  unfolding sorted
  sorted-IsSorted [] = tt
  sorted-IsSorted (x ∷ xs) = IsSorted-insert x (sorted le xs) (sorted-IsSorted xs)

-- Where the order is antisymmetric on two elements, it does not matter which is inserted first.
module _ {A : Type 0} (le : A → A → Bool) (total : (x y : A) → le x y ≡ false → le y x ≡ true)
    (trans : (x y z : A) → le x y ≡ true → le y z ≡ true → le x z ≡ true) where
  insert_comm :
      (x y : A) (l : List A)
      → (le x y ≡ true → le y x ≡ true → ⊥)
      → insert le x (insert le y l) ≡ insert le y (insert le x l)
  unfolding insert
  insert_comm x y [] strict = ground (arith, strict, total x y, total y x)
  insert_comm x y (z ∷ l) strict = ground (
    arith,
    strict,
    total x y,
    total y x,
    total x z,
    total z x,
    total y z,
    total z y,
    trans x z y,
    trans y z x,
    trans x y z,
    trans y x z,
    insert_comm x y l strict,
  )

  pub sorted-cons :
      (x : A) (l m : List A) → sorted le l ≡ sorted le m → sorted le (x ∷ l) ≡ sorted le (x ∷ m)
  unfolding sorted
  sorted-cons x l m e = ap (λ t. insert le x t) e

  pub sorted-swap :
      (x y : A) (l : List A)
      → (le x y ≡ true → le y x ≡ true → ⊥)
      → sorted le (x ∷ y ∷ l) ≡ sorted le (y ∷ x ∷ l)
  unfolding sorted
  sorted-swap x y l strict = insert_comm x y (sorted le l) strict
