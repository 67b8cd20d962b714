-- ===== src/Base/Members.antt =====
-- Membership of texts, and what holds of each member.
use mathlib.Core.Path.{◌≡◌, refl, sym, ap, ◌∙◌, subst}
use mathlib.Core.Bool.{Bool, true, ◌&&◌}
use mathlib.Core.List.{List, [], ◌∷◌}
use mathlib.Core.Logic.{inl, inr}
use native.Mathlib.Omega.{arith}
use ichnos.Base.Tests.{Bool-cases}
use ichnos.Base.Text.{Str, ◌==◌, str_eq→eq, str_eq_refl, contains}
use ichnos.Base.Lists.{All, any}

module _ {κ} (P : Str → Type κ) where
  member : (x : Str) (xs : List Str) → All P xs → contains x xs ≡ true → P x
  unfolding contains
  member x [] h e = ground (arith, e)
  member x (y ∷ ys) h e = elim (Bool-cases (x == y)) [
    | inl same ↦ subst P (sym (str_eq→eq x y same)) h.0
    | inr apart ↦ member x ys h.1 (ground (arith, e, apart))
  ]

  each_member : (ys : List Str) → ((x : Str) → contains x ys ≡ true → P x) → All P ys
  unfolding contains
  each_member [] f = tt
  each_member (y ∷ ys) f =
      (f y (ground (arith, str_eq_refl y)), each_member ys (λ x e. f x (ground (arith, e))))

  -- What holds of the elements of a list holds of those of another with the same elements.
  pub All-members :
      (xs ys : List Str) → ((x : Str) → contains x ys ≡ contains x xs) → All P xs → All P ys
  All-members xs ys same h = each_member ys (λ x e. member x xs h (sym (same x) ∙ e))

-- Picking the one element that is equal to a text.
pub any-picked :
    (x : Str) (g : Str → Bool) (ys : List Str)
    → any (λ y. (x == y) && g y) ys ≡ (contains x ys && g x)
unfolding contains
any-picked x g [] = refl
any-picked x g (y ∷ ys) = elim (Bool-cases (x == y)) [
  | inl e ↦ ground (arith, e, any-picked x g ys, ap g (str_eq→eq x y e))
  | inr e ↦ ground (arith, e, any-picked x g ys)
]
