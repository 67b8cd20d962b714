-- ===== src/Base/Decimal.antt =====
-- The decimal text of an `int`, `str(n)`.
use Prim.Native.Nat.{ℕ, zero, suc, ◌+◌, ◌/◌, ◌%◌}
use mathlib.Core.Path.{◌≡◌, refl}
use mathlib.Core.List.{[], ◌∷◌}
use mathlib.Core.Bool.{Bool, true, ◌&&◌}
use mathlib.Core.Logic.{inl, inr}
use native.Mathlib.Omega.{arith}
use ichnos.Base.Tests.{ltb, leb, if◌then◌else◌, Bool-cases}
use ichnos.Base.Lists.{All}
use ichnos.Base.Text.{Str, codes}

unfoldable pub digit : ℕ → ℕ
digit n = 48 + n % 10

-- The decimal digits of `n`, before `acc`; more rounds than `n` has digits are enough.
decimal_loop : ℕ → ℕ → Str → Str
unfolding digit
decimal_loop zero n acc = acc
decimal_loop (suc fuel) n acc =
    let rest = decimal_loop fuel (n / 10) (digit n ∷ acc) in
    if ltb n 10 then digit n ∷ acc else rest

-- `str(n)`
unfoldable pub decimal : ℕ → Str
unfolding decimal_loop
decimal n = decimal_loop (n + 1) n []

decimal_example : decimal 6007 ≡ codes "6007"
unfolding decimal
decimal_example = refl

abbrev pub is_decimal_digit : ℕ → Bool
is_decimal_digit c = leb 48 c && leb c 57

decimal_loop-digits :
    (fuel n : ℕ) (acc : Str)
    → All (λ c. is_decimal_digit c ≡ true) acc
    → All (λ c. is_decimal_digit c ≡ true) (decimal_loop fuel n acc)
unfolding decimal_loop digit
decimal_loop-digits zero n acc h = h
decimal_loop-digits (suc fuel) n acc h = elim (Bool-cases (ltb n 10)) [
  | inl e ↦ rw e (ground arith, h)
  | inr e ↦ rw e (decimal_loop-digits fuel (n / 10) (digit n ∷ acc) (ground arith, h))
]

pub decimal-digits : (n : ℕ) → All (λ c. is_decimal_digit c ≡ true) (decimal n)
unfolding decimal
decimal-digits n = decimal_loop-digits (n + 1) n [] tt
