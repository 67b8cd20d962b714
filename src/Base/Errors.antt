-- ===== src/Base/Errors.antt =====
-- Python exceptions as values.

-- The exception classes that the program raises or catches; `other` is any that it does not name.
pub data Error : Type 0 where
  value_error attribute_error type_error odata_error publish_error upload_error other : Error

pub data Raises {ℓ} (A : Type ℓ) : Type ℓ where
  ok : A → Raises A
  raised : Error → Raises A

infixl 5 ◌>>=◌
abbrev pub ◌>>=◌ {ℓ κ} : {A : Type ℓ} {B : Type κ} → Raises A → (A → Raises B) → Raises B
ok a >>= f = f a
raised e >>= f = raised e
