-- ===== src/Storage.antt =====
-- src/ichnos/storage/base.py: the store that the scanner claims fingerprints in, as an interface.
-- `seen` is no operation of the source: it says which fingerprints have been recorded, and the laws
-- are what `VersionIndexStore.claim` documents. A claim may raise (a network error), with or without
-- having recorded the fingerprint.
pub mod Memory
pub mod Dynamo
pub mod Claims
use ichnos.Base.{Str, Bool, true, false, Raises, ok, ◌≡◌}

pub record VersionIndex : Type 1 where
  pub State : Type 0
  pub claim : Str → State → Raises Bool × State
  pub seen : Str → State → Bool
  -- `True` only for the caller that inserted it
  pub claim_true_new : (f : Str) (s : State) → (claim f s).0 ≡ ok true → seen f s ≡ false
  pub claim_true_seen :
      (f : Str) (s : State) → (claim f s).0 ≡ ok true → seen f (claim f s).1 ≡ true
  -- `False` means that some earlier call did
  pub claim_false_seen : (f : Str) (s : State) → (claim f s).0 ≡ ok false → seen f s ≡ true
  -- what is recorded stays recorded
  pub claim_keeps : (f g : Str) (s : State) → seen g s ≡ true → seen g (claim f s).1 ≡ true
