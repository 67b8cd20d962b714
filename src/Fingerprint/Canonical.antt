-- ===== src/Fingerprint/Canonical.antt =====
-- `canonicalize` and the order of a payload's fields (src/ichnos/fingerprint.py).
mod Tests
use ichnos.Base.{Str, ◌≡◌, refl, ap}
use ichnos.Json.{Fields, obj}
use ichnos.Json.Print.{compact_style}
use ichnos.Json.Print.Order.{SameFields, same_obj, dumps-Same}
use ichnos.Fingerprint.{canonicalize, fingerprint_id}

-- Payloads that differ only in the order of their fields, at any depth, have the same canonical text and,
-- under any hash, the same fingerprint.
pub fingerprint_id-SameFields :
    (sha256 : Str → Str) (payload other : Fields)
    → SameFields payload other
    → (canonicalize payload ≡ canonicalize other)
      × (fingerprint_id sha256 payload ≡ fingerprint_id sha256 other)
unfolding canonicalize fingerprint_id
fingerprint_id-SameFields sha256 payload other h =
    let e = dumps-Same compact_style refl (obj payload) (obj other) (same_obj payload other h) in
    (e, ap sha256 e)
