-- ===== src/Fingerprint.antt =====
-- src/ichnos/fingerprint.py. The hash is a parameter: `sha256` takes a text to the hexadecimal digest of
-- its UTF-8 encoding. A payload is an object of JSON, so `default=str` is never asked.
pub mod Canonical
use ichnos.Base.{Str}
use ichnos.Json.{Fields, obj}
use ichnos.Json.Print.{dumps, compact_style}

unfoldable pub canonicalize : Fields → Str
canonicalize payload = dumps compact_style (obj payload)

unfoldable pub fingerprint_id : (Str → Str) → Fields → Str
unfolding canonicalize
fingerprint_id sha256 payload = sha256 (canonicalize payload)
