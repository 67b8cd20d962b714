-- ===== src/Fingerprint/Canonical/Tests.antt =====
-- A concrete payload, its fields in two orders.
use ichnos.Base.{codes, ◌==◌, false, ◌≡◌, refl, str_eq}
use ichnos.Json.{text, null, Fields, end, field}
use ichnos.Json.Print.Order.{SameFields, swapped}
use ichnos.Fingerprint.{canonicalize, fingerprint_id}
use ichnos.Fingerprint.Canonical.{fingerprint_id-SameFields}

abbrev one_order : Fields
one_order = field (codes "server") (text (codes "nginx")) (field (codes "etag") null end)

abbrev other_order : Fields
other_order = field (codes "etag") null (field (codes "server") (text (codes "nginx")) end)

two_keys : (codes "server" == codes "etag") ≡ false
unfolding str_eq
two_keys = refl

reordered : SameFields one_order other_order
reordered = swapped (codes "server") (codes "etag") (text (codes "nginx")) null end two_keys

fingerprint_id-SameFields_example :
    (canonicalize one_order ≡ canonicalize other_order)
    × (fingerprint_id (λ s. s) one_order ≡ fingerprint_id (λ s. s) other_order)
fingerprint_id-SameFields_example =
    fingerprint_id-SameFields (λ s. s) one_order other_order reordered
