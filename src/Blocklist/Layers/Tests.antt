-- ===== src/Blocklist/Layers/Tests.antt =====
-- Concrete layers: the built-in ranges, two opt-outs, a jurisdiction's networks and an entry that is none.
use ichnos.Base.{
  Str, str_eq, ◌==◌, if◌then◌else◌, codes, strip, List, [], ◌∷◌, ◌++◌, any, some, ok, raised,
  type_error, ◌>>=◌, ◌≡◌, refl, Option, none, ℕ,
}
use ichnos.Base.Decimal.{decimal}
use ichnos.Blocklist.{v4, ip_address, is_blocked}
use ichnos.Blocklist.Layers.{networks, build_blocklist, default_bogons}
use ichnos.Blocklist.Layers.Listed.{listed, build_blocklist-listed, build_blocklist-mixed}

abbrev exclusions : List Str
exclusions = codes "# a comment" ∷ codes "198.51.99.7" ∷ codes "203.0.112.0/255.255.255.0" ∷ []

abbrev jurisdiction : List Str
jurisdiction = codes "1.0.16.0/20" ∷ codes "1.0.0.0/20" ∷ []

-- An IPv6 parser that reads one text, the loopback address.
loopback : Str → Option ℕ
unfolding str_eq
loopback s = if s == codes "::1" then some 1 else none

build_blocklist-listed_example :
    (build_blocklist loopback decimal exclusions jurisdiction default_bogons
      >>= is_blocked loopback (codes "1.0.17.9"))
    ≡ ok (any (listed loopback (v4 16781577)) (default_bogons ++ (exclusions ++ jurisdiction)))
unfolding networks loopback ip_address strip
build_blocklist-listed_example =
    build_blocklist-listed loopback decimal exclusions jurisdiction default_bogons refl
      (codes "1.0.17.9") (v4 16781577) refl

build_blocklist-mixed_example :
    build_blocklist loopback decimal (codes "::1/128" ∷ []) jurisdiction default_bogons
    ≡ raised type_error
unfolding networks loopback strip
build_blocklist-mixed_example =
    build_blocklist-mixed loopback decimal (codes "::1/128" ∷ []) jurisdiction default_bogons refl
      refl
