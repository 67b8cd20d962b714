-- ===== src/Responsive/Tests.antt =====
-- A concrete list of three hosts.
use ichnos.Base.{
  ℕ, Str, codes, contains, is_space, Bool, true, not, ◌&&◌, List, [], ◌∷◌, ◌++◌, map, some, take,
  drop, ◌≡◌, refl, arith, All, str_eq,
}
use ichnos.Base.Sort.{IsSorted}
use ichnos.Responsive.{
  Host, addresses, advance, by_attempt, responsive_hosts, write_responsive_file,
  read_responsive_hosts,
}
use ichnos.Responsive.File.{IsWritable, NoSpace, read-write}
use ichnos.Responsive.Cursor.{Distinct, advance-rotates}
use ichnos.Responsive.Rounds.{Round, tried, every_host_tried}
use ichnos.Responsive.Order.{IsLastTry, responsive_hosts-order}

abbrev first_host : Host
first_host = (codes "192.0.2.1", codes "2026-01-01")

abbrev other_hosts : List Host
other_hosts = (codes "192.0.2.2", []) ∷ (codes "192.0.2.3", codes "2026-01-02") ∷ []

abbrev three_hosts : List Host
three_hosts = first_host ∷ other_hosts

abbrev stamp : Str
stamp = codes "2026-01-03"

no_space : Str → Bool
no_space [] = true
no_space (c ∷ s) = not (is_space c) && no_space s

plain : (s : Str) → no_space s ≡ true → NoSpace s
unfolding no_space
plain [] h = tt
plain (c ∷ s) h = (ground arith, plain s (ground arith))

writable :
    (c : ℕ) (ip at : Str) → no_space (c ∷ ip) ≡ true → no_space at ≡ true → IsWritable (c ∷ ip, at)
writable c ip at h k = record {
  first = c;
  others = ip;
  address = refl;
  ip_plain = plain (c ∷ ip) h;
  time_plain = plain at k;
}

three-IsWritable : All IsWritable three_hosts
unfolding no_space is_space
three-IsWritable =
    (writable _ _ _ refl refl, (writable _ _ _ refl refl, (writable _ _ _ refl refl, tt)))

read-write_example : read_responsive_hosts (some (write_responsive_file three_hosts)) ≡ three_hosts
read-write_example = read-write three_hosts three-IsWritable

three-Distinct : Distinct three_hosts
unfolding contains str_eq
three-Distinct = (refl, (refl, (refl, tt)))

advance-rotates_example :
    advance (addresses (take 2 three_hosts)) stamp three_hosts
    ≡ some (drop 1 other_hosts ++ map (λ (x : Host). (x.0, stamp)) (take 2 three_hosts))
advance-rotates_example = advance-rotates 1 stamp first_host other_hosts three-Distinct

abbrev rounds : List Round
rounds = (2, stamp) ∷ (0, stamp) ∷ (1, stamp) ∷ []

plain_stamp : NoSpace stamp
unfolding no_space is_space
plain_stamp = plain stamp refl

third_listed : contains (codes "192.0.2.3") (addresses three_hosts) ≡ true
unfolding contains str_eq
third_listed = refl

every_host_tried_example :
    contains (codes "192.0.2.3") (tried rounds (some (write_responsive_file three_hosts))) ≡ true
every_host_tried_example =
    every_host_tried (codes "192.0.2.3") rounds three_hosts three-IsWritable
      (plain_stamp, (plain_stamp, (plain_stamp, tt))) (omega arith) third_listed

-- The first host failed after every success.
abbrev failures : List Host
failures = (codes "192.0.2.1", codes "2026-01-04") ∷ []

responsive_hosts-order_example :
    IsSorted by_attempt (responsive_hosts three_hosts failures)
    × All (IsLastTry three_hosts failures) (responsive_hosts three_hosts failures)
    × ((ip : Str)
        → contains ip (addresses (responsive_hosts three_hosts failures))
          ≡ contains ip (addresses three_hosts))
responsive_hosts-order_example = responsive_hosts-order three_hosts failures
