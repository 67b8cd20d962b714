-- ===== src/Responsive/File.antt =====
-- Writing and reading the file of known hosts (src/ichnos/responsive.py).
use ichnos.Base.{
  ℕ, Str, nat_eq, is_space, file_lines-with_newline, words_of, IsLine, false, List, [], ◌∷◌, map,
  some, ◌≡◌, refl, arith, All, All-append, All-map, words-pair, words-one,
}
use ichnos.Responsive.{
  Host, line_of, write_responsive_file, host_of, hosts_from, read_responsive_hosts,
}

abbrev pub NoSpace : Str → Type 0
NoSpace s = All (λ c. is_space c ≡ false) s

-- An address has characters, and neither field has white space.
pub record IsWritable (h : Host) : Type 0 where
  pub first : ℕ
  pub others : Str
  pub address : h.0 ≡ first ∷ others
  pub ip_plain : NoSpace h.0
  pub time_plain : NoSpace h.1

no_break : (c : ℕ) → is_space c ≡ false → (nat_eq c 10 ≡ false) × (nat_eq c 13 ≡ false)
unfolding is_space
no_break c h = ground arith

IsLine-NoSpace : (s : Str) → NoSpace s → IsLine s
IsLine-NoSpace s h = All-map _ _ s no_break h

IsLine-line : (h : Host) → IsWritable h → IsLine (line_of h)
unfolding line_of
IsLine-line h w =
    All-append _ h.0 _ (IsLine-NoSpace h.0 w.ip_plain)
      ((refl, refl), IsLine-NoSpace h.1 w.time_plain)

IsLine-lines : (hosts : List Host) → All IsWritable hosts → All IsLine (map line_of hosts)
IsLine-lines [] h = tt
IsLine-lines (x ∷ hosts) h = (IsLine-line x h.0, IsLine-lines hosts h.1)

host-line :
    (ip at : Str) (rest : List Host)
    → IsWritable (ip, at)
    → host_of (words_of (line_of (ip, at))) rest ≡ (ip, at) ∷ rest
unfolding host_of line_of
host-line ip [] rest w = rw (words-one ip w.first w.others w.address w.ip_plain)
host-line ip (t ∷ ts) rest w =
    rw (words-pair ip w.first w.others t ts w.address w.ip_plain w.time_plain)

hosts_from-lines :
    (hosts : List Host) → All IsWritable hosts → hosts_from (map line_of hosts) ≡ hosts
unfolding hosts_from
hosts_from-lines [] h = refl
hosts_from-lines ((ip, at) ∷ hosts) h = rw (hosts_from-lines hosts h.1) (host-line ip at hosts h.0)

-- Hosts whose address is not empty and whose fields have no white space, the time possibly empty, are read
-- back from the file in the order and with the times that were written.
pub read-write :
    (hosts : List Host)
    → All IsWritable hosts
    → read_responsive_hosts (some (write_responsive_file hosts)) ≡ hosts
unfolding read_responsive_hosts write_responsive_file
read-write hosts h =
    rw (file_lines-with_newline (map line_of hosts) (IsLine-lines hosts h))
      (hosts_from-lines hosts h)
