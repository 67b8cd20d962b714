-- ===== src/Responsive.antt =====
-- src/ichnos/responsive.py: the list of known-responsive hosts, as the file that `refresh` walks.
-- A host is its address and the text of the time at which it was last tried.
pub mod File
pub mod Cursor
pub mod Places
pub mod Rounds
pub mod Order
pub mod Derivation
mod Tests
use ichnos.Base.{
  Str, codes, ◌==◌, contains, str_le, nonempty, file_lines, words_of, with_newline, Bool, true,
  false, not, List, [], ◌∷◌, ◌++◌, map, ℕ, Option, none, some, if◌then◌else◌, keep_if, take, Raises,
  ok, raised, odata_error, ◌>>=◌, Error,
}
use ichnos.Base.Dict.{lookup, store}
use ichnos.Base.Sort.{sorted}

abbrev pub Host : Type 0
Host = Str × Str

abbrev pub addresses : List Host → List Str
addresses hosts = map (λ (h : Host). h.0) hosts

line_of : Host → Str
line_of h = h.0 ++ (32 ∷ h.1)

-- `write_responsive_file`: the contents that replace the file.
unfoldable pub write_responsive_file : List Host → Str
unfolding line_of
write_responsive_file hosts = with_newline (map line_of hosts)

-- The pair of one line; a line of an older file may carry only an address.
host_of : List Str → List Host → List Host
host_of [] rest = rest
host_of (ip ∷ []) rest = (ip, []) ∷ rest
host_of (ip ∷ seen ∷ more) rest = (ip, seen) ∷ rest

unfoldable pub hosts_from : List Str → List Host
unfolding host_of
hosts_from [] = []
hosts_from (l ∷ ls) = host_of (words_of l) (hosts_from ls)

-- `read_responsive_hosts`, given the contents of the file, if there is one.
unfoldable pub read_responsive_hosts : Option Str → List Host
unfolding hosts_from
read_responsive_hosts none = []
read_responsive_hosts (some contents) = hosts_from (file_lines contents)

-- `read_responsive_file`
unfoldable pub read_responsive_file : Option Str → List Str
unfolding read_responsive_hosts
read_responsive_file file = addresses (read_responsive_hosts file)

abbrev some_hosts : List Host → Bool
some_hosts [] = false
some_hosts (h ∷ hs) = true

-- The hosts of `advance_responsive_cursor`: those not yet processed keep their order, the processed go
-- behind them under the new stamp; `none` if nothing is to be rewritten.
unfoldable pub advance : List Str → Str → List Host → Option (List Host)
advance done stamp hosts =
    let remaining = keep_if (λ h. not (contains h.0 done)) hosts in
    let rotated = map (λ (h : Host). (h.0, stamp)) (keep_if (λ h. contains h.0 done) hosts) in
    if some_hosts rotated then some (remaining ++ rotated) else none

-- `advance_responsive_cursor`: the new contents, `none` where it returns False and writes nothing.
unfoldable pub advance_responsive_cursor : Option Str → List Str → Str → Option Str
advance_responsive_cursor file [] stamp = none
advance_responsive_cursor file (ip ∷ ips) stamp =
    elim (advance (ip ∷ ips) stamp (read_responsive_hosts file)) [
      | none ↦ none
      | some hosts ↦ some (write_responsive_file hosts)
    ]

-- The file after `cmd_refresh` has walked `covered` hosts from its top.
unfoldable pub rotate_checked : ℕ → Str → Option Str → Option Str
rotate_checked covered stamp file =
    elim (advance_responsive_cursor file (take covered (addresses (read_responsive_hosts file)))
      stamp) [ none ↦ file | some contents ↦ some contents ]

-- `max(a, b)` of texts: the first of two that are equal.
unfoldable pub later_of : Str → Str → Str
later_of a b = if str_le b a then a else b

abbrev pub attempt_of : List Host → Host → Host
attempt_of failures h = (h.0, later_of h.1 (elim (lookup h.0 failures) [ none ↦ [] | some t ↦ t ]))

abbrev pub by_attempt : Host → Host → Bool
by_attempt a b = str_le a.1 b.1

-- What `fetch_responsive_hosts` makes of the newest success and the newest failure of each address.
unfoldable pub responsive_hosts : List Host → List Host → List Host
responsive_hosts last_success last_failure =
    sorted by_attempt (map (attempt_of last_failure) last_success)

-- `refresh_protocol`: its result and the contents of the file. Only `ODataError` is caught.
unfoldable pub refresh_protocol : Raises (List Host) → Option Str → Raises Bool × Option Str
unfolding write_responsive_file
refresh_protocol (ok hosts) file = (ok true, some (write_responsive_file hosts))
refresh_protocol (raised odata_error) file = (ok false, file)
refresh_protocol (raised e) file = (raised e, file)
