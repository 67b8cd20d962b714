-- ===== src/Webapp.antt =====
-- src/ichnos/webapp/app.py: the opt-out form's handler. `digest` is the hex HMAC-SHA256 of a message under a
-- secret, `now` the clock, `other_digit` the value of a digit outside ASCII. The pages are not modelled: an
-- answer is its status code.
pub mod Honoured
mod Tests
use ichnos.Base.{
  ℕ, suc, ◌+◌, ◌-◌, Str, codes, strip, nonempty, split, split_all, ◌==◌, ltb, leb, nat_eq, Bool,
  true, false, not, ◌&&◌, ◌||◌, List, [], ◌∷◌, ◌++◌, Option, none, some, if◌then◌else◌, Raises, ok,
  raised, type_error, ◌≡◌, refl,
}
use ichnos.Base.Decimal.{decimal}
use ichnos.Models.{Datetime, Exclusion, self_serve}
use ichnos.Storage.Memory.{Exclusions, add}
use ichnos.Blocklist.{ip_address, ip_network}
use ichnos.Jurisdiction.{Count, plus, minus, parse_count}

-- An `int`: `minus 0` is `plus 0`.
same_int : Count → Count → Bool
same_int (plus m) (plus n) = nat_eq m n
same_int (minus m) (minus n) = nat_eq m n
same_int (plus m) (minus n) = nat_eq m 0 && nat_eq n 0
same_int (minus m) (plus n) = nat_eq m 0 && nat_eq n 0

add_int : Count → Count → Count
add_int (plus m) (plus n) = plus (m + n)
add_int (minus m) (minus n) = minus (m + n)
add_int (plus m) (minus n) = if ltb m n then minus (n - m) else plus (m - n)
add_int (minus m) (plus n) = if ltb n m then minus (m - n) else plus (n - m)

int_text : Count → Str
int_text (plus n) = decimal n
int_text (minus n) = if nat_eq n 0 then decimal 0 else 45 ∷ decimal n

is_ascii : Str → Bool
is_ascii [] = true
is_ascii (c ∷ s) = ltb c 128 && is_ascii s

first_part : List Str → Str
first_part [] = []
first_part (s ∷ ss) = s

-- `_client_ip`, by the `x-forwarded-for` header and the host of the connection, if they are there.
unfoldable pub client_ip : Bool → Option Str → Option Str → Option Str
unfolding first_part split_all strip
client_ip false forwarded host = host
client_ip true none host = host
client_ip true (some forwarded) host =
    if nonempty forwarded then some (strip (first_part (split_all 44 forwarded))) else host

-- The fields of the form, and what the request says of the client.
pub record Form : Type 0 where
  pub ip_or_cidr : Str
  pub reason : Str
  pub answer : Str
  pub a : Count
  pub b : Count
  pub token : Str
  pub forwarded : Option Str
  pub host : Option Str

pub record Service : Type 0 where
  pub parse_v6 : Str → Option ℕ
  pub other_digit : ℕ → Option ℕ
  pub digest : Str → Str → Str
  pub form_secret : Str
  pub trust_proxy_headers : Bool
  pub now : Datetime

module _ (service : Service) where
  -- `_verify_challenge`: `compare_digest` refuses a text outside ASCII.
  unfoldable pub verify_challenge : Count → Count → Str → Count → Raises Bool
  unfolding is_ascii same_int add_int int_text
  verify_challenge a b token answer =
      let expected = service.digest service.form_secret (int_text a ++ (58 ∷ int_text b)) in
      if is_ascii token && is_ascii expected
      then ok ((token == expected) && same_int answer (add_int a b))
      else raised type_error

  -- `_valid_ip_or_cidr`
  unfoldable pub valid_ip_or_cidr : Str → Bool
  unfolding split ip_network ip_address
  valid_ip_or_cidr value = elim (split 47 value) [
    | some _ ↦ elim (ip_network service.parse_v6 value) [ none ↦ false | some n ↦ true ]
    | none ↦ elim (ip_address service.parse_v6 value) [ none ↦ false | some x ↦ true ]
  ]

  or_none : Str → Option Str
  or_none [] = none
  or_none (c ∷ s) = some (c ∷ s)

  exclusion_of : Form → Exclusion
  unfolding strip or_none client_ip
  exclusion_of form = record {
    ip_or_cidr = strip form.ip_or_cidr;
    source = self_serve;
    requested_at = service.now;
    reason = or_none (strip form.reason);
    requester_ip = client_ip service.trust_proxy_headers form.forwarded form.host;
  }

  answered : Form → Raises Bool → Exclusions → Raises ℕ × Exclusions
  unfolding valid_ip_or_cidr exclusion_of strip
  answered form (raised e) rows = (raised e, rows)
  answered form (ok false) rows = (ok 400, rows)
  answered form (ok true) rows =
      if valid_ip_or_cidr (strip form.ip_or_cidr)
      then (ok 200, add (exclusion_of form) rows)
      else (ok 400, rows)

  answer_of : Form → Count
  unfolding parse_count
  answer_of form = elim (parse_count service.other_digit form.answer) [
    | none ↦ minus 1
    | some n ↦ n
  ]

  -- `opt_out_submit`
  unfoldable pub opt_out_submit : Form → Exclusions → Raises ℕ × Exclusions
  unfolding answered verify_challenge answer_of
  opt_out_submit form rows =
      answered form (verify_challenge form.a form.b form.token (answer_of form)) rows
