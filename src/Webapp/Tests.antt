-- ===== src/Webapp/Tests.antt =====
-- A form that is filled in right, for one address with a space behind it.
use ichnos.Base.{codes, split, strip, str_eq, true, [], map, any, none, some, ok, ◌≡◌, refl}
use ichnos.Base.Decimal.{decimal}
use ichnos.Models.{Exclusion}
use ichnos.Storage.Memory.{list_all}
use ichnos.Blocklist.{v4, parse_v4}
use ichnos.Blocklist.Layers.Listed.{listed}
use ichnos.Jurisdiction.{plus}
use ichnos.Webapp.{Form, Service, opt_out_submit, client_ip}
use ichnos.Webapp.Honoured.{opt_out_honoured}

abbrev service : Service
service = record {
  parse_v6 = λ s. none;
  other_digit = λ c. none;
  digest = λ secret message. message;
  form_secret = codes "secret";
  trust_proxy_headers = true;
  now = record {
    year = 2026;
    month = 5;
    day = 6;
    hour = 7;
    minute = 8;
    second = 9;
    microsecond = 0;
  };
}

abbrev form : Form
form = record {
  ip_or_cidr = codes "198.51.99.7 ";
  reason = codes "please";
  answer = codes " 7";
  a = plus 3;
  b = plus 4;
  token = codes "3:4";
  forwarded = some (codes "192.0.2.8, 10.0.0.1");
  host = none;
}

submitted : (opt_out_submit service form []).0 ≡ ok 200
unfolding opt_out_submit decimal str_eq
submitted = refl

opt_out_honoured_example :
    any
      (listed service.parse_v6 (v4 3325256455))
      (map (λ (e : Exclusion). e.ip_or_cidr) (list_all (opt_out_submit service form []).1))
    ≡ true
unfolding split strip parse_v4
opt_out_honoured_example = opt_out_honoured service form [] 3325256455 submitted refl refl

client_ip_example :
    client_ip true (some (codes "192.0.2.8, 10.0.0.1")) (some (codes "10.0.0.1"))
    ≡ some (codes "192.0.2.8")
unfolding client_ip
client_ip_example = refl
