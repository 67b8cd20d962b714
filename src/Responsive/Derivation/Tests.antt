-- ===== src/Responsive/Derivation/Tests.antt =====
-- One host that answered and one that failed.
use ichnos.Base.{
  Str, codes, contains, str_eq, ◌==◌, List, [], ◌∷◌, ◌++◌, any, if◌then◌else◌, Raises, ok, ◌≡◌,
  refl,
}
use ichnos.Base.Sort.{IsSorted}
use ichnos.Json.{Json, null, text, arr, obj, nil, cons, end, field}
use ichnos.Odata.{Response, get_json, read_page, first_url}
use ichnos.Odata.Query.{grouped_expression, grouped_query}
use ichnos.Responsive.{Host, addresses, by_attempt}
use ichnos.Responsive.Derivation.{
  scoped, dataset_path, is_success, is_no_success, fetch_responsive_hosts,
}
use ichnos.Responsive.Derivation.Answers.{is_row, has_ip, Answered, fetch_responsive_hosts-members}

abbrev row_of : Str → Str → Json
row_of ip at = obj (field (codes "ip") (text ip) (field (codes "last_at") (text at) end))

abbrev answer_of : Json → Json
answer_of row = obj (field (codes "value") (arr (cons row nil)) end)

abbrev success_row : Json
success_row = row_of (codes "192.0.2.1") (codes "2026-01-02")

abbrev failure_row : Json
failure_row = row_of (codes "192.0.2.2") (codes "2026-01-03")

abbrev success_query : Str
success_query =
    codes
      "$apply=filter(protocol%20eq%20%27ssh%27%20and%20observed_at%20ge%202026-01-01T00%3A00%3A00Z%20and%20response_status%20eq%20%27success%27)/groupby((ip),aggregate(observed_at%20with%20max%20as%20last_at))&$orderby=last_at&$top=100000"

abbrev failure_query : Str
failure_query =
    codes
      "$apply=filter(protocol%20eq%20%27ssh%27%20and%20observed_at%20ge%202026-01-01T00%3A00%3A00Z%20and%20response_status%20ne%20%27success%27)/groupby((ip),aggregate(observed_at%20with%20max%20as%20last_at))&$orderby=last_at&$top=100000"

abbrev since : Str
since = codes "2026-01-01T00:00:00Z"

send : Str → Raises Response
unfolding str_eq
send url = ok (record {
  status_code = 200;
  json = ok (
      answer_of (
        if url == codes "h/api/v4/w/c/observations?" ++ success_query
        then success_row
        else failure_row));
})

successes :
    Answered send (codes "h") (codes "w") (codes "c") (scoped (codes "ssh") since) is_success
unfolding grouped_query grouped_expression scoped dataset_path send get_json read_page first_url
    is_row str_eq
successes = record {
  query = success_query;
  encoded = refl;
  page = record { rows = success_row ∷ []; next_link = null };
  answer = refl;
  typed = (refl, tt);
}

failures :
    Answered send (codes "h") (codes "w") (codes "c") (scoped (codes "ssh") since) is_no_success
unfolding grouped_query grouped_expression scoped dataset_path send get_json read_page first_url
    is_row str_eq
failures = record {
  query = failure_query;
  encoded = refl;
  page = record { rows = failure_row ∷ []; next_link = null };
  answer = refl;
  typed = (refl, tt);
}

fetch_responsive_hosts-members_example :
    (hosts : List Host) × (fetch_responsive_hosts send
        (codes "h")
        (codes "w")
        (codes "c")
        (codes "ssh")
        since
      ≡ ok hosts)
    × IsSorted by_attempt hosts
    × ((ip : Str) → contains ip (addresses hosts) ≡ any (has_ip ip) (success_row ∷ []))
unfolding successes
fetch_responsive_hosts-members_example =
    fetch_responsive_hosts-members send (codes "h") (codes "w") (codes "c") (codes "ssh") since
      successes failures
