-- ===== src/Responsive/Derivation.antt =====
-- `fetch_responsive_hosts` of src/ichnos/responsive.py: the two queries and what they come to.
-- The `observed_at ge` boundary, a text that `window_start` makes of the clock, is the parameter `since`. The
-- columns `ip` and `last_at` hold a text or nothing, as the dataset's schema says; any other value is outside
-- the model, which raises there.
pub mod Answers
mod Tests
use ichnos.Base.{
  Str, codes, contains, ◌==◌, Bool, true, false, ◌&&◌, ◌||◌, List, [], ◌∷◌, ◌++◌, any, Option, none,
  some, if◌then◌else◌, Raises, ok, raised, type_error, attribute_error, odata_error, ◌>>=◌, ◌≡◌,
  refl,
}
use ichnos.Base.Dict.{store}
use ichnos.Json.{Json, null, text, obj, Fields, get, truthy}
use ichnos.Odata.{Response, Read}
use ichnos.Odata.Query.{grouped_max}
use ichnos.Responsive.{Host, responsive_hosts}

-- `SUCCESS_STATUS`
abbrev pub success_status : Str
success_status = codes "success"

-- The clauses of the two queries.
abbrev pub is_success : Str
is_success = codes "response_status eq '" ++ (success_status ++ codes "'")

abbrev pub is_no_success : Str
is_no_success = codes "response_status ne '" ++ (success_status ++ codes "'")

-- `r["ip"]`
address_of : Option Json → Raises Str
address_of (some (text ip)) = ok ip
address_of _ = raised type_error

-- `r.get("last_at") or ""`
time_of : Option Json → Raises Str
time_of none = ok []
time_of (some null) = ok []
time_of (some (text at)) = ok at
time_of (some _) = raised type_error

host_of_row : Json → Raises Host
unfolding get address_of time_of
host_of_row (obj fs) = do
  ip ← address_of (get (codes "ip") fs)
  at ← time_of (get (codes "last_at") fs)
  ok (ip, at)
host_of_row _ = raised attribute_error

-- The dictionary of the rows, on top of what is in it.
newest_from : List Host → List Json → Raises (List Host)
unfolding host_of_row store
newest_from found [] = ok found
newest_from found (row ∷ rows) = host_of_row row >>= (λ h. newest_from (store h.0 h.1 found) rows)

-- A read of a single page always comes to its end.
rows_of_read : Option (Raises (List Json)) → Raises (List Json)
rows_of_read none = raised odata_error
rows_of_read (some rows) = rows

abbrev pub clause_of : Str → Str → Str
clause_of scope status_clause = scope ++ (codes " and " ++ status_clause)

-- `protocol eq '...' and observed_at ge ...`
unfoldable pub scoped : Str → Str → Str
scoped protocol since =
    codes "protocol eq '" ++ (protocol ++ (codes "' and observed_at ge " ++ since))

-- `{workspace}/{collection}/{OBSERVATIONS_DATASET}`
unfoldable pub dataset_path : Str → Str → Str
dataset_path workspace collection = workspace ++ (47 ∷ (collection ++ codes "/observations"))

module _ (send : Str → Raises Response) (base_url workspace collection : Str) where
  -- The read that `newest_per_ip` makes, of one page at most.
  newest_read : Str → Str → Read
  unfolding dataset_path grouped_max
  newest_read scope status_clause =
      grouped_max send base_url (codes "/api/v4") (dataset_path workspace collection)
        (codes "ip" ∷ []) (codes "observed_at") (codes "last_at") (clause_of scope status_clause)
        (some (codes "last_at")) 100000

  newest_per_ip : Str → Str → Raises (List Host)
  unfolding newest_read newest_from rows_of_read
  newest_per_ip scope status_clause =
      rows_of_read (newest_read scope status_clause).rows >>= newest_from []

  unfoldable pub fetch_responsive_hosts : Str → Str → Raises (List Host)
  unfolding newest_per_ip scoped responsive_hosts
  fetch_responsive_hosts protocol since = do
    last_success ← newest_per_ip (scoped protocol since) is_success
    last_failure ← newest_per_ip (scoped protocol since) is_no_success
    ok (responsive_hosts last_success last_failure)
