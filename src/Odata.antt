-- ===== src/Odata.antt =====
-- src/ichnos/odata.py: reading the published data. An HTTP request is the parameter `send`, a function of
-- the URL; its answer has a status and what `response.json()` does.
pub mod Query
pub mod Pages
mod Tests
use ichnos.Base.{
  ℕ, zero, suc, ◌+◌, ◌-◌, ◌/◌, ◌%◌, Str, codes, nonempty, ltb, leb, nat_eq, Bool, true, false, not,
  ◌&&◌, ◌||◌, List, [], ◌∷◌, ◌++◌, map, any, Option, none, some, if◌then◌else◌, Raises, ok, raised,
  Error, value_error, attribute_error, type_error, odata_error, ◌>>=◌, ◌≡◌, refl,
}
use ichnos.Base.Decimal.{decimal}
use ichnos.Json.{Json, null, text, arr, obj, Items, nil, cons, Fields, end, field, get, truthy}

pub record Response : Type 0 where
  pub status_code : ℕ
  pub json : Raises Json

-- `fetch_access_token`, by how `post` ends.
token_of : Json → Raises Json
unfolding truthy get
token_of (obj fs) = elim (get (codes "access_token") fs) [
  | none ↦ raised odata_error
  | some t ↦ if truthy t then ok t else raised odata_error
]
token_of _ = raised attribute_error

unfoldable pub fetch_access_token : Raises Response → Raises Json
unfolding token_of
fetch_access_token (raised e) = raised odata_error
fetch_access_token (ok r) =
    if nat_eq r.status_code 200 then r.json >>= token_of else raised odata_error

-- `_get_json`, by how `get` ends.
unfoldable pub get_json : Raises Response → Raises Json
get_json (raised e) = raised odata_error
get_json (ok r) = if nat_eq r.status_code 200 then r.json else raised odata_error

pub record Page : Type 0 where
  pub rows : List Json
  pub next_link : Json

unfoldable pub items_of : Items → List Json
items_of nil = []
items_of (cons v vs) = v ∷ items_of vs

keys_of : Fields → List Json
keys_of end = []
keys_of (field k v fs) = text k ∷ keys_of fs

-- `for row in value`
iterate : Json → Raises (List Json)
unfolding items_of keys_of
iterate (arr vs) = ok (items_of vs)
iterate (obj fs) = ok (keys_of fs)
iterate (text s) = ok (map (λ c. text (c ∷ [])) s)
iterate _ = raised type_error

or_null : Option Json → Json
or_null none = null
or_null (some v) = v

unfoldable pub read_page : Json → Raises Page
unfolding iterate or_null get
read_page (obj fs) =
    elim (get (codes "value") fs) [ none ↦ ok [] | some v ↦ iterate v ] >>= (λ rows.
      ok (record { rows = rows; next_link = or_null (get (codes "@odata.nextLink") fs) }))
read_page _ = raised attribute_error

-- `s.startswith(start)`
starts_with : Str → Str → Bool
starts_with [] s = true
starts_with (p ∷ ps) [] = false
starts_with (p ∷ ps) (c ∷ s) = nat_eq p c && starts_with ps s

-- What a read comes to: the URLs that were requested, and the rows; `none` while it is not at its end.
pub record Read : Type 0 where
  pub urls : List Str
  pub rows : Option (Raises (List Json))

unfoldable pub failed_read : List Str → Error → Read
failed_read urls e = record { urls = urls; rows = some (raised e) }

more_rows : List Json → Raises (List Json) → Raises (List Json)
more_rows rows more = more >>= (λ rs. ok (rows ++ rs))

-- A page in front of what follows.
behind_page : Str → List Json → Read → Read
unfolding more_rows
behind_page url rows r = record {
  urls = url ∷ r.urls;
  rows = elim r.rows [ none ↦ none | some more ↦ some (more_rows rows more) ];
}

module _ (send : Str → Raises Response) (base_url : Str) where
  -- A relative link is put behind the base.
  pub next_url : Json → Raises Str
  unfolding starts_with
  next_url (text t) = ok (if starts_with (codes "http") t then t else base_url ++ t)
  next_url _ = raised attribute_error

  -- The loop of `iter_rows`, on fuel: the number of pages.
  unfoldable pub read_pages : ℕ → Bool → Str → Read
  unfolding get_json read_page truthy next_url failed_read behind_page
  read_pages zero single_page url = record { urls = []; rows = none }
  read_pages (suc fuel) single_page url = elim (get_json (send url) >>= read_page) [
    | raised e ↦ failed_read (url ∷ []) e
    | ok page ↦
        if not (truthy page.next_link) || single_page
        then record { urls = url ∷ []; rows = some (ok page.rows) }
        else elim (next_url page.next_link) [
          | raised e ↦ failed_read (url ∷ []) e
          | ok u ↦ behind_page url page.rows (read_pages fuel single_page u)
        ]
  ]

  unfoldable pub first_url : Str → Str → Str → Str
  first_url prefix path query = base_url ++ (prefix ++ (47 ∷ (path ++ (63 ∷ query))))

  -- `iter_rows`
  unfoldable pub iter_rows : ℕ → Bool → Str → Str → Str → Read
  unfolding read_pages first_url
  iter_rows fuel single_page prefix path query =
      read_pages fuel single_page (first_url prefix path query)
