-- ===== src/Responsive/Derivation/Answers.antt =====
-- The known hosts, from the answers of the feed (src/ichnos/responsive.py).
use ichnos.Base.{
  Str, codes, contains, ◌==◌, eq_iff, Bool, true, false, ◌&&◌, ◌||◌, List, [], ◌∷◌, any, Option,
  none, some, Raises, ok, ◌>>=◌, ◌≡◌, refl, ◌∙◌, arith, All, inl, inr, ◌⊎◌,
}
use ichnos.Base.Dict.{store}
use ichnos.Base.Sort.{IsSorted}
use ichnos.Json.{Json, null, text, obj, Fields, get}
use ichnos.Odata.{Response, get_json, Page, read_page, first_url}
use ichnos.Odata.Query.{grouped_query, rows_with}
use ichnos.Odata.Pages.{grouped_max-one_page}
use ichnos.Responsive.{Host, addresses, by_attempt, responsive_hosts}
use ichnos.Responsive.Order.{responsive_hosts-order}
use ichnos.Responsive.Derivation.{
  address_of, time_of, host_of_row, newest_from, rows_of_read, dataset_path, scoped, clause_of,
  newest_read, newest_per_ip, fetch_responsive_hosts, is_success, is_no_success,
}

-- A column holds a text or nothing.
abbrev pub is_column : Option Json → Bool
is_column none = true
is_column (some null) = true
is_column (some (text s)) = true
is_column (some _) = false

unfoldable pub is_row : Json → Bool
unfolding get
is_row (obj fs) = is_column (get (codes "ip") fs) && is_column (get (codes "last_at") fs)
is_row _ = false

-- The row is one of this address.
abbrev pub column_is : Str → Option Json → Bool
column_is ip (some (text s)) = ip == s
column_is ip _ = false

unfoldable pub has_ip : Str → Json → Bool
unfolding get
has_ip ip (obj fs) = column_is ip (get (codes "ip") fs)
has_ip ip _ = false

addresses-store :
    (ip k v : Str) (m : List Host)
    → contains ip (addresses (store k v m)) ≡ ((ip == k) || contains ip (addresses m))
unfolding store contains
addresses-store ip k v [] = refl
addresses-store ip k v ((j, w) ∷ m) =
    ground (arith, eq_iff j k, eq_iff ip j, eq_iff ip k, addresses-store ip k v m)

-- A row that has an address as a text, and a time or nothing.
record IsKept (row : Json) : Type 0 where
  ip : Str
  at : Str
  host : host_of_row row ≡ ok (ip, at)
  named : (x : Str) → has_ip x row ≡ (x == ip)

newest_from-kept :
    (found : List Host) (rows : List Json)
    → All IsKept rows
    → (hosts : List Host) × (newest_from found rows ≡ ok hosts)
      × ((x : Str)
          → contains x (addresses hosts) ≡ (contains x (addresses found) || any (has_ip x) rows))
unfolding newest_from
newest_from-kept found [] h = (found, refl, λ x. ground arith)
newest_from-kept found (row ∷ rows) h =
    let first = h.0 in
    let (hosts, e, members) = newest_from-kept (store first.ip first.at found) rows h.1 in
    (
      hosts,
      rw first.host e,
      λ x. ground (arith, members x, addresses-store x first.ip first.at found, first.named x),
    )

column_cases :
    (o : Option Json)
    → is_column o ≡ true
    → (o ≡ none) ⊎ ((o ≡ some null) ⊎ ((s : Str) × (o ≡ some (text s))))
column_cases none h = inl refl
column_cases (some null) h = inr (inl refl)
column_cases (some (text s)) h = inr (inr (s, refl))
column_cases (some v) h = ground arith

time_read : (o : Option Json) → is_column o ≡ true → (at : Str) × (time_of o ≡ ok at)
unfolding time_of
time_read none h = ([], refl)
time_read (some null) h = ([], refl)
time_read (some (text s)) h = (s, refl)
time_read (some v) h = absurd (cc)

IsKept-obj :
    (fs : Fields) (ip : Str)
    → get (codes "ip") fs ≡ some (text ip)
    → is_column (get (codes "last_at") fs) ≡ true
    → IsKept (obj fs)
IsKept-obj fs ip e h =
    let (at, read) = time_read (get (codes "last_at") fs) h in
    record {
      ip = ip;
      at = at;
      host = unfold host_of_row address_of in rw (e, read) refl;
      named = λ x. unfold has_ip in rw e refl;
    }

-- What `grouped_max` keeps of such rows: those that have an address.
WithAddress : List Json → Type 0
WithAddress rows =
    (kept : List Json) × (rows_with (codes "ip" ∷ []) rows ≡ ok kept)
    × All IsKept kept
    × ((x : Str) → any (has_ip x) kept ≡ any (has_ip x) rows)

skipped :
    (fs : Fields) (rows : List Json)
    → (get (codes "ip") fs ≡ none) ⊎ (get (codes "ip") fs ≡ some null)
    → WithAddress rows
    → WithAddress (obj fs ∷ rows)
unfolding WithAddress rows_with has_ip
skipped fs rows (inl e) (kept, r, k, same) = (kept, rw (e, r) refl, k, λ x. rw e (same x))
skipped fs rows (inr e) (kept, r, k, same) = (kept, rw (e, r) refl, k, λ x. rw e (same x))

row_columns :
    (fs : Fields)
    → is_row (obj fs) ≡ true
    → (is_column (get (codes "ip") fs) ≡ true) × (is_column (get (codes "last_at") fs) ≡ true)
unfolding is_row
row_columns fs h = ground (arith, h)

taken :
    (fs : Fields) (ip : Str) (rows : List Json)
    → get (codes "ip") fs ≡ some (text ip)
    → is_column (get (codes "last_at") fs) ≡ true
    → WithAddress rows
    → WithAddress (obj fs ∷ rows)
unfolding WithAddress rows_with
taken fs ip rows e h (kept, r, k, same) =
    (obj fs ∷ kept, rw (e, r) refl, (IsKept-obj fs ip e h, k), λ x. rw (same x) refl)

with_address : (rows : List Json) → All (λ row. is_row row ≡ true) rows → WithAddress rows
with_address [] h = unfold WithAddress rows_with in ([], refl, tt, λ x. refl)
with_address (obj fs ∷ rows) h =
    let rest = with_address rows h.1 in
    let columns = row_columns fs h.0 in
    elim (column_cases (get (codes "ip") fs) columns.0) [
      | inl e ↦ skipped fs rows (inl e) rest
      | inr (inl e) ↦ skipped fs rows (inr e) rest
      | inr (inr (ip, e)) ↦ taken fs ip rows e columns.1 rest
    ]
with_address (row ∷ rows) h = unfold is_row in absurd (cc (h.0))

module _ (send : Str → Raises Response) (base_url workspace collection : Str) where
  -- One query can be encoded, and the answer to it is a page of such rows.
  pub record Answered (scope status_clause : Str) : Type 0 where
    pub query : Str
    pub encoded :
        grouped_query
          (codes "ip" ∷ [])
          (codes "observed_at")
          (codes "last_at")
          (clause_of scope status_clause)
          (some (codes "last_at"))
          100000
        ≡ ok query
    pub page : Page
    pub answer :
        (get_json (
            send
              (first_url send base_url (codes "/api/v4") (dataset_path workspace collection) query))
          >>= read_page)
        ≡ ok page
    pub typed : All (λ row. is_row row ≡ true) page.rows

  newest_per_ip-Answered :
      (scope status_clause : Str) (a : Answered scope status_clause)
      → (hosts : List Host) × (newest_per_ip send base_url workspace collection scope status_clause
          ≡ ok hosts)
        × ((x : Str) → contains x (addresses hosts) ≡ any (has_ip x) a.page.rows)
  unfolding newest_per_ip newest_read rows_of_read contains WithAddress
  newest_per_ip-Answered scope status_clause a =
      let (kept, r, k, same) = with_address a.page.rows a.typed in
      let (hosts, e, members) = newest_from-kept [] kept k in
      (
        hosts,
        rw
            (
              grouped_max-one_page send base_url (codes "/api/v4")
                  (dataset_path workspace collection) (codes "ip" ∷ []) (codes "observed_at")
                  (codes "last_at") (clause_of scope status_clause) (some (codes "last_at")) 100000
                  a.query a.encoded,
              a.answer,
              r,
            )
            e,
        λ x. members x ∙ same x,
      )

  -- Where both queries can be encoded and are answered with pages whose rows hold in `ip` and `last_at` a text
  -- or nothing: `fetch_responsive_hosts` returns a list in the order of its stamps, and its addresses are those
  -- of the rows of the query for successes, whatever rows the other query was answered with and whatever links to
  -- further pages the answers carry.
  pub fetch_responsive_hosts-members :
      (protocol since : Str) (successes : Answered (scoped protocol since) is_success)
      (failures : Answered (scoped protocol since) is_no_success)
      → (hosts : List Host) × (fetch_responsive_hosts send base_url workspace collection protocol
            since
          ≡ ok hosts)
        × IsSorted by_attempt hosts
        × ((ip : Str) → contains ip (addresses hosts) ≡ any (has_ip ip) successes.page.rows)
  unfolding fetch_responsive_hosts
  fetch_responsive_hosts-members protocol since successes failures =
      let (last_success, e, members) = newest_per_ip-Answered _ _ successes in
      let (last_failure, f, others) = newest_per_ip-Answered _ _ failures in
      let order = responsive_hosts-order last_success last_failure in
      (
        responsive_hosts last_success last_failure,
        rw (e, f) refl,
        order.0,
        λ ip. order.2 ip ∙ members ip,
      )
