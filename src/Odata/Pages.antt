-- ===== src/Odata/Pages.antt =====
-- How many pages of the feed are read, and what of them (src/ichnos/odata.py).
use ichnos.Base.{
  ℕ, zero, suc, ◌≤◌, Str, Bool, true, false, List, [], ◌∷◌, ◌++◌, append-nil, length, Option, some,
  Raises, ok, raised, ◌>>=◌, ◌≡◌, refl, sym, ap, ◌∙◌, arith, Bool-cases, inl, inr,
}
use ichnos.Json.{Json, truthy}
use ichnos.Odata.{
  Response, get_json, Page, read_page, failed_read, next_url, behind_page, more_rows, read_pages,
  first_url, iter_rows,
}
use ichnos.Odata.Query.{grouped_query, rows_with, select_rows, grouped_max}

module _ (send : Str → Raises Response) (base_url : Str) where
  one_read :
      (url : Str) (columns : List Str) (r : Raises Page)
      → get_json (send url) >>= read_page ≡ r
      → (select_rows columns (read_pages send base_url 1 true url)
          ≡ record { urls = url ∷ []; rows = some (r >>= (λ p. rows_with columns p.rows)) })
  unfolding read_pages select_rows failed_read
  one_read url columns (raised e) h = rw (select_rows, read_pages, h) refl
  one_read url columns (ok page) h = elim (Bool-cases (truthy page.next_link)) [
    | inl t ↦ rw (select_rows, read_pages, h, t) refl
    | inr t ↦ rw (select_rows, read_pages, h, t) refl
  ]

  -- Where the query can be encoded, `grouped_max` sends one request, for that query, and comes to an end: the
  -- result is the rows of that answer that have every column, in order, or the exception of the answer,
  -- whatever link to a further page it carries.
  pub grouped_max-one_page :
      (prefix path : Str) (columns : List Str) (max_column alias where_clause : Str)
      (order_by : Option Str) (top : ℕ) (query : Str)
      → grouped_query columns max_column alias where_clause order_by top ≡ ok query
      → grouped_max send base_url prefix path columns max_column alias where_clause order_by top
        ≡ record {
          urls = first_url send base_url prefix path query ∷ [];
          rows = some (
              (get_json (send (first_url send base_url prefix path query)) >>= read_page)
              >>= (λ p. rows_with columns p.rows));
        }
  unfolding grouped_max iter_rows
  grouped_max-one_page prefix path columns max_column alias where_clause order_by top query h =
      rw (grouped_max, h)
        (one_read (first_url send base_url prefix path query) columns
          (get_json (send (first_url send base_url prefix path query)) >>= read_page) refl)

  -- One page of the feed, with the link that it ends on.
  pub record PageAt (url : Str) (rows : List Json) (more : Bool) : Type 0 where
    pub link : Json
    pub answer : (get_json (send url) >>= read_page) ≡ ok (record { rows = rows; next_link = link })
    pub linked : truthy link ≡ more

  pub record LinkTo (url : Str) (rows : List Json) (following : Str) : Type 0 where
    pub page : PageAt url rows true
    pub target : next_url send base_url page.link ≡ ok following

  -- The pages that follow one another from a URL on, with the last one of them.
  pub data IsFeed : Str → List (List Json) → Type 0 where
    last_page : (url : Str) (rows : List Json) → PageAt url rows false → IsFeed url (rows ∷ [])
    then_page :
        (url following : Str) (rows : List Json) (pages : List (List Json))
        → LinkTo url rows following
        → IsFeed following pages
        → IsFeed url (rows ∷ pages)

  unfoldable pub all_rows : List (List Json) → List Json
  all_rows [] = []
  all_rows (rows ∷ pages) = rows ++ all_rows pages

  read_more :
      (fuel : ℕ) (url following : Str) (rows rest : List Json)
      → LinkTo url rows following
      → (read_pages send base_url fuel false following).rows ≡ some (ok rest)
      → (read_pages send base_url (suc fuel) false url).rows ≡ some (ok (rows ++ rest))
  unfolding read_pages
  read_more fuel url following rows rest l h =
      rw (read_pages, l.page.answer, l.page.linked, l.target)
        (unfold behind_page more_rows in rw h refl)

  read_last :
      (fuel : ℕ) (url : Str) (rows : List Json)
      → PageAt url rows false
      → (read_pages send base_url (suc fuel) false url).rows ≡ some (ok rows)
  unfolding read_pages
  read_last fuel url rows p = rw (read_pages, p.answer, p.linked) refl

  read_pages-IsFeed :
      (fuel : ℕ) (url : Str) (pages : List (List Json))
      → IsFeed url pages
      → length pages ≤ fuel
      → (read_pages send base_url fuel false url).rows ≡ some (ok (all_rows pages))
  unfolding all_rows
  read_pages-IsFeed zero url pages (last_page u rows p) h = ground (arith, h)
  read_pages-IsFeed zero url pages (then_page u following rows more l f) h = ground (arith, h)
  read_pages-IsFeed (suc fuel) url pages (last_page u rows p) h =
      read_last fuel url rows p ∙ ap (λ rs. some (ok rs)) (sym (append-nil rows))
  read_pages-IsFeed (suc fuel) url pages (then_page u following rows more l f) h =
      read_more fuel url following rows (all_rows more) l
        (read_pages-IsFeed fuel following more f (omega (arith, h)))

  -- Without `single_page`, where the pages of the feed come to an end and none of them fails, `iter_rows`
  -- ends too, in as many rounds as there are pages, and gives the rows of all pages in their order.
  pub iter_rows-IsFeed :
      (fuel : ℕ) (prefix path query : Str) (pages : List (List Json))
      → IsFeed (first_url send base_url prefix path query) pages
      → length pages ≤ fuel
      → (iter_rows send base_url fuel false prefix path query).rows ≡ some (ok (all_rows pages))
  unfolding iter_rows
  iter_rows-IsFeed fuel prefix path query pages f h =
      read_pages-IsFeed fuel (first_url send base_url prefix path query) pages f h
