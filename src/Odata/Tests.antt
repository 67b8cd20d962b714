-- ===== src/Odata/Tests.antt =====
-- A feed of two pages, and a filter that holds a quote, an ampersand and a letter outside ASCII.
use ichnos.Base.{
  Str, codes, str_eq, ◌==◌, false, List, [], ◌∷◌, ◌++◌, some, if◌then◌else◌, Raises, ok, ◌>>=◌, ◌≡◌,
  refl, arith,
}
use ichnos.Base.Decimal.{decimal}
use ichnos.Json.{Json, null, text, arr, obj, nil, cons, end, field, truthy}
use ichnos.Odata.{Response, get_json, read_page, next_url, first_url, iter_rows}
use ichnos.Odata.Query.{grouped_expression, grouped_query, rows_with, grouped_max}
use ichnos.Odata.Query.Quoted.{utf8_bytes}
use ichnos.Odata.Query.Options.{options, is_unicode, ordering_option, grouped_query-options}
use ichnos.Odata.Pages.{
  IsFeed, last_page, then_page, all_rows, grouped_max-one_page, iter_rows-IsFeed,
}

abbrev host_row : Str → Json
host_row ip = obj (field (codes "ip") (text ip) end)

abbrev second_page : Json
second_page = obj (field (codes "value") (arr (cons (host_row (codes "192.0.2.2")) nil)) end)

abbrev first_page : Json
first_page = obj (
    field (codes "value")
      (arr (cons (host_row (codes "192.0.2.1")) (cons (obj (field (codes "ip") null end)) nil)))
      (field (codes "@odata.nextLink") (text (codes "/2")) end))

send : Str → Raises Response
unfolding str_eq
send url = ok (record {
  status_code = 200;
  json = ok (if url == codes "h/2" then second_page else first_page);
})

-- The query of a filter on the status.
abbrev query : Str
query =
    codes
      "$apply=filter(s%20eq%20%27a%26b%C3%A9%27)/groupby((ip),aggregate(t%20with%20max%20as%20l))&$orderby=l&$top=10"

grouped_max-one_page_example :
    grouped_max send
      (codes "h")
      (codes "/api")
      (codes "w/c/d")
      (codes "ip" ∷ [])
      (codes "t")
      (codes "l")
      (codes "s eq 'a&bé'")
      (some (codes "l"))
      10
    ≡ record {
      urls = first_url send (codes "h") (codes "/api") (codes "w/c/d") query ∷ [];
      rows = some (
          (get_json (send (first_url send (codes "h") (codes "/api") (codes "w/c/d") query))
            >>= read_page)
          >>= (λ p. rows_with (codes "ip" ∷ []) p.rows));
    }
unfolding grouped_query
grouped_max-one_page_example =
    grouped_max-one_page send (codes "h") (codes "/api") (codes "w/c/d") (codes "ip" ∷ [])
      (codes "t") (codes "l") (codes "s eq 'a&bé'") (some (codes "l")) 10 query refl

grouped_query-options_example :
    options query
    ≡ (
      codes "$apply",
      utf8_bytes
          (grouped_expression (codes "ip" ∷ []) (codes "t") (codes "l") (codes "s eq 'a&bé'")),
    )
      ∷ (ordering_option (some (codes "l")) ++ ((codes "$top", decimal 10) ∷ []))
unfolding grouped_query grouped_expression is_unicode
grouped_query-options_example =
    grouped_query-options (codes "ip" ∷ []) (codes "t") (codes "l") (codes "s eq 'a&bé'")
      (some (codes "l")) 10 query refl refl refl

abbrev start : Str
start = first_url send (codes "h") (codes "/api") (codes "d") (codes "q")

abbrev first_rows : List Json
first_rows = host_row (codes "192.0.2.1") ∷ obj (field (codes "ip") null end) ∷ []

abbrev second_rows : List Json
second_rows = host_row (codes "192.0.2.2") ∷ []

first_answer :
    (get_json (send start) >>= read_page)
    ≡ ok (record { rows = first_rows; next_link = text (codes "/2") })
unfolding send get_json read_page first_url
first_answer = refl

second_answer :
    (get_json (send (codes "h/2")) >>= read_page)
    ≡ ok (record { rows = second_rows; next_link = null })
unfolding send get_json read_page
second_answer = refl

feed : IsFeed send (codes "h") start (first_rows ∷ second_rows ∷ [])
unfolding truthy next_url
feed =
    then_page start (codes "h/2") first_rows (second_rows ∷ [])
      (record {
        page = record { link = text (codes "/2"); answer = first_answer; linked = refl };
        target = refl;
      })
      (last_page (codes "h/2") second_rows
        (record { link = null; answer = second_answer; linked = refl }))

iter_rows-IsFeed_example :
    (iter_rows send (codes "h") 2 false (codes "/api") (codes "d") (codes "q")).rows
    ≡ some (ok (all_rows send (codes "h") (first_rows ∷ second_rows ∷ [])))
iter_rows-IsFeed_example =
    iter_rows-IsFeed send (codes "h") 2 (codes "/api") (codes "d") (codes "q")
      (first_rows ∷ second_rows ∷ []) feed (omega arith)
