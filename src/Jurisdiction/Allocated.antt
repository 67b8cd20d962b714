-- ===== src/Jurisdiction/Allocated.antt =====
-- The networks of a jurisdiction, against the records of the registries' files.
use ichnos.Base.{
  ℕ, Str, contains, ◌==◌, codes, splitlines, Bool, true, false, not, ◌&&◌, ◌||◌, ◌≡◌, refl, sym,
  arith, List, [], ◌∷◌, any, any-nothing, Option, none, some, if◌then◌else◌,
}
use ichnos.Blocklist.{parse_v4}
use ichnos.Jurisdiction.{
  Count, parse_count, record_of, value_cidrs, record_cidrs, line_cidrs, lines_cidrs,
  parse_delegated_stats,
}
use ichnos.Jurisdiction.Printed.{
  IsPrinted, nothing-IsPrinted, append-IsPrinted, same-IsPrinted, in_range_from,
  range_to_cidrs-IsPrinted,
}

abbrev in_counted : Option ℕ → Option Count → ℕ → Bool
in_counted first none a = false
in_counted first (some count) a = in_range_from first count a

choose-IsPrinted :
    (p q : Bool) (xs : List Str) (f : ℕ → Bool)
    → IsPrinted xs f
    → IsPrinted (if not p || not q then [] else xs) (λ a. p && (q && f a))
choose-IsPrinted true true xs f h = h
choose-IsPrinted true false xs f h = nothing-IsPrinted
choose-IsPrinted false q xs f h = nothing-IsPrinted

module _ (other_digit : ℕ → Option ℕ) where
  in_record : Str → ℕ → Option (Str × Str × Str × Str) → Bool
  in_record country a none = false
  in_record country a (some (cc, record_type, start, value)) =
      (cc == country)
      && ((record_type == codes "ipv4")
          && in_counted (parse_v4 start) (parse_count other_digit value) a)

  -- The line is an IPv4 record of the country, and the address lies in its range.
  unfoldable pub allocated : Str → ℕ → Str → Bool
  unfolding in_record record_of
  allocated country a line = in_record country a (record_of line)

  value-IsPrinted :
      (start : Str) (o : Option Count)
      → IsPrinted (value_cidrs other_digit start o) (in_counted (parse_v4 start) o)
  unfolding value_cidrs
  value-IsPrinted start none = nothing-IsPrinted
  value-IsPrinted start (some count) = range_to_cidrs-IsPrinted start count

  any-contains :
      (cc : Str) (b : Bool) (wanted : List Str)
      → any (λ w. (cc == w) && b) wanted ≡ (contains cc wanted && b)
  unfolding contains
  any-contains cc b [] = refl
  any-contains cc b (w ∷ ws) = ground (arith, any-contains cc b ws)

  record-IsPrinted :
      (wanted : List Str) (r : Option (Str × Str × Str × Str))
      → IsPrinted (record_cidrs other_digit wanted r) (λ a. any (λ c. in_record c a r) wanted)
  unfolding record_cidrs in_record
  record-IsPrinted wanted none =
      same-IsPrinted [] (λ a. false) _ (λ a. sym (any-nothing wanted)) nothing-IsPrinted
  record-IsPrinted wanted (some (country, record_type, start, value)) =
      let count = parse_count other_digit value in
      let right = record_type == codes "ipv4" in
      let inside = in_counted (parse_v4 start) count in
      same-IsPrinted
        (if not (contains country wanted) || not right
          then []
          else value_cidrs other_digit start count)
        (λ a. contains country wanted && (right && inside a))
        (λ a. any (λ w. (country == w) && (right && inside a)) wanted)
        (λ a. sym (any-contains country (right && inside a) wanted))
        (choose-IsPrinted (contains country wanted) right (value_cidrs other_digit start count)
          inside (value-IsPrinted start count))

  line-IsPrinted :
      (wanted : List Str) (line : Str)
      → IsPrinted (line_cidrs other_digit wanted line) (λ a. any (λ c. allocated c a line) wanted)
  unfolding line_cidrs allocated
  line-IsPrinted wanted line = record-IsPrinted wanted (record_of line)

  lines-IsPrinted :
      (wanted lines : List Str)
      → IsPrinted
          (lines_cidrs other_digit wanted lines)
          (λ a. any (λ line. any (λ c. allocated c a line) wanted) lines)
  unfolding lines_cidrs
  lines-IsPrinted wanted [] = nothing-IsPrinted
  lines-IsPrinted wanted (line ∷ lines) =
      append-IsPrinted (line_cidrs other_digit wanted line) (lines_cidrs other_digit wanted lines)
        (λ a. any (λ c. allocated c a line) wanted)
        (λ a. any (λ l. any (λ c. allocated c a l) wanted) lines) (line-IsPrinted wanted line)
        (lines-IsPrinted wanted lines)

  -- The texts for some countries cover what the records of those countries in the file do.
  pub parse_delegated_stats-IsPrinted :
      (text : Str) (wanted : List Str)
      → IsPrinted
          (parse_delegated_stats other_digit text wanted)
          (λ a. any (λ line. any (λ c. allocated c a line) wanted) (splitlines text))
  unfolding parse_delegated_stats
  parse_delegated_stats-IsPrinted text wanted = lines-IsPrinted wanted (splitlines text)
