-- ===== src/Models/Dates.antt =====
-- An aware UTC `datetime` by its fields, and `isoformat`.
use ichnos.Base.Decimal.{digit}
use ichnos.Base.{ℕ, ◌/◌, Str, codes, nat_eq, [], ◌∷◌, ◌++◌, if◌then◌else◌, ◌≡◌, refl}

pub record Datetime : Type 0 where
  pub year : ℕ
  pub month : ℕ
  pub day : ℕ
  pub hour : ℕ
  pub minute : ℕ
  pub second : ℕ
  pub microsecond : ℕ

two_digits : ℕ → Str
unfolding digit
two_digits n = digit (n / 10) ∷ digit n ∷ []

fraction : ℕ → Str
unfolding two_digits
fraction n =
    if nat_eq n 0
    then []
    else 46 ∷ (two_digits (n / 10000) ++ (two_digits (n / 100) ++ two_digits n))

-- `YYYY-MM-DDTHH:MM:SS[.ffffff]+00:00`
unfoldable pub isoformat : Datetime → Str
unfolding two_digits fraction
isoformat t =
    two_digits (t.year / 100)
    ++ (two_digits t.year
        ++ (45
            ∷ (two_digits t.month
                ++ (45
                    ∷ (two_digits t.day
                        ++ (84
                            ∷ (two_digits t.hour
                                ++ (58
                                    ∷ (two_digits t.minute
                                        ++ (58
                                            ∷ (two_digits t.second
                                                ++ (fraction t.microsecond
                                                    ++ codes "+00:00"))))))))))))

isoformat_example :
    isoformat (record {
      year = 2026;
      month = 8;
      day = 7;
      hour = 12;
      minute = 5;
      second = 0;
      microsecond = 250;
    })
    ≡ codes "2026-08-07T12:05:00.000250+00:00"
unfolding isoformat
isoformat_example = refl
