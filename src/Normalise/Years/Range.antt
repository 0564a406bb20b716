-- ===== src/Normalise/Years/Range.antt =====
-- Every year that is parsed is one that the schema admits.
use book_data_pipeline.Base.{
  ℕ, ◌≤◌, Text, false, [], ◌∷◌, Option, none, some, strip, ℤ, ◌≡◌, arith, inl, inr, Option-cases,
}
use book_data_pipeline.Unicode.{Unicode}
use book_data_pipeline.Normalise.Roman.{roman_to_int}
use book_data_pipeline.Normalise.Years.{
  min_year, max_year, in_years, find_roman, find_four_digits, roman_year, year_in, parse_year,
  YearValue, absent, boolean, number, text, signed_value,
}

abbrev InRange : ℕ → Type 0
InRange y = (min_year ≤ y) × (y ≤ max_year)

in_years-bounds : (n y : ℕ) → in_years n ≡ some y → InRange y
in_years-bounds n y h = ground arith

module _ (u : Unicode) where
  roman_year-bounds : (run : Option Text) (y : ℕ) → roman_year u run ≡ some y → InRange y
  unfolding roman_year
  roman_year-bounds none y h = cc
  roman_year-bounds (some run) y h = elim (Option-cases (roman_to_int u run)) [
    | inl e ↦ in_years-bounds 0 y (rw (e, roman_year) at h)
    | inr (n, e) ↦ in_years-bounds n y (rw (e, roman_year) at h)
  ]

  year_in-bounds : (s : Text) (y : ℕ) → year_in u s ≡ some y → InRange y
  unfolding year_in
  year_in-bounds s y h = elim (Option-cases (find_four_digits u false s)) [
    | inl e ↦ roman_year-bounds (find_roman false s) y (rw (e, year_in) at h)
    | inr (n, e) ↦ in_years-bounds n y (rw (e, year_in) at h)
  ]

  -- A parsed publication year lies between 1400 and 2100.
  pub parse_year-bounds :
      (value : Option Text) (y : ℕ) → parse_year u value ≡ some y → (min_year ≤ y) × (y ≤ max_year)
  unfolding parse_year
  parse_year-bounds none y h = cc
  parse_year-bounds (some []) y h = cc
  parse_year-bounds (some (c ∷ s)) y h = year_in-bounds (strip (u.nfc (c ∷ s))) y h

  -- What a value says of a year, before any bound: the number that it is, or that its text is.
  pub said_year : YearValue → Option ℤ
  said_year absent = none
  said_year (boolean b) = none
  said_year (number n) = some n
  said_year (text s) = signed_value u (strip s)
