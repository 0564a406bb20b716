-- ===== src/Normalise/Years.antt =====
-- `parse_year` and `parse_author_year` of transform/normalise.py.
pub mod Tests
pub mod Search
pub mod Range
use book_data_pipeline.Base.{
  ℕ, zero, suc, ◌+◌, ◌-◌, ◌*◌, Text, codes, Bool, true, false, not, ◌&&◌, ◌||◌, ◌==◌, leb, ltb,
  if◌then◌else◌, Option, none, some, is_some, List, [], ◌∷◌, ◌++◌, length, all, drop_while, strip,
  is_empty, ℤ, pos, neg_ℕ, leb_ℤ,
}
use book_data_pipeline.Unicode.{Unicode}
use book_data_pipeline.Normalise.Roman.{roman_to_int}

abbrev pub min_year : ℕ
min_year = 1400

abbrev pub max_year : ℕ
max_year = 2100

-- `[A-Za-z]`
pub is_letter : ℕ → Bool
is_letter c = (leb b'A' c && leb c b'Z') || (leb b'a' c && leb c b'z')

-- `[MDCLXVImdclxvi]`
pub is_roman_letter : ℕ → Bool
is_roman_letter c =
    (c == b'M')
    || (c == b'D')
    || (c == b'C')
    || (c == b'L')
    || (c == b'X')
    || (c == b'V')
    || (c == b'I')
    || (c == b'm')
    || (c == b'd')
    || (c == b'c')
    || (c == b'l')
    || (c == b'x')
    || (c == b'v')
    || (c == b'i')

-- Whether the first character of what follows is in a class.
abbrev pub starts_in : (ℕ → Bool) → Text → Bool
starts_in p [] = false
starts_in p (c ∷ s) = p c

abbrev pub take_while : (ℕ → Bool) → Text → Text
take_while p [] = []
take_while p (c ∷ s) = let rest = take_while p s in if p c then c ∷ rest else []

abbrev pub in_years : ℕ → Option ℕ
in_years year = if leb min_year year && leb year max_year then some year else none

-- The number that four decimal digits spell.
abbrev pub four_value : Option ℕ → Option ℕ → Option ℕ → Option ℕ → Option ℕ
four_value (some a) (some b) (some c) (some d) = some (1000 * a + 100 * b + 10 * c + d)
four_value none _ _ _ = none
four_value (some a) none _ _ = none
four_value (some a) (some b) none _ = none
four_value (some a) (some b) (some c) none = none

-- `_ROMAN_NUMERAL` at a position: the run of numeral letters that begins there. A shorter run is
-- followed by a letter, so that the expression takes the whole run or fails.
pub roman_at : Text → Option Text
roman_at s =
    let run = take_while is_roman_letter s in
    if leb 2 (length run) && not (starts_in is_letter (drop_while is_roman_letter s))
    then some run
    else none

-- `_ROMAN_NUMERAL.search`, after a letter or not.
pub find_roman : Bool → Text → Option Text
find_roman after_letter [] = none
find_roman after_letter (c ∷ s) =
    let later = find_roman (is_letter c) s in
    elim (if after_letter then none else roman_at (c ∷ s)) [ none ↦ later | some run ↦ some run ]

module _ (u : Unicode) where
  -- `\d`
  abbrev pub is_decimal : ℕ → Bool
  is_decimal c = is_some (u.decimal c)

  -- `(\d{4})(?!\d)` at a position, as the number that `int` reads from it.
  pub four_digits_at : Text → Option ℕ
  four_digits_at (a ∷ b ∷ c ∷ d ∷ rest) =
      if starts_in is_decimal rest
      then none
      else four_value (u.decimal a) (u.decimal b) (u.decimal c) (u.decimal d)
  four_digits_at _ = none

  -- `_FOUR_DIGIT_YEAR.search`, after a digit or not.
  pub find_four_digits : Bool → Text → Option ℕ
  find_four_digits after_digit [] = none
  find_four_digits after_digit (c ∷ s) =
      let later = find_four_digits (is_decimal c) s in
      elim (if after_digit then none else four_digits_at (c ∷ s)) [
        | none ↦ later
        | some year ↦ some year
      ]

  -- `_roman_to_int(...) or 0`
  pub roman_year : Option Text → Option ℕ
  roman_year none = none
  roman_year (some run) = elim (roman_to_int u run) [
    | none ↦ in_years 0
    | some year ↦ in_years year
  ]

  pub year_in : Text → Option ℕ
  year_in text = elim (find_four_digits false text) [
    | none ↦ roman_year (find_roman false text)
    | some year ↦ in_years year
  ]

  pub parse_year : Option Text → Option ℕ
  parse_year none = none
  parse_year (some value) = if is_empty value then none else year_in (strip (u.nfc value))

  -- `int(text)` of one to four decimal digits.
  pub digits_value : ℕ → Text → Option ℕ
  digits_value n [] = some n
  digits_value n (c ∷ s) = elim (u.decimal c) [ none ↦ none | some d ↦ digits_value (10 * n + d) s ]

  abbrev pub short_value : Text → Option ℕ
  short_value s = if leb 1 (length s) && leb (length s) 4 then digits_value 0 s else none

  -- `_SIGNED_YEAR.fullmatch(text)` and `int(text)`
  pub signed_value : Text → Option ℤ
  signed_value [] = none
  signed_value (c ∷ s) =
      if c == b'-'
      then (elim (short_value s) [ none ↦ none | some n ↦ some (neg_ℕ n) ])
      else if c == b'+'
      then (elim (short_value s) [ none ↦ none | some n ↦ some (pos n) ])
      else elim (short_value (c ∷ s)) [ none ↦ none | some n ↦ some (pos n) ]

-- The values that `parse_author_year` is given: `int | str | None`, and a `bool`, which is an `int`.
pub data YearValue : Type 0 where
  absent : YearValue
  boolean : Bool → YearValue
  number : ℤ → YearValue
  text : Text → YearValue

-- `AUTHOR_YEAR_MIN` and `AUTHOR_YEAR_MAX`
abbrev pub author_year_min : ℤ
author_year_min = neg_ℕ 3000

abbrev pub author_year_max : ℤ
author_year_max = pos 2100

pub in_author_years : ℤ → Option ℤ
in_author_years year =
    if leb_ℤ author_year_min year && leb_ℤ year author_year_max then some year else none

pub parse_author_year : Unicode → YearValue → Option ℤ
parse_author_year u absent = none
parse_author_year u (boolean b) = none
parse_author_year u (number year) = in_author_years year
parse_author_year u (text value) = elim (signed_value u (strip value)) [
  | none ↦ none
  | some year ↦ in_author_years year
]
