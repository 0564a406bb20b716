-- ===== src/Isbn.antt =====
-- transform/isbn.py: validation and conversion of ISBNs, and the choice of one for a record.
pub mod Tests
pub mod Checksum
pub mod Convert
pub mod Select
use book_data_pipeline.Base.{
  ℕ, zero, suc, ◌+◌, ◌-◌, ◌*◌, ◌%◌, Text, codes, Bool, true, false, not, ◌&&◌, ◌||◌, ◌==◌, leb, ltb,
  if◌then◌else◌, Option, none, some, List, [], ◌∷◌, ◌++◌, take, length, all, keep, strip, is_space,
  collect, is_digit, is_empty, starts_with, text_eq, text_lt, str_of,
}
use book_data_pipeline.Base.Sorting.{set_of}
use book_data_pipeline.Unicode.{Unicode, upper}

abbrev pub max_candidates_for_identity : ℕ
max_candidates_for_identity = 8

-- `value[i]`, at an index that the text has.
abbrev pub char_at : Text → ℕ → ℕ
char_at [] i = 0
char_at (c ∷ s) zero = c
char_at (c ∷ s) (suc i) = char_at s i

-- `_SEPARATORS`: white space, the hyphen, and the dashes U+2010 to U+2015.
pub is_separator : ℕ → Bool
is_separator c = is_space c || (c == b'-') || (leb 0x2010 c && leb c 0x2015)

-- `_ISBN10` and `_ISBN13`, as full matches.
pub matches_isbn10 : Text → Bool
matches_isbn10 s =
    (length s == 10) && all is_digit (take 9 s) && (is_digit (char_at s 9) || (char_at s 9 == b'X'))

pub matches_isbn13 : Text → Bool
matches_isbn13 s = (length s == 13) && all is_digit s

-- `1 if index % 2 == 0 else 3`
pub weight : ℕ → ℕ
weight index = if index % 2 == 0 then 1 else 3

-- `sum(int(digit) * weight ...)` from an index on.
pub weighted13 : ℕ → Text → ℕ
weighted13 index [] = 0
weighted13 index (digit ∷ rest) = (digit - 48) * weight index + weighted13 (suc index) rest

pub isbn13_check_digit : Text → ℕ
isbn13_check_digit first_twelve = (10 - weighted13 0 first_twelve % 10) % 10

-- `sum(int(digit) * (10 - index) ...)` from an index on.
pub weighted10 : ℕ → Text → ℕ
weighted10 index [] = 0
weighted10 index (digit ∷ rest) = (digit - 48) * (10 - index) + weighted10 (suc index) rest

pub isbn10_check_digit : Text → Text
isbn10_check_digit first_nine =
    let remainder = (11 - weighted10 0 first_nine % 11) % 11 in
    if remainder == 10 then codes "X" else str_of remainder

pub is_valid_isbn13 : Text → Bool
is_valid_isbn13 value =
    if not (matches_isbn13 value)
    then false
    else if not (starts_with value (codes "978") || starts_with value (codes "979"))
    then false
    else if starts_with value (codes "9790")
    then false
    else char_at value 12 - 48 == isbn13_check_digit (take 12 value)

pub is_valid_isbn10 : Text → Bool
is_valid_isbn10 value =
    if not (matches_isbn10 value)
    then false
    else text_eq (char_at value 9 ∷ []) (isbn10_check_digit (take 9 value))

pub convert : Text → Option Text
convert candidate =
    if is_valid_isbn13 candidate
    then some candidate
    else if is_valid_isbn10 candidate
    then (let body = codes "978" ++ take 9 candidate in
        some (body ++ str_of (isbn13_check_digit body)))
    else none

-- `min` over what is iterated: the least so far is replaced by a smaller value.
pub least_from : Text → List Text → Text
least_from x [] = x
least_from x (y ∷ ys) = least_from (if text_lt y x then y else x) ys

pub minimum : List Text → Option Text
minimum [] = none
minimum (x ∷ xs) = some (least_from x xs)

module _ (u : Unicode) where
  pub clean : Text → Text
  clean value = upper u (keep (λ c. not (is_separator c)) (strip value))

  pub to_isbn13 : Option Text → Option Text
  to_isbn13 none = none
  to_isbn13 (some value) = if is_empty value then none else convert (clean value)

  -- The conversions that succeed.
  pub conversions : List Text → List Text
  conversions = collect (λ c. to_isbn13 (some c))

  pub select_canonical_isbn : Option (List Text) → Option Text
  select_canonical_isbn none = none
  select_canonical_isbn (some candidates) =
      let valid = set_of text_lt (conversions candidates) in
      if is_empty candidates
      then none
      else if is_empty valid || ltb max_candidates_for_identity (length valid)
      then none
      else minimum valid
