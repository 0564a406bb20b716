-- ===== src/Normalise/Forms.antt =====
-- The comparison forms of transform/normalise.py: `_fold`, titles, subjects, authors, and the
-- removal of MARC subfield delimiters from display text.
pub mod Tests
pub mod Authors
use book_data_pipeline.Base.{
  ℕ, zero, suc, ◌+◌, Text, codes, Bool, true, false, not, ◌&&◌, ◌||◌, ◌==◌, leb, if◌then◌else◌,
  Option, none, some, [], ◌∷◌, ◌++◌, length, map, keep, drop_while, strip, is_space, is_empty,
}
use book_data_pipeline.Unicode.{Unicode}
use book_data_pipeline.Normalise.Years.{take_while, starts_in, is_decimal}

-- One character under `_PUNCTUATION_FOLD`.
pub fold_punctuation : ℕ → ℕ
fold_punctuation c =
    if leb 0x2018 c && leb c 0x201b
    then b'\''
    else if leb 0x201c c && leb c 0x201e
    then b'"'
    else if (c == 0x2013) || (c == 0x2014) || (c == 0x2010) || (c == 0x2011)
    then b'-'
    else if c == 0xa0
    then b' '
    else c

-- `_WHITESPACE.sub(" ", s)`: each run of white space becomes one space.
pub collapse : Bool → Text → Text
collapse in_run [] = []
collapse in_run (c ∷ s) =
    let rest = collapse (is_space c) s in
    if is_space c then (if in_run then rest else b' ' ∷ rest) else c ∷ rest

-- `folded or None`
abbrev pub or_none : Text → Option Text
or_none s = if is_empty s then none else some s

module _ (u : Unicode) where
  pub fold : Text → Text
  fold value = u.casefold (strip (collapse false (map fold_punctuation (u.nfc value))))

  pub normalise_title : Option Text → Option Text
  normalise_title none = none
  normalise_title (some value) = or_none (fold value)

  pub normalise_subject : Option Text → Option Text
  normalise_subject none = none
  normalise_subject (some value) = or_none (fold value)

-- `[$|\u2021]` and `[a-z]`
pub is_delimiter : ℕ → Bool
is_delimiter c = (c == b'$') || (c == b'|') || (c == 0x2021)

pub is_lower : ℕ → Bool
is_lower c = leb b'a' c && leb c b'z'

-- `[$|\u2021][a-z](?=\s)` at a position.
pub delimiter_at : Text → Bool
delimiter_at (d ∷ l ∷ s ∷ rest) = is_delimiter d && is_lower l && is_space s
delimiter_at _ = false

-- `_MARC_SUBFIELD` at a position: how many characters it takes.
pub subfield_at : Text → Option ℕ
subfield_at s =
    if delimiter_at (drop_while is_space s) then some (length (take_while is_space s) + 2) else none

-- `_MARC_SUBFIELD.search`
pub has_subfield : Text → Bool
has_subfield [] = false
has_subfield (c ∷ s) =
    let later = has_subfield s in elim (subfield_at (c ∷ s)) [ none ↦ later | some n ↦ true ]

-- `_MARC_SUBFIELD.sub("", s)`, with `n` characters of a match still to be passed over.
pub without_subfields : ℕ → Text → Text
without_subfields n [] = []
without_subfields (suc n) (c ∷ s) = without_subfields n s
without_subfields zero (c ∷ s) = elim (subfield_at (c ∷ s)) [
  | none ↦ c ∷ without_subfields 0 s
  | some zero ↦ without_subfields 0 s
  | some (suc n) ↦ without_subfields n s
]

pub strip_marc_subfields : Option Text → Option Text
strip_marc_subfields none = none
strip_marc_subfields (some value) =
    if not (has_subfield value)
    then some value
    else or_none (strip (collapse false (without_subfields 0 value)))

-- `_AUTHOR_PUNCTUATION`
pub is_author_punctuation : ℕ → Bool
is_author_punctuation c =
    (c == b'.')
    || (c == b',')
    || (c == b';')
    || (c == b':')
    || (c == b'(')
    || (c == b')')
    || (c == b'[')
    || (c == b']')

-- `text.count(",")`
pub count_commas : Text → ℕ
count_commas [] = 0
count_commas (c ∷ s) = if c == b',' then suc (count_commas s) else count_commas s

-- `text.partition(",")`: what stands before the first comma, and behind it.
pub before_comma : Text → Text
before_comma [] = []
before_comma (c ∷ s) = if c == b',' then [] else c ∷ before_comma s

pub after_comma : Text → Text
after_comma [] = []
after_comma (c ∷ s) = if c == b',' then s else after_comma s

-- Surname first is turned round where exactly one comma divides two parts that are not blank.
pub natural_order : Text → Text
natural_order text =
    let surname = strip (before_comma text) in
    let forenames = strip (after_comma text) in
    if (count_commas text == 1) && not (is_empty surname) && not (is_empty forenames)
    then forenames ++ (b' ' ∷ surname)
    else text

-- The end of a life date: `\s*\d{0,4}\s*$` behind the dash.
pub dates_end : Unicode → Text → Bool
dates_end u s =
    let rest = drop_while is_space s in
    leb (length (take_while (is_decimal u) rest)) 4
    && is_empty (drop_while is_space (drop_while (is_decimal u) rest))

-- `\s*[-\u2013\u2014]\s*\d{0,4}\s*$` behind the first year.
pub dash_and_end : Unicode → Text → Bool
dash_and_end u [] = false
dash_and_end u (c ∷ s) = ((c == b'-') || (c == 0x2013) || (c == 0x2014)) && dates_end u s

-- `\s*\d{3,4}\s*[-\u2013\u2014]\s*\d{0,4}\s*$` at a position. The digits of the first year are a
-- whole run, since what follows them is no digit.
pub dates_at : Unicode → Text → Bool
dates_at u s =
    let rest = drop_while is_space s in
    let digits = length (take_while (is_decimal u) rest) in
    leb 3 digits
    && leb digits 4
    && dash_and_end u (drop_while is_space (drop_while (is_decimal u) rest))

-- `_LIFE_DATES` at a position, with its optional comma.
pub life_dates_at : Unicode → Text → Bool
life_dates_at u [] = dates_at u []
life_dates_at u (c ∷ s) = if c == b',' then dates_at u s else dates_at u (c ∷ s)

-- `_LIFE_DATES.sub("", s)`: a match reaches the end of the text.
pub without_life_dates : Unicode → Text → Text
without_life_dates u [] = []
without_life_dates u (c ∷ s) = if life_dates_at u (c ∷ s) then [] else c ∷ without_life_dates u s

module _ (u : Unicode) where
  -- The text before its parts are put in order.
  pub prepared_author : Text → Text
  prepared_author value = without_life_dates u (strip (map fold_punctuation (u.nfc value)))

  -- The steps after.
  pub author_form : Text → Text
  author_form text =
      let spaced = map (λ c. if is_author_punctuation c then b' ' else c) text in
      let plain = keep (λ c. not (u.combining c)) (u.nfd spaced) in
      u.casefold (strip (collapse false plain))

  pub normalise_author : Option Text → Option Text
  normalise_author none = none
  normalise_author (some value) = or_none (author_form (natural_order (prepared_author value)))
