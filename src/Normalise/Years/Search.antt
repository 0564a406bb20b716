-- ===== src/Normalise/Years/Search.antt =====
-- What the searches for a year find: four digits standing alone, and a Roman numeral.
use book_data_pipeline.Base.{
  all_below, all_below_sound, ℕ, ◌+◌, ◌-◌, ◌*◌, ◌<◌, ◌≤◌, Text, Bool, true, false, not, ◌&&◌, ◌||◌,
  ◌==◌, leb, none, some, [], ◌∷◌, ◌++◌, length, all, drop_while, strip, ◌≡◌, ◌≢◌, refl, ap, arith,
  inl, inr, and_true, Bool-cases, is_empty_of_ne,
}
use book_data_pipeline.Unicode.{Unicode, IsUnicode, upper, upper_ascii}
use book_data_pipeline.Normalise.Roman.{repeat, render_from, int_to_roman, roman_to_int}
use book_data_pipeline.Normalise.Roman.Canonical.{roman_to_int_iff}
use book_data_pipeline.Normalise.Years.{
  min_year, max_year, is_roman_letter, starts_in, take_while, in_years, roman_at, find_roman,
  is_decimal, four_digits_at, find_four_digits, roman_year, year_in, parse_year,
}

is_upper_roman : ℕ → Bool
is_upper_roman c =
    (c == b'M')
    || (c == b'D')
    || (c == b'C')
    || (c == b'L')
    || (c == b'X')
    || (c == b'V')
    || (c == b'I')

roman_table :
    all_below 701 (λ n.
      leb 2 (length (int_to_roman (1400 + n))) && all is_upper_roman (int_to_roman (1400 + n)))
    ≡ true
unfolding all_below int_to_roman render_from repeat is_upper_roman
roman_table = refl

-- A year's rendering has two letters or more, all of them capital numerals.
year_rendering :
    (y : ℕ)
    → min_year ≤ y
    → y ≤ max_year
    → (leb 2 (length (int_to_roman y)) ≡ true) × (all is_upper_roman (int_to_roman y) ≡ true)
year_rendering y low high =
    let e : 1400 + (y - 1400) ≡ y = omega arith in
    let checked =
      all_below_sound 701
        (λ n.
          leb 2 (length (int_to_roman (1400 + n))) && all is_upper_roman (int_to_roman (1400 + n)))
        (y - 1400) roman_table (omega arith) in
    and_true _ _ (rw e at checked)

upper_roman :
    (c : ℕ)
    → is_upper_roman c ≡ true
    → (c < 128)
      × (upper_ascii c ≡ c)
      × (is_roman_letter c ≡ true)
      × ((leb 48 c && leb c 57) ≡ false)
unfolding is_upper_roman is_roman_letter
upper_roman c h = ground arith

take_run :
    (s : Text)
    → all is_upper_roman s ≡ true
    → (take_while is_roman_letter s ≡ s) × (drop_while is_roman_letter s ≡ [])
take_run [] h = (refl, refl)
take_run (c ∷ s) h =
    let (one, rest) = and_true (is_upper_roman c) (all is_upper_roman s) h in
    let (taken, dropped) = take_run s rest in
    let letter = (upper_roman c one).2 in (rw (letter, taken), rw (letter, dropped))

run_at : (s : Text) → all is_upper_roman s ≡ true → leb 2 (length s) ≡ true → roman_at s ≡ some s
unfolding roman_at
run_at s h k = let (taken, dropped) = take_run s h in rw (taken, dropped, k)

whole_run :
    (s : Text) → all is_upper_roman s ≡ true → leb 2 (length s) ≡ true → find_roman false s ≡ some s
unfolding find_roman
whole_run [] h k = ground arith
whole_run (c ∷ s) h k = rw (run_at (c ∷ s) h k, find_roman)

module _ (u : Unicode) where
  no_year_here : (c : ℕ) (s : Text) → u.decimal c ≡ none → four_digits_at u (c ∷ s) ≡ none
  unfolding four_digits_at
  no_year_here c [] h = refl
  no_year_here c (a ∷ []) h = refl
  no_year_here c (a ∷ b ∷ []) h = refl
  no_year_here c (a ∷ b ∷ d ∷ rest) h =
      rw h (elim (Bool-cases (starts_in (is_decimal u) rest)) [ inl e ↦ rw e | inr e ↦ rw e ])

  undecimal : (c : ℕ) → is_decimal u c ≡ false → u.decimal c ≡ none
  undecimal c h = ground arith

  -- A prefix without digits is skipped.
  skip_prefix :
      (pre s : Text)
      → all (λ c. not (is_decimal u c)) pre ≡ true
      → find_four_digits u false (pre ++ s) ≡ find_four_digits u false s
  unfolding find_four_digits
  skip_prefix [] s h = refl
  skip_prefix (c ∷ pre) s h =
      let (here, rest) = and_true (not (is_decimal u c)) (all (λ c. not (is_decimal u c)) pre) h in
      let other : is_decimal u c ≡ false = ground arith in
      rw (no_year_here c (pre ++ s) (undecimal c other), find_four_digits, other)
        (skip_prefix pre s rest)

  module _ (law : IsUnicode u) (a b c d : ℕ) (ha : a < 10) (hb : b < 10) (hc : c < 10)
      (hd : d < 10) where
    abbrev digits : Text
    digits = (48 + a) ∷ (48 + b) ∷ (48 + c) ∷ (48 + d) ∷ []

    abbrev year : ℕ
    year = 1000 * a + 100 * b + 10 * c + d

    year_at :
        (post : Text)
        → starts_in (is_decimal u) post ≡ false
        → four_digits_at u (digits ++ post) ≡ some year
    unfolding four_digits_at
    year_at post h = rw (
      h,
      law.decimal_digit a ha,
      law.decimal_digit b hb,
      law.decimal_digit c hc,
      law.decimal_digit d hd,
    )

    year_here :
        (post : Text)
        → starts_in (is_decimal u) post ≡ false
        → find_four_digits u false (digits ++ post) ≡ some year
    unfolding find_four_digits
    year_here post h = rw (year_at post h, find_four_digits)

    -- The first four digits that stand alone are the year, whatever surrounds them.
    pub parse_year-digits :
        (value pre post : Text)
        → value ≢ []
        → strip (u.nfc value) ≡ pre ++ (digits ++ post)
        → all (λ c. not (is_decimal u c)) pre ≡ true
        → starts_in (is_decimal u) post ≡ false
        → parse_year u (some value) ≡ in_years year
    unfolding parse_year year_in
    parse_year-digits value pre post ne e h k =
        rw (
          is_empty_of_ne value ne,
          e,
          skip_prefix pre (digits ++ post) h,
          year_here post k,
          year_in,
        )

  undecimal_roman :
      (s : Text) → IsUnicode u → all is_upper_roman s ≡ true → find_four_digits u false s ≡ none
  unfolding find_four_digits
  undecimal_roman [] law h = refl
  undecimal_roman (c ∷ s) law h =
      let (one, rest) = and_true (is_upper_roman c) (all is_upper_roman s) h in
      let (ascii, _, _, no_digit) = upper_roman c one in
      let e = law.decimal_ascii c ascii no_digit in
      rw (no_year_here c s e, find_four_digits, e) (undecimal_roman s law rest)

  upper-roman : (s : Text) → IsUnicode u → all is_upper_roman s ≡ true → upper u s ≡ s
  unfolding upper
  upper-roman [] law h = refl
  upper-roman (c ∷ s) law h =
      let (one, rest) = and_true (is_upper_roman c) (all is_upper_roman s) h in
      let (ascii, same, _, _) = upper_roman c one in
      rw (law.upper_ascii_lem c ascii, upper-roman s law rest) (ap (λ d. d ∷ s) same)

  -- Every year that the schema admits is parsed from its Roman numeral.
  pub parse_year-roman :
      (value : Text) (y : ℕ)
      → IsUnicode u
      → value ≢ []
      → strip (u.nfc value) ≡ int_to_roman y
      → min_year ≤ y
      → y ≤ max_year
      → parse_year u (some value) ≡ some y
  unfolding parse_year year_in roman_year
  parse_year-roman value y law ne e low high =
      let (long, letters) = year_rendering y low high in
      let read : roman_to_int u (int_to_roman y) ≡ some y =
        (roman_to_int_iff u (int_to_roman y) y).1
          (omega arith, upper-roman (int_to_roman y) law letters) in
      rw
        (
          is_empty_of_ne value ne,
          e,
          undecimal_roman (int_to_roman y) law letters,
          year_in,
          e,
          whole_run (int_to_roman y) letters long,
          read,
          roman_year,
        )
        (ground arith)
