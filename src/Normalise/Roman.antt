-- ===== src/Normalise/Roman.antt =====
-- `_int_to_roman` and `_roman_to_int` of transform/normalise.py.
mod Tests
pub mod Canonical
use book_data_pipeline.Base.{
  ℕ, zero, suc, ◌+◌, ◌-◌, ◌/◌, ◌%◌, Text, codes, Bool, true, false, ◌||◌, ◌==◌, ltb, leb,
  if◌then◌else◌, Option, none, some, List, [], ◌∷◌, ◌++◌, reverse, text_eq, not,
}
use book_data_pipeline.Unicode.{Unicode, upper}

-- `_ROMAN_VALUES.get(char)`
pub roman_value : ℕ → Option ℕ
roman_value c =
    if c == b'I'
    then some 1
    else if c == b'V'
    then some 5
    else if c == b'X'
    then some 10
    else if c == b'L'
    then some 50
    else if c == b'C'
    then some 100
    else if c == b'D'
    then some 500
    else if c == b'M'
    then some 1000
    else none

-- `_ROMAN_RENDER`
abbrev pub roman_render : List (ℕ × Text)
roman_render =
    (1000, codes "M")
    ∷ (900, codes "CM")
    ∷ (500, codes "D")
    ∷ (400, codes "CD")
    ∷ (100, codes "C")
    ∷ (90, codes "XC")
    ∷ (50, codes "L")
    ∷ (40, codes "XL")
    ∷ (10, codes "X")
    ∷ (9, codes "IX")
    ∷ (5, codes "V")
    ∷ (4, codes "IV")
    ∷ (1, codes "I")
    ∷ []

-- `numeral * count`
unfoldable pub repeat : ℕ → Text → Text
repeat zero numeral = []
repeat (suc count) numeral = numeral ++ repeat count numeral

-- The loop over the table; `divmod` leaves the remainder for the entries below.
unfoldable pub render_from : List (ℕ × Text) → ℕ → Text
render_from [] value = []
render_from ((amount, numeral) ∷ table) value =
    repeat (value / amount) numeral ++ render_from table (value % amount)

unfoldable pub int_to_roman : ℕ → Text
int_to_roman value = render_from roman_render value

-- The state of the loop over the reversed text. The signed `total` of the source is
-- `added - subtracted`.
pub record Tally : Type 0 where
  pub added : ℕ
  pub subtracted : ℕ
  pub previous : ℕ

abbrev pub no_tally : Tally
no_tally = record { added = 0; subtracted = 0; previous = 0 }

pub tally_numeral : ℕ → Tally → Tally
tally_numeral current t = record {
  added = if ltb current t.previous then t.added else t.added + current;
  subtracted = if ltb current t.previous then t.subtracted + current else t.subtracted;
  previous = if ltb t.previous current then current else t.previous;
}

pub tally_from : Text → Tally → Option Tally
tally_from [] t = some t
tally_from (char ∷ rest) t = elim (roman_value char) [
  | none ↦ none
  | some current ↦ tally_from rest (tally_numeral current t)
]

-- The two tests at the end.
pub accept : Text → Option Tally → Option ℕ
accept upper none = none
accept upper (some t) =
    if leb t.added t.subtracted || not (text_eq (int_to_roman (t.added - t.subtracted)) upper)
    then none
    else some (t.added - t.subtracted)

pub roman_to_int : Unicode → Text → Option ℕ
roman_to_int u value = accept (upper u value) (tally_from (reverse (upper u value)) no_tally)
