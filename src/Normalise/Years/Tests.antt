-- ===== src/Normalise/Years/Tests.antt =====
-- The theorems on years at short texts.
use book_data_pipeline.Base.{◌≤◌, none, codes, true, false, some, ◌≡◌, refl, strip, ℤ, negsuc}
use book_data_pipeline.Unicode.{Unicode, ascii_unicode}
use book_data_pipeline.Normalise.Years.{
  is_letter, parse_year, parse_author_year, min_year, max_year, number, text, YearValue,
}
use book_data_pipeline.Normalise.Years.Range.{parse_year-bounds}

parse_year_run : parse_year ascii_unicode (some (codes "c1815.")) ≡ some 1815
unfolding parse_year book_data_pipeline.Normalise.Years.year_in
    book_data_pipeline.Normalise.Years.find_four_digits strip
    book_data_pipeline.Normalise.Years.four_digits_at
parse_year_run = refl

parse_year-bounds_example : (min_year ≤ 1815) × (1815 ≤ max_year)
parse_year-bounds_example =
    parse_year-bounds ascii_unicode (some (codes "c1815.")) 1815 parse_year_run

abbrev before_christ : ℤ
before_christ = negsuc 42

parse_author_year_run : parse_author_year ascii_unicode (number before_christ) ≡ some before_christ
unfolding parse_author_year book_data_pipeline.Normalise.Years.in_author_years
parse_author_year_run = refl

author_year_of_text : parse_author_year ascii_unicode (text (codes "-43")) ≡ some before_christ
unfolding parse_author_year book_data_pipeline.Normalise.Years.signed_value strip
    book_data_pipeline.Normalise.Years.digits_value
    book_data_pipeline.Normalise.Years.in_author_years
author_year_of_text = refl

letters : (is_letter b'Q' ≡ true) × (is_letter b'4' ≡ false)
unfolding is_letter
letters = (refl, refl)

pub no_year : (u : Unicode) → parse_year u none ≡ none
unfolding parse_year
no_year u = refl
