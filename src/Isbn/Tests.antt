-- ===== src/Isbn/Tests.antt =====
-- The theorems on ISBNs at the ISBNs of two printed books.
use book_data_pipeline.Base.{
  Text, codes, Bool, true, Option, some, List, [], ◌∷◌, set, ◌≡◌, ◌≢◌, refl, arith, sym,
}
use mathlib.Core.List.{Permᴰ}
use book_data_pipeline.Unicode.{ascii_unicode}
use book_data_pipeline.Isbn.{
  is_valid_isbn13, is_valid_isbn10, to_isbn13, convert, select_canonical_isbn, conversions, minimum,
}
use book_data_pipeline.Isbn.Checksum.{isbn13_detects_substitution}
use book_data_pipeline.Isbn.Convert.{to_isbn13-valid, convert-isbn10_injective}
use book_data_pipeline.Isbn.Select.{select_canonical_isbn_sound, select_canonical_isbn-perm}

abbrev pub ulysses : Text
ulysses = codes "9780199535675"

abbrev pub ulysses10 : Text
ulysses10 = codes "0199535671"

ulysses_valid : is_valid_isbn13 ulysses ≡ true
unfolding is_valid_isbn13 book_data_pipeline.Isbn.matches_isbn13 book_data_pipeline.Base.is_digit
    book_data_pipeline.Isbn.isbn13_check_digit book_data_pipeline.Isbn.weighted13
    book_data_pipeline.Isbn.weight
ulysses_valid = refl

ulysses10_valid : is_valid_isbn10 ulysses10 ≡ true
unfolding is_valid_isbn10 book_data_pipeline.Isbn.matches_isbn10 book_data_pipeline.Base.is_digit
    book_data_pipeline.Isbn.isbn10_check_digit book_data_pipeline.Isbn.weighted10
    book_data_pipeline.Base.str_of
ulysses10_valid = refl

isbn13_detects_substitution_example : is_valid_isbn13 (set ulysses 4 b'7') ≡ Bool.false
unfolding book_data_pipeline.Base.is_digit
isbn13_detects_substitution_example =
    isbn13_detects_substitution ulysses 4 b'7' ulysses_valid (omega arith) refl (omega arith)

to_isbn13_run : to_isbn13 ascii_unicode (some ulysses10) ≡ some ulysses
unfolding to_isbn13 convert is_valid_isbn13 book_data_pipeline.Isbn.matches_isbn13
    book_data_pipeline.Isbn.clean book_data_pipeline.Unicode.upper book_data_pipeline.Base.strip
    book_data_pipeline.Isbn.is_separator is_valid_isbn10 book_data_pipeline.Isbn.matches_isbn10
    book_data_pipeline.Base.is_digit book_data_pipeline.Isbn.isbn10_check_digit
    book_data_pipeline.Isbn.weighted10 book_data_pipeline.Base.str_of
    book_data_pipeline.Isbn.isbn13_check_digit book_data_pipeline.Isbn.weighted13
    book_data_pipeline.Isbn.weight
to_isbn13_run = refl

to_isbn13-valid_example : is_valid_isbn13 ulysses ≡ true
to_isbn13-valid_example = to_isbn13-valid ascii_unicode (some ulysses10) ulysses to_isbn13_run

convert-isbn10_injective_example : ulysses10 ≡ ulysses10
convert-isbn10_injective_example =
    convert-isbn10_injective ulysses10 ulysses10 ulysses10_valid ulysses10_valid refl

select_run :
    select_canonical_isbn ascii_unicode (some (codes "0141439513" ∷ ulysses10 ∷ []))
    ≡ some (codes "9780141439518")
unfolding select_canonical_isbn conversions to_isbn13 convert is_valid_isbn13
    book_data_pipeline.Isbn.matches_isbn13 book_data_pipeline.Isbn.clean
    book_data_pipeline.Unicode.upper book_data_pipeline.Base.strip
    book_data_pipeline.Isbn.is_separator is_valid_isbn10 book_data_pipeline.Isbn.matches_isbn10
    book_data_pipeline.Base.is_digit book_data_pipeline.Isbn.isbn10_check_digit
    book_data_pipeline.Isbn.weighted10 book_data_pipeline.Base.str_of minimum
    book_data_pipeline.Isbn.least_from book_data_pipeline.Base.is_space
    book_data_pipeline.Base.lstrip book_data_pipeline.Isbn.isbn13_check_digit
    book_data_pipeline.Isbn.weight book_data_pipeline.Isbn.weighted13
select_run = refl

select_canonical_isbn_sound_example : is_valid_isbn13 (codes "9780141439518") ≡ true
select_canonical_isbn_sound_example =
    (select_canonical_isbn_sound ascii_unicode (codes "0141439513" ∷ ulysses10 ∷ [])
      (codes "9780141439518") select_run).0

select_canonical_isbn-perm_example :
    select_canonical_isbn ascii_unicode (some (ulysses10 ∷ codes "0141439513" ∷ []))
    ≡ select_canonical_isbn ascii_unicode (some (codes "0141439513" ∷ ulysses10 ∷ []))
select_canonical_isbn-perm_example =
    select_canonical_isbn-perm ascii_unicode (ulysses10 ∷ codes "0141439513" ∷ [])
      (codes "0141439513" ∷ ulysses10 ∷ []) ∣ Permᴰ.swap refl refl ∣₁

pub ulysses_selected : select_canonical_isbn ascii_unicode (some (ulysses10 ∷ [])) ≡ some ulysses
unfolding select_canonical_isbn conversions to_isbn13 convert is_valid_isbn13
    book_data_pipeline.Isbn.matches_isbn13 book_data_pipeline.Isbn.clean
    book_data_pipeline.Unicode.upper book_data_pipeline.Base.strip
    book_data_pipeline.Isbn.is_separator is_valid_isbn10 book_data_pipeline.Isbn.matches_isbn10
    book_data_pipeline.Base.is_digit book_data_pipeline.Isbn.isbn10_check_digit
    book_data_pipeline.Isbn.weighted10 book_data_pipeline.Base.str_of minimum
    book_data_pipeline.Isbn.least_from book_data_pipeline.Base.is_space
    book_data_pipeline.Base.lstrip book_data_pipeline.Isbn.isbn13_check_digit
    book_data_pipeline.Isbn.weight book_data_pipeline.Isbn.weighted13
ulysses_selected = refl
