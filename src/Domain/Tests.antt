-- ===== src/Domain/Tests.antt =====
-- A record of one book, for the tests of the modules that use it.
use book_data_pipeline.Base.{ℕ, Text, codes, true, false, Option, none, some, [], ◌∷◌, ◌≡◌, refl}
use book_data_pipeline.Identity.Document.{end}
use book_data_pipeline.Domain.{
  identity_ok, SourceName, openlibrary, googlebooks, CleanBook, clean_book_ok, CandidateBook,
  lookup_query, preferred_isbn, has_canonical_isbn, at_most_five, author_ok, matches_language,
  is_hex, is_small, raw_book_ok, RawBook,
}

abbrev pub emma_isbn : Text
emma_isbn = codes "9780199535675"

abbrev pub emma_of : SourceName → Option ℕ → CleanBook
emma_of source year = record {
  source = source;
  source_id = codes "emma";
  identity_key = codes "isbn:9780199535675";
  title = codes "Emma";
  normalised_title = codes "emma";
  subtitle = none;
  isbn13 = some emma_isbn;
  published_year = year;
  page_count = none;
  language = none;
  publisher = none;
  description = none;
  cover_url = none;
  download_count = none;
  goodreads_average_rating = none;
  series = [];
  authors = [];
  normalised_first_author = none;
  subjects = [];
  source_updated = none;
  raw_payload = end;
}

abbrev pub dated : CleanBook
dated = emma_of openlibrary (some 1815)

abbrev pub undated : CleanBook
undated = emma_of googlebooks none

pub undated_ok : clean_book_ok undated ≡ true
unfolding clean_book_ok book_data_pipeline.Domain.identity_ok
    book_data_pipeline.Domain.is_isbn_identity book_data_pipeline.Domain.matches_isbn_pattern
    book_data_pipeline.Base.is_digit book_data_pipeline.Domain.identity_agrees
    book_data_pipeline.Domain.fields_ok
undated_ok = refl

abbrev candidate : CandidateBook
candidate = record {
  candidate_key = codes "emma";
  title = codes "Emma";
  authors = codes "Jane Austen" ∷ [];
  isbns = emma_isbn ∷ [];
  openlibrary_work_key = none;
  openlibrary_edition_key = none;
  languages = [];
  discovery_payload = end;
  discovery_source = openlibrary;
}

asked :
    (lookup_query candidate ≡ codes "Emma by Jane Austen")
    × (preferred_isbn candidate ≡ some emma_isbn)
unfolding lookup_query preferred_isbn
asked = (refl, refl)

canonical : has_canonical_isbn undated ≡ true
unfolding has_canonical_isbn
canonical = refl

in_range : at_most_five (record { coefficient = 38; scale = 1 }) ≡ true
unfolding at_most_five
in_range = refl

author_checked :
    author_ok
      (record { name = codes "A"; source_author_id = none; birth_year = none; death_year = none })
    ≡ true
unfolding author_ok
author_checked = refl

language_checked : matches_language (codes "eng") ≡ true
unfolding matches_language book_data_pipeline.Domain.is_small
language_checked = refl

letters : (is_hex b'f' ≡ true) × (is_small b'f' ≡ true)
unfolding is_hex is_small book_data_pipeline.Base.is_digit
letters = (refl, refl)

untitled_refused : (b : RawBook) → raw_book_ok (record b { source_id = [] }) ≡ false
unfolding raw_book_ok
untitled_refused b = refl

pub ulysses_identity_ok :
    identity_ok (codes "isbn:9780199535675") (some (codes "9780199535675")) ≡ true
unfolding identity_ok book_data_pipeline.Domain.is_isbn_identity
    book_data_pipeline.Domain.matches_isbn_pattern book_data_pipeline.Base.is_digit
    book_data_pipeline.Domain.identity_agrees
ulysses_identity_ok = refl
