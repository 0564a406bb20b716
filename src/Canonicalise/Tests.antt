-- ===== src/Canonicalise/Tests.antt =====
-- The answer to one raw record, and the helpers that build it.
use book_data_pipeline.Base.{codes, false, none, some, [], ◌∷◌, ◌≡◌, ◌≢◌, ◌∙◌, refl, true}
use book_data_pipeline.Unicode.{ascii_unicode}
use book_data_pipeline.Platform.{Platform}
use book_data_pipeline.Identity.Document.{end}
use book_data_pipeline.Normalise.Forms.{
  strip_marc_subfields, normalise_author, normalise_subject, normalise_title,
}
use book_data_pipeline.Domain.{CleanBook, clean_book_ok, fields_ok, openlibrary, RawAuthor, RawBook}
use book_data_pipeline.Normalise.Forms.Tests.{emma_title, emma_plain, no_subtitle}
use book_data_pipeline.Normalise.Years.{parse_year}
use book_data_pipeline.Domain.Tests.{ulysses_identity_ok}
use book_data_pipeline.Normalise.Years.Tests.{no_year}
use book_data_pipeline.Normalise.Language.Tests.{no_language}
use book_data_pipeline.Series.Tests.{no_series}
use book_data_pipeline.Isbn.Tests.{ulysses, ulysses10, ulysses_selected}
use book_data_pipeline.Identity.Keys.{isbn_key}
use book_data_pipeline.Canonicalise.{
  clean, validate, draft, canonicalise_named, display_title, first_author, author_id, clean_author,
  has_subject, canonicalise,
}
use book_data_pipeline.Canonicalise.Verdict.{IsVerdict, canonicalise-IsVerdict}

abbrev pub platform : Platform
platform = record {
  unicode = ascii_unicode;
  languages = λ attribute code. none;
  sha256 = λ s. s;
  unescape = λ s. s;
  decimal_of = λ s. none;
}

abbrev austen : RawAuthor
austen = record {
  name = codes "Jane Austen";
  source_author_id = none;
  birth_year = none;
  death_year = none;
}

abbrev book : RawBook
book = record {
  source = openlibrary;
  source_id = codes "OL1W";
  title = codes "Emma";
  subtitle = none;
  authors = austen ∷ [];
  subjects = codes "Novel" ∷ [];
  isbns = [];
  languages = [];
  published = some (codes "1815");
  publisher = none;
  page_count = none;
  description = none;
  cover_url = none;
  download_count = none;
  goodreads_average_rating = none;
  series = [];
  source_updated = none;
  raw_payload = end;
}

canonicalise-IsVerdict_example : IsVerdict platform book (canonicalise platform book)
canonicalise-IsVerdict_example = canonicalise-IsVerdict platform book

-- A title that is all subfields is shown as it came.
title_falls_back :
    strip_marc_subfields (some book.title) ≡ none → display_title platform book ≡ codes "Emma"
unfolding display_title
title_falls_back h = rw (h, display_title) refl

id_from_name : author_id platform austen (codes "jane austen") ≡ codes "name:jane austen"
unfolding author_id
id_from_name = refl

nameless_dropped :
    normalise_author ascii_unicode (some (codes "Jane Austen")) ≡ none
    → (clean_author platform austen ≡ none) × (first_author platform (austen ∷ []) ≡ none)
unfolding clean_author first_author
nameless_dropped h = (rw (h, clean_author) refl, h)

blank_subject_dropped :
    normalise_subject ascii_unicode (some (codes " ")) ≡ none
    → has_subject platform (codes " ") ≡ false
unfolding has_subject
blank_subject_dropped h = rw (h, has_subject) refl

ulysses_ne : ulysses ≢ []
ulysses_ne h = cc

-- A record that has an ISBN.
abbrev pub with_isbn : RawBook
with_isbn = record book { isbns = ulysses10 ∷ []; authors = []; subjects = []; published = none }

abbrev pub with_isbn_clean : CleanBook
with_isbn_clean = record {
  source = openlibrary;
  source_id = codes "OL1W";
  identity_key = codes "isbn:9780199535675";
  title = codes "Emma";
  normalised_title = codes "Emma";
  subtitle = none;
  isbn13 = some ulysses;
  published_year = none;
  page_count = none;
  language = none;
  publisher = none;
  description = none;
  cover_url = none;
  download_count = none;
  goodreads_average_rating = none;
  series = [];
  authors = [];
  normalised_first_author = none;
  subjects = [];
  source_updated = none;
  raw_payload = end;
}

emma_shown : display_title platform with_isbn ≡ codes "Emma"
unfolding display_title
emma_shown = rw (display_title, emma_plain) refl

emma_named : canonicalise platform with_isbn ≡ canonicalise_named platform with_isbn (codes "Emma")
unfolding canonicalise
emma_named =
    let titled : normalise_title ascii_unicode (some (display_title platform with_isbn))
        ≡ some (codes "Emma") =
      rw emma_shown emma_title in
    rw (canonicalise, titled) refl

emma_valid : clean_book_ok with_isbn_clean ≡ true
unfolding clean_book_ok fields_ok
emma_valid = rw ulysses_identity_ok refl

emma_drafted :
    draft platform with_isbn (codes "Emma") (codes "isbn:9780199535675") [] ≡ with_isbn_clean
unfolding draft first_author
emma_drafted =
    rw
      (
        draft,
        ulysses_selected,
        emma_shown,
        no_year ascii_unicode,
        no_language ascii_unicode platform.languages,
        no_subtitle,
      )
      refl

emma_validated :
    canonicalise_named platform with_isbn (codes "Emma") ≡ validate with_isbn with_isbn_clean
unfolding canonicalise_named
emma_validated =
    rw
      (
        canonicalise_named,
        ulysses_selected,
        isbn_key platform.sha256 ulysses (codes "Emma") (first_author platform [])
            (parse_year platform.unicode none) ulysses_ne,
        no_series,
        emma_drafted,
      )
      refl

pub with_isbn_is_clean : canonicalise platform with_isbn ≡ clean with_isbn_clean
unfolding validate
with_isbn_is_clean = emma_named ∙ emma_validated ∙ rw (validate, emma_valid) refl
