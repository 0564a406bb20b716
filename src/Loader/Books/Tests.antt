-- ===== src/Loader/Books/Tests.antt =====
-- Two books that a record with an ISBN shows to be one.
use book_data_pipeline.Base.{codes, true, none, some, [], ◌∷◌, ◌≡◌, refl, ok, err}
use book_data_pipeline.Unicode.{ascii_unicode}
use book_data_pipeline.Platform.{Platform}
use book_data_pipeline.Identity.Document.{end}
use book_data_pipeline.Domain.{openlibrary, CleanBook}
use book_data_pipeline.Loader.Tables.{Database}
use book_data_pipeline.Loader.Books.{Session, load_one, stub}

abbrev pub platform : Platform
platform = record {
  unicode = ascii_unicode;
  languages = λ attribute code. none;
  sha256 = λ s. s;
  unescape = λ s. s;
  decimal_of = λ s. none;
}

-- A database whose stored payloads are all rejected, so that nothing is recomputed.
abbrev pub database : Database
database = record {
  map_payload = λ source payload. none;
  collate = λ a b. true;
  decimal_text = λ d. [];
  integer_text = λ n. [];
}

abbrev pub emma : CleanBook
emma = record {
  source = openlibrary;
  source_id = codes "OL1W";
  identity_key = codes "isbn:9780141439587";
  title = codes "Emma";
  normalised_title = codes "emma";
  subtitle = none;
  isbn13 = some (codes "9780141439587");
  published_year = none;
  page_count = none;
  language = none;
  publisher = none;
  description = none;
  cover_url = none;
  download_count = none;
  goodreads_average_rating = none;
  series = [];
  authors = [];
  normalised_first_author = none;
  subjects = [];
  source_updated = none;
  raw_payload = end;
}

-- The first book came from the same record when it had no ISBN; the second book has the ISBN.
abbrev pub two_books : Session
two_books = record {
  db = record {
    books =
        record (stub 0 1 emma) { isbn13 = none; identity_key = codes "fp:emma" }
        ∷ stub 0 2 emma
        ∷ [];
    book_sources =
        record {
          book_id = 1;
          source = openlibrary;
          source_id = codes "OL1W";
          source_updated = none;
          raw_payload = end;
          payload_hash = [];
          first_seen_at = 0;
          last_seen_at = 0;
        }
        ∷ [];
    authors = [];
    author_sources = [];
    book_authors = record { book_id = 1; author_id = 7; position = 0 } ∷ [];
    subjects = [];
    book_subjects = record { book_id = 1; subject_id = 8 } ∷ [];
    series = [];
    series_sources = [];
    book_series = [];
    book_series_sources = [];
    next_id = 9;
  };
  result = record {
    books_inserted = 0;
    books_updated = 0;
    books_unchanged = 0;
    sources_linked = 0;
    merges = 0;
    rejected = 0;
  };
}

abbrev pub after : Session
after = elim (load_one platform database 5 emma two_books) [ ok s ↦ s | err e ↦ two_books ]

pub loads_emma : load_one platform database 5 emma two_books ≡ ok after
unfolding load_one book_data_pipeline.Domain.same_source
loads_emma = refl

merges_emma : after.result.merges ≡ 1
unfolding load_one book_data_pipeline.Domain.same_source
merges_emma = refl

-- The link of the first book to an author goes to the second book.
moves_author : after.db.book_authors ≡ record { book_id = 2; author_id = 7; position = 0 } ∷ []
unfolding load_one book_data_pipeline.Domain.same_source
    book_data_pipeline.Loader.People.same_book_author
moves_author = refl
