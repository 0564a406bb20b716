-- ===== src/Loader/Books.antt =====
-- load/postgres.py: one record into its book, and batches of records.
pub mod Provenance
pub mod Kept
pub mod Places
pub mod Moves
pub mod Linked
pub mod Ready
pub mod Tests
pub mod Refinement
use book_data_pipeline.Base.{
  ℕ, zero, suc, ◌+◌, ◌-◌, Text, codes, Bool, true, false, not, ◌&&◌, ◌||◌, ◌==◌, leb, if◌then◌else◌,
  Option, none, some, List, [], ◌∷◌, ◌++◌, map, any, keep, collect, find_first, take, drop,
  is_empty, starts_with, text_eq, str_of, ℤ, Result, ok, err, ◌>>=◌,
}
use book_data_pipeline.Base.Sorting.{sort}
use book_data_pipeline.Platform.{Platform}
use book_data_pipeline.Identity.{payload_hash, content_hash}
use book_data_pipeline.Identity.Document.{Json, num, str, other, Fields}
use book_data_pipeline.Domain.{
  SourceName, source_value, same_source, gutendex, goodreads, googlebooks, openlibrary, Decimal,
  CleanBook,
}
use book_data_pipeline.Canonicalise.{
  canonicalise, Canonicalised, clean, rejected, identity_raised, series_raised,
}
use book_data_pipeline.Canonicalise.Merge.{MergeError, merge_candidates, onto_identity}
use book_data_pipeline.Loader.Tables.{
  Book, BookSource, BookAuthor, BookSubject, BookSerial, BookSerialSource, Catalogue, LoadResult,
  LoadError, no_row, unique_violation, merge_raised, Database, update_where, delete_where, upsert,
  insert_all,
}
use book_data_pipeline.Loader.People.{
  sync_authors, sync_subjects, same_book_author, same_book_subject,
}
use book_data_pipeline.Loader.Serials.{sync_series}

-- The transaction: the catalogue and the counts of the batch.
pub record Session : Type 0 where
  pub db : Catalogue
  pub result : LoadResult

-- The source and the id are those of the row.
pub is_of : SourceName → Text → BookSource → Bool
is_of source i row = same_source row.source source && text_eq row.source_id i

-- `_locked_book_id_for_source`
pub book_id_for_source : CleanBook → Catalogue → Option ℕ
unfolding is_of
book_id_for_source record' db =
    elim (find_first (is_of record'.source record'.source_id) db.book_sources) [
      | none ↦ none
      | some row ↦ some row.book_id
    ]

pub has_isbn : Text → Book → Bool
has_isbn i b = elim b.isbn13 [ none ↦ false | some j ↦ text_eq j i ]

-- The stub of a record.
unfoldable pub stub : ℕ → ℕ → CleanBook → Book
stub now id record' = record {
  id = id;
  identity_key = record'.identity_key;
  isbn13 = record'.isbn13;
  title = record'.title;
  subtitle = none;
  published_year = none;
  publisher = none;
  page_count = none;
  download_count = none;
  goodreads_average_rating = none;
  language = none;
  description = none;
  cover_url = none;
  series_search_text = [];
  content_hash = [];
  updated_at = now;
}

-- Whether another row has the ISBN of this one.
pub takes_isbn : Option Text → List Book → Bool
unfolding has_isbn
takes_isbn none books = false
takes_isbn (some i) books = any (has_isbn i) books

-- `_find_or_create_book`
pub find_or_create_book : ℕ → CleanBook → Session → Result LoadError (ℕ × Session)
unfolding stub takes_isbn
find_or_create_book now record' s =
    elim (find_first (λ (b : Book). text_eq b.identity_key record'.identity_key) s.db.books) [
      | some b ↦ ok (b.id, s)
      | none ↦
          if takes_isbn record'.isbn13 s.db.books
          then err unique_violation
          else ok (
            s.db.next_id,
            record {
              db = record s.db {
                books = s.db.books ++ stub now s.db.next_id record' ∷ [];
                next_id = suc s.db.next_id;
              };
              result = record s.result { books_inserted = suc s.result.books_inserted };
            },
          )
    ]

-- The rows of one book, moved to another.
pub moved_authors : ℕ → ℕ → List BookAuthor → List BookAuthor
moved_authors survivor orphan rows =
    map (λ (l : BookAuthor). record l { book_id = survivor; position = 0 })
      (keep (λ l. l.book_id == orphan) rows)

pub moved_subjects : ℕ → ℕ → List BookSubject → List BookSubject
moved_subjects survivor orphan rows =
    map (λ (l : BookSubject). record l { book_id = survivor })
      (keep (λ l. l.book_id == orphan) rows)

-- `DELETE FROM books` of one id, with what cascades from it.
pub delete_book : ℕ → Catalogue → Catalogue
unfolding is_of
delete_book id db = record db {
  books = delete_where (λ b. b.id == id) db.books;
  book_sources = delete_where (λ r. r.book_id == id) db.book_sources;
  book_authors = delete_where (λ l. l.book_id == id) db.book_authors;
  book_subjects = delete_where (λ l. l.book_id == id) db.book_subjects;
  book_series = delete_where (λ m. m.book_id == id) db.book_series;
  book_series_sources =
      delete_where
        (λ a.
          a.book_id == id
          || any (λ r. r.book_id == id && is_of a.source a.source_book_id r) db.book_sources)
        db.book_series_sources;
}

-- `_merge`: the source links move first, then the links to authors and subjects.
pub merge : ℕ → ℕ → Session → Session
unfolding moved_authors moved_subjects delete_book
merge survivor orphan s =
    let moved : Catalogue = record s.db {
      book_sources =
          update_where (λ r. r.book_id == orphan) (λ r. record r { book_id = survivor })
            s.db.book_sources;
      book_authors =
          delete_where (λ l. l.book_id == orphan)
            (insert_all same_book_author (moved_authors survivor orphan s.db.book_authors)
              s.db.book_authors);
      book_subjects =
          delete_where (λ l. l.book_id == orphan)
            (insert_all same_book_subject (moved_subjects survivor orphan s.db.book_subjects)
              s.db.book_subjects);
    } in
    record {
      db = delete_book orphan moved;
      result = record s.result { merges = suc s.result.merges };
    }

-- The promotion of one book to an ISBN, which fails where another book has the identity.
pub promote : ℕ → CleanBook → Session → Result LoadError (ℕ × Session)
promote book_id record' s =
    if any (λ (b : Book). not (b.id == book_id) && text_eq b.identity_key record'.identity_key)
      s.db.books
    then err unique_violation
    else ok (
      book_id,
      record s {
        db = record s.db {
          books =
              update_where (λ b. b.id == book_id)
                (λ b. record b { isbn13 = record'.isbn13; identity_key = record'.identity_key })
                s.db.books;
        };
      },
    )

pub isbn_eq : Option Text → Text → Bool
isbn_eq none i = false
isbn_eq (some j) i = text_eq j i

-- `_reconcile_isbn`, for a record with the given ISBN: the book that survives.
pub reconcile_isbn : ℕ → CleanBook → Text → Session → Result LoadError (ℕ × Session)
unfolding has_isbn isbn_eq promote merge
reconcile_isbn book_id record' i s = elim (find_first (λ (b : Book). b.id == book_id) s.db.books) [
  | none ↦ err no_row
  | some current ↦
      if isbn_eq current.isbn13 i
      then ok (book_id, s)
      else elim (find_first (has_isbn i) s.db.books) [
        | none ↦ promote book_id record' s
        | some owner ↦
            if owner.id == book_id then ok (book_id, s) else ok (owner.id, merge owner.id book_id s)
      ]
]

module _ (p : Platform) (d : Database) where
  -- `_upsert_source`
  pub upsert_source : ℕ → ℕ → CleanBook → Session → Session
  unfolding is_of
  upsert_source now book_id record' s = record {
    db = record s.db {
      book_sources =
          upsert (λ old excluded. is_of excluded.source excluded.source_id old)
            (λ old excluded. record old {
              book_id = excluded.book_id;
              raw_payload = excluded.raw_payload;
              payload_hash = excluded.payload_hash;
              source_updated = excluded.source_updated;
              last_seen_at = excluded.first_seen_at;
            })
            (record {
              book_id = book_id;
              source = record'.source;
              source_id = record'.source_id;
              source_updated = record'.source_updated;
              raw_payload = record'.raw_payload;
              payload_hash = payload_hash p.sha256 record'.raw_payload;
              first_seen_at = now;
              last_seen_at = now;
            })
            s.db.book_sources;
    };
    result = record s.result { sources_linked = suc s.result.sources_linked };
  }

  -- `order_by(source, source_id)`
  pub source_before : BookSource → BookSource → Bool
  source_before a b =
      if text_eq (source_value a.source) (source_value b.source)
      then d.collate a.source_id b.source_id
      else d.collate (source_value a.source) (source_value b.source)

  -- The records that the stored payloads give.
  pub replayed : List BookSource → Result LoadError (List CleanBook)
  replayed [] = ok []
  replayed (r ∷ rest) = elim (d.map_payload r.source r.raw_payload) [
    | none ↦ replayed rest
    | some raw ↦ elim (canonicalise p raw) [
      | rejected x ↦ replayed rest
      | clean b ↦ replayed rest >>= λ books. ok (b ∷ books)
      | identity_raised e ↦ err (LoadError.identity_raised e)
      | series_raised e ↦ err (LoadError.series_raised e)
    ]
  ]

  -- The candidates of `_replay`
  pub replay : ℕ → Catalogue → Result LoadError (List CleanBook)
  unfolding source_before replayed
  replay book_id db =
      replayed (sort source_before (keep (λ r. r.book_id == book_id) db.book_sources))

  -- The Gutendex download count, of the first candidate from there.
  pub gutendex_downloads : List CleanBook → Option ℕ
  gutendex_downloads [] = none
  gutendex_downloads (c ∷ rest) =
      if same_source c.source gutendex then c.download_count else gutendex_downloads rest

  pub text_value : Option Text → Option Json
  text_value none = none
  text_value (some t) = some (str t)

  -- `values`: the canonical fields as `content_hash` prints them.
  pub canonical_values : CleanBook → Option ℕ → List (Text × Option Json)
  unfolding text_value
  canonical_values m downloads =
      (codes "title", some (str m.title))
      ∷ (codes "subtitle", text_value m.subtitle)
      ∷ (codes "isbn13", text_value m.isbn13)
      ∷ (
        codes "published_year",
        elim m.published_year [ none ↦ none | some y ↦ some (num (str_of y)) ],
      )
      ∷ (codes "publisher", text_value m.publisher)
      ∷ (
        codes "page_count",
        elim m.page_count [ none ↦ none | some n ↦ some (num (d.integer_text n)) ],
      )
      ∷ (codes "download_count", elim downloads [ none ↦ none | some n ↦ some (num (str_of n)) ])
      ∷ (
        codes "goodreads_average_rating",
        elim m.goodreads_average_rating [ none ↦ none | some x ↦ some (other (d.decimal_text x)) ],
      )
      ∷ (codes "language", text_value m.language)
      ∷ (codes "description", text_value m.description)
      ∷ (codes "cover_url", text_value m.cover_url)
      ∷ []

  -- The update of a book's canonical fields.
  pub rewritten : ℕ → CleanBook → Option ℕ → Text → Book → Book
  rewritten now m downloads digest b = record b {
    title = m.title;
    subtitle = m.subtitle;
    isbn13 = m.isbn13;
    published_year = m.published_year;
    publisher = m.publisher;
    page_count = m.page_count;
    download_count = downloads;
    goodreads_average_rating = m.goodreads_average_rating;
    language = m.language;
    description = m.description;
    cover_url = m.cover_url;
    content_hash = digest;
    updated_at = now;
  }

  -- The part of `_recompute` that writes the book: only where the digest differs.
  pub write_canonical : ℕ → Book → CleanBook → Option ℕ → Session → Result LoadError Session
  unfolding canonical_values rewritten takes_isbn
  write_canonical now current m downloads s =
      let digest = content_hash p.sha256 (canonical_values m downloads) in
      if text_eq digest current.content_hash
      then ok
          (record s { result = record s.result { books_unchanged = suc s.result.books_unchanged } })
      else if takes_isbn m.isbn13 (delete_where (λ b. b.id == current.id) s.db.books)
      then err unique_violation
      else ok (record {
        db = record s.db {
          books =
              update_where (λ b. b.id == current.id) (rewritten now m downloads digest) s.db.books;
        };
        result =
            if is_empty current.content_hash
            then s.result
            else record s.result { books_updated = suc s.result.books_updated };
      })

  -- `_recompute`, once there are candidates.
  pub recompute_from : ℕ → Book → List CleanBook → Session → Result LoadError Session
  unfolding write_canonical gutendex_downloads
  recompute_from now current candidates s =
      elim (merge_candidates (map (onto_identity current.identity_key) candidates) none) [
        | err e ↦ err (merge_raised e)
        | ok m ↦ write_canonical now current m (gutendex_downloads candidates) s >>= λ s'.
            sync_series p d now current.id candidates
              (sync_subjects p current.id m.subjects (sync_authors p current.id candidates s'.db))
            >>= λ db. ok (record s' { db = db })
      ]

  -- `_recompute`
  pub recompute : ℕ → ℕ → Session → Result LoadError Session
  unfolding replay recompute_from
  recompute now book_id s = elim (find_first (λ (b : Book). b.id == book_id) s.db.books) [
    | none ↦ ok s
    | some current ↦ replay book_id s.db >>= λ candidates. elim candidates [
      | [] ↦ ok s
      | c ∷ cs ↦ recompute_from now current (c ∷ cs) s
    ]
  ]

  -- The book that a record belongs to.
  pub book_for : ℕ → CleanBook → Session → Result LoadError (ℕ × Session)
  unfolding book_id_for_source reconcile_isbn find_or_create_book
  book_for now record' s = elim (book_id_for_source record' s.db) [
    | none ↦ find_or_create_book now record' s
    | some book_id ↦ elim record'.isbn13 [
      | none ↦ ok (book_id, s)
      | some i ↦ if is_empty i then ok (book_id, s) else reconcile_isbn book_id record' i s
    ]
  ]

  -- `_load_one`
  unfoldable pub load_one : ℕ → CleanBook → Session → Result LoadError Session
  unfolding book_for upsert_source recompute
  load_one now record' s =
      book_for now record' s >>= λ out. recompute now out.0 (upsert_source now out.0 record' out.1)
