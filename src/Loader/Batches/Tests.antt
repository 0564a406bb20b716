-- ===== src/Loader/Batches/Tests.antt =====
-- Loads of the record that joins two books, and of batches after deadlocks.
use book_data_pipeline.Base.{
  ℕ, zero, suc, Text, codes, true, Option, none, some, List, [], ◌∷◌, ◌≡◌, refl, arith, Result, ok,
  err, All, ◌≤◌,
}
use book_data_pipeline.Identity.Document.{end, field}
use book_data_pipeline.Domain.{SourceName, openlibrary, CleanBook}
use book_data_pipeline.Canonicalise.Tests.{with_isbn, with_isbn_clean}
use book_data_pipeline.Loader.Tables.{Catalogue, Database}
use book_data_pipeline.Loader.Books.{Session, load_one}
use book_data_pipeline.Loader.Books.Tests.{platform, database, emma, two_books, after}
use book_data_pipeline.Loader.Books.Linked.{has_id}
use book_data_pipeline.Loader.Books.Places.{book_of}
use book_data_pipeline.Loader.Books.Provenance.{payload_of}
use book_data_pipeline.Loader.Batches.{
  Conflict, deadlock, Stopped, lost, begin, counted, rolled_back, no_counts, plus_counts, batched,
  load_records, load_batch, load, load_batches, default_batch_size, retry_batch, attempt_batch,
  batched_from, batch_size_of,
}
use book_data_pipeline.Loader.Batches.Split.{concatenated, IsSized, batched_partition}
use book_data_pipeline.Loader.Batches.Retries.{
  IsDeadlock, load_batch-deadlocks, load_batch-five_attempts,
}
use book_data_pipeline.Loader.Batches.Refinement.{updated_by_all, load_refines}
use book_data_pipeline.Loader.Batches.Invariants.{load-moves_books}

abbrev numbers : List ℕ
numbers = 5 ∷ 6 ∷ 7 ∷ []

batched_partition_example :
    (concatenated (batched 2 numbers) ≡ numbers) × All (IsSized 2) (batched 2 numbers)
batched_partition_example = batched_partition 2 numbers (omega arith)

abbrev pub calm : ℕ → Option Conflict
calm attempt = none

-- The first attempt loses a deadlock after one record.
abbrev one_deadlock : ℕ → Option Conflict
one_deadlock zero = some (deadlock 1)
one_deadlock (suc attempt) = none

below_one : (k : ℕ) → suc k ≤ 1 → IsDeadlock (one_deadlock k)
below_one zero h = (1, refl)
below_one (suc k) h = absurd (omega arith)

load_batch-deadlocks_example :
    load_batch platform database 5 one_deadlock (emma ∷ []) two_books
    ≡ load_batch platform database 5 calm (emma ∷ []) two_books
load_batch-deadlocks_example =
    load_batch-deadlocks platform database 5 1 one_deadlock (emma ∷ []) two_books (omega arith)
      below_one refl

-- The lost attempt ran the record on its working copy.
attempt_lost :
    attempt_batch platform database 5 (one_deadlock 0) (emma ∷ []) two_books.db ≡ lost after
unfolding attempt_batch begin load_records no_counts load_one book_data_pipeline.Domain.same_source
attempt_lost = refl

-- The sixth attempt would lose a deadlock.
abbrev late_deadlock : ℕ → Option Conflict
late_deadlock zero = none
late_deadlock (suc zero) = none
late_deadlock (suc (suc zero)) = none
late_deadlock (suc (suc (suc zero))) = none
late_deadlock (suc (suc (suc (suc zero)))) = none
late_deadlock (suc (suc (suc (suc (suc attempt))))) = some (deadlock 1)

below_five : (k : ℕ) → suc k ≤ 5 → late_deadlock k ≡ calm k
below_five zero h = refl
below_five (suc zero) h = refl
below_five (suc (suc zero)) h = refl
below_five (suc (suc (suc zero))) h = refl
below_five (suc (suc (suc (suc zero)))) h = refl
below_five (suc (suc (suc (suc (suc k))))) h = absurd (omega arith)

load_batch-five_attempts_example :
    load_batch platform database 5 late_deadlock (emma ∷ []) two_books
    ≡ load_batch platform database 5 calm (emma ∷ []) two_books
load_batch-five_attempts_example =
    load_batch-five_attempts platform database 5 late_deadlock calm (emma ∷ []) two_books below_five

abbrev loaded : Session
loaded = record { db = after.db; result = plus_counts no_counts after.result }

loads : load platform database 5 (λ n. calm) 1 (emma ∷ []) two_books.db ≡ ok loaded
unfolding load load_batches load_batch retry_batch attempt_batch begin counted rolled_back
    load_records no_counts batched batched_from batch_size_of load_one
    book_data_pipeline.Domain.same_source
loads = refl

load_refines_example :
    payload_of openlibrary (codes "OL1W") loaded.db.book_sources
    ≡ updated_by_all
        (emma ∷ [])
        openlibrary
        (codes "OL1W")
        (payload_of openlibrary (codes "OL1W") two_books.db.book_sources)
load_refines_example =
    load_refines platform database 5 (λ n. calm) 1 (emma ∷ []) two_books.db loaded openlibrary
      (codes "OL1W") (omega arith) loads

load-moves_books_example :
    (f : ℕ → ℕ) × ((t : SourceName) (j : Text) (id : ℕ)
      → book_of t j two_books.db.book_sources ≡ some id
      → (book_of t j loaded.db.book_sources ≡ some (f id)) × (has_id loaded.db.books (f id) ≡ true))
unfolding book_data_pipeline.Loader.Books.stub
load-moves_books_example =
    load-moves_books platform database 5 (λ n. calm) 1 (emma ∷ []) two_books.db loaded (refl, tt)
      loads

-- A database that maps every payload but the empty one to a record with an ISBN.
abbrev pub selective : Database
selective = record {
  map_payload = λ source payload. elim payload [ end ↦ none | field k v rest ↦ some with_isbn ];
  collate = λ a b. true;
  decimal_text = λ d'. [];
  integer_text = λ n. [];
}

abbrev pub no_books : Catalogue
no_books = record {
  books = [];
  book_sources = [];
  authors = [];
  author_sources = [];
  book_authors = [];
  subjects = [];
  book_subjects = [];
  series = [];
  series_sources = [];
  book_series = [];
  book_series_sources = [];
  next_id = 1;
}

abbrev loaded_one : Result Stopped Session → Session
loaded_one (ok s) = s
loaded_one (err e) = two_books

loads_one :
    load platform selective 0 (λ n. calm) default_batch_size (with_isbn_clean ∷ []) no_books
    ≡ ok (
        loaded_one (
          load platform selective 0 (λ n. calm) default_batch_size (with_isbn_clean ∷ []) no_books))
unfolding load load_batches load_batch retry_batch attempt_batch begin counted rolled_back
    load_records no_counts batched batched_from batch_size_of load_one
loads_one = refl
