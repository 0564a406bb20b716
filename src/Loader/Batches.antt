-- ===== src/Loader/Batches.antt =====
-- load/postgres.py: batches, each in one transaction that is replayed after a deadlock.
pub mod Split
pub mod Attempts
pub mod Retries
pub mod Refinement
pub mod Invariants
pub mod Tests
use book_data_pipeline.Base.{
  ℕ, zero, suc, ◌+◌, ◌-◌, ◌*◌, ◌%◌, Bool, true, false, ltb, if◌then◌else◌, Option, none, some, List,
  [], ◌∷◌, length, take, drop, Result, ok, err, ◌>>=◌,
}
use book_data_pipeline.Platform.{Platform}
use book_data_pipeline.Domain.{CleanBook}
use book_data_pipeline.Loader.Tables.{Catalogue, LoadResult, LoadError, Database}
use book_data_pipeline.Loader.Books.{Session, load_one}

abbrev pub default_batch_size : ℕ
default_batch_size = 1000

abbrev pub deadlock_retries : ℕ
deadlock_retries = 4

-- `_batched`: `left` bounds the number of batches. A size of 0 gives none.
unfoldable pub batched_from : {A : Type 0} → ℕ → ℕ → List A → List (List A)
batched_from zero size records = []
batched_from (suc left) size records =
    let rest = batched_from left size (drop size records) in
    elim (take size records) [ [] ↦ [] | r ∷ rs ↦ (r ∷ rs) ∷ rest ]

-- Every batch but the last takes a record, so there are at most as many batches as records.
unfoldable pub batched : {A : Type 0} → ℕ → List A → List (List A)
unfolding batched_from
batched size records = batched_from (length records) size records

-- `min(batch_size, DEFAULT_BATCH_SIZE)`
unfoldable pub batch_size_of : ℕ → ℕ
batch_size_of n = if ltb default_batch_size n then default_batch_size else n

unfoldable pub no_counts : LoadResult
no_counts = record {
  books_inserted = 0;
  books_updated = 0;
  books_unchanged = 0;
  sources_linked = 0;
  merges = 0;
  rejected = 0;
}

-- The counts of a batch added to the total.
pub plus_counts : LoadResult → LoadResult → LoadResult
plus_counts a b = record {
  books_inserted = a.books_inserted + b.books_inserted;
  books_updated = a.books_updated + b.books_updated;
  books_unchanged = a.books_unchanged + b.books_unchanged;
  sources_linked = a.sources_linked + b.sources_linked;
  merges = a.merges + b.merges;
  rejected = a.rejected + b.rejected;
}

-- Where the database intervenes in an attempt: it loses a deadlock, or fails for another reason,
-- after a number of records (at the commit, where that is all of them).
pub data Conflict : Type 0 where
  deadlock other_error : ℕ → Conflict

-- Why a load stops.
pub data Stopped : Type 0 where
  gave_up : Stopped
  raised : LoadError → Stopped

-- How an attempt ends: with the catalogue and the counts that are committed, with those that a
-- deadlock undoes, or with what is raised.
pub data Attempt : Type 0 where
  committed lost : Session → Attempt
  failed : Stopped → Attempt

-- The start of an attempt: the catalogue at hand, and a result of its own.
pub begin : Catalogue → Session
unfolding no_counts
begin db = record { db = db; result = no_counts }

-- After the commit the counts of the attempt are added to the total.
pub counted : Session → Session → Session
unfolding plus_counts
counted total attempted = record {
  db = attempted.db;
  result = plus_counts total.result attempted.result;
}

-- After a lost attempt the transaction is rolled back, and the counts of the attempt are left out.
pub rolled_back : Session → Session → Session
rolled_back total attempted = record { db = total.db; result = total.result }

module _ (p : Platform) (d : Database) (now : ℕ) where
  -- The records of a batch in one transaction.
  unfoldable pub load_records : List CleanBook → Session → Result LoadError Session
  load_records [] s = ok s
  load_records (r ∷ rest) s = load_one p d now r s >>= λ s'. load_records rest s'

  -- One attempt: the records run in a transaction on the catalogue, into a throwaway result.
  unfoldable pub attempt_batch : Option Conflict → List CleanBook → Catalogue → Attempt
  unfolding load_records begin
  attempt_batch none batch db = elim (load_records batch (begin db)) [
    | ok s ↦ committed s
    | err e ↦ failed (raised e)
  ]
  attempt_batch (some (deadlock n)) batch db = elim (load_records (take n batch) (begin db)) [
    | ok s ↦ lost s
    | err e ↦ failed (raised e)
  ]
  attempt_batch (some (other_error n)) batch db = elim (load_records (take n batch) (begin db)) [
    | ok s ↦ failed gave_up
    | err e ↦ failed (raised e)
  ]

  -- The attempts left after this one; `conflicts n` is what the database does to attempt `n`.
  unfoldable pub retry_batch :
      ℕ → ℕ → (ℕ → Option Conflict) → List CleanBook → Session → Result Stopped Session
  unfolding attempt_batch counted rolled_back
  retry_batch zero attempt conflicts batch s = elim (attempt_batch (conflicts attempt) batch s.db) [
    | committed s' ↦ ok (counted s s')
    | lost s' ↦ err gave_up
    | failed x ↦ err x
  ]
  retry_batch (suc left) attempt conflicts batch s =
      elim (attempt_batch (conflicts attempt) batch s.db) [
        | committed s' ↦ ok (counted s s')
        | lost s' ↦ retry_batch left (suc attempt) conflicts batch (rolled_back s s')
        | failed x ↦ err x
      ]

  -- `_load_batch`
  unfoldable pub load_batch :
      (ℕ → Option Conflict) → List CleanBook → Session → Result Stopped Session
  unfolding retry_batch
  load_batch conflicts batch s = retry_batch deadlock_retries 0 conflicts batch s

  -- The loop of `load`; the conflicts are those of each batch.
  unfoldable pub load_batches :
      (ℕ → ℕ → Option Conflict) → ℕ → List (List CleanBook) → Session → Result Stopped Session
  unfolding load_batch
  load_batches conflicts n [] s = ok s
  load_batches conflicts n (batch ∷ rest) s =
      load_batch (conflicts n) batch s >>= λ s'. load_batches conflicts (suc n) rest s'

  -- `load`
  unfoldable pub load :
      (ℕ → ℕ → Option Conflict) → ℕ → List CleanBook → Catalogue → Result Stopped Session
  unfolding load_batches batched no_counts batch_size_of
  load conflicts batch_size records db =
      load_batches conflicts 0 (batched (batch_size_of batch_size) records)
        (record { db = db; result = no_counts })
