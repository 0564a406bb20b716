-- ===== src/Loader/Batches/Invariants.antt =====
-- What every record of a load keeps, the load keeps.
use mathlib.Core.Path.{subst}
use book_data_pipeline.Base.{
  ℕ, suc, Text, true, Option, some, List, [], ◌∷◌, ◌≡◌, sym, inl, inr, Bool-cases, ok, Holds,
  Holds-bind, Holds-of, Holds_ok,
}
use book_data_pipeline.Platform.{Platform}
use book_data_pipeline.Domain.{SourceName, CleanBook}
use book_data_pipeline.Loader.Tables.{Book, BookSource, Catalogue, Database, LoadError}
use book_data_pipeline.Loader.Books.{Session, is_of, load_one}
use book_data_pipeline.Loader.Books.Linked.{has_id, AreLinked, IsLinked}
use book_data_pipeline.Loader.Books.Places.{book_of}
use book_data_pipeline.Loader.Books.Moves.{Follows, load_one-Follows}
use book_data_pipeline.Loader.Books.Ready.{load_one-IsLinked}
use book_data_pipeline.Loader.Batches.{
  Conflict, no_counts, begin, counted, batch_size_of, batched, load_records, load_batch,
  load_batches, load,
}
use book_data_pipeline.Loader.Batches.Attempts.{retry_batch-ok}

some_injective : (a b : ℕ) → some a ≡ some b → a ≡ b
some_injective a b h = cc

module _ (p : Platform) (d : Database) (now : ℕ) (I : Catalogue → Type 0)
    (each : (r : CleanBook) (s : Session)
      → I s.db
      → Holds {E = LoadError} (λ s'. I s'.db) (load_one p d now r s)) where
  kept_by_records :
      (rs : List CleanBook) (s : Session)
      → I s.db
      → Holds (λ s'. I s'.db) (load_records p d now rs s)
  unfolding load_records
  kept_by_records [] s h = h
  kept_by_records (r ∷ rs) s h =
      Holds-bind (λ s'. I s'.db) (λ s'. I s'.db) (load_one p d now r s) (load_records p d now rs)
        (each r s h) (λ s' _ k. kept_by_records rs s' k)

  kept_by_batch :
      (conflicts : ℕ → Option Conflict) (rs : List CleanBook) (s : Session)
      → I s.db
      → Holds (λ s'. I s'.db) (load_batch p d now conflicts rs s)
  unfolding load_batch begin counted
  kept_by_batch conflicts rs s h =
      Holds-of (λ s'. I s'.db) (load_batch p d now conflicts rs s)
        (λ out e.
          let (s', run, same) = retry_batch-ok p d now 4 0 conflicts rs s out e in
          let kept =
            Holds_ok (λ o. I o.db) (load_records p d now rs (begin s.db)) s'
              (kept_by_records rs (begin s.db) h) run in
          subst (λ o. I o.db) (sym same) kept)

  kept_by_batches :
      (conflicts : ℕ → ℕ → Option Conflict) (n : ℕ) (batches : List (List CleanBook)) (s : Session)
      → I s.db
      → Holds (λ s'. I s'.db) (load_batches p d now conflicts n batches s)
  unfolding load_batches
  kept_by_batches conflicts n [] s h = h
  kept_by_batches conflicts n (rs ∷ batches) s h =
      Holds-bind (λ s'. I s'.db) (λ s'. I s'.db) (load_batch p d now (conflicts n) rs s)
        (load_batches p d now conflicts (suc n) batches) (kept_by_batch (conflicts n) rs s h)
        (λ s' _ k. kept_by_batches conflicts (suc n) batches s' k)

  load_keeps :
      (conflicts : ℕ → ℕ → Option Conflict) (size : ℕ) (records : List CleanBook) (db : Catalogue)
      (s' : Session)
      → I db
      → load p d now conflicts size records db ≡ ok s'
      → I s'.db
  unfolding load
  load_keeps conflicts size records db s' h e =
      Holds_ok (λ s'. I s'.db) (load p d now conflicts size records db) s'
        (kept_by_batches conflicts 0 (batched (batch_size_of size) records)
          (record { db = db; result = no_counts }) h)
        e

book_of-has_id :
    (t : SourceName) (j : Text) (books : List Book) (rows : List BookSource) (id : ℕ)
    → AreLinked books rows
    → book_of t j rows ≡ some id
    → has_id books id ≡ true
book_of-has_id t j books [] id linked h = cc
book_of-has_id t j books (r ∷ rows) id linked h = elim (Bool-cases (is_of t j r)) [
  | inl e ↦
      let mine : some r.book_id ≡ some id = rw e at h in
      subst (λ i. has_id books i ≡ true) (some_injective r.book_id id mine) linked.0
  | inr e ↦ book_of-has_id t j books rows id linked.1 (rw e at h)
]

-- The rows are linked, and one map on the books says where those at the start went.
abbrev pub IsMoved : Catalogue → Catalogue → Type 0
IsMoved start db = IsLinked db × (f : ℕ → ℕ) × Follows f start.book_sources db.book_sources

load_one-IsMoved :
    (p : Platform) (d : Database) (now : ℕ) (start : Catalogue) (r : CleanBook) (s : Session)
    → IsMoved start s.db
    → Holds (λ s'. IsMoved start s'.db) (load_one p d now r s)
load_one-IsMoved p d now start r s (linked, f, follows) =
    Holds-of (λ s'. IsMoved start s'.db) (load_one p d now r s)
      (λ s' e.
        let linked' =
          Holds_ok _ (load_one p d now r s) s' (load_one-IsLinked p d now r s linked) e in
        let (g, follows') = Holds_ok _ (load_one p d now r s) s' (load_one-Follows p d now r s) e in
        (linked', (λ id. g (f id)), λ t j id h. follows' t j (f id) (follows t j id h)))

-- A load that ends without an error moves whole books: where every source row was linked to a book
-- of the catalogue, one map on the books says where the rows of each book are linked after it, so
-- none of them is lost, rows of one book stay together, and the book that they go to is in the
-- catalogue, whatever was merged, promoted or retried on the way.
pub load-moves_books :
    (p : Platform) (d : Database) (now : ℕ) (conflicts : ℕ → ℕ → Option Conflict) (size : ℕ)
    (records : List CleanBook) (db : Catalogue) (s' : Session)
    → IsLinked db
    → load p d now conflicts size records db ≡ ok s'
    → (f : ℕ → ℕ) × ((t : SourceName) (j : Text) (id : ℕ)
        → book_of t j db.book_sources ≡ some id
        → (book_of t j s'.db.book_sources ≡ some (f id)) × (has_id s'.db.books (f id) ≡ true))
load-moves_books p d now conflicts size records db s' linked e =
    let (linked', f, follows) =
      load_keeps p d now (IsMoved db) (load_one-IsMoved p d now db) conflicts size records db s'
        (linked, (λ id. id), λ t j id h. h) e in
    (
      f,
      λ t j id h. (
        follows t j id h,
        book_of-has_id t j s'.db.books s'.db.book_sources (f id) linked' (follows t j id h),
      ),
    )
