-- ===== src/Loader/Books/Moves.antt =====
-- Which book the rows of a source belong to while records are loaded.
use book_data_pipeline.Base.{
  ℕ, Text, false, ◌&&◌, ◌==◌, some, List, find_first, is_empty, text_eq, ◌≡◌, ◌∙◌, ap, sym, arith,
  inl, inr, Bool-cases, Option-cases, Holds, Holds-bind, Holds-of, Holds_ok,
}
use book_data_pipeline.Platform.{Platform}
use book_data_pipeline.Domain.{SourceName, same_source, CleanBook}
use book_data_pipeline.Loader.Tables.{Book, BookSource, Database}
use book_data_pipeline.Loader.Books.{
  Session, book_id_for_source, find_or_create_book, merge, delete_book, promote, reconcile_isbn,
  isbn_eq, has_isbn, upsert_source, book_for, load_one, recompute,
}
use book_data_pipeline.Loader.Books.Provenance.{merged_source}
use book_data_pipeline.Loader.Books.Kept.{
  recompute-Sources, find_or_create_book_sources, promote_sources,
}
use book_data_pipeline.Loader.Books.Places.{
  book_of, moved, book_of-moved, book_of-upsert, book_of_same, book_id_for_source_lem,
}

-- Every row that was there is there, and its book is where the map takes it.
abbrev pub Follows : (ℕ → ℕ) → List BookSource → List BookSource → Type 0
Follows f rows rows' =
    (t : SourceName) (j : Text) (id : ℕ)
    → book_of t j rows ≡ some id
    → book_of t j rows' ≡ some (f id)

-- One map on the books says where all the rows went, and the record's book goes to the one found.
abbrev Relocates : CleanBook → Session → ℕ × Session → Type 0
Relocates r s out =
    (f : ℕ → ℕ) × Follows f s.db.book_sources out.1.db.book_sources
    × ((id : ℕ) → book_id_for_source r s.db ≡ some id → f id ≡ out.0)

stays :
    (r : CleanBook) (s : Session) (id : ℕ)
    → book_id_for_source r s.db ≡ some id
    → Relocates r s (id, s)
stays r s id e = ((λ i. i), (λ t j i h. h), λ i h. cc)

merges :
    (survivor orphan : ℕ) (r : CleanBook) (s : Session)
    → (survivor == orphan) ≡ false
    → book_id_for_source r s.db ≡ some orphan
    → Relocates r s (survivor, merge survivor orphan s)
unfolding merge delete_book
merges survivor orphan r s h e = (
  moved survivor orphan,
  (λ t j i k. book_of-moved survivor orphan t j s.db.book_sources i h k),
  λ i k. (let same : orphan ≡ i = cc in rw (sym same) (ground arith)),
)

same_rows :
    (r : CleanBook) (s : Session) (out : ℕ × Session)
    → out.1.db.book_sources ≡ s.db.book_sources
    → ((id : ℕ) → book_id_for_source r s.db ≡ some id → id ≡ out.0)
    → Relocates r s out
same_rows r s out e h = ((λ i. i), (λ t j i k. ap (book_of t j) e ∙ k), h)

promote_id : (id : ℕ) (r : CleanBook) (s : Session) → Holds (λ out. out.0 ≡ id) (promote id r s)
unfolding promote
promote_id id r s = ground arith

promote-Relocates :
    (id : ℕ) (r : CleanBook) (s : Session)
    → book_id_for_source r s.db ≡ some id
    → Holds (Relocates r s) (promote id r s)
promote-Relocates id r s e = Holds-of (Relocates r s) (promote id r s) (λ out k.
    let rows = Holds_ok _ (promote id r s) out (promote_sources id r s) k in
    let own = Holds_ok _ (promote id r s) out (promote_id id r s) k in
    same_rows r s out rows (λ i h. cc))

reconcile_isbn-Relocates :
    (id : ℕ) (r : CleanBook) (i : Text) (s : Session)
    → book_id_for_source r s.db ≡ some id
    → Holds (Relocates r s) (reconcile_isbn id r i s)
unfolding reconcile_isbn
reconcile_isbn-Relocates id r i s own =
    elim (Option-cases (find_first (λ (b : Book). b.id == id) s.db.books)) [
      | inl e ↦ rw (e, reconcile_isbn) tt
      | inr (current, e) ↦ elim (Bool-cases (isbn_eq current.isbn13 i)) [
        | inl same ↦ rw (e, reconcile_isbn, same) (stays r s id own)
        | inr other ↦ elim (Option-cases (find_first (has_isbn i) s.db.books)) [
          | inl none' ↦ rw (e, reconcile_isbn, other, none') (promote-Relocates id r s own)
          | inr (owner, found) ↦ elim (Bool-cases (owner.id == id)) [
            | inl mine ↦ rw (e, reconcile_isbn, other, found, mine) (stays r s id own)
            | inr apart ↦
                rw (e, reconcile_isbn, other, found, apart) (merges owner.id id r s apart own)
          ]
        ]
      ]
    ]

module _ (p : Platform) (d : Database) (now : ℕ) where
  book_for-Relocates : (r : CleanBook) (s : Session) → Holds (Relocates r s) (book_for p d now r s)
  unfolding book_for
  book_for-Relocates r s = elim (Option-cases (book_id_for_source r s.db)) [
    | inl e ↦
        rw (e, book_for)
          (Holds-of (Relocates r s) (find_or_create_book now r s) (λ out k.
            same_rows r s out
              (Holds_ok _ (find_or_create_book now r s) out (find_or_create_book_sources now r s) k)
              (λ i h. cc)))
    | inr (id, e) ↦ elim (Option-cases r.isbn13) [
      | inl n ↦ rw (e, book_for, n) (stays r s id e)
      | inr (i, n) ↦ elim (Bool-cases (is_empty i)) [
        | inl blank ↦ rw (e, book_for, n, blank) (stays r s id e)
        | inr full ↦ rw (e, book_for, n, full) (reconcile_isbn-Relocates id r i s e)
      ]
    ]
  ]

  upsert_source-Follows :
      (r : CleanBook) (s : Session) (out : ℕ × Session) (rel : Relocates r s out)
      → Follows rel.0 s.db.book_sources (upsert_source p d now out.0 r out.1).db.book_sources
  unfolding upsert_source merged_source
  upsert_source-Follows r s out (f, follows, goes) t j id h =
      let after = book_of-upsert _ t j out.1.db.book_sources in
      after ∙ elim (Bool-cases (same_source r.source t && text_eq r.source_id j)) [
        | inl e ↦
            let mine = goes id (
              book_id_for_source_lem r s
              ∙ book_of_same r.source t r.source_id j s.db.book_sources e
              ∙ h) in
            rw e (ap some (sym mine))
        | inr e ↦ rw e (follows t j id h)
      ]

  -- A record that is loaded moves whole books: one map on the books takes every old row to its book.
  pub load_one-Follows :
      (r : CleanBook) (s : Session)
      → Holds
          (λ s'. (f : ℕ → ℕ) × Follows f s.db.book_sources s'.db.book_sources)
          (load_one p d now r s)
  unfolding load_one
  load_one-Follows r s =
      let Goal : Session → Type 0 =
        λ s'. (f : ℕ → ℕ) × Follows f s.db.book_sources s'.db.book_sources in
      Holds-bind (Relocates r s) Goal (book_for p d now r s) _ (book_for-Relocates r s)
        (λ out _ rel.
          let after = upsert_source p d now out.0 r out.1 in
          Holds-of Goal (recompute p d now out.0 after) (λ s' e.
            let kept =
              Holds_ok _ (recompute p d now out.0 after) s' (recompute-Sources p d now out.0 after)
                e in
            (
              rel.0,
              λ t j id h. ap (book_of t j) kept ∙ upsert_source-Follows r s out rel t j id h,
            )))
