-- ===== src/Loader/Books/Kept.antt =====
-- What the steps of a load leave of the payloads of the sources.
use book_data_pipeline.Base.{
  ℕ, Text, false, ◌==◌, Option, none, List, [], ◌∷◌, map, find_first, is_empty, ◌≡◌, ◌∙◌, refl, ap,
  arith, inl, inr, Bool-cases, Option-cases, ok, ◌>>=◌, Result-cases, Holds, Holds-bind, Holds-of,
  Holds_ok,
}
use book_data_pipeline.Platform.{Platform}
use book_data_pipeline.Domain.{SourceName, CleanBook}
use book_data_pipeline.Canonicalise.Merge.{merge_candidates, onto_identity}
use book_data_pipeline.Loader.Tables.{Book, BookSource, Catalogue, Database}
use book_data_pipeline.Loader.People.{sync_authors, sync_subjects}
use book_data_pipeline.Loader.People.Kept.{sync_authors-IsKept, sync_subjects-IsKept}
use book_data_pipeline.Loader.Serials.{sync_series}
use book_data_pipeline.Loader.Serials.Kept.{sync_series_kept}
use book_data_pipeline.Loader.Books.{
  Session, find_or_create_book, merge, delete_book, promote, reconcile_isbn, isbn_eq, has_isbn,
  recompute, recompute_from, write_canonical, gutendex_downloads, replay, book_id_for_source,
  book_for,
}
use book_data_pipeline.Loader.Books.Provenance.{payload_of, payload_of-moved}

-- The sources of one session are those of another.
abbrev pub Sources : List BookSource → Session → Type 0
Sources rows s = s.db.book_sources ≡ rows

module _ (p : Platform) (d : Database) (now : ℕ) where
  write_canonical-Sources :
      (current : Book) (m : CleanBook) (downloads : Option ℕ) (s : Session)
      → Holds (Sources s.db.book_sources) (write_canonical p d now current m downloads s)
  unfolding write_canonical
  write_canonical-Sources current m downloads s = ground arith

  synced-Sources :
      (id : ℕ) (m : CleanBook) (cs : List CleanBook) (s : Session) (rows : List BookSource)
      → Sources rows s
      → Holds (Sources rows) (
          sync_series p d now id cs (sync_subjects p id m.subjects (sync_authors p id cs s.db))
          >>= λ db. ok (record s { db = db }))
  synced-Sources id m cs s rows same =
      let authors = sync_authors-IsKept p id cs s.db in
      let subjects = sync_subjects-IsKept p id m.subjects (sync_authors p id cs s.db) in
      let before = sync_subjects p id m.subjects (sync_authors p id cs s.db) in
      Holds-bind (λ (c : Catalogue). c.book_sources ≡ rows) (Sources rows)
        (sync_series p d now id cs before) (λ db. ok (record s { db = db }))
        (Holds-of _ (sync_series p d now id cs before) (λ out e.
          let (q, books, sources) = sync_series_kept p d now id cs before out e in
          sources ∙ subjects.sources_eq ∙ authors.sources_eq ∙ same))
        (λ db e h. h)

  recompute_from-Sources :
      (current : Book) (cs : List CleanBook) (s : Session)
      → Holds (Sources s.db.book_sources) (recompute_from p d now current cs s)
  unfolding recompute_from
  recompute_from-Sources current cs s =
      elim (Result-cases (merge_candidates (map (onto_identity current.identity_key) cs) none)) [
        | inr (x, e) ↦ rw (e, recompute_from) tt
        | inl (m, e) ↦
            rw (e, recompute_from)
              (Holds-bind (Sources s.db.book_sources) (Sources s.db.book_sources)
                (write_canonical p d now current m (gutendex_downloads p d cs) s) _
                (write_canonical-Sources current m (gutendex_downloads p d cs) s)
                (λ s' _ same. synced-Sources current.id m cs s' s.db.book_sources same))
      ]

  replayed-Sources :
      (current : Book) (cs : List CleanBook) (s : Session)
      → Holds
          (Sources s.db.book_sources)
          (elim cs [ [] ↦ ok s | c ∷ cs' ↦ recompute_from p d now current (c ∷ cs') s ])
  replayed-Sources current [] s = refl
  replayed-Sources current (c ∷ cs) s = recompute_from-Sources current (c ∷ cs) s

  pub recompute-Sources :
      (id : ℕ) (s : Session) → Holds (Sources s.db.book_sources) (recompute p d now id s)
  unfolding recompute
  recompute-Sources id s = elim (Option-cases (find_first (λ (b : Book). b.id == id) s.db.books)) [
    | inl e ↦ rw (e, recompute) refl
    | inr (current, e) ↦
        rw (e, recompute)
          (Holds-bind (λ _. Unit) (Sources s.db.book_sources) (replay p d id s.db) _
            (Holds-of (λ _. Unit) (replay p d id s.db) (λ _ _. tt))
            (λ cs _ _. replayed-Sources current cs s))
  ]

-- The payloads of one session are those of another.
abbrev pub SamePayloads : List BookSource → Session → Type 0
SamePayloads rows s =
    (t : SourceName) (j : Text) → payload_of t j s.db.book_sources ≡ payload_of t j rows

pub find_or_create_book_sources :
    (now : ℕ) (r : CleanBook) (s : Session)
    → Holds
        (λ (out : ℕ × Session). out.1.db.book_sources ≡ s.db.book_sources)
        (find_or_create_book now r s)
unfolding find_or_create_book
find_or_create_book_sources now r s = ground arith

pub promote_sources :
    (id : ℕ) (r : CleanBook) (s : Session)
    → Holds (λ (out : ℕ × Session). out.1.db.book_sources ≡ s.db.book_sources) (promote id r s)
unfolding promote
promote_sources id r s = ground arith

-- A merge of two different books moves the rows of the orphan and loses none.
merge-payload_of :
    (survivor orphan : ℕ) (s : Session)
    → (survivor == orphan) ≡ false
    → SamePayloads s.db.book_sources (merge survivor orphan s)
unfolding merge delete_book
merge-payload_of survivor orphan s h t j = payload_of-moved survivor orphan t j s.db.book_sources h

pub reconcile_isbn-payload_of :
    (id : ℕ) (r : CleanBook) (i : Text) (s : Session)
    → Holds (λ out. SamePayloads s.db.book_sources out.1) (reconcile_isbn id r i s)
unfolding reconcile_isbn
reconcile_isbn-payload_of id r i s =
    elim (Option-cases (find_first (λ (b : Book). b.id == id) s.db.books)) [
      | inl e ↦ rw (e, reconcile_isbn) tt
      | inr (current, e) ↦ elim (Bool-cases (isbn_eq current.isbn13 i)) [
        | inl same ↦ rw (e, reconcile_isbn, same) (λ t j. refl)
        | inr other ↦ elim (Option-cases (find_first (has_isbn i) s.db.books)) [
          | inl none' ↦
              rw (e, reconcile_isbn, other, none')
                (Holds-of _ (promote id r s) (λ out k t j.
                  ap (payload_of t j) (Holds_ok _ (promote id r s) out (promote_sources id r s) k)))
          | inr (owner, found) ↦ elim (Bool-cases (owner.id == id)) [
            | inl own ↦ rw (e, reconcile_isbn, other, found, own) (λ t j. refl)
            | inr apart ↦
                rw (e, reconcile_isbn, other, found, apart) (merge-payload_of owner.id id s apart)
          ]
        ]
      ]
    ]

pub book_for-payload_of :
    (p : Platform) (d : Database) (now : ℕ) (r : CleanBook) (s : Session)
    → Holds (λ out. SamePayloads s.db.book_sources out.1) (book_for p d now r s)
unfolding book_for
book_for-payload_of p d now r s = elim (Option-cases (book_id_for_source r s.db)) [
  | inl e ↦
      rw (e, book_for)
        (Holds-of _ (find_or_create_book now r s) (λ out k t j.
          ap (payload_of t j)
            (Holds_ok _ (find_or_create_book now r s) out (find_or_create_book_sources now r s) k)))
  | inr (id, e) ↦ elim (Option-cases r.isbn13) [
    | inl n ↦ rw (e, book_for, n) (λ t j. refl)
    | inr (i, n) ↦ elim (Bool-cases (is_empty i)) [
      | inl blank ↦ rw (e, book_for, n, blank) (λ t j. refl)
      | inr full ↦ rw (e, book_for, n, full) (reconcile_isbn-payload_of id r i s)
    ]
  ]
]
