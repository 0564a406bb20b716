-- ===== src/Loader/Books/Ready.antt =====
-- Loading keeps every source row linked to a book.
use book_data_pipeline.Base.{
  ℕ, Text, Bool, true, false, not, ◌&&◌, ◌==◌, if◌then◌else◌, Option, none, List, [], ◌∷◌, map, any,
  find_first, is_empty, text_eq, ◌≡◌, ◌∙◌, refl, ap, sym, arith, inl, inr, Bool-cases, Option-cases,
  Result, ok, ◌>>=◌, Result-cases, Holds, Holds-bind, Holds-of, Holds_ok,
}
use mathlib.Core.Path.{subst}
use book_data_pipeline.Platform.{Platform}
use book_data_pipeline.Identity.{content_hash}
use book_data_pipeline.Domain.{CleanBook}
use book_data_pipeline.Canonicalise.Merge.{merge_candidates, onto_identity}
use book_data_pipeline.Loader.Tables.{Book, Catalogue, Database, update_where, delete_where}
use book_data_pipeline.Loader.People.{sync_authors, sync_subjects}
use book_data_pipeline.Loader.People.Kept.{sync_authors-IsKept, sync_subjects-IsKept}
use book_data_pipeline.Loader.Serials.{sync_series, refreshed}
use book_data_pipeline.Loader.Serials.Kept.{sync_series_kept}
use book_data_pipeline.Loader.Books.{
  Session, is_of, find_or_create_book, stub, merge, delete_book, promote, reconcile_isbn, isbn_eq,
  has_isbn, recompute, recompute_from, write_canonical, rewritten, gutendex_downloads,
  canonical_values, replay, takes_isbn, book_id_for_source, book_for, upsert_source, load_one,
}
use book_data_pipeline.Loader.Books.Provenance.{merged_source}
use book_data_pipeline.Loader.Books.Kept.{recompute-Sources}
use book_data_pipeline.Loader.Books.Linked.{
  has_id, AreLinked, IsLinked, has_id-update_where, has_id-append, has_id-delete, AreLinked-mono,
  AreLinked-moved, AreLinked-upsert, has_id-found, has_id-first, AreLinked-first,
}

Holds-if :
    {E A : Type 0} (b : Bool) (P : A → Type 0) (m n : Result E A)
    → Holds P m
    → Holds P n
    → Holds P (if b then m else n)
Holds-if true P m n h k = h
Holds-if false P m n h k = k

-- The book of a record is there, and the rows are linked.
abbrev pub IsReady : ℕ × Session → Type 0
IsReady out = (has_id out.1.db.books out.0 ≡ true) × IsLinked out.1.db

find_or_create_book-IsReady :
    (now : ℕ) (r : CleanBook) (s : Session)
    → IsLinked s.db
    → Holds IsReady (find_or_create_book now r s)
unfolding find_or_create_book stub
find_or_create_book-IsReady now r s linked =
    elim (Option-cases
      (find_first (λ (b : Book). text_eq b.identity_key r.identity_key) s.db.books)) [
        | inr (b, e) ↦ rw (e, find_or_create_book) (has_id-first _ s.db.books b e, linked)
        | inl e ↦
            let added = has_id-append s.db.books (stub now s.db.next_id r) in
            elim (Bool-cases (takes_isbn r.isbn13 s.db.books)) [
              | inl taken ↦ rw (e, find_or_create_book, taken) tt
              | inr free ↦
                  rw (e, find_or_create_book, free)
                    (
                      rw (added s.db.next_id) (ground arith),
                      AreLinked-mono s.db.books _ s.db.book_sources (λ i h. rw (added i, h) refl)
                          linked,
                    )
            ]
      ]

promote-IsReady :
    (id : ℕ) (r : CleanBook) (s : Session)
    → has_id s.db.books id ≡ true
    → IsLinked s.db
    → Holds IsReady (promote id r s)
unfolding promote
promote-IsReady id r s has linked =
    let same : (i : ℕ)
        → has_id
            (update_where (λ b. b.id == id)
              (λ b. record b { isbn13 = r.isbn13; identity_key = r.identity_key }) s.db.books)
            i
          ≡ has_id s.db.books i =
      λ i.
        has_id-update_where (λ b. b.id == id)
          (λ b. record b { isbn13 = r.isbn13; identity_key = r.identity_key }) s.db.books i
          (λ b. refl) in
    elim (Bool-cases
      (any (λ (b : Book). not (b.id == id) && text_eq b.identity_key r.identity_key) s.db.books)) [
        | inl e ↦ rw (e, promote) tt
        | inr e ↦
            rw (e, promote)
              (
                same id ∙ has,
                AreLinked-mono s.db.books _ s.db.book_sources (λ i h. same i ∙ h) linked,
              )
      ]

merge-IsReady :
    (survivor orphan : ℕ) (s : Session)
    → (survivor == orphan) ≡ false
    → has_id s.db.books survivor ≡ true
    → IsLinked s.db
    → IsReady (survivor, merge survivor orphan s)
unfolding merge delete_book
merge-IsReady survivor orphan s apart has linked = (
  has_id-delete s.db.books orphan survivor apart has,
  AreLinked-moved survivor orphan s.db.books s.db.book_sources apart has linked,
)

reconcile_isbn-IsReady :
    (id : ℕ) (r : CleanBook) (i : Text) (s : Session)
    → IsLinked s.db
    → Holds IsReady (reconcile_isbn id r i s)
unfolding reconcile_isbn
reconcile_isbn-IsReady id r i s linked =
    elim (Option-cases (find_first (λ (b : Book). b.id == id) s.db.books)) [
      | inl e ↦ rw (e, reconcile_isbn) tt
      | inr (current, e) ↦
          let has = has_id-found id s.db.books current e in
          elim (Bool-cases (isbn_eq current.isbn13 i)) [
            | inl same ↦ rw (e, reconcile_isbn, same) (has, linked)
            | inr other ↦ elim (Option-cases (find_first (has_isbn i) s.db.books)) [
              | inl none' ↦ rw (e, reconcile_isbn, other, none') (promote-IsReady id r s has linked)
              | inr (owner, found) ↦ elim (Bool-cases (owner.id == id)) [
                | inl own ↦ rw (e, reconcile_isbn, other, found, own) (has, linked)
                | inr apart ↦
                    rw (e, reconcile_isbn, other, found, apart)
                      (merge-IsReady owner.id id s apart
                        (has_id-first (has_isbn i) s.db.books owner found) linked)
              ]
            ]
          ]
    ]

module _ (p : Platform) (d : Database) (now : ℕ) where
  book_for-IsReady :
      (r : CleanBook) (s : Session) → IsLinked s.db → Holds IsReady (book_for p d now r s)
  unfolding book_for book_id_for_source
  book_for-IsReady r s linked =
      elim (Option-cases (find_first (is_of r.source r.source_id) s.db.book_sources)) [
        | inl e ↦ rw (e, book_for, book_id_for_source) (find_or_create_book-IsReady now r s linked)
        | inr (row, e) ↦
            let has =
              AreLinked-first (is_of r.source r.source_id) s.db.books s.db.book_sources row linked
                e in
            elim (Option-cases r.isbn13) [
              | inl n ↦ rw (e, book_for, n) (has, linked)
              | inr (i, n) ↦ elim (Bool-cases (is_empty i)) [
                | inl blank ↦ rw (e, book_for, n, blank) (has, linked)
                | inr full ↦
                    rw (e, book_for, n, full) (reconcile_isbn-IsReady row.book_id r i s linked)
              ]
            ]
      ]

  upsert_source-IsLinked :
      (id : ℕ) (r : CleanBook) (s : Session)
      → has_id s.db.books id ≡ true
      → IsLinked s.db
      → IsLinked (upsert_source p d now id r s).db
  unfolding upsert_source merged_source
  upsert_source-IsLinked id r s has linked =
      AreLinked-upsert (λ old excluded. is_of excluded.source excluded.source_id old) merged_source
        _ s.db.books s.db.book_sources (λ old. refl) has linked

  -- The books of a session have the same ids as those of another.
  abbrev SameIds : List Book → Session → Type 0
  SameIds books s' = (i : ℕ) → has_id s'.db.books i ≡ has_id books i

  write_canonical_ids :
      (current : Book) (m : CleanBook) (downloads : Option ℕ) (s : Session)
      → Holds (SameIds s.db.books) (write_canonical p d now current m downloads s)
  unfolding write_canonical rewritten
  write_canonical_ids current m downloads s =
      let digest = content_hash p.sha256 (canonical_values p d m downloads) in
      let free = delete_where (λ b. b.id == current.id) s.db.books in
      Holds-if (text_eq digest current.content_hash) (SameIds s.db.books) _ _ (λ i. refl)
        (Holds-if (takes_isbn m.isbn13 free) (SameIds s.db.books) _ _ tt (λ i.
          has_id-update_where (λ b. b.id == current.id) (rewritten p d now m downloads digest)
            s.db.books i (λ b. refl)))

  refreshed_id : (q : Text) (b : Book) → (refreshed p d now q b).id ≡ b.id
  unfolding refreshed
  refreshed_id q b = ground arith

  synced_ids :
      (id : ℕ) (m : CleanBook) (cs : List CleanBook) (s : Session) (books : List Book)
      → SameIds books s
      → Holds (SameIds books) (
          sync_series p d now id cs (sync_subjects p id m.subjects (sync_authors p id cs s.db))
          >>= λ db. ok (record s { db = db }))
  synced_ids id m cs s books same =
      let authors = sync_authors-IsKept p id cs s.db in
      let subjects = sync_subjects-IsKept p id m.subjects (sync_authors p id cs s.db) in
      let before = sync_subjects p id m.subjects (sync_authors p id cs s.db) in
      Holds-bind (λ (c : Catalogue). (i : ℕ) → has_id c.books i ≡ has_id books i) (SameIds books)
        (sync_series p d now id cs before) (λ db. ok (record s { db = db }))
        (Holds-of _ (sync_series p d now id cs before) (λ out e i.
          let (q, written, sources) = sync_series_kept p d now id cs before out e in
          ap (λ bs. has_id bs i) written
          ∙ has_id-update_where (λ b. b.id == id) (refreshed p d now q) before.books i
              (refreshed_id q)
          ∙ ap (λ bs. has_id bs i) (subjects.books_eq ∙ authors.books_eq)
          ∙ same i))
        (λ db e h. h)

  recompute_from_ids :
      (current : Book) (cs : List CleanBook) (s : Session)
      → Holds (SameIds s.db.books) (recompute_from p d now current cs s)
  unfolding recompute_from
  recompute_from_ids current cs s =
      elim (Result-cases (merge_candidates (map (onto_identity current.identity_key) cs) none)) [
        | inr (x, e) ↦ rw (e, recompute_from) tt
        | inl (m, e) ↦
            rw (e, recompute_from)
              (Holds-bind (SameIds s.db.books) (SameIds s.db.books)
                (write_canonical p d now current m (gutendex_downloads p d cs) s) _
                (write_canonical_ids current m (gutendex_downloads p d cs) s)
                (λ s' _ same. synced_ids current.id m cs s' s.db.books same))
      ]

  replayed_ids :
      (current : Book) (cs : List CleanBook) (s : Session)
      → Holds
          (SameIds s.db.books)
          (elim cs [ [] ↦ ok s | c ∷ cs' ↦ recompute_from p d now current (c ∷ cs') s ])
  replayed_ids current [] s = λ i. refl
  replayed_ids current (c ∷ cs) s = recompute_from_ids current (c ∷ cs) s

  recompute_ids : (id : ℕ) (s : Session) → Holds (SameIds s.db.books) (recompute p d now id s)
  unfolding recompute
  recompute_ids id s = elim (Option-cases (find_first (λ (b : Book). b.id == id) s.db.books)) [
    | inl e ↦ rw (e, recompute) (λ i. refl)
    | inr (current, e) ↦
        rw (e, recompute)
          (Holds-bind (λ _. Unit) (SameIds s.db.books) (replay p d id s.db) _
            (Holds-of (λ _. Unit) (replay p d id s.db) (λ _ _. tt))
            (λ cs _ _. replayed_ids current cs s))
  ]

  recompute-IsLinked :
      (id : ℕ) (s : Session) → IsLinked s.db → Holds (λ s'. IsLinked s'.db) (recompute p d now id s)
  recompute-IsLinked id s linked = Holds-of _ (recompute p d now id s) (λ s' e.
      let rows = Holds_ok _ (recompute p d now id s) s' (recompute-Sources p d now id s) e in
      let ids = Holds_ok _ (recompute p d now id s) s' (recompute_ids id s) e in
      subst (AreLinked s'.db.books) (sym rows)
        (AreLinked-mono s.db.books s'.db.books s.db.book_sources (λ i h. ids i ∙ h) linked))

  -- A record that is loaded leaves every source row linked to a book.
  pub load_one-IsLinked :
      (r : CleanBook) (s : Session)
      → IsLinked s.db
      → Holds (λ s'. IsLinked s'.db) (load_one p d now r s)
  unfolding load_one
  load_one-IsLinked r s linked =
      Holds-bind IsReady (λ s'. IsLinked s'.db) (book_for p d now r s) _
        (book_for-IsReady r s linked)
        (λ out _ ready.
          recompute-IsLinked out.0 (upsert_source p d now out.0 r out.1)
            (upsert_source-IsLinked out.0 r out.1 ready.0 ready.1))
