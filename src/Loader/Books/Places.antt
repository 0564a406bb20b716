-- ===== src/Loader/Books/Places.antt =====
-- The sources table as a map from ingestion identities to books.
use book_data_pipeline.Base.{
  ℕ, Text, true, false, ◌&&◌, ◌==◌, if◌then◌else◌, Option, none, some, List, [], ◌∷◌, find_first,
  text_eq, text_eq→≡, ◌≡◌, refl, sym, arith, inl, inr, Bool-cases, and_true,
}
use book_data_pipeline.Domain.{SourceName, source_value, same_source, CleanBook}
use book_data_pipeline.Loader.Tables.{BookSource, update_where, delete_where, upsert}
use book_data_pipeline.Loader.Books.{Session, is_of, book_id_for_source}
use book_data_pipeline.Loader.Books.Provenance.{merged_source, same_identity, clash}

-- The book that an identity belongs to.
abbrev pub book_of : SourceName → Text → List BookSource → Option ℕ
book_of source i [] = none
book_of source i (r ∷ rows) =
    let rest = book_of source i rows in if is_of source i r then some r.book_id else rest

-- Where a book goes when one is merged into another.
abbrev pub moved : ℕ → ℕ → ℕ → ℕ
moved survivor orphan id = if id == orphan then survivor else id

pub book_of-moved :
    (survivor orphan : ℕ) (source : SourceName) (i : Text) (rows : List BookSource) (id : ℕ)
    → (survivor == orphan) ≡ false
    → book_of source i rows ≡ some id
    → book_of source i (
        delete_where
          (λ (r : BookSource). r.book_id == orphan)
          (update_where
            (λ (r : BookSource). r.book_id == orphan)
            (λ r. record r { book_id = survivor })
            rows))
      ≡ some (moved survivor orphan id)
unfolding is_of
book_of-moved survivor orphan source i [] id h k = cc
book_of-moved survivor orphan source i (r ∷ rows) id h k = elim (Bool-cases (is_of source i r)) [
  | inl here ↦
      let kept : some r.book_id ≡ some id = rw here at k in
      let same : r.book_id ≡ id = cc in
      elim (Bool-cases (r.book_id == orphan)) [
        | inl e ↦ rw (e, h, here) (rw (sym same, e) refl)
        | inr e ↦ rw (e, e, here) (rw (sym same, e) refl)
      ]
  | inr there ↦
      let rest = book_of-moved survivor orphan source i rows id h (rw there at k) in
      elim (Bool-cases (r.book_id == orphan)) [
        | inl e ↦ rw (e, h, there) rest
        | inr e ↦ rw (e, e, there) rest
      ]
]

pub book_of-upsert :
    (row : BookSource) (t : SourceName) (j : Text) (rows : List BookSource)
    → book_of t j (
        upsert
          (λ old excluded. is_of excluded.source excluded.source_id old)
          merged_source
          row
          rows)
      ≡ (if same_source row.source t && text_eq row.source_id j
          then some row.book_id
          else book_of t j rows)
unfolding is_of merged_source same_source
book_of-upsert row t j [] = refl
book_of-upsert row t j (r ∷ rows) =
    let rest = book_of-upsert row t j rows in
    elim (Bool-cases (is_of row.source row.source_id r)) [
      | inl e ↦
          let same = same_identity row.source row.source_id r t j e in rw (e, same) (ground arith)
      | inr e ↦ elim (Bool-cases (is_of t j r)) [
        | inl here ↦
            let apart = clash row.source t row.source_id j r here e in rw (e, here, apart) refl
        | inr there ↦ rw (e, there) rest
      ]
    ]

pub book_of_same :
    (s t : SourceName) (i j : Text) (rows : List BookSource)
    → (same_source s t && text_eq i j) ≡ true
    → book_of s i rows ≡ book_of t j rows
unfolding same_source is_of
book_of_same s t i j [] h = refl
book_of_same s t i j (r ∷ rows) h =
    let (a, b) = and_true (same_source s t) (text_eq i j) h in
    let source_same = text_eq→≡ (source_value s) (source_value t) a in
    let id_same = text_eq→≡ i j b in
    let rest = book_of_same s t i j rows h in rw (source_same, id_same, rest) refl

book_of-first :
    (t : SourceName) (j : Text) (rows : List BookSource)
    → book_of t j rows
      ≡ elim (find_first (is_of t j) rows) [ none ↦ none | some row ↦ some row.book_id ]
book_of-first t j [] = refl
book_of-first t j (r ∷ rows) =
    let rest = book_of-first t j rows in
    elim (Bool-cases (is_of t j r)) [ inl e ↦ rw e refl | inr e ↦ rw e rest ]

pub book_id_for_source_lem :
    (r : CleanBook) (s : Session)
    → book_id_for_source r s.db ≡ book_of r.source r.source_id s.db.book_sources
unfolding book_id_for_source
book_id_for_source_lem r s = sym (book_of-first r.source r.source_id s.db.book_sources)
