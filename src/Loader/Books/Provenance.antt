-- ===== src/Loader/Books/Provenance.antt =====
-- The sources table as a map from ingestion identities to payloads.
use book_data_pipeline.Base.{
  ℕ, Text, Bool, true, false, ◌&&◌, ◌==◌, if◌then◌else◌, Option, none, some, List, [], ◌∷◌, text_eq,
  text_eq→≡, ◌≡◌, refl, inl, inr, Bool-cases, and_true,
}
use book_data_pipeline.Identity.Document.{Fields}
use book_data_pipeline.Domain.{SourceName, source_value, same_source}
use book_data_pipeline.Loader.Tables.{BookSource, update_where, delete_where, upsert}
use book_data_pipeline.Loader.Books.{is_of}

-- The payload that is stored for an identity.
abbrev pub payload_of : SourceName → Text → List BookSource → Option Fields
payload_of source i [] = none
payload_of source i (r ∷ rows) =
    let rest = payload_of source i rows in if is_of source i r then some r.raw_payload else rest

-- Rows that move to another book, and none of which is then deleted, keep every payload.
pub payload_of-moved :
    (survivor orphan : ℕ) (source : SourceName) (i : Text) (rows : List BookSource)
    → (survivor == orphan) ≡ false
    → payload_of source i (
        delete_where
          (λ (r : BookSource). r.book_id == orphan)
          (update_where
            (λ (r : BookSource). r.book_id == orphan)
            (λ r. record r { book_id = survivor })
            rows))
      ≡ payload_of source i rows
unfolding is_of
payload_of-moved survivor orphan source i [] h = refl
payload_of-moved survivor orphan source i (r ∷ rows) h =
    let rest = payload_of-moved survivor orphan source i rows h in
    elim (Bool-cases (r.book_id == orphan)) [
      | inl e ↦ rw (e, h, rest) refl
      | inr e ↦ rw (e, e, rest) refl
    ]

-- The upsert of a row changes the payload of its identity and no other.
abbrev pub updated : SourceName → Text → Fields → SourceName → Text → Option Fields → Option Fields
updated source i payload t j old = if same_source source t && text_eq i j then some payload else old

unfoldable pub merged_source : BookSource → BookSource → BookSource
merged_source old excluded = record old {
  book_id = excluded.book_id;
  raw_payload = excluded.raw_payload;
  payload_hash = excluded.payload_hash;
  source_updated = excluded.source_updated;
  last_seen_at = excluded.first_seen_at;
}

-- A row of one identity answers to the same identities as any other row of it.
pub same_identity :
    (source : SourceName) (i : Text) (r : BookSource) (t : SourceName) (j : Text)
    → is_of source i r ≡ true
    → is_of t j r ≡ (same_source source t && text_eq i j)
unfolding is_of same_source
same_identity source i r t j h =
    let (a, b) =
      and_true (text_eq (source_value r.source) (source_value source)) (text_eq r.source_id i) h in
    let source_same = text_eq→≡ (source_value r.source) (source_value source) a in
    let id_same = text_eq→≡ r.source_id i b in rw (source_same, id_same) refl

pub clash :
    (s t : SourceName) (i j : Text) (r : BookSource)
    → is_of t j r ≡ true
    → is_of s i r ≡ false
    → (same_source s t && text_eq i j) ≡ false
unfolding is_of same_source
clash s t i j r h k = elim (Bool-cases (same_source s t && text_eq i j)) [
  | inr no' ↦ no'
  | inl yes' ↦
      let (a, b) = and_true (same_source s t) (text_eq i j) yes' in
      let source_same = text_eq→≡ (source_value s) (source_value t) a in
      let id_same = text_eq→≡ i j b in
      let k' : (text_eq (source_value r.source) (source_value t) && text_eq r.source_id j) ≡ false =
        rw (source_same, id_same) at k in
      cc
]

if_twice :
    {A : Type 0} (b : Bool) (x y z : A)
    → (if b then x else z) ≡ (if b then x else (if b then y else z))
if_twice true x y z = refl
if_twice false x y z = refl

pub payload_of-upsert :
    (row : BookSource) (t : SourceName) (j : Text) (rows : List BookSource)
    → payload_of t j (
        upsert
          (λ old excluded. is_of excluded.source excluded.source_id old)
          merged_source
          row
          rows)
      ≡ updated row.source row.source_id row.raw_payload t j (payload_of t j rows)
unfolding is_of merged_source same_source
payload_of-upsert row t j [] = refl
payload_of-upsert row t j (r ∷ rows) =
    let rest = payload_of-upsert row t j rows in
    elim (Bool-cases (is_of row.source row.source_id r)) [
      | inl e ↦
          let same = same_identity row.source row.source_id r t j e in
          rw (e, same)
            (if_twice (same_source row.source t && text_eq row.source_id j) (some row.raw_payload)
              (some r.raw_payload) (payload_of t j rows))
      | inr e ↦ elim (Bool-cases (is_of t j r)) [
        | inl here ↦
            let apart = clash row.source t row.source_id j r here e in rw (e, here, apart) refl
        | inr there ↦ rw (e, there) rest
      ]
    ]
