-- ===== src/Loader/Books/Refinement.antt =====
-- Loading refines the update of a finite map: the payload of every ingestion identity.
use book_data_pipeline.Base.{
  ℕ, Text, Option, ◌≡◌, ◌∙◌, ap, ok, Holds, Holds-bind, Holds-of, Holds_ok,
}
use book_data_pipeline.Platform.{Platform}
use book_data_pipeline.Identity.Document.{Fields}
use book_data_pipeline.Domain.{SourceName, CleanBook}
use book_data_pipeline.Loader.Tables.{Database}
use book_data_pipeline.Loader.Books.{Session, upsert_source, book_for, load_one, recompute}
use book_data_pipeline.Loader.Books.Provenance.{
  payload_of, updated, merged_source, payload_of-upsert,
}
use book_data_pipeline.Loader.Books.Kept.{recompute-Sources, SamePayloads, book_for-payload_of}

-- The map after one record.
abbrev pub updated_by : CleanBook → SourceName → Text → Option Fields → Option Fields
updated_by r = updated r.source r.source_id r.raw_payload

module _ (p : Platform) (d : Database) (now : ℕ) where
  upsert_source-payload_of :
      (id : ℕ) (r : CleanBook) (s : Session) (t : SourceName) (j : Text)
      → payload_of t j (upsert_source p d now id r s).db.book_sources
        ≡ updated_by r t j (payload_of t j s.db.book_sources)
  unfolding upsert_source merged_source
  upsert_source-payload_of id r s t j = payload_of-upsert _ t j s.db.book_sources

  -- What holds of the payloads after a record.
  abbrev pub Updates : CleanBook → Session → Session → Type 0
  Updates r s s' =
      (t : SourceName) (j : Text)
      → payload_of t j s'.db.book_sources ≡ updated_by r t j (payload_of t j s.db.book_sources)

  load_one-Updates : (r : CleanBook) (s : Session) → Holds (Updates r s) (load_one p d now r s)
  unfolding load_one
  load_one-Updates r s =
      Holds-bind (λ out. SamePayloads s.db.book_sources out.1) (Updates r s) (book_for p d now r s)
        _ (book_for-payload_of p d now r s)
        (λ out _ same.
          let after = upsert_source p d now out.0 r out.1 in
          Holds-of (Updates r s) (recompute p d now out.0 after) (λ s' e t j.
            let kept =
              Holds_ok _ (recompute p d now out.0 after) s' (recompute-Sources p d now out.0 after)
                e in
            ap (payload_of t j) kept
            ∙ upsert_source-payload_of out.0 r out.1 t j
            ∙ ap (updated_by r t j) (same t j)))

  -- A record that is loaded sets the stored payload of its ingestion identity, and of no other,
  -- whichever book it goes to, is merged into or is promoted.
  pub load_one_refines :
      (r : CleanBook) (s s' : Session) (t : SourceName) (j : Text)
      → load_one p d now r s ≡ ok s'
      → payload_of t j s'.db.book_sources ≡ updated_by r t j (payload_of t j s.db.book_sources)
  load_one_refines r s s' t j h =
      Holds_ok (Updates r s) (load_one p d now r s) s' (load_one-Updates r s) h t j
