-- ===== src/Loader/Batches/Refinement.antt =====
-- A load refines the update of a finite map by a sequence of records.
use book_data_pipeline.Base.{
  ℕ, suc, ◌<◌, Text, Option, List, [], ◌∷◌, ◌++◌, ◌≡◌, ◌∙◌, refl, ap, sym, arith, ok, Holds,
  Holds-bind, Holds-of, Holds_ok,
}
use book_data_pipeline.Platform.{Platform}
use book_data_pipeline.Identity.Document.{Fields}
use book_data_pipeline.Domain.{SourceName, CleanBook}
use book_data_pipeline.Loader.Tables.{Catalogue, Database}
use book_data_pipeline.Loader.Books.{Session, load_one}
use book_data_pipeline.Loader.Books.Provenance.{payload_of}
use book_data_pipeline.Loader.Books.Refinement.{updated_by, load_one_refines}
use book_data_pipeline.Loader.Batches.{
  Conflict, no_counts, begin, counted, batch_size_of, batched, load_records, load_batch,
  load_batches, load,
}
use book_data_pipeline.Loader.Batches.Attempts.{retry_batch-ok}
use book_data_pipeline.Loader.Batches.Split.{concatenated, batched_partition}

-- The map after a sequence of records: the last payload of an identity, or what was there.
abbrev pub updated_by_all : List CleanBook → SourceName → Text → Option Fields → Option Fields
updated_by_all [] t j old = old
updated_by_all (r ∷ rs) t j old = updated_by_all rs t j (updated_by r t j old)

pub updated_by_all-append :
    (rs ss : List CleanBook) (t : SourceName) (j : Text) (old : Option Fields)
    → updated_by_all (rs ++ ss) t j old ≡ updated_by_all ss t j (updated_by_all rs t j old)
updated_by_all-append [] ss t j old = refl
updated_by_all-append (r ∷ rs) ss t j old = updated_by_all-append rs ss t j (updated_by r t j old)

-- What holds of the payloads after some records.
abbrev pub UpdatesAll : List CleanBook → Catalogue → Session → Type 0
UpdatesAll rs db s' =
    (t : SourceName) (j : Text)
    → payload_of t j s'.db.book_sources ≡ updated_by_all rs t j (payload_of t j db.book_sources)

module _ (p : Platform) (d : Database) (now : ℕ) where
  load_records_updates :
      (rs : List CleanBook) (s : Session) → Holds (UpdatesAll rs s.db) (load_records p d now rs s)
  unfolding load_records
  load_records_updates [] s = λ t j. refl
  load_records_updates (r ∷ rs) s =
      Holds-bind (λ _. Unit) (UpdatesAll (r ∷ rs) s.db) (load_one p d now r s)
        (load_records p d now rs) (Holds-of (λ _. Unit) (load_one p d now r s) (λ _ _. tt))
        (λ s' e _. Holds-of (UpdatesAll (r ∷ rs) s.db) (load_records p d now rs s') (λ s'' e' t j.
          Holds_ok (UpdatesAll rs s'.db) (load_records p d now rs s') s''
            (load_records_updates rs s') e' t j
          ∙ ap (updated_by_all rs t j) (load_one_refines p d now r s s' t j e)))

  load_batch_updates :
      (conflicts : ℕ → Option Conflict) (rs : List CleanBook) (s : Session)
      → Holds (UpdatesAll rs s.db) (load_batch p d now conflicts rs s)
  unfolding load_batch begin counted
  load_batch_updates conflicts rs s =
      Holds-of (UpdatesAll rs s.db) (load_batch p d now conflicts rs s) (λ out e t j.
        let (s', run, same) = retry_batch-ok p d now 4 0 conflicts rs s out e in
        ap (λ o. payload_of t j o.db.book_sources) same
        ∙ Holds_ok (UpdatesAll rs s.db) (load_records p d now rs (begin s.db)) s'
            (load_records_updates rs (begin s.db)) run t j)

  load_batches_updates :
      (conflicts : ℕ → ℕ → Option Conflict) (n : ℕ) (batches : List (List CleanBook)) (s : Session)
      → Holds (UpdatesAll (concatenated batches) s.db) (load_batches p d now conflicts n batches s)
  unfolding load_batches
  load_batches_updates conflicts n [] s = λ t j. refl
  load_batches_updates conflicts n (rs ∷ batches) s =
      Holds-bind (UpdatesAll rs s.db) (UpdatesAll (rs ++ concatenated batches) s.db)
        (load_batch p d now (conflicts n) rs s) (load_batches p d now conflicts (suc n) batches)
        (load_batch_updates (conflicts n) rs s)
        (λ s' e h. Holds-of _ (load_batches p d now conflicts (suc n) batches s') (λ s'' e' t j.
          Holds_ok (UpdatesAll (concatenated batches) s'.db)
            (load_batches p d now conflicts (suc n) batches s') s''
            (load_batches_updates conflicts (suc n) batches s') e' t j
          ∙ ap (updated_by_all (concatenated batches) t j) (h t j)
          ∙ sym (
              updated_by_all-append rs (concatenated batches) t j
                (payload_of t j s.db.book_sources))))

  -- A load that ends without an error leaves, for every ingestion identity, the payload of the last
  -- of its records, and the payload that was there where no record has that identity: whatever the
  -- batch size of 1 or more, the deadlocks, and the books that were merged on the way.
  pub load_refines :
      (conflicts : ℕ → ℕ → Option Conflict) (size : ℕ) (records : List CleanBook) (db : Catalogue)
      (s' : Session) (t : SourceName) (j : Text)
      → 0 < size
      → load p d now conflicts size records db ≡ ok s'
      → payload_of t j s'.db.book_sources
        ≡ updated_by_all records t j (payload_of t j db.book_sources)
  unfolding load batch_size_of
  load_refines conflicts size records db s' t j h e =
      let whole = batched_partition (batch_size_of size) records (ground arith) in
      let all =
        load_batches_updates conflicts 0 (batched (batch_size_of size) records)
          (record { db = db; result = no_counts }) in
      Holds_ok _ (load p d now conflicts size records db) s' all e t j
      ∙ ap (λ rs. updated_by_all rs t j (payload_of t j db.book_sources)) whole.0
