-- ===== src/Loader/Batches/Attempts.antt =====
-- What a batch that is loaded comes from.
use book_data_pipeline.Base.{
  ℕ, zero, suc, Option, none, some, List, [], ◌∷◌, take, ◌≡◌, refl, sym, ◌⊎◌, inl, inr, Result, ok,
  err, Result-cases, arith,
}
use book_data_pipeline.Platform.{Platform}
use book_data_pipeline.Domain.{CleanBook}
use book_data_pipeline.Loader.Tables.{Catalogue, Database, LoadError}
use book_data_pipeline.Loader.Books.{Session, load_one}
use book_data_pipeline.Loader.Batches.{
  Conflict, deadlock, other_error, Stopped, raised, Attempt, committed, lost, failed, begin,
  counted, rolled_back, load_records, attempt_batch, retry_batch,
}

pub Attempt-cases :
    (a : Attempt)
    → ((s : Session) × (a ≡ committed s))
      ⊎ (((s : Session) × (a ≡ lost s)) ⊎ ((x : Stopped) × (a ≡ failed x)))
Attempt-cases (committed s) = inl (s, refl)
Attempt-cases (lost s) = inr (inl (s, refl))
Attempt-cases (failed x) = inr (inr (x, refl))

ok_injective : (s out : Session) → ◌≡◌ {A = Result Stopped Session} (ok s) (ok out) → s ≡ out
ok_injective s out h = cc

err_ne : (x : Stopped) (out : Session) → ◌≡◌ {A = Result Stopped Session} (err x) (ok out) → ⊥
err_ne x out h = cc

module _ (p : Platform) (d : Database) (now : ℕ) where
  -- An error among the first records of a batch is the error of the batch.
  pub load_records-take :
      (n : ℕ) (batch : List CleanBook) (s : Session) (e : LoadError)
      → load_records p d now (take n batch) s ≡ err e
      → load_records p d now batch s ≡ err e
  unfolding load_records
  load_records-take zero batch s e h = cc
  load_records-take (suc n) [] s e h = cc
  load_records-take (suc n) (r ∷ rest) s e h = elim (Result-cases (load_one p d now r s)) [
    | inl (s', k) ↦ rw k (load_records-take n rest s' e (rw k at h))
    | inr (x, k) ↦ rw k (rw k at h)
  ]

  attempt_batch-committed :
      (c : Option Conflict) (batch : List CleanBook) (db : Catalogue) (s' : Session)
      → attempt_batch p d now c batch db ≡ committed s'
      → load_records p d now batch (begin db) ≡ ok s'
  unfolding attempt_batch
  attempt_batch-committed none batch db s' h =
      elim (Result-cases (load_records p d now batch (begin db))) [
        | inl (s, e) ↦ let same : committed s ≡ committed s' = rw (e, attempt_batch) at h in cc
        | inr (x, e) ↦
            let same : failed (raised x) ≡ committed s' = rw (e, attempt_batch) at h in cc
      ]
  attempt_batch-committed (some (deadlock n)) batch db s' h = ground arith
  attempt_batch-committed (some (other_error n)) batch db s' h = ground arith

  -- A batch that is loaded, after however many lost attempts, is its records run on the catalogue
  -- at hand and counted once.
  pub retry_batch-ok :
      (left attempt : ℕ) (conflicts : ℕ → Option Conflict) (batch : List CleanBook)
      (s out : Session)
      → retry_batch p d now left attempt conflicts batch s ≡ ok out
      → (s' : Session) × (load_records p d now batch (begin s.db) ≡ ok s') × (out ≡ counted s s')
  unfolding retry_batch rolled_back counted
  retry_batch-ok zero attempt conflicts batch s out h =
      elim (Attempt-cases (attempt_batch p d now (conflicts attempt) batch s.db)) [
        | inl (s', e) ↦ (
          s',
          attempt_batch-committed (conflicts attempt) batch s.db s' e,
          sym (ok_injective _ out (rw (e, retry_batch) at h)),
        )
        | inr (inl (s', e)) ↦ absurd (err_ne _ out (rw (e, retry_batch) at h))
        | inr (inr (x, e)) ↦ absurd (err_ne _ out (rw (e, retry_batch) at h))
      ]
  retry_batch-ok (suc left) attempt conflicts batch s out h =
      let later = retry_batch-ok left (suc attempt) conflicts batch in
      elim (Attempt-cases (attempt_batch p d now (conflicts attempt) batch s.db)) [
        | inl (s', e) ↦ (
          s',
          attempt_batch-committed (conflicts attempt) batch s.db s' e,
          sym (ok_injective _ out (rw (e, retry_batch) at h)),
        )
        | inr (inl (s', e)) ↦ later (rolled_back s s') out (rw (e, retry_batch) at h)
        | inr (inr (x, e)) ↦ absurd (err_ne _ out (rw (e, retry_batch) at h))
      ]
