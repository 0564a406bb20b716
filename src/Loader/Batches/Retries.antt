-- ===== src/Loader/Batches/Retries.antt =====
-- The replay of a batch after deadlocks.
use book_data_pipeline.Base.{
  ℕ, zero, suc, ◌+◌, ◌≤◌, ◌<◌, Option, none, some, List, ◌≡◌, ◌∙◌, sym, refl, arith, inl, inr,
  Result, ok, err, Result-cases, take,
}
use book_data_pipeline.Platform.{Platform}
use book_data_pipeline.Domain.{CleanBook}
use book_data_pipeline.Loader.Tables.{Database}
use book_data_pipeline.Loader.Books.{Session}
use book_data_pipeline.Loader.Batches.{
  Conflict, deadlock, Stopped, raised, begin, counted, rolled_back, load_records, attempt_batch,
  retry_batch, load_batch,
}
use book_data_pipeline.Loader.Batches.Attempts.{Attempt-cases, load_records-take}

-- The attempt loses a deadlock, after some records.
abbrev pub IsDeadlock : Option Conflict → Type 0
IsDeadlock c = (m : ℕ) × (c ≡ some (deadlock m))

module _ (p : Platform) (d : Database) (now : ℕ) where
  -- What a batch gives that no other writer disturbs.
  abbrev undisturbed : List CleanBook → Session → Result Stopped Session
  undisturbed batch s = elim (load_records p d now batch (begin s.db)) [
    | ok s' ↦ ok (counted s s')
    | err e ↦ err (raised e)
  ]

  retry_batch-calm :
      (left attempt : ℕ) (conflicts : ℕ → Option Conflict) (batch : List CleanBook) (s : Session)
      → conflicts attempt ≡ none
      → retry_batch p d now left attempt conflicts batch s ≡ undisturbed batch s
  unfolding retry_batch attempt_batch
  retry_batch-calm zero attempt conflicts batch s calm =
      elim (Result-cases (load_records p d now batch (begin s.db))) [
        | inl (s', e) ↦ rw (calm, retry_batch, undisturbed, e, attempt_batch) refl
        | inr (x, e) ↦ rw (calm, retry_batch, undisturbed, e, attempt_batch) refl
      ]
  retry_batch-calm (suc left) attempt conflicts batch s calm =
      elim (Result-cases (load_records p d now batch (begin s.db))) [
        | inl (s', e) ↦ rw (calm, retry_batch, undisturbed, e, attempt_batch) refl
        | inr (x, e) ↦ rw (calm, retry_batch, undisturbed, e, attempt_batch) refl
      ]

  -- One lost attempt changes nothing: what ran of it is rolled back, or its error is that of the
  -- batch.
  retry_batch-lost :
      (left attempt : ℕ) (conflicts : ℕ → Option Conflict) (batch : List CleanBook) (s : Session)
      → IsDeadlock (conflicts attempt)
      → retry_batch p d now left (suc attempt) conflicts batch s ≡ undisturbed batch s
      → retry_batch p d now (suc left) attempt conflicts batch s ≡ undisturbed batch s
  unfolding retry_batch attempt_batch rolled_back
  retry_batch-lost left attempt conflicts batch s (m, c) rest =
      elim (Result-cases (load_records p d now (take m batch) (begin s.db))) [
        | inl (s', e) ↦ rw (c, retry_batch, e, attempt_batch) rest
        | inr (x, e) ↦
            let whole = load_records-take p d now m batch (begin s.db) x e in
            rw (c, retry_batch, e, attempt_batch, undisturbed, whole) refl
      ]

  retry_batch-deadlocks :
      (n left attempt stop : ℕ) (conflicts : ℕ → Option Conflict) (batch : List CleanBook)
      (s : Session)
      → n ≤ left
      → stop ≡ attempt + n
      → ((k : ℕ) → k < stop → IsDeadlock (conflicts k))
      → conflicts stop ≡ none
      → retry_batch p d now left attempt conflicts batch s ≡ undisturbed batch s
  retry_batch-deadlocks zero left attempt stop conflicts batch s h same before last =
      let here : stop ≡ attempt = omega arith in
      retry_batch-calm left attempt conflicts batch s (rw here at last)
  retry_batch-deadlocks (suc n) zero attempt stop conflicts batch s h same before last =
      absurd (omega arith)
  retry_batch-deadlocks (suc n) (suc left) attempt stop conflicts batch s h same before last =
      retry_batch-lost left attempt conflicts batch s (before attempt (omega arith)) (
        retry_batch-deadlocks n left (suc attempt) stop conflicts batch s (omega arith)
          (omega arith) before last)

  -- A batch whose first attempts, four at most, each lose a deadlock after any number of their
  -- records, and whose next one meets no conflict, ends as one that met none, with its records or
  -- with their error: nothing of the lost attempts is left in the catalogue or in the counts.
  pub load_batch-deadlocks :
      (n : ℕ) (conflicts : ℕ → Option Conflict) (batch : List CleanBook) (s : Session)
      → n ≤ 4
      → ((k : ℕ) → k < n → IsDeadlock (conflicts k))
      → conflicts n ≡ none
      → load_batch p d now conflicts batch s ≡ load_batch p d now (λ _. none) batch s
  unfolding load_batch
  load_batch-deadlocks n conflicts batch s h before last =
      retry_batch-deadlocks n 4 0 n conflicts batch s h (omega arith) before last
      ∙ sym (retry_batch-calm 4 0 (λ _. none) batch s refl)

  retry_batch-same :
      (left attempt : ℕ) (conflicts conflicts' : ℕ → Option Conflict) (batch : List CleanBook)
      (s : Session)
      → ((k : ℕ) → k ≤ attempt + left → conflicts k ≡ conflicts' k)
      → retry_batch p d now left attempt conflicts batch s
        ≡ retry_batch p d now left attempt conflicts' batch s
  unfolding retry_batch
  retry_batch-same zero attempt conflicts conflicts' batch s same =
      rw (retry_batch, same attempt (omega arith)) refl
  retry_batch-same (suc left) attempt conflicts conflicts' batch s same =
      let here = same attempt (omega arith) in
      let later : (s' : Session)
          → retry_batch p d now left (suc attempt) conflicts batch s'
            ≡ retry_batch p d now left (suc attempt) conflicts' batch s' =
        λ s'.
          retry_batch-same left (suc attempt) conflicts conflicts' batch s'
            (λ k h. same k (omega arith)) in
      elim (Attempt-cases (attempt_batch p d now (conflicts' attempt) batch s.db)) [
        | inl (s', e) ↦ rw (retry_batch, here, e) refl
        | inr (inl (s', e)) ↦ rw (retry_batch, here, e) (later (rolled_back s s'))
        | inr (inr (x, e)) ↦ rw (retry_batch, here, e) refl
      ]

  -- A batch is attempted five times at most: where the conflicts of the first five attempts are the
  -- same, the result is the same, whatever a sixth or a later attempt would meet.
  pub load_batch-five_attempts :
      (conflicts conflicts' : ℕ → Option Conflict) (batch : List CleanBook) (s : Session)
      → ((k : ℕ) → k < 5 → conflicts k ≡ conflicts' k)
      → load_batch p d now conflicts batch s ≡ load_batch p d now conflicts' batch s
  unfolding load_batch
  load_batch-five_attempts conflicts conflicts' batch s same =
      rw (retry_batch-same 4 0 conflicts conflicts' batch s (λ k h. same k (omega arith))) refl
