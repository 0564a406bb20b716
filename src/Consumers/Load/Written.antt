-- ===== src/Consumers/Load/Written.antt =====
-- What the load consumer has written and committed after some events.
use book_data_pipeline.Base.{
  ℕ, ◌+◌, Text, Option, List, [], ◌∷◌, ◌++◌, ◌≡◌, ◌∙◌, refl, ap, ◌⊎◌, inl, inr, arith, Bool-cases,
  Option-cases, Result-cases, Holds,
}
use book_data_pipeline.Platform.{Platform}
use book_data_pipeline.Domain.{SourceName, CleanBook}
use book_data_pipeline.Canonicalise.{RejectionCode}
use book_data_pipeline.Loader.Tables.{Catalogue, Database}
use book_data_pipeline.Loader.Books.Provenance.{payload_of}
use book_data_pipeline.Loader.Batches.{default_batch_size, load}
use book_data_pipeline.Loader.Batches.Refinement.{updated_by_all, load_refines}
use book_data_pipeline.Runs.Markers.{runs_awaiting}
use book_data_pipeline.Consumers.{BookEvent, PartitionMarker}
use book_data_pipeline.Consumers.Load.{
  Consumer, World, due, add_to, count, write_tally, handle_marker, flush_batch, flush, park, sweep,
  sweep_runs,
}

pub ++_assoc : {A : Type 0} (xs ys zs : List A) → (xs ++ ys) ++ zs ≡ xs ++ (ys ++ zs)
++_assoc [] ys zs = refl
++_assoc (x ∷ xs) ys zs = ap (λ l. x ∷ l) (++_assoc xs ys zs)

pub ++_nil : {A : Type 0} (xs : List A) → xs ++ [] ≡ xs
++_nil [] = refl
++_nil (x ∷ xs) = ap (λ l. x ∷ l) (++_nil xs)

pub nil_or_cons :
    {A : Type 0} (xs : List A) → (xs ≡ []) ⊎ ((x : A) × ((ys : List A) × (xs ≡ x ∷ ys)))
nil_or_cons [] = inl refl
nil_or_cons (x ∷ ys) = inr (x, (ys, refl))

-- A step that leaves the catalogue, the batch and the offset alone.
pub record IsAside (s s' : Consumer) : Type 0 where
  pub db_eq : s'.db ≡ s.db
  pub batch_eq : s'.batch ≡ s.batch
  pub committed_eq : s'.committed ≡ s.committed
  pub seen_eq : s'.seen ≡ s.seen

aside : (s : Consumer) → IsAside s s
aside s = record { db_eq = refl; batch_eq = refl; committed_eq = refl; seen_eq = refl }

IsAside-trans : (a b c : Consumer) → IsAside a b → IsAside b c → IsAside a c
IsAside-trans a b c h k = record {
  db_eq = k.db_eq ∙ h.db_eq;
  batch_eq = k.batch_eq ∙ h.batch_eq;
  committed_eq = k.committed_eq ∙ h.committed_eq;
  seen_eq = k.seen_eq ∙ h.seen_eq;
}

pub count-IsAside :
    (run_id more refused : ℕ) (s : Consumer) → IsAside s (count run_id more refused s)
unfolding count
count-IsAside run_id more refused s =
    elim (Option-cases (due run_id (add_to run_id more refused s.tally))) [
      | inl e ↦
          rw (e, count)
            (record { db_eq = refl; batch_eq = refl; committed_eq = refl; seen_eq = refl })
      | inr (t, e) ↦
          rw (e, count)
            (record { db_eq = refl; batch_eq = refl; committed_eq = refl; seen_eq = refl })
    ]

pub write_tally-IsAside : (s : Consumer) → IsAside s (write_tally s)
unfolding write_tally
write_tally-IsAside s = record {
  db_eq = refl;
  batch_eq = refl;
  committed_eq = refl;
  seen_eq = refl;
}

pub handle_marker-IsAside :
    (now : ℕ) (m : PartitionMarker) (s : Consumer) → IsAside s (handle_marker now m s)
unfolding handle_marker
handle_marker-IsAside now m s = record {
  db_eq = refl;
  batch_eq = refl;
  committed_eq = refl;
  seen_eq = refl;
}

sweep_runs-IsAside :
    (now : ℕ) (topic : Text) (ids : List ℕ) (s : Consumer) → IsAside s (sweep_runs now topic ids s)
unfolding sweep_runs
sweep_runs-IsAside now topic [] s = aside s
sweep_runs-IsAside now topic (i ∷ ids) s =
    IsAside-trans s _ _
      (record { db_eq = refl; batch_eq = refl; committed_eq = refl; seen_eq = refl })
      (sweep_runs-IsAside now topic ids _)

pub sweep-IsAside : (now : ℕ) (topic : Text) (s : Consumer) → IsAside s (sweep now topic s)
unfolding sweep
sweep-IsAside now topic s = sweep_runs-IsAside now topic (runs_awaiting topic s.ledger) s

module _ (p : Platform) (d : Database) (w : World) where
  pub park-IsAside :
      (e : BookEvent) (code : RejectionCode) (s : Consumer)
      → Holds (IsAside s) (park p d w e code s)
  unfolding park
  park-IsAside e code s = elim (Bool-cases (w.delivers s.seen)) [
    | inr no' ↦ rw (no', park) tt
    | inl yes' ↦
        rw (yes', park)
          (IsAside-trans s _ _
            (record { db_eq = refl; batch_eq = refl; committed_eq = refl; seen_eq = refl })
            (count-IsAside e.run_id 0 1 _))
  ]

  -- The payloads of a catalogue are those of another after some records.
  abbrev pub HasWritten : List CleanBook → Catalogue → Catalogue → Type 0
  HasWritten rs before after =
      (t : SourceName) (j : Text)
      → payload_of t j after.book_sources
        ≡ updated_by_all rs t j (payload_of t j before.book_sources)

  -- What a flush does: the batch is written, and the offset stays.
  abbrev pub Flushed : List CleanBook → Consumer → Consumer → Type 0
  Flushed rs s s' =
      HasWritten rs s.db s'.db
      × ((s'.batch ≡ []) × ((s'.committed ≡ s.committed) × (s'.seen ≡ s.seen)))

  Flushed-aside :
      (rs : List CleanBook) (s a b : Consumer) → Flushed rs s a → IsAside a b → Flushed rs s b
  Flushed-aside rs s a b h k = (
    λ t j. ap (λ (c : Catalogue). payload_of t j c.book_sources) k.db_eq ∙ h.0 t j,
    (k.batch_eq ∙ h.1.0, (k.committed_eq ∙ h.1.1.0, k.seen_eq ∙ h.1.1.1)),
  )

  flush_batch_written :
      (rs : List CleanBook) (run_id : Option ℕ) (s : Consumer)
      → Holds (Flushed rs s) (flush_batch p d w rs run_id s)
  unfolding flush_batch
  flush_batch_written rs run_id s =
      elim (Result-cases
        (load p d (w.now s.seen) (w.conflicts s.loads) default_batch_size rs s.db)) [
          | inr (x, e) ↦ rw (e, flush_batch) tt
          | inl (out, e) ↦
              let written : HasWritten rs s.db out.db = λ t j.
                load_refines p d (w.now s.seen) (w.conflicts s.loads) default_batch_size rs s.db out
                  t j (omega arith) e in
              elim (Option-cases run_id) [
                | inl n ↦ rw (e, n, flush_batch) (written, (refl, (refl, refl)))
                | inr (i, n) ↦
                    rw (e, n, flush_batch)
                      (Flushed-aside rs s _ _ (written, (refl, (refl, refl)))
                        (count-IsAside i (out.result.books_inserted + out.result.books_updated) 0
                          _))
              ]
        ]

  pub flush_written : (s : Consumer) → Holds (Flushed s.batch s) (flush p d w s)
  unfolding flush
  flush_written s = elim (nil_or_cons s.batch) [
    | inl e ↦ rw (e, flush) ((λ t j. refl), (e, (refl, refl)))
    | inr (b, (bs, e)) ↦ rw (e, flush) (flush_batch_written (b ∷ bs) s.batch_run s)
  ]
