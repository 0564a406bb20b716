-- ===== src/Consumers/Load/Steps.antt =====
-- Every step of the load consumer keeps its progress.
use book_data_pipeline.Base.{
  ℕ, suc, Bool, true, false, leb, if◌then◌else◌, some, List, [], ◌∷◌, ◌++◌, length, ◌≡◌, ◌∙◌, refl,
  ap, sym, inl, inr, Bool-cases, ok, err, ◌>>=◌, Result-cases, Holds, Holds-bind, Holds-of,
  Holds_ok,
}
use mathlib.Core.Path.{subst}
use book_data_pipeline.Platform.{Platform}
use book_data_pipeline.Domain.{CleanBook}
use book_data_pipeline.Canonicalise.{RejectionCode}
use book_data_pipeline.Loader.Tables.{Catalogue, Database}
use book_data_pipeline.Consumers.{BookEvent, PartitionMarker, Event, book, boundary}
use book_data_pipeline.Consumers.Load.{
  Consumer, World, write_tally, commit, handle_marker, flush, park, prepared, is_other_run,
  close_if_full, take_in, step, steps,
}
use book_data_pipeline.Consumers.Load.Written.{
  ++_assoc, ++_nil, IsAside, write_tally-IsAside, handle_marker-IsAside, park-IsAside, Flushed,
  flush_written,
}
use book_data_pipeline.Consumers.Load.Progress.{
  record_of, records_of, Progress, Progress-aside, Progress-Flushed, Progress-committed,
  Progress-seen, Progress-taken,
}

module _ (p : Platform) (d : Database) (w : World) where
  pub flush-Progress :
      (before : Catalogue) (done : List Event) (pending : List CleanBook) (s : Consumer)
      → Progress p d w before done pending s
      → Holds (λ t. Progress p d w before done pending t × (t.batch ≡ [])) (flush p d w s)
  flush-Progress before done pending s h = Holds-of _ (flush p d w s) (λ t e.
      let flushed =
        Holds_ok (Flushed p d w s.batch s) (flush p d w s) t (flush_written p d w s) e in
      (Progress-Flushed p d w before done pending s t h flushed, flushed.1.0))

  flush_if :
      (other : Bool) (before : Catalogue) (done : List Event) (pending : List CleanBook)
      (s : Consumer)
      → Progress p d w before done pending s
      → Holds (Progress p d w before done pending) (if other then flush p d w s else ok s)
  flush_if false before done pending s h = h
  flush_if true before done pending s h =
      Holds-of _ (flush p d w s)
        (λ t e. (Holds_ok _ (flush p d w s) t (flush-Progress before done pending s h) e).0)

  close_if_full-Progress :
      (size : ℕ) (before : Catalogue) (done : List Event) (s : Consumer)
      → Progress p d w before done [] s
      → Holds (Progress p d w before done []) (close_if_full p d w size s)
  unfolding close_if_full
  close_if_full-Progress size before done s h = elim (Bool-cases (leb size (length s.batch))) [
    | inr e ↦ rw (e, close_if_full) h
    | inl e ↦
        rw (e, close_if_full)
          (Holds-bind (λ t. Progress p d w before done [] t × (t.batch ≡ []))
            (Progress p d w before done []) (flush p d w s) (λ t. ok (commit t))
            (flush-Progress before done [] s h)
            (λ t _ k. Progress-committed p d w before done t k.0 k.1))
  ]

  take_in-Progress :
      (size : ℕ) (before : Catalogue) (done : List Event) (e : BookEvent) (b : CleanBook)
      (s : Consumer)
      → Progress p d w before done (b ∷ []) s
      → Holds (Progress p d w before done []) (take_in p d w size e b s)
  unfolding take_in
  take_in-Progress size before done e b s h =
      let other = is_other_run e.run_id s.batch_run in
      Holds-bind (Progress p d w before done (b ∷ [])) (Progress p d w before done [])
        (if other then flush p d w s else ok s)
        (λ s'.
          close_if_full p d w size
            (record s' { batch = s'.batch ++ b ∷ []; batch_run = some e.run_id }))
        (flush_if other before done (b ∷ []) s h)
        (λ t _ k.
          close_if_full-Progress size before done _
            (Progress-taken p d w before done b (some e.run_id) t k))

  marker-Progress :
      (size : ℕ) (before : Catalogue) (done : List Event) (m : PartitionMarker) (s : Consumer)
      → Progress p d w before done [] s
      → Holds
          (Progress p d w before done [])
          (flush p d w s >>= λ t. ok (commit (handle_marker (w.now t.seen) m (write_tally t))))
  marker-Progress size before done m s h =
      Holds-bind (λ t. Progress p d w before done [] t × (t.batch ≡ []))
        (Progress p d w before done []) (flush p d w s)
        (λ t. ok (commit (handle_marker (w.now t.seen) m (write_tally t))))
        (flush-Progress before done [] s h)
        (λ t _ k.
          let tallied = write_tally-IsAside t in
          let handled = handle_marker-IsAside (w.now t.seen) m (write_tally t) in
          Progress-committed p d w before done _
            (Progress-aside p d w before done [] (write_tally t) _
              (Progress-aside p d w before done [] t (write_tally t) k.0 tallied) handled)
            (handled.batch_eq ∙ tallied.batch_eq ∙ k.1))

  park-Progress :
      (before : Catalogue) (done : List Event) (e : BookEvent) (code : RejectionCode) (s : Consumer)
      → Progress p d w before done [] s
      → Holds
          (Progress p d w before done [])
          (park p d w e code s >>= λ t. flush p d w t >>= λ t'. ok (commit t'))
  park-Progress before done e code s h =
      Holds-bind (IsAside s) (Progress p d w before done []) (park p d w e code s)
        (λ t. flush p d w t >>= λ t'. ok (commit t')) (park-IsAside p d w e code s)
        (λ t _ k.
          Holds-bind (λ t'. Progress p d w before done [] t' × (t'.batch ≡ []))
            (Progress p d w before done []) (flush p d w t) (λ t'. ok (commit t'))
            (flush-Progress before done [] t (Progress-aside p d w before done [] s t h k))
            (λ t' _ k'. Progress-committed p d w before done t' k'.0 k'.1))

  step-Progress :
      (size : ℕ) (before : Catalogue) (done : List Event) (e : Event) (s : Consumer)
      → Progress p d w before done [] s
      → Holds (Progress p d w before (done ++ e ∷ []) []) (step p d w size e s)
  unfolding step record_of
  step-Progress size before done (boundary m) s h =
      marker-Progress size before (done ++ boundary m ∷ []) m (record s { seen = suc s.seen })
        (Progress-seen p d w before done (boundary m) s h)
  step-Progress size before done (book e) s h =
      let seen = Progress-seen p d w before done (book e) s h in
      let s' : Consumer = record s { seen = suc s.seen } in
      elim (Result-cases (prepared p d w e)) [
        | inr (x, r) ↦ rw (r, step) tt
        | inl (err code, r) ↦
            let nothing : record_of p d w (book e) ≡ [] = rw (r, record_of) refl in
            rw (r, step)
              (park-Progress before (done ++ book e ∷ []) e code s'
                (subst (λ rs. Progress p d w before (done ++ book e ∷ []) rs s') nothing seen))
        | inl (ok b, r) ↦
            let one : record_of p d w (book e) ≡ b ∷ [] = rw (r, record_of) refl in
            rw (r, step)
              (take_in-Progress size before (done ++ book e ∷ []) e b s'
                (subst (λ rs. Progress p d w before (done ++ book e ∷ []) rs s') one seen))
      ]

  pub steps-Progress :
      (size : ℕ) (before : Catalogue) (es : List Event) (done : List Event) (s : Consumer)
      → Progress p d w before done [] s
      → Holds (Progress p d w before (done ++ es) []) (steps p d w size es s)
  unfolding steps
  steps-Progress size before [] done s h =
      subst (λ done'. Progress p d w before done' [] s) (sym (++_nil done)) h
  steps-Progress size before (e ∷ es) done s h =
      Holds-bind (Progress p d w before (done ++ e ∷ []) [])
        (Progress p d w before (done ++ e ∷ es) []) (step p d w size e s) (steps p d w size es)
        (step-Progress size before done e s h)
        (λ t _ k.
          subst (λ done'. Holds (Progress p d w before done' []) (steps p d w size es t))
            (++_assoc done (e ∷ []) es) (steps-Progress size before es (done ++ e ∷ []) t k))

  pub start-Progress :
      (s : Consumer) → s.batch ≡ [] → s.seen ≡ 0 → s.committed ≡ 0 → Progress p d w s.db [] [] s
  unfolding records_of
  start-Progress s no_batch no_seen no_committed = record {
    safe = [];
    open_events = [];
    extra = [];
    done_eq = refl;
    committed_eq = no_committed;
    seen_eq = no_seen;
    open_eq = ap (λ b. b ++ []) (sym no_batch);
    payloads = λ t j. refl;
  }
