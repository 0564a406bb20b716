-- ===== src/Consumers/Load/Progress.antt =====
-- How far the load consumer is: what it has committed is written.
use book_data_pipeline.Base.{
  ℕ, suc, Option, List, [], ◌∷◌, ◌++◌, length, length-append, ◌≡◌, ◌∙◌, refl, ap, sym, arith, ok,
  err,
}
use book_data_pipeline.Platform.{Platform}
use book_data_pipeline.Domain.{CleanBook}
use book_data_pipeline.Loader.Tables.{Catalogue, Database}
use book_data_pipeline.Loader.Books.Provenance.{payload_of}
use book_data_pipeline.Loader.Batches.Refinement.{updated_by_all, updated_by_all-append}
use book_data_pipeline.Consumers.{Event, book, boundary}
use book_data_pipeline.Consumers.Load.{Consumer, World, commit, prepared}
use book_data_pipeline.Consumers.Load.Written.{++_assoc, ++_nil, IsAside, HasWritten, Flushed}

module _ (p : Platform) (d : Database) (w : World) where
  -- The record of an event, where it has one.
  unfoldable pub record_of : Event → List CleanBook
  record_of (boundary m) = []
  record_of (book e) = elim (prepared p d w e) [
    | err x ↦ []
    | ok answer ↦ elim answer [ err code ↦ [] | ok b ↦ b ∷ [] ]
  ]

  unfoldable pub records_of : List Event → List CleanBook
  records_of [] = []
  records_of (e ∷ es) = record_of e ++ records_of es

  pub records_of-append :
      (es fs : List Event) → records_of (es ++ fs) ≡ records_of es ++ records_of fs
  unfolding records_of
  records_of-append [] fs = refl
  records_of-append (e ∷ es) fs =
      ap (λ rs. record_of e ++ rs) (records_of-append es fs)
      ∙ sym (++_assoc (record_of e) (records_of es) (records_of fs))

  -- The events that are done are the safe ones, up to the offset, and the open ones. The catalogue
  -- holds the records of the safe events and some of the open ones; the others are in the batch, or
  -- pending.
  pub record Progress (before : Catalogue) (done : List Event) (pending : List CleanBook)
      (s : Consumer) : Type 0 where
    pub safe : List Event
    pub open_events : List Event
    pub extra : List CleanBook
    pub done_eq : done ≡ safe ++ open_events
    pub committed_eq : s.committed ≡ length safe
    pub seen_eq : s.seen ≡ length done
    pub open_eq : records_of open_events ≡ extra ++ (s.batch ++ pending)
    pub payloads : HasWritten p d w (records_of safe ++ extra) before s.db

  pub Progress-aside :
      (before : Catalogue) (done : List Event) (pending : List CleanBook) (s s' : Consumer)
      → Progress before done pending s
      → IsAside s s'
      → Progress before done pending s'
  Progress-aside before done pending s s' h k = record {
    safe = h.safe;
    open_events = h.open_events;
    extra = h.extra;
    done_eq = h.done_eq;
    committed_eq = k.committed_eq ∙ h.committed_eq;
    seen_eq = k.seen_eq ∙ h.seen_eq;
    open_eq = h.open_eq ∙ ap (λ b. h.extra ++ (b ++ pending)) (sym k.batch_eq);
    payloads =
        λ t j. ap (λ (c : Catalogue). payload_of t j c.book_sources) k.db_eq ∙ h.payloads t j;
  }

  pub Progress-Flushed :
      (before : Catalogue) (done : List Event) (pending : List CleanBook) (s s' : Consumer)
      → Progress before done pending s
      → Flushed p d w s.batch s s'
      → Progress before done pending s'
  Progress-Flushed before done pending s s' h k = record {
    safe = h.safe;
    open_events = h.open_events;
    extra = h.extra ++ s.batch;
    done_eq = h.done_eq;
    committed_eq = k.1.1.0 ∙ h.committed_eq;
    seen_eq = k.1.1.1 ∙ h.seen_eq;
    open_eq =
        h.open_eq
        ∙ sym (++_assoc h.extra s.batch pending)
        ∙ ap (λ b. (h.extra ++ s.batch) ++ (b ++ pending)) (sym k.1.0);
    payloads = λ t j.
        k.0 t j
        ∙ ap (updated_by_all s.batch t j) (h.payloads t j)
        ∙ sym (
            updated_by_all-append (records_of h.safe ++ h.extra) s.batch t j
              (payload_of t j before.book_sources))
        ∙ ap (λ rs. updated_by_all rs t j (payload_of t j before.book_sources))
            (++_assoc (records_of h.safe) h.extra s.batch);
  }

  pub Progress-committed :
      (before : Catalogue) (done : List Event) (s : Consumer)
      → Progress before done [] s
      → s.batch ≡ []
      → Progress before done [] (commit s)
  unfolding commit records_of
  Progress-committed before done s h empty =
      let none_open : records_of h.open_events ≡ h.extra =
        h.open_eq ∙ ap (λ b. h.extra ++ (b ++ [])) empty ∙ ++_nil h.extra in
      let all : records_of done ≡ records_of h.safe ++ h.extra =
        ap records_of h.done_eq
        ∙ records_of-append h.safe h.open_events
        ∙ ap (λ rs. records_of h.safe ++ rs) none_open in
      record {
        safe = done;
        open_events = [];
        extra = [];
        done_eq = sym (++_nil done);
        committed_eq = h.seen_eq;
        seen_eq = h.seen_eq;
        open_eq = ap (λ b. b ++ []) (sym empty);
        payloads = λ t j.
            h.payloads t j
            ∙ ap (λ rs. updated_by_all rs t j (payload_of t j before.book_sources))
                (sym (++_nil (records_of done) ∙ all));
      }

  pub Progress-seen :
      (before : Catalogue) (done : List Event) (e : Event) (s : Consumer)
      → Progress before done [] s
      → Progress before (done ++ e ∷ []) (record_of e) (record s { seen = suc s.seen })
  unfolding records_of
  Progress-seen before done e s h = record {
    safe = h.safe;
    open_events = h.open_events ++ e ∷ [];
    extra = h.extra;
    done_eq = ap (λ es. es ++ e ∷ []) h.done_eq ∙ ++_assoc h.safe h.open_events (e ∷ []);
    committed_eq = h.committed_eq;
    seen_eq = omega (arith, h.seen_eq, length-append done (e ∷ []));
    open_eq =
        records_of-append h.open_events (e ∷ [])
        ∙ ap (λ rs. records_of h.open_events ++ rs) (++_nil (record_of e))
        ∙ ap (λ rs. rs ++ record_of e) (h.open_eq ∙ ap (λ b. h.extra ++ b) (++_nil s.batch))
        ∙ ++_assoc h.extra s.batch (record_of e);
    payloads = h.payloads;
  }

  pub Progress-taken :
      (before : Catalogue) (done : List Event) (b : CleanBook) (run_id : Option ℕ) (s : Consumer)
      → Progress before done (b ∷ []) s
      → Progress before done [] (record s { batch = s.batch ++ b ∷ []; batch_run = run_id })
  Progress-taken before done b run_id s h = record {
    safe = h.safe;
    open_events = h.open_events;
    extra = h.extra;
    done_eq = h.done_eq;
    committed_eq = h.committed_eq;
    seen_eq = h.seen_eq;
    open_eq = h.open_eq ∙ ap (λ bs. h.extra ++ bs) (sym (++_nil (s.batch ++ b ∷ [])));
    payloads = h.payloads;
  }
