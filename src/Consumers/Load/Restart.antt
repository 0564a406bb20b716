-- ===== src/Consumers/Load/Restart.antt =====
-- A run of the load consumer, and a run after it stopped.
use book_data_pipeline.Base.{
  ℕ, Text, ◌==◌, if◌then◌else◌, Option, none, some, List, [], ◌∷◌, ◌++◌, length, drop, ◌≡◌, ◌∙◌,
  ◌⊎◌, refl, ap, sym, inl, inr, Bool-cases, ◌&&◌, text_eq, ok, Holds, Holds-bind, Holds_ok,
}
use book_data_pipeline.Platform.{Platform}
use book_data_pipeline.Identity.Document.{Fields}
use book_data_pipeline.Domain.{SourceName, same_source, CleanBook}
use book_data_pipeline.Loader.Tables.{Catalogue, Database}
use book_data_pipeline.Loader.Books.Provenance.{payload_of}
use book_data_pipeline.Loader.Books.Refinement.{updated_by}
use book_data_pipeline.Loader.Batches.Refinement.{updated_by_all, updated_by_all-append}
use book_data_pipeline.Consumers.{Event}
use book_data_pipeline.Consumers.Load.{
  Consumer, World, write_tally, commit, flush, steps, finish, run, sweep,
}
use book_data_pipeline.Consumers.Load.Written.{
  ++_assoc, ++_nil, nil_or_cons, sweep-IsAside, HasWritten,
}
use book_data_pipeline.Consumers.Load.Progress.{records_of, records_of-append, Progress}
use book_data_pipeline.Consumers.Load.Steps.{flush-Progress, steps-Progress, start-Progress}

-- The update by a sequence of records keeps what was there, or puts a payload of its own.
updated_by_all_cases :
    (rs : List CleanBook) (t : SourceName) (j : Text)
    → ((old : Option Fields) → updated_by_all rs t j old ≡ old)
      ⊎ ((c : Option Fields) × ((old : Option Fields) → updated_by_all rs t j old ≡ c))
updated_by_all_cases [] t j = inl (λ old. refl)
updated_by_all_cases (r ∷ rs) t j = elim (updated_by_all_cases rs t j) [
  | inr (c, h) ↦ inr (c, λ old. h (updated_by r t j old))
  | inl h ↦ elim (Bool-cases (same_source r.source t && text_eq r.source_id j)) [
    | inl e ↦ inr (some r.raw_payload, λ old. h (updated_by r t j old) ∙ rw e refl)
    | inr e ↦ inl (λ old. h (updated_by r t j old) ∙ rw e refl)
  ]
]

-- Records that are written a second time change nothing.
updated_twice :
    (rs : List CleanBook) (t : SourceName) (j : Text) (old : Option Fields)
    → updated_by_all rs t j (updated_by_all rs t j old) ≡ updated_by_all rs t j old
updated_twice rs t j old = elim (updated_by_all_cases rs t j) [
  | inl h ↦ h (updated_by_all rs t j old)
  | inr (c, h) ↦ h (updated_by_all rs t j old) ∙ sym (h old)
]

-- Records of which a first part is written already come to the same as all of them.
replayed_part :
    (rs vs ts : List CleanBook) (t : SourceName) (j : Text) (old : Option Fields)
    → updated_by_all (vs ++ ts) t j (updated_by_all (rs ++ vs) t j old)
      ≡ updated_by_all (rs ++ (vs ++ ts)) t j old
replayed_part rs vs ts t j old =
    let once = updated_by_all rs t j old in
    updated_by_all-append vs ts t j (updated_by_all (rs ++ vs) t j old)
    ∙ ap (λ x. updated_by_all ts t j (updated_by_all vs t j x))
        (updated_by_all-append rs vs t j old)
    ∙ ap (updated_by_all ts t j) (updated_twice vs t j once)
    ∙ sym (updated_by_all-append vs ts t j once)
    ∙ sym (updated_by_all-append rs (vs ++ ts) t j old)

drop-length : {A : Type 0} (xs ys : List A) → drop (length xs) (xs ++ ys) ≡ ys
drop-length [] ys = refl
drop-length (x ∷ xs) ys = drop-length xs ys

module _ (p : Platform) (d : Database) (w : World) where
  -- With an empty batch, every record is written.
  all_written :
      (before : Catalogue) (done : List Event) (s : Consumer)
      → Progress p d w before done [] s
      → s.batch ≡ []
      → HasWritten p d w (records_of p d w done) before s.db
  all_written before done s h empty t j =
      let none_open : records_of p d w h.open_events ≡ h.extra =
        h.open_eq ∙ ap (λ b. h.extra ++ (b ++ [])) empty ∙ ++_nil h.extra in
      let all : records_of p d w done ≡ records_of p d w h.safe ++ h.extra =
        ap (records_of p d w) h.done_eq
        ∙ records_of-append p d w h.safe h.open_events
        ∙ ap (λ rs. records_of p d w h.safe ++ rs) none_open in
      h.payloads t j
      ∙ ap (λ rs. updated_by_all rs t j (payload_of t j before.book_sources)) (sym all)

  finish_written :
      (before : Catalogue) (done : List Event) (s : Consumer)
      → Progress p d w before done [] s
      → Holds
          (λ (s' : Consumer). HasWritten p d w (records_of p d w done) before s'.db)
          (finish p d w s)
  unfolding finish write_tally commit
  finish_written before done s h = elim (nil_or_cons s.batch) [
    | inl e ↦ rw (e, finish) (all_written before done s h e)
    | inr (b, (bs, e)) ↦
        rw (e, finish)
          (Holds-bind (λ t. Progress p d w before done [] t × (t.batch ≡ [])) _ (flush p d w s)
            (λ t. ok (write_tally (commit t))) (flush-Progress p d w before done [] s h)
            (λ t _ k. all_written before done t k.0 k.1))
  ]

  -- A consumer that starts with nothing seen, nothing committed and an empty batch has, after any
  -- events that it takes without an error, written the records of all events up to the offset that
  -- it has committed: the catalogue holds the payloads of those and of a first part of the records
  -- after them, the rest of which is in its batch.
  pub steps-Progress-committed :
      (size : ℕ) (es : List Event) (s s' : Consumer)
      → s.batch ≡ []
      → s.seen ≡ 0
      → s.committed ≡ 0
      → steps p d w size es s ≡ ok s'
      → Progress p d w s.db es [] s'
  steps-Progress-committed size es s s' no_batch no_seen no_committed h =
      Holds_ok _ (steps p d w size es s) s'
        (steps-Progress p d w size s.db es [] s
          (start-Progress p d w s no_batch no_seen no_committed))
        h

  -- A run over events that ends without an error has written the record of every event: the payload
  -- of each ingestion identity is that of its last record, or what it was before, whatever the
  -- batch size, the markers and the parked events in between.
  pub run_writes :
      (topic : Text) (size : ℕ) (es : List Event) (s s' : Consumer) (t : SourceName) (j : Text)
      → s.seen ≡ 0
      → s.committed ≡ 0
      → run p d w topic size es s ≡ ok s'
      → payload_of t j s'.db.book_sources
        ≡ updated_by_all (records_of p d w es) t j (payload_of t j s.db.book_sources)
  unfolding run
  run_writes topic size es s s' t j no_seen no_committed h =
      let start : Consumer = record (sweep (w.now s.seen) topic s) {
        batch = [];
        batch_run = none;
      } in
      let beside = sweep-IsAside (w.now s.seen) topic s in
      let n : ℕ = if size == 0 then 1 else size in
      let first =
        start-Progress p d w start refl (beside.seen_eq ∙ no_seen)
          (beside.committed_eq ∙ no_committed) in
      let written =
        Holds_ok (λ (x : Consumer). HasWritten p d w (records_of p d w es) start.db x.db)
          (run p d w topic size es s) s'
          (Holds-bind (Progress p d w start.db es []) _ (steps p d w n es start) (finish p d w)
            (steps-Progress p d w n start.db es [] start first)
            (λ x _ k. finish_written start.db es x k))
          h in
      written t j
      ∙ ap
          (λ (c : Catalogue).
            updated_by_all (records_of p d w es) t j (payload_of t j c.book_sources))
          beside.db_eq

  -- Where a consumer that starts with an empty batch and with nothing seen or committed takes some
  -- events without an error and then stops, and a run that starts from its catalogue, with nothing
  -- seen or committed, takes the events that it had not committed and later ones and ends without
  -- an error, the catalogue is as if one run had taken all events: the payload of each ingestion
  -- identity is that of its last record among them, or what it was. No record is lost, and one that
  -- is written twice does no harm.
  pub restart_writes :
      (topic : Text) (size size' : ℕ) (es later : List Event) (s s' fresh s'' : Consumer)
      (t : SourceName) (j : Text)
      → s.batch ≡ []
      → s.seen ≡ 0
      → s.committed ≡ 0
      → steps p d w size es s ≡ ok s'
      → fresh.db ≡ s'.db
      → fresh.seen ≡ 0
      → fresh.committed ≡ 0
      → run p d w topic size' (drop s'.committed es ++ later) fresh ≡ ok s''
      → payload_of t j s''.db.book_sources
        ≡ updated_by_all (records_of p d w (es ++ later)) t j (payload_of t j s.db.book_sources)
  restart_writes topic size size' es later s s' fresh s'' t j no_batch no_seen no_committed h same
        no_seen' no_committed' k =
      let h' = steps-Progress-committed size es s s' no_batch no_seen no_committed h in
      let tail = (s'.batch ++ []) ++ records_of p d w later in
      let rest : drop s'.committed es ≡ h'.open_events =
        ap (λ n. drop n es) h'.committed_eq
        ∙ ap (drop (length h'.safe)) h'.done_eq
        ∙ drop-length h'.safe h'.open_events in
      let opened : records_of p d w (h'.open_events ++ later) ≡ h'.extra ++ tail =
        records_of-append p d w h'.open_events later
        ∙ ap (λ rs. rs ++ records_of p d w later) h'.open_eq
        ∙ ++_assoc h'.extra (s'.batch ++ []) (records_of p d w later) in
      let whole : records_of p d w (es ++ later) ≡ records_of p d w h'.safe ++ (h'.extra ++ tail) =
        ap (λ es'. records_of p d w (es' ++ later)) h'.done_eq
        ∙ ap (records_of p d w) (++_assoc h'.safe h'.open_events later)
        ∙ records_of-append p d w h'.safe (h'.open_events ++ later)
        ∙ ap (λ rs. records_of p d w h'.safe ++ rs) opened in
      run_writes topic size' (drop s'.committed es ++ later) fresh s'' t j no_seen' no_committed' k
      ∙ ap
          (λ es'.
            updated_by_all (records_of p d w (es' ++ later)) t j
              (payload_of t j fresh.db.book_sources))
          rest
      ∙ ap (λ rs. updated_by_all rs t j (payload_of t j fresh.db.book_sources)) opened
      ∙ ap
          (λ (c : Catalogue). updated_by_all (h'.extra ++ tail) t j (payload_of t j c.book_sources))
          same
      ∙ ap (updated_by_all (h'.extra ++ tail) t j) (h'.payloads t j)
      ∙ replayed_part (records_of p d w h'.safe) h'.extra tail t j
          (payload_of t j s.db.book_sources)
      ∙ ap (λ rs. updated_by_all rs t j (payload_of t j s.db.book_sources)) (sym whole)
