-- ===== src/Consumers/Load/Tests.antt =====
-- A consumer that stops before it writes a batch, and one that starts again.
use book_data_pipeline.Base.{
  codes, Bool, true, false, some, none, List, [], ◌∷◌, ◌++◌, ◌≡◌, refl, Result, ok, err,
}
use book_data_pipeline.Identity.Document.{null, end, field}
use book_data_pipeline.Domain.{openlibrary}
use book_data_pipeline.Canonicalise.Tests.{with_isbn_clean, with_isbn_is_clean}
use book_data_pipeline.Loader.Books.Tests.{platform}
use book_data_pipeline.Loader.Books.Provenance.{payload_of}
use book_data_pipeline.Loader.Batches.{Conflict}
use book_data_pipeline.Loader.Batches.Refinement.{updated_by_all}
use book_data_pipeline.Loader.Batches.Tests.{calm, no_books, selective}
use book_data_pipeline.Runs.Markers.Tests.{frozen}
use book_data_pipeline.Consumers.{BookEvent, book_clean, Event, book, boundary}
use book_data_pipeline.Consumers.Load.{
  Consumer, Failure, World, prepared, step, steps, run, take_in, close_if_full, is_other_run, flush,
  flush_batch, finish, sweep, sweep_runs, commit,
}
use book_data_pipeline.Consumers.Load.Progress.{records_of}
use book_data_pipeline.Consumers.Load.Restart.{restart_writes}

abbrev pub world : World
world = record { now = λ n. 0; conflicts = λ load n. calm; delivers = λ n. true }

abbrev pub emma_event : BookEvent
emma_event = record {
  run_id = 1;
  event_type = book_clean;
  source = openlibrary;
  source_id = codes "OL1W";
  payload = field (codes "key") null end;
  identity_key = some (codes "isbn:9780199535675");
}

abbrev events : List Event
events = book emma_event ∷ []

abbrev later : List Event
later = boundary (record { run_id = 1; topic = codes "books.clean"; partition = 0 }) ∷ []

abbrev start : Consumer
start = record {
  db = no_books;
  ledger = frozen;
  parked = [];
  committed = 0;
  seen = 0;
  loads = 0;
  tally = [];
  stats = record { loaded = 0; rejected = 0; markers = 0; runs_finalised = 0 };
  batch = [];
  batch_run = none;
}

pub prepared_emma : prepared platform selective world emma_event ≡ ok (ok with_isbn_clean)
unfolding prepared
prepared_emma = rw (prepared, with_isbn_is_clean) refl

-- The record waits in the batch.
abbrev stopped : Consumer
stopped = record start { seen = 1; batch = with_isbn_clean ∷ []; batch_run = some 1 }

stops : steps platform selective world 2 events start ≡ ok stopped
unfolding steps step take_in close_if_full is_other_run flush
stops = rw (steps, step, prepared_emma) refl

abbrev is_ok : {E A : Type 0} → Result E A → Bool
is_ok (ok a) = true
is_ok (err e) = false

abbrev value : {E A : Type 0} → A → Result E A → A
value a (ok b) = b
value a (err e) = a

ok_value : {E A : Type 0} (a : A) (m : Result E A) → is_ok m ≡ true → m ≡ ok (value a m)
ok_value a (ok b) h = refl
ok_value a (err e) h = cc

abbrev again : Result Failure Consumer
again = run platform selective world (codes "books.clean") 1 (book emma_event ∷ later) start

runs_again : is_ok again ≡ true
unfolding run steps step take_in close_if_full is_other_run flush flush_batch finish sweep
    sweep_runs book_data_pipeline.Runs.Markers.runs_awaiting commit
    book_data_pipeline.Loader.Books.load_one book_data_pipeline.Loader.Batches.load
    book_data_pipeline.Loader.Batches.load_batches book_data_pipeline.Loader.Batches.load_batch
    book_data_pipeline.Loader.Batches.retry_batch book_data_pipeline.Loader.Batches.attempt_batch
    book_data_pipeline.Loader.Batches.load_records book_data_pipeline.Loader.Batches.batched
    book_data_pipeline.Loader.Batches.batched_from book_data_pipeline.Loader.Batches.no_counts
    book_data_pipeline.Loader.Batches.batch_size_of
runs_again = rw prepared_emma refl

restart_writes_example :
    payload_of openlibrary (codes "OL1W") (value start again).db.book_sources
    ≡ updated_by_all
        (records_of platform selective world (events ++ later))
        openlibrary
        (codes "OL1W")
        (payload_of openlibrary (codes "OL1W") start.db.book_sources)
restart_writes_example =
    restart_writes platform selective world (codes "books.clean") 2 1 events later start stopped
      start (value start again) openlibrary (codes "OL1W") refl refl refl stops refl refl refl
      (ok_value start again runs_again)
