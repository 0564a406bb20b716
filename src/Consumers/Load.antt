-- ===== src/Consumers/Load.antt =====
-- services/load_consumer.py: clean events into the catalogue, and runs closed.
pub mod Written
pub mod Progress
pub mod Steps
pub mod Restart
pub mod Tests
use book_data_pipeline.Base.{
  ℕ, zero, suc, ◌+◌, Text, Bool, true, false, not, ◌&&◌, ◌||◌, ◌==◌, leb, if◌then◌else◌, Option,
  none, some, List, [], ◌∷◌, ◌++◌, length, Result, ok, err, ◌>>=◌,
}
use book_data_pipeline.Platform.{Platform}
use book_data_pipeline.Domain.{CleanBook}
use book_data_pipeline.Identity.{IdentityError}
use book_data_pipeline.Series.{SeriesError}
use book_data_pipeline.Canonicalise.{
  canonicalise, Canonicalised, clean, rejected, identity_raised, series_raised, RejectionCode,
  invalid_record,
}
use book_data_pipeline.Loader.Tables.{Catalogue, LoadResult, Database}
use book_data_pipeline.Loader.Batches.{Conflict, Stopped, default_batch_size, load}
use book_data_pipeline.Runs.{Ledger}
use book_data_pipeline.Runs.Markers.{
  record_marker, runs_awaiting, record_loaded, finalise_if_complete,
}
use book_data_pipeline.Consumers.{BookEvent, PartitionMarker, Event, book, boundary}

-- `ACCOUNTING_FLUSH`
abbrev pub accounting_flush : ℕ
accounting_flush = 25

-- A record of the dead-letter topic, with its code.
pub record Parked : Type 0 where
  pub event : BookEvent
  pub code : RejectionCode

-- `LoadStats`
pub record LoadStats : Type 0 where
  pub loaded : ℕ
  pub rejected : ℕ
  pub markers : ℕ
  pub runs_finalised : ℕ

-- The counts of a run that are not written yet.
pub record Tally : Type 0 where
  pub run_id : ℕ
  pub loaded : ℕ
  pub rejected : ℕ

-- The consumer with what it writes to: the catalogue, the ledger, the dead-letter topic, and the
-- number of events up to which the offset is committed. `seen` counts the events, and `loads` the
-- loads.
pub record Consumer : Type 0 where
  pub db : Catalogue
  pub ledger : Ledger
  pub parked : List Parked
  pub committed : ℕ
  pub seen : ℕ
  pub loads : ℕ
  pub tally : List Tally
  pub stats : LoadStats
  pub batch : List CleanBook
  pub batch_run : Option ℕ

-- What stops the consumer.
pub data Failure : Type 0 where
  load_stopped : Stopped → Failure
  parking_failed : Failure
  canonicalise_raised_identity : IdentityError → Failure
  canonicalise_raised_series : SeriesError → Failure

-- What happens around it: the time at an event, the conflicts of a load, whether an event that is
-- parked is delivered.
pub record World : Type 0 where
  pub now : ℕ → ℕ
  pub conflicts : ℕ → ℕ → ℕ → Option Conflict
  pub delivers : ℕ → Bool

pub records_loaded : LoadResult → ℕ
records_loaded r = r.books_inserted + r.books_updated + r.books_unchanged

-- The pending entry of a run, with more in it.
pub add_to : ℕ → ℕ → ℕ → List Tally → List Tally
add_to run_id more refused [] = record { run_id = run_id; loaded = more; rejected = refused } ∷ []
add_to run_id more refused (t ∷ ts) =
    let rest = add_to run_id more refused ts in
    if t.run_id == run_id
    then record t { loaded = t.loaded + more; rejected = t.rejected + refused } ∷ ts
    else t ∷ rest

-- The entry of a run that has enough in it to be written, if there is one.
pub due : ℕ → List Tally → Option Tally
due run_id [] = none
due run_id (t ∷ ts) =
    let rest = due run_id ts in
    if t.run_id == run_id
    then (if leb accounting_flush (t.loaded + t.rejected) then some t else none)
    else rest

pub without : ℕ → List Tally → List Tally
without run_id [] = []
without run_id (t ∷ ts) =
    let rest = without run_id ts in if t.run_id == run_id then rest else t ∷ rest

-- `_count`, with `_write_tally` of one run
pub count : ℕ → ℕ → ℕ → Consumer → Consumer
unfolding add_to due without
count run_id more refused s =
    let tally : List Tally = add_to run_id more refused s.tally in
    elim (due run_id tally) [
      | none ↦ record s { tally = tally }
      | some t ↦ record s {
        tally = without run_id tally;
        ledger = record_loaded run_id t.loaded t.rejected s.ledger;
      }
    ]

pub written_tally : List Tally → Ledger → Ledger
written_tally [] l = l
written_tally (t ∷ ts) l = written_tally ts (record_loaded t.run_id t.loaded t.rejected l)

-- `_write_tally` of all runs
pub write_tally : Consumer → Consumer
unfolding written_tally
write_tally s = record s { tally = []; ledger = written_tally s.tally s.ledger }

-- `self._source.commit()`
pub commit : Consumer → Consumer
commit s = record s { committed = s.seen }

-- `_handle_marker`
pub handle_marker : ℕ → PartitionMarker → Consumer → Consumer
handle_marker now m s =
    let (finalised, ledger) =
      finalise_if_complete now m.run_id m.topic
        (record_marker m.run_id m.topic m.partition s.ledger).1 in
    record s {
      ledger = ledger;
      stats = record s.stats {
        markers = suc s.stats.markers;
        runs_finalised = if finalised then suc s.stats.runs_finalised else s.stats.runs_finalised;
      };
    }

-- The loop of `sweep`
pub sweep_runs : ℕ → Text → List ℕ → Consumer → Consumer
sweep_runs now topic [] s = s
sweep_runs now topic (run_id ∷ rest) s =
    let (finalised, ledger) = finalise_if_complete now run_id topic s.ledger in
    sweep_runs now topic rest (record s {
      ledger = ledger;
      stats = record s.stats {
        runs_finalised = if finalised then suc s.stats.runs_finalised else s.stats.runs_finalised;
      };
    })

-- `sweep`
pub sweep : ℕ → Text → Consumer → Consumer
unfolding sweep_runs
sweep now topic s = sweep_runs now topic (runs_awaiting topic s.ledger) s

-- `event.run_id != batch_run`
pub is_other_run : ℕ → Option ℕ → Bool
is_other_run run_id none = true
is_other_run run_id (some r) = not (r == run_id)

module _ (p : Platform) (d : Database) (w : World) where
  -- The load of a batch that is not empty, in `_flush`.
  pub flush_batch : List CleanBook → Option ℕ → Consumer → Result Failure Consumer
  unfolding records_loaded count
  flush_batch batch run s =
      elim (load p d (w.now s.seen) (w.conflicts s.loads) default_batch_size batch s.db) [
        | err e ↦ err (load_stopped e)
        | ok out ↦
            let after : Consumer = record s {
              db = out.db;
              loads = suc s.loads;
              batch = [];
              stats = record s.stats { loaded = s.stats.loaded + records_loaded out.result };
            } in
            ok (elim run [
              | none ↦ after
              | some run_id ↦
                  count run_id (out.result.books_inserted + out.result.books_updated) 0 after
            ])
      ]

  -- `_flush`
  pub flush : Consumer → Result Failure Consumer
  unfolding flush_batch
  flush s = elim s.batch [ [] ↦ ok s | b ∷ bs ↦ flush_batch (b ∷ bs) s.batch_run s ]

  -- `_park`
  pub park : BookEvent → RejectionCode → Consumer → Result Failure Consumer
  unfolding count
  park e code s =
      if w.delivers s.seen
      then ok (
          count e.run_id 0 1 (record s {
            parked = s.parked ++ record { event = e; code = code } ∷ [];
            stats = record s.stats { rejected = suc s.stats.rejected };
          }))
      else err parking_failed

  -- What `_prepare` makes of an event.
  pub prepared : BookEvent → Result Failure (Result RejectionCode CleanBook)
  prepared e = elim (d.map_payload e.source e.payload) [
    | none ↦ ok (err invalid_record)
    | some raw ↦ elim (canonicalise p raw) [
      | clean b ↦ ok (ok b)
      | rejected x ↦ ok (err x.rejection_code)
      | identity_raised x ↦ err (canonicalise_raised_identity x)
      | series_raised x ↦ err (canonicalise_raised_series x)
    ]
  ]

  -- The batch is written, and the offset committed, once it has its size.
  pub close_if_full : ℕ → Consumer → Result Failure Consumer
  unfolding flush commit
  close_if_full size s =
      if leb size (length s.batch) then (flush s >>= λ t. ok (commit t)) else ok s

  -- The record of an event joins the batch, after the records of another run are written.
  pub take_in : ℕ → BookEvent → CleanBook → Consumer → Result Failure Consumer
  unfolding flush close_if_full is_other_run
  take_in size e b s = (if is_other_run e.run_id s.batch_run then flush s else ok s) >>= λ s'.
      close_if_full size (record s' { batch = s'.batch ++ b ∷ []; batch_run = some e.run_id })

  -- One event of the loop of `run`.
  pub step : ℕ → Event → Consumer → Result Failure Consumer
  unfolding flush commit write_tally handle_marker park prepared take_in
  step size (boundary m) s =
      let s' : Consumer = record s { seen = suc s.seen } in
      flush s' >>= λ t. ok (commit (handle_marker (w.now t.seen) m (write_tally t)))
  step size (book e) s =
      let s' : Consumer = record s { seen = suc s.seen } in
      prepared e >>= λ answer. elim answer [
        | err code ↦ park e code s' >>= λ t. flush t >>= λ t'. ok (commit t')
        | ok b ↦ take_in size e b s'
      ]

  pub steps : ℕ → List Event → Consumer → Result Failure Consumer
  unfolding step
  steps size [] s = ok s
  steps size (e ∷ es) s = step size e s >>= λ s'. steps size es s'

  -- The end of `run`: the last batch, and the counts.
  pub finish : Consumer → Result Failure Consumer
  unfolding flush commit write_tally
  finish s = elim s.batch [
    | [] ↦ ok (write_tally s)
    | b ∷ bs ↦ flush s >>= λ t. ok (write_tally (commit t))
  ]

  -- `run`, over a source that stops; a batch size of 0 is 1.
  pub run : Text → ℕ → List Event → Consumer → Result Failure Consumer
  unfolding sweep steps finish
  run topic batch_size events s =
      steps (if batch_size == 0 then 1 else batch_size) events
        (record (sweep (w.now s.seen) topic s) { batch = []; batch_run = none })
      >>= finish
