-- ===== src/Consumers/Transform.antt =====
-- services/transform_consumer.py: raw events into clean ones, and run boundaries passed on.
mod Tests
use book_data_pipeline.Base.{
  ℕ, suc, Text, Bool, true, false, if◌then◌else◌, Option, none, some, List, [], ◌∷◌, ◌++◌, map,
  Result, ok, err, ◌>>=◌,
}
use book_data_pipeline.Platform.{Platform}
use book_data_pipeline.Domain.{CleanBook}
use book_data_pipeline.Canonicalise.{RejectionCode}
use book_data_pipeline.Loader.Tables.{Database}
use book_data_pipeline.Runs.{Ledger}
use book_data_pipeline.Runs.Markers.{record_marker, is_topic_complete, runs_awaiting}
use book_data_pipeline.Consumers.{
  BookEvent, book_clean, PartitionMarker, Event, book, boundary, markers_below,
}
use book_data_pipeline.Consumers.Load.{Parked, Failure, parking_failed, World, prepared}

-- `TransformStats`
pub record TransformStats : Type 0 where
  pub transformed : ℕ
  pub rejected : ℕ
  pub markers : ℕ
  pub runs_completed : ℕ

-- The consumer with what it writes to: the ledger, the clean topic and the dead-letter topic, and
-- the number of events up to which the offset is committed.
pub record Transformer : Type 0 where
  pub ledger : Ledger
  pub clean : List Event
  pub parked : List Parked
  pub committed : ℕ
  pub seen : ℕ
  pub stats : TransformStats

-- The settings of the consumer.
pub record Topics : Type 0 where
  pub raw_topic : Text
  pub clean_topic : Text
  pub clean_partitions : ℕ

-- `_emit_clean_markers`
pub emit_clean_markers : Topics → ℕ → Transformer → Transformer
emit_clean_markers topics run_id s = record s {
  clean = s.clean ++ map boundary (markers_below topics.clean_partitions run_id topics.clean_topic);
  stats = record s.stats { runs_completed = suc s.stats.runs_completed };
}

pub emit_if_complete : Topics → ℕ → Text → Transformer → Transformer
unfolding emit_clean_markers
emit_if_complete topics run_id topic s =
    if is_topic_complete run_id topic s.ledger then emit_clean_markers topics run_id s else s

pub sweep_pending : Topics → List ℕ → Transformer → Transformer
unfolding emit_if_complete
sweep_pending topics [] s = s
sweep_pending topics (run_id ∷ rest) s =
    sweep_pending topics rest (emit_if_complete topics run_id topics.raw_topic s)

-- `sweep`
pub sweep : Topics → Transformer → Transformer
unfolding sweep_pending
sweep topics s = sweep_pending topics (runs_awaiting topics.raw_topic s.ledger) s

-- `_handle_marker`
pub handle_marker : Topics → PartitionMarker → Transformer → Transformer
unfolding emit_if_complete
handle_marker topics m s = emit_if_complete topics m.run_id m.topic (record s {
  ledger = (record_marker m.run_id m.topic m.partition s.ledger).1;
  stats = record s.stats { markers = suc s.stats.markers };
})

-- What goes on to the clean topic.
pub cleaned_event : BookEvent → CleanBook → BookEvent
cleaned_event e b = record e { event_type = book_clean; identity_key = some b.identity_key }

module _ (p : Platform) (d : Database) (w : World) (topics : Topics) where
  -- `_park`
  pub park : BookEvent → RejectionCode → Transformer → Result Failure Transformer
  park e code s =
      if w.delivers s.seen
      then ok (record s {
        parked = s.parked ++ record { event = e; code = code } ∷ [];
        stats = record s.stats { rejected = suc s.stats.rejected };
      })
      else err parking_failed

  -- `_handle_book`
  pub handle_book : BookEvent → Transformer → Result Failure Transformer
  unfolding park cleaned_event
  handle_book e s = prepared p d w e >>= λ answer. elim answer [
    | err code ↦ park e code s
    | ok b ↦ ok (record s {
      clean = s.clean ++ book (cleaned_event e b) ∷ [];
      stats = record s.stats { transformed = suc s.stats.transformed };
    })
  ]

  -- One event of the loop of `run`, committed after its effect.
  pub step : Event → Transformer → Result Failure Transformer
  unfolding handle_marker handle_book
  step (boundary m) s =
      ok (record (handle_marker topics m s) { seen = suc s.seen; committed = suc s.seen })
  step (book e) s =
      handle_book e s >>= λ s'. ok (record s' { seen = suc s.seen; committed = suc s.seen })

  pub steps : List Event → Transformer → Result Failure Transformer
  unfolding step
  steps [] s = ok s
  steps (e ∷ es) s = step e s >>= λ s'. steps es s'

  -- `run`
  pub run : List Event → Transformer → Result Failure Transformer
  unfolding sweep steps
  run es s = steps es (sweep topics s)
