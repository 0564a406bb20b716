-- ===== src/Runs/Markers.antt =====
-- observability/markers.py: the boundary of a run on each topic, as rows and a query.
pub mod Counting
pub mod Completion
pub mod Closing
pub mod Tests
use book_data_pipeline.Base.{
  ℕ, ◌+◌, Text, codes, Bool, true, false, not, ◌&&◌, ◌||◌, ◌==◌, leb, if◌then◌else◌, Option, none,
  some, List, [], ◌∷◌, ◌++◌, length, map, any, keep, find_first, collect, text_eq, Result, ok, err,
}
use book_data_pipeline.Loader.Tables.{update_where, insert_new}
use book_data_pipeline.Runs.{
  Run, Topology, Observation, Ledger, LedgerError, foreign_key_violation, check_violation,
  RunStatus, processing, success, is_running, is_processing,
}

-- `MARKER_TOPICS`
unfoldable pub is_marker_topic : Text → Bool
is_marker_topic topic = text_eq topic (codes "books.raw") || text_eq topic (codes "books.clean")

pub is_topology_of : ℕ → Text → Topology → Bool
is_topology_of run_id topic t = t.run_id == run_id && text_eq t.topic topic

pub is_observed_on : ℕ → Text → Observation → Bool
is_observed_on run_id topic o = o.run_id == run_id && text_eq o.topic topic

-- `freeze_topology`: what is frozen first stays.
unfoldable pub freeze_topology : ℕ → Text → ℕ → Ledger → Result LedgerError Ledger
unfolding is_marker_topic is_topology_of
freeze_topology run_id topic expected l =
    if not (is_marker_topic topic) || expected == 0
    then err check_violation
    else if any (is_topology_of run_id topic) l.topologies
    then ok l
    else if any (λ (r : Run). r.id == run_id) l.runs
    then ok (record l {
      topologies =
          l.topologies
          ++ record { run_id = run_id; topic = topic; expected_partitions = expected } ∷ [];
    })
    else err foreign_key_violation

-- The expectation that is frozen for a run and a topic.
pub expected_on : ℕ → Text → Ledger → Option ℕ
unfolding is_topology_of
expected_on run_id topic l = elim (find_first (is_topology_of run_id topic) l.topologies) [
  | none ↦ none
  | some t ↦ some t.expected_partitions
]

pub same_observation : Observation → Observation → Bool
same_observation a b = a.run_id == b.run_id && text_eq a.topic b.topic && a.partition == b.partition

-- `record_marker`
pub record_marker : ℕ → Text → ℕ → Ledger → Bool × Ledger
unfolding expected_on same_observation
record_marker run_id topic partition l = elim (expected_on run_id topic l) [
  | none ↦ (false, l)
  | some n ↦ (
    true,
    record l {
      observations =
          insert_new same_observation
            (record { run_id = run_id; topic = topic; partition = partition }) l.observations;
    },
  )
]

-- `is_topic_complete`
pub is_topic_complete : ℕ → Text → Ledger → Bool
unfolding expected_on is_observed_on
is_topic_complete run_id topic l = elim (expected_on run_id topic l) [
  | none ↦ false
  | some expected ↦ leb expected (length (keep (is_observed_on run_id topic) l.observations))
]

-- `runs_awaiting`
unfoldable pub runs_awaiting : Text → Ledger → List ℕ
unfolding is_processing
runs_awaiting topic l =
    map (λ (t : Topology). t.run_id)
      (keep
        (λ (t : Topology).
          text_eq t.topic topic
          && any (λ (r : Run). r.id == t.run_id && is_processing r.status) l.runs)
        l.topologies)

-- `mark_processing`
pub mark_processing : ℕ → ℕ → Option ℕ → Ledger → Ledger
unfolding is_running
mark_processing now run_id extracted l = record l {
  runs =
      update_where (λ r. r.id == run_id && is_running r.status)
        (λ r. record r {
          status = processing;
          extraction_ended_at = some now;
          records_extracted = elim extracted [ none ↦ r.records_extracted | some n ↦ n ];
        })
        l.runs;
}

-- `record_loaded`
pub record_loaded : ℕ → ℕ → ℕ → Ledger → Ledger
record_loaded run_id loaded rejected l = if loaded == 0 && rejected == 0 then l else record l {
  runs =
      update_where (λ r. r.id == run_id)
        (λ r. record r {
          records_loaded = r.records_loaded + loaded;
          records_rejected = r.records_rejected + rejected;
        })
        l.runs;
}

-- The run is closed by an update of a run in `processing` only.
pub is_closable : ℕ → Run → Bool
unfolding is_processing
is_closable run_id r = r.id == run_id && is_processing r.status

-- `finalise_if_complete`: whether a row changed, and the rows.
pub finalise_if_complete : ℕ → ℕ → Text → Ledger → Bool × Ledger
unfolding is_topic_complete is_closable
finalise_if_complete now run_id topic l =
    if not (is_topic_complete run_id topic l) then (false, l) else (
      any (is_closable run_id) l.runs,
      record l {
        runs =
            update_where (is_closable run_id)
              (λ r. record r { status = success; processing_ended_at = some now }) l.runs;
      },
    )
