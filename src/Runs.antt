-- ===== src/Runs.antt =====
-- observability/runs.py: the rows of runs and of their boundaries, as models/db.py declares them.
-- A run's id is a number and a time is a count of seconds; `now` is the time of the transaction.
pub mod Markers
use book_data_pipeline.Base.{
  ℕ, ◌+◌, ◌*◌, Text, codes, Bool, true, false, not, ◌&&◌, ◌||◌, ◌==◌, ltb, if◌then◌else◌, Option,
  none, some, List, [], ◌∷◌, ◌++◌, length, any, keep, is_empty, text_eq, Result, ok, err,
}
use book_data_pipeline.Domain.{SourceName, same_source}
use book_data_pipeline.Loader.Tables.{update_where, upsert}
use book_data_pipeline.SourceHealth.{Row}

-- `RUN_STATUSES`
pub data RunStatus : Type 0 where
  running processing success partial_success failed : RunStatus

pub is_running : RunStatus → Bool
is_running running = true
is_running processing = false
is_running success = false
is_running partial_success = false
is_running failed = false

unfoldable pub is_processing : RunStatus → Bool
is_processing running = false
is_processing processing = true
is_processing success = false
is_processing partial_success = false
is_processing failed = false

-- `ingestion_runs`
pub record Run : Type 0 where
  pub id : ℕ
  pub dag_run_id : Text
  pub started_at : ℕ
  pub extraction_ended_at : Option ℕ
  pub processing_ended_at : Option ℕ
  pub status : RunStatus
  pub records_extracted : ℕ
  pub records_loaded : ℕ
  pub records_rejected : ℕ

-- `run_topic_partitions`
pub record Topology : Type 0 where
  pub run_id : ℕ
  pub topic : Text
  pub expected_partitions : ℕ

-- `run_partition_markers`
pub record Observation : Type 0 where
  pub run_id : ℕ
  pub topic : Text
  pub partition : ℕ

pub record Ledger : Type 0 where
  pub runs : List Run
  pub source_runs : List Row
  pub topologies : List Topology
  pub observations : List Observation

-- The constraints that a statement can break.
pub data LedgerError : Type 0 where
  unique_violation foreign_key_violation check_violation : LedgerError

-- `STALE_RUN_AGE`: 12 hours
abbrev pub stale_run_age : ℕ
stale_run_age = 12 * 3600

pub is_stale : ℕ → ℕ → Run → Bool
unfolding is_running
is_stale now older_than r = is_running r.status && ltb (r.started_at + older_than) now

-- `abandon_stale_runs`: the number of rows, and the rows.
pub abandon_stale_runs : ℕ → ℕ → Ledger → ℕ × Ledger
unfolding is_stale
abandon_stale_runs now older_than l = (
  length (keep (is_stale now older_than) l.runs),
  record l {
    runs =
        update_where (is_stale now older_than)
          (λ r. record r {
            status = failed;
            extraction_ended_at = some now;
            processing_ended_at = some now;
          })
          l.runs;
  },
)

-- `start_run`; `fresh` is the new id and `printed` its text.
pub start_run : ℕ → ℕ → Text → Option Text → Ledger → Result LedgerError (ℕ × Ledger)
unfolding abandon_stale_runs
start_run now fresh printed dag_run_id l =
    let swept = (abandon_stale_runs now stale_run_age l).1 in
    let own = codes "cli:" ++ printed in
    let label : Text = elim dag_run_id [ none ↦ own | some t ↦ if is_empty t then own else t ] in
    if any (λ (r : Run). r.id == fresh || text_eq r.dag_run_id label) swept.runs
    then err unique_violation
    else ok (
      fresh,
      record swept {
        runs =
            swept.runs
            ++ record {
              id = fresh;
              dag_run_id = label;
              started_at = now;
              extraction_ended_at = none;
              processing_ended_at = none;
              status = running;
              records_extracted = 0;
              records_loaded = 0;
              records_rejected = 0;
            }
              ∷ [];
      },
    )

-- The status that a skip writes
abbrev pub skipped : Text
skipped = codes "skipped"

-- `record_source_skip`: the rows are those of SourceHealth. A row that is there keeps its
-- `finished_at`.
pub record_source_skip : ℕ → ℕ → SourceName → Text → Ledger → Result LedgerError Ledger
record_source_skip now run_id source reason l =
    if any (λ (r : Run). r.id == run_id) l.runs
    then ok (record l {
      source_runs =
          upsert
            (λ (old : Row) excluded.
              old.run_id == excluded.run_id && same_source old.source excluded.source)
            (λ old excluded. record old { status = excluded.status; error = excluded.error })
            (record {
              run_id = run_id;
              source = source;
              status = skipped;
              finished_at = some now;
              error = some reason;
            })
            l.source_runs;
    })
    else err foreign_key_violation

-- `finalise_run`
pub finalise_run : ℕ → ℕ → RunStatus → ℕ → ℕ → ℕ → Ledger → Ledger
finalise_run now run_id status extracted loaded rejected l = record l {
  runs =
      update_where (λ r. r.id == run_id)
        (λ r. record r {
          status = status;
          processing_ended_at = some now;
          extraction_ended_at = some now;
          records_extracted = extracted;
          records_loaded = loaded;
          records_rejected = rejected;
        })
        l.runs;
}
