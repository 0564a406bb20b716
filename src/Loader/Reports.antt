-- ===== src/Loader/Reports.antt =====
-- load/postgres.py: what a run reports of its attempts and its rejected records.
mod Tests
use book_data_pipeline.Base.{
  ℕ, suc, Text, Bool, true, false, not, ◌&&◌, ◌||◌, ◌==◌, if◌then◌else◌, Option, none, some, List,
  [], ◌∷◌, ◌++◌, length, any, text_eq, Result, ok, err,
}
use book_data_pipeline.Identity.Document.{Json}
use book_data_pipeline.Domain.{SourceName, same_source}
use book_data_pipeline.Resolver.{Attempt, Rejected}
use book_data_pipeline.Loader.Tables.{LoadError, foreign_key_violation, repeated_row, upsert}

-- A row of `resolution_attempts`; the check that its number is positive holds for every attempt
-- that the resolver makes.
pub record AttemptRow : Type 0 where
  pub run_id : ℕ
  pub attempt : Attempt

-- The primary key of two attempts of one run is the same.
pub same_attempt : Attempt → Attempt → Bool
same_attempt a b =
    text_eq a.candidate_key b.candidate_key
    && same_source a.source b.source
    && a.attempt_no == b.attempt_no

-- `ON CONFLICT DO UPDATE` of one row.
pub upsert_attempt : ℕ → Attempt → List AttemptRow → List AttemptRow
unfolding same_attempt
upsert_attempt run_id a rows =
    upsert
      (λ (old : AttemptRow) row. old.run_id == row.run_id && same_attempt old.attempt row.attempt)
      (λ old row. record old {
        attempt = record old.attempt {
          outcome = row.attempt.outcome;
          fallback_reason = row.attempt.fallback_reason;
          duration_ms = row.attempt.duration_ms;
        };
      })
      (record { run_id = run_id; attempt = a }) rows

pub upsert_attempts : ℕ → List Attempt → List AttemptRow → List AttemptRow
unfolding upsert_attempt
upsert_attempts run_id [] rows = rows
upsert_attempts run_id (a ∷ rest) rows = upsert_attempts run_id rest (upsert_attempt run_id a rows)

-- Whether two of the attempts have one key.
pub has_repeated : List Attempt → Bool
unfolding same_attempt
has_repeated [] = false
has_repeated (a ∷ rest) = any (same_attempt a) rest || has_repeated rest

-- `record_attempts`: one statement, which the database refuses where it names a row twice. The runs
-- are those that there are.
pub record_attempts :
    List ℕ → ℕ → List Attempt → List AttemptRow → Result LoadError (ℕ × List AttemptRow)
unfolding has_repeated upsert_attempts
record_attempts runs run_id [] rows = ok (0, rows)
record_attempts runs run_id (a ∷ rest) rows =
    if has_repeated (a ∷ rest)
    then err repeated_row
    else if any (λ r. r == run_id) runs
    then ok (suc (length rest), upsert_attempts run_id (a ∷ rest) rows)
    else err foreign_key_violation

-- `REJECTION_STAGES`
pub data Stage : Type 0 where
  extract transform load : Stage

-- A row of `rejected_records`
pub record RejectedRow : Type 0 where
  pub run_id : ℕ
  pub stage : Stage
  pub rejection : Rejected

-- `record_rejection`
pub record_rejection :
    List ℕ → ℕ → Rejected → Stage → List RejectedRow → Result LoadError (List RejectedRow)
record_rejection runs run_id rejection stage rows =
    if any (λ r. r == run_id) runs
    then ok (rows ++ record { run_id = run_id; stage = stage; rejection = rejection } ∷ [])
    else err foreign_key_violation
