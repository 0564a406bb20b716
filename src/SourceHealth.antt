-- ===== src/SourceHealth.antt =====
-- source_health.py: the refusals that runs leave in `source_runs`, and the cooldown that reads them.
-- Times are seconds; the table is the list of its rows, one for each run and source.
mod Tests
pub mod Cooldown
use book_data_pipeline.Base.{
  ℕ, zero, suc, ◌+◌, Text, codes, Bool, true, false, ◌&&◌, ◌==◌, leb, ltb, if◌then◌else◌, Option,
  none, some, List, [], ◌∷◌, collect, take, text_eq, Result, ok, err,
}
use book_data_pipeline.Domain.{SourceName, same_source}

-- A row of `source_runs`, as far as these functions read and write it.
pub record Row : Type 0 where
  pub run_id : ℕ
  pub source : SourceName
  pub status : Text
  pub finished_at : Option ℕ
  pub error : Option Text

-- `REFUSED`
abbrev pub refused : Text
refused = codes "refused"

-- The insert with `on_conflict_do_update` on the run and the source.
pub upsert : Row → List Row → List Row
unfolding same_source
upsert row [] = row ∷ []
upsert row (r ∷ rows) =
    if r.run_id == row.run_id && same_source r.source row.source
    then (record r { status = row.status; error = row.error; finished_at = row.finished_at }) ∷ rows
    else r ∷ upsert row rows

-- `record_refusal` at a time
unfoldable pub record_refusal : ℕ → ℕ → SourceName → Text → List Row → List Row
unfolding upsert
record_refusal now run_id source reason rows =
    upsert
      (record {
        run_id = run_id;
        source = source;
        status = refused;
        finished_at = some now;
        error = some (take 500 reason);
      })
      rows

-- The time of a row that the query of `last_refusal` selects.
pub selected : ℕ → ℕ → SourceName → Row → Option ℕ
unfolding same_source
selected now within source r =
    if same_source r.source source && text_eq r.status refused
    then elim r.finished_at [ none ↦ none | some t ↦ if leb now (t + within) then some t else none ]
    else none

-- `order_by(finished_at.desc()).limit(1)`
pub latest : List ℕ → Option ℕ
latest [] = none
latest (t ∷ ts) = elim (latest ts) [ none ↦ some t | some u ↦ if ltb t u then some u else some t ]

-- `last_refusal`
pub last_refusal : ℕ → ℕ → SourceName → List Row → Option ℕ
unfolding latest selected
last_refusal now within source rows = latest (collect (selected now within source) rows)

-- `SourceCoolingDownError`, with the time of the refusal.
pub data HealthError : Type 0 where
  cooling_down : ℕ → HealthError

-- `ensure_not_cooling_down`
pub ensure_not_cooling_down : ℕ → ℕ → SourceName → List Row → Result HealthError Bool
unfolding last_refusal
ensure_not_cooling_down now zero source rows = ok true
ensure_not_cooling_down now (suc cooldown) source rows =
    elim (last_refusal now (suc cooldown) source rows) [
      | none ↦ ok true
      | some t ↦ err (cooling_down t)
    ]
