-- ===== src/Runs/Markers/Tests.antt =====
-- A run that two partitions report for, with a repeated marker and one of another run.
use book_data_pipeline.Base.{
  ℕ, suc, ◌≤◌, codes, true, false, some, none, List, [], ◌∷◌, ◌≡◌, ◌↔◌, refl, arith, Result, ok,
}
use book_data_pipeline.Domain.{openlibrary}
use book_data_pipeline.Runs.{
  unique_violation, foreign_key_violation, Run, Ledger, Observation, processing, success, start_run,
  record_source_skip, finalise_run, skipped,
}
use book_data_pipeline.SourceHealth.{record_refusal}
use book_data_pipeline.Runs.Markers.{
  freeze_topology, expected_on, is_topic_complete, is_observed_on, record_marker, runs_awaiting,
  mark_processing, record_loaded, finalise_if_complete,
}
use book_data_pipeline.Runs.Markers.Completion.{
  partitions_of, record_all, record_all-is_topic_complete,
}
use book_data_pipeline.Runs.Markers.Counting.{has}
use book_data_pipeline.Runs.Markers.Closing.{finalise_if_complete-once}

abbrev pub a_run : Run
a_run = record {
  id = 1;
  dag_run_id = codes "cli:1";
  started_at = 0;
  extraction_ended_at = none;
  processing_ended_at = none;
  status = processing;
  records_extracted = 0;
  records_loaded = 0;
  records_rejected = 0;
}

abbrev pub frozen : Ledger
frozen = record {
  runs = a_run ∷ [];
  source_runs = [];
  topologies = record { run_id = 1; topic = codes "books.clean"; expected_partitions = 2 } ∷ [];
  observations = [];
}

abbrev marker : ℕ → ℕ → Observation
marker run_id p = record { run_id = run_id; topic = codes "books.clean"; partition = p }

abbrev markers : List Observation
markers = marker 1 1 ∷ marker 2 0 ∷ marker 1 1 ∷ marker 1 0 ∷ []

expected : expected_on 1 (codes "books.clean") frozen ≡ some 2
unfolding expected_on
expected = refl

record_all-is_topic_complete_example :
    (is_topic_complete 1 (codes "books.clean") (record_all markers frozen) ≡ true)
    ↔ ((k : ℕ) → suc k ≤ 2 → has k (partitions_of 1 (codes "books.clean") markers) ≡ true)
unfolding is_observed_on
record_all-is_topic_complete_example =
    record_all-is_topic_complete 1 (codes "books.clean") 2 markers frozen expected refl
      (omega arith, (omega arith, (omega arith, tt)))

finalise_if_complete-once_example :
    finalise_if_complete 9 1
      (codes "books.clean")
      (finalise_if_complete 5 1 (codes "books.clean") (record_all markers frozen)).1
    ≡ (false, (finalise_if_complete 5 1 (codes "books.clean") (record_all markers frozen)).1)
finalise_if_complete-once_example =
    finalise_if_complete-once 5 9 1 (codes "books.clean") (record_all markers frozen)

-- The third marker completes the topic, and the run is closed.
closes : (finalise_if_complete 5 1 (codes "books.clean") (record_all markers frozen)).0 ≡ true
unfolding finalise_if_complete record_marker
closes = refl

awaited : runs_awaiting (codes "books.clean") frozen ≡ 1 ∷ []
unfolding runs_awaiting
awaited = refl

freezes : freeze_topology 1 (codes "books.clean") 3 frozen ≡ ok frozen
unfolding freeze_topology
freezes = refl

handed_over : mark_processing 5 1 (some 9) frozen ≡ frozen
unfolding mark_processing
handed_over = refl

nothing_counted : record_loaded 1 0 0 frozen ≡ frozen
unfolding record_loaded
nothing_counted = refl

restarts : start_run 5 1 (codes "1") none frozen ≡ Result.err unique_violation
unfolding start_run
restarts = refl

skips_nothing :
    record_source_skip 5 7 openlibrary (codes "off") frozen ≡ Result.err foreign_key_violation
unfolding record_source_skip
skips_nothing = refl

-- A skip after a refusal in the same run takes the row over, and keeps the time at which it ended.
refusal_skipped :
    record_source_skip 9 1 openlibrary
      (codes "off")
      (record frozen { source_runs = record_refusal 5 1 openlibrary (codes "HTTP 403") [] })
    ≡ ok (record frozen {
      source_runs =
          record {
            run_id = 1;
            source = openlibrary;
            status = skipped;
            finished_at = some 5;
            error = some (codes "off");
          }
          ∷ [];
    })
unfolding record_source_skip record_refusal
refusal_skipped = refl

finalises : (finalise_run 5 7 success 0 0 0 frozen).runs ≡ frozen.runs
unfolding finalise_run
finalises = refl
