-- ===== src/Consumers/Tests.antt =====
-- Events that are decoded, and their keys.
use book_data_pipeline.Base.{codes, false, some, none, ◌≡◌, refl, err}
use book_data_pipeline.Identity.Document.{Json, num, arr, nil, obj, end, field}
use book_data_pipeline.Domain.{openlibrary}
use book_data_pipeline.Runs.{check_violation}
use book_data_pipeline.Runs.Markers.Tests.{frozen}
use book_data_pipeline.Consumers.{
  BookEvent, book_raw, book_clean, unsupported_schema_version, not_an_object, partition_key,
  decode_event, emit_run_boundary, book_event_ok,
}

abbrev raw_event : BookEvent
raw_event = record {
  run_id = 1;
  event_type = book_raw;
  source = openlibrary;
  source_id = codes "OL1W";
  payload = end;
  identity_key = none;
}

raw_key : partition_key raw_event ≡ some (codes "openlibrary:OL1W")
unfolding partition_key
raw_key = refl

clean_wants_key : book_event_ok (record raw_event { event_type = book_clean }) ≡ false
unfolding book_event_ok
clean_wants_key = refl

abbrev version_two : Json
version_two = obj (field (codes "schema_version") (num (codes "2")) end)

-- A later version is told apart from a malformed document.
later_version : decode_event (λ fs. none) (λ fs. none) version_two ≡ err unsupported_schema_version
unfolding decode_event
later_version = refl

no_object : decode_event (λ fs. none) (λ fs. none) (arr nil) ≡ err not_an_object
unfolding decode_event
no_object = refl

-- A topic has a partition.
no_partitions :
    emit_run_boundary 0 (codes "books.raw") (codes "books.clean") 0 1 none frozen
    ≡ err check_violation
unfolding emit_run_boundary book_data_pipeline.Runs.Markers.freeze_topology
no_partitions = refl
