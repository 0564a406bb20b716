-- ===== src/Consumers.antt =====
-- models/events.py and services/: the events of the topics and what consumes them.
pub mod Load
pub mod Transform
mod Tests
use book_data_pipeline.Base.{
  ℕ, zero, suc, Text, codes, Bool, true, false, ◌||◌, not, ◌&&◌, if◌then◌else◌, Option, none, some,
  List, [], ◌∷◌, ◌++◌, is_empty, text_eq, Result, ok, err, ◌>>=◌,
}
use book_data_pipeline.Identity.Document.{
  Json, null, bool, num, str, other, arr, obj, Fields, end, field,
}
use book_data_pipeline.Domain.{SourceName, source_value}
use book_data_pipeline.Runs.{Ledger, LedgerError}
use book_data_pipeline.Runs.Markers.{freeze_topology, mark_processing}

-- `EventType`
pub data EventType : Type 0 where
  book_raw book_clean run_partition_complete : EventType

pub type_value : EventType → Text
type_value book_raw = codes "book.raw"
type_value book_clean = codes "book.clean"
type_value run_partition_complete = codes "run.partition_complete"

-- `BookEvent`, less the envelope's version, id and time
pub record BookEvent : Type 0 where
  pub run_id : ℕ
  pub event_type : EventType
  pub source : SourceName
  pub source_id : Text
  pub payload : Fields
  pub identity_key : Option Text

-- `PartitionMarker`
pub record PartitionMarker : Type 0 where
  pub run_id : ℕ
  pub topic : Text
  pub partition : ℕ

pub data Event : Type 0 where
  book : BookEvent → Event
  boundary : PartitionMarker → Event

-- `_check_event_type_and_identity`, and the length of the source's id
pub book_event_ok : BookEvent → Bool
book_event_ok e = not (is_empty e.source_id) && elim e.event_type [
  | book_raw ↦ true
  | book_clean ↦ elim e.identity_key [ none ↦ false | some k ↦ true ]
  | run_partition_complete ↦ false
]

-- `_topic_has_a_completion_boundary`
pub marker_ok : PartitionMarker → Bool
marker_ok m = text_eq m.topic (codes "books.raw") || text_eq m.topic (codes "books.clean")

-- `partition_key`; the `assert` is the case that `book_event_ok` excludes.
pub partition_key : BookEvent → Option Text
partition_key e = elim e.event_type [
  | book_clean ↦ e.identity_key
  | book_raw ↦ some (source_value e.source ++ codes ":" ++ e.source_id)
  | run_partition_complete ↦ some (source_value e.source ++ codes ":" ++ e.source_id)
]

-- Why a document is not decoded.
pub data DecodeError : Type 0 where
  not_an_object unsupported_schema_version unknown_event_type invalid : DecodeError

-- `document.get(key)`: of a key that is written twice, the last value.
pub get : Text → Fields → Option Json
get key end = none
get key (field k v rest) =
    let later = get key rest in
    elim later [ some w ↦ some w | none ↦ if text_eq k key then some v else none ]

-- The version is the integer 1.
pub is_supported : Option Json → Bool
is_supported none = false
is_supported (some null) = false
is_supported (some (bool b)) = false
is_supported (some (num t)) = text_eq t (codes "1")
is_supported (some (str t)) = false
is_supported (some (other t)) = false
is_supported (some (arr js)) = false
is_supported (some (obj fs)) = false

-- The event type that a value names.
pub named_type : Option Json → Option EventType
unfolding type_value
named_type none = none
named_type (some null) = none
named_type (some (bool b)) = none
named_type (some (num t)) = none
named_type (some (str t)) =
    if text_eq t (type_value run_partition_complete)
    then some run_partition_complete
    else if text_eq t (type_value book_raw)
    then some book_raw
    else if text_eq t (type_value book_clean)
    then some book_clean
    else none
named_type (some (other t)) = none
named_type (some (arr js)) = none
named_type (some (obj fs)) = none

module _ (as_marker : Fields → Option PartitionMarker) (as_book : Fields → Option BookEvent) where
  -- `decode_event`, after `json.loads`; the arguments are pydantic's validation of the fields.
  pub decode_event : Json → Result DecodeError Event
  unfolding get is_supported named_type book_event_ok marker_ok
  decode_event null = err not_an_object
  decode_event (bool b) = err not_an_object
  decode_event (num t) = err not_an_object
  decode_event (str t) = err not_an_object
  decode_event (other t) = err not_an_object
  decode_event (arr js) = err not_an_object
  decode_event (obj document) =
      if not (is_supported (get (codes "schema_version") document))
      then err unsupported_schema_version
      else elim (named_type (get (codes "event_type") document)) [
        | none ↦ err unknown_event_type
        | some run_partition_complete ↦ elim (as_marker document) [
          | none ↦ err invalid
          | some m ↦ if marker_ok m then ok (boundary m) else err invalid
        ]
        | some book_raw ↦ elim (as_book document) [
          | none ↦ err invalid
          | some e ↦ if book_event_ok e then ok (book e) else err invalid
        ]
        | some book_clean ↦ elim (as_book document) [
          | none ↦ err invalid
          | some e ↦ if book_event_ok e then ok (book e) else err invalid
        ]
      ]

-- `range(n)`, as the partitions of a topic
pub markers_below : ℕ → ℕ → Text → List PartitionMarker
markers_below zero run_id topic = []
markers_below (suc n) run_id topic =
    markers_below n run_id topic ++ record { run_id = run_id; topic = topic; partition = n } ∷ []

-- `emit_run_boundary`: the rows, then the markers that are sent.
pub emit_run_boundary :
    ℕ → Text → Text → ℕ → ℕ → Option ℕ → Ledger → Result LedgerError (Ledger × List PartitionMarker)
unfolding markers_below
emit_run_boundary now raw_topic clean_topic partitions run_id extracted l =
    freeze_topology run_id raw_topic partitions l >>= λ frozen.
    freeze_topology run_id clean_topic partitions frozen >>= λ both.
    ok (mark_processing now run_id extracted both, markers_below partitions run_id raw_topic)
