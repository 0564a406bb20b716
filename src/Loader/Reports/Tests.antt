-- ===== src/Loader/Reports/Tests.antt =====
-- Attempts that are reported again, and one that is named twice.
use book_data_pipeline.Base.{codes, none, [], ◌∷◌, ◌≡◌, refl, ok, err}
use book_data_pipeline.Identity.Document.{null}
use book_data_pipeline.Domain.{goodreads}
use book_data_pipeline.Resolver.{Attempt, no_match, resolved, Rejected}
use book_data_pipeline.Loader.Tables.{foreign_key_violation, repeated_row}
use book_data_pipeline.Loader.Reports.{record_attempts, record_rejection, extract}

abbrev attempt : Attempt
attempt = record {
  candidate_key = codes "goodreads:1";
  source = goodreads;
  attempt_no = 1;
  outcome = no_match;
  fallback_reason = none;
  duration_ms = 3;
}

-- A rerun updates its own row.
reruns :
    record_attempts
      (4 ∷ [])
      4
      (record attempt { outcome = resolved } ∷ [])
      (record { run_id = 4; attempt = attempt } ∷ [])
    ≡ ok (1, record { run_id = 4; attempt = record attempt { outcome = resolved } } ∷ [])
unfolding record_attempts book_data_pipeline.Domain.same_source
reruns = refl

-- Two attempts of one candidate at one source with one number refuse the whole statement.
named_twice : record_attempts (4 ∷ []) 4 (attempt ∷ attempt ∷ []) [] ≡ err repeated_row
unfolding record_attempts book_data_pipeline.Domain.same_source
named_twice = refl

abbrev rejection : Rejected
rejection = record {
  source = goodreads;
  source_id = none;
  raw_payload = null;
  rejection_code = codes "invalid_record";
  detail = none;
}

rejects_no_run : record_rejection [] 4 rejection extract [] ≡ err foreign_key_violation
unfolding record_rejection
rejects_no_run = refl
