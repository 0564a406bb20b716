-- ===== src/SourceHealth/Tests.antt =====
-- The theorem on the cooldown at one refusal.
use book_data_pipeline.Base.{ℕ, ◌≤◌, codes, [], err, ◌≡◌, arith}
use book_data_pipeline.Domain.{goodreads}
use book_data_pipeline.SourceHealth.{record_refusal, ensure_not_cooling_down, cooling_down}
use book_data_pipeline.SourceHealth.Cooldown.{record_refusal-stops}

record_refusal-stops_example :
    (t : ℕ) × (ensure_not_cooling_down 5000 7200 goodreads
        (record_refusal 1000 3 goodreads (codes "HTTP 403") [])
      ≡ err (cooling_down t))
    × (1000 ≤ t)
record_refusal-stops_example =
    record_refusal-stops 5000 1000 7200 3 goodreads (codes "HTTP 403") [] (omega arith)
      (omega arith)
