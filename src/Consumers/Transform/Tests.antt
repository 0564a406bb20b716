-- ===== src/Consumers/Transform/Tests.antt =====
-- A raw event becomes a clean one, and an unusable one is parked.
use book_data_pipeline.Base.{codes, [], ◌∷◌, ◌≡◌, refl, ok}
use book_data_pipeline.Canonicalise.Tests.{with_isbn_clean}
use book_data_pipeline.Loader.Books.Tests.{platform}
use book_data_pipeline.Loader.Batches.Tests.{selective}
use book_data_pipeline.Runs.Markers.Tests.{frozen}
use book_data_pipeline.Consumers.{book}
use book_data_pipeline.Consumers.Load.Tests.{world, emma_event, prepared_emma}
use book_data_pipeline.Consumers.Transform.{Transformer, Topics, run, cleaned_event}

abbrev topics : Topics
topics = record {
  raw_topic = codes "books.raw";
  clean_topic = codes "books.clean";
  clean_partitions = 3;
}

abbrev start : Transformer
start = record {
  ledger = frozen;
  clean = [];
  parked = [];
  committed = 0;
  seen = 0;
  stats = record { transformed = 0; rejected = 0; markers = 0; runs_completed = 0 };
}

transforms :
    run platform selective world topics (book emma_event ∷ []) start
    ≡ ok (record start {
      clean = book (cleaned_event emma_event with_isbn_clean) ∷ [];
      committed = 1;
      seen = 1;
      stats = record start.stats { transformed = 1 };
    })
unfolding run book_data_pipeline.Runs.Markers.runs_awaiting
transforms = rw prepared_emma refl
