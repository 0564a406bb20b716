-- ===== src/Resolver/Tests.antt =====
-- The theorems on the resolver at one candidate without a discovery payload, and at one with it.
use book_data_pipeline.Base.{
  Text, ◌≤◌, codes, true, false, none, [], ◌∷◌, length, Among, ◌≡◌, ◌≢◌, refl,
}
use book_data_pipeline.Identity.Document.{Fields, end, field, null}
use book_data_pipeline.Domain.{
  SourceName, googlebooks, openlibrary, gutendex, RawBook, CandidateBook,
}
use book_data_pipeline.Resolver.{
  Fetch, exhausted, observed, quota_error, unavailable_error, Settings, World, initial, resolve,
  resolve_all,
}
use book_data_pipeline.Resolver.Budgets.{calls_of, resolve_all-within_budget}
use book_data_pipeline.Resolver.Attempts.{sources_called, resolve-attempts}
use book_data_pipeline.Resolver.Retained.{resolve-retained}
use book_data_pipeline.Resolver.Sources.{sources_of, resolved_count}

abbrev settings : Settings
settings = record {
  is_enabled = λ s. true;
  has_googlebooks_api_key = true;
  goodreads_unofficial_source_accepted = false;
  goodreads_in_resolution = false;
  enrich_from_documented_sources = false;
  openlibrary_max_fallback_queries_per_run = 2;
  googlebooks_max_fallback_queries_per_run = 1;
  gutendex_max_last_resort_queries_per_run = 1;
}

abbrev book : RawBook
book = record {
  source = openlibrary;
  source_id = codes "OL1W";
  title = codes "Emma";
  subtitle = none;
  authors = [];
  subjects = [];
  isbns = [];
  languages = [];
  published = none;
  publisher = none;
  page_count = none;
  description = none;
  cover_url = none;
  download_count = none;
  goodreads_average_rating = none;
  series = [];
  source_updated = none;
  raw_payload = end;
}

abbrev candidate_with : Fields → CandidateBook
candidate_with payload = record {
  candidate_key = codes "emma";
  title = codes "Emma";
  authors = [];
  isbns = [];
  openlibrary_work_key = none;
  openlibrary_edition_key = none;
  languages = [];
  discovery_payload = payload;
  discovery_source = openlibrary;
}

-- Google Books has spent its allowance, the others have no match.
abbrev world : World
world = record {
  adapter = none;
  fetch = λ s q. record { items = []; ending = quota_error (codes "spent") };
  map_payload = λ s f. observed book;
  elapsed_ms = λ s. 7;
}

resolve_all-within_budget_example :
    (calls_of openlibrary
        (resolve_all settings
          (initial settings)
          ((world, candidate_with end) ∷ (world, candidate_with end) ∷ [])).calls
      ≤ 2)
    × (calls_of googlebooks
          (resolve_all settings
            (initial settings)
            ((world, candidate_with end) ∷ (world, candidate_with end) ∷ [])).calls
        ≤ 1)
    × (calls_of gutendex
          (resolve_all settings
            (initial settings)
            ((world, candidate_with end) ∷ (world, candidate_with end) ∷ [])).calls
        ≤ 1)
resolve_all-within_budget_example =
    resolve_all-within_budget settings
      ((world, candidate_with end) ∷ (world, candidate_with end) ∷ [])

resolve-attempts_example :
    (sources_of (resolve settings world (candidate_with end) (initial settings)).1.attempts
      ≡ sources_called settings world (candidate_with end) (initial settings))
    × (length (resolve settings world (candidate_with end) (initial settings)).1.observations
        ≡ resolved_count
            (resolve settings world (candidate_with end) (initial settings)).1.attempts)
resolve-attempts_example = resolve-attempts settings world (candidate_with end) (initial settings)

abbrev kept : Fields
kept = field (codes "key") null end

not_end : kept ≢ end
not_end h = cc

-- Every source is out of order.
abbrev no_answer : SourceName → Text → Fetch
no_answer source query = record { items = []; ending = unavailable_error (codes "down") }

resolve-retained_example :
    (resolve settings
        (record world { adapter = none; fetch = no_answer })
        (candidate_with kept)
        (initial settings)
      ≡ resolve settings world (candidate_with kept) (initial settings))
    × ((resolve settings world (candidate_with kept) (initial settings)).0 ≡ initial settings)
    × Among book (resolve settings world (candidate_with kept) (initial settings)).1.observations
resolve-retained_example =
    resolve-retained settings world (candidate_with kept) (initial settings) book none no_answer
      refl refl not_end refl

nothing_left : exhausted (record { limit = 1; spent = 1 }) ≡ true
unfolding exhausted
nothing_left = refl
