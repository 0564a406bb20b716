-- ===== src/Resolver.antt =====
-- extract/resolver.py: one candidate, several sources, in a fixed order. What the adapters answer
-- is a parameter of each call, the `World` of a candidate; so are the clock's readings.
mod Tests
pub mod Budgets
pub mod Sources
pub mod Attempts
pub mod Retained
use book_data_pipeline.Base.{
  ℕ, suc, Text, codes, Bool, true, false, not, ◌&&◌, ◌||◌, leb, if◌then◌else◌, Option, none, some,
  List, [], ◌∷◌, ◌++◌, str_of,
}
use book_data_pipeline.Identity.Document.{Json, Fields, end, field}
use book_data_pipeline.Domain.{
  SourceName, goodreads, googlebooks, openlibrary, gutendex, source_value, RawBook, CandidateBook,
  lookup_query, preferred_isbn,
}

pub data Outcome : Type 0 where
  resolved partial no_match contract_failure unavailable skipped : Outcome

pub record Attempt : Type 0 where
  pub candidate_key : Text
  pub source : SourceName
  pub attempt_no : ℕ
  pub outcome : Outcome
  pub fallback_reason : Option Text
  pub duration_ms : ℕ

pub record Budget : Type 0 where
  pub limit : ℕ
  pub spent : ℕ

-- `Budget.spend_all`
pub spend_all : Budget → Budget
spend_all b = record b { spent = b.limit }

-- `Budget.exhausted`
pub exhausted : Budget → Bool
exhausted b = leb b.limit b.spent

-- `Budget.try_spend`: the answer and the budget after it.
pub try_spend : Budget → Bool × Budget
try_spend b = if leb b.limit b.spent then (false, b) else (true, record b { spent = suc b.spent })

-- `Rejected` of extract/base.py
pub record Rejected : Type 0 where
  pub source : SourceName
  pub source_id : Option Text
  pub raw_payload : Json
  pub rejection_code : Text
  pub detail : Option Text

pub record Resolution : Type 0 where
  pub candidate : CandidateBook
  pub observations : List RawBook
  pub rejections : List Rejected
  pub attempts : List Attempt

-- `Resolution.resolved`
pub is_resolved : Resolution → Bool
is_resolved result = elim result.observations [ [] ↦ false | book ∷ rest ↦ true ]

-- What one mapped record of a source is.
pub data Item : Type 0 where
  observed : RawBook → Item
  refused : Rejected → Item

-- How the iteration of `extractor.fetch` ends, with `str(error)` of the exception.
pub data Ending : Type 0 where
  finished : Ending
  quota_error unavailable_error credential_error : Text → Ending

pub record Fetch : Type 0 where
  pub items : List Item
  pub ending : Ending

-- What `GoodreadsExtractor.resolve` does.
pub data GoodreadsAnswer : Type 0 where
  found : Option RawBook → GoodreadsAnswer
  raised : Text → GoodreadsAnswer

-- The Goodreads adapter: the message with which `ensure_accepted` raises, if it does; its circuit;
-- the answer to a query with an ISBN.
pub record Adapter : Type 0 where
  pub refusal : Option Text
  pub circuit_open : Bool
  pub answer : Text → Option Text → GoodreadsAnswer

-- What one candidate meets: the adapters, `map_payload`, and the milliseconds that a source takes.
pub record World : Type 0 where
  pub adapter : Option Adapter
  pub fetch : SourceName → Text → Fetch
  pub map_payload : SourceName → Fields → Item
  pub elapsed_ms : SourceName → ℕ

-- The settings that the resolver reads.
pub record Settings : Type 0 where
  pub is_enabled : SourceName → Bool
  pub has_googlebooks_api_key : Bool
  pub goodreads_unofficial_source_accepted : Bool
  pub goodreads_in_resolution : Bool
  pub enrich_from_documented_sources : Bool
  pub openlibrary_max_fallback_queries_per_run : ℕ
  pub googlebooks_max_fallback_queries_per_run : ℕ
  pub gutendex_max_last_resort_queries_per_run : ℕ

-- The budgets of a run, and the sources of the fetches made so far, the latest first.
pub record State : Type 0 where
  pub openlibrary_budget : Budget
  pub googlebooks_budget : Budget
  pub gutendex_budget : Budget
  pub calls : List SourceName

-- `CatalogueResolver.__init__`
pub initial : Settings → State
initial settings = record {
  openlibrary_budget = record {
    limit = settings.openlibrary_max_fallback_queries_per_run;
    spent = 0;
  };
  googlebooks_budget = record {
    limit = settings.googlebooks_max_fallback_queries_per_run;
    spent = 0;
  };
  gutendex_budget = record { limit = settings.gutendex_max_last_resort_queries_per_run; spent = 0 };
  calls = [];
}

-- `Settings.skip_reason`
pub skip_reason : Settings → SourceName → Option Text
skip_reason settings goodreads =
    if not (settings.is_enabled goodreads)
    then some (source_value goodreads ++ codes " is disabled by configuration")
    else if not settings.goodreads_unofficial_source_accepted
    then some (
        codes
          "goodreads is enabled but the unofficial-source risk has not been accepted; set PIPELINE_GOODREADS_UNOFFICIAL_SOURCE_ACCEPTED=true")
    else none
skip_reason settings googlebooks =
    if not (settings.is_enabled googlebooks)
    then some (source_value googlebooks ++ codes " is disabled by configuration")
    else if not settings.has_googlebooks_api_key
    then some (codes "googlebooks is enabled but no API key is configured")
    else none
skip_reason settings source =
    if not (settings.is_enabled source)
    then some (source_value source ++ codes " is disabled by configuration")
    else none

-- One more attempt in the record.
pub attempted : CandidateBook → SourceName → ℕ → Outcome → Option Text → ℕ → Resolution → Resolution
attempted candidate source attempt_no outcome reason ms result = record result {
  attempts =
      result.attempts
      ++ record {
        candidate_key = candidate.candidate_key;
        source = source;
        attempt_no = attempt_no;
        outcome = outcome;
        fallback_reason = reason;
        duration_ms = ms;
      }
        ∷ [];
}

pub with_rejection : Rejected → Resolution → Resolution
with_rejection r result = record result { rejections = result.rejections ++ r ∷ [] }

pub with_observation : RawBook → Resolution → Resolution
with_observation book result = record result { observations = result.observations ++ book ∷ [] }

-- What a bounded lookup leaves: the budget, whether it fetched, and the resolution.
pub record Tried : Type 0 where
  pub budget : Budget
  pub called : Bool
  pub result : Resolution

-- The loop over the records of one fetch, up to the first that is valid.
pub consume : List Item → Resolution → Bool × Resolution
consume [] result = (false, result)
consume (observed book ∷ items) result = (true, with_observation book result)
consume (refused r ∷ items) result = consume items (with_rejection r result)

-- The end of a fetch that gave no valid record: an attempt and the budget after it.
pub close_fetch : CandidateBook → SourceName → ℕ → ℕ → Ending → Budget → Resolution → Tried
close_fetch candidate source attempt_no ms finished budget result = record {
  budget = budget;
  called = true;
  result = attempted candidate source attempt_no no_match none ms result;
}
close_fetch candidate source attempt_no ms (quota_error message) budget result = record {
  budget = spend_all budget;
  called = true;
  result = attempted candidate source attempt_no unavailable (some message) ms result;
}
close_fetch candidate source attempt_no ms (unavailable_error message) budget result = record {
  budget = budget;
  called = true;
  result = attempted candidate source attempt_no unavailable (some message) ms result;
}
close_fetch candidate source attempt_no ms (credential_error message) budget result = record {
  budget = budget;
  called = true;
  result = attempted candidate source attempt_no skipped (some message) ms result;
}

-- The lookup itself, once it is paid for.
pub fetched : CandidateBook → SourceName → ℕ → ℕ → Fetch → Budget → Resolution → Tried
unfolding consume close_fetch
fetched candidate source attempt_no ms fetch budget result =
    let (found_one, result') = consume fetch.items result in
    if found_one
    then record {
      budget = budget;
      called = true;
      result = attempted candidate source attempt_no resolved none ms result';
    }
    else close_fetch candidate source attempt_no ms fetch.ending budget result'

-- The fetches so far, with one more if it was made.
pub logged : SourceName → Bool → List SourceName → List SourceName
logged source called calls = if called then source ∷ calls else calls

module _ (settings : Settings) (w : World) (candidate : CandidateBook) where
  -- `_try_bulk_source`
  pub try_bulk_source : SourceName → Budget → ℕ → Resolution → Tried
  unfolding skip_reason try_spend attempted fetched
  try_bulk_source source budget attempt_no result = elim (skip_reason settings source) [
    | some reason ↦ record {
      budget = budget;
      called = false;
      result = attempted candidate source attempt_no skipped (some reason) 0 result;
    }
    | none ↦
        let (granted, budget') = try_spend budget in
        if granted
        then fetched candidate source attempt_no (w.elapsed_ms source)
            (w.fetch source (lookup_query candidate)) budget' result
        else record {
          budget = budget';
          called = false;
          result =
              attempted candidate source attempt_no skipped
                (some (codes "per-run budget of " ++ str_of budget.limit ++ codes " exhausted")) 0
                result;
        }
  ]

  try_openlibrary : State → Resolution → State × Resolution
  unfolding try_bulk_source logged
  try_openlibrary st result =
      let t = try_bulk_source openlibrary st.openlibrary_budget 2 result in
      (
        record st { openlibrary_budget = t.budget; calls = logged openlibrary t.called st.calls },
        t.result,
      )

  try_googlebooks : State → Resolution → State × Resolution
  unfolding try_bulk_source logged
  try_googlebooks st result =
      let t = try_bulk_source googlebooks st.googlebooks_budget 2 result in
      (
        record st { googlebooks_budget = t.budget; calls = logged googlebooks t.called st.calls },
        t.result,
      )

  -- `_try_live_fallbacks`
  pub try_live_fallbacks : State → Resolution → State × Resolution
  unfolding try_openlibrary try_googlebooks
  try_live_fallbacks st result =
      let (st', result') = try_openlibrary st result in try_googlebooks st' result'

  -- `_try_gutendex`
  pub try_gutendex : State → Resolution → State × Resolution
  unfolding try_bulk_source logged
  try_gutendex st result =
      let t = try_bulk_source gutendex st.gutendex_budget 1 result in
      (
        record st { gutendex_budget = t.budget; calls = logged gutendex t.called st.calls },
        t.result,
      )

  -- The answer of the Goodreads adapter, recorded.
  pub goodreads_answered : GoodreadsAnswer → Resolution → Resolution
  unfolding attempted
  goodreads_answered (raised message) result =
      attempted candidate goodreads 1 unavailable (some message) (w.elapsed_ms goodreads) result
  goodreads_answered (found none) result =
      attempted candidate goodreads 1 no_match none (w.elapsed_ms goodreads) result
  goodreads_answered (found (some book)) result =
      attempted candidate goodreads 1 resolved none (w.elapsed_ms goodreads)
        (with_observation book result)

  -- `_try_goodreads`
  pub try_goodreads : Resolution → Resolution
  unfolding goodreads_answered
  try_goodreads result = elim w.adapter [
    | none ↦
        attempted candidate goodreads 1 skipped (some (codes "goodreads adapter not configured")) 0
          result
    | some adapter ↦ elim adapter.refusal [
      | some message ↦ attempted candidate goodreads 1 skipped (some message) 0 result
      | none ↦
          if adapter.circuit_open
          then attempted candidate goodreads 1 skipped (some (codes "circuit open for this run")) 0
              result
          else goodreads_answered
              (adapter.answer (lookup_query candidate) (preferred_isbn candidate)) result
    ]
  ]

  -- `_try_retained_discovery`
  pub try_retained_discovery : Resolution → Resolution
  unfolding attempted
  try_retained_discovery result =
      let source = candidate.discovery_source in
      elim candidate.discovery_payload [
        | end ↦
            attempted candidate source 1 skipped (some (codes "no retained discovery payload")) 0
              result
        | field key value rest ↦ elim (w.map_payload source candidate.discovery_payload) [
          | refused r ↦
              attempted candidate source 1 contract_failure r.detail (w.elapsed_ms source)
                (with_rejection r result)
          | observed book ↦
              attempted candidate source 1 resolved (some (codes "retained discovery payload"))
                (w.elapsed_ms source) (with_observation book result)
        ]
      ]

  -- Whether a live source is asked for what is there so far.
  pub is_wanted : Resolution → Bool
  is_wanted result = settings.enrich_from_documented_sources || not (is_resolved result)

  -- The part of `resolve` that costs no documented lookup: Goodreads, where the settings ask for it,
  -- and the retained discovery payload.
  pub at_hand : Resolution
  unfolding try_goodreads try_retained_discovery
  at_hand =
      let fresh : Resolution = record {
        candidate = candidate;
        observations = [];
        rejections = [];
        attempts = [];
      } in
      try_retained_discovery
        (if settings.goodreads_in_resolution then try_goodreads fresh else fresh)

  pub live_if_wanted : State → Resolution → State × Resolution
  unfolding is_wanted try_live_fallbacks
  live_if_wanted st result = if is_wanted result then try_live_fallbacks st result else (st, result)

  pub gutendex_if_wanted : State → Resolution → State × Resolution
  unfolding is_wanted try_gutendex
  gutendex_if_wanted st result = if is_wanted result then try_gutendex st result else (st, result)

  -- `resolve`, from the state of the run.
  pub resolve : State → State × Resolution
  unfolding at_hand live_if_wanted gutendex_if_wanted
  resolve st = let (st', result) = live_if_wanted st at_hand in gutendex_if_wanted st' result

-- A run: the candidates one after the other, each with the world it meets.
pub resolve_all : Settings → State → List (World × CandidateBook) → State
resolve_all settings st [] = st
resolve_all settings st ((w, candidate) ∷ rest) =
    resolve_all settings (resolve settings w candidate st).0 rest
