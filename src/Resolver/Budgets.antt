-- ===== src/Resolver/Budgets.antt =====
-- What a run may spend on each source.
use book_data_pipeline.Base.{
  ℕ, suc, ◌+◌, ◌≤◌, ◌<◌, Bool, true, false, leb, if◌then◌else◌, List, [], ◌∷◌, ◌≡◌, ◌∙◌, refl,
  arith, inl, inr, Bool-cases, Option-cases,
}
use book_data_pipeline.Domain.{
  SourceName, goodreads, googlebooks, openlibrary, gutendex, CandidateBook, lookup_query,
}
use book_data_pipeline.Resolver.{
  Budget, Ending, finished, quota_error, unavailable_error, credential_error, Fetch, Resolution,
  Tried, Settings, World, State, initial, skip_reason, try_spend, spend_all, consume, close_fetch,
  fetched, try_bulk_source, try_openlibrary, try_googlebooks, try_live_fallbacks, try_gutendex,
  logged, is_wanted, at_hand, live_if_wanted, gutendex_if_wanted, resolve, resolve_all,
}

-- The fetches of a source.
abbrev pub is_source : SourceName → SourceName → Bool
is_source goodreads goodreads = true
is_source googlebooks googlebooks = true
is_source openlibrary openlibrary = true
is_source gutendex gutendex = true
is_source s t = false

abbrev pub calls_of : SourceName → List SourceName → ℕ
calls_of s [] = 0
calls_of s (t ∷ ts) = let n = calls_of s ts in if is_source s t then suc n else n

-- One bounded lookup: the limit stays; a fetch costs one; the budget is not overdrawn; an exhausted
-- budget buys nothing.
record IsPaid (before : Budget) (t : Tried) : Type 0 where
  limit_kept : t.budget.limit ≡ before.limit
  paid : (if t.called then 1 else 0) + before.spent ≤ t.budget.spent
  in_limit : before.spent ≤ before.limit → t.budget.spent ≤ t.budget.limit

close_fetch-IsPaid :
    (c : CandidateBook) (s : SourceName) (attempt ms : ℕ) (e : Ending) (b b' : Budget)
    (r : Resolution)
    → b'.limit ≡ b.limit
    → b'.spent ≡ suc b.spent
    → b.spent < b.limit
    → IsPaid b (close_fetch c s attempt ms e b' r)
unfolding close_fetch spend_all
close_fetch-IsPaid c s attempt ms finished b b' r l p lt = record {
  limit_kept = l;
  paid = omega arith;
  in_limit = λ h. omega arith;
}
close_fetch-IsPaid c s attempt ms (quota_error m) b b' r l p lt = record {
  limit_kept = l;
  paid = omega arith;
  in_limit = λ h. omega arith;
}
close_fetch-IsPaid c s attempt ms (unavailable_error m) b b' r l p lt = record {
  limit_kept = l;
  paid = omega arith;
  in_limit = λ h. omega arith;
}
close_fetch-IsPaid c s attempt ms (credential_error m) b b' r l p lt = record {
  limit_kept = l;
  paid = omega arith;
  in_limit = λ h. omega arith;
}

fetched-IsPaid :
    (c : CandidateBook) (s : SourceName) (attempt ms : ℕ) (f : Fetch) (b b' : Budget)
    (r : Resolution)
    → b'.limit ≡ b.limit
    → b'.spent ≡ suc b.spent
    → b.spent < b.limit
    → IsPaid b (fetched c s attempt ms f b' r)
unfolding fetched
fetched-IsPaid c s attempt ms f b b' r l p lt = elim (Bool-cases (consume f.items r).0) [
  | inl e ↦ rw e (record { limit_kept = l; paid = omega arith; in_limit = λ h. omega arith })
  | inr e ↦ rw e (close_fetch-IsPaid c s attempt ms f.ending b b' (consume f.items r).1 l p lt)
]

module _ (settings : Settings) (w : World) (c : CandidateBook) where
  try_bulk_source-IsPaid :
      (s : SourceName) (b : Budget) (attempt : ℕ) (r : Resolution)
      → IsPaid b (try_bulk_source settings w c s b attempt r)
  unfolding try_bulk_source try_spend
  try_bulk_source-IsPaid s b attempt r = elim (Option-cases (skip_reason settings s)) [
    | inr (m, e) ↦
        rw (e, try_bulk_source)
          (record { limit_kept = refl; paid = omega arith; in_limit = λ h. h })
    | inl e ↦ elim (Bool-cases (leb b.limit b.spent)) [
      | inl full ↦
          rw (e, try_bulk_source, full)
            (record { limit_kept = refl; paid = omega arith; in_limit = λ h. h })
      | inr free ↦
          rw (e, try_bulk_source, free)
            (fetched-IsPaid c s attempt (w.elapsed_ms s) (w.fetch s (lookup_query c)) b
              (record b { spent = suc b.spent }) r refl refl (ground arith))
    ]
  ]

-- The fetches of a source are paid from its budget, whose limit is the one of the settings.
record IsWithin (limit : ℕ) (s : SourceName) (calls : List SourceName) (b : Budget) : Type 0 where
  limit_eq : b.limit ≡ limit
  calls_paid : calls_of s calls ≤ b.spent
  not_overdrawn : b.spent ≤ b.limit

record IsSolvent (settings : Settings) (st : State) : Type 0 where
  openlibrary_within :
      IsWithin settings.openlibrary_max_fallback_queries_per_run openlibrary st.calls
        st.openlibrary_budget
  googlebooks_within :
      IsWithin settings.googlebooks_max_fallback_queries_per_run googlebooks st.calls
        st.googlebooks_budget
  gutendex_within :
      IsWithin settings.gutendex_max_last_resort_queries_per_run gutendex st.calls
        st.gutendex_budget

within_limit :
    (limit : ℕ) (s : SourceName) (calls : List SourceName) (b : Budget)
    → IsWithin limit s calls b
    → calls_of s calls ≤ limit
within_limit limit s calls b h =
    let e = h.limit_eq in let paid = h.calls_paid in let top = h.not_overdrawn in omega arith

paid_calls :
    (s : SourceName) (called : Bool) (calls : List SourceName) (spent paid : ℕ)
    → is_source s s ≡ true
    → (if called then 1 else 0) + spent ≤ paid
    → calls_of s calls ≤ spent
    → calls_of s (logged s called calls) ≤ paid
unfolding logged
paid_calls s true calls spent paid own h within = rw own (omega arith)
paid_calls s false calls spent paid own h within = omega arith

paid-IsWithin :
    (limit : ℕ) (s : SourceName) (calls : List SourceName) (b : Budget) (t : Tried)
    → is_source s s ≡ true
    → IsPaid b t
    → IsWithin limit s calls b
    → IsWithin limit s (logged s t.called calls) t.budget
paid-IsWithin limit s calls b t own paid within = record {
  limit_eq = paid.limit_kept ∙ within.limit_eq;
  calls_paid = paid_calls s t.called calls b.spent t.budget.spent own paid.paid within.calls_paid;
  not_overdrawn = paid.in_limit within.not_overdrawn;
}

other_calls :
    (s u : SourceName) (called : Bool) (calls : List SourceName)
    → is_source s u ≡ false
    → calls_of s (logged u called calls) ≡ calls_of s calls
unfolding logged
other_calls s u true calls differ = rw differ refl
other_calls s u false calls differ = refl

other-IsWithin :
    (limit : ℕ) (s u : SourceName) (calls : List SourceName) (b : Budget) (called : Bool)
    → is_source s u ≡ false
    → IsWithin limit s calls b
    → IsWithin limit s (logged u called calls) b
other-IsWithin limit s u calls b called differ within =
    let same = other_calls s u called calls differ in
    let paid = within.calls_paid in
    record {
      limit_eq = within.limit_eq;
      calls_paid = omega arith;
      not_overdrawn = within.not_overdrawn;
    }

module _ (settings : Settings) (w : World) (c : CandidateBook) where
  try_openlibrary-IsSolvent :
      (st : State) (r : Resolution)
      → IsSolvent settings st
      → IsSolvent settings (try_openlibrary settings w c st r).0
  unfolding try_openlibrary
  try_openlibrary-IsSolvent st r h =
      let paid = try_bulk_source-IsPaid settings w c openlibrary st.openlibrary_budget 2 r in
      record {
        openlibrary_within = paid-IsWithin _ openlibrary _ _ _ refl paid h.openlibrary_within;
        googlebooks_within =
            other-IsWithin _ googlebooks openlibrary _ _ _ refl h.googlebooks_within;
        gutendex_within = other-IsWithin _ gutendex openlibrary _ _ _ refl h.gutendex_within;
      }

  try_googlebooks-IsSolvent :
      (st : State) (r : Resolution)
      → IsSolvent settings st
      → IsSolvent settings (try_googlebooks settings w c st r).0
  unfolding try_googlebooks
  try_googlebooks-IsSolvent st r h =
      let paid = try_bulk_source-IsPaid settings w c googlebooks st.googlebooks_budget 2 r in
      record {
        openlibrary_within =
            other-IsWithin _ openlibrary googlebooks _ _ _ refl h.openlibrary_within;
        googlebooks_within = paid-IsWithin _ googlebooks _ _ _ refl paid h.googlebooks_within;
        gutendex_within = other-IsWithin _ gutendex googlebooks _ _ _ refl h.gutendex_within;
      }

  try_gutendex-IsSolvent :
      (st : State) (r : Resolution)
      → IsSolvent settings st
      → IsSolvent settings (try_gutendex settings w c st r).0
  unfolding try_gutendex
  try_gutendex-IsSolvent st r h =
      let paid = try_bulk_source-IsPaid settings w c gutendex st.gutendex_budget 1 r in
      record {
        openlibrary_within = other-IsWithin _ openlibrary gutendex _ _ _ refl h.openlibrary_within;
        googlebooks_within = other-IsWithin _ googlebooks gutendex _ _ _ refl h.googlebooks_within;
        gutendex_within = paid-IsWithin _ gutendex _ _ _ refl paid h.gutendex_within;
      }

  live_if_wanted-IsSolvent :
      (st : State) (r : Resolution)
      → IsSolvent settings st
      → IsSolvent settings (live_if_wanted settings w c st r).0
  unfolding live_if_wanted try_live_fallbacks
  live_if_wanted-IsSolvent st r h = elim (Bool-cases (is_wanted settings w c r)) [
    | inl e ↦
        rw (e, live_if_wanted)
          (try_googlebooks-IsSolvent (try_openlibrary settings w c st r).0
            (try_openlibrary settings w c st r).1 (try_openlibrary-IsSolvent st r h))
    | inr e ↦ rw (e, live_if_wanted) h
  ]

  gutendex_if_wanted-IsSolvent :
      (st : State) (r : Resolution)
      → IsSolvent settings st
      → IsSolvent settings (gutendex_if_wanted settings w c st r).0
  unfolding gutendex_if_wanted
  gutendex_if_wanted-IsSolvent st r h = elim (Bool-cases (is_wanted settings w c r)) [
    | inl e ↦ rw (e, gutendex_if_wanted) (try_gutendex-IsSolvent st r h)
    | inr e ↦ rw (e, gutendex_if_wanted) h
  ]

  resolve-IsSolvent :
      (st : State) → IsSolvent settings st → IsSolvent settings (resolve settings w c st).0
  unfolding resolve
  resolve-IsSolvent st h =
      gutendex_if_wanted-IsSolvent _ _ (live_if_wanted-IsSolvent st (at_hand settings w c) h)

resolve_all-IsSolvent :
    (settings : Settings) (st : State) (run : List (World × CandidateBook))
    → IsSolvent settings st
    → IsSolvent settings (resolve_all settings st run)
unfolding resolve_all
resolve_all-IsSolvent settings st [] h = h
resolve_all-IsSolvent settings st ((w, c) ∷ run) h =
    resolve_all-IsSolvent settings (resolve settings w c st).0 run
      (resolve-IsSolvent settings w c st h)

initial-IsSolvent : (settings : Settings) → IsSolvent settings (initial settings)
unfolding initial
initial-IsSolvent settings = record {
  openlibrary_within = record {
    limit_eq = refl;
    calls_paid = omega arith;
    not_overdrawn = omega arith;
  };
  googlebooks_within = record {
    limit_eq = refl;
    calls_paid = omega arith;
    not_overdrawn = omega arith;
  };
  gutendex_within = record {
    limit_eq = refl;
    calls_paid = omega arith;
    not_overdrawn = omega arith;
  };
}

-- A run that starts with fresh budgets fetches from each documented source at most as often as the
-- settings allow per run, whatever the candidates are and whatever the sources answer.
pub resolve_all-within_budget :
    (settings : Settings) (run : List (World × CandidateBook))
    → (calls_of openlibrary (resolve_all settings (initial settings) run).calls
        ≤ settings.openlibrary_max_fallback_queries_per_run)
      × (calls_of googlebooks (resolve_all settings (initial settings) run).calls
          ≤ settings.googlebooks_max_fallback_queries_per_run)
      × (calls_of gutendex (resolve_all settings (initial settings) run).calls
          ≤ settings.gutendex_max_last_resort_queries_per_run)
resolve_all-within_budget settings run =
    let h = resolve_all-IsSolvent settings (initial settings) run (initial-IsSolvent settings) in
    (
      within_limit _ _ _ _ h.openlibrary_within,
      within_limit _ _ _ _ h.googlebooks_within,
      within_limit _ _ _ _ h.gutendex_within,
    )
