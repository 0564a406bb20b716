-- ===== src/Resolver/Sources.antt =====
-- What one source adds to the record of a resolution.
use book_data_pipeline.Base.{
  ℕ, suc, ◌+◌, Text, Bool, true, false, leb, Option, none, some, List, [], ◌∷◌, ◌++◌, length,
  length-append, ◌≡◌, ◌⊎◌, refl, ap, arith, inl, inr, Bool-cases, Option-cases,
}
use book_data_pipeline.Identity.Document.{Json, Fields, end, field}
use book_data_pipeline.Domain.{SourceName, goodreads, RawBook, CandidateBook, lookup_query}
use book_data_pipeline.Resolver.{
  Attempt, Outcome, resolved, skipped, Ending, finished, quota_error, unavailable_error,
  credential_error, Budget, Item, observed, refused, Fetch, GoodreadsAnswer, found, raised,
  Resolution, Settings, World, skip_reason, try_spend, consume, close_fetch, fetched, attempted,
  with_observation, with_rejection, goodreads_answered, try_bulk_source, try_goodreads,
  try_retained_discovery,
}

abbrev pub sources_of : List Attempt → List SourceName
sources_of [] = []
sources_of (a ∷ as') = a.source ∷ sources_of as'

-- The attempts that resolved.
abbrev pub weight_of : Outcome → ℕ
weight_of resolved = 1
weight_of o = 0

abbrev pub resolved_count : List Attempt → ℕ
resolved_count [] = 0
resolved_count (a ∷ as') = weight_of a.outcome + resolved_count as'

sources_of-append : (xs ys : List Attempt) → sources_of (xs ++ ys) ≡ sources_of xs ++ sources_of ys
sources_of-append [] ys = refl
sources_of-append (x ∷ xs) ys = ap (λ s. x.source ∷ s) (sources_of-append xs ys)

resolved_count-append :
    (xs ys : List Attempt) → resolved_count (xs ++ ys) ≡ resolved_count xs + resolved_count ys
resolved_count-append [] ys = omega arith
resolved_count-append (x ∷ xs) ys = let e = resolved_count-append xs ys in omega arith

-- What one source adds: its attempt, and an observation for an attempt that resolved.
pub record IsOneAttempt (s : SourceName) (before after : Resolution) : Type 0 where
  pub sources_eq : sources_of after.attempts ≡ sources_of before.attempts ++ s ∷ []
  pub count_eq :
      length after.observations + resolved_count before.attempts
      ≡ length before.observations + resolved_count after.attempts

attempted-quiet :
    (c : CandidateBook) (s : SourceName) (attempt ms : ℕ) (o : Outcome) (reason : Option Text)
    (r r' : Resolution)
    → weight_of o ≡ 0
    → r'.attempts ≡ r.attempts
    → r'.observations ≡ r.observations
    → IsOneAttempt s r (attempted c s attempt o reason ms r')
unfolding attempted
attempted-quiet c s attempt ms o reason r r' w ha ho =
    let n = resolved_count-append r.attempts in
    record {
      sources_eq = rw ha (sources_of-append r.attempts _);
      count_eq = rw (ha, ho) (rw (n _, w) (omega arith));
    }

attempted-resolved :
    (c : CandidateBook) (s : SourceName) (attempt ms : ℕ) (reason : Option Text) (r r' : Resolution)
    (book : RawBook)
    → r'.attempts ≡ r.attempts
    → r'.observations ≡ r.observations ++ book ∷ []
    → IsOneAttempt s r (attempted c s attempt resolved reason ms r')
unfolding attempted
attempted-resolved c s attempt ms reason r r' book ha ho =
    let n = resolved_count-append r.attempts in
    let m = length-append r.observations (book ∷ []) in
    record {
      sources_eq = rw ha (sources_of-append r.attempts _);
      count_eq = rw (ha, ho) (rw (n _, m) (omega arith));
    }

-- A fetch adds at most one observation and leaves the attempts alone.
record IsConsumed (r : Resolution) (out : Bool × Resolution) : Type 0 where
  attempts_eq : out.1.attempts ≡ r.attempts
  found_eq : out.0 ≡ true → (book : RawBook) × (out.1.observations ≡ r.observations ++ book ∷ [])
  none_eq : out.0 ≡ false → out.1.observations ≡ r.observations

consume-IsConsumed : (items : List Item) (r : Resolution) → IsConsumed r (consume items r)
unfolding consume with_observation with_rejection
consume-IsConsumed [] r = record { attempts_eq = refl; found_eq = λ h. cc; none_eq = λ h. refl }
consume-IsConsumed (observed book ∷ items) r = record {
  attempts_eq = refl;
  found_eq = λ h. (book, refl);
  none_eq = λ h. cc;
}
consume-IsConsumed (refused x ∷ items) r =
    let h = consume-IsConsumed items (with_rejection x r) in
    record { attempts_eq = h.attempts_eq; found_eq = h.found_eq; none_eq = h.none_eq }

close_fetch-IsOneAttempt :
    (c : CandidateBook) (s : SourceName) (attempt ms : ℕ) (e : Ending) (b : Budget)
    (r r' : Resolution)
    → r'.attempts ≡ r.attempts
    → r'.observations ≡ r.observations
    → IsOneAttempt s r (close_fetch c s attempt ms e b r').result
unfolding close_fetch
close_fetch-IsOneAttempt c s attempt ms finished b r r' ha ho =
    attempted-quiet c s attempt ms _ _ r r' refl ha ho
close_fetch-IsOneAttempt c s attempt ms (quota_error m) b r r' ha ho =
    attempted-quiet c s attempt ms _ _ r r' refl ha ho
close_fetch-IsOneAttempt c s attempt ms (unavailable_error m) b r r' ha ho =
    attempted-quiet c s attempt ms _ _ r r' refl ha ho
close_fetch-IsOneAttempt c s attempt ms (credential_error m) b r r' ha ho =
    attempted-quiet c s attempt ms _ _ r r' refl ha ho

fetched-IsOneAttempt :
    (c : CandidateBook) (s : SourceName) (attempt ms : ℕ) (f : Fetch) (b : Budget) (r : Resolution)
    → IsOneAttempt s r (fetched c s attempt ms f b r).result
unfolding fetched
fetched-IsOneAttempt c s attempt ms f b r =
    let h = consume-IsConsumed f.items r in
    elim (Bool-cases (consume f.items r).0) [
      | inl e ↦
          let (book, ho) = h.found_eq e in
          rw (e, fetched)
            (attempted-resolved c s attempt ms none r (consume f.items r).1 book h.attempts_eq ho)
      | inr e ↦
          rw (e, fetched)
            (close_fetch-IsOneAttempt c s attempt ms f.ending b r (consume f.items r).1
              h.attempts_eq (h.none_eq e))
    ]

pub payload-cases :
    (f : Fields)
    → (f ≡ end) ⊎ ((key : Text) × (value : Json) × (rest : Fields) × (f ≡ field key value rest))
payload-cases end = inl refl
payload-cases (field key value rest) = inr (key, value, rest, refl)

module _ (settings : Settings) (w : World) (c : CandidateBook) where
  pub try_bulk_source-IsOneAttempt :
      (s : SourceName) (b : Budget) (attempt : ℕ) (r : Resolution)
      → IsOneAttempt s r (try_bulk_source settings w c s b attempt r).result
  unfolding try_bulk_source try_spend
  try_bulk_source-IsOneAttempt s b attempt r = elim (Option-cases (skip_reason settings s)) [
    | inr (m, e) ↦
        rw (e, try_bulk_source) (attempted-quiet c s attempt 0 skipped (some m) r r refl refl refl)
    | inl e ↦ elim (Bool-cases (leb b.limit b.spent)) [
      | inl full ↦
          rw (e, try_bulk_source, full) (attempted-quiet c s attempt 0 skipped _ r r refl refl refl)
      | inr free ↦
          rw (e, try_bulk_source, free)
            (fetched-IsOneAttempt c s attempt (w.elapsed_ms s) (w.fetch s (lookup_query c))
              (record b { spent = suc b.spent }) r)
    ]
  ]

  goodreads_answered-IsOneAttempt :
      (answer : GoodreadsAnswer) (r : Resolution)
      → IsOneAttempt goodreads r (goodreads_answered settings w c answer r)
  unfolding goodreads_answered with_observation
  goodreads_answered-IsOneAttempt (raised m) r =
      attempted-quiet c goodreads 1 _ _ _ r r refl refl refl
  goodreads_answered-IsOneAttempt (found none) r =
      attempted-quiet c goodreads 1 _ _ _ r r refl refl refl
  goodreads_answered-IsOneAttempt (found (some book)) r =
      attempted-resolved c goodreads 1 _ _ r (with_observation book r) book refl refl

  pub try_goodreads-IsOneAttempt :
      (r : Resolution) → IsOneAttempt goodreads r (try_goodreads settings w c r)
  unfolding try_goodreads
  try_goodreads-IsOneAttempt r = elim (Option-cases w.adapter) [
    | inl e ↦ rw (e, try_goodreads) (attempted-quiet c goodreads 1 _ _ _ r r refl refl refl)
    | inr (a, e) ↦ elim (Option-cases a.refusal) [
      | inr (m, e') ↦
          rw (e, try_goodreads, e') (attempted-quiet c goodreads 1 _ _ _ r r refl refl refl)
      | inl e' ↦ elim (Bool-cases a.circuit_open) [
        | inl open' ↦
            rw (e, try_goodreads, e', open')
              (attempted-quiet c goodreads 1 _ _ _ r r refl refl refl)
        | inr closed ↦ rw (e, try_goodreads, e', closed) (goodreads_answered-IsOneAttempt _ r)
      ]
    ]
  ]

  kept_payload-IsOneAttempt :
      (key : Text) (value : Json) (rest : Fields) (item : Item) (r : Resolution)
      → c.discovery_payload ≡ field key value rest
      → w.map_payload c.discovery_source c.discovery_payload ≡ item
      → IsOneAttempt c.discovery_source r (try_retained_discovery settings w c r)
  unfolding try_retained_discovery with_rejection with_observation
  kept_payload-IsOneAttempt key value rest (refused x) r e m =
      rw (e, try_retained_discovery, m)
        (attempted-quiet c c.discovery_source 1 _ _ _ r (with_rejection x r) refl refl refl)
  kept_payload-IsOneAttempt key value rest (observed book) r e m =
      rw (e, try_retained_discovery, m)
        (attempted-resolved c c.discovery_source 1 _ _ r (with_observation book r) book refl refl)

  no_payload-IsOneAttempt :
      (r : Resolution)
      → c.discovery_payload ≡ end
      → IsOneAttempt c.discovery_source r (try_retained_discovery settings w c r)
  unfolding try_retained_discovery
  no_payload-IsOneAttempt r e =
      rw (e, try_retained_discovery)
        (attempted-quiet c c.discovery_source 1 _ _ _ r r refl refl refl)

  pub try_retained_discovery-IsOneAttempt :
      (r : Resolution) → IsOneAttempt c.discovery_source r (try_retained_discovery settings w c r)
  try_retained_discovery-IsOneAttempt r = elim (payload-cases c.discovery_payload) [
    | inl e ↦ no_payload-IsOneAttempt r e
    | inr (key, value, rest, e) ↦ kept_payload-IsOneAttempt key value rest _ r e refl
  ]
