-- ===== src/Resolver/Retained.antt =====
-- The resolution of a candidate whose discovery payload was retained.
use book_data_pipeline.Base.{
  false, Text, Option, List, [], ◌∷◌, ◌++◌, Among, ◌≡◌, ◌≢◌, ◌∙◌, refl, ap, sym, inl, inr,
}
use book_data_pipeline.Identity.Document.{end}
use book_data_pipeline.Domain.{SourceName, RawBook, CandidateBook}
use book_data_pipeline.Resolver.{
  Adapter, Fetch, observed, Resolution, Settings, World, State, attempted, with_observation,
  is_wanted, is_resolved, at_hand, live_if_wanted, gutendex_if_wanted, resolve,
  try_retained_discovery,
}
use book_data_pipeline.Resolver.Sources.{payload-cases}

among_last : (book : RawBook) (books : List RawBook) → Among book (books ++ book ∷ [])
among_last book [] = inl refl
among_last book (b ∷ books) = inr (among_last book books)

not_wanted :
    (settings : Settings) (w : World) (c : CandidateBook) (r : Resolution) (book : RawBook)
    (books : List RawBook)
    → settings.enrich_from_documented_sources ≡ false
    → r.observations ≡ books ++ book ∷ []
    → is_wanted settings w c r ≡ false
unfolding is_wanted is_resolved
not_wanted settings w c r book [] enrich e = rw (enrich, is_wanted, e) refl
not_wanted settings w c r book (b ∷ books) enrich e = rw (enrich, is_wanted, e) refl

live-unwanted :
    (settings : Settings) (w : World) (c : CandidateBook) (st : State) (r : Resolution)
    → is_wanted settings w c r ≡ false
    → live_if_wanted settings w c st r ≡ (st, r)
unfolding live_if_wanted
live-unwanted settings w c st r e = rw (e, live_if_wanted) refl

gutendex-unwanted :
    (settings : Settings) (w : World) (c : CandidateBook) (st : State) (r : Resolution)
    → is_wanted settings w c r ≡ false
    → gutendex_if_wanted settings w c st r ≡ (st, r)
unfolding gutendex_if_wanted
gutendex-unwanted settings w c st r e = rw (e, gutendex_if_wanted) refl

resolve-unwanted :
    (settings : Settings) (w : World) (c : CandidateBook) (st : State)
    → is_wanted settings w c (at_hand settings w c) ≡ false
    → resolve settings w c st ≡ (st, at_hand settings w c)
unfolding resolve
resolve-unwanted settings w c st e =
    let live = live-unwanted settings w c st _ e in
    ap (λ out. gutendex_if_wanted settings w c out.0 out.1) live
    ∙ gutendex-unwanted settings w c st _ e

retained-kept :
    (settings : Settings) (w : World) (c : CandidateBook) (r : Resolution) (book : RawBook)
    → c.discovery_payload ≢ end
    → w.map_payload c.discovery_source c.discovery_payload ≡ observed book
    → (try_retained_discovery settings w c r).observations ≡ r.observations ++ book ∷ []
unfolding try_retained_discovery attempted with_observation
retained-kept settings w c r book payload m = elim (payload-cases c.discovery_payload) [
  | inl e ↦ absurd (payload e)
  | inr (key, value, rest, e) ↦ rw (e, try_retained_discovery, m) refl
]

at_hand-kept :
    (settings : Settings) (w : World) (c : CandidateBook) (book : RawBook)
    → c.discovery_payload ≢ end
    → w.map_payload c.discovery_source c.discovery_payload ≡ observed book
    → (books : List RawBook) × ((at_hand settings w c).observations ≡ books ++ book ∷ [])
unfolding at_hand
at_hand-kept settings w c book payload m = (_, retained-kept settings w c _ book payload m)

-- The resolution ends with what is at hand where the retained discovery payload is a valid record.
resolve-at_hand :
    (settings : Settings) (w : World) (c : CandidateBook) (st : State) (book : RawBook)
    → settings.enrich_from_documented_sources ≡ false
    → c.discovery_payload ≢ end
    → w.map_payload c.discovery_source c.discovery_payload ≡ observed book
    → resolve settings w c st ≡ (st, at_hand settings w c)
resolve-at_hand settings w c st book enrich payload e =
    let (r, kept) = at_hand-kept settings w c book payload e in
    resolve-unwanted settings w c st (not_wanted settings w c _ book r enrich kept)

-- Without Goodreads, what is at hand depends on no source's answer.
at_hand-offline :
    (settings : Settings) (w : World) (c : CandidateBook) (adapter : Option Adapter)
    (fetch : SourceName → Text → Fetch)
    → settings.goodreads_in_resolution ≡ false
    → at_hand settings (record w { adapter = adapter; fetch = fetch }) c ≡ at_hand settings w c
unfolding at_hand try_retained_discovery
at_hand-offline settings w c adapter fetch off = rw off refl

-- A run that only fills gaps and leaves Goodreads out of resolution makes no live lookup for a
-- candidate whose retained discovery payload is a valid record: the resolution is the same whatever
-- Goodreads and the documented sources would answer, the budgets and the fetches stay as they were,
-- and the record is kept.
pub resolve-retained :
    (settings : Settings) (w : World) (c : CandidateBook) (st : State) (book : RawBook)
    (adapter : Option Adapter) (fetch : SourceName → Text → Fetch)
    → settings.enrich_from_documented_sources ≡ false
    → settings.goodreads_in_resolution ≡ false
    → c.discovery_payload ≢ end
    → w.map_payload c.discovery_source c.discovery_payload ≡ observed book
    → (resolve settings (record w { adapter = adapter; fetch = fetch }) c st
        ≡ resolve settings w c st)
      × ((resolve settings w c st).0 ≡ st)
      × Among book (resolve settings w c st).1.observations
resolve-retained settings w c st book adapter fetch enrich off payload e =
    let (r, kept) = at_hand-kept settings w c book payload e in
    let ends = resolve-at_hand settings w c st book enrich payload e in
    let other =
      resolve-at_hand settings (record w { adapter = adapter; fetch = fetch }) c st book enrich
        payload e in
    let same = at_hand-offline settings w c adapter fetch off in
    (
      other ∙ ap (λ result. (st, result)) same ∙ sym ends,
      rw ends refl,
      rw ends (rw kept (among_last book r)),
    )
