-- ===== src/Resolver/Attempts.antt =====
-- What the resolution of one candidate records.
use book_data_pipeline.Base.{
  ◌+◌, true, false, if◌then◌else◌, List, [], ◌∷◌, ◌++◌, length, ◌≡◌, ◌∙◌, refl, ap, sym, arith, inl,
  inr, Bool-cases,
}
use book_data_pipeline.Domain.{
  SourceName, goodreads, googlebooks, openlibrary, gutendex, CandidateBook,
}
use book_data_pipeline.Resolver.{
  Resolution, Settings, World, State, try_openlibrary, try_googlebooks, try_live_fallbacks,
  try_gutendex, is_wanted, at_hand, live_if_wanted, gutendex_if_wanted, resolve, try_goodreads,
  try_retained_discovery,
}
use book_data_pipeline.Resolver.Sources.{
  sources_of, resolved_count, IsOneAttempt, try_bulk_source-IsOneAttempt,
  try_goodreads-IsOneAttempt, try_retained_discovery-IsOneAttempt,
}

append_nil : (xs : List SourceName) → xs ++ [] ≡ xs
append_nil [] = refl
append_nil (x ∷ xs) = ap (λ ys. x ∷ ys) (append_nil xs)

append_assoc : (xs ys zs : List SourceName) → xs ++ ys ++ zs ≡ xs ++ (ys ++ zs)
append_assoc [] ys zs = refl
append_assoc (x ∷ xs) ys zs = ap (λ us. x ∷ us) (append_assoc xs ys zs)

module _ (settings : Settings) (w : World) (c : CandidateBook) where
  -- The sources that the settings and the first answers call for, in the contractual order.
  pub sources_called : State → List SourceName
  sources_called st =
      (if settings.goodreads_in_resolution then goodreads ∷ [] else [])
      ++ c.discovery_source ∷ []
      ++ (if is_wanted settings w c (at_hand settings w c)
          then openlibrary ∷ googlebooks ∷ []
          else [])
      ++ (if is_wanted settings w c (live_if_wanted settings w c st (at_hand settings w c)).1
          then gutendex ∷ []
          else [])

  -- A stretch of the resolution that consults the sources.
  record IsStretch (ss : List SourceName) (before after : Resolution) : Type 0 where
    sources_eq : sources_of after.attempts ≡ sources_of before.attempts ++ ss
    count_eq :
        length after.observations + resolved_count before.attempts
        ≡ length before.observations + resolved_count after.attempts

  one-IsStretch :
      (s : SourceName) (r r' : Resolution) → IsOneAttempt s r r' → IsStretch (s ∷ []) r r'
  one-IsStretch s r r' h = record { sources_eq = h.sources_eq; count_eq = h.count_eq }

  nil-IsStretch : (r : Resolution) → IsStretch [] r r
  nil-IsStretch r = record { sources_eq = sym (append_nil _); count_eq = refl }

  join-IsStretch :
      (ss ts : List SourceName) (a b d : Resolution)
      → IsStretch ss a b
      → IsStretch ts b d
      → IsStretch (ss ++ ts) a d
  join-IsStretch ss ts a b d h k =
      let m = h.count_eq in
      let n = k.count_eq in
      record {
        sources_eq = k.sources_eq ∙ ap (λ s. s ++ ts) h.sources_eq ∙ append_assoc _ ss ts;
        count_eq = omega arith;
      }

  live-IsStretch :
      (st : State) (r : Resolution)
      → IsStretch
          (if is_wanted settings w c r then openlibrary ∷ googlebooks ∷ [] else [])
          r
          (live_if_wanted settings w c st r).1
  unfolding live_if_wanted try_live_fallbacks try_openlibrary try_googlebooks
  live-IsStretch st r = elim (Bool-cases (is_wanted settings w c r)) [
    | inl e ↦
        rw (e, live_if_wanted)
          (join-IsStretch (openlibrary ∷ []) (googlebooks ∷ []) _ _ _
            (one-IsStretch _ _ _
              (try_bulk_source-IsOneAttempt settings w c openlibrary st.openlibrary_budget 2 r))
            (one-IsStretch _ _ _
              (try_bulk_source-IsOneAttempt settings w c googlebooks st.googlebooks_budget 2 _)))
    | inr e ↦ rw (e, live_if_wanted) (nil-IsStretch r)
  ]

  gutendex-IsStretch :
      (st : State) (r : Resolution)
      → IsStretch
          (if is_wanted settings w c r then gutendex ∷ [] else [])
          r
          (gutendex_if_wanted settings w c st r).1
  unfolding gutendex_if_wanted try_gutendex
  gutendex-IsStretch st r = elim (Bool-cases (is_wanted settings w c r)) [
    | inl e ↦
        rw (e, gutendex_if_wanted)
          (one-IsStretch _ _ _
            (try_bulk_source-IsOneAttempt settings w c gutendex st.gutendex_budget 1 r))
    | inr e ↦ rw (e, gutendex_if_wanted) (nil-IsStretch r)
  ]

  unfoldable fresh : Resolution
  fresh = record { candidate = c; observations = []; rejections = []; attempts = [] }

  at_hand-IsStretch :
      IsStretch
        ((if settings.goodreads_in_resolution then goodreads ∷ [] else [])
          ++ c.discovery_source ∷ [])
        fresh
        (at_hand settings w c)
  unfolding at_hand fresh
  at_hand-IsStretch =
      elim settings.goodreads_in_resolution
        as (λ b. IsStretch ((if b then goodreads ∷ [] else []) ++ c.discovery_source ∷ []) fresh (
          try_retained_discovery settings w c
            (if b then try_goodreads settings w c fresh else fresh))) [
              | true ↦
                  (join-IsStretch (goodreads ∷ []) (c.discovery_source ∷ []) _ _ _
                    (one-IsStretch _ _ _ (try_goodreads-IsOneAttempt settings w c fresh))
                    (one-IsStretch _ _ _ (try_retained_discovery-IsOneAttempt settings w c _)))
              | false ↦ one-IsStretch _ _ _ (try_retained_discovery-IsOneAttempt settings w c fresh)
            ]

  resolve-IsStretch : (st : State) → IsStretch (sources_called st) fresh (resolve settings w c st).1
  unfolding resolve sources_called
  resolve-IsStretch st =
      join-IsStretch _ _ _ _ _
        (join-IsStretch _ _ _ _ _ at_hand-IsStretch (live-IsStretch st (at_hand settings w c)))
        (gutendex-IsStretch (live_if_wanted settings w c st (at_hand settings w c)).0
          (live_if_wanted settings w c st (at_hand settings w c)).1)

-- Whatever the sources answer, a resolution records exactly one attempt for each source that it comes
-- to, in the contractual order (Goodreads where the settings ask for it, the retained discovery
-- payload, Open Library and Google Books where they are wanted, then Gutendex where it still is), and
-- it holds exactly one observation for each attempt that it calls resolved.
pub resolve-attempts :
    (settings : Settings) (w : World) (c : CandidateBook) (st : State)
    → (sources_of (resolve settings w c st).1.attempts ≡ sources_called settings w c st)
      × (length (resolve settings w c st).1.observations
          ≡ resolved_count (resolve settings w c st).1.attempts)
unfolding fresh
resolve-attempts settings w c st =
    let h = resolve-IsStretch settings w c st in let n = h.count_eq in (h.sources_eq, omega arith)
