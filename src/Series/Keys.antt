-- ===== src/Series/Keys.antt =====
-- What the identity keys of series tell apart.
use book_data_pipeline.Base.{
  Text, Bool, true, false, ◌⊎◌, inl, inr, Option, none, some, [], ◌∷◌, ◌++◌, is_empty_of_ne, Result,
  ok, ◌≡◌, ◌≢◌, ◌↔◌, refl, sym, ◌∙◌, arith,
}
use book_data_pipeline.Platform.{Platform}
use book_data_pipeline.Domain.{
  SourceName, goodreads, googlebooks, openlibrary, gutendex, source_value,
}
use book_data_pipeline.Series.{source_series_prefix, SeriesError, name_key, series_identity_key}

-- A source's name ends before the first colon, so that the id behind it is found again.
source_then_id :
    (s t : SourceName) (i j : Text)
    → source_value s ++ (b':' ∷ i) ≡ source_value t ++ (b':' ∷ j)
    → (s ≡ t) × (i ≡ j)
source_then_id goodreads goodreads i j e = (refl, cc)
source_then_id goodreads googlebooks i j e = ground arith
source_then_id goodreads openlibrary i j e = ground arith
source_then_id goodreads gutendex i j e = ground arith
source_then_id googlebooks goodreads i j e = ground arith
source_then_id googlebooks googlebooks i j e = (refl, cc)
source_then_id googlebooks openlibrary i j e = ground arith
source_then_id googlebooks gutendex i j e = ground arith
source_then_id openlibrary goodreads i j e = ground arith
source_then_id openlibrary googlebooks i j e = ground arith
source_then_id openlibrary openlibrary i j e = (refl, cc)
source_then_id openlibrary gutendex i j e = ground arith
source_then_id gutendex goodreads i j e = ground arith
source_then_id gutendex googlebooks i j e = ground arith
source_then_id gutendex openlibrary i j e = ground arith
source_then_id gutendex gutendex i j e = (refl, cc)

abbrev source_key : SourceName → Text → Result SeriesError Text
source_key s i = ok (source_series_prefix ++ (source_value s ++ (b':' ∷ i)))

source_key_injective :
    (s t : SourceName) (i j : Text) → source_key s i ≡ source_key t j → (s ≡ t) × (i ≡ j)
source_key_injective s t i j e = source_then_id s t i j (cc)

-- Not confirmed, or without an id.
abbrev pub IsUnconfirmed : Bool → Option Text → Type 0
IsUnconfirmed confirmed i = (confirmed ≡ false) ⊎ ((i ≡ none) ⊎ (i ≡ some []))

module _ (p : Platform) where
  confirmed_key :
      (s : SourceName) (i name : Text)
      → i ≢ []
      → series_identity_key p s (some i) name true ≡ source_key s i
  unfolding series_identity_key
  confirmed_key s i name ne = rw (is_empty_of_ne i ne)

  -- Two confirmed series have one key exactly when they have one source and one id there, whatever
  -- they are called.
  pub series_identity_key-confirmed :
      (s t : SourceName) (i j name name' : Text)
      → i ≢ []
      → j ≢ []
      → (series_identity_key p s (some i) name true ≡ series_identity_key p t (some j) name' true)
        ↔ ((s ≡ t) × (i ≡ j))
  series_identity_key-confirmed s t i j name name' ni nj = (
    λ e.
        source_key_injective s t i j
          (sym (confirmed_key s i name ni) ∙ e ∙ confirmed_key t j name' nj),
    λ same. rw (confirmed_key s i name ni, confirmed_key t j name' nj, same.0, same.1),
  )

  unconfirmed_key :
      (s : SourceName) (confirmed : Bool) (i : Option Text) (name : Text)
      → IsUnconfirmed confirmed i
      → series_identity_key p s i name confirmed ≡ name_key p name
  unfolding series_identity_key
  unconfirmed_key s confirmed none name h = refl
  unconfirmed_key s false (some i) name h = refl
  unconfirmed_key s true (some []) name h = refl
  unconfirmed_key s true (some (c ∷ i)) name (inl h) = cc
  unconfirmed_key s true (some (c ∷ i)) name (inr (inl h)) = cc
  unconfirmed_key s true (some (c ∷ i)) name (inr (inr h)) = cc

  name_key-ne-source_key :
      (name : Text) (t : SourceName) (j : Text) → name_key p name ≢ source_key t j
  unfolding name_key
  name_key-ne-source_key name t j e = ground arith

  -- A membership without a confirmed id (it is not confirmed, or its id is missing or empty) never
  -- has the key of one with a confirmed id.
  pub series_identity_key-unconfirmed :
      (s t : SourceName) (confirmed : Bool) (i : Option Text) (j name name' : Text)
      → IsUnconfirmed confirmed i
      → j ≢ []
      → series_identity_key p s i name confirmed ≢ series_identity_key p t (some j) name' true
  series_identity_key-unconfirmed s t confirmed i j name name' h nj e =
      name_key-ne-source_key name t j
        (sym (unconfirmed_key s confirmed i name h) ∙ e ∙ confirmed_key t j name' nj)
