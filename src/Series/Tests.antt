-- ===== src/Series/Tests.antt =====
-- The theorems on series at two confirmed series.
use book_data_pipeline.Base.{
  Text, codes, Bool, true, false, Option, none, some, List, [], ◌∷◌, ◌≡◌, ◌≢◌, ◌↔◌, ◌++◌, refl,
  Result, ok, inl, inr,
}
use book_data_pipeline.Unicode.{ascii_unicode}
use book_data_pipeline.Platform.{Platform, finite}
use book_data_pipeline.Domain.{openlibrary, goodreads, openlibrary, RawSeriesMembership}
use book_data_pipeline.Series.{
  series_identity_key, parse_series_position, normalise_series, canonicalise_series,
  canonicalise_all, clean_membership, usable_position, spaced,
}
use book_data_pipeline.Series.Keys.{series_identity_key-confirmed, series_identity_key-unconfirmed}

abbrev pub platform : Platform
platform = record {
  unicode = ascii_unicode;
  languages = λ attribute code. none;
  sha256 = λ s. s;
  unescape = λ s. s;
  decimal_of = λ s. none;
}

given : codes "41" ≢ []
given h = cc

series_identity_key-confirmed_example :
    (series_identity_key platform goodreads (some (codes "41")) (codes "Dune") true
      ≡ series_identity_key platform openlibrary (some (codes "41")) (codes "Emma") true)
    ↔ ((goodreads ≡ openlibrary) × (codes "41" ≡ codes "41"))
series_identity_key-confirmed_example =
    series_identity_key-confirmed platform goodreads openlibrary (codes "41") (codes "41")
      (codes "Dune") (codes "Emma") given given

series_identity_key-unconfirmed_example :
    series_identity_key platform goodreads (some []) (codes "Dune") true
    ≢ series_identity_key platform openlibrary (some (codes "41")) (codes "Emma") true
series_identity_key-unconfirmed_example =
    series_identity_key-unconfirmed platform goodreads openlibrary true (some []) (codes "41")
      (codes "Dune") (codes "Emma") (inr (inr refl)) given

position_read : parse_series_position platform (some (codes "2")) ≡ none
unfolding parse_series_position book_data_pipeline.Base.strip
position_read = refl

abbrev dune : RawSeriesMembership
dune = record { name = codes " Dune "; source_series_id = none; position = none; confirmed = false }

nameless_series : normalise_series platform none ≡ none
unfolding normalise_series
nameless_series = refl

membership_dropped :
    normalise_series platform (some dune.name) ≡ none
    → canonicalise_series platform dune goodreads ≡ ok none
unfolding canonicalise_series
membership_dropped h = rw (h, canonicalise_series) refl

membership_kept :
    (clean_membership platform dune (codes "Dune") (codes "dune") (codes "key")).name ≡ codes "Dune"
unfolding clean_membership
membership_kept = refl

position_bounds :
    usable_position (finite false (record { coefficient = 25; scale = 1 }))
    ≡ some (record { coefficient = 25; scale = 1 })
unfolding usable_position book_data_pipeline.Series.below_zero book_data_pipeline.Series.above_max
position_bounds = refl

names_joined :
    spaced platform ((codes "a", codes "Dune") ∷ (codes "b", codes "Emma") ∷ []) ≡ codes "Dune Emma"
unfolding spaced
names_joined = refl

pub no_series : canonicalise_all platform [] openlibrary ≡ ok []
unfolding canonicalise_all
no_series = refl
