-- ===== src/Series.antt =====
-- transform/series.py: series names, positions and identity keys.
pub mod Tests
pub mod Keys
pub mod SearchText
use book_data_pipeline.Base.{
  ℕ, ◌*◌, ◌^◌, Text, codes, Bool, true, false, not, ◌&&◌, ◌||◌, ◌==◌, leb, ltb, if◌then◌else◌,
  Option, none, some, List, [], ◌∷◌, ◌++◌, strip, is_empty, text_eq, text_lt, Result, ok, err,
  ◌>>=◌,
}
use book_data_pipeline.Base.Sorting.{sort}
use book_data_pipeline.Platform.{Platform, DecimalValue, nan, infinite, finite}
use book_data_pipeline.Normalise.Forms.{fold, or_none}
use book_data_pipeline.Domain.{
  SourceName, source_value, Decimal, RawSeriesMembership, CleanSeriesMembership,
}

abbrev pub source_series_prefix : Text
source_series_prefix = codes "srcseries:"

abbrev pub name_series_prefix : Text
name_series_prefix = codes "series:"

pub data SeriesError : Type 0 where
  no_identity : SeriesError

-- `position > MAX_POSITION`, that is 999999.99
pub above_max : Decimal → Bool
above_max d = ltb (99999999 * 10 ^ d.scale) (d.coefficient * 100)

-- `position < 0`: a negative zero is not below zero.
pub below_zero : Bool → Decimal → Bool
below_zero negative d = negative && not (d.coefficient == 0)

pub usable_position : DecimalValue → Option Decimal
usable_position nan = none
usable_position infinite = none
usable_position (finite negative d) = if below_zero negative d || above_max d then none else some d

module _ (p : Platform) where
  pub normalise_series : Option Text → Option Text
  normalise_series none = none
  normalise_series (some value) = or_none (fold p.unicode (p.unescape value))

  pub parse_series_position : Option Text → Option Decimal
  parse_series_position none = none
  parse_series_position (some value) =
      if is_empty (strip value)
      then none
      else elim (p.decimal_of (strip value)) [ none ↦ none | some d ↦ usable_position d ]

  -- The key by name, where no confirmed id is given.
  pub name_key : Text → Result SeriesError Text
  name_key normalised_name =
      if is_empty normalised_name || is_empty (strip normalised_name)
      then err no_identity
      else ok (name_series_prefix ++ p.sha256 normalised_name)

  pub series_identity_key : SourceName → Option Text → Text → Bool → Result SeriesError Text
  series_identity_key source none normalised_name confirmed = name_key normalised_name
  series_identity_key source (some id) normalised_name confirmed =
      if confirmed && not (is_empty id)
      then ok (source_series_prefix ++ (source_value source ++ (b':' ∷ id)))
      else name_key normalised_name

  -- The membership with the key that it was given.
  pub clean_membership : RawSeriesMembership → Text → Text → Text → CleanSeriesMembership
  clean_membership m display normalised key = record {
    identity_key = key;
    name = display;
    normalised_name = normalised;
    source_series_id = m.source_series_id;
    position = parse_series_position m.position;
    confirmed = m.confirmed;
  }

  pub canonicalise_series :
      RawSeriesMembership → SourceName → Result SeriesError (Option CleanSeriesMembership)
  canonicalise_series m source =
      let display = strip (p.unescape m.name) in
      elim (normalise_series (some m.name)) [
        | none ↦ ok none
        | some normalised ↦
            if is_empty display
            then ok none
            else series_identity_key source m.source_series_id normalised m.confirmed >>= λ key.
                ok (some (clean_membership m display normalised key))
      ]

  -- The comprehension over the memberships of a record; the first error ends it.
  pub canonicalise_all :
      List RawSeriesMembership → SourceName → Result SeriesError (List CleanSeriesMembership)
  canonicalise_all [] source = ok []
  canonicalise_all (m ∷ rest) source = canonicalise_series m source >>= λ found.
      canonicalise_all rest source >>= λ others.
      ok (elim found [ none ↦ others | some clean ↦ clean ∷ others ])

  -- `by_normalised`, listed by its keys: the least display form under each.
  pub keep_least : Text → Text → List (Text × Text) → List (Text × Text)
  keep_least key display [] = (key, display) ∷ []
  keep_least key display ((k, d) ∷ rest) =
      if text_lt key k
      then (key, display) ∷ (k, d) ∷ rest
      else if text_lt k key
      then (k, d) ∷ keep_least key display rest
      else (k, if text_lt display d then display else d) ∷ rest

  -- One turn of the loop over the names.
  pub keep_name : Text → List (Text × Text) → List (Text × Text)
  keep_name name kept = elim (normalise_series (some name)) [
    | none ↦ kept
    | some key ↦ keep_least key (strip (p.unescape name)) kept
  ]

  pub by_normalised : List Text → List (Text × Text)
  by_normalised [] = []
  by_normalised (name ∷ names) = keep_name name (by_normalised names)

  -- `" ".join(...)`
  pub spaced : List (Text × Text) → Text
  spaced [] = []
  spaced ((k, d) ∷ []) = d
  spaced ((k, d) ∷ e ∷ rest) = d ++ (b' ' ∷ spaced (e ∷ rest))

  pub series_search_text : List Text → Text
  series_search_text names = spaced (by_normalised names)
