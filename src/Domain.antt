-- ===== src/Domain.antt =====
-- models/domain.py: the validated records. A text of such a record is the text after
-- `str_strip_whitespace`, which pydantic applies before it stores the value.
pub mod Tests
pub mod Validation
use book_data_pipeline.Base.{
  ℕ, ◌*◌, ◌^◌, Text, codes, Bool, true, false, not, ◌&&◌, ◌||◌, ◌==◌, leb, ltb, if◌then◌else◌,
  Option, none, some, List, [], ◌∷◌, ◌++◌, length, all, is_empty, is_digit, starts_with,
  after_prefix, text_eq, ℤ, leb_ℤ,
}
use book_data_pipeline.Identity.Document.{Fields}
use book_data_pipeline.Identity.{isbn_prefix, fallback_prefix}
use book_data_pipeline.Normalise.Years.{author_year_min, author_year_max}

-- `SourceName`, in the order of its declaration.
pub data SourceName : Type 0 where
  goodreads googlebooks openlibrary gutendex : SourceName

-- `SourceName.value`
abbrev pub source_value : SourceName → Text
source_value goodreads = codes "goodreads"
source_value googlebooks = codes "googlebooks"
source_value openlibrary = codes "openlibrary"
source_value gutendex = codes "gutendex"

unfoldable pub same_source : SourceName → SourceName → Bool
same_source s t = text_eq (source_value s) (source_value t)

-- A `Decimal` that is not negative: `coefficient / 10 ^ scale`.
pub record Decimal : Type 0 where
  pub coefficient : ℕ
  pub scale : ℕ

pub record RawAuthor : Type 0 where
  pub name : Text
  pub source_author_id : Option Text
  pub birth_year : Option ℤ
  pub death_year : Option ℤ

pub record RawSeriesMembership : Type 0 where
  pub name : Text
  pub source_series_id : Option Text
  pub position : Option Text
  pub confirmed : Bool

pub record CleanSeriesMembership : Type 0 where
  pub identity_key : Text
  pub name : Text
  pub normalised_name : Text
  pub source_series_id : Option Text
  pub position : Option Decimal
  pub confirmed : Bool

-- Timestamps are seconds; the records only carry them.
pub record RawBook : Type 0 where
  pub source : SourceName
  pub source_id : Text
  pub title : Text
  pub subtitle : Option Text
  pub authors : List RawAuthor
  pub subjects : List Text
  pub isbns : List Text
  pub languages : List Text
  pub published : Option Text
  pub publisher : Option Text
  pub page_count : Option ℤ
  pub description : Option Text
  pub cover_url : Option Text
  pub download_count : Option ℕ
  pub goodreads_average_rating : Option Decimal
  pub series : List RawSeriesMembership
  pub source_updated : Option ℕ
  pub raw_payload : Fields

pub record CleanBook : Type 0 where
  pub source : SourceName
  pub source_id : Text
  pub identity_key : Text
  pub title : Text
  pub normalised_title : Text
  pub subtitle : Option Text
  pub isbn13 : Option Text
  pub published_year : Option ℕ
  pub page_count : Option ℤ
  pub language : Option Text
  pub publisher : Option Text
  pub description : Option Text
  pub cover_url : Option Text
  pub download_count : Option ℕ
  pub goodreads_average_rating : Option Decimal
  pub series : List CleanSeriesMembership
  pub authors : List RawAuthor
  pub normalised_first_author : Option Text
  pub subjects : List Text
  pub source_updated : Option ℕ
  pub raw_payload : Fields

pub record CandidateBook : Type 0 where
  pub candidate_key : Text
  pub title : Text
  pub authors : List Text
  pub isbns : List Text
  pub openlibrary_work_key : Option Text
  pub openlibrary_edition_key : Option Text
  pub languages : List Text
  pub discovery_payload : Fields
  pub discovery_source : SourceName

-- `CandidateBook.lookup_query`
pub lookup_query : CandidateBook → Text
lookup_query c = elim c.authors [ [] ↦ c.title | author ∷ rest ↦ c.title ++ codes " by " ++ author ]

-- `CandidateBook.preferred_isbn`
pub preferred_isbn : CandidateBook → Option Text
preferred_isbn c = elim c.isbns [ [] ↦ none | isbn ∷ rest ↦ some isbn ]

-- `[0-9a-f]`
pub is_hex : ℕ → Bool
is_hex c = is_digit c || (leb b'a' c && leb c b'f')

-- `[a-z]`
pub is_small : ℕ → Bool
is_small c = leb b'a' c && leb c b'z'

-- `ISBN13_PATTERN`
pub matches_isbn_pattern : Text → Bool
matches_isbn_pattern s = (length s == 13) && all is_digit s

-- `is_isbn_identity`, and the first branch of `IDENTITY_KEY_PATTERN`
pub is_isbn_identity : Text → Bool
is_isbn_identity key =
    starts_with key isbn_prefix && matches_isbn_pattern (after_prefix key isbn_prefix)

-- The second branch of `IDENTITY_KEY_PATTERN`.
pub is_fallback_identity : Text → Bool
is_fallback_identity key =
    starts_with key fallback_prefix
    && (length (after_prefix key fallback_prefix) == 64)
    && all is_hex (after_prefix key fallback_prefix)

-- A constraint on an optional field.
abbrev pub if_present : {A : Type 0} → (A → Bool) → Option A → Bool
if_present p none = true
if_present p (some a) = p a

-- `LANGUAGE_PATTERN`
pub matches_language : Text → Bool
matches_language s = (length s == 3) && all is_small s

-- `Field(ge=0, le=5)` on a decimal.
pub at_most_five : Decimal → Bool
at_most_five d = leb d.coefficient (5 * 10 ^ d.scale)

abbrev pub same_isbn : Option Text → Text → Bool
same_isbn none expected = false
same_isbn (some isbn) expected = text_eq isbn expected

abbrev pub is_absent : {A : Type 0} → Option A → Bool
is_absent none = true
is_absent (some a) = false

-- `_check_identity_key_agrees_with_isbn`, its first part.
pub identity_agrees : Text → Option Text → Bool
identity_agrees identity_key isbn13 =
    if starts_with identity_key isbn_prefix
    then same_isbn isbn13 (after_prefix identity_key isbn_prefix)
    else if starts_with identity_key fallback_prefix
    then is_absent isbn13
    else true

-- The second part: every clean author has an id.
abbrev pub has_author_id : RawAuthor → Bool
has_author_id a = elim a.source_author_id [ none ↦ false | some i ↦ not (is_empty i) ]

-- `Field(gt=0)`
abbrev pub is_positive : ℤ → Bool
is_positive n = not (leb_ℤ n (ℤ.pos 0))

-- `RawAuthor`: its constraints, and `_check_lifespan_order`.
pub author_ok : RawAuthor → Bool
author_ok a =
    not (is_empty a.name)
    && if_present (λ i. not (is_empty i)) a.source_author_id
    && if_present (λ y. leb_ℤ author_year_min y && leb_ℤ y author_year_max) a.birth_year
    && if_present (λ y. leb_ℤ author_year_min y && leb_ℤ y author_year_max) a.death_year
    && if_present (λ death. if_present (λ birth. leb_ℤ birth death) a.birth_year) a.death_year

-- `RawBook`: its constraints. A record with a list of authors has authors that passed theirs.
pub raw_book_ok : RawBook → Bool
raw_book_ok b =
    not (is_empty b.source_id)
    && not (is_empty b.title)
    && all author_ok b.authors
    && all (λ (m : RawSeriesMembership). not (is_empty m.name)) b.series
    && if_present at_most_five b.goodreads_average_rating

-- The constraints on the identity of a `CleanBook`.
unfoldable pub identity_ok : Text → Option Text → Bool
identity_ok key isbn =
    (is_isbn_identity key || is_fallback_identity key)
    && if_present matches_isbn_pattern isbn
    && identity_agrees key isbn

-- The constraints on its other fields.
unfoldable pub fields_ok : CleanBook → Bool
fields_ok b =
    not (is_empty b.source_id)
    && not (is_empty b.title)
    && not (is_empty b.normalised_title)
    && if_present (λ y. leb 1400 y && leb y 2100) b.published_year
    && if_present is_positive b.page_count
    && if_present matches_language b.language
    && if_present at_most_five b.goodreads_average_rating
    && all has_author_id b.authors

-- `CleanBook`: the validation of a record.
unfoldable pub clean_book_ok : CleanBook → Bool
clean_book_ok b = identity_ok b.identity_key b.isbn13 && fields_ok b

-- `CleanBook.has_canonical_isbn`
pub has_canonical_isbn : CleanBook → Bool
has_canonical_isbn b = not (is_absent b.isbn13)
