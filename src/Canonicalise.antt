-- ===== src/Canonicalise.antt =====
-- transform/canonicalise.py: one source record to a clean record, and the merge of several.
pub mod Tests
pub mod Verdict
pub mod Merge
use book_data_pipeline.Base.{
  ℕ, ◌+◌, Text, codes, Bool, true, false, not, ◌&&◌, ◌||◌, ◌==◌, ltb, if◌then◌else◌, Option, none,
  some, or_option, List, [], ◌∷◌, ◌++◌, collect, keep, is_empty, text_eq, text_lt, Result, ok, err,
  ◌>>=◌,
}
use book_data_pipeline.Platform.{Platform}
use book_data_pipeline.Identity.{IdentityError, isbn_prefix, identity_key}
use book_data_pipeline.Identity.Document.{Fields}
use book_data_pipeline.Isbn.{select_canonical_isbn}
use book_data_pipeline.Normalise.Forms.{
  normalise_author, normalise_subject, normalise_title, strip_marc_subfields,
}
use book_data_pipeline.Normalise.Years.{parse_year}
use book_data_pipeline.Normalise.Language.{select_language}
use book_data_pipeline.Series.{SeriesError, canonicalise_all}
use book_data_pipeline.Domain.{
  SourceName, RawAuthor, RawBook, CleanBook, CleanSeriesMembership, clean_book_ok,
}

-- `Rejected` of extract/base.py. The detail of a validation error is pydantic's text.
pub data RejectionCode : Type 0 where
  unidentifiable invalid_record : RejectionCode

pub record Rejected : Type 0 where
  pub source : SourceName
  pub source_id : Text
  pub raw_payload : Fields
  pub rejection_code : RejectionCode

-- What `canonicalise` returns, and the exceptions that it lets through.
pub data Canonicalised : Type 0 where
  clean : CleanBook → Canonicalised
  rejected : Rejected → Canonicalised
  identity_raised : IdentityError → Canonicalised
  series_raised : SeriesError → Canonicalised

pub reject : RawBook → RejectionCode → Rejected
reject record' code = record {
  source = record'.source;
  source_id = record'.source_id;
  raw_payload = record'.raw_payload;
  rejection_code = code;
}

-- `CleanBook(...)`
pub validate : RawBook → CleanBook → Canonicalised
validate record' book =
    if clean_book_ok book then clean book else rejected (reject record' invalid_record)

module _ (p : Platform) where
  -- `strip_marc_subfields(record.title) or record.title`
  pub display_title : RawBook → Text
  display_title r = elim (strip_marc_subfields (some r.title)) [
    | none ↦ r.title
    | some t ↦ if is_empty t then r.title else t
  ]

  pub first_author : List RawAuthor → Option Text
  first_author [] = none
  first_author (a ∷ rest) = normalise_author p.unicode (some a.name)

  -- `author.source_author_id or "name:" + ...`
  pub author_id : RawAuthor → Text → Text
  author_id a normalised = elim a.source_author_id [
    | none ↦ codes "name:" ++ p.sha256 normalised
    | some i ↦ if is_empty i then codes "name:" ++ p.sha256 normalised else i
  ]

  pub clean_author : RawAuthor → Option RawAuthor
  clean_author a = elim (normalise_author p.unicode (some a.name)) [
    | none ↦ none
    | some normalised ↦ some (record a { source_author_id = some (author_id a normalised) })
  ]

  pub has_subject : Text → Bool
  has_subject subject = elim (normalise_subject p.unicode (some subject)) [
    | none ↦ false
    | some s ↦ true
  ]

  -- The fields that are handed to `CleanBook`.
  pub draft : RawBook → Text → Text → List CleanSeriesMembership → CleanBook
  draft r normalised_title' key series' = record {
    source = r.source;
    source_id = r.source_id;
    identity_key = key;
    title = display_title r;
    normalised_title = normalised_title';
    subtitle = strip_marc_subfields r.subtitle;
    isbn13 = select_canonical_isbn p.unicode (some r.isbns);
    published_year = parse_year p.unicode r.published;
    page_count = r.page_count;
    language = select_language p.unicode p.languages (some r.languages);
    publisher = r.publisher;
    description = r.description;
    cover_url = r.cover_url;
    download_count = r.download_count;
    goodreads_average_rating = r.goodreads_average_rating;
    series = series';
    authors = collect clean_author r.authors;
    normalised_first_author = first_author r.authors;
    subjects = keep has_subject r.subjects;
    source_updated = r.source_updated;
    raw_payload = r.raw_payload;
  }

  pub canonicalise_named : RawBook → Text → Canonicalised
  canonicalise_named r title =
      elim (identity_key p.sha256 (select_canonical_isbn p.unicode (some r.isbns)) title
        (first_author r.authors) (parse_year p.unicode r.published)) [
          | err e ↦ identity_raised e
          | ok key ↦ elim (canonicalise_all p r.series r.source) [
            | err e ↦ series_raised e
            | ok memberships ↦ validate r (draft r title key memberships)
          ]
        ]

  pub canonicalise : RawBook → Canonicalised
  canonicalise r = elim (normalise_title p.unicode (some (display_title r))) [
    | none ↦ rejected (reject r unidentifiable)
    | some title ↦ canonicalise_named r title
  ]
