-- ===== src/Canonicalise/Verdict.antt =====
-- What the answer to one raw record is.
use book_data_pipeline.Base.{
  Text, true, none, some, List, collect, keep, ◌≡◌, refl, Bool-cases, inl, inr, Result, ok, err,
  Option-cases, ◌⊎◌, ◌↔◌,
}
use book_data_pipeline.Platform.{Platform}
use book_data_pipeline.Identity.{identity_key}
use book_data_pipeline.Isbn.{select_canonical_isbn}
use book_data_pipeline.Normalise.Forms.{normalise_title}
use book_data_pipeline.Normalise.Years.{parse_year}
use book_data_pipeline.Series.{canonicalise_all}
use book_data_pipeline.Domain.{RawBook, CleanBook, CleanSeriesMembership, clean_book_ok}
use book_data_pipeline.Canonicalise.{
  Canonicalised, clean, rejected, identity_raised, series_raised, Rejected, unidentifiable, reject,
  validate, display_title, first_author, clean_author, has_subject, draft, canonicalise_named,
  canonicalise,
}

-- `b` is a canonical record of `r`: valid, with the source's identity and payload, and its key is the
-- identity key of the fields that it stores.
pub record IsCanonical (p : Platform) (r : RawBook) (b : CleanBook) : Type 0 where
  pub valid : clean_book_ok b ≡ true
  pub source_eq : b.source ≡ r.source
  pub source_id_eq : b.source_id ≡ r.source_id
  pub payload_eq : b.raw_payload ≡ r.raw_payload
  pub key_eq :
      identity_key p.sha256 b.isbn13 b.normalised_title b.normalised_first_author b.published_year
      ≡ ok b.identity_key
  pub title_eq : normalise_title p.unicode (some b.title) ≡ some b.normalised_title
  pub authors_eq : b.authors ≡ collect (clean_author p) r.authors
  pub subjects_eq : b.subjects ≡ keep (has_subject p) r.subjects

-- `x` quarantines `r` with what identifies it, under the code.
pub record IsKept (r : RawBook) (x : Rejected) : Type 0 where
  pub source_eq : x.source ≡ r.source
  pub source_id_eq : x.source_id ≡ r.source_id
  pub payload_eq : x.raw_payload ≡ r.raw_payload

abbrev pub IsVerdict : Platform → RawBook → Canonicalised → Type 0
IsVerdict p r (clean b) = IsCanonical p r b
IsVerdict p r (rejected x) =
    IsKept r x
    × ((x.rejection_code ≡ unidentifiable)
        ↔ (normalise_title p.unicode (some (display_title p r)) ≡ none))
IsVerdict p r (identity_raised e) =
    (title : Text) × (normalise_title p.unicode (some (display_title p r)) ≡ some title)
    × (identity_key p.sha256 (select_canonical_isbn p.unicode (some r.isbns)) title
          (first_author p r.authors) (parse_year p.unicode r.published)
        ≡ err e)
IsVerdict p r (series_raised e) = canonicalise_all p r.series r.source ≡ err e

validate-IsVerdict :
    (p : Platform) (r : RawBook) (title key : Text) (series' : List CleanSeriesMembership)
    → normalise_title p.unicode (some (display_title p r)) ≡ some title
    → identity_key p.sha256
        (select_canonical_isbn p.unicode (some r.isbns))
        title
        (first_author p r.authors)
        (parse_year p.unicode r.published)
      ≡ ok key
    → IsVerdict p r (validate r (draft p r title key series'))
unfolding validate draft reject
validate-IsVerdict p r title key series' named keyed =
    elim (Bool-cases (clean_book_ok (draft p r title key series'))) [
      | inl e ↦
          rw (e, validate)
            (record {
              valid = e;
              source_eq = refl;
              source_id_eq = refl;
              payload_eq = refl;
              key_eq = keyed;
              title_eq = named;
              authors_eq = refl;
              subjects_eq = refl;
            })
      | inr e ↦
          rw (e, validate)
            (
              record { source_eq = refl; source_id_eq = refl; payload_eq = refl },
              (λ h. cc, λ h. cc),
            )
    ]

result_cases : {E A : Type 0} (m : Result E A) → ((a : A) × (m ≡ ok a)) ⊎ ((e : E) × (m ≡ err e))
result_cases (ok a) = inl (a, refl)
result_cases (err e) = inr (e, refl)

named-IsVerdict :
    (p : Platform) (r : RawBook) (title : Text)
    → normalise_title p.unicode (some (display_title p r)) ≡ some title
    → IsVerdict p r (canonicalise_named p r title)
unfolding canonicalise_named
named-IsVerdict p r title named =
    elim (result_cases (
      identity_key p.sha256 (select_canonical_isbn p.unicode (some r.isbns)) title
        (first_author p r.authors) (parse_year p.unicode r.published))) [
          | inr (e, h) ↦ rw (h, canonicalise_named) (title, named, h)
          | inl (key, h) ↦ elim (result_cases (canonicalise_all p r.series r.source)) [
            | inr (e, k) ↦ rw (h, canonicalise_named, k) k
            | inl (ms, k) ↦
                rw (h, canonicalise_named, k) (validate-IsVerdict p r title key ms named h)
          ]
        ]

-- Every raw record gets one answer. A clean record is valid, keeps the source, the source id and the
-- payload, and its identity key and its normalised title are those of the fields it stores. A
-- rejected one keeps source, source id and payload, and is called unidentifiable exactly where no
-- title is left. An exception is the one of the identity key or of the series.
pub canonicalise-IsVerdict : (p : Platform) (r : RawBook) → IsVerdict p r (canonicalise p r)
unfolding canonicalise reject
canonicalise-IsVerdict p r =
    elim (Option-cases (normalise_title p.unicode (some (display_title p r)))) [
      | inl e ↦
          rw (e, canonicalise)
            (
              record { source_eq = refl; source_id_eq = refl; payload_eq = refl },
              (λ h. e, λ h. refl),
            )
      | inr (title, e) ↦ rw (e, canonicalise) (named-IsVerdict p r title e)
    ]
