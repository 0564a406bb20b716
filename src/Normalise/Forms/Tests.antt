-- ===== src/Normalise/Forms/Tests.antt =====
-- The theorems on authors at short texts.
use book_data_pipeline.Base.{
  ℕ, ◌≤◌, ◌<◌, Text, codes, Bool, true, Option, some, none, List, [], ◌∷◌, ◌++◌, Among, inl, inr,
  ◌≡◌, ◌≢◌, ◌↔◌, ◌⊎◌, refl, arith, strip, ℤ, negsuc, pos, leb_ℤ,
}
use book_data_pipeline.Unicode.{ascii_unicode}
use book_data_pipeline.Normalise.Forms.{
  normalise_title, normalise_subject, strip_marc_subfields, normalise_author, count_commas,
  prepared_author,
}
use book_data_pipeline.Normalise.Forms.Authors.{normalise_author-surname_first}

prepared_run :
    prepared_author ascii_unicode (codes "Austen, Jane") ≡ codes "Austen" ++ b',' ∷ codes " Jane"
unfolding prepared_author book_data_pipeline.Normalise.Forms.without_life_dates strip
    book_data_pipeline.Normalise.Forms.fold_punctuation
    book_data_pipeline.Normalise.Forms.life_dates_at book_data_pipeline.Normalise.Forms.dates_at
prepared_run = refl

prepared_plain :
    prepared_author ascii_unicode (codes "Jane Austen")
    ≡ strip (codes " Jane") ++ (b' ' ∷ strip (codes "Austen"))
unfolding prepared_author strip book_data_pipeline.Normalise.Forms.without_life_dates
    book_data_pipeline.Normalise.Forms.fold_punctuation
    book_data_pipeline.Normalise.Forms.life_dates_at book_data_pipeline.Normalise.Forms.dates_at
prepared_plain = refl

surname_shown : strip (codes "Austen") ≢ []
unfolding strip
surname_shown h = cc

forename_shown : strip (codes " Jane") ≢ []
unfolding strip
forename_shown h = cc

no_comma : (count_commas (codes "Austen") ≡ 0) × (count_commas (codes " Jane") ≡ 0)
unfolding count_commas
no_comma = (refl, refl)

normalise_author-surname_first_example :
    normalise_author ascii_unicode (some (codes "Austen, Jane"))
    ≡ normalise_author ascii_unicode (some (codes "Jane Austen"))
normalise_author-surname_first_example =
    normalise_author-surname_first ascii_unicode (codes "Austen, Jane") (codes "Jane Austen")
      (codes "Austen") (codes " Jane") prepared_run prepared_plain no_comma.0 no_comma.1
      surname_shown forename_shown

title_normalised :
    normalise_title ascii_unicode (some (codes " Emma   and Emma")) ≡ some (codes "Emma and Emma")
unfolding normalise_title book_data_pipeline.Normalise.Forms.fold strip
    book_data_pipeline.Normalise.Forms.collapse book_data_pipeline.Normalise.Forms.fold_punctuation
title_normalised = refl

subject_normalised : normalise_subject ascii_unicode (some (codes "  ")) ≡ none
unfolding normalise_subject book_data_pipeline.Normalise.Forms.fold strip
    book_data_pipeline.Normalise.Forms.collapse book_data_pipeline.Normalise.Forms.fold_punctuation
subject_normalised = refl

marc_stripped : strip_marc_subfields (some (codes "Emma $h sound")) ≡ some (codes "Emma sound")
unfolding strip_marc_subfields book_data_pipeline.Normalise.Forms.has_subfield
    book_data_pipeline.Normalise.Forms.subfield_at book_data_pipeline.Normalise.Forms.delimiter_at
    book_data_pipeline.Base.is_space book_data_pipeline.Normalise.Forms.is_delimiter
    book_data_pipeline.Normalise.Forms.is_lower strip book_data_pipeline.Normalise.Forms.collapse
    book_data_pipeline.Normalise.Forms.without_subfields
marc_stripped = refl

author_normalised :
    normalise_author ascii_unicode (some (codes "Austen, Jane, 1775-1817"))
    ≡ some (codes "Jane Austen")
unfolding normalise_author book_data_pipeline.Normalise.Forms.author_form strip
    book_data_pipeline.Normalise.Forms.collapse book_data_pipeline.Normalise.Forms.natural_order
    count_commas prepared_author book_data_pipeline.Normalise.Forms.without_life_dates
    book_data_pipeline.Normalise.Forms.fold_punctuation
    book_data_pipeline.Normalise.Forms.life_dates_at book_data_pipeline.Normalise.Forms.dates_at
    book_data_pipeline.Normalise.Forms.dash_and_end book_data_pipeline.Normalise.Forms.dates_end
    book_data_pipeline.Normalise.Forms.before_comma book_data_pipeline.Normalise.Forms.after_comma
    book_data_pipeline.Normalise.Forms.is_author_punctuation
author_normalised = refl

pub emma_title : normalise_title ascii_unicode (some (codes "Emma")) ≡ some (codes "Emma")
unfolding normalise_title book_data_pipeline.Normalise.Forms.fold strip
    book_data_pipeline.Normalise.Forms.collapse book_data_pipeline.Normalise.Forms.fold_punctuation
emma_title = refl

pub emma_plain : strip_marc_subfields (some (codes "Emma")) ≡ some (codes "Emma")
unfolding strip_marc_subfields book_data_pipeline.Normalise.Forms.has_subfield
    book_data_pipeline.Normalise.Forms.subfield_at book_data_pipeline.Normalise.Forms.delimiter_at
    book_data_pipeline.Base.is_space book_data_pipeline.Normalise.Forms.is_delimiter
    book_data_pipeline.Normalise.Forms.is_lower strip book_data_pipeline.Normalise.Forms.collapse
    book_data_pipeline.Normalise.Forms.without_subfields
emma_plain = refl

pub no_subtitle : strip_marc_subfields none ≡ none
unfolding strip_marc_subfields
no_subtitle = refl
