-- ===== src/Normalise/Language/Tests.antt =====
-- The theorems on languages at short texts.
use book_data_pipeline.Base.{codes, some, none, [], ◌∷◌, inl, ◌≡◌, ◌⊎◌, refl, strip}
use book_data_pipeline.Unicode.{Unicode, ascii_unicode}
use book_data_pipeline.Normalise.Language.{
  Languages, Languages, normalise_language, select_language,
}
use book_data_pipeline.Normalise.Language.Selection.{select_language-agrees}

-- A database that knows one language, whatever the code.
abbrev languages : Languages
languages attribute code = some (some (codes "eng"))

select_run :
    select_language ascii_unicode languages (some (codes "en" ∷ codes "eng" ∷ []))
    ≡ some (codes "eng")
unfolding select_language normalise_language strip
    book_data_pipeline.Normalise.Language.first_resolved
    book_data_pipeline.Normalise.Language.resolve
select_run = refl

select_language-agrees_example :
    (normalise_language ascii_unicode languages (some (codes "en")) ≡ none)
    ⊎ (normalise_language ascii_unicode languages (some (codes "en")) ≡ some (codes "eng"))
select_language-agrees_example =
    select_language-agrees ascii_unicode languages (codes "en" ∷ codes "eng" ∷ []) (codes "eng")
      (codes "en") select_run (inl refl)

pub no_language : (u : Unicode) (names : Languages) → select_language u names (some []) ≡ none
unfolding select_language
no_language u names = refl
