-- ===== src/Normalise/Language.antt =====
-- `normalise_language` and `select_language` of transform/normalise.py.
pub mod Tests
pub mod Selection
use book_data_pipeline.Base.{
  Text, Bool, not, ◌==◌, ◌&&◌, if◌then◌else◌, Option, none, some, List, [], ◌∷◌, length, all,
  collect, is_empty, strip, text_lt,
}
use book_data_pipeline.Base.Sorting.{set_of}
use book_data_pipeline.Unicode.{Unicode}

-- The attributes under which `pycountry.languages` is searched.
pub data Attribute : Type 0 where
  alpha_2 alpha_3 bibliographic : Attribute

-- `pycountry.languages.get(**{attribute: code})`: `none` where there is no such language, and
-- otherwise its `alpha_3`, if it has one. The database is not part of the repository.
abbrev pub Languages : Type 0
Languages = Attribute → Text → Option (Option Text)

-- The only element of a set of one.
abbrev pub sole : List Text → Option Text
sole [] = none
sole (x ∷ []) = some x
sole (x ∷ y ∷ s) = none

module _ (u : Unicode) (languages : Languages) where
  -- One turn of the loop over the attributes.
  pub resolve : Attribute → Text → Option Text
  resolve attribute code = elim (languages attribute code) [
    | none ↦ none
    | some none ↦ none
    | some (some resolved) ↦ if length resolved == 3 then some (u.lower resolved) else none
  ]

  pub first_resolved : List Attribute → Text → Option Text
  first_resolved [] code = none
  first_resolved (a ∷ attributes) code =
      let later = first_resolved attributes code in
      elim (resolve a code) [ none ↦ later | some language ↦ some language ]

  pub normalise_language : Option Text → Option Text
  normalise_language none = none
  normalise_language (some value) =
      let code = u.lower (strip value) in
      if is_empty value
      then none
      else if not (not (is_empty code) && all u.is_alpha code)
      then none
      else first_resolved (alpha_2 ∷ alpha_3 ∷ bibliographic ∷ []) code

  pub select_language : Option (List Text) → Option Text
  select_language none = none
  select_language (some values) =
      if is_empty values
      then none
      else sole (set_of text_lt (collect (λ value. normalise_language (some value)) values))
