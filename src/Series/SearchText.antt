-- ===== src/Series/SearchText.antt =====
-- The stored projection of a book's series depends on their names alone.
use mathlib.Core.List.{Perm, Permᴰ}
use mathlib.Core.Logic.{∥∥₁_elim}
use book_data_pipeline.Base.{
  Text, Text-set, if◌then◌else◌, Option, none, some, List, [], ◌∷◌, strip, text_lt, text_lt_asymm,
  text_lt_irrefl, text_lt_trans, text_lt_total, text-IsStrict, ◌≡◌, refl, ap, ◌∙◌, arith,
  Option-cases, inl, inr,
}
use book_data_pipeline.Platform.{Platform}
use book_data_pipeline.Series.{
  normalise_series, keep_least, keep_name, by_normalised, spaced, series_search_text,
}

abbrev lesser : Text → Text → Text
lesser a b = if text_lt a b then a else b

lesser_comm : (a b c : Text) → lesser a (lesser b c) ≡ lesser b (lesser a c)
lesser_comm a b c = ground (
  arith,
  text_lt_asymm a b,
  text_lt_asymm b a,
  text_lt_asymm a c,
  text_lt_asymm c a,
  text_lt_asymm b c,
  text_lt_asymm c b,
  text-IsStrict.cotrans a b c,
  text-IsStrict.cotrans b a c,
  text-IsStrict.cotrans a c b,
  text-IsStrict.cotrans b c a,
  text_lt_total a b,
  text_lt_total a c,
  text_lt_total b c,
)

lesser_swap : (a b : Text) → lesser a b ≡ lesser b a
lesser_swap a b = ground (arith, text_lt_asymm a b, text_lt_asymm b a, text_lt_total a b)

module _ (p : Platform) where
  keep_least_comm :
      (k d l e : Text) (m : List (Text × Text))
      → keep_least p k d (keep_least p l e m) ≡ keep_least p l e (keep_least p k d m)
  unfolding keep_least
  keep_least_comm k d l e [] = ground (
    arith,
    text_lt_asymm k l,
    text_lt_asymm l k,
    text_lt_total k l,
    text_lt_irrefl k,
    lesser_swap d e,
  )
  keep_least_comm k d l e ((j, f) ∷ m) = ground (
    arith,
    text_lt_irrefl k,
    text_lt_irrefl l,
    text_lt_asymm k l,
    text_lt_asymm l k,
    text_lt_asymm k j,
    text_lt_asymm j k,
    text_lt_asymm l j,
    text_lt_asymm j l,
    text_lt_trans k j l,
    text_lt_trans l j k,
    text_lt_trans j k l,
    text_lt_trans j l k,
    text_lt_trans k l j,
    text_lt_trans l k j,
    text_lt_total k l,
    text_lt_total k j,
    text_lt_total l j,
    lesser_swap d e,
    lesser_comm d e f,
    keep_least_comm k d l e m,
  )

  abbrev keep_option : Option Text → Text → List (Text × Text) → List (Text × Text)
  keep_option none d m = m
  keep_option (some k) d m = keep_least p k d m

  keep_option_comm :
      (o o' : Option Text) (d e : Text) (m : List (Text × Text))
      → keep_option o d (keep_option o' e m) ≡ keep_option o' e (keep_option o d m)
  keep_option_comm none o' d e m = refl
  keep_option_comm (some k) none d e m = refl
  keep_option_comm (some k) (some l) d e m = keep_least_comm k d l e m

  keep_name-option :
      (name : Text) (m : List (Text × Text))
      → keep_name p name m
        ≡ keep_option (normalise_series p (some name)) (strip (p.unescape name)) m
  unfolding keep_name
  keep_name-option name m = elim (Option-cases (normalise_series p (some name))) [
    | inl e ↦ rw (e, keep_name)
    | inr (k, e) ↦ rw (e, keep_name)
  ]

  keep_name_comm :
      (x y : Text) (m : List (Text × Text))
      → keep_name p x (keep_name p y m) ≡ keep_name p y (keep_name p x m)
  keep_name_comm x y m = simp keep_name-option (
      keep_option_comm (normalise_series p (some x)) (normalise_series p (some y))
        (strip (p.unescape x)) (strip (p.unescape y)) m)

  by_normalised-permᴰ : {xs ys : List Text} → Permᴰ xs ys → by_normalised p xs ≡ by_normalised p ys
  unfolding by_normalised
  by_normalised-permᴰ Permᴰ.nil = refl
  by_normalised-permᴰ (Permᴰ.cons e π) = λ i. keep_name p (e i) (by_normalised-permᴰ π i)
  by_normalised-permᴰ (Permᴰ.swap {a = a} {b = b} {l = l} e f) =
      keep_name_comm a b (by_normalised p l)
      ∙ (λ i. keep_name p (f i) (keep_name p (e i) (by_normalised p l)))
  by_normalised-permᴰ (Permᴰ.trans π ρ) = by_normalised-permᴰ π ∙ by_normalised-permᴰ ρ

  -- The projection does not depend on the order in which the series of a book are listed.
  pub series_search_text-perm :
      (xs ys : List Text) → Perm xs ys → series_search_text p xs ≡ series_search_text p ys
  unfolding series_search_text
  series_search_text-perm xs ys π =
      ∥∥₁_elim π (Text-set _ _) (λ ρ. ap (spaced p) (by_normalised-permᴰ ρ))
