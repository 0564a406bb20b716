-- ===== src/Base/TextOrder.antt =====
-- The order of Python's `str`: lexicographic by code point. It is a strict total order.
use mathlib.Core.Path.{◌≡◌, refl}
use mathlib.Core.Bool.{Bool, true, false}
use mathlib.Core.List.{List, [], ◌∷◌}
use native.Mathlib.Omega.{arith}
use book_data_pipeline.Base.Tests.{◌==◌, ltb, if◌then◌else◌}
use book_data_pipeline.Base.Texts.{Text}
use book_data_pipeline.Base.Sorting.{IsStrict}

abbrev pub text_lt : Text → Text → Bool
text_lt s [] = false
text_lt [] (d ∷ t) = true
text_lt (c ∷ s) (d ∷ t) = if ltb c d then true else if c == d then text_lt s t else false

pub text_lt_irrefl : (s : Text) → text_lt s s ≡ false
text_lt_irrefl [] = refl
text_lt_irrefl (c ∷ s) = ground (arith, text_lt_irrefl s)

pub text_lt_asymm : (s t : Text) → text_lt s t ≡ true → text_lt t s ≡ false
text_lt_asymm [] [] h = refl
text_lt_asymm [] (d ∷ t) h = refl
text_lt_asymm (c ∷ s) [] h = ground arith
text_lt_asymm (c ∷ s) (d ∷ t) h = ground (arith, text_lt_asymm s t)

pub text_lt_trans : (s t u : Text) → text_lt s t ≡ true → text_lt t u ≡ true → text_lt s u ≡ true
text_lt_trans s [] u h k = ground arith
text_lt_trans s (d ∷ t) [] h k = ground arith
text_lt_trans [] (d ∷ t) (e ∷ u) h k = refl
text_lt_trans (c ∷ s) (d ∷ t) (e ∷ u) h k = ground (arith, text_lt_trans s t u)

pub text_lt_total : (s t : Text) → text_lt s t ≡ false → text_lt t s ≡ false → s ≡ t
text_lt_total [] [] h k = refl
text_lt_total [] (d ∷ t) h k = ground arith
text_lt_total (c ∷ s) [] h k = ground arith
text_lt_total (c ∷ s) (d ∷ t) h k = ground (arith, text_lt_total s t)

text_lt_cotrans : (s t u : Text) → text_lt s u ≡ true → text_lt s t ≡ false → text_lt t u ≡ true
text_lt_cotrans s t [] h k = ground arith
text_lt_cotrans [] [] (e ∷ u) h k = refl
text_lt_cotrans [] (d ∷ t) (e ∷ u) h k = ground arith
text_lt_cotrans (c ∷ s) [] (e ∷ u) h k = refl
text_lt_cotrans (c ∷ s) (d ∷ t) (e ∷ u) h k = ground (arith, text_lt_cotrans s t u)

pub text-IsStrict : IsStrict text_lt
text-IsStrict = record { asymm = text_lt_asymm; cotrans = text_lt_cotrans }

pub Text-set : IsSet Text
Text-set = hlevel

pub Texts-set : IsSet (List Text)
Texts-set = hlevel
