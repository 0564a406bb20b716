-- ===== src/Normalise/Forms/Authors.antt =====
-- A name with its surname first has the comparison form of the name in natural order.
use mathlib.Core.List.{reverse-cons}
use book_data_pipeline.Base.{
  ◌+◌, Text, some, [], ◌∷◌, ◌++◌, reverse, strip, lstrip, is_empty_of_ne, ◌≡◌, ◌≢◌, refl, ap, sym,
  ◌∙◌, arith,
}
use book_data_pipeline.Unicode.{Unicode}
use book_data_pipeline.Normalise.Forms.{
  or_none, count_commas, before_comma, after_comma, natural_order, prepared_author, author_form,
  normalise_author,
}

count_commas-append : (s t : Text) → count_commas (s ++ t) ≡ count_commas s + count_commas t
unfolding count_commas
count_commas-append [] t = omega arith
count_commas-append (c ∷ s) t = ground (arith, count_commas-append s t)

count_commas-reverse : (s : Text) → count_commas (reverse s) ≡ count_commas s
unfolding count_commas
count_commas-reverse [] = refl
count_commas-reverse (c ∷ s) =
    rw reverse-cons
      (ground (arith, count_commas-append (reverse s) (c ∷ []), count_commas-reverse s))

no_comma_lstrip : (s : Text) → count_commas s ≡ 0 → count_commas (lstrip s) ≡ 0
unfolding lstrip count_commas
no_comma_lstrip [] h = refl
no_comma_lstrip (c ∷ s) h = ground (arith, no_comma_lstrip s)

no_comma_strip : (s : Text) → count_commas s ≡ 0 → count_commas (strip s) ≡ 0
unfolding strip
no_comma_strip s h =
    count_commas-reverse (lstrip (reverse (lstrip s)))
    ∙ no_comma_lstrip (reverse (lstrip s)) (count_commas-reverse (lstrip s) ∙ no_comma_lstrip s h)

before_comma-append : (a b : Text) → count_commas a ≡ 0 → before_comma (a ++ b',' ∷ b) ≡ a
unfolding before_comma count_commas
before_comma-append [] b h = refl
before_comma-append (c ∷ a) b h = ground (arith, before_comma-append a b)

after_comma-append : (a b : Text) → count_commas a ≡ 0 → after_comma (a ++ b',' ∷ b) ≡ b
unfolding after_comma count_commas
after_comma-append [] b h = refl
after_comma-append (c ∷ a) b h = ground (arith, after_comma-append a b)

one_comma :
    (a b : Text) → count_commas a ≡ 0 → count_commas b ≡ 0 → count_commas (a ++ b',' ∷ b) ≡ 1
unfolding count_commas
one_comma a b ha hb = ground (arith, count_commas-append a (b',' ∷ b))

turned :
    (a b : Text)
    → count_commas a ≡ 0
    → count_commas b ≡ 0
    → strip a ≢ []
    → strip b ≢ []
    → natural_order (a ++ b',' ∷ b) ≡ strip b ++ (b' ' ∷ strip a)
unfolding natural_order
turned a b ha hb na nb = rw (
  one_comma a b ha hb,
  before_comma-append a b ha,
  after_comma-append a b ha,
  is_empty_of_ne (strip a) na,
  is_empty_of_ne (strip b) nb,
)

kept : (s : Text) → count_commas s ≡ 0 → natural_order s ≡ s
unfolding natural_order
kept s h = rw h

-- "Surname, Forenames" and "Forenames Surname" are one author, of texts as they stand once prepared
-- (folded, and without life dates): where the first, prepared, is two parts with a comma between
-- them, neither of which is blank or has a comma, and the second, prepared, is the two parts turned
-- round, stripped and joined by a space, both have one comparison form.
pub normalise_author-surname_first :
    (u : Unicode) (v w a b : Text)
    → prepared_author u v ≡ a ++ b',' ∷ b
    → prepared_author u w ≡ strip b ++ (b' ' ∷ strip a)
    → count_commas a ≡ 0
    → count_commas b ≡ 0
    → strip a ≢ []
    → strip b ≢ []
    → normalise_author u (some v) ≡ normalise_author u (some w)
unfolding normalise_author count_commas
normalise_author-surname_first u v w a b ev ew ha hb na nb =
    let plain : count_commas (strip b ++ (b' ' ∷ strip a)) ≡ 0 = ground (
      arith,
      count_commas-append (strip b) (b' ' ∷ strip a),
      no_comma_strip a ha,
      no_comma_strip b hb,
    ) in
    rw (ev, ew) (ap (λ s. or_none (author_form u s)) (turned a b ha hb na nb ∙ sym (kept _ plain)))
