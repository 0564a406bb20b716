-- ===== src/Normalise/Roman/Canonical.antt =====
-- The parse of a Roman numeral inverts the canonical rendering, and accepts nothing else.
use book_data_pipeline.Base.{
  all_below, all_below_sound, ℕ, zero, suc, ◌+◌, ◌-◌, ◌*◌, ◌/◌, ◌%◌, ◌<◌, ◌≤◌, Text, codes, Bool,
  true, false, ◌&&◌, ◌||◌, not, ◌==◌, leb, if◌then◌else◌, Option, none, some, List, [], ◌∷◌, ◌++◌,
  reverse, text_eq→≡, text_eq_refl, ◌≡◌, ◌↔◌, refl, ap, sym, ◌∙◌, arith, and_true, ==_iff, leb→le,
}
use mathlib.Core.List.{reverse-cons, reverse-append}
use book_data_pipeline.Unicode.{Unicode, upper}
use book_data_pipeline.Normalise.Roman.{
  roman_value, repeat, render_from, int_to_roman, Tally, no_tally, tally_numeral, tally_from,
  accept, roman_to_int,
}

-- The table without its first entry.
abbrev below_thousand : List (ℕ × Text)
below_thousand =
    (900, codes "CM")
    ∷ (500, codes "D")
    ∷ (400, codes "CD")
    ∷ (100, codes "C")
    ∷ (90, codes "XC")
    ∷ (50, codes "L")
    ∷ (40, codes "XL")
    ∷ (10, codes "X")
    ∷ (9, codes "IX")
    ∷ (5, codes "V")
    ∷ (4, codes "IV")
    ∷ (1, codes "I")
    ∷ []

tallies_to : ℕ → Option Tally → Bool
tallies_to n none = false
tallies_to n (some t) = (t.added == t.subtracted + n) && leb t.previous 1000

checks : ℕ → Bool
checks n = tallies_to n (tally_from (reverse (render_from below_thousand n)) no_tally)

checks_table : all_below 1000 checks ≡ true
unfolding all_below checks tallies_to tally_from tally_numeral render_from repeat roman_value
checks_table = refl

abbrev continue : Option Tally → Text → Option Tally
continue none s = none
continue (some t) s = tally_from s t

tally_from-append :
    (s s' : Text) (t : Tally) → tally_from (s ++ s') t ≡ continue (tally_from s t) s'
unfolding tally_from
tally_from-append [] s' t = refl
tally_from-append (c ∷ s) s' t = through (roman_value c) (λ t. tally_from-append s s' t)
  where
    through :
        (o : Option ℕ)
        → ((t : Tally) → tally_from (s ++ s') t ≡ continue (tally_from s t) s')
        → (elim o [ none ↦ none | some current ↦ tally_from (s ++ s') (tally_numeral current t) ])
          ≡ continue
              (elim o [ none ↦ none | some current ↦ tally_from s (tally_numeral current t) ])
              s'
    through none ih = refl
    through (some current) ih = ih (tally_numeral current t)

repeat_last : (q c : ℕ) → repeat q (c ∷ []) ++ c ∷ [] ≡ c ∷ repeat q (c ∷ [])
unfolding repeat
repeat_last zero c = refl
repeat_last (suc q) c = ap (◌∷◌ c) (repeat_last q c)

reverse-repeat : (q c : ℕ) → reverse (repeat q (c ∷ [])) ≡ repeat q (c ∷ [])
unfolding repeat
reverse-repeat zero c = refl
reverse-repeat (suc q) c = rw (reverse-cons, reverse-repeat q c) (repeat_last q c)

after_thousand : Tally → Tally
after_thousand t = record t { added = t.added + 1000; previous = 1000 }

thousand_step : (t : Tally) → t.previous ≤ 1000 → tally_numeral 1000 t ≡ after_thousand t
unfolding tally_numeral after_thousand
thousand_step t h = ground arith

thousands :
    (q : ℕ) (t : Tally)
    → t.previous ≤ 1000
    → (t' : Tally) × (tally_from (repeat q (codes "M")) t ≡ some t')
      × (t'.added ≡ t.added + 1000 * q)
      × (t'.subtracted ≡ t.subtracted)
unfolding tally_from repeat roman_value after_thousand
thousands zero t h = (t, refl, omega arith, refl)
thousands (suc q) t h =
    let (t', e, a, s) = thousands q (after_thousand t) (omega arith) in
    (t', rw (thousand_step t h) e, omega arith, s)

tallied :
    (n : ℕ) (o : Option Tally)
    → tallies_to n o ≡ true
    → (t : Tally) × (o ≡ some t) × (t.added ≡ t.subtracted + n) × (t.previous ≤ 1000)
unfolding tallies_to
tallied n none h = cc
tallied n (some t) h =
    let (a, b) = and_true (t.added == t.subtracted + n) (leb t.previous 1000) h in
    (t, refl, (==_iff _ _).0 a, leb→le _ _ b)

small :
    (n : ℕ)
    → n < 1000
    → (t : Tally) × (tally_from (reverse (render_from below_thousand n)) no_tally ≡ some t)
      × (t.added ≡ t.subtracted + n)
      × (t.previous ≤ 1000)
unfolding checks
small n h =
    tallied n (tally_from (reverse (render_from below_thousand n)) no_tally)
      (all_below_sound 1000 checks n checks_table h)

-- The loop over the reversed rendering of a number counts that number.
rendering-tally :
    (n : ℕ)
    → (t : Tally) × (tally_from (reverse (int_to_roman n)) no_tally ≡ some t)
      × (t.added ≡ t.subtracted + n)
unfolding int_to_roman render_from
rendering-tally n =
    let (t, e, a, p) = small (n % 1000) (omega arith) in
    let (t', e', a', s') = thousands (n / 1000) t p in
    (
      t',
      rw
          (
            reverse-append (repeat (n / 1000) (codes "M")) (render_from below_thousand (n % 1000)),
            reverse-repeat (n / 1000) b'M',
            tally_from-append (reverse (render_from below_thousand (n % 1000)))
                (repeat (n / 1000) (codes "M")) no_tally,
            e,
          )
          e',
      omega arith,
    )

accepted :
    (a b : ℕ) (same : Bool) (n : ℕ)
    → (if leb a b || not same then none else some (a - b)) ≡ some n
    → (b < a) × (same ≡ true) × (a - b ≡ n)
accepted a b same n h = ground arith

accept_sound :
    (s : Text) (o : Option Tally) (n : ℕ) → accept s o ≡ some n → (0 < n) × (s ≡ int_to_roman n)
unfolding accept
accept_sound s none n h = cc
accept_sound s (some t) n h =
    let (positive, same, value) = accepted t.added t.subtracted _ n h in
    (omega arith, sym (text_eq→≡ _ s same) ∙ ap int_to_roman value)

accept_complete :
    (n : ℕ) (t : Tally)
    → 0 < n
    → t.added ≡ t.subtracted + n
    → accept (int_to_roman n) (some t) ≡ some n
unfolding accept
accept_complete n t positive h =
    let value : t.added - t.subtracted ≡ n = omega arith in
    rw (value, text_eq_refl (int_to_roman n)) (ground arith)

-- A text is read as `n` exactly when its upper case is the canonical rendering of `n`, for every
-- positive `n`.
pub roman_to_int_iff :
    (u : Unicode) (value : Text) (n : ℕ)
    → (roman_to_int u value ≡ some n) ↔ ((0 < n) × (upper u value ≡ int_to_roman n))
unfolding roman_to_int
roman_to_int_iff u value n = (
  accept_sound (upper u value) (tally_from (reverse (upper u value)) no_tally) n,
  λ (positive, rendered).
      let (t, e, a) = rendering-tally n in rw (rendered, e) (accept_complete n t positive a),
)
