-- ===== src/Normalise/Language/Selection.antt =====
-- The language of a record is chosen only where its codes agree.
use mathlib.Core.List.{Perm, Permᴰ}
use mathlib.Core.Logic.{∥∥₁_elim}
use book_data_pipeline.Base.{
  Text, Texts-set, Bool, if◌then◌else◌, Option, none, some, List, [], ◌∷◌, Among, collect,
  collect-permᴰ, collect-Source, is_empty, text_lt, text_lt_irrefl, text_lt_total, text-IsStrict,
  ◌≡◌, ◌≢◌, ◌⊎◌, refl, ap, ◌∙◌, arith, inl, inr, Option-cases,
}
use book_data_pipeline.Base.Sorting.{set_of, set_of-perm}
use book_data_pipeline.Base.Members.{set_of_among, collect_among}
use book_data_pipeline.Unicode.{Unicode}
use book_data_pipeline.Normalise.Language.{Languages, normalise_language, sole, select_language}

sole-among : (x l : Text) (s : List Text) → sole s ≡ some l → Among x s → x ≡ l
sole-among x l [] h m = absurd m
sole-among x l (y ∷ []) h m = ground arith
sole-among x l (y ∷ z ∷ s) h m = cc

not_refused :
    (b : Bool) (o : Option Text) (l : Text) → (if b then none else o) ≡ some l → o ≡ some l
not_refused b o l h = ground arith

one_of : (o : Option Text) {l : Text} (x : Text) → o ≡ some x → (o ≡ none) ⊎ (o ≡ some l) → x ≡ l
one_of o x e (inl h) = cc
one_of o x e (inr h) = cc

all_same :
    (l : Text) (xs : List Text)
    → ((x : Text) → Among x xs → x ≡ l)
    → xs ≢ []
    → set_of text_lt xs ≡ l ∷ []
all_same l [] h ne = absurd (ne refl)
all_same l (x ∷ []) h ne = ap (λ y. y ∷ []) (h x (inl refl))
all_same l (x ∷ y ∷ xs) h ne =
    rw (all_same l (y ∷ xs) (λ z m. h z (inr m)) (λ e. cc), h x (inl refl))
      (ground (arith, text_lt_irrefl l))

not_empty : {A : Type 0} (x : A) (xs : List A) → Among x xs → xs ≢ []
not_empty x [] m = absurd m
not_empty x (y ∷ xs) m = λ e. cc

chosen_sole :
    (values s : List Text) (l : Text)
    → values ≢ []
    → s ≡ l ∷ []
    → (if is_empty values then none else sole s) ≡ some l
chosen_sole [] s l ne e = absurd (ne refl)
chosen_sole (v ∷ values) s l ne e = rw e

module _ (u : Unicode) (languages : Languages) where
  abbrev code_of : Text → Option Text
  code_of value = normalise_language u languages (some value)

  Option-Text-set : IsSet (Option Text)
  Option-Text-set = hlevel

  is_empty-permᴰ : {xs ys : List Text} → Permᴰ xs ys → is_empty xs ≡ is_empty ys
  is_empty-permᴰ Permᴰ.nil = refl
  is_empty-permᴰ (Permᴰ.cons e π) = refl
  is_empty-permᴰ (Permᴰ.swap e f) = refl
  is_empty-permᴰ (Permᴰ.trans π ρ) = is_empty-permᴰ π ∙ is_empty-permᴰ ρ

  -- The choice does not depend on the order in which a source lists its languages.
  pub select_language-perm :
      (xs ys : List Text)
      → Perm xs ys
      → select_language u languages (some xs) ≡ select_language u languages (some ys)
  unfolding select_language
  select_language-perm xs ys π = ∥∥₁_elim π (Option-Text-set _ _) λ ρ. rw (
    is_empty-permᴰ ρ,
    set_of-perm text_lt text-IsStrict text_lt_total Texts-set ∣ collect-permᴰ code_of ρ ∣₁,
  )

  -- A chosen language is the one that every recognised code of the record maps to.
  pub select_language-agrees :
      (values : List Text) (l value : Text)
      → select_language u languages (some values) ≡ some l
      → Among value values
      → (normalise_language u languages (some value) ≡ none)
        ⊎ (normalise_language u languages (some value) ≡ some l)
  unfolding select_language
  select_language-agrees values l value h m = elim (Option-cases (code_of value)) [
    | inl e ↦ inl e
    | inr (code, e) ↦
        let chosen = not_refused (is_empty values) _ l h in
        let listed =
          set_of_among text_lt text_lt_total code _ (collect_among code_of value code values m e) in
        inr (e ∙ ap some (sole-among code l _ chosen listed))
  ]

  -- Where every recognised code maps to one language and some code is recognised, it is chosen.
  pub select_language_unanimous :
      (values : List Text) (l value : Text)
      → Among value values
      → normalise_language u languages (some value) ≡ some l
      → ((v : Text)
          → Among v values
          → (normalise_language u languages (some v) ≡ none)
            ⊎ (normalise_language u languages (some v) ≡ some l))
      → select_language u languages (some values) ≡ some l
  unfolding select_language
  select_language_unanimous values l value m e agree =
      let codes = collect code_of values in
      let only : (x : Text) → Among x codes → x ≡ l = λ x in_codes.
        (let (v, in_values, ev) = collect-Source code_of x values in_codes in
          one_of (code_of v) x ev (agree v in_values)) in
      chosen_sole values (set_of text_lt codes) l (not_empty value values m)
        (all_same l codes only (not_empty l codes (collect_among code_of value l values m e)))
