-- ===== src/Isbn/Select.antt =====
-- The choice of one ISBN for a record: a function of the set of conversions.
use mathlib.Core.List.{Perm, Permᴰ}
use mathlib.Core.Logic.{∥∥₁_elim}
use mathlib.Core.Path.{subst}
use book_data_pipeline.Base.{
  ℕ, ◌≤◌, Text, Texts-set, Bool, true, false, ◌||◌, if◌then◌else◌, ltb, Option, none, some, List,
  [], ◌∷◌, All, Among, ◌⊎◌, length, is_empty, text_lt, text_lt_asymm, text_lt_irrefl, text_lt_trans,
  collect-permᴰ, collect-Source, text_lt_total, text-IsStrict, ◌≡◌, refl, sym, ◌∙◌, ◌<◌, ◌↔◌, arith,
  inl, inr, Bool-cases,
}
use book_data_pipeline.Base.Sorting.{add, set_of, set_of-perm}
use book_data_pipeline.Base.Members.{among_set_of}
use book_data_pipeline.Unicode.{Unicode}
use book_data_pipeline.Isbn.{
  max_candidates_for_identity, is_valid_isbn13, to_isbn13, conversions, least_from, minimum,
  select_canonical_isbn,
}
use book_data_pipeline.Isbn.Convert.{to_isbn13-valid}

-- No value of a list is below `r`.
abbrev pub NoneBelow : Text → List Text → Type 0
NoneBelow r = All (λ v. text_lt v r ≡ false)

NoneBelow-add :
    (r y : Text) (s : List Text)
    → NoneBelow r (add text_lt y s)
    → (text_lt y r ≡ false) × NoneBelow r s
NoneBelow-add r y [] h = h
NoneBelow-add r y (z ∷ s) h = ground (arith, NoneBelow-add r y s, text_lt_total y z)

NoneBelow-set_of : (r : Text) (xs : List Text) → NoneBelow r (set_of text_lt xs) → NoneBelow r xs
NoneBelow-set_of r [] h = tt
NoneBelow-set_of r (x ∷ xs) h =
    let (a, b) = NoneBelow-add r x (set_of text_lt xs) h in (a, NoneBelow-set_of r xs b)

NoneBelow-lower :
    (r s : Text) (xs : List Text) → text_lt r s ≡ true → NoneBelow s xs → NoneBelow r xs
NoneBelow-lower r s [] h k = tt
NoneBelow-lower r s (x ∷ xs) h k =
    (ground (arith, text_lt_trans x r s, k.0), NoneBelow-lower r s xs h k.1)

least_from-le : (x : Text) (s : List Text) → text_lt x (least_from x s) ≡ false
unfolding least_from
least_from-le x [] = text_lt_irrefl x
least_from-le x (y ∷ s) = elim (Bool-cases (text_lt y x)) [
  | inr h ↦ rw h (least_from-le x s)
  | inl h ↦
      rw h
        (ground (arith, least_from-le y s, text_lt_trans y x (least_from y s), text_lt_asymm y x))
]

least_from-NoneBelow : (x : Text) (s : List Text) → NoneBelow (least_from x s) s
unfolding least_from
least_from-NoneBelow x [] = tt
least_from-NoneBelow x (y ∷ s) = elim (Bool-cases (text_lt y x)) [
  | inl h ↦
      let e : least_from x (y ∷ s) ≡ least_from y s = rw h in
      subst (λ r. (text_lt y r ≡ false) × NoneBelow r s) (sym e)
        (least_from-le y s, least_from-NoneBelow y s)
  | inr h ↦
      let e : least_from x (y ∷ s) ≡ least_from x s = rw h in
      subst (λ r. (text_lt y r ≡ false) × NoneBelow r s) (sym e)
        (
          ground (
            arith,
            least_from-le x s,
            text_lt_trans y (least_from x s) x,
            text_lt_total x y,
            text_lt_asymm x (least_from x s),
            text_lt_total x (least_from x s),
          ),
          least_from-NoneBelow x s,
        )
]

least_from-among : (x : Text) (s : List Text) → Among (least_from x s) (x ∷ s)
unfolding least_from
least_from-among x [] = inl refl
least_from-among x (y ∷ s) = ground (arith, least_from-among x s, least_from-among y s)

minimum-among : (s : List Text) (r : Text) → minimum s ≡ some r → Among r s
unfolding minimum
minimum-among [] r h = cc
minimum-among (x ∷ s) r h = ground (arith, least_from-among x s)

minimum-NoneBelow : (s : List Text) (r : Text) → minimum s ≡ some r → NoneBelow r s
unfolding minimum
minimum-NoneBelow [] r h = tt
minimum-NoneBelow (x ∷ s) r h =
    let e : least_from x s ≡ r = cc in
    subst (λ r. NoneBelow r (x ∷ s)) e (least_from-le x s, least_from-NoneBelow x s)

is_empty-add : (x : Text) (s : List Text) → is_empty (add text_lt x s) ≡ false
is_empty-add x [] = refl
is_empty-add x (y ∷ s) = ground arith

empty-set_of : (xs : List Text) → is_empty (set_of text_lt xs) ≡ true → xs ≡ []
empty-set_of [] h = refl
empty-set_of (x ∷ xs) h = cc (is_empty-add x (set_of text_lt xs))

refused :
    (a : Bool) (s : List Text)
    → (if a
        then none
        else if is_empty s || ltb max_candidates_for_identity (length s)
        then none
        else minimum s)
      ≡ none
    → (a ≡ true) ⊎ (is_empty s ≡ true) ⊎ (max_candidates_for_identity < length s)
unfolding minimum
refused a [] h = inr (inl refl)
refused a (x ∷ s) h = ground arith

refusal :
    (a : Bool) (s : List Text) {P : Type 0}
    → (P → (is_empty s || ltb max_candidates_for_identity (length s)) ≡ true)
    → P
    → (if a
        then none
        else if is_empty s || ltb max_candidates_for_identity (length s)
        then none
        else minimum s)
      ≡ none
refusal true s f p = refl
refusal false s f p = rw (f p)

choice_guards :
    (a b : Bool) (n : ℕ) (o : Option Text) (r : Text)
    → (if a then none else if b || ltb max_candidates_for_identity n then none else o) ≡ some r
    → (n ≤ max_candidates_for_identity) × (o ≡ some r)
choice_guards a b n o r h = ground arith

module _ (u : Unicode) where
  conversions-permᴰ :
      {xs ys : List Text} → Permᴰ xs ys → Permᴰ (conversions u xs) (conversions u ys)
  unfolding conversions
  conversions-permᴰ π = collect-permᴰ (λ c. to_isbn13 u (some c)) π

  -- The distinct conversions of the candidates.
  abbrev pub distinct : List Text → List Text
  distinct cs = set_of text_lt (conversions u cs)

  pub distinct-perm : {xs ys : List Text} → Perm xs ys → distinct xs ≡ distinct ys
  distinct-perm π =
      ∥∥₁_elim π (Texts-set _ _)
        (λ ρ. set_of-perm text_lt text-IsStrict text_lt_total Texts-set ∣ conversions-permᴰ ρ ∣₁)

  is_empty-permᴰ : {xs ys : List Text} → Permᴰ xs ys → is_empty xs ≡ is_empty ys
  is_empty-permᴰ Permᴰ.nil = refl
  is_empty-permᴰ (Permᴰ.cons e π) = refl
  is_empty-permᴰ (Permᴰ.swap e f) = refl
  is_empty-permᴰ (Permᴰ.trans π ρ) = is_empty-permᴰ π ∙ is_empty-permᴰ ρ

  Option-Text-set : IsSet (Option Text)
  Option-Text-set = hlevel

  -- The choice does not depend on the order in which a source lists its candidates.
  pub select_canonical_isbn-perm :
      (xs ys : List Text)
      → Perm xs ys
      → select_canonical_isbn u (some xs) ≡ select_canonical_isbn u (some ys)
  unfolding select_canonical_isbn
  select_canonical_isbn-perm xs ys π =
      ∥∥₁_elim π (Option-Text-set _ _) (λ ρ. rw (is_empty-permᴰ ρ, distinct-perm ∣ ρ ∣₁))

  chosen :
      (cs : List Text) (r : Text)
      → select_canonical_isbn u (some cs) ≡ some r
      → (length (distinct cs) ≤ max_candidates_for_identity) × (minimum (distinct cs) ≡ some r)
  unfolding select_canonical_isbn
  chosen cs r h =
      choice_guards (is_empty cs) (is_empty (distinct cs)) (length (distinct cs))
        (minimum (distinct cs)) r h

  -- The chosen ISBN is valid, is the conversion of a candidate, and is the least of at most eight
  -- distinct conversions.
  pub select_canonical_isbn_sound :
      (cs : List Text) (r : Text)
      → select_canonical_isbn u (some cs) ≡ some r
      → (is_valid_isbn13 r ≡ true)
        × ((c : Text) × Among c cs × (to_isbn13 u (some c) ≡ some r))
        × NoneBelow r (conversions u cs)
        × (length (distinct cs) ≤ max_candidates_for_identity)
  unfolding conversions
  select_canonical_isbn_sound cs r h =
      let (few, least) = chosen cs r h in
      let among = among_set_of text_lt r (conversions u cs) (minimum-among (distinct cs) r least) in
      let (c, m, e) = collect-Source (λ c. to_isbn13 u (some c)) r cs among in
      (
        to_isbn13-valid u (some c) r e,
        (c, m, e),
        NoneBelow-set_of r (conversions u cs) (minimum-NoneBelow (distinct cs) r least),
        few,
      )

  refused_cases :
      (cs : List Text)
      → (is_empty cs ≡ true)
        ⊎ (is_empty (distinct cs) ≡ true)
        ⊎ (max_candidates_for_identity < length (distinct cs))
      → (conversions u cs ≡ []) ⊎ (max_candidates_for_identity < length (distinct cs))
  unfolding conversions
  refused_cases [] h = inl refl
  refused_cases (c ∷ cs) (inl h) = cc
  refused_cases (c ∷ cs) (inr (inl h)) = inl (empty-set_of (conversions u (c ∷ cs)) h)
  refused_cases (c ∷ cs) (inr (inr h)) = inr h

  distinct-empty :
      (cs : List Text)
      → (conversions u cs ≡ []) ⊎ (max_candidates_for_identity < length (distinct cs))
      → (is_empty (distinct cs) || ltb max_candidates_for_identity (length (distinct cs))) ≡ true
  distinct-empty cs (inl e) = rw e
  distinct-empty cs (inr h) = ground arith

  -- No ISBN is chosen exactly when no candidate converts or more than eight distinct ISBNs do.
  pub select_canonical_isbn-none :
      (cs : List Text)
      → (select_canonical_isbn u (some cs) ≡ none)
        ↔ ((conversions u cs ≡ []) ⊎ (max_candidates_for_identity < length (distinct cs)))
  unfolding select_canonical_isbn
  select_canonical_isbn-none cs = (
    λ h. refused_cases cs (refused (is_empty cs) (distinct cs) h),
    refusal (is_empty cs) (distinct cs) (distinct-empty cs),
  )
