-- ===== src/Base/Sorting.antt =====
-- `sorted` with a key, as a stable insertion sort by the strict order of the keys, and finite sets
-- of ordered values. Neither depends on the order of the input.
use mathlib.Core.Path.{◌≡◌, refl, ◌∙◌}
use mathlib.Core.Logic.{◌⊎◌, inl, inr, ∥∥₁_elim}
use mathlib.Core.Bool.{Bool, true, false}
use mathlib.Core.List.{List, [], ◌∷◌, Mem, Perm, Permᴰ, mem-cons_self, mem-cons_of_mem}
use mathlib.Core.List.Perm
use native.Mathlib.Omega.{arith}
use book_data_pipeline.Base.Tests.{if◌then◌else◌, Bool-cases}

-- A strict order in which two values that are not ordered stand alike to every third.
pub record IsStrict {ℓ} {A : Type ℓ} (lt : A → A → Bool) : Type ℓ where
  pub asymm : (a b : A) → lt a b ≡ true → lt b a ≡ false
  pub cotrans : (a b c : A) → lt a c ≡ true → lt a b ≡ false → lt b c ≡ true

-- One of the two comes first, or they are the same value.
abbrev pub Comparable {ℓ} : {A : Type ℓ} → (A → A → Bool) → A → A → Type ℓ
Comparable lt a b = (lt a b ≡ true) ⊎ (lt b a ≡ true) ⊎ (a ≡ b)

module _ {ℓ} {A : Type ℓ} (lt : A → A → Bool) where
  abbrev pub insert : A → List A → List A
  insert x [] = x ∷ []
  insert x (y ∷ s) = if lt y x then y ∷ insert x s else x ∷ y ∷ s

  abbrev pub sort : List A → List A
  sort [] = []
  sort (x ∷ xs) = insert x (sort xs)

  -- A set, listed without repetition in the order of its elements.
  abbrev pub add : A → List A → List A
  add x [] = x ∷ []
  add x (y ∷ s) = if lt x y then x ∷ y ∷ s else if lt y x then y ∷ add x s else y ∷ s

  abbrev pub set_of : List A → List A
  set_of [] = []
  set_of (x ∷ xs) = add x (set_of xs)

  module _ (strict : IsStrict lt) where
    insert_comm :
        (x y : A) (s : List A) → Comparable lt x y → insert x (insert y s) ≡ insert y (insert x s)
    insert_comm x y [] c = ground (arith, strict.asymm x y, strict.asymm y x)
    insert_comm x y (z ∷ s) c = ground (
      arith,
      strict.asymm x y,
      strict.asymm y x,
      strict.cotrans z x y,
      strict.cotrans z y x,
      insert_comm x y s c,
    )

    sort-permᴰ :
        {xs ys : List A}
        → Permᴰ xs ys
        → ((x y : A) → Mem x xs → Mem y xs → Comparable lt x y)
        → sort xs ≡ sort ys
    sort-permᴰ Permᴰ.nil c = refl
    sort-permᴰ (Permᴰ.cons {a = a} {b = b} {l₁ = l₁} {l₂ = l₂} e π) c = λ i.
        insert (e i)
          (sort-permᴰ π (λ x y mx my. c x y (mem-cons_of_mem a mx) (mem-cons_of_mem a my)) i)
    sort-permᴰ (Permᴰ.swap {a = a} {b = b} {l = l} e f) c =
        insert_comm a b (sort l) (c a b mem-cons_self (mem-cons_of_mem a mem-cons_self))
        ∙ (λ i. insert (f i) (insert (e i) (sort l)))
    sort-permᴰ (Permᴰ.trans {l₁ = l₁} {l₂ = l₂} π ρ) c =
        sort-permᴰ π c
        ∙ sort-permᴰ ρ
            (λ x y mx my. c x y ((Perm.mem_iff ∣ π ∣₁).1 mx) ((Perm.mem_iff ∣ π ∣₁).1 my))

    pub sort-perm :
        IsSet (List A)
        → {xs ys : List A} → Perm xs ys
        → ((x y : A) → Mem x xs → Mem y xs → Comparable lt x y)
        → sort xs ≡ sort ys
    sort-perm is_set π c = ∥∥₁_elim π (is_set _ _) (λ ρ. sort-permᴰ ρ c)

    module _ (total : (a b : A) → lt a b ≡ false → lt b a ≡ false → a ≡ b) where
      add_comm : (x y : A) (s : List A) → add x (add y s) ≡ add y (add x s)
      add_comm x y [] = ground (arith, strict.asymm x y, strict.asymm y x, total x y)
      add_comm x y (z ∷ s) = ground (
        arith,
        strict.asymm x y,
        strict.asymm y x,
        strict.asymm x z,
        strict.asymm z x,
        strict.asymm y z,
        strict.asymm z y,
        strict.cotrans z x y,
        strict.cotrans z y x,
        strict.cotrans x z y,
        strict.cotrans y z x,
        total x y,
        total x z,
        total y z,
        add_comm x y s,
      )

      set_of-permᴰ : {xs ys : List A} → Permᴰ xs ys → set_of xs ≡ set_of ys
      set_of-permᴰ Permᴰ.nil = refl
      set_of-permᴰ (Permᴰ.cons e π) = λ i. add (e i) (set_of-permᴰ π i)
      set_of-permᴰ (Permᴰ.swap {a = a} {b = b} {l = l} e f) =
          add_comm a b (set_of l) ∙ (λ i. add (f i) (add (e i) (set_of l)))
      set_of-permᴰ (Permᴰ.trans π ρ) = set_of-permᴰ π ∙ set_of-permᴰ ρ

      pub set_of-perm : IsSet (List A) → {xs ys : List A} → Perm xs ys → set_of xs ≡ set_of ys
      set_of-perm is_set π = ∥∥₁_elim π (is_set _ _) set_of-permᴰ

  insert-Perm : (x : A) (s : List A) → Perm (insert x s) (x ∷ s)
  insert-Perm x [] = Perm.refl (x ∷ [])
  insert-Perm x (y ∷ s) = elim (Bool-cases (lt y x)) [
    | inl h ↦ rw h (Perm.trans (Perm.cons y (insert-Perm x s)) (Perm.swap x y s))
    | inr h ↦ rw h (Perm.refl (x ∷ y ∷ s))
  ]

  -- Sorting rearranges.
  pub sort-Perm : (xs : List A) → Perm (sort xs) xs
  sort-Perm [] = Perm.refl []
  sort-Perm (x ∷ xs) = Perm.trans (insert-Perm x (sort xs)) (Perm.cons x (sort-Perm xs))
