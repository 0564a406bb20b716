-- ===== src/Base/Collect.antt =====
-- `[y for x in xs if (y := f(x)) is not None]`, and what is kept under a permutation.
use mathlib.Core.Path.{◌≡◌, refl, ap, sym, ◌∙◌}
use mathlib.Core.Option.{Option, none, some}
use mathlib.Core.List.{List, [], ◌∷◌, Permᴰ}
use book_data_pipeline.Base.Lists.{Among}
use mathlib.Core.Logic.{inl, inr}

abbrev pub prepend {ℓ} : {A : Type ℓ} → Option A → List A → List A
prepend none xs = xs
prepend (some x) xs = x ∷ xs

module _ {A B : Type 0} (f : A → Option B) where
  abbrev pub collect : List A → List B
  collect [] = []
  collect (x ∷ xs) = prepend (f x) (collect xs)

  prepend-permᴰ :
      (o : Option B) {xs ys : List B} → Permᴰ xs ys → Permᴰ (prepend o xs) (prepend o ys)
  prepend-permᴰ none π = π
  prepend-permᴰ (some x) π = Permᴰ.cons refl π

  prepend-swapᴰ :
      (o p : Option B) (xs ys : List B)
      → Permᴰ xs ys
      → Permᴰ (prepend o (prepend p xs)) (prepend p (prepend o ys))
  prepend-swapᴰ none p xs ys π = prepend-permᴰ p π
  prepend-swapᴰ (some x) none xs ys π = Permᴰ.cons refl π
  prepend-swapᴰ (some x) (some y) xs ys π =
      Permᴰ.trans (Permᴰ.swap refl refl) (Permᴰ.cons refl (Permᴰ.cons refl π))

  reflᴰ : (xs : List B) → Permᴰ xs xs
  reflᴰ [] = Permᴰ.nil
  reflᴰ (x ∷ xs) = Permᴰ.cons refl (reflᴰ xs)

  pub collect-permᴰ : {xs ys : List A} → Permᴰ xs ys → Permᴰ (collect xs) (collect ys)
  collect-permᴰ Permᴰ.nil = Permᴰ.nil
  collect-permᴰ (Permᴰ.cons {a = a} {b = b} {l₁ = xs} {l₂ = ys} e π) =
      rw (← e) (prepend-permᴰ (f a) (collect-permᴰ π))
  collect-permᴰ (Permᴰ.swap {a = a} {b = b} {a' = a'} {b' = b'} {l = l} e g) =
      rw (← e, ← g) (prepend-swapᴰ (f a) (f b) (collect l) (collect l) (reflᴰ (collect l)))
  collect-permᴰ (Permᴰ.trans π ρ) = Permᴰ.trans (collect-permᴰ π) (collect-permᴰ ρ)

  abbrev Source : B → List A → Type 0
  Source b xs = (a : A) × Among a xs × (f a ≡ some b)

  later-Source : (b : B) (x : A) (xs : List A) → Source b xs → Source b (x ∷ xs)
  later-Source b x xs (a, m, h) = (a, inr m, h)

  prepend-Source :
      (b : B) (x : A) (xs : List A) (o : Option B)
      → f x ≡ o
      → (Among b (collect xs) → Source b xs)
      → Among b (prepend o (collect xs))
      → Source b (x ∷ xs)
  prepend-Source b x xs none e rest m = later-Source b x xs (rest m)
  prepend-Source b x xs (some y) e rest (inl h) = (x, inl refl, e ∙ ap some (sym h))
  prepend-Source b x xs (some y) e rest (inr m) = later-Source b x xs (rest m)

  -- What is collected comes from a member.
  pub collect-Source : (b : B) (xs : List A) → Among b (collect xs) → Source b xs
  collect-Source b [] m = absurd m
  collect-Source b (x ∷ xs) m = prepend-Source b x xs (f x) refl (collect-Source b xs) m
