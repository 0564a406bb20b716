-- ===== src/Base/Members.antt =====
-- Membership by recursion, under sorting, folding into a set and mapping.
use mathlib.Core.Path.{◌≡◌, refl, ap}
use mathlib.Core.Logic.{◌⊎◌, inl, inr}
use mathlib.Core.Bool.{Bool, false}
use mathlib.Core.Option.{Option, some}
use mathlib.Core.List.{List, [], ◌∷◌, map}
use native.Mathlib.Omega.{arith}
use book_data_pipeline.Base.Lists.{Among, All}
use book_data_pipeline.Base.Sorting.{insert, sort, add, set_of}
use book_data_pipeline.Base.Collect.{collect}

module _ {A : Type 0} (lt : A → A → Bool) where
  among_insert : (x y : A) (s : List A) → Among x (insert lt y s) → (x ≡ y) ⊎ Among x s
  among_insert x y [] m = m
  among_insert x y (z ∷ s) m = ground (arith, among_insert x y s)

  pub among_sort : (x : A) (xs : List A) → Among x (sort lt xs) → Among x xs
  among_sort x [] m = m
  among_sort x (y ∷ xs) m = ground (arith, among_insert x y (sort lt xs), among_sort x xs)

  insert_among : (x y : A) (s : List A) → (x ≡ y) ⊎ Among x s → Among x (insert lt y s)
  insert_among x y [] m = m
  insert_among x y (z ∷ s) m = ground (arith, insert_among x y s)

  pub sort_among : (x : A) (xs : List A) → Among x xs → Among x (sort lt xs)
  sort_among x [] m = m
  sort_among x (y ∷ xs) m = ground (arith, insert_among x y (sort lt xs), sort_among x xs)

  among_add : (x y : A) (s : List A) → Among x (add lt y s) → (x ≡ y) ⊎ Among x s
  among_add x y [] m = m
  among_add x y (z ∷ s) m = ground (arith, among_add x y s)

  pub among_set_of : (x : A) (xs : List A) → Among x (set_of lt xs) → Among x xs
  among_set_of x [] m = m
  among_set_of x (y ∷ xs) m = ground (arith, among_add x y (set_of lt xs), among_set_of x xs)

  module _ (total : (a b : A) → lt a b ≡ false → lt b a ≡ false → a ≡ b) where
    add_among : (x y : A) (s : List A) → (x ≡ y) ⊎ Among x s → Among x (add lt y s)
    add_among x y [] m = m
    add_among x y (z ∷ s) m = ground (arith, add_among x y s, total y z)

    pub set_of_among : (x : A) (xs : List A) → Among x xs → Among x (set_of lt xs)
    set_of_among x [] m = m
    set_of_among x (y ∷ xs) m = ground (arith, add_among x y (set_of lt xs), set_of_among x xs)

module _ {A B : Type 0} (f : A → Option B) where
  pub collect_among :
      (a : A) (b : B) (xs : List A) → Among a xs → f a ≡ some b → Among b (collect f xs)
  collect_among a b [] m h = absurd m
  collect_among a b (x ∷ xs) m h = ground (arith, collect_among a b xs)

pub map_among :
    {A B : Type 0} (f : A → B) (a : A) (xs : List A) → Among a xs → Among (f a) (map f xs)
map_among f a [] m = absurd m
map_among f a (x ∷ xs) (inl e) = inl (ap f e)
map_among f a (x ∷ xs) (inr m) = inr (map_among f a xs m)

pub All-of_among :
    {A : Type 0} (P : A → Type 0) (xs : List A) → ((x : A) → Among x xs → P x) → All P xs
All-of_among P [] h = tt
All-of_among P (x ∷ xs) h = (h x (inl refl), All-of_among P xs (λ y m. h y (inr m)))
