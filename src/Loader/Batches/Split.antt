-- ===== src/Loader/Batches/Split.antt =====
-- How `_batched` cuts a sequence of records.
use book_data_pipeline.Base.{
  ℕ, zero, suc, ◌≤◌, ◌<◌, List, [], ◌∷◌, ◌++◌, length, take, drop, All, ◌≡◌, refl, ap, arith,
}
use book_data_pipeline.Loader.Batches.{batched_from, batched}

-- The elements of lists, one after the other.
abbrev pub concatenated : {A : Type 0} → List (List A) → List A
concatenated [] = []
concatenated (xs ∷ xss) = xs ++ concatenated xss

take-drop : {A : Type 0} (n : ℕ) (xs : List A) → take n xs ++ drop n xs ≡ xs
take-drop zero xs = refl
take-drop (suc n) [] = refl
take-drop (suc n) (x ∷ xs) = ap (λ ys. x ∷ ys) (take-drop n xs)

length-drop : {A : Type 0} (n : ℕ) (xs : List A) → length (drop n xs) ≤ length xs
length-drop zero xs = omega arith
length-drop (suc n) [] = omega arith
length-drop (suc n) (x ∷ xs) = omega (arith, length-drop n xs)

length-take : {A : Type 0} (n : ℕ) (xs : List A) → length (take n xs) ≤ n
length-take zero xs = omega arith
length-take (suc n) [] = omega arith
length-take (suc n) (x ∷ xs) = omega (arith, length-take n xs)

batched_from-concatenated :
    {A : Type 0} (left k : ℕ) (records : List A)
    → length records ≤ left
    → concatenated (batched_from left (suc k) records) ≡ records
unfolding batched_from
batched_from-concatenated zero k [] h = refl
batched_from-concatenated zero k (x ∷ xs) h = absurd (omega arith)
batched_from-concatenated (suc left) k [] h = refl
batched_from-concatenated (suc left) k (x ∷ xs) h =
    let short : length (drop k xs) ≤ left = omega (arith, length-drop k xs) in
    rw (batched_from-concatenated left k (drop k xs) short) (ap (λ ys. x ∷ ys) (take-drop k xs))

-- A batch of one record or more, up to a size.
abbrev pub IsSized : {A : Type 0} → ℕ → List A → Type 0
IsSized size batch = (0 < length batch) × (length batch ≤ size)

batched_from-IsSized :
    {A : Type 0} (left k : ℕ) (records : List A)
    → All (IsSized (suc k)) (batched_from left (suc k) records)
unfolding batched_from
batched_from-IsSized zero k records = tt
batched_from-IsSized (suc left) k [] = tt
batched_from-IsSized (suc left) k (x ∷ xs) =
    ((omega arith, omega (arith, length-take k xs)), batched_from-IsSized left k (drop k xs))

-- For a size of 1 or more, the batches together are the records in their order, and each batch has
-- from 1 to that many records.
pub batched_partition :
    {A : Type 0} (size : ℕ) (records : List A)
    → 0 < size
    → (concatenated (batched size records) ≡ records) × All (IsSized size) (batched size records)
unfolding batched
batched_partition zero records h = absurd (omega arith)
batched_partition (suc k) records h = (
  batched_from-concatenated (length records) k records (omega arith),
  batched_from-IsSized (length records) k records,
)
