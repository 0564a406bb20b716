-- ===== src/Runs/Markers/Counting.antt =====
-- How many of the numbers below a bound are in a list.
use book_data_pipeline.Base.{
  ℕ, zero, suc, ◌+◌, ◌≤◌, ◌<◌, Bool, true, false, ◌==◌, ◌||◌, if◌then◌else◌, List, [], ◌∷◌, ◌++◌,
  length, All, ◌≡◌, ◌≢◌, ◌∙◌, refl, ap, inl, inr, arith, Bool-cases,
}

abbrev pub has : ℕ → List ℕ → Bool
has k [] = false
has k (p ∷ ps) = k == p || has k ps

-- The numbers of the list that are below the bound, each once.
abbrev pub count_below : ℕ → List ℕ → ℕ
count_below zero ps = 0
count_below (suc n) ps = count_below n ps + (if has n ps then 1 else 0)

-- No number twice.
abbrev pub AreDistinct : List ℕ → Type 0
AreDistinct [] = Unit
AreDistinct (p ∷ ps) = (has p ps ≡ false) × AreDistinct ps

count_below-nil : (n : ℕ) → count_below n [] ≡ 0
count_below-nil zero = refl
count_below-nil (suc n) = omega (arith, count_below-nil n)

count_below-above : (n p : ℕ) (ps : List ℕ) → n ≤ p → count_below n (p ∷ ps) ≡ count_below n ps
count_below-above zero p ps h = refl
count_below-above (suc n) p ps h =
    let rest = count_below-above n p ps (omega arith) in
    let other : (n == p) ≡ false = ground arith in rw (rest, other) refl

count_below-cons :
    (n p : ℕ) (ps : List ℕ)
    → p < n
    → has p ps ≡ false
    → count_below n (p ∷ ps) ≡ suc (count_below n ps)
count_below-cons zero p ps h new = absurd (omega arith)
count_below-cons (suc n) p ps h new = elim (Bool-cases (n == p)) [
  | inl e ↦
      let same : n ≡ p = ground arith in
      let fresh : has n ps ≡ false = rw same new in
      let above = count_below-above n p ps (omega (arith, same)) in
      rw (e, fresh, above) (omega arith)
  | inr e ↦
      let apart : n ≢ p = ground arith in
      let rest = count_below-cons n p ps (omega (arith, apart)) new in rw (e, rest) (omega arith)
]

pub count_below-distinct :
    (n : ℕ) (ps : List ℕ) → AreDistinct ps → All (λ p. p < n) ps → count_below n ps ≡ length ps
count_below-distinct n [] d b = count_below-nil n
count_below-distinct n (p ∷ ps) d b =
    let rest = count_below-distinct n ps d.1 b.1 in count_below-cons n p ps b.0 d.0 ∙ ap suc rest

count_below-le : (n : ℕ) (ps : List ℕ) → count_below n ps ≤ n
count_below-le zero ps = omega arith
count_below-le (suc n) ps = let rest = count_below-le n ps in ground arith

-- A list that has as many numbers below the bound as there are has each of them.
pub count_below-full :
    (n : ℕ) (ps : List ℕ) → n ≤ count_below n ps → (k : ℕ) → k < n → has k ps ≡ true
count_below-full zero ps h k small = absurd (omega arith)
count_below-full (suc n) ps h k small =
    let most = count_below-le n ps in
    let last : has n ps ≡ true = ground arith in
    elim (Bool-cases (k == n)) [
      | inl e ↦ let same : k ≡ n = ground arith in rw same last
      | inr e ↦ count_below-full n ps (ground arith) k (ground arith)
    ]

pub full-count_below :
    (n : ℕ) (ps : List ℕ) → ((k : ℕ) → k < n → has k ps ≡ true) → n ≤ count_below n ps
full-count_below zero ps h = omega arith
full-count_below (suc n) ps h =
    let rest = full-count_below n ps (λ k small. h k (omega arith)) in
    rw (h n (omega arith)) (omega arith)

pub has-append : (k : ℕ) (ps : List ℕ) (p : ℕ) → has k (ps ++ p ∷ []) ≡ (has k ps || k == p)
has-append k [] p = ground arith
has-append k (q ∷ ps) p = let rest = has-append k ps p in ground arith

pub AreDistinct-append :
    (ps : List ℕ) (p : ℕ) → AreDistinct ps → has p ps ≡ false → AreDistinct (ps ++ p ∷ [])
AreDistinct-append [] p d new = (refl, tt)
AreDistinct-append (q ∷ ps) p d new =
    let others = has-append q ps p in
    let first = d.0 in (ground arith, AreDistinct-append ps p d.1 (ground arith))
