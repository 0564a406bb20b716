-- ===== src/Isbn/Checksum.antt =====
-- The weighted sum of an ISBN-13, and what its check digit detects.
use book_data_pipeline.Base.{
  ℕ, zero, suc, ◌+◌, ◌-◌, ◌*◌, ◌%◌, ◌<◌, Text, true, false, ◌==◌, [], ◌∷◌, take, set, length, all,
  is_digit, ◌≡◌, ◌≢◌, refl, arith, inl, inr, Bool-cases, guards_true, and_true, ==_iff, ap,
  is_digit_bounds, starts_with, codes, ◌||◌,
}
use native.Mathlib.Nat.{add-zero, add-suc, suc-add}
use book_data_pipeline.Isbn.{
  char_at, weight, matches_isbn13, weighted13, isbn13_check_digit, is_valid_isbn13,
}

-- The sum with the last digit taken apart.
weighted13_last :
    (n index : ℕ) (s : Text)
    → length s ≡ suc n
    → weighted13 index s ≡ weighted13 index (take n s) + (char_at s n - 48) * weight (index + n)
unfolding weighted13
weighted13_last zero index (c ∷ []) h = rw (add-zero index) (omega arith)
weighted13_last zero index [] h = absurd (omega arith)
weighted13_last zero index (c ∷ d ∷ s) h = absurd (omega arith)
weighted13_last (suc n) index [] h = absurd (omega arith)
weighted13_last (suc n) index (c ∷ s) h =
    rw (add-suc, ← suc-add) (omega (arith, weighted13_last n (suc index) s (omega arith)))

-- The sum after one character is replaced.
weighted13-set :
    (index k d : ℕ) (s : Text)
    → k < length s
    → weighted13 index (set s k d) + (char_at s k - 48) * weight (index + k)
      ≡ weighted13 index s + (d - 48) * weight (index + k)
unfolding weighted13
weighted13-set index k d [] h = absurd (omega arith)
weighted13-set index zero d (c ∷ s) h = rw (add-zero index) (omega arith)
weighted13-set index (suc k) d (c ∷ s) h =
    rw (add-suc, ← suc-add) (omega (arith, weighted13-set (suc index) k d s (omega arith)))

-- What the validation of an ISBN-13 establishes.
pub record HasChecksum (s : Text) : Type 0 where
  pub thirteen : length s ≡ 13
  pub digits : all is_digit s ≡ true
  pub sum : weighted13 0 s % 10 ≡ 0

pub valid_parts :
    (s : Text)
    → is_valid_isbn13 s ≡ true
    → (matches_isbn13 s ≡ true)
      × ((starts_with s (codes "978") || starts_with s (codes "979")) ≡ true)
      × (starts_with s (codes "9790") ≡ false)
      × ((char_at s 12 - 48 == isbn13_check_digit (take 12 s)) ≡ true)
unfolding is_valid_isbn13
valid_parts s h =
    guards_true (matches_isbn13 s) (starts_with s (codes "978") || starts_with s (codes "979"))
      (starts_with s (codes "9790")) (char_at s 12 - 48 == isbn13_check_digit (take 12 s)) h

pub valid_of_parts :
    (s : Text)
    → matches_isbn13 s ≡ true
    → (starts_with s (codes "978") || starts_with s (codes "979")) ≡ true
    → starts_with s (codes "9790") ≡ false
    → char_at s 12 - 48 ≡ isbn13_check_digit (take 12 s)
    → is_valid_isbn13 s ≡ true
unfolding is_valid_isbn13
valid_of_parts s shape book no_music last = rw (shape, book, no_music) ((==_iff _ _).1 last)

pub matches_parts : (s : Text) → matches_isbn13 s ≡ true → (length s ≡ 13) × (all is_digit s ≡ true)
unfolding matches_isbn13
matches_parts s h =
    let (n, digits) = and_true (length s == 13) (all is_digit s) h in ((==_iff _ 13).0 n, digits)

weight_twelve : weight 12 ≡ 1
unfolding weight
weight_twelve = refl

pub valid-HasChecksum : (s : Text) → is_valid_isbn13 s ≡ true → HasChecksum s
unfolding isbn13_check_digit
valid-HasChecksum s h =
    let (shape, _, _, last) = valid_parts s h in
    let (thirteen, digits) = matches_parts s shape in
    let check : char_at s 12 - 48 ≡ (10 - weighted13 0 (take 12 s) % 10) % 10 =
      (==_iff _ _).0 last in
    let split = weighted13_last 12 0 s thirteen in
    let one = ap (λ w. (char_at s 12 - 48) * w) weight_twelve in
    record { thirteen = thirteen; digits = digits; sum = omega arith }

-- Two digits with one weight that leave the same remainder are the same.
weight_cancels : (k a b : ℕ) → a < 10 → b < 10 → (a * weight k) % 10 ≡ (b * weight k) % 10 → a ≡ b
unfolding weight
weight_cancels k a b ha hb e = ground arith

char_at-digit :
    (s : Text) (k : ℕ) → all is_digit s ≡ true → k < length s → is_digit (char_at s k) ≡ true
char_at-digit [] k h lt = absurd (omega arith)
char_at-digit (c ∷ s) zero h lt = ground arith
char_at-digit (c ∷ s) (suc k) h lt = char_at-digit s k (and_true _ _ h).1 (omega arith)

-- A valid ISBN-13 in which one digit is replaced by another digit is not valid.
pub isbn13_detects_substitution :
    (s : Text) (k d : ℕ)
    → is_valid_isbn13 s ≡ true
    → k < 13
    → is_digit d ≡ true
    → d ≢ char_at s k
    → is_valid_isbn13 (set s k d) ≡ false
isbn13_detects_substitution s k d valid lt digit ne =
    elim (Bool-cases (is_valid_isbn13 (set s k d))) [
      | inr rejected ↦ rejected
      | inl accepted ↦ absurd (
          let before = valid-HasChecksum s valid in
          let after = valid-HasChecksum (set s k d) accepted in
          let moved = weighted13-set 0 k d s (omega (arith, before.thirteen)) in
          let old = char_at-digit s k before.digits (omega (arith, before.thirteen)) in
          let new_bounds = is_digit_bounds d digit in
          let old_bounds = is_digit_bounds (char_at s k) old in
          let same =
            weight_cancels (0 + k) (char_at s k - 48) (d - 48) (omega arith) (omega arith)
              (omega (arith, before.sum, after.sum)) in
          ne (omega arith))
    ]
