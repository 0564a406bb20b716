-- ===== src/Base/Decimal.antt =====
-- `str(n)` and `int(s)` for a natural number in decimal.
use book_data_pipeline.Base.Tests.{ltb, leb, Bool-cases, if◌then◌else◌}
use book_data_pipeline.Base.Texts.{Text}
use Prim.Native.Nat.{ℕ, zero, suc, ◌+◌, ◌-◌, ◌*◌, ◌/◌, ◌%◌, ◌≤◌, ◌<◌}
use mathlib.Core.Path.{◌≡◌, refl, ap, sym, ◌∙◌}
use mathlib.Core.List.{[], ◌∷◌}
use mathlib.Core.Bool.{Bool, true, ◌&&◌}
use mathlib.Core.Logic.{inl, inr}
use book_data_pipeline.Base.Lists.{all}
use native.Mathlib.Omega.{arith}

-- `[0-9]`
unfoldable pub is_digit : ℕ → Bool
is_digit c = leb 48 c && leb c 57

pub is_digit_bounds : (c : ℕ) → is_digit c ≡ true → (48 ≤ c) × (c ≤ 57)
unfolding is_digit
is_digit_bounds c h = ground arith

-- The digits of `n` before `rest`; the fuel `n + 1` is more than the number of digits.
digits_before : ℕ → ℕ → Text → Text
digits_before zero n rest = rest
digits_before (suc fuel) n rest =
    let longer = digits_before fuel (n / 10) ((48 + n % 10) ∷ rest) in
    if ltb n 10 then (48 + n) ∷ rest else longer

unfoldable pub str_of : ℕ → Text
unfolding digits_before
str_of n = digits_before (suc n) n []

-- The value of a run of ASCII digits, read from the left.
unfoldable pub int_from : ℕ → Text → ℕ
int_from n [] = n
int_from n (c ∷ s) = int_from (10 * n + (c - 48)) s

int-digits_before :
    (fuel n : ℕ) (rest : Text) → n < fuel → int_from 0 (digits_before fuel n rest) ≡ int_from n rest
unfolding digits_before int_from
int-digits_before zero n rest h = absurd (omega arith)
int-digits_before (suc fuel) n rest h = elim (Bool-cases (ltb n 10)) [
  | inl small ↦ rw small (ap (λ k. int_from k rest) (omega arith))
  | inr large ↦ rw large (
      int-digits_before fuel (n / 10) ((48 + n % 10) ∷ rest) (ground arith)
      ∙ ap (λ k. int_from k rest) (omega arith))
]

-- Printing and reading back gives the number.
pub int-str_of : (n : ℕ) → int_from 0 (str_of n) ≡ n
unfolding str_of int_from
int-str_of n = int-digits_before (suc n) n [] (omega arith)

-- Different numbers print differently.
pub str_of_injective : (n m : ℕ) → str_of n ≡ str_of m → n ≡ m
str_of_injective n m e = sym (int-str_of n) ∙ ap (int_from 0) e ∙ int-str_of m

pub str_of_digit : (n : ℕ) → n < 10 → str_of n ≡ (48 + n) ∷ []
unfolding str_of digits_before
str_of_digit n h = ground arith

digits_before-digits :
    (fuel n : ℕ) (rest : Text)
    → all is_digit rest ≡ true
    → all is_digit (digits_before fuel n rest) ≡ true
unfolding digits_before is_digit
digits_before-digits zero n rest h = h
digits_before-digits (suc fuel) n rest h =
    ground (arith, digits_before-digits fuel (n / 10) ((48 + n % 10) ∷ rest))

pub str_of-digits : (n : ℕ) → all is_digit (str_of n) ≡ true
unfolding str_of
str_of-digits n = digits_before-digits (suc n) n [] refl
