-- ===== src/Unicode.antt =====
-- What the program takes from Unicode's character database, through `unicodedata`, the methods of
-- `str` and `re`: the tables are not part of the repository, so they are a parameter. `IsUnicode`
-- states the documented behaviour on ASCII that the proofs rest on.
use book_data_pipeline.Base.{
  ℕ, Text, Bool, false, Option, none, some, [], ◌∷◌, ◌++◌, ◌≡◌, ◌+◌, ◌-◌, ◌<◌, ◌&&◌, leb,
  if◌then◌else◌,
}

pub record Unicode : Type 0 where
  -- `unicodedata.normalize("NFC", s)` and `"NFD"`
  pub nfc : Text → Text
  pub nfd : Text → Text
  -- `s.casefold()`
  pub casefold : Text → Text
  -- The full upper case of one character: `s.upper()` maps each character by itself.
  pub upper_char : ℕ → Text
  -- `s.lower()`
  pub lower : Text → Text
  -- `unicodedata.combining(c) != 0`
  pub combining : ℕ → Bool
  -- `c.isalpha()` of one character
  pub is_alpha : ℕ → Bool
  -- The decimal value of a character that `\d` matches, which is what `int` reads.
  pub decimal : ℕ → Option ℕ

module _ (u : Unicode) where
  -- `s.upper()`
  unfoldable pub upper : Text → Text
  upper [] = []
  upper (c ∷ s) = u.upper_char c ++ upper s

-- The upper case of an ASCII character.
abbrev pub upper_ascii : ℕ → ℕ
upper_ascii c = if leb 97 c && leb c 122 then c - 32 else c

-- The documented behaviour on ASCII.
pub record IsUnicode (u : Unicode) : Type 0 where
  pub upper_ascii_lem : (c : ℕ) → c < 128 → u.upper_char c ≡ upper_ascii c ∷ []
  pub decimal_digit : (d : ℕ) → d < 10 → u.decimal (48 + d) ≡ some d
  pub decimal_ascii : (c : ℕ) → c < 128 → (leb 48 c && leb c 57) ≡ false → u.decimal c ≡ none
  pub decimal-lt : (c d : ℕ) → u.decimal c ≡ some d → d < 10

-- The tables restricted to ASCII, where every other character stands for itself.
abbrev pub ascii_unicode : Unicode
ascii_unicode = record {
  nfc = λ s. s;
  nfd = λ s. s;
  casefold = λ s. s;
  upper_char = λ c. upper_ascii c ∷ [];
  lower = λ s. s;
  combining = λ c. false;
  is_alpha = λ c. leb 65 c && leb c 122;
  decimal = λ c. if leb 48 c && leb c 57 then some (c - 48) else none;
}
