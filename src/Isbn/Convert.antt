-- ===== src/Isbn/Convert.antt =====
-- The conversion to a validated ISBN-13.
use book_data_pipeline.Base.{
  ℕ, zero, suc, ◌+◌, ◌<◌, ◌≤◌, Text, Bool, true, false, not, ◌==◌, if◌then◌else◌, Option, none,
  some, [], ◌∷◌, ◌++◌, take, drop, length, all, keep, reverse, strip, lstrip, is_space, is_digit,
  is_digit_bounds, is_empty, codes, str_of, str_of_digit, ◌≡◌, refl, ap, sym, ◌∙◌, arith, and_true,
  ==_iff, length-append, text_eq→≡,
}
use mathlib.Core.Path.{ap₂}
use mathlib.Core.List.{reverse-cons, reverse-reverse}
use book_data_pipeline.Unicode.{Unicode, IsUnicode, upper}
use book_data_pipeline.Isbn.{
  char_at, is_separator, matches_isbn10, matches_isbn13, isbn13_check_digit, isbn10_check_digit,
  is_valid_isbn13, is_valid_isbn10, clean, convert, to_isbn13,
}
use book_data_pipeline.Isbn.Checksum.{valid_parts, valid_of_parts, matches_parts}

take_append_length : (n : ℕ) (s t : Text) → length s ≡ n → take n (s ++ t) ≡ s
take_append_length zero [] t h = refl
take_append_length zero (c ∷ s) t h = absurd (omega arith)
take_append_length (suc n) [] t h = absurd (omega arith)
take_append_length (suc n) (c ∷ s) t h = ap (◌∷◌ c) (take_append_length n s t (omega arith))

char_at_append_length : (n c : ℕ) (s : Text) → length s ≡ n → char_at (s ++ c ∷ []) n ≡ c
char_at_append_length zero c [] h = refl
char_at_append_length zero c (d ∷ s) h = absurd (omega arith)
char_at_append_length (suc n) c [] h = absurd (omega arith)
char_at_append_length (suc n) c (d ∷ s) h = char_at_append_length n c s (omega arith)

all_digits_append :
    (s t : Text) → all is_digit s ≡ true → all is_digit t ≡ true → all is_digit (s ++ t) ≡ true
all_digits_append [] t h k = k
all_digits_append (c ∷ s) t h k = ground (arith, all_digits_append s t)

check_digit-lt : (s : Text) → isbn13_check_digit s < 10
unfolding isbn13_check_digit
check_digit-lt s = omega arith

-- An ISBN-10 has ten characters, and nine digits lead it.
pub isbn10_shape :
    (s : Text) → is_valid_isbn10 s ≡ true → (length s ≡ 10) × (all is_digit (take 9 s) ≡ true)
unfolding is_valid_isbn10 matches_isbn10
isbn10_shape s h =
    let n : (length s == 10) ≡ true = ground arith in
    let digits : all is_digit (take 9 s) ≡ true = ground arith in ((==_iff _ 10).0 n, digits)

length-take_le : (n : ℕ) (s : Text) → n ≤ length s → length (take n s) ≡ n
length-take_le zero s h = refl
length-take_le (suc n) [] h = absurd (omega arith)
length-take_le (suc n) (c ∷ s) h = ap suc (length-take_le n s (omega arith))

abbrev body : Text → Text
body s = codes "978" ++ take 9 s

length-body : (s : Text) → length s ≡ 10 → length (body s) ≡ 12
length-body s h = omega (arith, length-take_le 9 s)

-- Twelve digits and a thirteenth match the pattern.
matches_digits :
    (s : Text) (d : ℕ)
    → length s ≡ 12
    → all is_digit s ≡ true
    → d < 10
    → matches_isbn13 (s ++ (48 + d) ∷ []) ≡ true
unfolding matches_isbn13 is_digit
matches_digits s d n digits lt =
    let thirteen : (length (s ++ (48 + d) ∷ []) == 13) ≡ true =
      (==_iff _ _).1 (omega (arith, length-append s ((48 + d) ∷ []))) in
    rw thirteen (all_digits_append s ((48 + d) ∷ []) digits (ground arith))

checked_valid :
    (s : Text)
    → length (body s) ≡ 12
    → all is_digit (take 9 s) ≡ true
    → is_valid_isbn13 (body s ++ (48 + isbn13_check_digit (body s)) ∷ []) ≡ true
unfolding is_digit
checked_valid s n digits =
    let d = isbn13_check_digit (body s) in
    valid_of_parts (body s ++ (48 + d) ∷ [])
      (matches_digits (body s) d n digits (check_digit-lt (body s))) refl refl
      (rw
        (
          char_at_append_length 12 (48 + d) (body s) n,
          take_append_length 12 (body s) ((48 + d) ∷ []) n,
        )
        (omega arith))

-- Nine digits behind 978 and their check digit are a valid ISBN-13.
body-valid :
    (s : Text)
    → is_valid_isbn10 s ≡ true
    → is_valid_isbn13 (body s ++ str_of (isbn13_check_digit (body s))) ≡ true
body-valid s valid =
    let (ten, digits) = isbn10_shape s valid in
    let lt = check_digit-lt (body s) in
    rw (str_of_digit (isbn13_check_digit (body s)) lt) (checked_valid s (length-body s ten) digits)

-- What the conversion returns is a valid ISBN-13.
pub convert-valid : (c : Text) {r : Text} → convert c ≡ some r → is_valid_isbn13 r ≡ true
unfolding convert
convert-valid c {r} h = ground (arith, body-valid c)

-- Whatever is accepted is converted to a valid ISBN-13.
pub to_isbn13-valid :
    (u : Unicode) (value : Option Text) (r : Text)
    → to_isbn13 u value ≡ some r
    → is_valid_isbn13 r ≡ true
unfolding to_isbn13
to_isbn13-valid u none r h = cc
to_isbn13-valid u (some []) r h = cc
to_isbn13-valid u (some (c ∷ s)) r h = convert-valid (clean u (c ∷ s)) h

digit_no_space : (c : ℕ) → is_digit c ≡ true → is_space c ≡ false
unfolding is_space is_digit
digit_no_space c h = ground arith

digit_no_separator : (c : ℕ) → is_digit c ≡ true → is_separator c ≡ false
unfolding is_separator is_space is_digit
digit_no_separator c h = ground arith

lstrip_digits : (s : Text) → all is_digit s ≡ true → lstrip s ≡ s
unfolding lstrip
lstrip_digits [] h = refl
lstrip_digits (c ∷ s) h = rw (digit_no_space c (and_true _ _ h).0)

reverse_digits : (s : Text) → all is_digit s ≡ true → all is_digit (reverse s) ≡ true
reverse_digits [] h = refl
reverse_digits (c ∷ s) h =
    rw reverse-cons
      (all_digits_append (reverse s) (c ∷ []) (reverse_digits s (and_true _ _ h).1) (ground arith))

strip_digits : (s : Text) → all is_digit s ≡ true → strip s ≡ s
unfolding strip
strip_digits s h =
    rw (lstrip_digits s h, lstrip_digits (reverse s) (reverse_digits s h)) (reverse-reverse s)

keep_digits : (s : Text) → all is_digit s ≡ true → keep (λ c. not (is_separator c)) s ≡ s
keep_digits [] h = refl
keep_digits (c ∷ s) h =
    let (digit, rest) = and_true _ _ h in
    rw (digit_no_separator c digit) (ap (◌∷◌ c) (keep_digits s rest))

upper_digits : (u : Unicode) → IsUnicode u → (s : Text) → all is_digit s ≡ true → upper u s ≡ s
unfolding upper
upper_digits u law [] h = refl
upper_digits u law (c ∷ s) h =
    let (digit, rest) = and_true _ _ h in
    let (low, high) = is_digit_bounds c digit in
    rw (law.upper_ascii_lem c (omega arith), upper_digits u law s rest) (ground arith)

-- Cleaning leaves a run of digits alone.
pub clean_digits : (u : Unicode) → IsUnicode u → (s : Text) → all is_digit s ≡ true → clean u s ≡ s
unfolding clean
clean_digits u law s h = rw (strip_digits s h, keep_digits s h) (upper_digits u law s h)

nonempty_length : (s : Text) (n : ℕ) → length s ≡ suc n → is_empty s ≡ false
nonempty_length [] n h = absurd (omega arith)
nonempty_length (c ∷ s) n h = refl

-- A valid ISBN-13 is its own conversion.
pub to_isbn13_valid_self :
    (u : Unicode) (s : Text)
    → IsUnicode u
    → is_valid_isbn13 s ≡ true
    → to_isbn13 u (some s) ≡ some s
unfolding to_isbn13 convert
to_isbn13_valid_self u s law h =
    let (n, digits) = matches_parts s (valid_parts s h).0 in
    rw (nonempty_length s 12 n, clean_digits u law s digits, h)

not_thirteen : (s : Text) → length s ≡ 10 → is_valid_isbn13 s ≡ false
unfolding is_valid_isbn13 matches_isbn13
not_thirteen s h = ground arith

convert_isbn10 :
    (s : Text)
    → is_valid_isbn10 s ≡ true
    → convert s ≡ some (body s ++ str_of (isbn13_check_digit (body s)))
unfolding convert
convert_isbn10 s h = rw (not_thirteen s (isbn10_shape s h).0, h)

last_guard : (a b : Bool) → (if not a then false else b) ≡ true → b ≡ true
last_guard a b h = ground arith

last_char : (s : Text) → is_valid_isbn10 s ≡ true → char_at s 9 ∷ [] ≡ isbn10_check_digit (take 9 s)
unfolding is_valid_isbn10
last_char s h = text_eq→≡ _ _ (last_guard (matches_isbn10 s) _ h)

rebuild : (n : ℕ) (s : Text) → length s ≡ suc n → take n s ++ char_at s n ∷ [] ≡ s
rebuild zero (c ∷ []) h = refl
rebuild n [] h = absurd (omega arith)
rebuild zero (c ∷ d ∷ s) h = absurd (omega arith)
rebuild (suc n) (c ∷ s) h = ap (◌∷◌ c) (rebuild n s (omega arith))

-- Two valid ISBN-10s with one conversion are the same ISBN-10.
pub convert-isbn10_injective :
    (s t : Text)
    → is_valid_isbn10 s ≡ true
    → is_valid_isbn10 t ≡ true
    → convert s ≡ convert t
    → s ≡ t
convert-isbn10_injective s t hs ht e =
    let (ns, _) = isbn10_shape s hs in
    let (nt, _) = isbn10_shape t ht in
    let same : some (body s ++ str_of (isbn13_check_digit (body s)))
        ≡ some (body t ++ str_of (isbn13_check_digit (body t))) =
      sym (convert_isbn10 s hs) ∙ e ∙ convert_isbn10 t ht in
    let texts : body s ++ str_of (isbn13_check_digit (body s))
        ≡ body t ++ str_of (isbn13_check_digit (body t)) =
      cc same in
    let bodies : body s ≡ body t =
      sym (take_append_length 12 (body s) _ (length-body s ns))
      ∙ ap (take 12) texts
      ∙ take_append_length 12 (body t) _ (length-body t nt) in
    let nines : take 9 s ≡ take 9 t = ap (drop 3) bodies in
    let lasts : char_at s 9 ∷ [] ≡ char_at t 9 ∷ [] =
      last_char s hs ∙ ap isbn10_check_digit nines ∙ sym (last_char t ht) in
    sym (rebuild 9 s ns) ∙ ap₂ ◌++◌ nines lasts ∙ rebuild 9 t nt
