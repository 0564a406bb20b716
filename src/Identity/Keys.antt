-- ===== src/Identity/Keys.antt =====
-- What the canonical identity keys tell apart, and what they do not.
use book_data_pipeline.Base.{
  ℕ, Text, Bool, true, not, ◌&&◌, ◌||◌, ◌==◌, if◌then◌else◌, Option, none, some, [], ◌∷◌, ◌++◌,
  strip, is_empty, str_of, str_of_injective, str_of_digit, int_from, int-str_of, ok, err, ◌≡◌, ◌≢◌,
  ◌↔◌, is_empty_of_ne, is_empty→≡, blank-strip, refl, ap, sym, ◌∙◌, arith, and_true,
}
use mathlib.Core.List.{append_assoc}
use book_data_pipeline.Identity.{
  Digest, isbn_prefix, fallback_prefix, field_separator, blank_title, author_part, year_part,
  preimage, fallback_identity_key, identity_key,
}

-- A text without the separator.
abbrev pub separator_free : Text → Bool
separator_free [] = true
separator_free (c ∷ s) = not (c == field_separator) && separator_free s

-- A text is found again before the first separator.
split_unique :
    (s t x y : Text)
    → separator_free s ≡ true
    → separator_free t ≡ true
    → s ++ field_separator ∷ x ≡ t ++ field_separator ∷ y
    → (s ≡ t) × (x ≡ y)
split_unique [] [] x y hs ht e = (refl, cc)
split_unique [] (d ∷ t) x y hs ht e = ground arith
split_unique (c ∷ s) [] x y hs ht e = ground arith
split_unique (c ∷ s) (d ∷ t) x y hs ht e =
    let (a, b) = split_unique s t x y (and_true _ _ hs).1 (and_true _ _ ht).1 (cc) in (cc, b)

str_of_nonempty : (n : ℕ) → str_of n ≢ []
unfolding int_from
str_of_nonempty n e =
    let zero_value : n ≡ 0 = sym (int-str_of n) ∙ ap (int_from 0) e in
    let printed : str_of n ≡ 48 ∷ [] = ap str_of zero_value ∙ str_of_digit 0 (omega arith) in cc

year_part_injective : (y z : Option ℕ) → year_part y ≡ year_part z → y ≡ z
unfolding year_part
year_part_injective none none e = refl
year_part_injective none (some z) e = absurd (str_of_nonempty z (sym e))
year_part_injective (some y) none e = absurd (str_of_nonempty y e)
year_part_injective (some y) (some z) e = ap some (str_of_injective y z e)

-- Fields without the separator are found again from what is hashed: the title, the author up to the
-- difference between none and the empty text, and the year.
pub preimage_injective :
    (t t' : Text) (a a' : Option Text) (y y' : Option ℕ)
    → separator_free t ≡ true
    → separator_free t' ≡ true
    → separator_free (author_part a) ≡ true
    → separator_free (author_part a') ≡ true
    → preimage t a y ≡ preimage t' a' y'
    → (t ≡ t') × (author_part a ≡ author_part a') × (y ≡ y')
unfolding preimage
preimage_injective t t' a a' y y' ht ht' ha ha' e =
    let (titles, rest) = split_unique t t' _ _ ht ht' e in
    let (authors, years) = split_unique (author_part a) (author_part a') _ _ ha ha' rest in
    (titles, authors, year_part_injective y y' years)

same_digest :
    (b b' : Bool) (d d' k : Text)
    → (if b then err blank_title else ok (fallback_prefix ++ d)) ≡ ok k
    → (if b' then err blank_title else ok (fallback_prefix ++ d')) ≡ ok k
    → d ≡ d'
same_digest b b' d d' k e e' = ground arith

module _ (sha256 : Digest) where
  -- Two records without an ISBN get one key only if they agree, or the hash collides: for two
  -- records whose fields hold no separator and whose digests differ whenever what is hashed
  -- differs, equal keys mean equal title, equal author as it is hashed (a missing author is hashed
  -- as the empty text) and equal year.
  pub fallback_identity_key-injective :
      (t t' : Text) (a a' : Option Text) (y y' : Option ℕ) (k : Text)
      → separator_free t ≡ true
      → separator_free t' ≡ true
      → separator_free (author_part a) ≡ true
      → separator_free (author_part a') ≡ true
      → (sha256 (preimage t a y) ≡ sha256 (preimage t' a' y') → preimage t a y ≡ preimage t' a' y')
      → fallback_identity_key sha256 t a y ≡ ok k
      → fallback_identity_key sha256 t' a' y' ≡ ok k
      → (t ≡ t') × (author_part a ≡ author_part a') × (y ≡ y')
  unfolding fallback_identity_key
  fallback_identity_key-injective t t' a a' y y' k ht ht' ha ha' no_collision e e' =
      preimage_injective t t' a a' y y' ht ht' ha ha' (
        no_collision (
          same_digest (is_empty t || is_empty (strip t)) (is_empty t' || is_empty (strip t')) _ _ k
            e e'))

  -- A title or author that holds the separator forges a boundary: the key of a title `t`, U+0000,
  -- `a` without an author is the key of title `t` with author `a`, U+0000.
  pub separator_forges_boundary :
      (t a : Text) (y : Option ℕ)
      → strip t ≢ []
      → strip (t ++ field_separator ∷ a) ≢ []
      → fallback_identity_key sha256 (t ++ field_separator ∷ a) none y
        ≡ fallback_identity_key sha256 t (some (a ++ field_separator ∷ [])) y
  unfolding fallback_identity_key preimage author_part
  separator_forges_boundary t a y h k =
      rw
        (
          blank-strip t,
          blank-strip (t ++ field_separator ∷ a),
          is_empty_of_ne (strip t) h,
          is_empty_of_ne (strip (t ++ field_separator ∷ a)) k,
        )
        (ap (λ s. ok (fallback_prefix ++ sha256 s)) (simp append_assoc))

  -- The fallback key is refused exactly for a blank title.
  pub fallback_identity_key_blank :
      (t : Text) (a : Option Text) (y : Option ℕ)
      → (fallback_identity_key sha256 t a y ≡ err blank_title) ↔ (strip t ≡ [])
  unfolding fallback_identity_key
  fallback_identity_key_blank t a y =
      rw (blank-strip t) ((λ e. is_empty→≡ (strip t) (ground arith)), (λ e. rw e))

  fallback-ne-isbn :
      (t : Text) (a : Option Text) (y : Option ℕ) (i : Text)
      → fallback_identity_key sha256 t a y ≢ ok (isbn_prefix ++ i)
  unfolding fallback_identity_key
  fallback-ne-isbn t a y i e = guarded (is_empty t || is_empty (strip t)) _ e
    where
      guarded :
          (b : Bool) (d : Text)
          → (if b then err blank_title else ok (fallback_prefix ++ d)) ≢ ok (isbn_prefix ++ i)
      guarded b d e = ground arith

  pub isbn_key :
      (i t : Text) (a : Option Text) (y : Option ℕ)
      → i ≢ []
      → identity_key sha256 (some i) t a y ≡ ok (isbn_prefix ++ i)
  unfolding identity_key
  isbn_key i t a y ne = rw (is_empty_of_ne i ne)

  -- An ISBN decides the key alone, and no fallback key is an ISBN key: two records have one key
  -- with an ISBN on one side exactly when the other side has the same ISBN.
  pub identity_key-isbn :
      (i : Text) (other : Option Text) (t t' : Text) (a a' : Option Text) (y y' : Option ℕ)
      → i ≢ []
      → (identity_key sha256 other t' a' y' ≡ identity_key sha256 (some i) t a y) ↔ (other ≡ some i)
  unfolding identity_key
  identity_key-isbn i none t t' a a' y y' ne =
      (λ e. absurd (fallback-ne-isbn t' a' y' i (e ∙ isbn_key i t a y ne)), λ e. cc)
  identity_key-isbn i (some []) t t' a a' y y' ne =
      (λ e. absurd (fallback-ne-isbn t' a' y' i (e ∙ isbn_key i t a y ne)), λ e. absurd (ne (cc)))
  identity_key-isbn i (some (c ∷ j)) t t' a a' y y' ne = (
    λ e.
        (let same : ok (isbn_prefix ++ c ∷ j) ≡ ok (isbn_prefix ++ i) = e ∙ isbn_key i t a y ne in
          cc),
    λ e.
        (let same : c ∷ j ≡ i = cc in
          ap (λ x. ok (isbn_prefix ++ x)) same ∙ sym (isbn_key i t a y ne)),
  )
