-- ===== src/Domain/Validation.antt =====
-- Identity keys that a clean book may have, and the ISBN that goes with each.
use book_data_pipeline.Base.{
  Text, Bool, true, false, ◌||◌, none, some, [], ◌∷◌, ◌++◌, starts_with, after_prefix, text_eq_refl,
  ◌≡◌, refl, arith, and_true,
}
use book_data_pipeline.Identity.{isbn_prefix, fallback_prefix}
use book_data_pipeline.Domain.{
  matches_isbn_pattern, is_isbn_identity, is_fallback_identity, identity_agrees, identity_ok,
}

-- A key that a clean book may have.
abbrev pub is_identity : Text → Bool
is_identity key = is_isbn_identity key || is_fallback_identity key

pub isbn_key-is_identity :
    (i : Text) → matches_isbn_pattern i ≡ true → is_isbn_identity (isbn_prefix ++ i) ≡ true
unfolding is_isbn_identity
isbn_key-is_identity i h = h

fallback_no_isbn :
    (key : Text) → starts_with key fallback_prefix ≡ true → starts_with key isbn_prefix ≡ false
fallback_no_isbn [] h = refl
fallback_no_isbn (c ∷ s) h = ground arith

is_fallback-prefix :
    (key : Text) → is_fallback_identity key ≡ true → starts_with key fallback_prefix ≡ true
unfolding is_fallback_identity
is_fallback-prefix key h = (and_true _ _ (and_true _ _ h).0).0

-- An ISBN key goes with the ISBN behind its prefix.
pub isbn_identity_ok :
    (key : Text)
    → is_isbn_identity key ≡ true
    → identity_ok key (some (after_prefix key isbn_prefix)) ≡ true
unfolding identity_ok identity_agrees is_isbn_identity
isbn_identity_ok key h =
    let (prefix, shape) =
      and_true (starts_with key isbn_prefix) (matches_isbn_pattern (after_prefix key isbn_prefix))
        h in
    rw (prefix, shape) (text_eq_refl (after_prefix key isbn_prefix))

-- A fallback key goes with no ISBN.
pub fallback_identity_ok :
    (key : Text)
    → is_fallback_identity key ≡ true
    → (identity_ok key none ≡ true) × (starts_with key isbn_prefix ≡ false)
unfolding identity_ok identity_agrees
fallback_identity_ok key h =
    let prefix = is_fallback-prefix key h in
    let other = fallback_no_isbn key prefix in (rw (h, other, prefix) (ground arith), other)

pub isbn_prefix_of : (key : Text) → is_isbn_identity key ≡ true → starts_with key isbn_prefix ≡ true
unfolding is_isbn_identity
isbn_prefix_of key h =
    (and_true (starts_with key isbn_prefix) (matches_isbn_pattern (after_prefix key isbn_prefix))
      h).0
