-- ===== src/Identity.antt =====
-- transform/identity.py: canonical identity keys and content fingerprints.
mod Tests
pub mod Document
pub mod Keys
pub mod Fingerprint
use book_data_pipeline.Base.{
  ℕ, Text, codes, Bool, not, ◌||◌, if◌then◌else◌, Option, none, some, List, [], ◌∷◌, ◌++◌, strip,
  is_empty, str_of, Result, ok, err,
}
use book_data_pipeline.Identity.Document.{Json, Fields, field, end, canonical_json, obj}

-- `hashlib.sha256(value.encode("utf-8")).hexdigest()`: the hash function is not part of the
-- repository. `IsDigest` states the form of its result.
abbrev pub Digest : Type 0
Digest = Text → Text

abbrev pub isbn_prefix : Text
isbn_prefix = codes "isbn:"

abbrev pub fallback_prefix : Text
fallback_prefix = codes "fallback:"

-- `_FIELD_SEPARATOR`, the character U+0000
abbrev pub field_separator : ℕ
field_separator = 0

pub data IdentityError : Type 0 where
  blank_title : IdentityError

-- `normalised_first_author or ""`
pub author_part : Option Text → Text
author_part none = []
author_part (some author) = author

-- `str(year) if year is not None else ""`
pub year_part : Option ℕ → Text
year_part none = []
year_part (some year) = str_of year

-- What is hashed: the three parts, joined by the separator.
pub preimage : Text → Option Text → Option ℕ → Text
preimage title author year =
    title ++ (field_separator ∷ (author_part author ++ (field_separator ∷ year_part year)))

-- The entries whose value is not `None`.
pub present : List (Text × Option Json) → Fields
present [] = end
present ((k, none) ∷ rest) = present rest
present ((k, some v) ∷ rest) = field k v (present rest)

module _ (sha256 : Digest) where
  unfoldable pub fallback_identity_key : Text → Option Text → Option ℕ → Result IdentityError Text
  fallback_identity_key title author year =
      if is_empty title || is_empty (strip title)
      then err blank_title
      else ok (fallback_prefix ++ sha256 (preimage title author year))

  unfoldable pub identity_key :
      Option Text → Text → Option Text → Option ℕ → Result IdentityError Text
  identity_key none title author year = fallback_identity_key title author year
  identity_key (some isbn13) title author year =
      if is_empty isbn13
      then fallback_identity_key title author year
      else ok (isbn_prefix ++ isbn13)

  pub payload_hash : Fields → Text
  payload_hash payload = sha256 (canonical_json (obj payload))

  pub content_hash : List (Text × Option Json) → Text
  content_hash fields = sha256 (canonical_json (obj (present fields)))
