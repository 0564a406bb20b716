-- ===== src/Identity/Tests.antt =====
-- The theorems on identity at two records, with the identity for a digest.
use book_data_pipeline.Base.{
  ℕ, Text, codes, Bool, true, Option, none, some, List, [], ◌∷◌, ◌++◌, ◌≡◌, ◌≢◌, refl, strip,
  Result, ok, err, inl, inr, ◌↔◌,
}
use book_data_pipeline.Identity.{
  blank_title, identity_key, content_hash, payload_hash, Digest, preimage, fallback_identity_key,
  field_separator, author_part,
}
use mathlib.Core.List.{Permᴰ}
use book_data_pipeline.Identity.Document.{Json, str, field, end}
use book_data_pipeline.Identity.Fingerprint.{IsDict, content_hash-perm}
use book_data_pipeline.Identity.Keys.{
  identity_key-isbn, fallback_identity_key_blank, fallback_identity_key-injective,
  separator_forges_boundary,
}

abbrev digest : Digest
digest = λ s. s

abbrev emma : Text
emma = codes "emma"

abbrev emma_key : Text
emma_key =
    codes "fallback:emma" ++ field_separator ∷ (codes "austen" ++ field_separator ∷ codes "1815")

emma_run : fallback_identity_key digest emma (some (codes "austen")) (some 1815) ≡ ok emma_key
unfolding fallback_identity_key book_data_pipeline.Base.strip preimage author_part
    book_data_pipeline.Identity.year_part book_data_pipeline.Base.str_of
emma_run = refl

fallback_identity_key-injective_example :
    (emma ≡ emma)
    × (author_part (some (codes "austen")) ≡ author_part (some (codes "austen")))
    × (◌≡◌ {A = Option ℕ} (some 1815) (some 1815))
unfolding author_part
fallback_identity_key-injective_example =
    fallback_identity_key-injective digest emma emma (some (codes "austen")) (some (codes "austen"))
      (some 1815) (some 1815) emma_key refl refl refl refl (λ h. h) emma_run emma_run

no_blank : strip emma ≢ []
unfolding strip
no_blank h = cc

no_blank_joined : strip (emma ++ field_separator ∷ codes "austen") ≢ []
unfolding strip
no_blank_joined h = cc

separator_forges_boundary_example :
    fallback_identity_key digest (emma ++ field_separator ∷ codes "austen") none (some 1815)
    ≡ fallback_identity_key digest emma (some (codes "austen" ++ field_separator ∷ [])) (some 1815)
separator_forges_boundary_example =
    separator_forges_boundary digest emma (codes "austen") (some 1815) no_blank no_blank_joined

given_isbn : codes "9780199535675" ≢ []
given_isbn h = cc

identity_key-isbn_example :
    (identity_key digest none emma none none
      ≡ identity_key digest (some (codes "9780199535675")) emma none none)
    ↔ (◌≡◌ {A = Option Text} none (some (codes "9780199535675")))
identity_key-isbn_example =
    identity_key-isbn digest (codes "9780199535675") none emma emma none none none none given_isbn

fallback_identity_key_blank_example :
    (fallback_identity_key digest (codes "  ") none none ≡ err blank_title)
    ↔ (strip (codes "  ") ≡ [])
fallback_identity_key_blank_example = fallback_identity_key_blank digest (codes "  ") none none

abbrev fields : List (Text × Option Json)
fields = (codes "title", some (str emma)) ∷ (codes "year", none) ∷ []

fields-IsDict : IsDict fields
fields-IsDict x y (inl e) (inl f) h = cc
fields-IsDict x y (inl e) (inr (inl f)) h = cc
fields-IsDict x y (inr (inl e)) (inl f) h = cc
fields-IsDict x y (inr (inl e)) (inr (inl f)) h = cc
fields-IsDict x y (inl e) (inr (inr z)) h = elim z [ ]
fields-IsDict x y (inr (inl e)) (inr (inr z)) h = elim z [ ]
fields-IsDict x y (inr (inr z)) m h = elim z [ ]

content_hash-perm_example :
    content_hash digest fields
    ≡ content_hash digest ((codes "year", none) ∷ (codes "title", some (str emma)) ∷ [])
content_hash-perm_example =
    content_hash-perm digest fields ((codes "year", none) ∷ (codes "title", some (str emma)) ∷ [])
      fields-IsDict ∣ Permᴰ.swap refl refl ∣₁

payload_hashed : payload_hash digest (field (codes "a") (str emma) end) ≡ codes "{\"a\":\"emma\"}"
unfolding payload_hash book_data_pipeline.Identity.Document.canonical_json
    book_data_pipeline.Identity.Document.braced
payload_hashed = refl
