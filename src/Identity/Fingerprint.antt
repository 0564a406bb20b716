-- ===== src/Identity/Fingerprint.antt =====
-- The content fingerprint is a function of the dictionary, not of the order of its entries, and
-- does not see entries that are `None`.
use mathlib.Core.List.{Perm, Mem, Memᴰ}
use mathlib.Core.Logic.{∥∥₁_elim}
use book_data_pipeline.Base.{
  Text, Option, none, some, List, [], ◌∷◌, ◌++◌, Among, collect, collect-permᴰ, collect-Source,
  text_lt_total, text-IsStrict, ◌≡◌, refl, sym, ap, ◌∙◌, inl, inr, Bool-cases,
}
use book_data_pipeline.Base.Sorting.{IsStrict, Comparable, sort, sort-perm}
use book_data_pipeline.Identity.{Digest, present, content_hash}
use book_data_pipeline.Identity.Document.{
  Json, field, key_lt, braced, canonical_json, printed_fields, obj,
}

-- One entry under each key, as in a `dict`.
abbrev pub IsDict : List (Text × Option Json) → Type 0
IsDict fields = (x y : Text × Option Json) → Among x fields → Among y fields → x.0 ≡ y.0 → x ≡ y

print_entry : Text × Option Json → Option (Text × Text)
print_entry (k, none) = none
print_entry (k, some v) = some (k, canonical_json v)

printed_fields-present :
    (fields : List (Text × Option Json))
    → printed_fields (present fields) ≡ collect print_entry fields
unfolding printed_fields present print_entry
printed_fields-present [] = refl
printed_fields-present ((k, none) ∷ rest) = printed_fields-present rest
printed_fields-present ((k, some v) ∷ rest) =
    ap (◌∷◌ (k, canonical_json v)) (printed_fields-present rest)

key-IsStrict : IsStrict key_lt
key-IsStrict = record {
  asymm = λ a b. text-IsStrict.asymm a.0 b.0;
  cotrans = λ a b c. text-IsStrict.cotrans a.0 b.0 c.0;
}

Entry-set : IsSet (Text × Text)
Entry-set = hlevel

Entries-set : IsSet (List (Text × Text))
Entries-set = hlevel

Among_of_mem : {A : Type 0} {x : A} {xs : List A} → Memᴰ x xs → Among x xs
Among_of_mem (Memᴰ.head e) = inl e
Among_of_mem (Memᴰ.tail m) = inr (Among_of_mem m)

print_entry-key : (x : Text × Option Json) (e : Text × Text) → print_entry x ≡ some e → x.0 ≡ e.0
unfolding print_entry
print_entry-key (k, none) e h = cc
print_entry-key (k, some v) e h = cc

same_key :
    (fields : List (Text × Option Json))
    → IsDict fields
    → (e f : Text × Text) → Mem e (collect print_entry fields)
    → Mem f (collect print_entry fields)
    → e.0 ≡ f.0
    → e ≡ f
same_key fields dict e f me mf h = ∥∥₁_elim me (Entry-set e f) λ m. ∥∥₁_elim mf (Entry-set e f) λ n.
    let (x, in_x, px) = collect-Source print_entry e fields (Among_of_mem m) in
    let (y, in_y, py) = collect-Source print_entry f fields (Among_of_mem n) in
    let same = dict x y in_x in_y (print_entry-key x e px ∙ h ∙ sym (print_entry-key y f py)) in cc

comparable :
    (fields : List (Text × Option Json))
    → IsDict fields
    → (e f : Text × Text) → Mem e (collect print_entry fields)
    → Mem f (collect print_entry fields)
    → Comparable key_lt e f
comparable fields dict e f me mf = elim (Bool-cases (key_lt e f)) [
  | inl h ↦ inl h
  | inr h ↦ elim (Bool-cases (key_lt f e)) [
    | inl k ↦ inr (inl k)
    | inr k ↦ inr (inr (same_key fields dict e f me mf (text_lt_total e.0 f.0 h k)))
  ]
]

present_skip :
    (xs ys : List (Text × Option Json)) (k : Text)
    → present (xs ++ (k, none) ∷ ys) ≡ present (xs ++ ys)
unfolding present
present_skip [] ys k = refl
present_skip ((j, none) ∷ xs) ys k = present_skip xs ys k
present_skip ((j, some v) ∷ xs) ys k = ap (field j v) (present_skip xs ys k)

sorted-perm :
    (xs ys : List (Text × Option Json))
    → IsDict xs
    → Perm xs ys
    → sort key_lt (collect print_entry xs) ≡ sort key_lt (collect print_entry ys)
sorted-perm xs ys dict π = ∥∥₁_elim π (Entries-set _ _) (λ ρ.
    sort-perm key_lt key-IsStrict Entries-set ∣ collect-permᴰ print_entry ρ ∣₁ (comparable xs dict))

module _ (sha256 : Digest) where
  -- The fingerprint does not depend on the order of the entries of a dictionary.
  pub content_hash-perm :
      (xs ys : List (Text × Option Json))
      → IsDict xs
      → Perm xs ys
      → content_hash sha256 xs ≡ content_hash sha256 ys
  unfolding content_hash canonical_json braced
  content_hash-perm xs ys dict π =
      rw (printed_fields-present xs, printed_fields-present ys, sorted-perm xs ys dict π)

  -- An entry that is `None` leaves the fingerprint as it is without the entry.
  pub content_hash-none :
      (xs ys : List (Text × Option Json)) (k : Text)
      → content_hash sha256 (xs ++ (k, none) ∷ ys) ≡ content_hash sha256 (xs ++ ys)
  unfolding content_hash
  content_hash-none xs ys k = ap (λ fs. sha256 (canonical_json (obj fs))) (present_skip xs ys k)
