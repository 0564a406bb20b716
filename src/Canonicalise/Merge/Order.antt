-- ===== src/Canonicalise/Merge/Order.antt =====
-- The merge does not depend on the order of the candidates.
use mathlib.Core.List.{Perm, Permᴰ, Mem, Memᴰ}
use mathlib.Core.Logic.{∥∥₁_elim}
use book_data_pipeline.Base.{
  Text, Texts-set, Bool, false, Option, none, some, List, map, collect-permᴰ, Among, is_empty,
  text_lt, text_lt_asymm, text_lt_total, text-IsStrict, ◌≡◌, refl, ap, ◌∙◌, arith, inl, inr,
  Bool-cases,
}
use book_data_pipeline.Base.Sorting.{IsStrict, Comparable, sort, sort-perm, set_of-perm}
use book_data_pipeline.Domain.{SourceName, CleanBook}
use book_data_pipeline.Canonicalise.Merge.{
  source_priority, rank_lt, isbn_values, identities, final_key, merge_nonempty, merge_candidates,
}

CleanBook-set : IsSet CleanBook
CleanBook-set = hlevel

CleanBooks-set : IsSet (List CleanBook)
CleanBooks-set = hlevel CleanBook-set

rank-IsStrict : IsStrict rank_lt
unfolding rank_lt
rank-IsStrict = record {
  asymm = λ a b h. ground (arith, text_lt_asymm a.source_id b.source_id);
  cotrans = λ a b c h k. ground (arith, text-IsStrict.cotrans a.source_id b.source_id c.source_id);
}

source_priority_injective : (s t : SourceName) → source_priority s ≡ source_priority t → s ≡ t
unfolding source_priority
source_priority_injective s t h = ground arith

unranked :
    (a b : CleanBook)
    → rank_lt a b ≡ false
    → rank_lt b a ≡ false
    → (source_priority a.source ≡ source_priority b.source) × (a.source_id ≡ b.source_id)
unfolding rank_lt
unranked a b h k = ground (arith, text_lt_total a.source_id b.source_id)

-- No ingestion identity stands for two candidates: the key of `book_sources` is
-- `(source, source_id)`.
abbrev pub AreDistinct : List CleanBook → Type 0
AreDistinct candidates =
    (a b : CleanBook)
    → Among a candidates
    → Among b candidates
    → a.source ≡ b.source
    → a.source_id ≡ b.source_id
    → a ≡ b

Among_of_mem : {A : Type 0} {x : A} {xs : List A} → Memᴰ x xs → Among x xs
Among_of_mem (Memᴰ.head e) = inl e
Among_of_mem (Memᴰ.tail m) = inr (Among_of_mem m)

ranked :
    (candidates : List CleanBook)
    → AreDistinct candidates
    → (a b : CleanBook) → Mem a candidates
    → Mem b candidates
    → Comparable rank_lt a b
ranked candidates distinct a b ma mb = elim (Bool-cases (rank_lt a b)) [
  | inl h ↦ inl h
  | inr h ↦ elim (Bool-cases (rank_lt b a)) [
    | inl k ↦ inr (inl k)
    | inr k ↦
        let (p, i) = unranked a b h k in
        inr (
          inr (
            ∥∥₁_elim ma (CleanBook-set a b) λ m. ∥∥₁_elim mb (CleanBook-set a b) λ n.
              distinct a b (Among_of_mem m) (Among_of_mem n)
                (source_priority_injective a.source b.source p) i))
  ]
]

sorted-perm :
    (xs ys : List CleanBook) → AreDistinct xs → Perm xs ys → sort rank_lt xs ≡ sort rank_lt ys
sorted-perm xs ys distinct π = sort-perm rank_lt rank-IsStrict CleanBooks-set π (ranked xs distinct)

isbn_values-perm : {xs ys : List CleanBook} → Perm xs ys → isbn_values xs ≡ isbn_values ys
isbn_values-perm π = ∥∥₁_elim π (Texts-set _ _) λ ρ.
    set_of-perm text_lt text-IsStrict text_lt_total Texts-set
      ∣ collect-permᴰ (λ (b : CleanBook). b.isbn13) ρ ∣₁

map-permᴰ : {A B : Type 0} (f : A → B) {xs ys : List A} → Permᴰ xs ys → Permᴰ (map f xs) (map f ys)
map-permᴰ f Permᴰ.nil = Permᴰ.nil
map-permᴰ f (Permᴰ.cons e π) = Permᴰ.cons (ap f e) (map-permᴰ f π)
map-permᴰ f (Permᴰ.swap e g) = Permᴰ.swap (ap f e) (ap f g)
map-permᴰ f (Permᴰ.trans π ρ) = Permᴰ.trans (map-permᴰ f π) (map-permᴰ f ρ)

identities-perm : {xs ys : List CleanBook} → Perm xs ys → identities xs ≡ identities ys
identities-perm π = ∥∥₁_elim π (Texts-set _ _) λ ρ.
    set_of-perm text_lt text-IsStrict text_lt_total Texts-set
      ∣ map-permᴰ (λ (b : CleanBook). b.identity_key) ρ ∣₁

final_key-perm :
    (xs ys : List CleanBook) (isbn target : Option Text)
    → Perm xs ys
    → final_key xs isbn target ≡ final_key ys isbn target
unfolding final_key
final_key-perm xs ys (some i) target π = refl
final_key-perm xs ys none (some k) π = refl
final_key-perm xs ys none none π = rw (identities-perm π)

is_empty-permᴰ : {xs ys : List CleanBook} → Permᴰ xs ys → is_empty xs ≡ is_empty ys
is_empty-permᴰ Permᴰ.nil = refl
is_empty-permᴰ (Permᴰ.cons e π) = refl
is_empty-permᴰ (Permᴰ.swap e f) = refl
is_empty-permᴰ (Permᴰ.trans π ρ) = is_empty-permᴰ π ∙ is_empty-permᴰ ρ

Bool-set : IsSet Bool
Bool-set = hlevel

-- Where no two different candidates have the same source and source id, the merged record, or the
-- error, is the same whatever the order of the candidates.
pub merge_candidates-perm :
    (xs ys : List CleanBook) (target : Option Text)
    → AreDistinct xs
    → Perm xs ys
    → merge_candidates xs target ≡ merge_candidates ys target
unfolding merge_candidates merge_nonempty
merge_candidates-perm xs ys target distinct π =
    let same_keys : final_key xs ≡ final_key ys =
      (λ i isbn target. final_key-perm xs ys isbn target π i) in
    let same_empty : is_empty xs ≡ is_empty ys =
      ∥∥₁_elim π (Bool-set _ _) (λ ρ. is_empty-permᴰ ρ) in
    rw (same_empty, isbn_values-perm π, same_keys, sorted-perm xs ys distinct π)
