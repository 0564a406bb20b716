-- ===== src/Canonicalise/Merge/Tests.antt =====
-- The theorems on the merge at two records of one book.
use book_data_pipeline.Base.{Text, none, some, [], ◌∷◌, ◌++◌, inl, inr, ◌≡◌, refl, ok}
use mathlib.Core.List.{Permᴰ}
use book_data_pipeline.Identity.{isbn_prefix}
use book_data_pipeline.Domain.Tests.{dated, undated, emma_isbn, undated_ok}
use book_data_pipeline.Canonicalise.Merge.{completeness, merge_candidates, unify_identity}
use book_data_pipeline.Canonicalise.Merge.Order.{AreDistinct, merge_candidates-perm}
use book_data_pipeline.Canonicalise.Merge.Fields.{
  AnswersAll, merge_candidates-answers, merge_candidates-isbn,
}
use book_data_pipeline.Canonicalise.Merge.Unify.{AllMoved, unify_identity-AllMoved}

distinct : AreDistinct (dated ∷ undated ∷ [])
distinct a b (inl e) (inl f) s i = cc
distinct a b (inl e) (inr (inl f)) s i = cc
distinct a b (inr (inl e)) (inl f) s i = cc
distinct a b (inr (inl e)) (inr (inl f)) s i = cc
distinct a b (inl e) (inr (inr x)) s i = elim x [ ]
distinct a b (inr (inl e)) (inr (inr x)) s i = elim x [ ]
distinct a b (inr (inr x)) m s i = elim x [ ]

merge_candidates-perm_example :
    merge_candidates (dated ∷ undated ∷ []) none ≡ merge_candidates (undated ∷ dated ∷ []) none
merge_candidates-perm_example =
    merge_candidates-perm (dated ∷ undated ∷ []) (undated ∷ dated ∷ []) none distinct
      ∣ Permᴰ.swap refl refl ∣₁

merge_run : merge_candidates (undated ∷ []) none ≡ ok undated
unfolding merge_candidates book_data_pipeline.Canonicalise.Merge.merge_nonempty
    book_data_pipeline.Canonicalise.Merge.at_most_one
    book_data_pipeline.Canonicalise.Merge.agree_on_isbn
    book_data_pipeline.Canonicalise.Merge.target_isbn_of
    book_data_pipeline.Canonicalise.Merge.final_key
    book_data_pipeline.Canonicalise.Merge.merge_ordered
    book_data_pipeline.Canonicalise.Merge.validated book_data_pipeline.Domain.clean_book_ok
    book_data_pipeline.Domain.identity_ok book_data_pipeline.Canonicalise.Merge.resolve_fields
    book_data_pipeline.Domain.fields_ok
merge_run = rw undated_ok refl

merge_candidates-answers_example : AnswersAll (undated ∷ []) undated
merge_candidates-answers_example = merge_candidates-answers (undated ∷ []) none undated merge_run

merge_candidates-isbn_example :
    (undated.isbn13 ≡ some emma_isbn) × (undated.identity_key ≡ isbn_prefix ++ emma_isbn)
merge_candidates-isbn_example =
    merge_candidates-isbn (undated ∷ []) none undated undated emma_isbn merge_run (inl refl) refl

unify_run : unify_identity (undated ∷ []) ≡ ok (undated ∷ [])
unfolding unify_identity book_data_pipeline.Canonicalise.Merge.at_most_one
    book_data_pipeline.Canonicalise.Merge.onto_identity
    book_data_pipeline.Canonicalise.Merge.unified_key
unify_run = refl

unify_identity-AllMoved_example : (key : Text) × AllMoved key (undated ∷ []) (undated ∷ [])
unify_identity-AllMoved_example =
    unify_identity-AllMoved (undated ∷ []) (undated ∷ []) (undated_ok, tt) unify_run

two_filled : completeness undated ≡ 2
unfolding completeness
two_filled = refl
