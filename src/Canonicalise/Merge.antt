-- ===== src/Canonicalise/Merge.antt =====
-- `merge_candidates` and `unify_identity` of transform/canonicalise.py.
mod Tests
pub mod Order
pub mod Fields
pub mod Unify
use book_data_pipeline.Base.{
  ℕ, zero, suc, ◌+◌, Text, codes, Bool, true, false, not, ◌&&◌, ◌||◌, ◌==◌, ltb, if◌then◌else◌,
  Option, none, some, is_some, or_option, List, [], ◌∷◌, ◌++◌, map, collect, any, find_first,
  length, is_empty, starts_with, after_prefix, text_eq, text_lt, Result, ok, err, ◌>>=◌, ℤ,
}
use book_data_pipeline.Base.Sorting.{sort, set_of}
use book_data_pipeline.Identity.{isbn_prefix}
use book_data_pipeline.Domain.{
  SourceName, goodreads, googlebooks, openlibrary, gutendex, Decimal, CleanSeriesMembership,
  CleanBook, clean_book_ok,
}

-- `SOURCE_PRIORITY`
pub source_priority : SourceName → ℕ
source_priority goodreads = 0
source_priority googlebooks = 1
source_priority openlibrary = 2
source_priority gutendex = 3

-- Python's truth of a field: an empty text or list and a zero are false.
abbrev pub truth : {A : Type 0} → (A → Bool) → Option A → ℕ
truth p none = 0
truth p (some a) = if p a then 1 else 0

abbrev pub filled : {A : Type 0} → List A → Bool
filled xs = not (is_empty xs)

-- A text that is true.
abbrev pub filled_or_none : Option Text → Option Text
filled_or_none none = none
filled_or_none (some t) = if is_empty t then none else some t

abbrev pub nonzero : ℤ → Bool
nonzero (ℤ.pos n) = not (n == 0)
nonzero (ℤ.negsuc n) = true

abbrev pub count_if : Bool → ℕ
count_if b = if b then 1 else 0

-- `_completeness`, over `_COMPLETENESS_FIELDS`
pub completeness : CleanBook → ℕ
completeness b =
    count_if (filled b.title)
    + count_if (filled b.normalised_title)
    + truth filled b.subtitle
    + truth (λ y. not (y == 0)) b.published_year
    + truth nonzero b.page_count
    + truth filled b.language
    + truth filled b.publisher
    + truth filled b.description
    + truth filled b.cover_url
    + truth (λ n. not (n == 0)) b.download_count
    + truth (λ (d : Decimal). not (d.coefficient == 0)) b.goodreads_average_rating
    + truth filled b.normalised_first_author
    + count_if (filled b.authors)
    + count_if (filled b.subjects)
    + count_if (filled b.series)

-- The order of the keys `_rank`: the fuller record first, then the source, then the source id.
pub rank_lt : CleanBook → CleanBook → Bool
rank_lt a b =
    if ltb (completeness b) (completeness a)
    then true
    else if ltb (completeness a) (completeness b)
    then false
    else if ltb (source_priority a.source) (source_priority b.source)
    then true
    else if ltb (source_priority b.source) (source_priority a.source)
    then false
    else text_lt a.source_id b.source_id

-- The exceptions that the source raises as `ValueError`, and pydantic's on the merged record.
pub data MergeError : Type 0 where
  no_candidates : MergeError
  conflicting_isbns : List Text → MergeError
  target_conflict : Text → Text → MergeError
  unrelated_identities : List Text → MergeError
  invalid_merge : MergeError

-- `{book.isbn13 for book in candidates if book.isbn13 is not None}`
abbrev pub isbn_values : List CleanBook → List Text
isbn_values candidates = set_of text_lt (collect (λ (b : CleanBook). b.isbn13) candidates)

-- `{book.identity_key for book in candidates}`
abbrev pub identities : List CleanBook → List Text
identities candidates = set_of text_lt (map (λ (b : CleanBook). b.identity_key) candidates)

-- At most one value, or an error with all of them.
pub at_most_one : (List Text → MergeError) → List Text → Result MergeError (Option Text)
at_most_one e [] = ok none
at_most_one e (x ∷ []) = ok (some x)
at_most_one e (x ∷ y ∷ rest) = err (e (x ∷ y ∷ rest))

-- The ISBN of a target key, if it is an ISBN key.
pub target_isbn_of : Option Text → Option Text
target_isbn_of none = none
target_isbn_of (some key) =
    if starts_with key isbn_prefix then some (after_prefix key isbn_prefix) else none

-- Whether the candidates' ISBN and the target's contradict one another.
pub agree_on_isbn : Option Text → Option Text → Result MergeError (Option Text)
agree_on_isbn none target = ok target
agree_on_isbn (some i) none = ok (some i)
agree_on_isbn (some i) (some t) = if text_eq i t then ok (some i) else err (target_conflict i t)

-- `final_identity_key`
pub final_key : List CleanBook → Option Text → Option Text → Result MergeError Text
final_key candidates (some isbn) target = ok (isbn_prefix ++ isbn)
final_key candidates none (some key) = ok key
final_key candidates none none = at_most_one unrelated_identities (identities candidates) >>= λ key.
    elim key [ none ↦ err no_candidates | some k ↦ ok k ]

-- The first value of a field that is not `None`, in rank order.
abbrev pub first_some : {A : Type 0} → (CleanBook → Option A) → List CleanBook → Option A
first_some f [] = none
first_some f (b ∷ rest) = or_option (f b) (first_some f rest)

-- `next((b for b in ordered if p(b)), winner)`
abbrev pub first_or : (CleanBook → Bool) → CleanBook → List CleanBook → CleanBook
first_or p winner [] = winner
first_or p winner (b ∷ rest) = if p b then b else first_or p winner rest

abbrev pub has_confirmed : CleanBook → Bool
has_confirmed b = any (λ (m : CleanSeriesMembership). m.confirmed) b.series

-- The merged record, over the candidates in rank order with the winner first.
pub resolve_fields : CleanBook → List CleanBook → Text → Option Text → CleanBook
resolve_fields winner rest key isbn =
    let ordered = winner ∷ rest in
    let with_authors = first_or (λ b. filled b.authors) winner ordered in
    let with_subjects = first_or (λ b. filled b.subjects) winner ordered in
    let with_series = first_or (λ b. filled b.series) winner ordered in
    let with_best_series = first_or has_confirmed with_series ordered in
    record winner {
      identity_key = key;
      isbn13 = isbn;
      subtitle = first_some (λ b. b.subtitle) ordered;
      published_year = first_some (λ b. b.published_year) ordered;
      page_count = first_some (λ b. b.page_count) ordered;
      language = first_some (λ b. b.language) ordered;
      publisher = first_some (λ b. b.publisher) ordered;
      description = first_some (λ b. b.description) ordered;
      cover_url = first_some (λ b. b.cover_url) ordered;
      download_count = first_some (λ b. b.download_count) ordered;
      goodreads_average_rating = first_some (λ b. b.goodreads_average_rating) ordered;
      normalised_first_author = first_some (λ b. b.normalised_first_author) ordered;
      authors = with_authors.authors;
      subjects = with_subjects.subjects;
      series = with_best_series.series;
    }

-- `CleanBook.model_validate(...)`
pub validated : CleanBook → Result MergeError CleanBook
validated book = if clean_book_ok book then ok book else err invalid_merge

pub merge_ordered : List CleanBook → Text → Option Text → Result MergeError CleanBook
merge_ordered [] key isbn = err no_candidates
merge_ordered (winner ∷ rest) key isbn = validated (resolve_fields winner rest key isbn)

pub merge_nonempty : List CleanBook → Option Text → Result MergeError CleanBook
merge_nonempty candidates target = do
  candidate_isbn ← at_most_one conflicting_isbns (isbn_values candidates)
  final_isbn ← agree_on_isbn candidate_isbn (target_isbn_of target)
  key ← final_key candidates final_isbn target
  merge_ordered (sort rank_lt candidates) key final_isbn

pub merge_candidates : List CleanBook → Option Text → Result MergeError CleanBook
merge_candidates candidates target =
    if is_empty candidates then err no_candidates else merge_nonempty candidates target

-- One candidate put on a key.
pub onto_identity : Text → CleanBook → CleanBook
onto_identity target b =
    if text_eq b.identity_key target
    then b
    else record b { identity_key = target; isbn13 = target_isbn_of (some target) }

-- `min(candidates, key=_rank)`: the first of the least.
pub least_ranked : CleanBook → List CleanBook → CleanBook
least_ranked best [] = best
least_ranked best (b ∷ rest) = least_ranked (if rank_lt b best then b else best) rest

-- The key that `unify_identity` puts everything on.
pub unified_key : CleanBook → List CleanBook → Option Text → Text
unified_key first rest (some isbn) = isbn_prefix ++ isbn
unified_key first rest none = (least_ranked first rest).identity_key

-- `{c.isbn13 for c in candidates if c.isbn13}`
abbrev pub filled_isbns : List CleanBook → List Text
filled_isbns candidates =
    set_of text_lt (collect (λ (b : CleanBook). filled_or_none b.isbn13) candidates)

pub unify_identity : List CleanBook → Result MergeError (List CleanBook)
unify_identity [] = ok []
unify_identity (first ∷ rest) = do
  isbn ← at_most_one conflicting_isbns (filled_isbns (first ∷ rest))
  let target = unified_key first rest isbn
  ok (map (onto_identity target) (first ∷ rest))
