-- ===== src/Canonicalise/Merge/Fields.antt =====
-- What the merged record says: every answer that some candidate gave, and the identity.
use book_data_pipeline.Base.{
  Text, Bool, true, false, if◌then◌else◌, Option, none, some, or_option, List, [], ◌∷◌, ◌++◌, Among,
  text_lt, text_lt_total, ◌≡◌, refl, ap, sym, ◌∙◌, arith, inl, inr, Option-cases, ok, err, bind_ok,
}
use book_data_pipeline.Base.Sorting.{sort}
use book_data_pipeline.Base.Members.{among_sort, sort_among, set_of_among, collect_among}
use mathlib.Core.Path.{subst}
use book_data_pipeline.Identity.{isbn_prefix}
use book_data_pipeline.Domain.{CleanBook, clean_book_ok}
use book_data_pipeline.Canonicalise.Merge.{
  rank_lt, invalid_merge, conflicting_isbns, isbn_values, at_most_one, target_isbn_of,
  agree_on_isbn, final_key, first_some, resolve_fields, validated, merge_ordered, merge_nonempty,
  merge_candidates,
}

-- The stages of a merge that returns.
pub record MergeRun (candidates : List CleanBook) (target : Option Text) (m : CleanBook)
    : Type 0 where
  pub candidate_isbn : Option Text
  pub final_isbn : Option Text
  pub key : Text
  pub winner : CleanBook
  pub rest : List CleanBook
  pub one_isbn : at_most_one conflicting_isbns (isbn_values candidates) ≡ ok candidate_isbn
  pub agreed : agree_on_isbn candidate_isbn (target_isbn_of target) ≡ ok final_isbn
  pub keyed : final_key candidates final_isbn target ≡ ok key
  pub ordered : sort rank_lt candidates ≡ winner ∷ rest
  pub result : m ≡ resolve_fields winner rest key final_isbn
  pub valid : clean_book_ok m ≡ true

guard_ok :
    (c : Bool) (b m : CleanBook)
    → (if c then ok b else err invalid_merge) ≡ ok m
    → (c ≡ true) × (b ≡ m)
guard_ok true b m h = (refl, cc)
guard_ok false b m h = cc

ordered_run :
    (cs : List CleanBook) (key : Text) (isbn : Option Text) (m : CleanBook)
    → merge_ordered cs key isbn ≡ ok m
    → (w : CleanBook) × (rest : List CleanBook) × (cs ≡ w ∷ rest)
      × (m ≡ resolve_fields w rest key isbn)
      × (clean_book_ok m ≡ true)
unfolding merge_ordered validated
ordered_run [] key isbn m h = cc
ordered_run (w ∷ rest) key isbn m h =
    let (valid, e) =
      guard_ok (clean_book_ok (resolve_fields w rest key isbn)) (resolve_fields w rest key isbn) m
        h in
    (w, rest, refl, sym e, ap clean_book_ok (sym e) ∙ valid)

pub merge_run :
    (cs : List CleanBook) (target : Option Text) (m : CleanBook)
    → merge_candidates cs target ≡ ok m
    → MergeRun cs target m
unfolding merge_candidates merge_nonempty
merge_run [] target m h = cc
merge_run (c ∷ cs) target m h =
    let (ci, e1, h1) = bind_ok _ _ m h in
    let (fi, e2, h2) = bind_ok _ _ m h1 in
    let (k, e3, h3) = bind_ok _ _ m h2 in
    let (w, rest, e4, e5, e6) = ordered_run _ k fi m h3 in
    record {
      candidate_isbn = ci;
      final_isbn = fi;
      key = k;
      winner = w;
      rest = rest;
      one_isbn = e1;
      agreed = e2;
      keyed = e3;
      ordered = e4;
      result = e5;
      valid = e6;
    }

-- The merged field is absent only where no candidate has it, and present only as some candidate's.
pub record Answers {A : Type 0} (f : CleanBook → Option A) (candidates : List CleanBook)
    (m : CleanBook) : Type 0 where
  pub absent : f m ≡ none → (b : CleanBook) → Among b candidates → f b ≡ none
  pub present : (a : A) → f m ≡ some a → (b : CleanBook) × Among b candidates × (f b ≡ some a)

or_none_left : {A : Type 0} (a b : Option A) → or_option a b ≡ none → a ≡ none
or_none_left none b h = refl
or_none_left (some a) b h = cc

or_none_right : {A : Type 0} (a b : Option A) → or_option a b ≡ none → b ≡ none
or_none_right none b h = h
or_none_right (some a) b h = cc

module _ {A : Type 0} (f : CleanBook → Option A) where
  first_some-none :
      (bs : List CleanBook) (b : CleanBook) → first_some f bs ≡ none → Among b bs → f b ≡ none
  first_some-none [] b h m = absurd m
  first_some-none (c ∷ bs) b h (inl e) = ap f e ∙ or_none_left (f c) _ h
  first_some-none (c ∷ bs) b h (inr m) = first_some-none bs b (or_none_right (f c) _ h) m

  first_some-some :
      (bs : List CleanBook) (a : A)
      → first_some f bs ≡ some a
      → (b : CleanBook) × Among b bs × (f b ≡ some a)
  first_some-some [] a h = cc
  first_some-some (c ∷ bs) a h = elim (Option-cases (f c)) [
    | inl e ↦ let (b, m, k) = first_some-some bs a (rw e at h) in (b, inr m, k)
    | inr (v, e) ↦ (c, inl refl, e ∙ (rw e at h))
  ]

  answers :
      {cs : List CleanBook} {target : Option Text} {m : CleanBook} (run : MergeRun cs target m)
      → f m ≡ first_some f (run.winner ∷ run.rest)
      → Answers f cs m
  answers {cs} run e = record {
    absent = λ h b in_cs.
        first_some-none (run.winner ∷ run.rest) b (sym e ∙ h)
          (subst (Among b) run.ordered (sort_among rank_lt b cs in_cs));
    present = λ a h.
        let (b, in_sorted, k) = first_some-some (run.winner ∷ run.rest) a (sym e ∙ h) in
        (b, among_sort rank_lt b cs (subst (Among b) (sym run.ordered) in_sorted), k);
  }

-- The twelve fields of `_MERGEABLE_FIELDS`; a candidate always has a title and a normalised title.
pub record AnswersAll (candidates : List CleanBook) (m : CleanBook) : Type 0 where
  pub title : Answers (λ b. some b.title) candidates m
  pub normalised_title : Answers (λ b. some b.normalised_title) candidates m
  pub subtitle : Answers (λ b. b.subtitle) candidates m
  pub published_year : Answers (λ b. b.published_year) candidates m
  pub page_count : Answers (λ b. b.page_count) candidates m
  pub language : Answers (λ b. b.language) candidates m
  pub publisher : Answers (λ b. b.publisher) candidates m
  pub description : Answers (λ b. b.description) candidates m
  pub cover_url : Answers (λ b. b.cover_url) candidates m
  pub download_count : Answers (λ b. b.download_count) candidates m
  pub average_rating : Answers (λ b. b.goodreads_average_rating) candidates m
  pub first_author : Answers (λ b. b.normalised_first_author) candidates m

-- A sparse candidate blanks nothing: of each of the twelve fields that are resolved by themselves,
-- the merged record has a value exactly where some candidate has one, and it is the value of a
-- candidate.
pub merge_candidates-answers :
    (cs : List CleanBook) (target : Option Text) (m : CleanBook)
    → merge_candidates cs target ≡ ok m
    → AnswersAll cs m
unfolding resolve_fields
merge_candidates-answers cs target m h =
    let run = merge_run cs target m h in
    record {
      title = answers (λ b. some b.title) run (ap (λ b. some b.title) run.result);
      normalised_title =
          answers (λ b. some b.normalised_title) run (ap (λ b. some b.normalised_title) run.result);
      subtitle = answers (λ b. b.subtitle) run (ap (λ b. b.subtitle) run.result);
      published_year = answers (λ b. b.published_year) run (ap (λ b. b.published_year) run.result);
      page_count = answers (λ b. b.page_count) run (ap (λ b. b.page_count) run.result);
      language = answers (λ b. b.language) run (ap (λ b. b.language) run.result);
      publisher = answers (λ b. b.publisher) run (ap (λ b. b.publisher) run.result);
      description = answers (λ b. b.description) run (ap (λ b. b.description) run.result);
      cover_url = answers (λ b. b.cover_url) run (ap (λ b. b.cover_url) run.result);
      download_count = answers (λ b. b.download_count) run (ap (λ b. b.download_count) run.result);
      average_rating =
          answers (λ b. b.goodreads_average_rating) run
            (ap (λ b. b.goodreads_average_rating) run.result);
      first_author =
          answers (λ b. b.normalised_first_author) run
            (ap (λ b. b.normalised_first_author) run.result);
    }

sole_value :
    (x : Text) (s : List Text) (o : Option Text)
    → at_most_one conflicting_isbns s ≡ ok o
    → Among x s
    → o ≡ some x
unfolding at_most_one
sole_value x [] o h m = absurd m
sole_value x (y ∷ []) o h m = ground arith
sole_value x (y ∷ z ∷ s) o h m = cc

agreed_isbn :
    (i : Text) (target fi : Option Text) → agree_on_isbn (some i) target ≡ ok fi → fi ≡ some i
unfolding agree_on_isbn
agreed_isbn i none fi h = cc
agreed_isbn i (some t) fi h = ground arith

keyed_isbn :
    (cs : List CleanBook) (i : Text) (target : Option Text) (k : Text)
    → final_key cs (some i) target ≡ ok k
    → k ≡ isbn_prefix ++ i
unfolding final_key
keyed_isbn cs i target k h = cc

-- One candidate with an ISBN promotes the merged record to that ISBN, whatever key was retained.
pub merge_candidates-isbn :
    (cs : List CleanBook) (target : Option Text) (m b : CleanBook) (i : Text)
    → merge_candidates cs target ≡ ok m
    → Among b cs
    → b.isbn13 ≡ some i
    → (m.isbn13 ≡ some i) × (m.identity_key ≡ isbn_prefix ++ i)
unfolding resolve_fields
merge_candidates-isbn cs target m b i h in_cs e =
    let run = merge_run cs target m h in
    let listed =
      set_of_among text_lt text_lt_total i _
        (collect_among (λ (b : CleanBook). b.isbn13) b i cs in_cs e) in
    let found = sole_value i (isbn_values cs) run.candidate_isbn run.one_isbn listed in
    let final : run.final_isbn ≡ some i =
      agreed_isbn i (target_isbn_of target) run.final_isbn (rw found at run.agreed) in
    (
      ap (λ b. b.isbn13) run.result ∙ final,
      ap (λ b. b.identity_key) run.result ∙ keyed_isbn cs i target run.key (rw final at run.keyed),
    )
