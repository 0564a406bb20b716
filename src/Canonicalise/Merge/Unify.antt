-- ===== src/Canonicalise/Merge/Unify.antt =====
-- Several observations of one candidate on a single identity.
use book_data_pipeline.Base.{
  Text, true, Option, none, some, List, [], ◌∷◌, map, Among, All, All-among, collect-Source,
  text_eq, text_eq→≡, text_lt, ◌≡◌, refl, arith, inl, inr, Bool-cases, and_true, Result, ok,
  bind_ok,
}
use mathlib.Core.Path.{subst}
use book_data_pipeline.Base.Members.{among_set_of}
use book_data_pipeline.Domain.{
  CleanBook, clean_book_ok, fields_ok, identity_ok, is_isbn_identity, matches_isbn_pattern,
  if_present,
}
use book_data_pipeline.Domain.Validation.{
  is_identity, isbn_key-is_identity, isbn_identity_ok, fallback_identity_ok, isbn_prefix_of,
}
use book_data_pipeline.Canonicalise.Merge.{
  MergeError, conflicting_isbns, at_most_one, target_isbn_of, rank_lt, onto_identity, least_ranked,
  unified_key, filled_isbns, filled_or_none, unify_identity,
}

-- `b` is `a` moved to another identity.
pub record IsMoved (key : Text) (a b : CleanBook) : Type 0 where
  pub key_eq : b.identity_key ≡ key
  pub source_eq : b.source ≡ a.source
  pub source_id_eq : b.source_id ≡ a.source_id
  pub payload_eq : b.raw_payload ≡ a.raw_payload
  pub valid : clean_book_ok b ≡ true

target_ok :
    (key : Text) → is_identity key ≡ true → identity_ok key (target_isbn_of (some key)) ≡ true
unfolding target_isbn_of
target_ok key h = elim (Bool-cases (is_isbn_identity key)) [
  | inl isbn ↦ rw (isbn_prefix_of key isbn) (isbn_identity_ok key isbn)
  | inr other ↦ let (good, no_isbn) = fallback_identity_ok key (rw other at h) in rw no_isbn good
]

moved : (key : Text) (b : CleanBook) → CleanBook
moved key b = record b { identity_key = key; isbn13 = target_isbn_of (some key) }

moved-IsMoved :
    (key : Text) (b : CleanBook)
    → is_identity key ≡ true
    → clean_book_ok b ≡ true
    → IsMoved key b (moved key b)
unfolding moved clean_book_ok fields_ok
moved-IsMoved key b identity valid = record {
  key_eq = refl;
  source_eq = refl;
  source_id_eq = refl;
  payload_eq = refl;
  valid = rw (target_ok key identity) (and_true (identity_ok b.identity_key b.isbn13) _ valid).1;
}

pub onto_identity-IsMoved :
    (key : Text) (b : CleanBook)
    → is_identity key ≡ true
    → clean_book_ok b ≡ true
    → IsMoved key b (onto_identity key b)
unfolding onto_identity moved
onto_identity-IsMoved key b identity valid = elim (Bool-cases (text_eq b.identity_key key)) [
  | inl same ↦ rw same (record {
    key_eq = text_eq→≡ b.identity_key key same;
    source_eq = refl;
    source_id_eq = refl;
    payload_eq = refl;
    valid = valid;
  })
  | inr other ↦ rw other (moved-IsMoved key b identity valid)
]

-- Each of a list moved to the key, in order.
abbrev pub AllMoved : Text → List CleanBook → List CleanBook → Type 0
AllMoved key [] [] = Unit
AllMoved key [] (d ∷ ds) = ⊥
AllMoved key (c ∷ cs) [] = ⊥
AllMoved key (c ∷ cs) (d ∷ ds) = IsMoved key c d × AllMoved key cs ds

abbrev pub AllClean : List CleanBook → Type 0
AllClean = All (λ b. clean_book_ok b ≡ true)

pub all_moved :
    (key : Text) (cs : List CleanBook)
    → is_identity key ≡ true
    → AllClean cs
    → AllMoved key cs (map (onto_identity key) cs)
all_moved key [] identity clean = tt
all_moved key (c ∷ cs) identity clean =
    (onto_identity-IsMoved key c identity clean.0, all_moved key cs identity clean.1)

least_ranked-clean :
    (best : CleanBook) (cs : List CleanBook)
    → clean_book_ok best ≡ true
    → AllClean cs
    → clean_book_ok (least_ranked best cs) ≡ true
unfolding least_ranked
least_ranked-clean best [] h all_clean = h
least_ranked-clean best (c ∷ cs) h all_clean = elim (Bool-cases (rank_lt c best)) [
  | inl e ↦ rw e (least_ranked-clean c cs all_clean.0 all_clean.1)
  | inr e ↦ rw e (least_ranked-clean best cs h all_clean.1)
]

clean-identity : (b : CleanBook) → clean_book_ok b ≡ true → is_identity b.identity_key ≡ true
unfolding clean_book_ok identity_ok
clean-identity b h =
    (and_true _ _
      (and_true _ _ (and_true (identity_ok b.identity_key b.isbn13) (fields_ok b) h).0).0).0

clean-isbn :
    (b : CleanBook) (i : Text)
    → clean_book_ok b ≡ true
    → b.isbn13 ≡ some i
    → matches_isbn_pattern i ≡ true
unfolding clean_book_ok identity_ok
clean-isbn b i h e =
    let identity = (and_true (identity_ok b.identity_key b.isbn13) (fields_ok b) h).0 in
    let pattern : if_present matches_isbn_pattern b.isbn13 ≡ true =
      (and_true _ _ (and_true _ _ identity).0).1 in
    rw e at pattern

sole_among : (x : Text) (s : List Text) → at_most_one conflicting_isbns s ≡ ok (some x) → Among x s
unfolding at_most_one
sole_among x [] h = cc
sole_among x (y ∷ []) h = inl (cc)
sole_among x (y ∷ z ∷ s) h = cc

filled_isbn : (o : Option Text) (i : Text) → filled_or_none o ≡ some i → o ≡ some i
filled_isbn none i h = cc
filled_isbn (some j) i h = ground arith

clean_among :
    (b : CleanBook) (cs : List CleanBook) → AllClean cs → Among b cs → clean_book_ok b ≡ true
clean_among b cs = All-among (λ b. clean_book_ok b ≡ true) b cs

unified_key-is_identity :
    (first : CleanBook) (rest : List CleanBook) (o : Option Text)
    → AllClean (first ∷ rest)
    → at_most_one conflicting_isbns (filled_isbns (first ∷ rest)) ≡ ok o
    → is_identity (unified_key first rest o) ≡ true
unfolding unified_key
unified_key-is_identity first rest none all_clean h =
    clean-identity (least_ranked first rest) (least_ranked-clean first rest all_clean.0 all_clean.1)
unified_key-is_identity first rest (some i) all_clean h =
    let listed = among_set_of text_lt i _ (sole_among i (filled_isbns (first ∷ rest)) h) in
    let (b, in_cs, e) =
      collect-Source (λ (b : CleanBook). filled_or_none b.isbn13) i (first ∷ rest) listed in
    let shape =
      clean-isbn b i (clean_among b (first ∷ rest) all_clean in_cs) (filled_isbn b.isbn13 i e) in
    rw (isbn_key-is_identity i shape)

nil_ok :
    (ds : List CleanBook)
    → ◌≡◌ {A = Result MergeError (List CleanBook)} (ok []) (ok ds)
    → ◌≡◌ {A = List CleanBook} [] ds
nil_ok ds h = cc

-- Observations that are put on one identity keep their number, order, source, source id and payload,
-- all have the one key, and are clean books again.
pub unify_identity-AllMoved :
    (cs ds : List CleanBook)
    → AllClean cs
    → unify_identity cs ≡ ok ds
    → (key : Text) × AllMoved key cs ds
unfolding unify_identity
unify_identity-AllMoved [] ds all_clean h = ([], subst (AllMoved [] []) (nil_ok ds h) tt)
unify_identity-AllMoved (first ∷ rest) ds all_clean h =
    let (o, e, result) =
      bind_ok (at_most_one conflicting_isbns (filled_isbns (first ∷ rest))) _ ds h in
    let key = unified_key first rest o in
    let listed : map (onto_identity key) (first ∷ rest) ≡ ds = cc in
    (
      key,
      subst (AllMoved key (first ∷ rest)) listed (
          all_moved key (first ∷ rest) (unified_key-is_identity first rest o all_clean e)
            all_clean),
    )
