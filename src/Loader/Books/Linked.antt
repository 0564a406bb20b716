-- ===== src/Loader/Books/Linked.antt =====
-- Every source row refers to a book that the catalogue has.
use book_data_pipeline.Base.{
  ℕ, Bool, true, false, ◌||◌, ◌==◌, some, List, [], ◌∷◌, ◌++◌, find_first, All, ◌≡◌, refl, ap,
  arith, ◌⊎◌, inl, inr, Bool-cases,
}
use mathlib.Core.Path.{subst}
use book_data_pipeline.Loader.Tables.{
  Book, BookSource, Catalogue, update_where, delete_where, upsert,
}

abbrev pub has_id : List Book → ℕ → Bool
has_id [] i = false
has_id (b ∷ books) i = b.id == i || has_id books i

-- The rows refer to books that there are.
abbrev pub AreLinked : List Book → List BookSource → Type 0
AreLinked books = All (λ (r : BookSource). has_id books r.book_id ≡ true)

abbrev pub IsLinked : Catalogue → Type 0
IsLinked db = AreLinked db.books db.book_sources

pub has_id-update_where :
    (test : Book → Bool) (f : Book → Book) (books : List Book) (i : ℕ)
    → ((b : Book) → (f b).id ≡ b.id)
    → has_id (update_where test f books) i ≡ has_id books i
has_id-update_where test f [] i same = refl
has_id-update_where test f (b ∷ books) i same =
    let rest = has_id-update_where test f books i same in
    elim (Bool-cases (test b)) [ inl e ↦ rw (e, same b, rest) refl | inr e ↦ rw (e, rest) refl ]

pub has_id-append :
    (books : List Book) (b : Book) (i : ℕ)
    → has_id (books ++ b ∷ []) i ≡ (has_id books i || b.id == i)
has_id-append [] b i = ground arith
has_id-append (x ∷ books) b i = let rest = has_id-append books b i in ground arith

or_right : (a b : Bool) → a ≡ false → (a || b) ≡ true → b ≡ true
or_right true b h k = cc
or_right false b h k = k

or_true : (a b : Bool) → b ≡ true → (a || b) ≡ true
or_true true b h = refl
or_true false b h = h

first_step :
    {A : Type 0} (test : A → Bool) (x : A) (xs : List A) (y : A)
    → find_first test (x ∷ xs) ≡ some y
    → ((test x ≡ true) × (x ≡ y)) ⊎ (find_first test xs ≡ some y)
first_step test x xs y h = ground arith

pub has_id-delete :
    (books : List Book) (orphan i : ℕ)
    → (i == orphan) ≡ false
    → has_id books i ≡ true
    → has_id (delete_where (λ b. b.id == orphan) books) i ≡ true
has_id-delete [] orphan i h k = k
has_id-delete (b ∷ books) orphan i h k =
    let rest = has_id-delete books orphan i h in
    elim (Bool-cases (b.id == orphan)) [
      | inl e ↦
          let apart : (b.id == i) ≡ false = ground arith in
          rw e (rest (or_right (b.id == i) (has_id books i) apart k))
      | inr e ↦ rw e (ground arith)
    ]

pub AreLinked-mono :
    (books books' : List Book) (rows : List BookSource)
    → ((i : ℕ) → has_id books i ≡ true → has_id books' i ≡ true)
    → AreLinked books rows
    → AreLinked books' rows
AreLinked-mono books books' [] h all = tt
AreLinked-mono books books' (r ∷ rows) h all =
    (h r.book_id all.0, AreLinked-mono books books' rows h all.1)

-- Rows that move from an orphan to a survivor still refer to a book once the orphan is deleted.
pub AreLinked-moved :
    (survivor orphan : ℕ) (books : List Book) (rows : List BookSource)
    → (survivor == orphan) ≡ false
    → has_id books survivor ≡ true
    → AreLinked books rows
    → AreLinked (delete_where (λ b. b.id == orphan) books) (
        delete_where
          (λ (r : BookSource). r.book_id == orphan)
          (update_where
            (λ (r : BookSource). r.book_id == orphan)
            (λ r. record r { book_id = survivor })
            rows))
AreLinked-moved survivor orphan books [] apart has all = tt
AreLinked-moved survivor orphan books (r ∷ rows) apart has all =
    let rest = AreLinked-moved survivor orphan books rows apart has all.1 in
    elim (Bool-cases (r.book_id == orphan)) [
      | inl e ↦ rw (e, apart) (has_id-delete books orphan survivor apart has, rest)
      | inr e ↦ rw (e, e) (has_id-delete books orphan r.book_id e all.0, rest)
    ]

pub AreLinked-upsert :
    (same : BookSource → BookSource → Bool) (over : BookSource → BookSource → BookSource)
    (row : BookSource) (books : List Book) (rows : List BookSource)
    → ((old : BookSource) → (over old row).book_id ≡ row.book_id)
    → has_id books row.book_id ≡ true
    → AreLinked books rows
    → AreLinked books (upsert same over row rows)
AreLinked-upsert same over row books [] keeps has all = (has, tt)
AreLinked-upsert same over row books (r ∷ rows) keeps has all =
    let rest = AreLinked-upsert same over row books rows keeps has all.1 in
    elim (Bool-cases (same r row)) [
      | inl e ↦ rw e (rw (keeps r) has, all.1)
      | inr e ↦ rw e (all.0, rest)
    ]

pub has_id-found :
    (i : ℕ) (books : List Book) (b : Book)
    → find_first (λ (x : Book). x.id == i) books ≡ some b
    → has_id books i ≡ true
has_id-found i [] b h = cc
has_id-found i (x ∷ books) b h = let rest = has_id-found i books b in ground arith

pub has_id-first :
    (test : Book → Bool) (books : List Book) (b : Book)
    → find_first test books ≡ some b
    → has_id books b.id ≡ true
has_id-first test [] b h = cc
has_id-first test (x ∷ books) b h = elim (first_step test x books b h) [
  | inl (e, same) ↦ let same_id : x.id ≡ b.id = ap (λ y. y.id) same in ground arith
  | inr later ↦ or_true (x.id == b.id) (has_id books b.id) (has_id-first test books b later)
]

pub AreLinked-first :
    (test : BookSource → Bool) (books : List Book) (rows : List BookSource) (r : BookSource)
    → AreLinked books rows
    → find_first test rows ≡ some r
    → has_id books r.book_id ≡ true
AreLinked-first test books [] r all h = cc
AreLinked-first test books (x ∷ rows) r all h = elim (first_step test x rows r h) [
  | inl (e, same) ↦ subst (λ y. has_id books y.book_id ≡ true) same all.0
  | inr later ↦ AreLinked-first test books rows r all.1 later
]
