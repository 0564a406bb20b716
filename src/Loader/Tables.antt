-- ===== src/Loader/Tables.antt =====
-- The tables that load/postgres.py writes, as models/db.py declares them, and the statements it
-- uses. One writer at a time: a transaction reads what it wrote, and `now` is its time. A row that
-- an insert makes gets the next id. The checks of a column's format hold by the validation of a
-- clean book; the check that an author's years are in order, which a merge of two sources can
-- break, is left out.
use book_data_pipeline.Base.{
  ℕ, Text, Bool, not, if◌then◌else◌, Option, none, some, List, [], ◌∷◌, ◌++◌, any, keep, text_lt, ℤ,
  ◌≡◌, ◌∙◌, Result, ok, err, ◌>>=◌,
}
use mathlib.Core.Path.{subst}
use book_data_pipeline.Identity.Document.{Fields}
use book_data_pipeline.Domain.{SourceName, Decimal, RawBook}
use book_data_pipeline.Identity.{IdentityError}
use book_data_pipeline.Series.{SeriesError}
use book_data_pipeline.Canonicalise.Merge.{MergeError}

-- `books`
pub record Book : Type 0 where
  pub id : ℕ
  pub identity_key : Text
  pub isbn13 : Option Text
  pub title : Text
  pub subtitle : Option Text
  pub published_year : Option ℕ
  pub publisher : Option Text
  pub page_count : Option ℤ
  pub download_count : Option ℕ
  pub goodreads_average_rating : Option Decimal
  pub language : Option Text
  pub description : Option Text
  pub cover_url : Option Text
  pub series_search_text : Text
  pub content_hash : Text
  pub updated_at : ℕ

-- `book_sources`
pub record BookSource : Type 0 where
  pub book_id : ℕ
  pub source : SourceName
  pub source_id : Text
  pub source_updated : Option ℕ
  pub raw_payload : Fields
  pub payload_hash : Text
  pub first_seen_at : ℕ
  pub last_seen_at : ℕ

-- `authors`
pub record Author : Type 0 where
  pub id : ℕ
  pub name : Text
  pub normalized_name : Text
  pub birth_year : Option ℤ
  pub death_year : Option ℤ

-- `author_sources`
pub record AuthorSource : Type 0 where
  pub author_id : ℕ
  pub source : SourceName
  pub source_author_id : Text
  pub source_birth_year : Option ℤ
  pub source_death_year : Option ℤ

-- `book_authors`
pub record BookAuthor : Type 0 where
  pub book_id : ℕ
  pub author_id : ℕ
  pub position : ℕ

-- `subjects`
pub record Subject : Type 0 where
  pub id : ℕ
  pub name : Text
  pub normalized_name : Text

-- `book_subjects`
pub record BookSubject : Type 0 where
  pub book_id : ℕ
  pub subject_id : ℕ

-- `series`
pub record Serial : Type 0 where
  pub id : ℕ
  pub identity_key : Text
  pub name : Text
  pub normalized_name : Text

-- `series_sources`
pub record SerialSource : Type 0 where
  pub series_id : ℕ
  pub source : SourceName
  pub source_series_id : Text
  pub raw_payload : Fields
  pub payload_hash : Text

-- `book_series`
pub record BookSerial : Type 0 where
  pub book_id : ℕ
  pub series_id : ℕ
  pub position : Option Decimal
  pub confirmed : Bool

-- `book_series_sources`
pub record BookSerialSource : Type 0 where
  pub book_id : ℕ
  pub series_id : ℕ
  pub source : SourceName
  pub source_book_id : Text
  pub source_series_id : Text
  pub position : Option Decimal
  pub confirmed : Bool
  pub raw_payload : Fields

-- The catalogue, and the id that the next new row gets.
pub record Catalogue : Type 0 where
  pub books : List Book
  pub book_sources : List BookSource
  pub authors : List Author
  pub author_sources : List AuthorSource
  pub book_authors : List BookAuthor
  pub subjects : List Subject
  pub book_subjects : List BookSubject
  pub series : List Serial
  pub series_sources : List SerialSource
  pub book_series : List BookSerial
  pub book_series_sources : List BookSerialSource
  pub next_id : ℕ

-- `LoadResult`; the loader never fills its list of rejections.
pub record LoadResult : Type 0 where
  pub books_inserted : ℕ
  pub books_updated : ℕ
  pub books_unchanged : ℕ
  pub sources_linked : ℕ
  pub merges : ℕ
  pub rejected : ℕ

-- What aborts a transaction.
pub data LoadError : Type 0 where
  no_row multiple_rows unique_violation foreign_key_violation repeated_row : LoadError
  merge_raised : MergeError → LoadError
  identity_raised : IdentityError → LoadError
  series_raised : SeriesError → LoadError

-- What the loader takes from elsewhere: `map_payload`, `none` for a rejection; the database's order
-- of texts; `str` of a number.
pub record Database : Type 0 where
  pub map_payload : SourceName → Fields → Option RawBook
  pub collate : Text → Text → Bool
  pub decimal_text : Decimal → Text
  pub integer_text : ℤ → Text

-- `UPDATE ... WHERE`
abbrev pub update_where : {A : Type 0} → (A → Bool) → (A → A) → List A → List A
update_where test f [] = []
update_where test f (x ∷ xs) = (if test x then f x else x) ∷ update_where test f xs

-- `DELETE ... WHERE`
abbrev pub delete_where : {A : Type 0} → (A → Bool) → List A → List A
delete_where test = keep (λ x. not (test x))

-- `INSERT ... ON CONFLICT DO UPDATE` of one row: `same` compares the conflict columns and `merge`
-- takes the old row and the excluded one.
abbrev pub upsert : {A : Type 0} → (A → A → Bool) → (A → A → A) → A → List A → List A
upsert same merge row [] = row ∷ []
upsert same merge row (x ∷ xs) =
    let rest = upsert same merge row xs in if same x row then merge x row ∷ xs else x ∷ rest

-- `INSERT ... ON CONFLICT DO NOTHING` of one row
abbrev pub insert_new : {A : Type 0} → (A → A → Bool) → A → List A → List A
insert_new same row xs = if any (λ x. same x row) xs then xs else xs ++ row ∷ []

abbrev pub insert_all : {A : Type 0} → (A → A → Bool) → List A → List A → List A
insert_all same [] xs = xs
insert_all same (row ∷ rows) xs = insert_all same rows (insert_new same row xs)

-- `coalesce(a, b)`
abbrev pub coalesce : {A : Type 0} → Option A → Option A → Option A
coalesce (some a) b = some a
coalesce none b = b

-- `dict.setdefault` into a dictionary that is listed by its keys.
abbrev pub set_default : {V : Type 0} → Text → V → List (Text × V) → List (Text × V)
set_default key value [] = (key, value) ∷ []
set_default key value ((k, v) ∷ rest) =
    let later = set_default key value rest in
    if text_lt key k
    then (key, value) ∷ (k, v) ∷ rest
    else if text_lt k key
    then (k, v) ∷ later
    else (k, v) ∷ rest

-- Two states of the catalogue with the same books and the same sources.
pub record IsKept (before after : Catalogue) : Type 0 where
  pub books_eq : after.books ≡ before.books
  pub sources_eq : after.book_sources ≡ before.book_sources

pub IsKept_trans : (a b c : Catalogue) → IsKept a b → IsKept b c → IsKept a c
IsKept_trans a b c h k = record {
  books_eq = k.books_eq ∙ h.books_eq;
  sources_eq = k.sources_eq ∙ h.sources_eq;
}

-- Whatever catalogue a result holds has the same books and the same sources.
abbrev pub IsKeeping : {A : Type 0} → (A → Catalogue) → Catalogue → Result LoadError A → Type 0
IsKeeping of before (ok a) = IsKept before (of a)
IsKeeping of before (err e) = Unit

pub after_kept :
    {B : Type 0} (of : B → Catalogue) (a b : Catalogue) (m : Result LoadError B)
    → IsKept a b
    → IsKeeping of b m
    → IsKeeping of a m
after_kept of a b (ok x) h k = IsKept_trans a b (of x) h k
after_kept of a b (err e) h k = tt

pub IsKeeping-bind :
    {A B : Type 0} (of : A → Catalogue) (of' : B → Catalogue) (before : Catalogue)
    (m : Result LoadError A) (f : A → Result LoadError B)
    → IsKeeping of before m
    → ((a : A) → IsKeeping of' (of a) (f a))
    → IsKeeping of' before (m >>= f)
IsKeeping-bind of of' before (ok a) f h k = after_kept of' before (of a) (f a) h (k a)
IsKeeping-bind of of' before (err e) f h k = tt

pub IsKeeping_ok :
    {A : Type 0} (of : A → Catalogue) (before : Catalogue) (m : Result LoadError A) (a : A)
    → IsKeeping of before m
    → m ≡ ok a
    → IsKept before (of a)
IsKeeping_ok of before (ok b) a h e = subst (λ m. IsKeeping of before m) e h
IsKeeping_ok of before (err x) a h e = cc
