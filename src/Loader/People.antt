-- ===== src/Loader/People.antt =====
-- load/postgres.py: the authors and the subjects of a book.
pub mod Kept
use book_data_pipeline.Base.{
  ℕ, suc, ◌+◌, Text, Bool, true, false, ◌&&◌, ◌==◌, if◌then◌else◌, Option, none, some, List, [],
  ◌∷◌, ◌++◌, collect, find_first, length, is_empty, text_eq, ℤ,
}
use book_data_pipeline.Platform.{Platform}
use book_data_pipeline.Normalise.Forms.{normalise_author, normalise_subject}
use book_data_pipeline.Domain.{SourceName, same_source, RawAuthor, CleanBook}
use book_data_pipeline.Loader.Tables.{
  Author, AuthorSource, BookAuthor, Subject, BookSubject, Catalogue, upsert, insert_all, coalesce,
  set_default,
}

-- An author as the first candidate that names it gives it.
pub record Seen : Type 0 where
  pub author : RawAuthor
  pub source : SourceName
  pub position : ℕ

module _ (p : Platform) where
  -- The loop over the authors of one candidate, from a position on.
  pub see_authors : SourceName → ℕ → List RawAuthor → List (Text × Seen) → List (Text × Seen)
  see_authors source position [] seen = seen
  see_authors source position (a ∷ rest) seen =
      see_authors source (suc position) rest (elim (normalise_author p.unicode (some a.name)) [
        | none ↦ seen
        | some key ↦
            set_default key (record { author = a; source = source; position = position }) seen
      ])

  -- `seen`, by its keys
  pub seen_authors : List CleanBook → List (Text × Seen) → List (Text × Seen)
  unfolding see_authors
  seen_authors [] seen = seen
  seen_authors (c ∷ rest) seen = seen_authors rest (see_authors c.source 0 c.authors seen)

  -- `wanted`, by its keys
  pub wanted_subjects : List Text → List (Text × Text) → List (Text × Text)
  wanted_subjects [] wanted = wanted
  wanted_subjects (name ∷ rest) wanted =
      wanted_subjects rest (elim (normalise_subject p.unicode (some name)) [
        | none ↦ wanted
        | some key ↦ set_default key name wanted
      ])

pub same_author : Author → Author → Bool
same_author a b = text_eq a.normalized_name b.normalized_name

-- A lifespan that is known is kept.
pub merged_author : Author → Author → Author
merged_author old excluded = record old {
  birth_year = coalesce old.birth_year excluded.birth_year;
  death_year = coalesce old.death_year excluded.death_year;
}

-- The multi-row upsert of authors: each row takes an id from the sequence.
pub upsert_authors : ℕ → List (Text × Seen) → List Author → List Author
unfolding same_author merged_author
upsert_authors next [] authors = authors
upsert_authors next ((key, seen) ∷ rest) authors = upsert_authors (suc next) rest (
    upsert same_author merged_author
      (record {
        id = next;
        name = seen.author.name;
        normalized_name = key;
        birth_year = seen.author.birth_year;
        death_year = seen.author.death_year;
      })
      authors)

-- `author_ids[key]`; every key of the statement comes back.
pub author_id_of : List Author → Text → Option ℕ
author_id_of authors key =
    elim (find_first (λ (a : Author). text_eq a.normalized_name key) authors) [
      | none ↦ none
      | some a ↦ some a.id
    ]

pub author_link : ℕ → List Author → Text × Seen → Option BookAuthor
unfolding author_id_of
author_link book_id authors (key, seen) = elim (author_id_of authors key) [
  | none ↦ none
  | some id ↦ some (record { book_id = book_id; author_id = id; position = seen.position })
]

pub author_source : List Author → Text × Seen → Option AuthorSource
unfolding author_id_of
author_source authors (key, seen) = elim seen.author.source_author_id [
  | none ↦ none
  | some i ↦ if is_empty i then none else elim (author_id_of authors key) [
    | none ↦ none
    | some id ↦ some (record {
      author_id = id;
      source = seen.source;
      source_author_id = i;
      source_birth_year = seen.author.birth_year;
      source_death_year = seen.author.death_year;
    })
  ]
]

unfoldable pub same_book_author : BookAuthor → BookAuthor → Bool
same_book_author a b = a.book_id == b.book_id && a.author_id == b.author_id

pub same_author_source : AuthorSource → AuthorSource → Bool
same_author_source a b =
    same_source a.source b.source && text_eq a.source_author_id b.source_author_id

-- `_sync_authors`; where no author is seen, each statement writes nothing.
pub sync_authors : Platform → ℕ → List CleanBook → Catalogue → Catalogue
unfolding seen_authors upsert_authors author_link author_source same_book_author same_author_source
sync_authors p book_id candidates db =
    let seen = seen_authors p candidates [] in
    let authors' = upsert_authors db.next_id seen db.authors in
    record db {
      authors = authors';
      book_authors =
          insert_all same_book_author (collect (author_link book_id authors') seen) db.book_authors;
      author_sources =
          insert_all same_author_source (collect (author_source authors') seen) db.author_sources;
      next_id = db.next_id + length seen;
    }

pub same_subject : Subject → Subject → Bool
same_subject a b = text_eq a.normalized_name b.normalized_name

-- The multi-row upsert of subjects, whose update is a no-op.
pub upsert_subjects : ℕ → List (Text × Text) → List Subject → List Subject
unfolding same_subject
upsert_subjects next [] subjects = subjects
upsert_subjects next ((key, name) ∷ rest) subjects = upsert_subjects (suc next) rest (
    upsert same_subject (λ old excluded. old)
      (record { id = next; name = name; normalized_name = key }) subjects)

pub subject_link : ℕ → List Subject → Text × Text → Option BookSubject
subject_link book_id subjects (key, name) =
    elim (find_first (λ (s : Subject). text_eq s.normalized_name key) subjects) [
      | none ↦ none
      | some s ↦ some (record { book_id = book_id; subject_id = s.id })
    ]

unfoldable pub same_book_subject : BookSubject → BookSubject → Bool
same_book_subject a b = a.book_id == b.book_id && a.subject_id == b.subject_id

-- `_sync_subjects`
pub sync_subjects : Platform → ℕ → List Text → Catalogue → Catalogue
unfolding wanted_subjects upsert_subjects subject_link same_book_subject
sync_subjects p book_id names db =
    let wanted = wanted_subjects p names [] in
    let subjects' = upsert_subjects db.next_id wanted db.subjects in
    record db {
      subjects = subjects';
      book_subjects =
          insert_all same_book_subject (collect (subject_link book_id subjects') wanted)
            db.book_subjects;
      next_id = db.next_id + length wanted;
    }
