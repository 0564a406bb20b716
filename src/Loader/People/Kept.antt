-- ===== src/Loader/People/Kept.antt =====
-- The synchronisation of authors and subjects leaves the books and their sources alone.
use book_data_pipeline.Base.{ℕ, Text, List, refl}
use book_data_pipeline.Platform.{Platform}
use book_data_pipeline.Domain.{CleanBook}
use book_data_pipeline.Loader.Tables.{Catalogue, IsKept}
use book_data_pipeline.Loader.People.{sync_authors, sync_subjects}

pub sync_authors-IsKept :
    (p : Platform) (id : ℕ) (cs : List CleanBook) (db : Catalogue)
    → IsKept db (sync_authors p id cs db)
unfolding sync_authors
sync_authors-IsKept p id cs db = record { books_eq = refl; sources_eq = refl }

pub sync_subjects-IsKept :
    (p : Platform) (id : ℕ) (names : List Text) (db : Catalogue)
    → IsKept db (sync_subjects p id names db)
unfolding sync_subjects
sync_subjects-IsKept p id names db = record { books_eq = refl; sources_eq = refl }
