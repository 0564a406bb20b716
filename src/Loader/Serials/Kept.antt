-- ===== src/Loader/Serials/Kept.antt =====
-- The synchronisation of series leaves the sources alone, and of the books it writes only the
-- projection of series names.
use book_data_pipeline.Base.{
  ℕ, Text, Bool, true, false, ◌&&◌, ◌==◌, if◌then◌else◌, List, [], ◌∷◌, ◌⊎◌, is_empty, ◌≡◌, ◌∙◌, ap,
  sym, refl, inl, inr, Option-cases, ok, ◌>>=◌, bind_ok, arith,
}
use book_data_pipeline.Series.{series_search_text}
use book_data_pipeline.Platform.{Platform}
use book_data_pipeline.Domain.{SourceName, CleanBook, CleanSeriesMembership}
use book_data_pipeline.Loader.Tables.{
  Catalogue, Database, update_where, IsKept, IsKeeping, IsKeeping-bind, IsKeeping_ok, after_kept,
}
use book_data_pipeline.Loader.Serials.{
  absorb, absorb_inferred_series, inferred_serials, upsert_series, written_series, id_of_serial,
  is_named, link_series, link_all, record_series_source, link_series_source, account, accounts_of,
  all_accounts, refresh_series_search_text, series_names, refreshed, linked, sync_series,
  best_series, lookup, put,
}

kept : (db : Catalogue) → IsKept db db
kept db = record { books_eq = refl; sources_eq = refl }

-- A list is empty, a single element, or longer.
list_cases :
    {A : Type 0} (xs : List A)
    → (xs ≡ []) ⊎ (((x : A) × (xs ≡ x ∷ [])) ⊎ ((x y : A) × (ys : List A) × (xs ≡ x ∷ y ∷ ys)))
list_cases [] = inl refl
list_cases (x ∷ []) = inr (inl (x, refl))
list_cases (x ∷ y ∷ ys) = inr (inr (x, y, ys, refl))

absorb_inferred_series-IsKeeping :
    (id : ℕ) (name : Text) (db : Catalogue)
    → IsKeeping (λ c. c) db (absorb_inferred_series id name db)
unfolding absorb_inferred_series absorb
absorb_inferred_series-IsKeeping id name db =
    elim (list_cases (inferred_serials id name db.series)) [
      | inl e ↦ rw (e, absorb_inferred_series) (kept db)
      | inr (inl (x, e)) ↦
          rw (e, absorb_inferred_series) (record { books_eq = refl; sources_eq = refl })
      | inr (inr (x, y, ys, e)) ↦ rw (e, absorb_inferred_series) tt
    ]

upserted-IsKeeping :
    (named : Bool) (id : ℕ) (name : Text) (db : Catalogue)
    → IsKeeping
        (λ (out : ℕ × Catalogue). out.1)
        db
        (if named
          then (absorb_inferred_series id name db >>= λ after. ok (id, after))
          else ok (id, db))
upserted-IsKeeping true id name db =
    IsKeeping-bind (λ c. c) (λ out. out.1) db (absorb_inferred_series id name db) _
      (absorb_inferred_series-IsKeeping id name db) (λ after. kept after)
upserted-IsKeeping false id name db = kept db

written-IsKept : (m : CleanSeriesMembership) (db : Catalogue) → IsKept db (written_series m db)
unfolding written_series
written-IsKept m db = record { books_eq = refl; sources_eq = refl }

upsert_series-IsKeeping :
    (m : CleanSeriesMembership) (db : Catalogue)
    → IsKeeping (λ (out : ℕ × Catalogue). out.1) db (upsert_series m db)
unfolding upsert_series
upsert_series-IsKeeping m db =
    elim (Option-cases (id_of_serial (written_series m db).series m.identity_key)) [
      | inl e ↦ rw (e, upsert_series) tt
      | inr (id, e) ↦
          rw (e, upsert_series)
            (after_kept (λ out. out.1) db (written_series m db) _ (written-IsKept m db)
              (upserted-IsKeeping (m.confirmed && is_named m) id m.normalised_name
                (written_series m db)))
    ]

linked-IsKept :
    (id series_id : ℕ) (m : CleanSeriesMembership) (db : Catalogue)
    → IsKept db (link_series id series_id m db)
unfolding link_series
linked-IsKept id series_id m db = record { books_eq = refl; sources_eq = refl }

link_all-IsKeeping :
    (id : ℕ) (best : List (Text × CleanSeriesMembership)) (ids : List (Text × ℕ)) (db : Catalogue)
    → IsKeeping (λ (out : List (Text × ℕ) × Catalogue). out.1) db (link_all id best ids db)
unfolding link_all
link_all-IsKeeping id [] ids db = kept db
link_all-IsKeeping id ((key, m) ∷ best) ids db =
    IsKeeping-bind (λ out. out.1) (λ out. out.1) db (upsert_series m db) _
      (upsert_series-IsKeeping m db)
      (λ out.
        after_kept (λ o. o.1) out.1 (link_series id out.0 m out.1) _
          (linked-IsKept id out.0 m out.1)
          (link_all-IsKeeping id best (put key out.0 ids) (link_series id out.0 m out.1)))

module _ (p : Platform) (d : Database) where
  record_series_source-IsKeeping :
      (id : ℕ) (m : CleanSeriesMembership) (i : Text) (s : SourceName) (db : Catalogue)
      → IsKeeping (λ c. c) db (record_series_source p d id m i s db)
  unfolding record_series_source
  record_series_source-IsKeeping id m i s db = ground arith

  link_series_source-IsKeeping :
      (id series_id : ℕ) (m : CleanSeriesMembership) (i : Text) (c : CleanBook) (db : Catalogue)
      → IsKeeping (λ c'. c') db (link_series_source p d id series_id m i c db)
  unfolding link_series_source
  link_series_source-IsKeeping id series_id m i c db = ground arith

  named-IsKeeping :
      (blank : Bool) (id series_id : ℕ) (m : CleanSeriesMembership) (i : Text) (c : CleanBook)
      (db : Catalogue)
      → IsKeeping
          (λ c'. c')
          db
          (if blank
            then ok db
            else (record_series_source p d series_id m i c.source db >>= λ db'.
                link_series_source p d id series_id m i c db'))
  named-IsKeeping true id series_id m i c db = kept db
  named-IsKeeping false id series_id m i c db =
      IsKeeping-bind (λ c'. c') (λ c'. c') db (record_series_source p d series_id m i c.source db) _
        (record_series_source-IsKeeping series_id m i c.source db)
        (λ db'. link_series_source-IsKeeping id series_id m i c db')

  account-IsKeeping :
      (id : ℕ) (ids : List (Text × ℕ)) (c : CleanBook) (m : CleanSeriesMembership) (db : Catalogue)
      → IsKeeping (λ c'. c') db (account p d id ids c m db)
  unfolding account
  account-IsKeeping id ids c m db = elim (Option-cases (lookup m.identity_key ids)) [
    | inl e ↦ rw (e, account) (kept db)
    | inr (series_id, e) ↦ elim (Option-cases m.source_series_id) [
      | inl n ↦ rw (e, account, n) (kept db)
      | inr (i, n) ↦ rw (e, account, n) (named-IsKeeping (is_empty i) id series_id m i c db)
    ]
  ]

  accounts_of-IsKeeping :
      (id : ℕ) (ids : List (Text × ℕ)) (c : CleanBook) (ms : List CleanSeriesMembership)
      (db : Catalogue)
      → IsKeeping (λ c'. c') db (accounts_of p d id ids c ms db)
  unfolding accounts_of
  accounts_of-IsKeeping id ids c [] db = kept db
  accounts_of-IsKeeping id ids c (m ∷ ms) db =
      IsKeeping-bind (λ c'. c') (λ c'. c') db (account p d id ids c m db) _
        (account-IsKeeping id ids c m db) (λ db'. accounts_of-IsKeeping id ids c ms db')

  all_accounts-IsKeeping :
      (id : ℕ) (ids : List (Text × ℕ)) (cs : List CleanBook) (db : Catalogue)
      → IsKeeping (λ c'. c') db (all_accounts p d id ids cs db)
  unfolding all_accounts
  all_accounts-IsKeeping id ids [] db = kept db
  all_accounts-IsKeeping id ids (c ∷ cs) db =
      IsKeeping-bind (λ c'. c') (λ c'. c') db (accounts_of p d id ids c c.series db) _
        (accounts_of-IsKeeping id ids c c.series db) (λ db'. all_accounts-IsKeeping id ids cs db')

  pub linked-IsKeeping :
      (id : ℕ) (cs : List CleanBook) (db : Catalogue)
      → IsKeeping (λ c'. c') db (linked p d id cs db)
  unfolding linked
  linked-IsKeeping id cs db =
      IsKeeping-bind (λ out. out.1) (λ c'. c') db (link_all id (best_series cs []) [] db) _
        (link_all-IsKeeping id (best_series cs []) [] db)
        (λ out. all_accounts-IsKeeping id out.0 cs out.1)

  -- What `_sync_series` leaves of the books and their sources.
  pub sync_series_kept :
      (now id : ℕ) (cs : List CleanBook) (db out : Catalogue)
      → sync_series p d now id cs db ≡ ok out
      → (projection : Text) × (out.books
          ≡ update_where (λ b. b.id == id) (refreshed p d now projection) db.books)
        × (out.book_sources ≡ db.book_sources)
  unfolding sync_series refresh_series_search_text
  sync_series_kept now id cs db out h =
      let (db', e, last) =
        bind_ok (linked p d id cs db) (λ c'. ok (refresh_series_search_text p d now id c')) out h in
      let same =
        IsKeeping_ok (λ c'. c') db (linked p d id cs db) db' (linked-IsKeeping id cs db) e in
      let books_eq = same.books_eq in
      let sources_eq = same.sources_eq in
      let written : refresh_series_search_text p d now id db' ≡ out = cc last in
      (
        series_search_text p (series_names p d id db'),
        sym (ap (λ c'. c'.books) written)
            ∙ ap
                (update_where (λ b. b.id == id)
                  (refreshed p d now (series_search_text p (series_names p d id db'))))
                books_eq,
        sym (ap (λ c'. c'.book_sources) written) ∙ sources_eq,
      )
