-- ===== src/Loader/Serials.antt =====
-- load/postgres.py: the series of a book, and what each source said of them.
pub mod Kept
use book_data_pipeline.Base.{
  ℕ, suc, ◌+◌, Text, codes, Bool, true, false, not, ◌&&◌, ◌||◌, ◌==◌, if◌then◌else◌, Option, none,
  some, List, [], ◌∷◌, ◌++◌, any, keep, collect, find_first, is_empty, starts_with, text_eq, Result,
  ok, err, ◌>>=◌,
}
use book_data_pipeline.Platform.{Platform}
use book_data_pipeline.Identity.{payload_hash}
use book_data_pipeline.Identity.Document.{Json, null, bool, str, Fields, end, field}
use book_data_pipeline.Series.{name_series_prefix, series_search_text}
use book_data_pipeline.Domain.{SourceName, same_source, CleanSeriesMembership, CleanBook}
use book_data_pipeline.Loader.Tables.{
  Book, Serial, SerialSource, BookSerial, BookSerialSource, Catalogue, Database, LoadError, no_row,
  multiple_rows, foreign_key_violation, update_where, delete_where, upsert, coalesce,
}

-- A dictionary in the order of its first insertions: `d[key] = value`.
abbrev pub put : {V : Type 0} → Text → V → List (Text × V) → List (Text × V)
put key value [] = (key, value) ∷ []
put key value ((k, v) ∷ rest) =
    let later = put key value rest in if text_eq k key then (k, value) ∷ rest else (k, v) ∷ later

-- `d.get(key)`
abbrev pub lookup : {V : Type 0} → Text → List (Text × V) → Option V
lookup key [] = none
lookup key ((k, v) ∷ rest) = let later = lookup key rest in if text_eq k key then some v else later

-- Whether a membership takes the place of the one that is kept under its key.
pub outranks : CleanSeriesMembership → Option CleanSeriesMembership → Bool
outranks m none = true
outranks m (some kept) = m.confirmed && not kept.confirmed

pub best_of :
    List CleanSeriesMembership
    → List (Text × CleanSeriesMembership)
    → List (Text × CleanSeriesMembership)
unfolding outranks
best_of [] best = best
best_of (m ∷ rest) best =
    best_of rest
      (if outranks m (lookup m.identity_key best) then put m.identity_key m best else best)

-- `best`
pub best_series :
    List CleanBook → List (Text × CleanSeriesMembership) → List (Text × CleanSeriesMembership)
unfolding best_of
best_series [] best = best
best_series (c ∷ rest) best = best_series rest (best_of c.series best)

pub same_serial : Serial → Serial → Bool
same_serial a b = text_eq a.identity_key b.identity_key

pub same_book_serial : BookSerial → BookSerial → Bool
same_book_serial a b = a.book_id == b.book_id && a.series_id == b.series_id

pub same_serial_source : SerialSource → SerialSource → Bool
same_serial_source a b =
    same_source a.source b.source && text_eq a.source_series_id b.source_series_id

pub same_book_serial_source : BookSerialSource → BookSerialSource → Bool
same_book_serial_source a b =
    same_source a.source b.source
    && text_eq a.source_book_id b.source_book_id
    && text_eq a.source_series_id b.source_series_id

-- The row that is inferred from the name, if there is one besides the survivor.
pub inferred_serials : ℕ → Text → List Serial → List Serial
inferred_serials survivor name = keep λ (s : Serial).
    text_eq s.normalized_name name
    && starts_with s.identity_key name_series_prefix
    && not (s.id == survivor)

-- The memberships of the inferred row, put on the survivor.
pub moved_memberships : ℕ → List BookSerial → List BookSerial → List BookSerial
unfolding same_book_serial
moved_memberships survivor [] rows = rows
moved_memberships survivor (m ∷ moving) rows = moved_memberships survivor moving (
    upsert same_book_serial
      (λ old excluded. record old {
        position = coalesce old.position excluded.position;
        confirmed = old.confirmed || excluded.confirmed;
      })
      (record m { series_id = survivor }) rows)

-- The rest of `_absorb_inferred_series`, once the inferred row is found.
pub absorb : ℕ → ℕ → Catalogue → Catalogue
unfolding moved_memberships
absorb survivor inferred db = record db {
  book_series =
      delete_where (λ m. m.series_id == inferred)
        (moved_memberships survivor (keep (λ m. m.series_id == inferred) db.book_series)
          db.book_series);
  book_series_sources =
      update_where (λ m. m.series_id == inferred) (λ m. record m { series_id = survivor })
        db.book_series_sources;
  series_sources =
      update_where (λ s. s.series_id == inferred) (λ s. record s { series_id = survivor })
        db.series_sources;
  series = delete_where (λ s. s.id == inferred) db.series;
}

-- `_absorb_inferred_series`
pub absorb_inferred_series : ℕ → Text → Catalogue → Result LoadError Catalogue
unfolding inferred_serials absorb
absorb_inferred_series survivor name db = elim (inferred_serials survivor name db.series) [
  | [] ↦ ok db
  | s ∷ [] ↦ ok (absorb survivor s.id db)
  | s ∷ t ∷ rest ↦ err multiple_rows
]

pub id_of_serial : List Serial → Text → Option ℕ
id_of_serial rows key = elim (find_first (λ (s : Serial). text_eq s.identity_key key) rows) [
  | none ↦ none
  | some s ↦ some s.id
]

pub is_named : CleanSeriesMembership → Bool
is_named m = elim m.source_series_id [ none ↦ false | some i ↦ not (is_empty i) ]

-- The upsert of `_upsert_series`
pub written_series : CleanSeriesMembership → Catalogue → Catalogue
unfolding same_serial
written_series m db = record db {
  series =
      upsert same_serial (λ old excluded. record old { normalized_name = excluded.normalized_name })
        (record {
          id = db.next_id;
          identity_key = m.identity_key;
          name = m.name;
          normalized_name = m.normalised_name;
        })
        db.series;
  next_id = suc db.next_id;
}

-- `_upsert_series`: the id of the row and the catalogue after it.
pub upsert_series : CleanSeriesMembership → Catalogue → Result LoadError (ℕ × Catalogue)
unfolding written_series id_of_serial is_named absorb_inferred_series
upsert_series m db = elim (id_of_serial (written_series m db).series m.identity_key) [
  | none ↦ err no_row
  | some id ↦
      if m.confirmed && is_named m
      then (absorb_inferred_series id m.normalised_name (written_series m db) >>= λ after.
          ok (id, after))
      else ok (id, written_series m db)
]

-- `_link_series`
pub link_series : ℕ → ℕ → CleanSeriesMembership → Catalogue → Catalogue
unfolding same_book_serial
link_series book_id series_id m db = record db {
  book_series =
      upsert same_book_serial
        (λ old excluded. record old {
          position = coalesce excluded.position old.position;
          confirmed = old.confirmed || excluded.confirmed;
        })
        (record {
          book_id = book_id;
          series_id = series_id;
          position = m.position;
          confirmed = m.confirmed;
        })
        db.book_series;
}

-- The loop over `best`: `series_ids` and the catalogue.
pub link_all :
    ℕ
    → List (Text × CleanSeriesMembership)
    → List (Text × ℕ)
    → Catalogue
    → Result LoadError (List (Text × ℕ) × Catalogue)
unfolding upsert_series link_series
link_all book_id [] ids db = ok (ids, db)
link_all book_id ((key, m) ∷ rest) ids db = upsert_series m db >>= λ out.
    link_all book_id rest (put key out.0 ids) (link_series book_id out.0 m out.1)

module _ (p : Platform) (d : Database) where
  -- `_membership_payload`
  pub membership_payload : CleanSeriesMembership → Fields
  membership_payload m = field (codes "name") (str m.name) (
      field (codes "position") (elim m.position [ none ↦ null | some x ↦ str (d.decimal_text x) ])
        (field (codes "confirmed") (bool m.confirmed) end))

  -- `_record_series_source`, for a membership with the given id at its source
  pub record_series_source :
      ℕ → CleanSeriesMembership → Text → SourceName → Catalogue → Result LoadError Catalogue
  unfolding membership_payload same_serial_source
  record_series_source series_id m i source db =
      if not (any (λ (s : Serial). s.id == series_id) db.series)
      then err foreign_key_violation
      else ok (record db {
        series_sources =
            upsert same_serial_source
              (λ old excluded. record old {
                series_id = excluded.series_id;
                raw_payload = excluded.raw_payload;
                payload_hash = excluded.payload_hash;
              })
              (record {
                series_id = series_id;
                source = source;
                source_series_id = i;
                raw_payload = membership_payload m;
                payload_hash = payload_hash p.sha256 (membership_payload m);
              })
              db.series_sources;
      })

  -- `_link_series_source`
  pub link_series_source :
      ℕ → ℕ → CleanSeriesMembership → Text → CleanBook → Catalogue → Result LoadError Catalogue
  unfolding membership_payload same_book_serial_source
  link_series_source book_id series_id m i c db =
      if not
        (any (λ (b : BookSerial). b.book_id == book_id && b.series_id == series_id) db.book_series)
      then err foreign_key_violation
      else ok (record db {
        book_series_sources =
            upsert same_book_serial_source
              (λ old excluded. record old {
                book_id = excluded.book_id;
                series_id = excluded.series_id;
                position = excluded.position;
                confirmed = excluded.confirmed;
                raw_payload = excluded.raw_payload;
              })
              (record {
                book_id = book_id;
                series_id = series_id;
                source = c.source;
                source_book_id = c.source_id;
                source_series_id = i;
                position = m.position;
                confirmed = m.confirmed;
                raw_payload = membership_payload m;
              })
              db.book_series_sources;
      })

  -- One membership's own account, where its series was linked and its source names it.
  pub account :
      ℕ
      → List (Text × ℕ)
      → CleanBook
      → CleanSeriesMembership
      → Catalogue
      → Result LoadError Catalogue
  unfolding record_series_source link_series_source
  account book_id ids c m db = elim (lookup m.identity_key ids) [
    | none ↦ ok db
    | some series_id ↦ elim m.source_series_id [
      | none ↦ ok db
      | some i ↦
          if is_empty i
          then ok db
          else record_series_source series_id m i c.source db >>= λ db'.
              link_series_source book_id series_id m i c db'
    ]
  ]

  pub accounts_of :
      ℕ
      → List (Text × ℕ)
      → CleanBook
      → List CleanSeriesMembership
      → Catalogue
      → Result LoadError Catalogue
  unfolding account
  accounts_of book_id ids c [] db = ok db
  accounts_of book_id ids c (m ∷ rest) db =
      account book_id ids c m db >>= λ db'. accounts_of book_id ids c rest db'

  pub all_accounts : ℕ → List (Text × ℕ) → List CleanBook → Catalogue → Result LoadError Catalogue
  unfolding accounts_of
  all_accounts book_id ids [] db = ok db
  all_accounts book_id ids (c ∷ rest) db =
      accounts_of book_id ids c c.series db >>= λ db'. all_accounts book_id ids rest db'

  -- The names of the series that a book is linked to.
  pub series_names : ℕ → Catalogue → List Text
  series_names book_id db =
      collect
        (λ (m : BookSerial).
          if m.book_id == book_id
          then elim (find_first (λ (s : Serial). s.id == m.series_id) db.series) [
            | none ↦ none
            | some s ↦ some s.name
          ]
          else none)
        db.book_series

  -- The update of one book's projection, which is written only when it changes.
  unfoldable pub refreshed : ℕ → Text → Book → Book
  refreshed now projection b =
      if text_eq projection b.series_search_text
      then b
      else record b { series_search_text = projection; updated_at = now }

  -- `_refresh_series_search_text`
  pub refresh_series_search_text : ℕ → ℕ → Catalogue → Catalogue
  unfolding series_names refreshed
  refresh_series_search_text now book_id db =
      let projection = series_search_text p (series_names book_id db) in
      record db { books = update_where (λ b. b.id == book_id) (refreshed now projection) db.books }

  -- The two loops of `_sync_series`: the links, then each source's account.
  pub linked : ℕ → List CleanBook → Catalogue → Result LoadError Catalogue
  unfolding best_series link_all all_accounts
  linked book_id candidates db = link_all book_id (best_series candidates []) [] db >>= λ out.
      all_accounts book_id out.0 candidates out.1

  -- `_sync_series`
  pub sync_series : ℕ → ℕ → List CleanBook → Catalogue → Result LoadError Catalogue
  unfolding linked refresh_series_search_text
  sync_series now book_id candidates db =
      linked book_id candidates db >>= λ db'. ok (refresh_series_search_text now book_id db')
