-- ===== src/SourceHealth/Cooldown.antt =====
-- What one run's refusal means for the runs after it.
use book_data_pipeline.Base.{
  ℕ, zero, suc, ◌+◌, ◌≤◌, ◌<◌, Text, true, ◌&&◌, ◌==◌, leb, ltb, some, List, [], take, ◌∷◌, text_eq,
  text_eq_refl, Among, ◌≡◌, refl, arith, inl, inr, Bool-cases, Option-cases, and_true, err,
}
use book_data_pipeline.Base.Members.{collect_among}
use book_data_pipeline.Domain.{SourceName, source_value, same_source}
use book_data_pipeline.SourceHealth.{
  Row, refused, upsert, record_refusal, selected, latest, last_refusal, cooling_down,
  ensure_not_cooling_down,
}

latest-le : (ts : List ℕ) (t : ℕ) → Among t ts → (u : ℕ) × (latest ts ≡ some u) × (t ≤ u)
unfolding latest
latest-le [] t m = absurd m
latest-le (x ∷ ts) t (inl e) = elim (Option-cases (latest ts)) [
  | inl n ↦ rw (n, latest) (x, refl, ground arith)
  | inr (u, n) ↦ elim (Bool-cases (ltb x u)) [
    | inl lt ↦ rw (n, latest, lt) (u, refl, ground arith)
    | inr ge ↦ rw (n, latest, ge) (x, refl, ground arith)
  ]
]
latest-le (x ∷ ts) t (inr m) =
    let (u, n, le) = latest-le ts t m in
    elim (Bool-cases (ltb x u)) [
      | inl lt ↦ rw (n, latest, lt) (u, refl, le)
      | inr ge ↦ rw (n, latest, ge) (x, refl, ground arith)
    ]

text_own : (s : SourceName) → same_source s s ≡ true
unfolding same_source
text_own s = text_eq_refl (source_value s)

-- A refused row of the source, finished within the window, is selected.
selected_row :
    (now within at : ℕ) (s : SourceName) (r : Row)
    → same_source r.source s ≡ true
    → r.status ≡ refused
    → r.finished_at ≡ some at
    → now ≤ at + within
    → selected now within s r ≡ some at
unfolding selected
selected_row now within at s r own status time h =
    let same : text_eq r.status refused ≡ true = rw status (text_eq_refl refused) in
    let inside : leb now (at + within) ≡ true = ground arith in
    rw (own, selected, same, time, inside) refl

-- After an upsert, a row of the source has the status and the time that were written.
upsert_written :
    (row : Row) (rows : List Row)
    → (r : Row) × Among r (upsert row rows)
      × (same_source r.source row.source ≡ true)
      × (r.status ≡ row.status)
      × (r.finished_at ≡ row.finished_at)
unfolding upsert
upsert_written row [] = (row, inl refl, text_own row.source, refl, refl)
upsert_written row (r ∷ rows) =
    elim (Bool-cases (r.run_id == row.run_id && same_source r.source row.source)) [
      | inl e ↦
          rw (e, upsert)
            (
              record r { status = row.status; error = row.error; finished_at = row.finished_at },
              inl refl,
              (and_true (r.run_id == row.run_id) _ e).1,
              refl,
              refl,
            )
      | inr e ↦
          let (x, m, own, status, time) = upsert_written row rows in
          rw (e, upsert) (x, inr m, own, status, time)
    ]

-- A refusal that a run records stops every later run inside the cooldown: whatever the table holds, a
-- check of the same source up to `cooldown` seconds after the refusal raises, and what it reports is
-- that refusal or a later one.
pub record_refusal-stops :
    (now at cooldown run_id : ℕ) (source : SourceName) (reason : Text) (rows : List Row)
    → 0 < cooldown
    → now ≤ at + cooldown
    → (t : ℕ) × (ensure_not_cooling_down now cooldown source
          (record_refusal at run_id source reason rows)
        ≡ err (cooling_down t))
      × (at ≤ t)
unfolding ensure_not_cooling_down record_refusal last_refusal
record_refusal-stops now at zero run_id source reason rows some_time h = ground arith
record_refusal-stops now at (suc cooldown) run_id source reason rows some_time h =
    let (r, m, own, status, time) =
      upsert_written
        (record {
          run_id = run_id;
          source = source;
          status = refused;
          finished_at = some at;
          error = some (take 500 reason);
        })
        rows in
    let chosen = selected_row now (suc cooldown) at source r own status time h in
    let (t, e, le) =
      latest-le _ at (collect_among (selected now (suc cooldown) source) r at _ m chosen) in
    (t, rw (e, ensure_not_cooling_down) refl, le)
