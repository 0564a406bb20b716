-- ===== src/Runs/Markers/Closing.antt =====
-- A run is closed once.
use book_data_pipeline.Base.{
  ℕ, Text, Bool, true, false, ◌&&◌, ◌==◌, List, [], ◌∷◌, any, some, ◌≡◌, refl, inl, inr, arith,
  Bool-cases,
}
use book_data_pipeline.Loader.Tables.{update_where}
use book_data_pipeline.Runs.{Run, Ledger, success, is_processing}
use book_data_pipeline.Runs.Markers.{is_closable, is_topic_complete, finalise_if_complete}

closed : ℕ → Run → Run
closed now r = record r { status = success; processing_ended_at = some now }

and_false : (b : Bool) → (b && false) ≡ false
and_false true = refl
and_false false = refl

-- No row is left to close.
none_closable :
    (now run_id : ℕ) (rs : List Run)
    → any (is_closable run_id) (update_where (is_closable run_id) (closed now) rs) ≡ false
unfolding closed is_closable is_processing
none_closable now run_id [] = refl
none_closable now run_id (r ∷ rs) =
    let rest = none_closable now run_id rs in
    elim (Bool-cases (is_closable run_id r)) [
      | inl e ↦ let done = and_false (r.id == run_id) in rw (e, done, rest) refl
      | inr e ↦ rw (e, e, rest) refl
    ]

update_where-none :
    (test : Run → Bool) (f : Run → Run) (rs : List Run)
    → any test rs ≡ false
    → update_where test f rs ≡ rs
update_where-none test f [] h = refl
update_where-none test f (r ∷ rs) h = let rest = update_where-none test f rs in ground arith

-- Where no row is to be closed, nothing changes.
finalise_if_complete-idle :
    (now run_id : ℕ) (topic : Text) (l : Ledger)
    → any (is_closable run_id) l.runs ≡ false
    → finalise_if_complete now run_id topic l ≡ (false, l)
unfolding finalise_if_complete closed
finalise_if_complete-idle now run_id topic l h =
    let same = update_where-none (is_closable run_id) (closed now) l.runs h in
    elim (Bool-cases (is_topic_complete run_id topic l)) [
      | inr e ↦ rw (e, finalise_if_complete) refl
      | inl e ↦ rw (e, finalise_if_complete, h, same) refl
    ]

-- A second call to close a run right after a first one changes nothing and reports that it did not
-- close the run, at whatever time and whatever the first call did: a redelivered marker does not
-- close a run again or time it anew.
pub finalise_if_complete-once :
    (now later run_id : ℕ) (topic : Text) (l : Ledger)
    → finalise_if_complete later run_id topic (finalise_if_complete now run_id topic l).1
      ≡ (false, (finalise_if_complete now run_id topic l).1)
unfolding finalise_if_complete closed
finalise_if_complete-once now later run_id topic l =
    elim (Bool-cases (is_topic_complete run_id topic l)) [
      | inr e ↦ rw (finalise_if_complete, e, finalise_if_complete, e) refl
      | inl e ↦
          let rs = update_where (is_closable run_id) (closed now) l.runs in
          let idle =
            finalise_if_complete-idle later run_id topic (record l { runs = rs })
              (none_closable now run_id l.runs) in
          let first : (finalise_if_complete now run_id topic l).1 ≡ record l { runs = rs } =
            rw (e, finalise_if_complete) refl in
          rw first idle
    ]
