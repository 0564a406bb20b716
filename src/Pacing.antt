-- ===== src/Pacing.antt =====
-- extract/base.py: `TokenBucket`. Times are clock ticks. The lock lets one acquisition run at a time,
-- so a run of the bucket is the list of its acquisitions, each with the clock readings it takes.
mod Tests
pub mod Spacing
use book_data_pipeline.Base.{ℕ, ◌+◌, ◌-◌, ltb, if◌then◌else◌, Option, none, some, List, [], ◌∷◌}

-- The readings of one acquisition: on entry, and after the sleep, if it sleeps.
pub record Reading : Type 0 where
  pub entered : ℕ
  pub woken : ℕ

-- One acquisition: the sleep it asks for, if any, and the time at which it is granted.
pub record Grant : Type 0 where
  pub slept : Option ℕ
  pub at : ℕ

-- `TokenBucket.acquire` with `_next_allowed`
pub acquire : Option ℕ → Reading → Grant
acquire none r = record { slept = none; at = r.entered }
acquire (some next_allowed) r =
    if ltb r.entered next_allowed
    then record { slept = some (next_allowed - r.entered); at = r.woken }
    else record { slept = none; at = r.entered }

-- A run of the bucket with the interval: the grants, in order.
pub acquire_all : ℕ → Option ℕ → List Reading → List Grant
unfolding acquire
acquire_all interval next_allowed [] = []
acquire_all interval next_allowed (r ∷ rs) =
    let grant = acquire next_allowed r in
    grant ∷ acquire_all interval (some (grant.at + interval)) rs
