-- ===== src/Pacing/Spacing.antt =====
-- The rate that the bucket keeps.
use book_data_pipeline.Base.{
  ℕ, ◌+◌, ◌-◌, ◌≤◌, true, ltb, Option, none, some, List, [], ◌∷◌, ◌≡◌, refl, ap, arith, inl, inr,
  Bool-cases,
}
use book_data_pipeline.Pacing.{Reading, Grant, acquire, acquire_all}

-- The clock does not run back: no reading is before the grant that precedes it.
abbrev pub IsMonotonic : ℕ → ℕ → Option ℕ → List Reading → Type 0
unfolding acquire
IsMonotonic interval past next [] = Unit
IsMonotonic interval past next (r ∷ rs) =
    (past ≤ r.entered)
    × (r.entered ≤ r.woken)
    × IsMonotonic interval (acquire next r).at (some ((acquire next r).at + interval)) rs

-- No sleep returns early.
abbrev pub IsAwake : ℕ → Option ℕ → List Reading → Type 0
unfolding acquire
IsAwake interval next [] = Unit
IsAwake interval next (r ∷ rs) =
    ((n : ℕ) → (acquire next r).slept ≡ some n → r.entered + n ≤ r.woken)
    × IsAwake interval (some ((acquire next r).at + interval)) rs

-- Every grant comes at least the interval after the one before it, and the first no earlier than the
-- slot, if there is one.
abbrev pub AllSpaced : ℕ → Option ℕ → List Grant → Type 0
AllSpaced interval slot [] = Unit
AllSpaced interval none (g ∷ gs) = AllSpaced interval (some (g.at + interval)) gs
AllSpaced interval (some slot) (g ∷ gs) =
    (slot ≤ g.at) × AllSpaced interval (some (g.at + interval)) gs

-- No grant asks for a sleep longer than the interval.
abbrev pub AllBrief : ℕ → List Grant → Type 0
AllBrief interval [] = Unit
AllBrief interval (g ∷ gs) = ((n : ℕ) → g.slept ≡ some n → n ≤ interval) × AllBrief interval gs

acquire_early :
    (slot : ℕ) (r : Reading)
    → ltb r.entered slot ≡ true
    → acquire (some slot) r ≡ record { slept = some (slot - r.entered); at = r.woken }
unfolding acquire
acquire_early slot r e = rw e refl

acquire-after :
    (slot : ℕ) (r : Reading)
    → ((n : ℕ) → (acquire (some slot) r).slept ≡ some n → r.entered + n ≤ r.woken)
    → slot ≤ (acquire (some slot) r).at
unfolding acquire
acquire-after slot r h = elim (Bool-cases (ltb r.entered slot)) [
  | inl e ↦
      let slept = h (slot - r.entered) (ap (λ g. g.slept) (acquire_early slot r e)) in
      rw e (omega arith)
  | inr e ↦ rw e (ground arith)
]

acquire-brief :
    (interval past : ℕ) (r : Reading) (n : ℕ)
    → past ≤ r.entered
    → (acquire (some (past + interval)) r).slept ≡ some n
    → n ≤ interval
unfolding acquire
acquire-brief interval past r n h e = ground arith

-- Where no sleep returns early, the bucket never grants two acquisitions within one interval, in any
-- run, from a new bucket or from one with a slot, and whatever the clock readings are on entry.
pub acquire_all-AllSpaced :
    (interval : ℕ) (next : Option ℕ) (rs : List Reading)
    → IsAwake interval next rs
    → AllSpaced interval next (acquire_all interval next rs)
unfolding acquire_all
acquire_all-AllSpaced interval none [] awake = tt
acquire_all-AllSpaced interval (some slot) [] awake = tt
acquire_all-AllSpaced interval none (r ∷ rs) awake =
    acquire_all-AllSpaced interval (some ((acquire none r).at + interval)) rs awake.1
acquire_all-AllSpaced interval (some slot) (r ∷ rs) awake = (
  acquire-after slot r awake.0,
  acquire_all-AllSpaced interval (some ((acquire (some slot) r).at + interval)) rs awake.1,
)

-- Even where sleeps return early, no acquisition that follows a grant is asked to sleep longer than
-- one interval, so the waits do not grow, if the clock does not run back.
pub acquire_all-AllBrief :
    (interval past : ℕ) (rs : List Reading)
    → IsMonotonic interval past (some (past + interval)) rs
    → AllBrief interval (acquire_all interval (some (past + interval)) rs)
unfolding acquire_all
acquire_all-AllBrief interval past [] clock = tt
acquire_all-AllBrief interval past (r ∷ rs) (after, woken, clock) = (
  (λ n. acquire-brief interval past r n after),
  acquire_all-AllBrief interval (acquire (some (past + interval)) r).at rs clock,
)
