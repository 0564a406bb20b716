-- ===== src/Pacing/Tests.antt =====
-- The theorems on the bucket at three calls that enter together.
use book_data_pipeline.Base.{List, [], ◌∷◌, none, some, arith}
use book_data_pipeline.Pacing.{Reading, acquire, acquire_all}
use book_data_pipeline.Pacing.Spacing.{
  IsMonotonic, IsAwake, AllSpaced, AllBrief, acquire_all-AllSpaced, acquire_all-AllBrief,
}

abbrev readings : List Reading
readings =
    record { entered = 100; woken = 150 }
    ∷ record { entered = 160; woken = 200 }
    ∷ record { entered = 300; woken = 300 }
    ∷ []

awake : IsAwake 50 none readings
unfolding acquire
awake = (λ n h. ground arith, (λ n h. ground arith, (λ n h. ground arith, tt)))

acquire_all-AllSpaced_example : AllSpaced 50 none (acquire_all 50 none readings)
acquire_all-AllSpaced_example = acquire_all-AllSpaced 50 none readings awake

monotonic : IsMonotonic 50 100 (some 150) readings
unfolding acquire
monotonic = (omega arith, omega arith, (omega arith, omega arith, (omega arith, omega arith, tt)))

acquire_all-AllBrief_example : AllBrief 50 (acquire_all 50 (some 150) readings)
acquire_all-AllBrief_example = acquire_all-AllBrief 50 100 readings monotonic
