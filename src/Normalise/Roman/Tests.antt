-- ===== src/Normalise/Roman/Tests.antt =====
-- The theorems on Roman numerals at short texts.
use book_data_pipeline.Base.{◌<◌, codes, some, ◌≡◌, ◌↔◌}
use book_data_pipeline.Unicode.{ascii_unicode, upper}
use book_data_pipeline.Normalise.Roman.{roman_to_int, int_to_roman}
use book_data_pipeline.Normalise.Roman.Canonical.{roman_to_int_iff}

roman_to_int_iff_example :
    (roman_to_int ascii_unicode (codes "mcmxciv") ≡ some 1994)
    ↔ ((0 < 1994) × (upper ascii_unicode (codes "mcmxciv") ≡ int_to_roman 1994))
roman_to_int_iff_example = roman_to_int_iff ascii_unicode (codes "mcmxciv") 1994
