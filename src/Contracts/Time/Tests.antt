-- ===== src/Contracts/Time/Tests.antt =====
-- The sample timestamps of the tests in src/contracts/ids.rs, and a leap second before a leap day.
use checkspan.Common.{◌*◌, ◌≡◌, refl, true, false, Text, text}
use checkspan.Common.Int.{pos, negsuc}
use checkspan.Contracts.Time.{rfc3339_shape, unix_nanos, is_before}

epoch : unix_nanos (text "1970-01-01T00:00:00Z") ≡ pos 0
unfolding unix_nanos
epoch = refl

half_past : unix_nanos (text "1970-01-01T00:00:01.5Z") ≡ pos 1_500_000_000
unfolding unix_nanos
half_past = refl

leap_year : unix_nanos (text "2000-03-01T00:00:00Z") ≡ pos (951_868_800 * 1_000_000_000)
unfolding unix_nanos
leap_year = refl

before_epoch : unix_nanos (text "1969-12-31T23:59:59Z") ≡ negsuc 999_999_999
unfolding unix_nanos
before_epoch = refl

across_offsets : is_before (text "2026-09-06T12:00:00+02:00") (text "2026-09-06T10:00:00Z") ≡ false
unfolding is_before
across_offsets = refl

nanosecond : is_before (text "2026-09-06T10:00:00Z") (text "2026-09-06T10:00:00.000000001Z") ≡ true
unfolding is_before
nanosecond = refl

shapes :
    (rfc3339_shape (text "2026-12-31T23:59:60-08:00") ≡ true)
    × (rfc3339_shape (text "2026-09-06T12:00:00.123456789+05:30") ≡ true)
    × (rfc3339_shape (text "2026-09-06T12:00:00+0530") ≡ false)
    × (rfc3339_shape (text "2026-09-06T12:00:00.Z") ≡ false)
unfolding rfc3339_shape
shapes = (refl, refl, refl, refl)

abbrev leap_second : Text
leap_second = text "2024-02-28T23:59:60.25-00:30"
