-- ===== src/Contracts/Time/Instant.antt =====
-- src/contracts/ids.rs: what `unix_nanos` reads from a text that `Timestamp::new` accepts.
use checkspan.Common.{◌*◌, ◌≤◌, ◌<◌, true, Text, is_digit, leb, length, nat_eq, ◌≡◌, all}
use checkspan.Common.Int.{ℤ, pos, ◌+ℤ◌, ◌-ℤ◌, ◌*ℤ◌, pos_part, neg_part}
use checkspan.Contracts.Time.{
  drop, take, at, two_digits, digits_ahead, zone_shape, Timestamp, num, fraction_nanos,
  offset_seconds,
}
use checkspan.Contracts.Time.Calendar.{count_days}

-- The instant that the fields of a timestamp name, and the ranges of the fields.
pub record IsInstant (t : Timestamp) (z : ℤ) : Type 0 where
  pub year : num t 0 4 ≤ 9999
  pub month : (1 ≤ num t 5 2) × (num t 5 2 ≤ 12)
  pub day : (1 ≤ num t 8 2) × (num t 8 2 ≤ 31)
  pub hour : num t 11 2 ≤ 23
  pub minute : num t 14 2 ≤ 59
  pub second : num t 17 2 ≤ 60
  pub nanos : (fraction_nanos t).0 < 1_000_000_000
  pub offset :
      let z = offset_seconds t (fraction_nanos t).1 in (pos_part z ≤ 86_340) × (neg_part z ≤ 86_340)
  pub instant :
      let days = count_days (num t 0 4) (num t 5 2) (num t 8 2) in
      let seconds =
        days *ℤ 86_400
        +ℤ pos (num t 11 2 * 3_600)
        +ℤ pos (num t 14 2 * 60)
        +ℤ pos (num t 17 2)
        -ℤ offset_seconds t (fraction_nanos t).1 in
      z ≡ seconds *ℤ 1_000_000_000 +ℤ pos (fraction_nanos t).0

-- The tests that `Timestamp::new` makes.
record IsShaped (b : Text) : Type 0 where
  long : leb 20 (length b) ≡ true
  digits : all is_digit (take 4 b) ≡ true
  month : two_digits b 5 1 12 ≡ true
  day : two_digits b 8 1 31 ≡ true
  hour : two_digits b 11 0 23 ≡ true
  minute : two_digits b 14 0 59 ≡ true
  second : two_digits b 17 0 60 ≡ true
  fraction : at b 19 b'.' ≡ true → leb (digits_ahead (drop 20 b)) 9 ≡ true
  zone : zone_shape (drop (fraction_nanos b).1 b) ≡ true
