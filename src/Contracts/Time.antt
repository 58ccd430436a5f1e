-- ===== src/Contracts/Time.antt =====
-- src/contracts/ids.rs: `Timestamp`, an RFC 3339 date-time with an explicit offset, and the instant it
-- names. Texts are bytes; `i64` and `i128` are unbounded integers, since four-digit years stay far
-- inside both.
pub mod Calendar
pub mod Instant
mod Tests
use checkspan.Common.{
  ℕ, zero, suc, ◌+◌, ◌-◌, ◌*◌, ◌/◌, ◌%◌, Bool, true, false, ◌&&◌, ◌||◌, Option, none, some, List,
  [], ◌∷◌, Text, text, is_digit, leb, ltb, length, get_elem?, ◌==◌, nat_eq, if◌then◌else◌, Result,
  ok, err, all,
}
use checkspan.Common.Int.{ℤ, pos, ◌+ℤ◌, ◌-ℤ◌, ◌*ℤ◌, quot, ltb_ℤ, pos_part}
use checkspan.Contracts.Ids.{InvalidValue, Reason}

-- The slices `b[at..]` and `b[..n]`.
abbrev pub drop : ℕ → Text → Text
drop zero b = b
drop (suc n) [] = []
drop (suc n) (x ∷ b) = drop n b

abbrev pub take : ℕ → Text → Text
take zero b = []
take (suc n) [] = []
take (suc n) (x ∷ b) = x ∷ take n b

abbrev pub at : Text → ℕ → ℕ → Bool
at b i c = elim (get_elem? b i) [ none ↦ false | some x ↦ x == c ]

digit_pair : Text → ℕ → ℕ → Bool
digit_pair (x ∷ y ∷ _) low high =
    is_digit x && is_digit y && (let n = (x - b'0') * 10 + (y - b'0') in leb low n && leb n high)
digit_pair _ low high = false

two_digits : Text → ℕ → ℕ → ℕ → Bool
unfolding digit_pair
two_digits b i low high = digit_pair (drop i b) low high

-- How many bytes `while i < b.len() && b[i].is_ascii_digit()` passes over.
digits_ahead : Text → ℕ
digits_ahead [] = 0
digits_ahead (x ∷ b) = if is_digit x then suc (digits_ahead b) else 0

-- The zone at the end: `Z`, `z`, or a sign with hours and minutes.
zone_shape : Text → Bool
unfolding two_digits
zone_shape [] = false
zone_shape (z ∷ rest) =
    let tail = z ∷ rest in
    (((z == b'Z') || (z == b'z')) && (length rest == 0))
    || (((z == b'+') || (z == b'-'))
        && (length tail == 6)
        && two_digits tail 1 0 23
        && at tail 3 b':'
        && two_digits tail 4 0 59)

-- `date_time`: the test on everything before the fraction and the zone.
date_time_shape : Text → Bool
unfolding two_digits all
date_time_shape b =
    leb 20 (length b)
    && all is_digit (take 4 b)
    && at b 4 b'-'
    && two_digits b 5 1 12
    && at b 7 b'-'
    && two_digits b 8 1 31
    && (at b 10 b'T' || at b 10 b't')
    && two_digits b 11 0 23
    && at b 13 b':'
    && two_digits b 14 0 59
    && at b 16 b':'
    && two_digits b 17 0 60

fraction_shape : Text → Bool
unfolding zone_shape digits_ahead
fraction_shape b =
    if at b 19 b'.'
    then (let n = digits_ahead (drop 20 b) in leb 1 n && leb n 9 && zone_shape (drop (20 + n) b))
    else zone_shape (drop 19 b)

rfc3339_shape : Text → Bool
unfolding date_time_shape fraction_shape
rfc3339_shape b = date_time_shape b && fraction_shape b

abbrev pub Timestamp : Type 0
Timestamp = Text

-- `Timestamp::new`
unfoldable pub new_timestamp : Text → Result Timestamp InvalidValue
unfolding rfc3339_shape
new_timestamp value =
    if rfc3339_shape value
    then ok value
    else err (record { kind = text "timestamp"; reason = Reason.not_a_date_time })

-- `num(i..i + n)`: the digits as a number.
num_from : ℕ → Text → ℕ
num_from acc [] = acc
num_from acc (d ∷ b) = num_from (acc * 10 + (d - b'0')) b

pub num : Text → ℕ → ℕ → ℕ
unfolding num_from
num b i n = num_from 0 (take n (drop i b))

-- `for _ in digits.len()..9 { fraction *= 10 }`
scale : ℕ → ℕ → ℕ
scale zero fraction = fraction
scale (suc n) fraction = scale n (fraction * 10)

-- The fraction in nanoseconds, and where the zone begins.
pub fraction_nanos : Text → ℕ × ℕ
unfolding digits_ahead num scale
fraction_nanos b =
    if at b 19 b'.'
    then (let n = digits_ahead (drop 20 b) in (scale (9 - n) (num b 20 n), 20 + n))
    else (0, 19)

pub offset_seconds : Text → ℕ → ℤ
unfolding num
offset_seconds b i =
    if at b i b'Z' || at b i b'z'
    then pos 0
    else let magnitude = num b (i + 1) 2 * 3600 + num b (i + 4) 2 * 60 in
      if at b i b'-' then pos 0 -ℤ pos magnitude else pos magnitude

-- Days from 1970-01-01 to a civil date (Howard Hinnant's algorithm, as the code has it): the year
-- starts in March, and doy is the day in it.
pub days_from_march : ℤ → ℕ → ℤ
days_from_march y doy =
    let era = quot (if ltb_ℤ y (pos 0) then y -ℤ pos 399 else y) 400 in
    let yoe = pos_part (y -ℤ era *ℤ 400) in
    let doe = yoe * 365 + yoe / 4 - yoe / 100 + doy in era *ℤ 146_097 +ℤ pos doe -ℤ pos 719_468

pub days_from_civil : ℕ → ℕ → ℕ → ℤ
days_from_civil year month day =
    let y : ℤ = if leb month 2 then pos year -ℤ pos 1 else pos year in
    let mp = (month + 9) % 12 in let doy = (153 * mp + 2) / 5 + day - 1 in days_from_march y doy

pub unix_nanos : Timestamp → ℤ
unfolding fraction_nanos offset_seconds days_from_march days_from_civil ◌+ℤ◌ ◌-ℤ◌ ◌*ℤ◌ quot num
    digits_ahead
unix_nanos b =
    let (nanos, i) = fraction_nanos b in
    let days = days_from_civil (num b 0 4) (num b 5 2) (num b 8 2) in
    let seconds =
      days *ℤ 86_400
      +ℤ pos (num b 11 2 * 3_600)
      +ℤ pos (num b 14 2 * 60)
      +ℤ pos (num b 17 2)
      -ℤ offset_seconds b i in
    seconds *ℤ 1_000_000_000 +ℤ pos nanos

unfoldable pub is_before : Timestamp → Timestamp → Bool
unfolding unix_nanos
is_before a b = ltb_ℤ (unix_nanos a) (unix_nanos b)
