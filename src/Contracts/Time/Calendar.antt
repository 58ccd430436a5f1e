-- ===== src/Contracts/Time/Calendar.antt =====
-- src/contracts/ids.rs: the days that `unix_nanos` computes, against a count of days by the lengths
-- of the months and the leap years of the Gregorian calendar.
use checkspan.Common.{
  ℕ, zero, suc, ◌+◌, ◌-◌, ◌*◌, ◌/◌, ◌%◌, ◌≤◌, Bool, true, false, ◌&&◌, ◌||◌, not, leb, ◌==◌, nat_eq,
  if◌then◌else◌, ◌≡◌, refl, arith,
}
use checkspan.Common.Int.{ℤ, pos, negsuc, sub_ℕ, ◌+ℤ◌, ◌-ℤ◌, ◌*ℤ◌, quot}
use checkspan.Contracts.Time.{days_from_march, days_from_civil}

-- The calendar: 97 leap years in 400.
abbrev pub is_leap : ℕ → Bool
is_leap y = ((y % 4 == 0) && not (y % 100 == 0)) || (y % 400 == 0)

abbrev pub leap_day : ℕ → ℕ
leap_day y = if is_leap y then 1 else 0

abbrev pub is_short : ℕ → Bool
is_short m = (m == 11) || (m == 9) || (m == 6) || (m == 4)

abbrev pub month_length : ℕ → ℕ → ℕ
month_length y m = if is_short m then 30 else if m == 2 then 28 + leap_day y else 31

-- The days of the months before month m; month 0 has none.
days_before_month : ℕ → ℕ → ℕ
days_before_month y zero = 0
days_before_month y (suc zero) = 0
days_before_month y (suc (suc m)) = days_before_month y (suc m) + month_length y (suc m)

-- The days of the years from 0 to before y.
days_before_year : ℕ → ℕ
days_before_year zero = 0
days_before_year (suc y) = days_before_year y + (365 + leap_day y)

-- The days from 1970-01-01 to a date.
unfoldable pub count_days : ℕ → ℕ → ℕ → ℤ
unfolding days_before_month days_before_year
count_days year month day =
    pos (days_before_year year + days_before_month year month + (day - 1))
    -ℤ pos (days_before_year 1970)

before_year_closed : (y : ℕ) → days_before_year (suc y) + y / 100 ≡ 366 + 365 * y + y / 4 + y / 400
unfolding days_before_year
before_year_closed zero = refl
before_year_closed (suc y) = ground (arith, before_year_closed y)

-- The months from March on, in the runs of 153 days that five of them make.
march_month : (y m : ℕ) → 3 ≤ m → month_length y m ≡ (if is_short m then 30 else 31)
march_month y m h = let late : (m == 2) ≡ false = ground arith in rw late refl

month_from_march :
    (y k : ℕ)
    → k ≤ 8
    → (153 * k + 2) / 5 + month_length y (suc (suc (suc k))) ≡ (153 * suc k + 2) / 5
month_from_march y k h = rw (march_month y (suc (suc (suc k))) (omega arith)) (ground arith)

before_month_closed :
    (y k : ℕ)
    → k ≤ 9
    → days_before_month y (suc (suc (suc k))) ≡ days_before_month y 3 + (153 * k + 2) / 5
unfolding days_before_month
before_month_closed y zero h = omega arith
before_month_closed y (suc k) h =
    omega (arith, before_month_closed y k (omega arith), month_from_march y k (omega arith))

-- Two differences are the same integer when their sums across are.
sub_ℕ_eq : (a b c d : ℕ) → a + d ≡ b + c → sub_ℕ a c ≡ sub_ℕ b d
sub_ℕ_eq a b c d e = ground arith

march_days :
    (y doy : ℕ)
    → days_from_march (pos y) doy ≡ sub_ℕ (365 * y + y / 4 + y / 400 + doy) (719_468 + y / 100)
unfolding days_from_march quot ◌+ℤ◌ ◌-ℤ◌ ◌*ℤ◌
march_days y doy = ground arith

-- The year before year 0 is a leap year, the last of its 400 years.
march_before_zero : (doy : ℕ) → days_from_march (negsuc 0) doy ≡ sub_ℕ doy 719_834
unfolding days_from_march quot ◌+ℤ◌ ◌-ℤ◌ ◌*ℤ◌
march_before_zero doy = ground arith

abbrev epoch : ℕ
epoch = 719_528

epoch_day : days_before_year 1970 ≡ epoch
epoch_day = omega (arith, before_year_closed 1969)

to_march :
    (y : ℕ) → days_before_year y + days_before_month y 3 + y / 100 ≡ 60 + 365 * y + y / 4 + y / 400
unfolding days_before_year days_before_month
to_march y = ground (arith, before_year_closed y)

count_from_epoch :
    (y m d : ℕ)
    → count_days y m d ≡ sub_ℕ (days_before_year y + days_before_month y m + (d - 1)) epoch
unfolding count_days ◌-ℤ◌
count_from_epoch y m d = rw epoch_day (sub_ℕ_eq _ _ _ _ (omega arith))

-- From March on the year is its own.
from_march :
    (y k d : ℕ)
    → k ≤ 9
    → 1 ≤ d
    → days_from_civil y (suc (suc (suc k))) d ≡ count_days y (suc (suc (suc k))) d
unfolding days_from_civil
from_march y k d hk hd =
    let late : leb (suc (suc (suc k))) 2 ≡ false = ground arith in
    let mp : (suc (suc (suc k)) + 9) % 12 ≡ k = omega arith in
    rw (late, mp, count_from_epoch, march_days)
      (sub_ℕ_eq _ _ _ _ (omega (arith, to_march y, before_month_closed y k hk)))

before_february : (y m : ℕ) → 1 ≤ m → m ≤ 2 → days_before_month y m + 31 ≡ 31 * m
unfolding days_before_month
before_february y zero lo hi = absurd (omega arith)
before_february y (suc zero) lo hi = refl
before_february y (suc (suc zero)) lo hi = refl
before_february y (suc (suc (suc m))) lo hi = absurd (omega arith)

-- January and February belong to the year before.
to_february : (y m d : ℕ) → 1 ≤ m → m ≤ 2 → 1 ≤ d → days_from_civil y m d ≡ count_days y m d
unfolding days_from_civil ◌-ℤ◌ days_before_year
to_february zero m d lo hi hd =
    let early : leb m 2 ≡ true = ground arith in
    let mp : (m + 9) % 12 ≡ m + 9 = omega arith in
    rw (early, mp, count_from_epoch, march_before_zero)
      (sub_ℕ_eq _ _ _ _ (omega (arith, before_february 0 m lo hi)))
to_february (suc y) m d lo hi hd =
    let early : leb m 2 ≡ true = ground arith in
    let mp : (m + 9) % 12 ≡ m + 9 = omega arith in
    let last : pos (suc y) -ℤ pos 1 ≡ pos y = ground arith in
    rw (early, mp, last, count_from_epoch, march_days)
      (sub_ℕ_eq _ _ _ _ (omega (arith, before_year_closed y, before_february (suc y) m lo hi)))

pub days_from_civil_counts :
    (y m d : ℕ) → 1 ≤ m → m ≤ 12 → 1 ≤ d → days_from_civil y m d ≡ count_days y m d
days_from_civil_counts y (suc (suc (suc k))) d lo hi hd = from_march y k d (omega arith) hd
days_from_civil_counts y zero d lo hi hd = absurd (omega arith)
days_from_civil_counts y (suc zero) d lo hi hd = to_february y 1 d lo (omega arith) hd
days_from_civil_counts y (suc (suc zero)) d lo hi hd = to_february y 2 d lo (omega arith) hd
