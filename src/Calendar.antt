-- ===== src/Calendar.antt =====
-- Dates and instants (Python's datetime, Django's timezone helpers with TIME_ZONE = "Asia/Manila").
-- A date is its proleptic Gregorian ordinal, a time of day and a timedelta are microseconds, and an
-- aware instant is the microseconds of its Manila wall clock. Manila has kept one offset from UTC
-- since 1978, so comparisons and differences of instants are those of the wall clock.
use fluxtrack_main.Prelude.{arith, ℕ, ◌%◌, ◌*◌, ◌+◌, ◌/◌, ◌<◌, ◌≡◌}

abbrev pub Date : Type 0
Date = ℕ

abbrev pub TimeOfDay : Type 0
TimeOfDay = ℕ

abbrev pub Instant : Type 0
Instant = ℕ

-- `timedelta(minutes=n)`
abbrev pub minutes : ℕ → ℕ
minutes n = n * 60000000

-- The microseconds of a day.
abbrev pub day : ℕ
day = 86400000000

-- `timezone.make_aware(datetime.combine(d, t))`
abbrev pub combine : Date → TimeOfDay → Instant
combine d t = d * day + t

-- `timezone.localtime(i).date()`
abbrev pub local_date : Instant → Date
local_date i = i / day

-- `timezone.localtime(i).time()`
abbrev pub local_time : Instant → TimeOfDay
local_time i = i % day

-- `d.weekday()`: Monday is 0, and the ordinal 1 was a Monday.
abbrev pub weekday : Date → ℕ
weekday d = (d + 6) % 7

-- A date and a time of day are read back from the instant that they make.
pub local_date-combine :
    (d : Date) (t : TimeOfDay)
    → t < day
    → (local_date (combine d t) ≡ d) × (local_time (combine d t) ≡ t)
local_date-combine d t h = omega arith
