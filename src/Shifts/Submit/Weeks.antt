-- ===== src/Shifts/Submit/Weeks.antt =====
-- The window of a request by weeks.
-- How many of the first `n` days from a date on fall on a weekday.
use fluxtrack_main.Calendar.{Date, Instant, combine, local_date, weekday}
use fluxtrack_main.Model.{Database, modality_shift_lead_days}
use fluxtrack_main.Ops.{get_policy}
use fluxtrack_main.Prelude.{
  ap, arith, if◌then◌else◌, refl, suc, true, zero, ℕ, ◌*◌, ◌+◌, ◌-◌, ◌<◌, ◌==◌, ◌∙◌, ◌≡◌, ◌≤◌,
}
use fluxtrack_main.Shifts.Submit.{is_before_lead_cutoff, weeks_window}

pub weekdays_in : ℕ → Date → ℕ → ℕ
weekdays_in w date zero = 0
weekdays_in w date (suc n) = (if weekday date == w then 1 else 0) + weekdays_in w (date + 1) n

weekdays_in-append :
    (w : ℕ) (date : Date) (m n : ℕ)
    → weekdays_in w date (m + n) ≡ weekdays_in w date m + weekdays_in w (date + m) n
unfolding weekdays_in
weekdays_in-append w date zero n =
    let same : date + 0 ≡ date = omega arith in
    let whole : 0 + n ≡ n = omega arith in rw (same, whole) (omega arith)
weekdays_in-append w date (suc m) n =
    let rest = weekdays_in-append w (date + 1) m n in
    let moved : date + 1 + m ≡ date + suc m = omega arith in
    let rest' : weekdays_in w (date + 1) (m + n)
        ≡ weekdays_in w (date + 1) m + weekdays_in w (date + suc m) n =
      rest ∙ ap (λ d. weekdays_in w (date + 1) m + weekdays_in w d n) moved in
    let step : suc m + n ≡ suc (m + n) = omega arith in
    ap (weekdays_in w date) step
    ∙ ap (λ k. (if weekday date == w then 1 else 0) + k) rest'
    ∙ omega arith

one_week : (w : ℕ) (date : Date) → w < 7 → weekdays_in w date 7 ≡ 1
unfolding weekdays_in
one_week w date h = ground arith

weekdays_in_weeks : (w : ℕ) (date : Date) (n : ℕ) → w < 7 → weekdays_in w date (n * 7) ≡ n
unfolding weekdays_in
weekdays_in_weeks w date zero h = refl
weekdays_in_weeks w date (suc n) h =
    let split : suc n * 7 ≡ 7 + n * 7 = omega arith in
    let one = one_week w date h in
    let rest = weekdays_in_weeks w (date + 7) n h in
    ap (weekdays_in w date) split
    ∙ weekdays_in-append w date 7 (n * 7)
    ∙ rw (one, rest) (omega arith)

days_ahead :
    (now : Instant) (lead : ℕ) (date : Date)
    → local_date now + (lead + 1) ≤ date
    → now < combine (date - lead) 0
days_ahead now lead date h = omega arith

-- The window of the next n weeks has exactly n days of each weekday, and no day of it is refused
-- for the lead time.
pub weeks_window_lem :
    (n : ℕ) (now : Instant) (db : Database) (w : ℕ)
    → 0 < n
    → w < 7
    → (weekdays_in w
          (weeks_window n now db).0
          (suc (weeks_window n now db).1 - (weeks_window n now db).0)
        ≡ n)
      × ((date : ℕ) → (weeks_window n now db).0 ≤ date → is_before_lead_cutoff date now db ≡ true)
unfolding weeks_window is_before_lead_cutoff
weeks_window_lem n now db w pos h =
    let start = (weeks_window n now db).0 in
    let len : suc (start + (n * 7 - 1)) - start ≡ n * 7 = omega arith in
    (
      ap (weekdays_in w start) len ∙ weekdays_in_weeks w start n h,
      λ date le.
          let ahead = days_ahead now (get_policy modality_shift_lead_days db) date le in
          ground arith,
    )
