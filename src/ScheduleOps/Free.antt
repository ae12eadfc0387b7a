-- ===== src/ScheduleOps/Free.antt =====
-- A room or time move collides with nothing on the remaining weekly dates.
use mathlib.Core.Path.{subst}
use fluxtrack_main.Availability.{room_is_free}
use fluxtrack_main.Calendar.{Date, TimeOfDay, combine, weekday}
use fluxtrack_main.Effects.{Result, err, ok}
use fluxtrack_main.Model.{AcademicTerm, Database, Room, Schedule, is_archived_term, is_online}
use fluxtrack_main.Ops.{require_writable_term, term_by_id}
use fluxtrack_main.Prelude.{
  All-Elem, Bool, Bool-cases, Elem, Option, Option-cases, ap, arith, false, find, find-none, inl,
  inr, none, not, some, true, ℕ, ◌≡◌, ◌≤◌,
}
use fluxtrack_main.Scanning.{key_of}
use fluxtrack_main.ScheduleOps.{
  Edit, assert_occurrences_free, first_occurrence, has_settled, is_blocked, is_move,
  occurrence_dates, or_keep, own_session, schedule_by_id, session_dates, update_schedule,
  weeks_until,
}
use fluxtrack_main.ScheduleOps.Weeks.{IsWeekly, weekly-Elem}
use fluxtrack_main.Suspensions.{excused_checker}

-- A weekday of the term from today on is one of the series that begins at the first occurrence.
weekday-IsWeekly :
    (x today end : Date) → today ≤ x → x ≤ end → IsWeekly (first_occurrence (weekday x) today) end x
weekday-IsWeekly x today end h k = (omega arith, k, omega arith)

abbrev is_answered : Result ℕ → Bool
is_answered (ok n) = true
is_answered (err e) = false

not_blocked :
    (schedule : Schedule) (room : Room) (from to : TimeOfDay) (today : Date) (db : Database)
    (x : Date)
    → is_blocked schedule room from to today db x ≡ false
    → has_settled (own_session schedule.id today x db) ≡ false
    → excused_checker schedule.term_id db x room.building_id ≡ false
    → room_is_free room
        (combine x from)
        (combine x to)
        (key_of (own_session schedule.id today x db))
        (some schedule.id)
        db
      ≡ true
unfolding is_blocked
not_blocked schedule room from to today db x h unsettled working =
    let free : not (
          room_is_free room (combine x from) (combine x to)
            (key_of (own_session schedule.id today x db)) (some schedule.id) db)
        ≡ false =
      rw (unsettled, working) at h in
    ground arith

occurrence-Elem :
    (schedule : Schedule) (term : AcademicTerm) (today : Date) (db : Database) (x : Date)
    → today ≤ x
    → x ≤ term.end_date
    → weekday x ≡ schedule.day_of_week
    → Elem x (occurrence_dates schedule term today db)
unfolding occurrence_dates
occurrence-Elem schedule term today db x h k same =
    let first = first_occurrence schedule.day_of_week today in
    (weekly-Elem (weeks_until first term.end_date) first term.end_date
        (session_dates schedule.id today db db.sessions) x (omega arith)).1
      (inr (
        subst (λ d. IsWeekly (first_occurrence d today) term.end_date x) same
          (weekday-IsWeekly x today term.end_date h k)))

module _ (k : ℕ) (e : Edit) (actor : Option ℕ) (today : Date) (db : Database) (schedule : Schedule)
    (term : AcademicTerm) where
  -- What the edit moves the class to.
  abbrev pub target_room : Room
  target_room = or_keep e.new_room schedule.room

  abbrev pub target_start : TimeOfDay
  target_start = or_keep e.new_start schedule.start_time

  abbrev pub target_end : TimeOfDay
  target_end = or_keep e.new_end schedule.end_time

  -- No date of the loop raised.
  move_checked :
      (n : ℕ) (after : Database)
      → update_schedule k e actor today db ≡ (ok n, after)
      → schedule_by_id k db ≡ some schedule
      → term_by_id schedule.term_id db ≡ some term
      → is_move e schedule ≡ true
      → is_online schedule.modality ≡ false
      → find
          (is_blocked schedule target_room target_start target_end today db)
          (occurrence_dates schedule term today db)
        ≡ none
  unfolding update_schedule assert_occurrences_free require_writable_term
  move_checked n after run row row' moves onsite =
      elim (Option-cases (
        find (is_blocked schedule target_room target_start target_end today db)
          (occurrence_dates schedule term today db))) [
            | inl f ↦ f
            | inr (d, f) ↦ elim (Bool-cases (is_archived_term term.status)) [
              | inl g ↦
                  let no : false ≡ true = rw (row, row', g) at (ap (λ p. is_answered p.0) run) in
                  absurd (ground arith)
              | inr g ↦
                  let no : false ≡ true =
                    rw (row, row', g, moves, onsite, f) at (ap (λ p. is_answered p.0) run) in
                  absurd (ground arith)
            ]
          ]

  -- Where an edit that changes the room or a time of a class that does not meet online succeeds: on each
  -- of the class's weekdays from today to the end of its term, also beyond the materialized dates, on
  -- which the class's session is not settled and no break or suspension covers the room's building, the
  -- room was free at the new times, the class itself and its session of that date left out.
  pub update_schedule-free :
      (n : ℕ) (after : Database)
      → update_schedule k e actor today db ≡ (ok n, after)
      → schedule_by_id k db ≡ some schedule
      → term_by_id schedule.term_id db ≡ some term
      → is_move e schedule ≡ true
      → is_online schedule.modality ≡ false
      → (x : Date) → today ≤ x
      → x ≤ term.end_date
      → weekday x ≡ schedule.day_of_week
      → has_settled (own_session schedule.id today x db) ≡ false
      → excused_checker schedule.term_id db x target_room.building_id ≡ false
      → room_is_free target_room
          (combine x target_start)
          (combine x target_end)
          (key_of (own_session schedule.id today x db))
          (some schedule.id)
          db
        ≡ true
  update_schedule-free n after run row row' moves onsite x from_today until_end same unsettled
        working =
      let blocked = is_blocked schedule target_room target_start target_end today db in
      let dates = occurrence_dates schedule term today db in
      let free = find-none blocked dates (move_checked n after run row row' moves onsite) in
      not_blocked schedule target_room target_start target_end today db x
        (All-Elem (λ d. blocked d ≡ false) dates x free
          (occurrence-Elem schedule term today db x from_today until_end same))
        unsettled working
