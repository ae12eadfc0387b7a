-- ===== src/ScheduleOps.antt =====
-- scheduling/schedule_ops.py: an edit of one schedule and its cancellation, within a term. A save of a
-- schedule is seen by the rows that refer to it, so it is written to their copies too.
pub mod Weeks
pub mod Free
pub mod History
use fluxtrack_main.Availability.{room_is_free}
use fluxtrack_main.Calendar.{Date, TimeOfDay, combine, weekday}
use fluxtrack_main.Effects.{
  Action, atomic, err, get_or_raise, gets, ok, pure, schedule_conflict, ◌>>=◌, ◌>>◌,
}
use fluxtrack_main.Model.{
  AcademicTerm, Database, Room, Schedule, ScheduleStatus, Session, SessionStatus, is_online,
  is_scheduled, schedule_archived, schedule_updated, session_cancelled, take_chars,
}
use fluxtrack_main.Ops.{
  flip_once, keys, log, log_each, require_writable_term, term_by_id, update_sessions,
}
use fluxtrack_main.Prelude.{
  Bool, List, Option, String, [], false, filter, find, if_some, if◌then◌else◌, leb, length, ltb,
  none, not, or_else, some, suc, zero, ℕ, ◌%◌, ◌&&◌, ◌+◌, ◌-◌, ◌==◌, ◌||◌, ◌∷◌,
}
use fluxtrack_main.Prelude.Unique.{has_key}
use fluxtrack_main.Prelude.Update.{update}
use fluxtrack_main.Scanning.{key_of}
use fluxtrack_main.Suspensions.{excused_checker}
use fluxtrack_main.Terms.Names.{is_empty, strip}

abbrev pub is_of : ℕ → Session → Bool
is_of k s = s.schedule.id == k

abbrev pub is_future_of : ℕ → Date → Session → Bool
is_future_of k today s = is_of k s && leb today s.date

-- `_future_scheduled`
abbrev pub is_future_scheduled : ℕ → Date → Session → Bool
is_future_scheduled k today s = is_of k s && (is_scheduled s.status && leb today s.date)

abbrev pub find_last : (Session → Bool) → List Session → Option Session
find_last p [] = none
find_last p (s ∷ rows) = or_else (find_last p rows) (if p s then some s else none)

-- `existing.get(date)`: the dict keeps the last session of a date.
abbrev pub own_session : ℕ → Date → Date → Database → Option Session
own_session k today d db = find_last (λ s. is_future_of k today s && s.date == d) db.sessions

abbrev pub has_scheduled : Option Session → Bool
has_scheduled none = false
has_scheduled (some s) = is_scheduled s.status

abbrev pub has_settled : Option Session → Bool
has_settled none = false
has_settled (some s) = not (is_scheduled s.status)

-- A set of dates, kept in the order of `sorted`.
unfoldable pub insert_date : Date → List Date → List Date
insert_date d [] = d ∷ []
insert_date d (e ∷ dates) =
    let rest = insert_date d dates in
    if d == e then e ∷ dates else if ltb d e then d ∷ e ∷ dates else e ∷ rest

-- The dates of the materialized sessions that are SCHEDULED.
unfoldable pub session_dates : ℕ → Date → Database → List Session → List Date
unfolding insert_date
session_dates k today db [] = []
session_dates k today db (s ∷ rows) =
    let rest = session_dates k today db rows in
    if is_future_of k today s && has_scheduled (own_session k today s.date db)
    then insert_date s.date rest
    else rest

-- `(schedule.day_of_week - today.weekday()) % 7` days ahead.
abbrev pub first_occurrence : ℕ → Date → Date
first_occurrence day_of_week today = today + (day_of_week + 7 - weekday today) % 7

-- `while occurrence_date <= end`, on fuel.
unfoldable pub weekly : ℕ → Date → Date → List Date → List Date
unfolding insert_date
weekly zero d end dates = dates
weekly (suc n) d end dates =
    let rest = weekly n (d + 7) end (insert_date d dates) in if leb d end then rest else dates

-- The fuel of the loop: it is entered once for each week at most.
abbrev pub weeks_until : Date → Date → ℕ
weeks_until d end = suc end - d

unfoldable pub occurrence_dates : Schedule → AcademicTerm → Date → Database → List Date
unfolding weekly session_dates
occurrence_dates schedule term today db =
    let first = first_occurrence schedule.day_of_week today in
    weekly (weeks_until first term.end_date) first term.end_date
      (session_dates schedule.id today db db.sessions)

-- The body of the second loop: whether it raises at a date.
unfoldable pub is_blocked : Schedule → Room → TimeOfDay → TimeOfDay → Date → Database → Date → Bool
unfolding excused_checker room_is_free
is_blocked schedule room from to today db d =
    let existing = own_session schedule.id today d db in
    if has_settled existing
    then false
    else if excused_checker schedule.term_id db d room.building_id
    then false
    else not
        (room_is_free room (combine d from) (combine d to) (key_of existing) (some schedule.id) db)

-- `_assert_occurrences_free`
unfoldable pub assert_occurrences_free :
    Schedule → AcademicTerm → Room → TimeOfDay → TimeOfDay → Date → Action Unit
unfolding is_blocked occurrence_dates
assert_occurrences_free schedule term room from to today db =
    if is_online schedule.modality
    then (ok tt, db)
    else if_some
        (find (is_blocked schedule room from to today db) (occurrence_dates schedule term today db))
        (λ d. (err (schedule_conflict d), db)) (ok tt, db)

-- What an edit gives; `none` leaves a field as it is.
pub record Edit : Type 0 where
  pub faculty : Option ℕ
  pub new_room : Option Room
  pub new_start : Option TimeOfDay
  pub new_end : Option TimeOfDay
  pub new_count : Option ℕ

abbrev pub or_keep : {A : Type 0} → Option A → A → A
or_keep none a = a
or_keep (some b) a = b

abbrev pub apply_edit : Edit → Schedule → Schedule
apply_edit e schedule = record schedule {
  faculty_id = or_keep e.faculty schedule.faculty_id;
  room = or_keep e.new_room schedule.room;
  start_time = or_keep e.new_start schedule.start_time;
  end_time = or_keep e.new_end schedule.end_time;
  enrolled_count = or_keep e.new_count schedule.enrolled_count;
}

-- Whether the room or a time changes.
abbrev pub is_move : Edit → Schedule → Bool
is_move e schedule =
    not ((or_keep e.new_room schedule.room).id == schedule.room.id)
    || (not (or_keep e.new_start schedule.start_time == schedule.start_time)
        || not (or_keep e.new_end schedule.end_time == schedule.end_time))

abbrev pub schedule_by_id : ℕ → Database → Option Schedule
schedule_by_id k db = find (λ s. s.id == k) db.schedules

unfoldable pub save_schedule : ℕ → (Schedule → Schedule) → Database → Database
save_schedule k change db = record db {
  schedules = update (λ s. s.id == k) change db.schedules;
  sessions = update (is_of k) (λ s. record s { schedule = change s.schedule }) db.sessions;
  items =
      update (λ i. i.schedule.id == k) (λ i. record i { schedule = change i.schedule }) db.items;
}

-- A future session takes the schedule's faculty, room and times, on its own date.
abbrev pub follow : Schedule → Session → Session
follow schedule s = record s {
  faculty_id = schedule.faculty_id;
  room = schedule.room;
  scheduled_start = combine s.date schedule.start_time;
  scheduled_end = combine s.date schedule.end_time;
}

abbrev pub check_move : Edit → Schedule → AcademicTerm → Date → Action Unit
check_move e schedule term today db =
    if is_move e schedule
    then assert_occurrences_free schedule term (or_keep e.new_room schedule.room)
        (or_keep e.new_start schedule.start_time) (or_keep e.new_end schedule.end_time) today db
    else (ok tt, db)

-- The row, locked, with its term, which must be writable.
abbrev pub locked : ℕ → Action (Schedule × AcademicTerm)
locked k = do
  row ← gets (schedule_by_id k)
  schedule ← get_or_raise row
  row' ← gets (term_by_id schedule.term_id)
  term ← get_or_raise row'
  require_writable_term term
  pure (schedule, term)

abbrev pub future_keys : ℕ → Date → Database → List ℕ
future_keys k today db = keys (filter (is_future_scheduled k today) db.sessions)

-- The saves, once the move is allowed.
abbrev pub write_edit : Edit → Schedule → ℕ → Option ℕ → Date → Action ℕ
write_edit e schedule k actor today db =
    let saved = save_schedule k (apply_edit e) db in
    let ids = future_keys k today saved in
    (
      ok (length ids),
      log actor (schedule_updated (length ids)) (some k)
          (update_sessions (λ s. has_key ids s.id) (follow (apply_edit e schedule)) saved),
    )

unfoldable pub update_schedule : ℕ → Edit → Option ℕ → Date → Action ℕ
unfolding assert_occurrences_free save_schedule update_sessions log
update_schedule k e actor today = atomic (do
  (schedule, term) ← locked k
  check_move e schedule term today
  write_edit e schedule k actor today)

-- `(reason or "Class no longer offered").strip()[:200]`
unfoldable pub reason_of : String → String
unfolding is_empty strip
reason_of reason =
    take_chars 200 (strip (if is_empty reason then "Class no longer offered" else reason))

abbrev pub cancel : String → Session → Session
cancel reason s = record s { status = SessionStatus.cancelled; cancelled_reason = reason }

abbrev pub archive : Schedule → Schedule
archive schedule = record schedule { status = ScheduleStatus.archived }

abbrev pub write_cancel : String → ℕ → Option ℕ → Date → Action ℕ
write_cancel reason k actor today db =
    let saved = save_schedule k archive db in
    let ids = future_keys k today saved in
    (
      ok (length ids),
      log actor (schedule_archived (length ids)) (some k)
          (flip_once (cancel reason) (session_cancelled reason k) actor ids saved),
    )

unfoldable pub cancel_schedule : ℕ → Option ℕ → String → Date → Action ℕ
unfolding save_schedule update_sessions log log_each reason_of
cancel_schedule k actor reason today =
    atomic (do (schedule, term) ← locked k; write_cancel (reason_of reason) k actor today)
