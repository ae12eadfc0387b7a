-- ===== src/Availability.antt =====
-- ops/availability.py: whether a room, or a faculty member, is free in a half-open interval.
pub mod Latest
pub mod Holds
pub mod Recurs
pub mod Occupied
pub mod Rooms
pub mod Times
use fluxtrack_main.Calendar.{Date, Instant, TimeOfDay, combine, local_date, minutes, weekday}
use fluxtrack_main.Materialize.{
  approved_items, decided_before, is_occurrence, request_of, window_covers,
}
use fluxtrack_main.Model.{
  AcademicTerm, Booking, Database, ModalityShiftItem, ModalityShiftRequest, Room, Schedule, Session,
  effective_modality, is_active_schedule, is_active_term, is_approved, is_occupying, is_online,
  overlaps,
}
use fluxtrack_main.Prelude.{
  Bool, List, Option, String, [], any, false, filter, if_some, if◌then◌else◌, is_key, is_none, leb,
  none, not, some, suc, true, zero, ℕ, ◌&&◌, ◌++◌, ◌+◌, ◌-◌, ◌==◌, ◌||◌, ◌∷◌,
}
use fluxtrack_main.Suspensions.{excused_checker}

-- A keyword argument `exclude_...=None`: whether the key is the excluded one.
abbrev pub is_excluded : Option ℕ → ℕ → Bool
is_excluded exclude k = is_key exclude k

-- The rows of `_session_occupants`.
abbrev pub is_occupant : Room → Instant → Instant → Option ℕ → Session → Bool
is_occupant room start end exclude s =
    s.room.id == room.id
    && (is_occupying s.status
        && (is_none s.room_released_at
            && (overlaps s.scheduled_start s.scheduled_end start end
                && not (is_excluded exclude s.id))))

unfoldable pub session_occupies : Room → Instant → Instant → Option ℕ → Database → Bool
session_occupies room start end exclude db =
    any (λ s. not (is_online (effective_modality s)))
      (filter (is_occupant room start end exclude) db.sessions)

abbrev pub is_booked : Room → Instant → Instant → Booking → Bool
is_booked room start end b =
    b.room_id == room.id
    && (b.is_active_booking && overlaps b.start_datetime b.end_datetime start end)

-- `item.new_start_time or item.schedule.start_time`
abbrev pub time_or : Option TimeOfDay → TimeOfDay → TimeOfDay
time_or none t = t
time_or (some u) t = u

abbrev pub has_room : Option Room → Room → Bool
has_room none room = false
has_room (some r) room = r.id == room.id

-- The rows of `_reservation_occupies`: the item and its request.
abbrev pub is_reservation : Room → Date → Option ℕ → ModalityShiftItem → ModalityShiftRequest → Bool
is_reservation room date exclude item r =
    has_room item.assigned_room room
    && (is_approved r.status
        && (window_covers r date
            && (item.schedule.day_of_week == weekday date
                && (not (is_online r.target_modality)
                    && not (is_excluded exclude item.schedule.id)))))

abbrev pub reserved_slot : Date → Instant → Instant → ModalityShiftItem → Bool
reserved_slot date start end item =
    overlaps (combine date (time_or item.new_start_time item.schedule.start_time))
      (combine date (time_or item.new_end_time item.schedule.end_time)) start end

unfoldable pub reservation_occupies : Room → Instant → Instant → Option ℕ → Database → Bool
reservation_occupies room start end exclude db =
    let date = local_date start in
    any
      (λ item.
        if_some (request_of db item) (λ r. is_reservation room date exclude item r) false
        && reserved_slot date start end item)
      db.items

-- `schedule.term` is ACTIVE and contains the date.
abbrev pub term_runs : Schedule → Date → AcademicTerm → Bool
term_runs s date t =
    t.id == s.term_id && (is_active_term t.status && (leb t.start_date date && leb date t.end_date))

-- The rows of the query of `_schedule_occupies`.
abbrev pub is_recurring : Room → Date → Option ℕ → Database → Schedule → Bool
is_recurring room date exclude db s =
    s.room.id == room.id
    && (is_active_schedule s.status
        && (any (term_runs s date) db.terms
            && (s.day_of_week == weekday date && not (is_excluded exclude s.id))))

-- `.order_by("schedule_id", "-request__decided_at", "-pk")` and `setdefault`: the item of the latest
-- decision, and of the highest key on a tie.
pub latest_shift :
    Option (ModalityShiftItem × ModalityShiftRequest)
    → List (ModalityShiftItem × ModalityShiftRequest)
    → Option (ModalityShiftItem × ModalityShiftRequest)
latest_shift best [] = best
latest_shift none (x ∷ xs) = latest_shift (some x) xs
latest_shift (some b) (x ∷ xs) =
    latest_shift (if decided_before x.1.decided_at b.1.decided_at then some b else some x) xs

-- The last two `continue`s: whether the old slot is given up.
abbrev pub gives_up : Option (ModalityShiftItem × ModalityShiftRequest) → Schedule → Bool
gives_up none s = is_online s.modality
gives_up (some (item, r)) s = is_online r.target_modality || not (is_none item.assigned_room)

pub shift_of : Schedule → Date → Database → Option (ModalityShiftItem × ModalityShiftRequest)
unfolding latest_shift approved_items
shift_of s date db = latest_shift none (approved_items db.items s date db)

-- One turn of the loop of `_schedule_occupies`.
abbrev pub reserves : Date → Instant → Instant → Database → Schedule → Bool
reserves date start end db s =
    if any (is_occurrence s.id date) db.sessions
    then false
    else if excused_checker s.term_id db date s.room.building_id
    then false
    else if gives_up (shift_of s date db) s
    then false
    else overlaps (combine date s.start_time) (combine date s.end_time) start end

unfoldable pub schedule_occupies : Room → Instant → Instant → Option ℕ → Database → Bool
unfolding shift_of excused_checker
schedule_occupies room start end exclude db =
    let date = local_date start in
    any (reserves date start end db) (filter (is_recurring room date exclude db) db.schedules)

-- The two excluded keys: of a session, of a schedule.
unfoldable pub room_is_free : Room → Instant → Instant → Option ℕ → Option ℕ → Database → Bool
unfolding session_occupies schedule_occupies reservation_occupies
room_is_free room start end exclude_session exclude_schedule db =
    if session_occupies room start end exclude_session db
    then false
    else if any (is_booked room start end) db.bookings
    then false
    else if schedule_occupies room start end exclude_schedule db
    then false
    else if reservation_occupies room start end exclude_schedule db
    then false
    else true

abbrev pub is_conflict : ℕ → Instant → Instant → Option ℕ → Session → Bool
is_conflict member start end exclude s =
    s.faculty_id == member
    && (is_occupying s.status
        && (overlaps s.scheduled_start s.scheduled_end start end && not (is_excluded exclude s.id)))

unfoldable pub faculty_has_conflict : ℕ → Instant → Instant → Option ℕ → Database → Bool
faculty_has_conflict member start end exclude db =
    any (is_conflict member start end exclude) db.sessions

abbrev pub prefer : Option Room → List Room → List Room
prefer none free = free
prefer (some p) free =
    if any (λ r. r.id == p.id) free
    then filter (λ r. r.id == p.id) free ++ filter (λ r. not (r.id == p.id)) free
    else free

-- `_DAY_OPEN`, `_DAY_CLOSE`
abbrev pub day_open : TimeOfDay
day_open = minutes 420

abbrev pub day_close : TimeOfDay
day_close = minutes 1260

abbrev pub is_nil : List Room → Bool
is_nil [] = true
is_nil (r ∷ rs) = false

-- The database's order of texts, by which `order_by("code")` sorts.
module _ (before : String → String → Bool) where
  insert_room : Room → List Room → List Room
  insert_room r [] = r ∷ []
  insert_room r (x ∷ xs) =
      let rest = insert_room r xs in if before x.code r.code then x ∷ rest else r ∷ x ∷ xs

  pub order_by_code : List Room → List Room
  unfolding insert_room
  order_by_code [] = []
  order_by_code (r ∷ rs) = insert_room r (order_by_code rs)

  unfoldable pub free_rooms_in_building :
      ℕ → Instant → Instant → Option ℕ → Option Room → Database → List Room
  unfolding order_by_code room_is_free
  free_rooms_in_building building start end exclude prefer_room db = prefer prefer_room (
      filter (λ r. room_is_free r start end exclude none db)
        (order_by_code (filter (λ r. r.building_id == building) db.rooms)))

  unfoldable pub available_rooms_for : Session → Database → List Room
  unfolding free_rooms_in_building
  available_rooms_for s db =
      free_rooms_in_building s.schedule.room.building_id s.scheduled_start s.scheduled_end
        (some s.id) (some s.schedule.room) db

  -- The three `continue`s of `available_times_for`.
  abbrev pub is_offered : Session → Instant → Instant → Database → Bool
  is_offered s c_start c_end db =
      if c_start == s.scheduled_start && c_end == s.scheduled_end
      then false
      else if is_nil
          (free_rooms_in_building s.schedule.room.building_id c_start c_end (some s.id) none db)
      then false
      else if faculty_has_conflict s.faculty_id c_start c_end (some s.id) db
      then false
      else true

  -- `while cursor + duration <= day_close`, on fuel.
  pub step_slots :
      (fuel : ℕ) (duration cursor limit : ℕ) → Session → Database → List (Instant × Instant)
  unfolding free_rooms_in_building faculty_has_conflict
  step_slots zero duration cursor limit s db = []
  step_slots (suc fuel) duration cursor limit s db =
      let rest = step_slots fuel duration (cursor + duration) limit s db in
      if not (leb (cursor + duration) limit)
      then []
      else if is_offered s cursor (cursor + duration) db
      then (cursor, cursor + duration) ∷ rest
      else rest

  -- The slots, with fuel for the microseconds of the campus day.
  unfoldable pub available_times_for : Session → Database → List (Instant × Instant)
  unfolding step_slots
  available_times_for s db =
      let date = local_date s.scheduled_start in
      step_slots (day_close - day_open + 1) (s.scheduled_end - s.scheduled_start)
        (combine date day_open) (combine date day_close) s db
