-- ===== src/Materialize.antt =====
-- scheduling/materialization.py: the dated sessions of a term.
pub mod Born
pub mod Calendar
pub mod Term
pub mod Frame
use fluxtrack_main.Calendar.{Date, Instant, TimeOfDay, combine, weekday}
use fluxtrack_main.Effects.{
  Action, err, gets, materialization_error, multiple_objects, ok, pure, require, throw, ◌>>=◌, ◌>>◌,
}
use fluxtrack_main.Model.{
  AcademicTerm, Database, ModalityShiftItem, ModalityShiftRequest, Room, Schedule, Session,
  SessionStatus, ended_early, is_active_schedule, is_approved, is_archived_term, is_draft_term,
  is_online, modality_materialize_no_room,
}
use fluxtrack_main.Ops.{keys, notify_ifo, release_room, save_session}
use fluxtrack_main.Prelude.{
  Bool, List, Option, [], any, count, false, filter, find, if_some, if◌then◌else◌, leb, ltb, max,
  min, none, not, some, suc, true, zero, ℕ, ◌&&◌, ◌++◌, ◌+◌, ◌-◌, ◌==◌, ◌∷◌,
}
use fluxtrack_main.Suspensions.{excused_checker, fresh_key}

pub record MaterializationResult : Type 0 where
  pub created : ℕ
  pub existing : ℕ
  pub skipped : ℕ

-- An approved item of the schedule whose window contains the date, with its request.
abbrev pub request_of : Database → ModalityShiftItem → Option ModalityShiftRequest
request_of db item = find (λ r. r.id == item.request_id) db.requests

abbrev pub window_covers : ModalityShiftRequest → Date → Bool
window_covers r date = leb r.window_start date && leb date r.window_end

unfoldable pub approved_items :
    List ModalityShiftItem
    → Schedule
    → Date
    → Database
    → List (ModalityShiftItem × ModalityShiftRequest)
approved_items [] schedule date db = []
approved_items (item ∷ rest) schedule date db =
    let others = approved_items rest schedule date db in
    if_some (request_of db item)
      (λ r.
        if is_approved r.status && (item.schedule.id == schedule.id && window_covers r date)
        then (item, r) ∷ others
        else others)
      others

abbrev pub decided_before : Option Instant → Option Instant → Bool
decided_before none none = false
decided_before none (some t) = true
decided_before (some t) none = false
decided_before (some t) (some u) = ltb t u

-- `.order_by("-request__decided_at")`, the first: on a tie the earlier row.
latest :
    Option (ModalityShiftItem × ModalityShiftRequest)
    → List (ModalityShiftItem × ModalityShiftRequest)
    → Option (ModalityShiftItem × ModalityShiftRequest)
latest best [] = best
latest none (x ∷ xs) = latest (some x) xs
latest (some b) (x ∷ xs) =
    latest (if decided_before b.1.decided_at x.1.decided_at then some x else some b) xs

abbrev declare_modality : ModalityShiftRequest → Session → Session
declare_modality r s = record s {
  declared_modality = some r.target_modality;
  modality_changed_at = r.decided_at;
  modality_changed_by = r.decided_by;
}

-- `request.decided_at or timezone.now()`
abbrev decided_or : Option Instant → Instant → Instant
decided_or none now = now
decided_or (some t) now = t

-- The time move of an item, if it has both ends.
move_times : Option TimeOfDay → Option TimeOfDay → Date → Session → Session
move_times (some st) (some et) date s = record s {
  scheduled_start = combine date st;
  scheduled_end = combine date et;
}
move_times (some st) none date s = s
move_times none et date s = s

apply_room : Option Room → ModalityShiftItem → ModalityShiftRequest → ℕ → Date → Database → Database
unfolding save_session notify_ifo move_times
apply_room none item r k date db =
    save_session k (declare_modality r) (notify_ifo modality_materialize_no_room db)
apply_room (some room) item r k date db =
    save_session k
      (λ s.
        move_times item.new_start_time item.new_end_time date
          (record (declare_modality r s) { room = room }))
      db

apply_shift :
    Option (ModalityShiftItem × ModalityShiftRequest) → ℕ → Date → Instant → Database → Database
unfolding save_session release_room apply_room
apply_shift none k date now db = db
apply_shift (some (item, r)) k date now db =
    if is_online r.target_modality
    then release_room k r.decided_by (decided_or r.decided_at now)
        (save_session k (declare_modality r) db)
    else apply_room item.assigned_room item r k date db

pub apply_approved_shift : ℕ → Schedule → Date → Instant → Database → Database
unfolding apply_shift latest approved_items
apply_approved_shift k schedule date now db =
    apply_shift (latest none (approved_items db.items schedule date db)) k date now db

-- The row that `get_or_create` inserts.
abbrev pub born : ℕ → Schedule → Date → Session
born k schedule date = record {
  id = k;
  schedule = schedule;
  faculty_id = schedule.faculty_id;
  room = schedule.room;
  date = date;
  scheduled_start = combine date schedule.start_time;
  scheduled_end = combine date schedule.end_time;
  status = SessionStatus.scheduled;
  actual_start = none;
  actual_end = none;
  checkin_method = none;
  declared_modality = none;
  modality_changed_at = none;
  modality_changed_by = none;
  handover_from_session = none;
  online_checker = none;
  ended_early = false;
  early_end_reason = "";
  room_released_at = none;
  cancelled_reason = "";
}

abbrev pub is_occurrence : ℕ → Date → Session → Bool
is_occurrence schedule_id date s = s.schedule.id == schedule_id && s.date == date

-- `Session.objects.get_or_create(schedule=..., date=...)` and what follows it. Two rows of one
-- occurrence raise MultipleObjectsReturned.
pub materialize_one :
    Instant → Date → Schedule → MaterializationResult → Action MaterializationResult
unfolding apply_approved_shift fresh_key
materialize_one now date schedule r db =
    if ltb 1 (count (is_occurrence schedule.id date) db.sessions)
    then (err multiple_objects, db)
    else if any (is_occurrence schedule.id date) db.sessions
    then (ok (record r { existing = r.existing + 1 }), db)
    else (let k = fresh_key (keys db.sessions) in
        (
          ok (record r { created = r.created + 1 }),
          apply_approved_shift k schedule date now
              (record db { sessions = db.sessions ++ born k schedule date ∷ [] }),
        ))

module _ (now : Instant) (excused : Date → ℕ → Bool) where
  -- The body of the inner loop, with its two `continue`s.
  abbrev pub visit : Date → Schedule → MaterializationResult → Action MaterializationResult
  visit date schedule r =
      if not (schedule.day_of_week == weekday date)
      then pure r
      else if excused date schedule.room.building_id
      then pure (record r { skipped = r.skipped + 1 })
      else materialize_one now date schedule r

  pub materialize_date : Date → List Schedule → MaterializationResult → Action MaterializationResult
  unfolding materialize_one
  materialize_date date [] r = pure r
  materialize_date date (s ∷ ss) r = do r' ← visit date s r; materialize_date date ss r'

  -- `while current < end`, on the number of days left.
  pub materialize_days :
      List Schedule → ℕ → Date → MaterializationResult → Action MaterializationResult
  unfolding materialize_date
  materialize_days schedules zero date r = pure r
  materialize_days schedules (suc n) date r = do
    r' ← materialize_date date schedules r
    materialize_days schedules n (date + 1) r'

abbrev pub nothing_made : MaterializationResult
nothing_made = record { created = 0; existing = 0; skipped = 0 }

abbrev pub schedules_of : AcademicTerm → Database → List Schedule
schedules_of term db =
    filter (λ s. s.term_id == term.id && is_active_schedule s.status) db.schedules

validate_term : AcademicTerm → Bool → Action Unit
validate_term term allow_draft =
    if is_archived_term term.status
    then throw materialization_error
    else if is_draft_term term.status && not allow_draft
    then throw materialization_error
    else pure tt

unfoldable pub materialize_term :
    AcademicTerm → Date → ℕ → Bool → Instant → Action MaterializationResult
unfolding validate_term materialize_days excused_checker
materialize_term term start days allow_draft now = do
  validate_term term allow_draft
  require (not (ltb days 1)) materialization_error
  let current = max start term.start_date
  let end = min (start + days) (term.end_date + 1)
  excused ← gets (excused_checker term.id)
  schedules ← gets (schedules_of term)
  if leb end current
      then pure nothing_made
      else materialize_days now excused schedules (end - current) current nothing_made
