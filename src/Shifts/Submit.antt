-- ===== src/Shifts/Submit.antt =====
-- scheduling/services.py, `submit_modality_shift`: the gates, the routing and the atomic ticket.
pub mod Cases
pub mod Double
pub mod Opened
pub mod Lead
pub mod Weeks
use fluxtrack_main.Availability.{available_rooms_for, faculty_has_conflict}
use fluxtrack_main.Calendar.{Date, Instant, TimeOfDay, combine, day, local_date}
use fluxtrack_main.Effects.{
  Action, archived, atomic, double_books, get_or_raise, gets, inverted_window, move_needs_room,
  no_dean, no_schedules, no_sessions, ok, past_cutoff, pure, recent_request, require, shift_error,
  throw, ◌>>=◌, ◌>>◌,
}
use fluxtrack_main.Model.{
  Database, Modality, ModalityShiftItem, ModalityShiftRequest, Room, Schedule, Session, ShiftStatus,
  User, dean, is_archived_term, is_dean, is_online, is_pending, modality_shift_lead_days,
  modality_shift_submitted, shift_submitted,
}
use fluxtrack_main.Ops.{get_policy, log, notify_users, term_by_id}
use fluxtrack_main.Prelude.{
  Bool, List, Option, String, [], all, any, false, find, if_some, if◌then◌else◌, is_key, is_none,
  leb, ltb, map, min, none, not, some, true, ℕ, ◌&&◌, ◌*◌, ◌++◌, ◌+◌, ◌-◌, ◌==◌, ◌||◌, ◌∷◌,
}
use fluxtrack_main.Prelude.Distinct.{distinct}
use fluxtrack_main.Shifts.{in_window_sessions, single_term}
use fluxtrack_main.Suspensions.{fresh_key}

-- `_REREQUEST_COOLDOWN_DAYS`
abbrev pub cooldown_days : ℕ
cooldown_days = 2

-- `decided_at__gte=cooldown_cutoff`: a null is not.
abbrev decided_since : Option Instant → Instant → Bool
decided_since none cutoff = false
decided_since (some t) cutoff = leb cutoff t

abbrev pub has_item : Schedule → Database → ModalityShiftRequest → Bool
has_item schedule db r =
    any (λ item. item.request_id == r.id && item.schedule.id == schedule.id) db.items

-- A request of the user for the schedule that is pending, or was decided within the cooldown.
abbrev pub has_recent : User → Instant → Database → Schedule → Bool
has_recent user now db schedule =
    any
      (λ r.
        r.requester == user.id
        && (has_item schedule db r
            && (is_pending r.status || decided_since r.decided_at (now - cooldown_days * day))))
      db.requests

unfoldable pub is_before_lead_cutoff : Date → Instant → Database → Bool
unfolding get_policy
is_before_lead_cutoff earliest now db =
    ltb now (combine (earliest - get_policy modality_shift_lead_days db) 0)

-- The window of the next `n` weeks, from the day after the lead-time cutoff.
unfoldable pub weeks_window : ℕ → Instant → Database → Date × Date
unfolding get_policy
weeks_window n now db =
    let start = local_date now + (get_policy modality_shift_lead_days db + 1) in
    (start, start + (n * 7 - 1))

abbrev is_dean_of : ℕ → User → Bool
is_dean_of d u = is_dean u.role && (is_key u.department d && u.user_active)

abbrev pub route_to_dean : Option ℕ → Database → Option User
route_to_dean none db = none
route_to_dean (some d) db = find (is_dean_of d) db.users

-- The sessions of all selected schedules, in the order in which they are gathered.
pub gathered : List Schedule → Date → Date → Database → List Session
unfolding in_window_sessions
gathered [] first last db = []
gathered (s ∷ ss) first last db = in_window_sessions s first last db ++ gathered ss first last db

-- `min(all_dates)`, of the sessions that there are.
abbrev pub earliest_from : Date → List Session → Date
earliest_from d [] = d
earliest_from d (s ∷ ss) = earliest_from (min d s.date) ss

-- The lead-time gate on the earliest date.
abbrev pub gate_lead : List Session → Instant → Action Unit
gate_lead [] now = throw (shift_error no_sessions)
gate_lead (s ∷ ss) now = do
  early ← gets (is_before_lead_cutoff (earliest_from s.date ss) now)
  require early (shift_error past_cutoff)

-- `_single_term_id_for_schedules`, on a selection that is not empty.
abbrev pub selected_term : List Schedule → Action ℕ
selected_term [] = throw (shift_error no_schedules)
selected_term (s ∷ ss) = single_term (distinct (map (λ x. x.term_id) (s ∷ ss)))

abbrev pub routed : Option User → Action User
routed none = throw (shift_error no_dean)
routed (some u) = pure u

abbrev pub TimeMove : Type 0
TimeMove = Option (TimeOfDay × TimeOfDay)

abbrev pub takes_rooms : TimeMove → Modality → Bool
takes_rooms none target = true
takes_rooms (some move) target = not (is_online target)

pub double_booked : TimeMove → User → List Session → Database → Bool
unfolding faculty_has_conflict
double_booked none user sessions db = false
double_booked (some (st, et)) user sessions db =
    any (λ s. faculty_has_conflict user.id (combine s.date st) (combine s.date et) (some s.id) db)
      sessions

abbrev pub start_of : TimeMove → Option TimeOfDay
start_of none = none
start_of (some (st, et)) = some st

abbrev pub end_of : TimeMove → Option TimeOfDay
end_of none = none
end_of (some (st, et)) = some et

abbrev no_session_left : List Session → Bool
no_session_left [] = true
no_session_left (s ∷ ss) = false

abbrev pub new_item : ℕ → ℕ → Schedule → Option Room → TimeMove → ModalityShiftItem
new_item k request_id schedule room move = record {
  id = k;
  request_id = request_id;
  schedule = schedule;
  preferred_room = room;
  assigned_room = none;
  new_start_time = start_of move;
  new_end_time = end_of move;
}

-- One item for each schedule; the preferences were validated before the first write.
pub add_items : ℕ → TimeMove → List (Schedule × Option Room) → Database → Database
unfolding fresh_key
add_items request_id move [] db = db
add_items request_id move ((s, room) ∷ rest) db =
    let k = fresh_key (map (λ i. i.id) db.items) in
    add_items request_id move rest
      (record db { items = db.items ++ new_item k request_id s room move ∷ [] })

abbrev pub is_move : TimeMove → Bool
is_move move = not (is_none move)

abbrev pub new_request :
    User → User → Modality → Date → Date → TimeMove → Database → ModalityShiftRequest
new_request user decider target first last move db = record {
  id = fresh_key (map (λ r. r.id) db.requests);
  requester = user.id;
  dean = some decider.id;
  department = user.department;
  target_modality = target;
  window_start = first;
  window_end = last;
  is_time_move = is_move move;
  status = ShiftStatus.pending;
  decision_reason = "";
  decided_at = none;
  decided_by = none;
}

-- The writes of the ticket.
pub open_ticket :
    ModalityShiftRequest
    → User
    → User
    → TimeMove
    → List (Schedule × Option Room)
    → Action ModalityShiftRequest
unfolding log notify_users add_items
open_ticket r user decider move chosen db = (
  ok r,
  notify_users (decider.id ∷ []) modality_shift_submitted (
      log (some user.id) shift_submitted (some r.id)
        (add_items r.id move chosen (record db { requests = db.requests ++ r ∷ [] }))),
)

abbrev pub lock_open_term : ℕ → Action Unit
lock_open_term t = do
  found ← gets (term_by_id t)
  term ← get_or_raise found
  require (not (is_archived_term term.status)) (shift_error archived)

module _ (before : String → String → Bool) where
  -- The preference of a schedule, if the room is free for each of its sessions.
  pub valid_preference : (ℕ → Option Room) → Schedule → List Session → Database → Option Room
  unfolding available_rooms_for
  valid_preference wanted schedule sessions db =
      if_some (wanted schedule.id)
        (λ room.
          if not (no_session_left sessions)
            && all (λ s. any (λ r. r.id == room.id) (available_rooms_for before s db)) sessions
          then some room
          else none)
        none

  abbrev pub preferences :
      (ℕ → Option Room) → List Schedule → Date → Date → Database → List (Schedule × Option Room)
  preferences wanted schedules first last db =
      map (λ s. (s, valid_preference wanted s (in_window_sessions s first last db) db)) schedules

  unfoldable pub submit_modality_shift :
      User
      → List Schedule
      → Modality
      → Date
      → Date
      → (ℕ → Option Room)
      → TimeMove
      → Instant
      → Action ModalityShiftRequest
  unfolding is_before_lead_cutoff gathered double_booked valid_preference open_ticket fresh_key
  submit_modality_shift user schedules target first last wanted move now = do
    t ← selected_term schedules
    require (leb first last) (shift_error inverted_window)
    recent ← gets (λ db. any (has_recent user now db) schedules)
    require (not recent) (shift_error recent_request)
    require (takes_rooms move target) (shift_error move_needs_room)
    sessions ← gets (gathered schedules first last)
    gate_lead sessions now
    found ← gets (route_to_dean user.department)
    decider ← routed found
    clash ← gets (double_booked move user sessions)
    require (not clash) (shift_error double_books)
    chosen ← gets (preferences wanted schedules first last)
    atomic (do
      lock_open_term t
      r ← gets (new_request user decider target first last move)
      open_ticket r user decider move chosen)
