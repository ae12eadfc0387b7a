-- ===== src/Checker.antt =====
-- web/checker.py: the checker's scan of a room, and the writes of an action.
pub mod Actions
pub mod Records
pub mod Authority
pub mod Board
pub mod Replay
use fluxtrack_main.Calendar.{Instant, local_date, local_time}
use fluxtrack_main.Duty.{
  CheckerResolution, SessionState, assignment_covers_now, resolve_checker_scan,
}
use fluxtrack_main.Duty.Assign.{order_by_start}
use fluxtrack_main.Effects.{Action, atomic, modify, pure, ◌>>=◌, ◌>>◌}
use fluxtrack_main.Merge.{mark_absent, propagate_merged_absent, propagate_merged_present}
use fluxtrack_main.Model.{
  AcademicTerm, Assignment, CheckerOutcome, CheckerValidation, CheckinMethod, Database, DutyRole,
  NotificationType, Room, Scope, Session, SessionStatus, ValidationAction, absent_excluded,
  active_unverified, already_verified, checker_action, checker_bad_manual_code, checker_flag,
  checker_rate_limited, effective_modality, is_active, is_hr_admin, is_online, is_verified,
  no_session, off_duty, verified, wrong_floor,
}
use fluxtrack_main.Ops.{
  get_active_term, in_term, log, notify_ifo, notify_users, role_members, save_session,
}
use fluxtrack_main.Prelude.{
  Bool, List, Option, String, [], any, false, filter, find, if_some, if◌then◌else◌, is_key, leb,
  none, not, or_else, some, true, ℕ, ◌&&◌, ◌++◌, ◌==◌, ◌∷◌,
}
use fluxtrack_main.Scanning.{key_of, start}
use fluxtrack_main.Web.{
  Lookup, Site, Source, bad_payload, checker_rl, found, rate_limited, room_from_payload,
}

-- What the page shows.
pub data CheckerReply : Type 0 where
  bad_payload_page note_required_page : CheckerReply
  refused : CheckerOutcome → CheckerReply
  applied_page : CheckerReply

-- `_OUTCOME_ACTIONS`
abbrev pub permits : CheckerOutcome → ValidationAction → Bool
permits no_session ValidationAction.verified_empty = true
permits no_session _ = false
permits active_unverified ValidationAction.verified = true
permits active_unverified ValidationAction.flag_identity_mismatch = true
permits active_unverified ValidationAction.flag_not_present = true
permits active_unverified ValidationAction.verified_empty = false
permits off_duty _ = false
permits wrong_floor _ = false
permits already_verified _ = false
permits absent_excluded _ = false

-- `_FLAG_ACTIONS`
abbrev pub is_flag : ValidationAction → Bool
is_flag ValidationAction.flag_identity_mismatch = true
is_flag ValidationAction.flag_not_present = true
is_flag _ = false

abbrev pub is_not_present : ValidationAction → Bool
is_not_present ValidationAction.flag_not_present = true
is_not_present _ = false

abbrev pub identity_of : ValidationAction → Option Bool
identity_of ValidationAction.flag_identity_mismatch = some false
identity_of ValidationAction.verified = some true
identity_of _ = none

abbrev is_checker_role : DutyRole → Bool
is_checker_role DutyRole.checker = true
is_checker_role DutyRole.guard = false

abbrev pub is_floor_duty : Scope → Bool
is_floor_duty Scope.floor = true
is_floor_duty Scope.online = false

-- The user's active checker assignments of a kind in the active term that cover the instant.
abbrev pub is_duty_of : (Scope → Bool) → ℕ → Instant → AcademicTerm → Assignment → Bool
is_duty_of in_scope user now term a =
    a.user_id == user
    && (is_checker_role a.role
        && (in_scope a.scope
            && (a.is_active_assignment
                && (is_key a.term_id term.id
                    && assignment_covers_now a (local_date now) (local_time now)))))

floors_of : List Assignment → List ℕ
floors_of [] = []
floors_of (a ∷ duties) = a.floors ++ floors_of duties

-- A set of floors, here a list of its members.
unfoldable pub active_floor_ids : ℕ → Instant → Database → List ℕ
unfolding floors_of assignment_covers_now
active_floor_ids user now db =
    if_some (get_active_term db)
      (λ term. floors_of (filter (is_duty_of is_floor_duty user now term) db.assignments)) []

unfoldable pub is_online_on_duty : ℕ → Instant → Database → Bool
unfolding assignment_covers_now
is_online_on_duty user now db =
    if_some (get_active_term db)
      (λ term. any (is_duty_of (λ s. not (is_floor_duty s)) user now term) db.assignments) false

-- `_online_session`: the id is `none` when it is not a number.
abbrev pub online_session : Option ℕ → ℕ → Database → Option Session
online_session none user db = none
online_session (some k) user db =
    if_some (get_active_term db)
      (λ term.
        if_some (find (λ s. s.id == k && in_term term s) db.sessions)
          (λ s.
            if is_online (effective_modality s) && is_key s.online_checker user
            then some s
            else none)
          none)
      none

abbrev pub is_completed : SessionStatus → Bool
is_completed SessionStatus.completed = true
is_completed _ = false

abbrev pub is_in_room_today : Room → Instant → AcademicTerm → Session → Bool
is_in_room_today room now term s =
    s.room.id == room.id
    && (s.date == local_date now && (in_term term s && not (is_completed s.status)))

abbrev pub contains : Instant → Session → Bool
contains now s = leb s.scheduled_start now && leb now s.scheduled_end

abbrev unless_online : Session → Option Session
unless_online s = if is_online (effective_modality s) then none else some s

-- The room's ACTIVE session of today, else the one whose time contains now; none if it meets online.
unfoldable pub room_session : Room → Instant → Database → Option Session
unfolding order_by_start
room_session room now db =
    if_some (get_active_term db)
      (λ term.
        let rows = order_by_start (filter (is_in_room_today room now term) db.sessions) in
        if_some (or_else (find (λ s. is_active s.status) rows) (find (contains now) rows))
          unless_online none)
      none

-- `session.verified_by_checker`
abbrev pub verified_by_checker : Database → Session → Bool
verified_by_checker db s =
    any (λ v. is_key v.session_id s.id && is_verified v.action) db.validations

abbrev state_of : Database → Session → SessionState
state_of db s = record { id = s.id; status = s.status; verified = verified_by_checker db s }

abbrev session_state : Database → Option Session → Option SessionState
session_state db none = none
session_state db (some s) = some (state_of db s)

-- The decision of the pure core on the current state.
unfoldable pub gate : ℕ → Instant → Room → Database → CheckerResolution
unfolding resolve_checker_scan active_floor_ids room_session
gate user now room db =
    resolve_checker_scan (active_floor_ids user now db) room.floor_id
      (session_state db (room_session room now db))

-- The scan of a room decides and writes nothing more than the lookup does.
pub data CheckerView : Type 0 where
  no_room : Lookup → CheckerView
  room_view : Room → Option Session → CheckerResolution → CheckerView

abbrev checker_source : Source
checker_source = record {
  limiter = checker_rl;
  limited = λ n. checker_rate_limited (some n);
  unknown_code = checker_bad_manual_code;
}

view_of : ℕ → Instant → Lookup → Database → CheckerView
unfolding gate
view_of user now (found room method) db =
    room_view room (room_session room now db) (gate user now room db)
view_of user now (Lookup.unknown method) db = no_room (Lookup.unknown method)
view_of user now rate_limited db = no_room rate_limited
view_of user now bad_payload db = no_room bad_payload

unfoldable pub resolve : (String → Option String) → ℕ → Instant → String → Site → CheckerView × Site
unfolding room_from_payload view_of
resolve query_token user now payload site =
    let (lookup, after) = room_from_payload query_token checker_source user now payload site in
    (view_of user now lookup after.db, after)

-- Who acts, on what, and how.
pub record Check : Type 0 where
  pub user : ℕ
  pub now : Instant
  pub session : Option Session
  pub room : Room
  pub action : ValidationAction
  pub note : String
  pub identity_match : Option Bool
  pub scanned_at : Instant
  pub offline : Bool
  pub online : Bool

abbrev pub validation_of : Check → CheckerValidation
validation_of c = record {
  session_id = key_of c.session;
  room_id = c.room.id;
  checker = c.user;
  action = c.action;
  identity_match = c.identity_match;
  note = c.note;
  scanned_at = some c.scanned_at;
  offline_queued = c.offline;
}

pub write_validation : Check → Database → Database
unfolding log
write_validation c db =
    log (some c.user) (checker_action c.action c.offline c.online) (key_of c.session)
      (record db { validations = db.validations ++ validation_of c ∷ [] })

abbrev notify_hr : NotificationType → Database → Database
unfolding notify_users
notify_hr kind db = notify_users (role_members is_hr_admin db) kind db

pub tell_flag : ValidationAction → Database → Database
unfolding notify_ifo notify_hr
tell_flag action db =
    if is_flag action then notify_hr checker_flag (notify_ifo checker_flag db) else db

-- An online session is activated by a Verify and failed by a Flag-not-present, with its merged group.
pub online_effect : Check → Session → Action Unit
unfolding save_session propagate_merged_present propagate_merged_absent
online_effect c s =
    if is_verified c.action
    then atomic (do
      modify (save_session s.id (start c.scanned_at CheckinMethod.online_manual))
      propagate_merged_present s.id c.scanned_at (some c.user)
      pure tt)
    else if is_not_present c.action
    then atomic (do
      modify (save_session s.id mark_absent)
      propagate_merged_absent s (some c.user) c.now
      pure tt)
    else pure tt

-- The status is written for an online action on a session only.
abbrev pub session_effect : Check → Option Session → Bool → Action Unit
session_effect c (some s) true = online_effect c s
session_effect c (some s) false = pure tt
session_effect c none is_online_check = pure tt

-- `_apply_action`
unfoldable pub apply_action : Check → Action Unit
unfolding write_validation tell_flag online_effect
apply_action c = do
  modify (write_validation c)
  session_effect c c.session c.online
  modify (tell_flag c.action)
