-- ===== src/Checker/Actions.antt =====
-- web/checker.py, `action` and `_online_action`: a form that a checker posts, on a room or on an online session.
use fluxtrack_main.Calendar.{Instant}
use fluxtrack_main.Checker.{
  Check, CheckerReply, applied_page, apply_action, bad_payload_page, gate, identity_of,
  is_completed, is_flag, is_not_present, is_online_on_duty, note_required_page, online_session,
  permits, refused, room_session,
}
use fluxtrack_main.Effects.{Action, Result, err, ok}
use fluxtrack_main.Model.{
  AuditEvent, CheckerOutcome, Database, Room, Session, ValidationAction, absent_excluded,
  action_refused, is_absent, is_verified, off_duty,
}
use fluxtrack_main.Ops.{log}
use fluxtrack_main.Prelude.{
  Bool, Option, String, any, false, find, if_some, if◌then◌else◌, none, not, some, true, ℕ, ◌&&◌,
  ◌==◌, ◌||◌, ◌∷◌,
}
use fluxtrack_main.Terms.Names.{is_empty, strip}
use fluxtrack_main.Web.{CheckMark, Site, minute_of}

-- A field of a form: missing or empty, not a number, or a number.
pub data Field : Type 0 where
  missing not_number : Field
  number : ℕ → Field

pub record ActionForm : Type 0 where
  pub action : Option ValidationAction
  pub room_id : Field
  pub session_id : Field
  pub note : String

-- `not note.strip()`
unfoldable pub is_blank : String → Bool
unfolding strip is_empty
is_blank note = is_empty (strip note)

abbrev action_number : ValidationAction → ℕ
action_number ValidationAction.verified = 0
action_number ValidationAction.flag_identity_mismatch = 1
action_number ValidationAction.flag_not_present = 2
action_number ValidationAction.verified_empty = 3

abbrev pub is_same_check : CheckMark → CheckMark → Bool
is_same_check a b =
    a.checker == b.checker
    && (a.scope == b.scope
        && (action_number a.action == action_number b.action && a.minute == b.minute))

abbrev pub answered : Result Unit → Result CheckerReply
answered (ok u) = ok applied_page
answered (err e) = err e

-- `cache.add(key, True)`, with what is done if the key was free.
abbrev pub once : CheckMark → Action Unit → Site → Result CheckerReply × Site
once mark m site =
    if any (is_same_check mark) site.cache.checks
    then (ok applied_page, site)
    else (let (r, db) = m site.db in
        (
          answered r,
          record { db = db; cache = record site.cache { checks = mark ∷ site.cache.checks } },
        ))

abbrev pub refuse : ℕ → AuditEvent → ℕ → CheckerOutcome → Site → Result CheckerReply × Site
unfolding log
refuse user event target o site =
    (ok (refused o), record site { db = log (some user) event (some target) site.db })

module _ (user : ℕ) (now : Instant) where
  abbrev pub room_check : Room → Option Session → ValidationAction → String → Check
  room_check room session a note = record {
    user = user;
    now = now;
    session = session;
    room = room;
    action = a;
    note = note;
    identity_match = identity_of a;
    scanned_at = now;
    offline = false;
    online = false;
  }

  abbrev pub scope_of : Room → Option Session → ℕ
  scope_of room none = room.id
  scope_of room (some s) = s.id

  abbrev pub mark_of : ℕ → ValidationAction → CheckMark
  mark_of scope a = record { checker = user; scope = scope; action = a; minute = minute_of now }

  -- The gate on the current state, the congruence of the action, the note of a flag, and the writes.
  unfoldable pub room_action : Room → ValidationAction → String → Site → Result CheckerReply × Site
  room_action room a note site =
      let r = gate user now room site.db in
      let session = room_session room now site.db in
      if not r.actionable
      then refuse user (action_refused r.outcome a) room.id r.outcome site
      else if not (permits r.outcome a)
      then refuse user (action_refused r.outcome a) room.id r.outcome site
      else if is_flag a && is_blank note
      then (ok note_required_page, site)
      else once (mark_of (scope_of room session) a) (apply_action (room_check room session a note))
          site

  abbrev pub is_settled : Session → Bool
  is_settled s = is_absent s.status || is_completed s.status

  -- `_ONLINE_ACTIONS`
  abbrev pub is_online_action : ValidationAction → Bool
  is_online_action a = is_verified a || is_not_present a

  abbrev pub online_check : Session → ValidationAction → String → Check
  online_check s a note = record {
    user = user;
    now = now;
    session = some s;
    room = s.room;
    action = a;
    note = note;
    identity_match = if is_verified a then some true else none;
    scanned_at = now;
    offline = false;
    online = true;
  }

  abbrev pub online_outcome : Session → CheckerOutcome
  online_outcome s = if is_settled s then absent_excluded else off_duty

  unfoldable pub owned_action :
      Session → ValidationAction → String → Site → Result CheckerReply × Site
  owned_action s a note site =
      if not (is_online_on_duty user now site.db) || is_settled s
      then refuse user (action_refused (online_outcome s) a) s.id (online_outcome s) site
      else if not (is_online_action a)
      then (ok bad_payload_page, site)
      else if is_not_present a && is_blank note
      then (ok note_required_page, site)
      else once (mark_of s.id a) (apply_action (online_check s a note)) site

  -- `_online_action`
  unfoldable pub online_action :
      Option ℕ → ValidationAction → String → Site → Result CheckerReply × Site
  unfolding owned_action
  online_action k a note site =
      if_some (online_session k user site.db) (λ s. owned_action s a note site)
        (ok (refused off_duty), site)

  abbrev pub number_of : Field → Option ℕ
  number_of (number k) = some k
  number_of missing = none
  number_of not_number = none

  -- A form without a room but with a session is about an online session.
  abbrev pub names_session_only : Field → Field → Bool
  names_session_only missing missing = false
  names_session_only missing _ = true
  names_session_only _ _ = false

  abbrev pub room_by_id : Option ℕ → Database → Option Room
  room_by_id none db = none
  room_by_id (some k) db = find (λ r. r.id == k) db.rooms

  unfoldable pub act : ActionForm → ValidationAction → Site → Result CheckerReply × Site
  unfolding online_action room_action
  act form a site =
      if names_session_only form.room_id form.session_id
      then online_action (number_of form.session_id) a form.note site
      else if_some (room_by_id (number_of form.room_id) site.db)
          (λ room. room_action room a form.note site) (ok bad_payload_page, site)

  unfoldable pub action : ActionForm → Site → Result CheckerReply × Site
  unfolding act
  action form site = if_some form.action (λ a. act form a site) (ok bad_payload_page, site)
