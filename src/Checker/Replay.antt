-- ===== src/Checker/Replay.antt =====
-- web/checker.py, `replay`: a queue of scans that was filled offline, each validated against the current
-- state and applied once. The items are those of the decoded body.
pub mod Receipts
pub mod Twice
use fluxtrack_main.Calendar.{Instant, local_date}
use fluxtrack_main.Checker.{Check, apply_action, gate, identity_of, is_flag, permits, room_session}
use fluxtrack_main.Checker.Actions.{Field, is_blank, missing, not_number, number}
use fluxtrack_main.Duty.{CheckerResolution}
use fluxtrack_main.Duty.Assign.{order_by_start}
use fluxtrack_main.Effects.{Action, Result, atomic, err, modify, ok, pure, value_error, ◌>>=◌, ◌>>◌}
use fluxtrack_main.Model.{
  AcademicTerm, Database, ReplayReason, ReplayStatus, Room, Session, ValidationAction,
  checker_rate_limited, checker_replay_conflict, effective_modality, is_online, replay_conflict,
}
use fluxtrack_main.Ops.{get_active_term, in_term, log, notify_ifo}
use fluxtrack_main.Prelude.{
  Bool, List, Option, String, [], any, false, filter, find, if_some, if◌then◌else◌, leb, none, not,
  or_else, some, true, ℕ, ◌&&◌, ◌++◌, ◌==◌, ◌∷◌,
}
use fluxtrack_main.Scanning.{key_of}
use fluxtrack_main.Terms.Names.{is_empty, strip}
use fluxtrack_main.Web.{
  Site, checker_replay_rl, is_manual_code, room_by_code, room_by_token, take_attempt,
}
use fluxtrack_main.Web.Limits.{granted}

-- What `parse_datetime` makes of the item's time: nothing, a ValueError for a date that does not exist, or
-- an instant.
pub data ScannedAt : Type 0 where
  no_time invalid_time : ScannedAt
  at_time : Instant → ScannedAt

-- The uuid is `none` where `UUID(...)` refuses it.
pub record ReplayItem : Type 0 where
  pub client_uuid : Option ℕ
  pub token : String
  pub session_id : Field
  pub action : Option ValidationAction
  pub note : String
  pub scanned_at : ScannedAt

pub data ReplayResult : Type 0 where
  bad_item : ReplayResult
  duplicate : ℕ → ReplayResult
  reported : ℕ → ReplayStatus → ReplayResult

abbrev pub has_receipt : ℕ → Database → Bool
has_receipt u db = any (λ r. r.client_uuid == u) db.receipts

abbrev pub write_receipt : ℕ → ℕ → ReplayStatus → Database → Database
write_receipt user u status db = record db {
  receipts = db.receipts ++ record { client_uuid = u; checker = user; status = status } ∷ [];
}

-- `_claim_replay_receipt`: whether the unique key was free.
abbrev pub claim : ℕ → ℕ → ReplayStatus → Action Bool
claim user u status db =
    if has_receipt u db then (ok false, db) else (ok true, write_receipt user u status db)

abbrev pub if_claimed : Bool → ℕ → ReplayStatus → Action Unit → Action ReplayResult
if_claimed true u status effect = effect >> pure (reported u status)
if_claimed false u status effect = pure (duplicate u)

-- The receipt and what goes with it, in one transaction.
pub settle : ℕ → ℕ → ReplayStatus → Action Unit → Action ReplayResult
settle user u status effect =
    atomic (do claimed ← claim user u status; if_claimed claimed u status effect)

-- `_room_from_replay_token`, of a token that is stripped.
pub replay_room : String → Database → Option Room
unfolding is_empty is_manual_code
replay_room token db =
    if is_empty token
    then none
    else or_else (room_by_token token db)
        (if is_manual_code token then room_by_code token db else none)

-- `_room_session_at_scan`
abbrev pub was_in_room : Room → Instant → AcademicTerm → Session → Bool
was_in_room room t term s =
    s.room.id == room.id
    && (s.date == local_date t
        && (in_term term s && (leb s.scheduled_start t && leb t s.scheduled_end)))

pub session_at_scan : Room → Instant → Database → Option Session
unfolding order_by_start
session_at_scan room t db =
    if_some (get_active_term db)
      (λ term.
        find (λ s. not (is_online (effective_modality s)))
          (order_by_start (filter (was_in_room room t term) db.sessions)))
      none

pub data Decision : Type 0 where
  apply_it : ValidationAction → Decision
  flag_it : ReplayReason → Decision

-- `expected_session_id`
expected_session : Field → Room → Instant → Database → Option ℕ
unfolding session_at_scan
expected_session (number k) room t db = some k
expected_session missing room t db = key_of (session_at_scan room t db)
expected_session not_number room t db = none

abbrev is_not_number : Field → Bool
is_not_number not_number = true
is_not_number _ = false

abbrev pub same_key : Option ℕ → Option ℕ → Bool
same_key none none = true
same_key none (some k) = false
same_key (some j) none = false
same_key (some j) (some k) = j == k

-- The chain of reasons once the item is about the room's current session.
pub decide_action : CheckerResolution → Option ValidationAction → String → Decision
unfolding is_blank
decide_action r none note =
    if not r.actionable
    then flag_it (ReplayReason.outcome r.outcome)
    else flag_it ReplayReason.bad_payload
decide_action r (some a) note =
    if not r.actionable
    then flag_it (ReplayReason.outcome r.outcome)
    else if not (permits r.outcome a)
    then flag_it ReplayReason.action_incongruent
    else if is_flag a && is_blank note
    then flag_it ReplayReason.note_required
    else apply_it a

module _ (user : ℕ) (now : Instant) where
  pub decide : ReplayItem → Instant → Room → Database → Decision
  unfolding decide_action expected_session room_session gate
  decide item t room db =
      if is_not_number item.session_id
      then flag_it ReplayReason.bad_payload
      else if not (
          same_key (expected_session item.session_id room t db) (key_of (room_session room now db)))
      then flag_it ReplayReason.session_changed
      else decide_action (gate user now room db) item.action item.note

  abbrev pub replay_check : ReplayItem → Instant → Room → ValidationAction → Database → Check
  replay_check item t room a db = record {
    user = user;
    now = now;
    session = room_session room now db;
    room = room;
    action = a;
    note = item.note;
    identity_match = identity_of a;
    scanned_at = t;
    offline = true;
    online = false;
  }

  -- The audit row and the notification of an item that is not applied.
  pub tell_conflict : ℕ → ReplayReason → Option ℕ → Option ValidationAction → Action Unit
  unfolding log notify_ifo
  tell_conflict u reason session action = do
    modify (log (some user) (replay_conflict reason u action) session)
    modify (notify_ifo checker_replay_conflict)

  settle_room : ℕ → ReplayItem → Instant → Room → Decision → Action ReplayResult
  unfolding settle apply_action tell_conflict
  settle_room u item t room (apply_it a) db =
      settle user u ReplayStatus.applied (apply_action (replay_check item t room a db)) db
  settle_room u item t room (flag_it reason) db =
      settle user u (ReplayStatus.flagged reason)
        (tell_conflict u reason (key_of (room_session room now db)) item.action) db

  settle_item : ℕ → ReplayItem → Instant → Option Room → Action ReplayResult
  unfolding settle_room decide
  settle_item u item t none db =
      settle user u (ReplayStatus.flagged ReplayReason.bad_room)
        (tell_conflict u ReplayReason.bad_room none item.action) db
  settle_item u item t (some room) db = settle_room u item t room (decide item t room db) db

  abbrev on_site : Action ReplayResult → Site → Result ReplayResult × Site
  on_site m site = let (r, db) = m site.db in (r, record site { db = db })

  -- The time is read after the room; a date that does not exist raises.
  pub timed_item : ℕ → ReplayItem → ScannedAt → Site → Result ReplayResult × Site
  unfolding settle_item replay_room
  timed_item u item no_time site =
      on_site (settle_item u item now (replay_room (strip item.token) site.db)) site
  timed_item u item (at_time t) site =
      on_site (settle_item u item t (replay_room (strip item.token) site.db)) site
  timed_item u item invalid_time site = (err value_error, site)

  pub rate_limited_item : ℕ → Action ReplayResult
  unfolding settle log
  rate_limited_item u =
      settle user u (ReplayStatus.flagged ReplayReason.rate_limited)
        (modify (log (some user) (checker_rate_limited none) none))

  -- A manual code counts against the limit of the minute.
  pub fresh_item : ℕ → ReplayItem → Site → Result ReplayResult × Site
  unfolding timed_item rate_limited_item take_attempt is_manual_code strip
  fresh_item u item site =
      if is_manual_code (strip item.token)
      then (let (granted, after) = take_attempt checker_replay_rl user now site in
          if granted
          then timed_item u item item.scanned_at after
          else on_site (rate_limited_item u) after)
      else timed_item u item item.scanned_at site

  pub replay_item : ReplayItem → Site → Result ReplayResult × Site
  unfolding fresh_item
  replay_item item site =
      if_some item.client_uuid
        (λ u. if has_receipt u site.db then (ok (duplicate u), site) else fresh_item u item site)
        (ok bad_item, site)

  abbrev pub add_result :
      ReplayResult → Result (List ReplayResult) × Site → Result (List ReplayResult) × Site
  add_result r (ok rs, site) = (ok (r ∷ rs), site)
  add_result r (err e, site) = (err e, site)

  abbrev pub replay_next :
      Result ReplayResult × Site
      → (Site → Result (List ReplayResult) × Site)
      → Result (List ReplayResult) × Site
  replay_next (ok r, after) rest = add_result r (rest after)
  replay_next (err e, after) rest = (err e, after)

  -- The loop; an exception ends it, and what was written before stays.
  unfoldable pub replay : List ReplayItem → Site → Result (List ReplayResult) × Site
  unfolding replay_item
  replay [] site = (ok [], site)
  replay (item ∷ items) site = replay_next (replay_item item site) (replay items)
