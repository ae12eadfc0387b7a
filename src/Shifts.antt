-- ===== src/Shifts.antt =====
-- scheduling/services.py: the decisions on a modality shift request, and the approval's consequences.
pub mod Decisions
pub mod Denial
pub mod Online
pub mod Frame
pub mod Final
pub mod Submit
use fluxtrack_main.Availability.{faculty_has_conflict, free_rooms_in_building, room_is_free}
use fluxtrack_main.Calendar.{Date, Instant, TimeOfDay, combine}
use fluxtrack_main.Effects.{
  Action, Result, archived, atomic, deny, err, get_or_raise, gets, many_terms, modify, not_pending,
  not_requester, not_routed_dean, ok, pure, require, shift_error, throw, ◌>>=◌, ◌>>◌,
}
use fluxtrack_main.Model.{
  Database, Modality, ModalityShiftItem, ModalityShiftRequest, Room, Schedule, Session, ShiftStatus,
  User, is_archived_term, is_dean, is_occupying, is_online, is_pending, modality_shift_applied,
  modality_shift_approved, modality_shift_denied, modality_shift_rejected, shift_approved,
  shift_denied, shift_rejected, shift_withdrawn,
}
use fluxtrack_main.Ops.{log, notify_ifo, notify_users, release_room, save_session, term_by_id}
use fluxtrack_main.Prelude.{
  Bool, List, Option, String, [], false, filter, find, if◌then◌else◌, leb, ltb, map, none, not,
  some, true, ℕ, ◌&&◌, ◌++◌, ◌==◌, ◌||◌, ◌∷◌,
}
use fluxtrack_main.Prelude.Distinct.{distinct}
use fluxtrack_main.Prelude.Update.{update}

abbrev pub request_by_id : ℕ → Database → Option ModalityShiftRequest
request_by_id k db = find (λ r. r.id == k) db.requests

abbrev pub items_of : ℕ → Database → List ModalityShiftItem
items_of k db = filter (λ item. item.request_id == k) db.items

-- `_single_term_id_for_request`
pub term_ids : ℕ → Database → List ℕ
term_ids k db = distinct (map (λ item. item.schedule.term_id) (items_of k db))

abbrev single_term : List ℕ → Action ℕ
single_term [] = throw (shift_error many_terms)
single_term (t ∷ []) = pure t
single_term (t ∷ u ∷ us) = throw (shift_error many_terms)

-- `_lock_writable_term`
unfoldable pub lock_shift_term : ℕ → Action Unit
unfolding term_ids
lock_shift_term k = do
  ts ← gets (term_ids k)
  t ← single_term ts
  found ← gets (term_by_id t)
  term ← get_or_raise found
  require (not (is_archived_term term.status)) (shift_error archived)

-- `req.department_id == head.department_id`, where two nulls are equal.
abbrev pub same_department : Option ℕ → Option ℕ → Bool
same_department none none = true
same_department none (some d) = false
same_department (some d) none = false
same_department (some d) (some e) = d == e

abbrev pub is_routed_dean : User → ModalityShiftRequest → Bool
is_routed_dean head r = is_dean head.role && same_department r.department head.department

-- `req.save(update_fields=...)`
abbrev pub save_request : ℕ → (ModalityShiftRequest → ModalityShiftRequest) → Database → Database
save_request k change db = record db { requests = update (λ r. r.id == k) change db.requests }

abbrev pub withdrawn_request : ModalityShiftRequest → ModalityShiftRequest
withdrawn_request r = record r { status = ShiftStatus.withdrawn }

-- A decision with its reason, its time and the one who takes it.
abbrev pub decided :
    ShiftStatus → String → User → Instant → ModalityShiftRequest → ModalityShiftRequest
decided status reason head now r = record r {
  status = status;
  decision_reason = reason;
  decided_by = some head.id;
  decided_at = some now;
}

-- The request, read again inside the transaction, its term locked.
abbrev locked : ℕ → Action ModalityShiftRequest
locked k = do found ← gets (request_by_id k); r ← get_or_raise found; lock_shift_term k; pure r

unfoldable pub withdraw_modality_shift : ℕ → User → Action ModalityShiftRequest
unfolding lock_shift_term log
withdraw_modality_shift k actor = atomic (do
  r ← locked k
  require (r.requester == actor.id) (shift_error not_requester)
  require (is_pending r.status) (shift_error not_pending)
  modify (save_request k withdrawn_request)
  modify (log (some actor.id) shift_withdrawn (some k))
  pure (withdrawn_request r))

unfoldable pub reject_modality_shift : ℕ → User → String → Instant → Action ModalityShiftRequest
unfolding lock_shift_term log notify_users
reject_modality_shift k head reason now = atomic (do
  r ← locked k
  require (is_routed_dean head r) (shift_error not_routed_dean)
  require (is_pending r.status) (shift_error not_pending)
  let rejected_request = decided ShiftStatus.rejected reason head now
  modify (save_request k rejected_request)
  modify (log (some head.id) (shift_rejected reason) (some k))
  modify (notify_users (r.requester ∷ []) modality_shift_rejected)
  pure (rejected_request r))

-- Approval -----------------------------------------------------------------------------------------

-- `.order_by("date", "scheduled_start")`
insert_session : Session → List Session → List Session
insert_session s [] = s ∷ []
insert_session s (x ∷ xs) =
    let rest = insert_session s xs in
    if ltb x.date s.date || (x.date == s.date && ltb x.scheduled_start s.scheduled_start)
    then x ∷ rest
    else s ∷ x ∷ xs

order_sessions : List Session → List Session
unfolding insert_session
order_sessions [] = []
order_sessions (s ∷ ss) = insert_session s (order_sessions ss)

abbrev pub is_in_window : Schedule → Date → Date → Session → Bool
is_in_window schedule first last s =
    s.schedule.id == schedule.id && (is_occupying s.status && (leb first s.date && leb s.date last))

unfoldable pub in_window_sessions : Schedule → Date → Date → Database → List Session
unfolding order_sessions
in_window_sessions schedule first last db =
    order_sessions (filter (is_in_window schedule first last) db.sessions)

pub affected_over : ModalityShiftRequest → Database → List ModalityShiftItem → List Session
unfolding in_window_sessions
affected_over r db [] = []
affected_over r db (item ∷ rest) =
    in_window_sessions item.schedule r.window_start r.window_end db ++ affected_over r db rest

unfoldable pub affected_sessions : ModalityShiftRequest → Database → List Session
unfolding affected_over
affected_sessions r db = affected_over r db (items_of r.id db)

-- The fields that a shift writes on each session.
abbrev pub shifted : Modality → User → Instant → Session → Session
shifted modality head now s = record s {
  declared_modality = some modality;
  modality_changed_at = some now;
  modality_changed_by = some head.id;
}

-- `_apply_online`
pub apply_online : List Session → User → Instant → Database → Database
unfolding save_session release_room
apply_online [] head now db = db
apply_online (s ∷ ss) head now db =
    apply_online ss head now (
      release_room s.id (some head.id) now
        (save_session s.id (shifted Modality.online head now) db))

abbrev head_room : List Room → Option Room
head_room [] = none
head_room (r ∷ rs) = some r

-- The interval that a session takes after the shift, and whether it moves.
abbrev pub shift_slot : ModalityShiftItem → Session → Bool × Instant × Instant
shift_slot item s = slot item.new_start_time item.new_end_time
  where
    slot : Option TimeOfDay → Option TimeOfDay → Bool × Instant × Instant
    slot (some st) (some et) = (true, combine s.date st, combine s.date et)
    slot (some st) none = (false, s.scheduled_start, s.scheduled_end)
    slot none et = (false, s.scheduled_start, s.scheduled_end)

abbrev got_room : Option Room → Action Room
got_room none = throw (deny "No room available that day.")
got_room (some room) = pure room

-- The session's row with its room, and its new times if it moves.
abbrev pub placed : Room → Bool → Instant → Instant → Session → Session
placed room moves start end s =
    if moves
    then record s { room = room; scheduled_start = start; scheduled_end = end }
    else record s { room = room }

abbrev save_item : ModalityShiftItem → Option Room → Database → Database
save_item item none db = db
save_item item (some room) db = record db {
  items = update (λ i. i.id == item.id) (λ i. record i { assigned_room = some room }) db.items;
}

-- `try: with transaction.atomic(): ... except _NoRoomAvailable as exc`
abbrev pub caught : Result Unit → Result (Option String)
caught (ok u) = ok none
caught (err (deny reason)) = ok (some reason)
caught (err e) = err e

abbrev pub attempt : Action Unit → Action (Option String)
attempt m db = let (r, after) = atomic m db in (caught r, after)

-- The rest of `apply_approval`.
abbrev pub conclude :
    ℕ → ModalityShiftRequest → User → Instant → Option String → Action ModalityShiftRequest
conclude k r head now (some reason) = do
  let denied_request = decided ShiftStatus.denied reason head now
  modify (save_request k denied_request)
  modify (log (some head.id) (shift_denied reason) (some k))
  modify (notify_users (r.requester ∷ []) modality_shift_denied)
  pure (denied_request r)
conclude k r head now none = do
  let approved_request =
      λ (x : ModalityShiftRequest). decided ShiftStatus.approved x.decision_reason head now x
  modify (save_request k approved_request)
  modify (log (some head.id) (shift_approved r.target_modality) (some k))
  modify (notify_users (r.requester ∷ []) modality_shift_approved)
  modify (notify_ifo modality_shift_applied)
  pure (approved_request r)

module _ (before : String → String → Bool) where
  unfoldable pub resolve_shift_room :
      ModalityShiftItem → Instant → Instant → Option ℕ → Database → Option Room
  unfolding room_is_free free_rooms_in_building
  resolve_shift_room item start end exclude db =
      if room_is_free item.schedule.room start end exclude none db
      then some item.schedule.room
      else head_room (
          free_rooms_in_building before item.schedule.room.building_id start end exclude
            item.preferred_room db)

  pub shift_session :
      ModalityShiftRequest → ModalityShiftItem → User → Instant → Session → Action Room
  unfolding resolve_shift_room save_session faculty_has_conflict
  shift_session r item head now s = do
    let (moves, start, end) = shift_slot item s
    clash ← gets (λ db. moves && faculty_has_conflict s.faculty_id start end (some s.id) db)
    require (not clash) (deny "the new time double-books the requesting faculty")
    found ← gets (resolve_shift_room item start end (some s.id))
    room ← got_room found
    modify (
        save_session s.id (λ x. placed room moves start end (shifted r.target_modality head now x)))
    pure room

  pub shift_sessions :
      ModalityShiftRequest
      → ModalityShiftItem
      → User
      → Instant
      → List Session
      → Option Room
      → Action (Option Room)
  unfolding shift_session
  shift_sessions r item head now [] resolved = pure resolved
  shift_sessions r item head now (s ∷ ss) resolved = do
    room ← shift_session r item head now s
    shift_sessions r item head now ss (some room)

  -- `_apply_f2f`
  pub apply_f2f : ModalityShiftRequest → List ModalityShiftItem → User → Instant → Action Unit
  unfolding shift_sessions in_window_sessions
  apply_f2f r [] head now = pure tt
  apply_f2f r (item ∷ rest) head now = do
    sessions ← gets (in_window_sessions item.schedule r.window_start r.window_end)
    resolved ← shift_sessions r item head now sessions none
    modify (save_item item resolved)
    apply_f2f r rest head now

  -- The consequence, by the target.
  abbrev pub consequence : ModalityShiftRequest → User → Instant → Action Unit
  consequence r head now db =
      if is_online r.target_modality
      then (ok tt, apply_online (affected_sessions r db) head now db)
      else apply_f2f r (items_of r.id db) head now db

  unfoldable pub apply_approval : ℕ → User → Instant → Action ModalityShiftRequest
  unfolding lock_shift_term log notify_users notify_ifo apply_online apply_f2f affected_sessions
  apply_approval k head now = atomic (do
    r ← locked k
    require (is_routed_dean head r) (shift_error not_routed_dean)
    require (is_pending r.status) (shift_error not_pending)
    denied_for ← attempt (consequence r head now)
    conclude k r head now denied_for)
