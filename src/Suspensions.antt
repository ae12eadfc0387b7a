-- ===== src/Suspensions.antt =====
-- scheduling/suspensions.py and ClassSuspension.covers: the calendar that excuses a class, and the two
-- services that declare and lift a suspension.
pub mod Chunks
pub mod Declare
pub mod Lift
pub mod RoundTrip
pub mod Others
use text.Mathlib.Text.{◌==◌ as str_eq}
use fluxtrack_main.Calendar.{Date, Instant}
use fluxtrack_main.Effects.{Action, atomic, get_or_raise, gets, modify, ok, ◌>>=◌, ◌>>◌}
use fluxtrack_main.Model.{
  AuditEvent, ClassSuspension, Database, Session, SessionStatus, class_suspended, is_cancelled,
  is_scheduled, session_cancelled, suspension_lifted, take_chars,
}
use fluxtrack_main.Ops.{keys, lock_writable_term, log_each, notify_users, update_sessions}
use fluxtrack_main.Prelude.{
  Bool, List, Option, String, [], any, drop, false, filter, find, if◌then◌else◌, is_key, is_none,
  leb, length, map, max, none, not, some, suc, take, true, zero, ℕ, ◌&&◌, ◌++◌, ◌==◌, ◌||◌, ◌∷◌,
}
use fluxtrack_main.Prelude.Distinct.{distinct}
use fluxtrack_main.Prelude.Unique.{has_key}
use fluxtrack_main.Prelude.Update.{update}

unfoldable pub covers : ClassSuspension → Date → ℕ → Bool
covers sp d building_id =
    if not (is_none sp.lifted_at)
    then false
    else if not (leb sp.start_date d && leb d sp.end_date)
    then false
    else is_none sp.building_id || is_key sp.building_id building_id

-- `excused_checker(term)`: the test on a date and a building.
unfoldable pub excused_checker : ℕ → Database → Date → ℕ → Bool
unfolding covers
excused_checker term_id db d building_id =
    any (λ b. leb b.start_date d && leb d b.end_date) (filter (λ b. b.term_id == term_id) db.breaks)
    || any (λ sp. covers sp d building_id)
        (filter (λ sp. sp.term_id == term_id && is_none sp.lifted_at) db.suspensions)

unfoldable pub session_is_calendar_excused : (Date → ℕ → Bool) → Session → Bool
session_is_calendar_excused excused s = excused s.date s.room.building_id

-- The next identity value of a table.
unfoldable pub fresh_key : List ℕ → ℕ
fresh_key [] = 1
fresh_key (k ∷ ks) = max (suc k) (fresh_key ks)

-- `_FLIP_CHUNK`
abbrev pub flip_chunk : ℕ
flip_chunk = 900

-- `for i in range(0, len(ids), _FLIP_CHUNK)`: the chunks, on fuel for their number.
pub flip_chunks :
    (size fuel : ℕ) → (Session → Session) → AuditEvent → Option ℕ → List ℕ → Database → Database
unfolding update_sessions log_each
flip_chunks size zero change event actor ids db = db
flip_chunks size (suc fuel) change event actor [] db = db
flip_chunks size (suc fuel) change event actor (k ∷ ks) db =
    let ids = k ∷ ks in
    let chunk = take size ids in
    flip_chunks size fuel change event actor (drop size ids)
      (log_each actor event chunk (update_sessions (λ s. has_key chunk s.id) change db))

abbrev in_building : Option ℕ → Session → Bool
in_building none s = true
in_building (some b) s = s.room.building_id == b

-- The rows that the suspension's query selects.
abbrev pub is_suspended : ℕ → Date → Date → Option ℕ → Session → Bool
is_suspended term_id start_date end_date building s =
    s.schedule.term_id == term_id
    && (is_scheduled s.status
        && ((leb start_date s.date && leb s.date end_date) && in_building building s))

-- `status=CANCELLED, cancelled_reason=reason[:200]`
abbrev pub cancel : String → Session → Session
cancel reason s = record s {
  status = SessionStatus.cancelled;
  cancelled_reason = take_chars 200 reason;
}

abbrev pub new_suspension :
    ℕ → Date → Date → String → Option ℕ → Option ℕ → Database → ClassSuspension
new_suspension term_id start_date end_date reason building declared_by db = record {
  id = fresh_key (map (λ sp. sp.id) db.suspensions);
  term_id = term_id;
  start_date = start_date;
  end_date = end_date;
  building_id = building;
  reason = reason;
  declared_by = declared_by;
  lifted_at = none;
  lifted_by = none;
}

-- The users among the affected faculty, one notification each.
notify_affected : List Session → Database → Database
unfolding notify_users
notify_affected rows db =
    notify_users
      (filter (λ k. any (λ u. u.id == k) db.users) (distinct (map (λ s. s.faculty_id) rows)))
      class_suspended db

-- The flips and the notifications, for the rows that the query found.
declare_over : ClassSuspension → String → Option ℕ → List Session → Database → ℕ × Database
unfolding flip_chunks notify_affected
declare_over sp reason declared_by [] db = (0, db)
declare_over sp reason declared_by (r ∷ rs) db =
    let rows = r ∷ rs in
    (
      length rows,
      notify_affected rows (
          flip_chunks flip_chunk (length rows) (cancel reason) (session_cancelled reason sp.id)
            declared_by (keys rows) db),
    )

unfoldable pub suspend_classes :
    ℕ → Date → Date → String → Option ℕ → Option ℕ → Action (ClassSuspension × ℕ)
unfolding declare_over lock_writable_term fresh_key
suspend_classes term_id start_date end_date reason building declared_by = atomic (do
  lock_writable_term term_id
  sp ← gets (new_suspension term_id start_date end_date reason building declared_by)
  modify (λ db. record db { suspensions = db.suspensions ++ sp ∷ [] })
  rows ← gets (λ db. filter (is_suspended term_id start_date end_date building) db.sessions)
  (λ db. let (n, after) = declare_over sp reason declared_by rows db in (ok (sp, n), after)))

-- The rows that the lift's query selects.
abbrev pub is_lifted_by : ClassSuspension → Session → Bool
is_lifted_by sp s =
    s.schedule.term_id == sp.term_id
    && (is_cancelled s.status
        && (str_eq s.cancelled_reason (take_chars 200 sp.reason)
            && ((leb sp.start_date s.date && leb s.date sp.end_date)
                && in_building sp.building_id s)))

-- `status=SCHEDULED, cancelled_reason=""`
abbrev pub reinstate : Session → Session
reinstate s = record s { status = SessionStatus.scheduled; cancelled_reason = "" }

abbrev pub suspension_by_id : ℕ → Database → Option ClassSuspension
suspension_by_id k db = find (λ sp. sp.id == k) db.suspensions

abbrev stamp_lifted : ℕ → Instant → Option ℕ → Database → Database
stamp_lifted k now lifted_by db = record db {
  suspensions =
      update (λ sp. sp.id == k) (λ sp. record sp { lifted_at = some now; lifted_by = lifted_by })
        db.suspensions;
}

lift_over : ClassSuspension → Option ℕ → Instant → Action ℕ
unfolding flip_chunks update
lift_over sp lifted_by now db =
    if not (is_none sp.lifted_at)
    then (ok 0, db)
    else (let ids = keys (filter (is_lifted_by sp) db.sessions) in
        (
          ok (length ids),
          stamp_lifted sp.id now lifted_by (
              flip_chunks flip_chunk (length ids) reinstate (suspension_lifted sp.id) lifted_by ids
                db),
        ))

unfoldable pub lift_suspension : ℕ → Option ℕ → Instant → Action ℕ
unfolding lift_over lock_writable_term
lift_suspension suspension_id lifted_by now = atomic (do
  found ← gets (suspension_by_id suspension_id)
  sp ← get_or_raise found
  lock_writable_term sp.term_id
  lift_over sp lifted_by now)
