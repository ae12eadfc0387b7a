-- ===== src/Merge.antt =====
-- scheduling/merge.py: co-scheduled sections. The set of sibling ids is a list of ids here; the code
-- only asks whether a key is in it.
pub mod Detector
pub mod Present
pub mod Fill
pub mod Guarded
use text.Mathlib.Text.{◌==◌ as str_eq}
use fluxtrack_main.Calendar.{Instant}
use fluxtrack_main.Effects.{Action, atomic, get_or_raise, gets, ok, ◌>>=◌, ◌>>◌}
use fluxtrack_main.Model.{
  AuditEvent, CheckinMethod, Database, Session, SessionStatus, effective_modality, grace_minutes,
  is_online, is_scheduled, merged_absent, merged_present,
}
use fluxtrack_main.Ops.{
  flip_once, get_policy, lock_writable_term, log_each, session_by_id, update_sessions,
}
use fluxtrack_main.Prelude.{
  Bool, List, Option, [], false, filter, if◌then◌else◌, map, not, some, true, ℕ, ◌&&◌, ◌==◌, ◌||◌,
  ◌∷◌,
}
use fluxtrack_main.Prelude.Unique.{has_key}
use fluxtrack_main.Resolver.{is_no_show_past_grace}

-- The tests of `merged_sibling_ids` on one candidate, as a chain of `continue`s.
unfoldable pub merges_with : Session → Session → Bool
merges_with anchor c =
    if c.id == anchor.id
    then false
    else if not (c.faculty_id == anchor.faculty_id)
    then false
    else if not (c.scheduled_start == anchor.scheduled_start)
    then false
    else if is_online (effective_modality anchor) && is_online (effective_modality c)
    then true
    else c.room.id == anchor.room.id || str_eq c.schedule.course_code anchor.schedule.course_code

merged_sibling_ids : Session → List Session → List ℕ
unfolding merges_with
merged_sibling_ids anchor candidates = map (λ s. s.id) (filter (merges_with anchor) candidates)

-- The rows that `_materialize_candidates` selects.
abbrev is_candidate : Session → Session → Bool
is_candidate anchor s =
    s.faculty_id == anchor.faculty_id
    && (s.scheduled_start == anchor.scheduled_start
        && (s.schedule.term_id == anchor.schedule.term_id && not (s.id == anchor.id)))

materialize_candidates : Session → Database → List Session
materialize_candidates anchor db = filter (is_candidate anchor) db.sessions

-- The keys of the SCHEDULED rows among `ids`, as the status-guarded query reads them.
fill_ids : List ℕ → Database → List ℕ
fill_ids ids db =
    map (λ s. s.id) (filter (λ s. has_key ids s.id && is_scheduled s.status) db.sessions)

-- The filtered update and the audit rows, skipped when nothing qualifies.
pub fill : (Session → Session) → AuditEvent → Option ℕ → List ℕ → Action (List ℕ)
unfolding update_sessions log_each
fill change event actor [] db = (ok [], db)
fill change event actor (k ∷ ks) db = (ok (k ∷ ks), flip_once change event actor (k ∷ ks) db)

-- What the two propagations share: lock the anchor and its term, and fill its siblings.
pub fill_siblings : ℕ → (Session → Session) → AuditEvent → Option ℕ → Action (List ℕ)
unfolding fill fill_ids merged_sibling_ids materialize_candidates lock_writable_term
fill_siblings anchor_id change event actor = atomic (do
  found ← gets (session_by_id anchor_id)
  anchor ← get_or_raise found
  lock_writable_term anchor.schedule.term_id
  candidates ← gets (materialize_candidates anchor)
  ids ← gets (fill_ids (merged_sibling_ids anchor candidates))
  fill change event actor ids)

abbrev pub mark_merged : Instant → Session → Session
mark_merged now s = record s {
  status = SessionStatus.active;
  actual_start = some now;
  checkin_method = some CheckinMethod.merged;
}

abbrev pub mark_absent : Session → Session
mark_absent s = record s { status = SessionStatus.absent }

unfoldable pub propagate_merged_present : ℕ → Instant → Option ℕ → Action (List ℕ)
unfolding fill_siblings
propagate_merged_present anchor_id now actor =
    fill_siblings anchor_id (mark_merged now) (merged_present anchor_id) actor

-- The grace gate reads the start of the anchor that the caller holds.
unfoldable pub propagate_merged_absent : Session → Option ℕ → Instant → Action (List ℕ)
unfolding fill_siblings get_policy is_no_show_past_grace
propagate_merged_absent anchor actor now db =
    if not (is_no_show_past_grace anchor.scheduled_start now (get_policy grace_minutes db))
    then (ok [], db)
    else fill_siblings anchor.id mark_absent (merged_absent anchor.id) actor db
