-- ===== src/Scanning.antt =====
-- web/scan.py: what an applied outcome of a scan writes.
pub mod Pages
pub mod Silent
pub mod Forward
pub mod Moves
pub mod Answer
pub mod Life
pub mod Confirm
pub mod Undone
use fluxtrack_main.Calendar.{Instant}
use fluxtrack_main.Effects.{Action, atomic, gets, modify, pure, ◌>>=◌, ◌>>◌}
use fluxtrack_main.Merge.{mark_absent, propagate_merged_present}
use fluxtrack_main.Model.{
  AcademicTerm, AuditEvent, CheckinMethod, Database, Room, Session, SessionStatus, ended_early,
  is_active, is_scheduled, room_changed, room_event,
}
use fluxtrack_main.Ops.{get_active_term, in_term, log, notify_ifo, save_session}
use fluxtrack_main.Prelude.{
  Bool, Option, String, false, find, if_some, if◌then◌else◌, none, some, true, ℕ, ◌&&◌, ◌==◌,
}
use fluxtrack_main.Resolver.{Resolution, ScanOutcome}

abbrev pub start : Instant → CheckinMethod → Session → Session
start now method s = record s {
  status = SessionStatus.active;
  actual_start = some now;
  checkin_method = some method;
}

abbrev pub complete : Instant → Session → Session
complete now s = record s { status = SessionStatus.completed; actual_end = some now }

abbrev pub end_early : Instant → String → Session → Session
end_early now reason s = record s {
  status = SessionStatus.completed;
  actual_end = some now;
  ended_early = true;
  early_end_reason = reason;
}

abbrev pub move_to : Room → Session → Session
move_to room s = record s { room = room }

abbrev pub take_over : Instant → Option ℕ → Session → Session
take_over now prior s = record s {
  status = SessionStatus.active;
  actual_start = some now;
  checkin_method = some CheckinMethod.force_handover;
  handover_from_session = prior;
}

-- `Session.objects.filter(pk=..., schedule__term=active_term).first()`
abbrev pub session_in_term : AcademicTerm → ℕ → Database → Option Session
session_in_term term k db = find (λ s. s.id == k && in_term term s) db.sessions

abbrev pub key_of : Option Session → Option ℕ
key_of none = none
key_of (some s) = some s.id

abbrev pub prior_session : AcademicTerm → Option ℕ → Database → Option Session
prior_session term none db = none
prior_session term (some k) db = session_in_term term k db

-- The write of one session and its audit row.
abbrev pub write_session : ℕ → ℕ → AuditEvent → (Session → Session) → Action Unit
unfolding log save_session
write_session user k event change = do
  modify (save_session k change)
  modify (log (some user) event (some k))

abbrev complete_prior : Instant → Option Session → Database → Database
unfolding save_session
complete_prior now none db = db
complete_prior now (some p) db =
    if is_active p.status then save_session p.id (complete now) db else db

-- What the scan carries: who, when, the scanned room, the method and the reason of an early end.
pub record Scan : Type 0 where
  pub user : ℕ
  pub now : Instant
  pub room : Room
  pub method : CheckinMethod
  pub reason : String

module _ (scan : Scan) where
  -- The anchor and its merged siblings, in one transaction.
  pub check_in_group : Session → Action Unit
  unfolding propagate_merged_present log save_session
  check_in_group s = do
    write_session scan.user s.id (AuditEvent.checked_in (some scan.method))
        (start scan.now scan.method)
    propagate_merged_present s.id scan.now (some scan.user)
    pure tt

  pub check_in : Session → Action Unit
  unfolding check_in_group
  check_in s = atomic (check_in_group s)

  pub hand_over : AcademicTerm → Option ℕ → Session → Action Unit
  unfolding propagate_merged_present log save_session notify_ifo
  hand_over term prior_id s = do
    atomic (do
      prior ← gets (prior_session term prior_id)
      modify (complete_prior scan.now prior)
      write_session scan.user s.id (AuditEvent.force_handover prior_id)
          (take_over scan.now (key_of prior))
      propagate_merged_present s.id scan.now (some scan.user)
      pure tt)
    modify (notify_ifo room_event)

  pub change_room : Session → Action Unit
  unfolding log save_session notify_ifo
  change_room s = do
    write_session scan.user s.id (room_changed s.room.code scan.room.code) (move_to scan.room)
    modify (notify_ifo room_event)

  -- The chain of `if o == ...`, on the session that the resolution names.
  pub apply_outcome : ScanOutcome → Option ℕ → AcademicTerm → Session → Action Unit
  unfolding check_in hand_over change_room log save_session
  apply_outcome ScanOutcome.checked_in prior term s = check_in s
  apply_outcome ScanOutcome.absent prior term s =
      if is_scheduled s.status
      then write_session scan.user s.id AuditEvent.marked_absent mark_absent
      else pure tt
  apply_outcome ScanOutcome.checked_out prior term s =
      write_session scan.user s.id AuditEvent.checked_out (complete scan.now)
  apply_outcome ScanOutcome.early_end prior term s =
      write_session scan.user s.id (AuditEvent.ended_early scan.reason)
        (end_early scan.now scan.reason)
  apply_outcome ScanOutcome.wrong_room prior term s = change_room s
  apply_outcome ScanOutcome.room_occupied prior term s = hand_over term prior s
  apply_outcome ScanOutcome.too_early prior term s = pure tt
  apply_outcome ScanOutcome.online_reject prior term s = pure tt
  apply_outcome ScanOutcome.no_schedule prior term s = pure tt

  apply_in : AcademicTerm → Resolution → ℕ → Action Bool
  unfolding apply_outcome
  apply_in term r k = do
    row ← gets (session_in_term term k)
    if_some row (λ s. do apply_outcome r.outcome r.prior_session_id term s; pure true) (pure false)

  -- `_apply`: whether the session of the resolution was found. Only an outcome that writes nothing comes
  -- without a session.
  unfoldable pub apply : Resolution → Action Bool
  unfolding apply_in
  apply r =
      if_some r.session_id
        (λ k. do term ← gets get_active_term; if_some term (λ t. apply_in t r k) (pure false))
        (pure true)
