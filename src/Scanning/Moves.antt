-- ===== src/Scanning/Moves.antt =====
-- What the scan applies at once moves the session of its resolution forward.
use fluxtrack_main.Effects.{Action, Result, and_then, err, ok, pure, roll_back, ◌>>=◌}
use fluxtrack_main.Merge.{mark_absent, propagate_merged_present}
use fluxtrack_main.Merge.Guarded.{propagate_merged_present-IsGuardedFill}
use fluxtrack_main.Model.{AcademicTerm, AuditEvent, Database, Session, SessionStatus, is_scheduled}
use fluxtrack_main.Ops.{HasKeys, log, save_session, update_sessions}
use fluxtrack_main.Prelude.{
  ==_iff, Bool-cases, Elem, List, Option, arith, false, inl, inr, refl, some, true, ℕ, ◌==◌, ◌≡◌,
}
use fluxtrack_main.Prelude.Unique.{IsUnique-Elem}
use fluxtrack_main.Prelude.Update.{map-update}
use fluxtrack_main.Resolver.{ScanOutcome, needs_confirm}
use fluxtrack_main.Scanning.{
  Scan, apply_outcome, check_in, check_in_group, complete, start, write_session,
}
use fluxtrack_main.Scanning.Forward.{
  AllForward, AllForward-fill, AllForward-refl, AllForward-trans, AllForward-update, is_forward,
}

-- The status that an outcome expects of the session of its resolution.
abbrev pub Expects : ScanOutcome → Session → Type 0
Expects ScanOutcome.checked_in s = s.status ≡ SessionStatus.scheduled
Expects ScanOutcome.checked_out s = s.status ≡ SessionStatus.active
Expects _ s = Unit

rolled_back-AllForward :
    {A : Type 0} (xs : List Session) (r : Result A) (before after : Database)
    → AllForward xs before.sessions
    → AllForward xs after.sessions
    → AllForward xs (roll_back r before after).1.sessions
rolled_back-AllForward xs (ok a) before after h k = k
rolled_back-AllForward xs (err e) before after h k = h

bind-AllForward :
    {A : Type 0} (xs : List Session) (m : Action A) (db : Database)
    → AllForward xs (m db).1.sessions
    → AllForward xs ((m >>= λ _. pure tt) db).1.sessions
bind-AllForward {A = A} xs m db h = ended (m db).0 (m db).1 h
  where
    ended :
        (r : Result A) (after : Database)
        → AllForward xs after.sessions
        → AllForward xs (and_then r (λ _. pure tt) after).1.sessions
    ended (ok a) after k = k
    ended (err e) after k = k

module _ (scan : Scan) (db : Database) (unique : HasKeys db) (s : Session)
    (m : Elem s db.sessions) where
  -- The write of one row, by its key.
  write_session-AllForward :
      (event : AuditEvent) (change : Session → Session)
      → (change s).id ≡ s.id
      → is_forward s.status (change s).status ≡ true
      → AllForward db.sessions (write_session scan.user s.id event change db).1.sessions
  unfolding log save_session update_sessions
  write_session-AllForward event change same h =
      AllForward-update (λ x. x.id == s.id) change db.sessions
        (λ x n e.
          let q = IsUnique-Elem (λ y. y.id) db.sessions x s unique n m ((==_iff x.id s.id).0 e) in
          rw q (same, h))

  write_session-HasKeys :
      (event : AuditEvent) (change : Session → Session)
      → ((x : Session) → (change x).id ≡ x.id)
      → HasKeys (write_session scan.user s.id event change db).1
  unfolding log save_session update_sessions
  write_session-HasKeys event change same =
      rw (map-update (λ x. x.id) (λ x. x.id == s.id) change db.sessions same) unique

  check_in-AllForward :
      s.status ≡ SessionStatus.scheduled → AllForward db.sessions (check_in scan s db).1.sessions
  unfolding check_in check_in_group
  check_in-AllForward h =
      let event = AuditEvent.checked_in (some scan.method) in
      let change = start scan.now scan.method in
      let written = (write_session scan.user s.id event change db).1 in
      let filled =
        bind-AllForward written.sessions (propagate_merged_present s.id scan.now (some scan.user))
          written
          (AllForward-fill scan.now written.sessions _ (
            propagate_merged_present-IsGuardedFill s.id scan.now (some scan.user) written
              (write_session-HasKeys event change (λ x. refl)))) in
      rolled_back-AllForward db.sessions (check_in_group scan s db).0 db
        (check_in_group scan s db).1 (AllForward-refl db.sessions)
        (AllForward-trans db.sessions written.sessions _
          (write_session-AllForward event change refl (rw h refl)) filled)

  to_absent : (a : SessionStatus) → is_scheduled a ≡ true → is_forward a SessionStatus.absent ≡ true
  to_absent a h = ground arith

  pub apply_outcome-AllForward :
      (o : ScanOutcome) (prior : Option ℕ) (term : AcademicTerm)
      → needs_confirm o ≡ false
      → Expects o s
      → AllForward db.sessions (apply_outcome scan o prior term s db).1.sessions
  unfolding apply_outcome needs_confirm
  apply_outcome-AllForward ScanOutcome.checked_in prior term h k = check_in-AllForward k
  apply_outcome-AllForward ScanOutcome.absent prior term h k =
      elim (Bool-cases (is_scheduled s.status)) [
        | inl e ↦ rw e (
            write_session-AllForward AuditEvent.marked_absent mark_absent refl
              (to_absent s.status e))
        | inr e ↦ rw e (AllForward-refl db.sessions)
      ]
  apply_outcome-AllForward ScanOutcome.checked_out prior term h k =
      write_session-AllForward AuditEvent.checked_out (complete scan.now) refl (rw k refl)
  apply_outcome-AllForward ScanOutcome.early_end prior term h k = cc
  apply_outcome-AllForward ScanOutcome.wrong_room prior term h k = cc
  apply_outcome-AllForward ScanOutcome.room_occupied prior term h k = cc
  apply_outcome-AllForward ScanOutcome.too_early prior term h k = AllForward-refl db.sessions
  apply_outcome-AllForward ScanOutcome.online_reject prior term h k = AllForward-refl db.sessions
  apply_outcome-AllForward ScanOutcome.no_schedule prior term h k = AllForward-refl db.sessions
