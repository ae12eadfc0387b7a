-- ===== src/Scanning/Confirm.antt =====
-- A confirmation applies what its token holds, whatever has become of the session since.
use fluxtrack_main.Availability.{has_room}
use fluxtrack_main.Calendar.{Instant}
use fluxtrack_main.Effects.{ok}
use fluxtrack_main.Model.{AcademicTerm, AuditEvent, Database, Room, Session}
use fluxtrack_main.Ops.{get_active_term, log, save_session}
use fluxtrack_main.Prelude.{==-refl, String, find, refl, some, ℕ, ◌==◌, ◌≡◌}
use fluxtrack_main.Resolver.{ScanOutcome}
use fluxtrack_main.Scanning.{apply, apply_in, apply_outcome, end_early, session_in_term}
use fluxtrack_main.Scanning.Pages.{ConfirmData, confirm, confirmed}

module _ (user : ℕ) (now : Instant) (d : ConfirmData) (room : Room) (term : AcademicTerm)
    (s : Session) (k : ℕ) (db : Database) where
  -- Where the token is the user's, its room exists, a term is active, and the token's session is of this
  -- term: the confirmation of an early end succeeds, writes one audit row, and completes the session with
  -- the time and the reason of the confirmation. The session's status is not looked at.
  pub confirm_early_end :
      (reason : String)
      → d.user_id ≡ user
      → find (λ r. r.id == d.room_id) db.rooms ≡ some room
      → get_active_term db ≡ some term
      → d.session_id ≡ some k
      → session_in_term term k db ≡ some s
      → d.outcome ≡ ScanOutcome.early_end
      → confirm user now (some d) reason db ≡ (
        ok (
            confirmed (record {
              outcome = ScanOutcome.early_end;
              session_id = some k;
              prior_session_id = d.prior_session_id;
            })),
        log
            (some user)
            (AuditEvent.ended_early reason)
            (some s.id)
            (save_session s.id (end_early now reason) db),
      )
  unfolding confirm apply apply_in apply_outcome
  confirm_early_end reason mine has_room active key row o =
      rw (mine, ==-refl user, has_room, key, active, row, o) refl
