-- ===== src/Suspensions/Lift.antt =====
-- Lifting a suspension, and what it undoes.
-- The suspension's row after the lift.
use fluxtrack_main.Calendar.{Instant}
use fluxtrack_main.Effects.{ok}
use fluxtrack_main.Model.{
  AcademicTerm, ClassSuspension, Database, Session, is_archived_term, suspension_lifted,
}
use fluxtrack_main.Ops.{HasKeys, keys, log_each, term_by_id, update_sessions}
use fluxtrack_main.Ops.Flips.{length-keys, update-keys}
use fluxtrack_main.Prelude.{
  List, Option, ap, arith, false, filter, is_none, length, map, none, refl, some, ℕ, ◌++◌, ◌==◌,
  ◌∙◌, ◌≡◌,
}
use fluxtrack_main.Prelude.Update.{update}
use fluxtrack_main.Suspensions.{
  flip_chunk, flip_chunks, is_lifted_by, lift_over, lift_suspension, reinstate, stamp_lifted,
  suspension_by_id,
}
use fluxtrack_main.Suspensions.Chunks.{flip_chunks_lem}

abbrev pub lifted_row : Instant → Option ℕ → ClassSuspension → ClassSuspension
lifted_row now lifted_by sp = record sp { lifted_at = some now; lifted_by = lifted_by }

abbrev pub reinstated : ClassSuspension → Database → List Session
reinstated sp db = filter (is_lifted_by sp) db.sessions

abbrev pub after_lift : Instant → Option ℕ → ClassSuspension → Database → Database
after_lift now lifted_by sp db = record db {
  sessions = update (is_lifted_by sp) reinstate db.sessions;
  suspensions = update (λ row. row.id == sp.id) (lifted_row now lifted_by) db.suspensions;
  audit =
      db.audit
      ++ map
          (λ j. record { actor = lifted_by; event = suspension_lifted sp.id; target_id = some j })
          (keys (reinstated sp db));
}

module _ (k : ℕ) (now : Instant) (lifted_by : Option ℕ) (sp : ClassSuspension) (term : AcademicTerm)
    (db : Database) where
  written :
      HasKeys db
      → stamp_lifted sp.id now lifted_by (
          flip_chunks flip_chunk
            (length (keys (reinstated sp db)))
            reinstate
            (suspension_lifted sp.id)
            lifted_by
            (keys (reinstated sp db))
            db)
        ≡ after_lift now lifted_by sp db
  unfolding log_each update_sessions
  written u =
      ap (stamp_lifted sp.id now lifted_by) (
        flip_chunks_lem reinstate (suspension_lifted sp.id) lifted_by (λ _. refl) (λ _. refl)
          flip_chunk (length (keys (reinstated sp db))) (keys (reinstated sp db)) db (omega arith)
          (omega arith))
      ∙ λ i. record (after_lift now lifted_by sp db) {
        sessions = update-keys (is_lifted_by sp) reinstate db.sessions u i;
      }

  -- Where the suspension is stored and not lifted, its term is not archived and the keys of the
  -- sessions are unique: the lift returns the number of sessions reinstated; the CANCELLED sessions of
  -- the term, dates and building whose reason is the suspension's become SCHEDULED, and no others;
  -- each has one audit row; the suspension is stamped as lifted; and nothing else changes.
  pub lift_suspension_lem :
      HasKeys db
      → suspension_by_id k db ≡ some sp
      → sp.lifted_at ≡ none
      → term_by_id sp.term_id db ≡ some term
      → is_archived_term term.status ≡ false
      → lift_suspension k lifted_by now db
        ≡ (ok (length (reinstated sp db)), after_lift now lifted_by sp db)
  unfolding lift_suspension
  lift_suspension_lem u stored standing term_stored writable =
      rw (stored, term_stored, writable, standing, lift_over)
        (λ i. (ok (length-keys (reinstated sp db) i), written u i))

  -- A second lift does nothing.
  pub lift_suspension_again :
      suspension_by_id k db ≡ some sp
      → is_none sp.lifted_at ≡ false
      → term_by_id sp.term_id db ≡ some term
      → is_archived_term term.status ≡ false
      → lift_suspension k lifted_by now db ≡ (ok 0, db)
  unfolding lift_suspension
  lift_suspension_again stored done term_stored writable =
      rw (stored, term_stored, writable, done, lift_over) refl
