-- ===== src/Suspensions/Declare.antt =====
-- Declaring a suspension cancels exactly the scheduled sessions that it covers.
use mathlib.Core.List.{append-nil}
use fluxtrack_main.Effects.{ok}
use fluxtrack_main.Model.{
  AcademicTerm, AuditEvent, AuditLog, ClassSuspension, Database, Notification, Session,
  class_suspended, is_archived_term, session_cancelled,
}
use fluxtrack_main.Ops.{
  HasKeys, flip_once, keys, log_each, notify_users, term_by_id, update_sessions,
}
use fluxtrack_main.Ops.Flips.{flip_once_nil, length-keys, update-keys}
use fluxtrack_main.Prelude.{
  List, Option, String, [], any, arith, false, filter, length, map, refl, some, sym, ℕ, ◌++◌, ◌==◌,
  ◌∷◌, ◌≡◌,
}
use fluxtrack_main.Prelude.Distinct.{distinct}
use fluxtrack_main.Prelude.Update.{update}
use fluxtrack_main.Suspensions.{
  cancel, declare_over, flip_chunk, is_suspended, new_suspension, notify_affected, suspend_classes,
}
use fluxtrack_main.Suspensions.Chunks.{flip_chunks_lem}

-- The database with the new suspension's row.
abbrev pub with_suspension : ClassSuspension → Database → Database
with_suspension sp db = record db { suspensions = db.suspensions ++ sp ∷ [] }

-- The faculty who are told: each affected user once.
abbrev pub told : List Session → Database → List ℕ
told rows db = filter (λ k. any (λ u. u.id == k) db.users) (distinct (map (λ s. s.faculty_id) rows))

abbrev entries : AuditEvent → Option ℕ → List Session → List AuditLog
entries event actor rows =
    map (λ k. record { actor = actor; event = event; target_id = some k }) (keys rows)

module _ (sp : ClassSuspension) (reason : String) (declared_by : Option ℕ) where
  declare_over_lem :
      (rows : List Session) (db : Database)
      → declare_over sp reason declared_by rows db ≡ (
        length rows,
        notify_affected rows
            (flip_once (cancel reason) (session_cancelled reason sp.id) declared_by (keys rows) db),
      )
  unfolding declare_over notify_affected notify_users
  declare_over_lem (r ∷ rs) db =
      rw
        (flip_chunks_lem (cancel reason) (session_cancelled reason sp.id) declared_by (λ _. refl)
          (λ _. refl) flip_chunk (length (r ∷ rs)) (keys (r ∷ rs)) db (omega arith)
          (omega (arith, length-keys (r ∷ rs))))
        refl
  declare_over_lem [] db = λ i. (
    0,
    record (sym (flip_once_nil (cancel reason) (session_cancelled reason sp.id) declared_by db) i) {
      notifications = sym (append-nil db.notifications) i;
    },
  )

-- The notices, and what is written in all.
abbrev notices : List Session → Database → List Notification
notices rows db = map (λ k. record { user_id = k; type = class_suspended }) (told rows db)

module _ (term_id start_date end_date : ℕ) (reason : String) (building declared_by : Option ℕ)
    (db : Database) where
  abbrev pub declared : ClassSuspension
  declared = new_suspension term_id start_date end_date reason building declared_by db

  abbrev pub suspended : List Session
  suspended = filter (is_suspended term_id start_date end_date building) db.sessions

  abbrev pub after_suspend : Database
  after_suspend = record (with_suspension declared db) {
    sessions =
        update (is_suspended term_id start_date end_date building) (cancel reason) db.sessions;
    audit = db.audit ++ entries (session_cancelled reason declared.id) declared_by suspended;
    notifications = db.notifications ++ notices suspended db;
  }

  written :
      HasKeys db
      → notify_affected suspended (
          flip_once
            (cancel reason)
            (session_cancelled reason declared.id)
            declared_by
            (keys suspended)
            (with_suspension declared db))
        ≡ after_suspend
  unfolding notify_affected notify_users log_each update_sessions
  written u = λ i. record (with_suspension declared db) {
    sessions =
        update-keys (is_suspended term_id start_date end_date building) (cancel reason) db.sessions
          u i;
    audit = db.audit ++ entries (session_cancelled reason declared.id) declared_by suspended;
    notifications = db.notifications ++ notices suspended db;
  }

  -- Where the term is there and not archived and the keys of the sessions are unique: the suspension
  -- is recorded and returned with the number of sessions cancelled; the SCHEDULED sessions of the
  -- term, the dates and the building are cancelled with the reason, and no others; each has one audit
  -- row; each affected user is told once; and nothing else changes.
  pub suspend_classes_lem :
      (term : AcademicTerm)
      → HasKeys db
      → term_by_id term_id db ≡ some term
      → is_archived_term term.status ≡ false
      → suspend_classes term_id start_date end_date reason building declared_by db
        ≡ (ok (declared, length suspended), after_suspend)
  unfolding suspend_classes
  suspend_classes_lem term u stored writable =
      rw
        (
          stored,
          writable,
          declare_over_lem declared reason declared_by suspended (with_suspension declared db),
        )
        (λ i. (ok (declared, length suspended), written u i))
