-- ===== src/Suspensions/RoundTrip.antt =====
-- Declaring a suspension and lifting it.
use text.Mathlib.TextPositions.{eq_refl}
use mathlib.Core.Path.{ap₂}
use fluxtrack_main.Calendar.{Instant}
use fluxtrack_main.Model.{
  AcademicTerm, ClassSuspension, Database, Session, is_archived_term, take_chars,
}
use fluxtrack_main.Ops.{HasKeys, keys, term_by_id}
use fluxtrack_main.Prelude.{
  ==-refl, All, Bool, List, Option, String, [], any, ap, arith, false, find, find-append_right,
  if◌then◌else◌, map, refl, some, true, ℕ, ◌++◌, ◌==◌, ◌∙◌, ◌∷◌, ◌≡◌, ◌≤◌,
}
use fluxtrack_main.Prelude.Unique.{IsUnique}
use fluxtrack_main.Prelude.Update.{map-update, update}
use fluxtrack_main.Suspensions.{
  cancel, fresh_key, is_lifted_by, is_suspended, lift_suspension, reinstate, suspend_classes,
}
use fluxtrack_main.Suspensions.Declare.{after_suspend, declared, suspend_classes_lem}
use fluxtrack_main.Suspensions.Lift.{lift_suspension_lem}

module _ (sp : ClassSuspension) where
  abbrev pub is_declared_by : Session → Bool
  is_declared_by = is_suspended sp.term_id sp.start_date sp.end_date sp.building_id

  -- A scheduled session has no reason yet, and no session looks cancelled by this suspension.
  abbrev pub IsFresh : Session → Type 0
  IsFresh s = (is_lifted_by sp s ≡ false) × (is_declared_by s ≡ true → s.cancelled_reason ≡ "")

  abbrev undo : Session → Session
  undo s =
      let t = if is_declared_by s then cancel sp.reason s else s in
      if is_lifted_by sp t then reinstate t else t

  undo_lem : (s : Session) → IsFresh s → undo s ≡ s
  undo_lem s h = ground (arith, eq_refl (take_chars 200 sp.reason))

  rows_restored :
      (rows : List Session)
      → All IsFresh rows
      → update (is_lifted_by sp) reinstate (update is_declared_by (cancel sp.reason) rows) ≡ rows
  unfolding update
  rows_restored [] h = refl
  rows_restored (r ∷ rs) h = ap₂ ◌∷◌ (undo_lem r h.0) (rows_restored rs h.1)

fresh_key-lt :
    (rows : List ClassSuspension) (k : ℕ)
    → fresh_key (map (λ sp. sp.id) rows) ≤ k
    → any (λ sp. sp.id == k) rows ≡ false
unfolding fresh_key
fresh_key-lt [] k h = refl
fresh_key-lt (r ∷ rs) k h = ground (arith, fresh_key-lt rs k)

module _ (term_id start_date end_date : ℕ) (reason : String) (building declared_by : Option ℕ)
    (db : Database) (term : AcademicTerm) where
  abbrev sp : ClassSuspension
  sp = declared term_id start_date end_date reason building declared_by db

  abbrev after : Database
  after = (suspend_classes term_id start_date end_date reason building declared_by db).1

  -- Where the term is writable, the keys are unique, SCHEDULED sessions carry no cancellation reason
  -- and no session of the same scope is already cancelled with the same (truncated) reason, lifting a
  -- suspension that was just declared gives back every session as it was.
  pub lift-suspend :
      (lifted_by : Option ℕ) (now : Instant)
      → HasKeys db
      → term_by_id term_id db ≡ some term
      → is_archived_term term.status ≡ false
      → All (IsFresh sp) db.sessions
      → (lift_suspension sp.id lifted_by now after).1.sessions ≡ db.sessions
  unfolding fresh_key
  lift-suspend lifted_by now u stored writable new =
      ap (λ r. (lift_suspension sp.id lifted_by now r.1).1.sessions)
        (suspend_classes_lem term_id start_date end_date reason building declared_by db term u
          stored writable)
      ∙ ap (λ r. r.1.sessions)
          (lift_suspension_lem sp.id now lifted_by sp term
            (after_suspend term_id start_date end_date reason building declared_by db) after_keys
            after_found refl stored writable)
      ∙ rows_restored sp db.sessions new
    where
      after_keys : IsUnique (keys (update (is_declared_by sp) (cancel reason) db.sessions))
      after_keys =
          rw (map-update (λ s. s.id) (is_declared_by sp) (cancel reason) db.sessions (λ _. refl)) u

      after_found : find (λ row. row.id == sp.id) (db.suspensions ++ sp ∷ []) ≡ some sp
      after_found =
          find-append_right (λ row. row.id == sp.id) db.suspensions (sp ∷ [])
            (fresh_key-lt db.suspensions sp.id (omega arith))
          ∙ rw (==-refl sp.id)
