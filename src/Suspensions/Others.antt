-- ===== src/Suspensions/Others.antt =====
-- Suspensions of one scope with one reason text.
use fluxtrack_main.Calendar.{Instant}
use fluxtrack_main.Model.{AcademicTerm, ClassSuspension, Database, Session, is_archived_term}
use fluxtrack_main.Ops.{HasKeys, session_by_id, term_by_id}
use fluxtrack_main.Prelude.{
  ==_ne, Elem, Elem-filter_of, Option, any-Elem, ap, arith, false, filter, is_none, none, refl,
  some, true, ℕ, ◌&&◌, ◌==◌, ◌∙◌, ◌≡◌, ◌≢◌,
}
use fluxtrack_main.Prelude.Update.{Elem-update, find-update}
use fluxtrack_main.Suspensions.{
  covers, excused_checker, is_lifted_by, lift_suspension, reinstate, suspension_by_id,
}
use fluxtrack_main.Suspensions.Lift.{after_lift, lift_suspension_lem, lifted_row}

-- A standing suspension of the term excuses what it covers.
pub excused_of_covers :
    (sp : ClassSuspension) (term_id : ℕ) (db : Database) (d building_id : ℕ)
    → Elem sp db.suspensions
    → sp.term_id ≡ term_id
    → covers sp d building_id ≡ true
    → excused_checker term_id db d building_id ≡ true
unfolding excused_checker
excused_of_covers sp term_id db d building_id m e h = ground (
  arith,
  any-Elem (λ r. covers r d building_id)
      (filter (λ r. r.term_id == term_id && is_none r.lifted_at) db.suspensions) sp
      (Elem-filter_of (λ r. r.term_id == term_id && is_none r.lifted_at) db.suspensions sp m
        (ground arith))
      h,
)

module _ (k : ℕ) (now : Instant) (lifted_by : Option ℕ) (sp other : ClassSuspension)
    (term : AcademicTerm) (db : Database) where
  other_kept :
      Elem other db.suspensions
      → other.id ≢ sp.id
      → Elem other (after_lift now lifted_by sp db).suspensions
  other_kept m differ =
      rw (==_ne other.id sp.id differ) at
        (Elem-update (λ row. row.id == sp.id) (lifted_row now lifted_by) db.suspensions other m)

  -- Where the lift of `sp` is accepted: a CANCELLED session in its scope that bears its reason is put
  -- back to SCHEDULED, also when another suspension of the term, not lifted, covers its date and
  -- building, and that date then still counts as excused.
  pub lift_reinstates_other :
      (s : Session)
      → HasKeys db
      → suspension_by_id k db ≡ some sp
      → sp.lifted_at ≡ none
      → term_by_id sp.term_id db ≡ some term
      → is_archived_term term.status ≡ false
      → session_by_id s.id db ≡ some s
      → is_lifted_by sp s ≡ true
      → Elem other db.suspensions
      → other.id ≢ sp.id
      → other.term_id ≡ sp.term_id
      → covers other s.date s.room.building_id ≡ true
      → (session_by_id s.id (lift_suspension k lifted_by now db).1 ≡ some (reinstate s))
        × (excused_checker sp.term_id
              (lift_suspension k lifted_by now db).1
              s.date
              s.room.building_id
            ≡ true)
  lift_reinstates_other s u stored standing term_stored writable found scope m differ same covered =
      let e =
        lift_suspension_lem k now lifted_by sp term db u stored standing term_stored writable in
      (
        ap (λ r. session_by_id s.id r.1) e
            ∙ find-update (λ r. r.id == s.id) (is_lifted_by sp) reinstate db.sessions s (λ _. refl)
                found
            ∙ rw scope refl,
        ap (λ r. excused_checker sp.term_id r.1 s.date s.room.building_id) e
            ∙ excused_of_covers other sp.term_id (after_lift now lifted_by sp db) s.date
                s.room.building_id (other_kept m differ) same covered,
      )
