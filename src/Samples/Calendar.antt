-- ===== src/Samples/Calendar.antt =====
-- A suspension of the sample campus, and a materialization.
use fluxtrack_main.Effects.{ok}
use fluxtrack_main.Materialize.{materialize_term}
use fluxtrack_main.Materialize.Calendar.{Adds, IsOnce}
use fluxtrack_main.Materialize.Term.{is_due, materialize_term-Adds}
use fluxtrack_main.Model.{ClassSuspension, Database, Session, SessionStatus}
use fluxtrack_main.Ops.{session_by_id}
use fluxtrack_main.Prelude.{[], arith, inl, inr, length, none, refl, some, true, ◌∷◌, ◌≡◌}
use fluxtrack_main.Samples.{
  at_minute, campus, campus-HasKeys, fall, held_c, held_d, section_a, section_b, spring,
  teaching_day,
}
use fluxtrack_main.Suspensions.{
  covers, excused_checker, lift_suspension, reinstate, suspend_classes,
}
use fluxtrack_main.Suspensions.Declare.{after_suspend, declared, suspend_classes_lem, suspended}
use fluxtrack_main.Suspensions.Lift.{after_lift, lift_suspension_lem, reinstated}
use fluxtrack_main.Suspensions.Others.{lift_reinstates_other}
use fluxtrack_main.Suspensions.RoundTrip.{lift-suspend}

abbrev storm : ClassSuspension
storm = record {
  id = 1;
  term_id = 1;
  start_date = 739010;
  end_date = 739010;
  building_id = none;
  reason = "Storm";
  declared_by = some 30;
  lifted_at = none;
  lifted_by = none;
}

-- Another suspension, of the building, for the same reason.
abbrev storm_here : ClassSuspension
storm_here = record storm { id = 2; building_id = some 1 }

abbrev cancelled_a : Session
cancelled_a = record section_a { status = SessionStatus.cancelled; cancelled_reason = "Storm" }

abbrev stormy : Database
stormy = record campus {
  suspensions = storm ∷ storm_here ∷ [];
  sessions = cancelled_a ∷ section_b ∷ held_c ∷ held_d ∷ [];
}

suspend_classes_example : suspend_classes 1 739010 739010 "Storm" (some 1) (some 30) campus ≡ (
  ok (
    declared 1 739010 739010 "Storm" (some 1) (some 30) campus,
    length (suspended 1 739010 739010 "Storm" (some 1) (some 30) campus),
  ),
  after_suspend 1 739010 739010 "Storm" (some 1) (some 30) campus,
)
suspend_classes_example =
    suspend_classes_lem 1 739010 739010 "Storm" (some 1) (some 30) campus fall campus-HasKeys refl
      refl

lift_suspension_example :
    lift_suspension 1 (some 30) (at_minute 600) stormy
    ≡ (ok (length (reinstated storm stormy)), after_lift (at_minute 600) (some 30) storm stormy)
lift_suspension_example =
    lift_suspension_lem 1 (at_minute 600) (some 30) storm fall stormy campus-HasKeys refl refl refl
      refl

lift-suspend_example :
    (lift_suspension
      (declared 1 739010 739010 "Storm" (some 1) (some 30) campus).id
      (some 30)
      (at_minute 600)
      (suspend_classes 1 739010 739010 "Storm" (some 1) (some 30) campus).1).1.sessions
    ≡ campus.sessions
lift-suspend_example =
    lift-suspend 1 739010 739010 "Storm" (some 1) (some 30) campus fall (some 30) (at_minute 600)
      campus-HasKeys refl refl
      ((refl, λ _. refl), ((refl, λ _. refl), ((refl, λ _. refl), ((refl, λ _. refl), tt))))

lift_reinstates_other_example :
    (session_by_id 1 (lift_suspension 1 (some 30) (at_minute 600) stormy).1
      ≡ some (reinstate cancelled_a))
    × (excused_checker 1 (lift_suspension 1 (some 30) (at_minute 600) stormy).1 teaching_day 1
        ≡ true)
unfolding covers
lift_reinstates_other_example =
    lift_reinstates_other 1 (at_minute 600) (some 30) storm storm_here fall stormy cancelled_a
      campus-HasKeys refl refl refl refl refl refl (inr (inl refl)) (λ e. omega arith) refl refl

-- The draft term has one class that meets on its second Monday.
pub campus-IsOnce : IsOnce campus
campus-IsOnce t d = ground arith

materialize_term_example :
    Adds
      (is_due spring 739200 14 true (at_minute 0) campus)
      (materialize_term spring 739200 14 true (at_minute 0))
      campus
materialize_term_example =
    materialize_term-Adds spring 739200 14 true (at_minute 0) campus campus-IsOnce refl refl
      (omega arith)
