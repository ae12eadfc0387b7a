-- ===== src/Samples/Lifecycle.antt =====
-- The states of the sample campus' terms.
use fluxtrack_main.Calendar.{Date}
use fluxtrack_main.Effects.{ok}
use fluxtrack_main.Materialize.Born.{occurrences}
use fluxtrack_main.Materialize.Calendar.{grow}
use fluxtrack_main.Materialize.Term.{is_due}
use fluxtrack_main.Model.{
  Database, TermStatus, is_archived_term, materialization_horizon_days, term_archived,
  term_reopened,
}
use fluxtrack_main.Ops.{get_policy}
use fluxtrack_main.Prelude.{[], arith, false, max, refl, some, true, ℕ, ◌==◌, ◌↔◌, ◌∷◌, ◌≡◌}
use fluxtrack_main.Prelude.Unique.{IsUnique-all_differ}
use fluxtrack_main.Prelude.Update.{update}
use fluxtrack_main.Samples.{at_minute, campus, fall, officer, spring, summer, teaching_day}
use fluxtrack_main.Samples.Calendar.{campus-IsOnce}
use fluxtrack_main.Terms.{
  TermAction, action_warnings, activate_term, close_term, create_term, reopen_term, same_texts,
  set_status,
}
use fluxtrack_main.Terms.Activate.{activate_term_lem}
use fluxtrack_main.Terms.Creation.{
  MayCreate, create_term_iff, is_confirmed, may_manage, new_term, with_new_term,
}
use fluxtrack_main.Terms.Moves.{IsClosable, IsSure, close_term_iff, moved, reopen_term_iff}
use fluxtrack_main.Terms.Names.{same_folded, strip}
use fluxtrack_main.Terms.Single.{Steps-IsTermTable, created, done, next}
use fluxtrack_main.Terms.Table.{IsTermTable}

is_same_accented : same_folded "Été 2027" "éTÉ 2027" ≡ true
unfolding same_folded
is_same_accented = refl

is_same_expanded : same_folded "Großer" "GROSSER" ≡ true
unfolding same_folded
is_same_expanded = refl

is_other_accent : same_folded "Été" "Ete" ≡ false
unfolding same_folded
is_other_accent = refl

create_term_example :
    ((may_manage (some officer) ≡ true)
      × (is_confirmed (some officer) " Winter  2 " 739101 739150 (some "Winter 2") campus ≡ true)
      × MayCreate " Winter  2 " 739101 739150 campus.terms)
    ↔ (create_term (some officer) " Winter  2 " (some 739101) (some 739150) (some "Winter 2") campus
        ≡ (
          ok (new_term (some officer) " Winter  2 " 739101 739150 (some "Winter 2") campus),
          with_new_term (some officer) " Winter  2 " 739101 739150 (some "Winter 2") campus,
        ))
create_term_example =
    create_term_iff (some officer) " Winter  2 " 739101 739150 (some "Winter 2") campus

close_term_example :
    ((may_manage (some officer) ≡ true)
      × IsClosable 1
          (some officer)
          fall
          campus
          (some "Fall")
          (some "over")
          ("scheduled_sessions_present" ∷ [])
          739100
      × IsSure 1
          (some officer)
          fall
          campus
          (some "Fall")
          (some "over")
          ("scheduled_sessions_present" ∷ [])
          739100
          TermAction.close)
    ↔ (close_term 1
          (some officer)
          (some "Fall")
          (some "over")
          ("scheduled_sessions_present" ∷ [])
          739100
          campus
        ≡ (
          ok (set_status TermStatus.archived fall),
          moved 1 (some officer) fall campus TermStatus.archived (term_archived (strip "over")),
        ))
close_term_example =
    close_term_iff 1 (some officer) fall campus (some "Fall") (some "over")
      ("scheduled_sessions_present" ∷ []) 739100 refl

reopen_term_example :
    ((may_manage (some officer) ≡ true)
      × (is_archived_term summer.status ≡ true)
      × IsSure 3
          (some officer)
          summer
          campus
          (some "Summer")
          (some "typo")
          []
          teaching_day
          TermAction.reopen)
    ↔ (reopen_term 3 (some officer) (some "Summer") (some "typo") [] teaching_day campus ≡ (
      ok (set_status TermStatus.draft summer),
      moved 3 (some officer) summer campus TermStatus.draft (term_reopened (strip "typo")),
    ))
reopen_term_example =
    reopen_term_iff 3 (some officer) summer campus (some "Summer") (some "typo") [] teaching_day
      refl

-- The campus when the first term is over.
abbrev quiet : Database
quiet = record campus { terms = set_status TermStatus.archived fall ∷ spring ∷ summer ∷ [] }

activate_term_example :
    (after : Database) × (activate_term 2
        (some officer)
        (some "Spring")
        []
        739190
        (at_minute 0)
        quiet
      ≡ (ok (set_status TermStatus.active spring), after))
    × (after.terms ≡ update (λ r. r.id == 2) (set_status TermStatus.active) quiet.terms)
    × ((s : ℕ) (d : Date)
        → occurrences s d after
          ≡ grow
              (is_due spring
                (max 739190 spring.start_date)
                (get_policy materialization_horizon_days quiet)
                true
                (at_minute 0)
                quiet
                s
                d)
              (occurrences s d quiet))
unfolding same_texts action_warnings get_policy
activate_term_example =
    activate_term_lem 2 (some officer) (some "Spring") [] 739190 (at_minute 0) spring quiet
      campus-IsOnce
      (record {
        permitted = refl;
        stored = refl;
        drafted = refl;
        ordered = omega arith;
        alone = refl;
        confirmed = refl;
        acknowledges = refl;
        some_days = omega arith;
      })

campus-IsTermTable : IsTermTable campus.terms
campus-IsTermTable = record {
  unique = IsUnique-all_differ (1 ∷ 2 ∷ 3 ∷ []) refl;
  single = omega arith;
  disjoint = ((refl, (refl, tt)), ((refl, tt), (tt, tt)));
}

Steps-IsTermTable_example :
    IsTermTable
      (create_term
        (some officer)
        "Winter"
        (some 739101)
        (some 739150)
        (some "Winter")
        campus).1.terms
Steps-IsTermTable_example =
    Steps-IsTermTable
      (next (created (some officer) "Winter" (some 739101) (some 739150) (some "Winter")) done)
      campus-IsTermTable
