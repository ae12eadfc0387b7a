-- ===== src/Sweep.antt =====
-- scheduling/jobs.py, `sweep_no_shows`: still-SCHEDULED sessions past grace become ABSENT.
pub mod NoShows
pub mod Counts
pub mod Exact
pub mod Again
pub mod Agreement
use fluxtrack_main.Calendar.{Date, Instant, minutes}
use fluxtrack_main.Merge.{mark_absent}
use fluxtrack_main.Model.{
  AcademicTerm, Database, Session, grace_minutes, is_scheduled, marked_absent_by_sweep,
}
use fluxtrack_main.Ops.{get_active_term, get_policy, in_term, log, update_sessions}
use fluxtrack_main.Prelude.{
  Bool, List, [], any, filter, if_some, if◌then◌else◌, ltb, none, not, some, ℕ, ◌&&◌, ◌++◌, ◌+◌,
  ◌-◌, ◌==◌, ◌∷◌,
}
use fluxtrack_main.Resolver.{is_no_show_past_grace}
use fluxtrack_main.Suspensions.{excused_checker, session_is_calendar_excused}

-- What one run has written, marked and collected. Every collected event has the kind KIND_ABSENT, so
-- only its floor is kept.
pub record SweepRun : Type 0 where
  pub db : Database
  pub marked : ℕ
  pub floors : List ℕ

module _ (now : Instant) (grace_min : ℕ) (excused : Date → ℕ → Bool) where
  -- The two `continue`s of the loop.
  abbrev pub is_swept : Session → Bool
  is_swept s =
      is_no_show_past_grace s.scheduled_start now grace_min
      && not (session_is_calendar_excused excused s)

  -- The status-guarded update, and what follows it if a row was flipped.
  pub flip_absent : Session → SweepRun → SweepRun
  unfolding update_sessions log
  flip_absent s run =
      let guarded = λ (r : Session). r.id == s.id && is_scheduled r.status in
      if any guarded run.db.sessions
      then record {
        db =
            log none marked_absent_by_sweep (some s.id)
              (update_sessions guarded mark_absent run.db);
        marked = run.marked + 1;
        floors = run.floors ++ s.room.floor_id ∷ [];
      }
      else run

  pub sweep_each : List Session → SweepRun → SweepRun
  unfolding flip_absent
  sweep_each [] run = run
  sweep_each (s ∷ rest) run = sweep_each rest (if is_swept s then flip_absent s run else run)

-- The rows of the materialized query. `now - grace` is the cutoff.
abbrev pub is_candidate : AcademicTerm → Instant → ℕ → Session → Bool
is_candidate term now grace_min s =
    is_scheduled s.status && (ltb s.scheduled_start (now - minutes grace_min) && in_term term s)

sweep_term : Instant → AcademicTerm → Database → SweepRun
unfolding sweep_each get_policy excused_checker session_is_calendar_excused is_no_show_past_grace
sweep_term now term db =
    let grace_min = get_policy grace_minutes db in
    sweep_each now grace_min (excused_checker term.id db)
      (filter (is_candidate term now grace_min) db.sessions)
      (record { db = db; marked = 0; floors = [] })

unfoldable pub sweep_no_shows : Instant → Database → SweepRun
unfolding sweep_term
sweep_no_shows now db =
    if_some (get_active_term db) (λ term. sweep_term now term db)
      (record { db = db; marked = 0; floors = [] })
