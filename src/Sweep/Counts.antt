-- ===== src/Sweep/Counts.antt =====
-- What one run of the sweep counts, logs and collects.
use mathlib.Core.List.{append_assoc, append-nil}
use fluxtrack_main.Calendar.{Date, Instant, minutes}
use fluxtrack_main.Merge.{mark_absent}
use fluxtrack_main.Model.{
  AcademicTerm, AuditLog, Database, Session, grace_minutes, is_scheduled, marked_absent_by_sweep,
}
use fluxtrack_main.Ops.{get_policy, in_term, keys, log, update_sessions}
use fluxtrack_main.Prelude.{
  ==-refl, All, All-Elem-All, Bool, Bool-cases, Elem-filter, List, [], any, any-Elem, arith, filter,
  filter-eq_filter, filter-filter, inl, inr, length, ltb, map, none, not, refl, some, sym, true, ℕ,
  ◌&&◌, ◌++◌, ◌+◌, ◌==◌, ◌∙◌, ◌∷◌, ◌≡◌, ◌≢◌,
}
use fluxtrack_main.Prelude.Unique.{IsUnique}
use fluxtrack_main.Prelude.Update.{update}
use fluxtrack_main.Resolver.{is_no_show_past_grace}
use fluxtrack_main.Suspensions.{excused_checker, session_is_calendar_excused}
use fluxtrack_main.Sweep.{SweepRun, flip_absent, is_candidate, is_swept, sweep_each}
use fluxtrack_main.Sweep.NoShows.{kept}

pub absent_entry : Session → AuditLog
absent_entry c = record { actor = none; event = marked_absent_by_sweep; target_id = some c.id }

any-update_other :
    (c d : Session) (rows : List Session)
    → c.id ≢ d.id
    → any
        (λ r. r.id == d.id && is_scheduled r.status)
        (update (λ r. r.id == c.id && is_scheduled r.status) mark_absent rows)
      ≡ any (λ r. r.id == d.id && is_scheduled r.status) rows
unfolding update
any-update_other c d [] h = refl
any-update_other c d (r ∷ rs) h = ground (arith, any-update_other c d rs h)

-- The counters and the log, after `run`, of a run that flipped these sessions.
pub record Counted (flipped : List Session) (run after : SweepRun) : Type 0 where
  pub marked : after.marked ≡ run.marked + length flipped
  pub floors : after.floors ≡ run.floors ++ map (λ c. c.room.floor_id) flipped
  pub audit : after.db.audit ≡ run.db.audit ++ map absent_entry flipped

flipped_run : Session → SweepRun → SweepRun
unfolding log update_sessions
flipped_run c run = record {
  db =
      log none marked_absent_by_sweep (some c.id)
        (update_sessions (λ r. r.id == c.id && is_scheduled r.status) mark_absent run.db);
  marked = run.marked + 1;
  floors = run.floors ++ c.room.floor_id ∷ [];
}

Counted-cons :
    (c : Session) (cs : List Session) (run after : SweepRun)
    → Counted cs (flipped_run c run) after
    → Counted (c ∷ cs) run after
unfolding flipped_run absent_entry
Counted-cons c cs run after k = record {
  marked = omega (arith, k.marked);
  floors = k.floors ∙ append_assoc run.floors (c.room.floor_id ∷ []) _;
  audit = k.audit ∙ append_assoc run.db.audit (absent_entry c ∷ []) _;
}

-- Every candidate is still a SCHEDULED row.
abbrev pub AreLive : List Session → List Session → Type 0
AreLive candidates rows =
    All (λ c. any (λ r. r.id == c.id && is_scheduled r.status) rows ≡ true) candidates

AreLive-update :
    (c : Session) (cs rows : List Session)
    → All (λ j. c.id ≢ j) (keys cs)
    → AreLive cs rows
    → AreLive cs (update (λ r. r.id == c.id && is_scheduled r.status) mark_absent rows)
AreLive-update c [] rows u h = tt
AreLive-update c (d ∷ ds) rows u h =
    (any-update_other c d rows u.0 ∙ h.0, AreLive-update c ds rows u.1 h.1)

module _ (now : Instant) (grace_min : ℕ) (excused : Date → ℕ → Bool) where
  pub sweep_each-Counted :
      (candidates : List Session) (run : SweepRun)
      → IsUnique (keys candidates)
      → AreLive candidates run.db.sessions
      → Counted
          (kept now grace_min excused candidates)
          run
          (sweep_each now grace_min excused candidates run)
  unfolding sweep_each flipped_run
  sweep_each-Counted [] run u live = record {
    marked = omega arith;
    floors = sym (append-nil run.floors);
    audit = sym (append-nil run.db.audit);
  }
  sweep_each-Counted (c ∷ cs) run u live = elim (Bool-cases (is_swept now grace_min excused c)) [
    | inr e ↦ rw (e, sweep_each) (sweep_each-Counted cs run u.1 live.1)
    | inl e ↦
        rw (e, sweep_each, live.0, flip_absent)
          (Counted-cons c (kept now grace_min excused cs) run _ (
            sweep_each-Counted cs (flipped_run c run) u.1
              (AreLive-update c cs run.db.sessions u.0 live.1)))
  ]

pub live_candidates :
    (p : Session → Bool) (rows : List Session)
    → ((s : Session) → p s ≡ true → is_scheduled s.status ≡ true)
    → AreLive (filter p rows) rows
live_candidates p rows h =
    All-Elem-All (λ c. any (λ r. r.id == c.id && is_scheduled r.status) rows ≡ true) (filter p rows)
      λ c m.
        let (stored, passed) = Elem-filter p rows c m in
        any-Elem (λ r. r.id == c.id && is_scheduled r.status) rows c stored
          (rw (==-refl c.id, h c passed) refl)

-- The no-shows of a term at an instant, over the fields: SCHEDULED, of the term, past grace, and on a
-- date and in a building that the calendar does not excuse.
abbrev pub is_no_show : Instant → AcademicTerm → Database → Session → Bool
is_no_show now term db s =
    is_scheduled s.status
    && (in_term term s
        && (ltb (s.scheduled_start + minutes (get_policy grace_minutes db)) now
            && not (excused_checker term.id db s.date s.room.building_id)))

module _ (now : Instant) (term : AcademicTerm) (db : Database) where
  pub kept_lem :
      kept now
        (get_policy grace_minutes db)
        (excused_checker term.id db)
        (filter (is_candidate term now (get_policy grace_minutes db)) db.sessions)
      ≡ filter (is_no_show now term db) db.sessions
  unfolding is_no_show_past_grace session_is_calendar_excused
  kept_lem =
      filter-filter (is_candidate term now (get_policy grace_minutes db))
        (is_swept now (get_policy grace_minutes db) (excused_checker term.id db)) db.sessions
      ∙ filter-eq_filter _ (is_no_show now term db) db.sessions
          (All-Elem-All _ db.sessions (λ s _. ground arith))
