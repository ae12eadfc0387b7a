-- ===== src/Materialize/Term.antt =====
-- A whole materialization.
use fluxtrack_main.Calendar.{Date, Instant}
use fluxtrack_main.Effects.{Action, pure}
use fluxtrack_main.Materialize.{
  MaterializationResult, materialize_days, materialize_term, nothing_made, schedules_of,
}
use fluxtrack_main.Materialize.Calendar.{Adds, Adds-eq, IsOnce, days-Adds, due_in, meets}
use fluxtrack_main.Model.{AcademicTerm, Database, is_archived_term, is_draft_term}
use fluxtrack_main.Prelude.{
  Bool, Bool-cases, any, arith, false, if◌then◌else◌, inl, inr, leb, ltb, max, min, not, refl, true,
  ℕ, ◌&&◌, ◌+◌, ◌-◌, ◌<◌, ◌==◌, ◌∙◌, ◌≡◌,
}
use fluxtrack_main.Suspensions.{excused_checker}
use fluxtrack_main.Sweep.NoShows.{kept}

module _ (term : AcademicTerm) (start : Date) (days : ℕ) (allow_draft : Bool) (now : Instant)
    (db : Database) where
  abbrev pub first_day : Date
  first_day = max start term.start_date

  -- The day behind the last one.
  abbrev pub end_day : Date
  end_day = min (start + days) (term.end_date + 1)

  -- A schedule of the term meets on the date, which lies in the term and in the asked range.
  abbrev pub is_due : ℕ → Date → Bool
  is_due t d =
      (leb first_day d && ltb d end_day)
      && any (λ s. s.id == t && meets now (excused_checker term.id db) d s) (schedules_of term db)

  abbrev loop : Action MaterializationResult
  loop =
      materialize_days now (excused_checker term.id db) (schedules_of term db) (end_day - first_day)
        first_day nothing_made

  loop-Adds : IsOnce db → leb end_day first_day ≡ false → Adds is_due loop db
  loop-Adds once e =
      Adds-eq
        (due_in now (excused_checker term.id db) first_day (end_day - first_day)
          (schedules_of term db))
        is_due loop db (λ t d. ground arith)
        (days-Adds now (excused_checker term.id db) (schedules_of term db) (end_day - first_day)
          first_day nothing_made db once)

  none-Adds : leb end_day first_day ≡ true → Adds is_due (pure nothing_made) db
  none-Adds e = (nothing_made, db, refl, λ t d. ground arith)

  opened :
      is_archived_term term.status ≡ false
      → (is_draft_term term.status && not allow_draft) ≡ false
      → 0 < days
      → materialize_term term start days allow_draft now db
        ≡ (if leb end_day first_day then pure nothing_made else loop) db
  unfolding materialize_term
  opened kept fit some_days =
      let enough : ltb days 1 ≡ false = ground arith in rw (kept, fit, enough) refl

  -- A term that may be materialized, and a positive number of days, where no occurrence has two
  -- sessions: the call succeeds, and afterwards a schedule has on a date the sessions it had, and one
  -- if it had none and is due on that date.
  pub materialize_term-Adds :
      IsOnce db
      → is_archived_term term.status ≡ false
      → (is_draft_term term.status && not allow_draft) ≡ false
      → 0 < days
      → Adds is_due (materialize_term term start days allow_draft now) db
  materialize_term-Adds once kept fit some_days = elim (Bool-cases (leb end_day first_day)) [
    | inl e ↦
        let (r, after, q, h) = none-Adds e in (r, after, opened kept fit some_days ∙ rw e q, h)
    | inr e ↦
        let (r, after, q, h) = loop-Adds once e in (r, after, opened kept fit some_days ∙ rw e q, h)
  ]
