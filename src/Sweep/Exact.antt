-- ===== src/Sweep/Exact.antt =====
-- One run of the sweep, whole.
use fluxtrack_main.Calendar.{Date, Instant}
use fluxtrack_main.Merge.{mark_absent}
use fluxtrack_main.Model.{AcademicTerm, Database, Session, grace_minutes, is_scheduled}
use fluxtrack_main.Ops.{HasKeys, get_active_term, get_policy}
use fluxtrack_main.Prelude.{
  All-Elem-All, Bool, Bool-cases, Elem, List, [], any, ap, arith, filter, inl, inr, length, map,
  refl, some, ℕ, ◌&&◌, ◌++◌, ◌==◌, ◌∙◌, ◌∷◌, ◌≡◌,
}
use fluxtrack_main.Prelude.Unique.{IsUnique-filter, has_key-filter}
use fluxtrack_main.Prelude.Update.{update, update-eq_update}
use fluxtrack_main.Suspensions.{excused_checker}
use fluxtrack_main.Sweep.{
  SweepRun, flip_absent, is_candidate, is_swept, sweep_each, sweep_no_shows, sweep_term,
}
use fluxtrack_main.Sweep.Counts.{
  Counted, absent_entry, is_no_show, kept_lem, live_candidates, sweep_each-Counted,
}
use fluxtrack_main.Sweep.NoShows.{flips, sweep_each-sessions}

-- The other tables of a run's database.
abbrev SameRest : SweepRun → SweepRun → Type 0
SameRest run after =
    after.db ≡ record run.db { sessions = after.db.sessions; audit = after.db.audit }

module _ (now : Instant) (grace_min : ℕ) (excused : Date → ℕ → Bool) where
  flip_absent_rest :
      (c : Session) (run : SweepRun) → SameRest run (flip_absent now grace_min excused c run)
  unfolding flip_absent
  flip_absent_rest c run =
      elim (Bool-cases (any (λ r. r.id == c.id && is_scheduled r.status) run.db.sessions)) [
        | inl e ↦ rw e refl
        | inr e ↦ rw e refl
      ]

  sweep_each_rest :
      (candidates : List Session) (run : SweepRun)
      → SameRest run (sweep_each now grace_min excused candidates run)
  unfolding sweep_each
  sweep_each_rest [] run = refl
  sweep_each_rest (c ∷ cs) run = elim (Bool-cases (is_swept now grace_min excused c)) [
    | inr e ↦ rw (e, sweep_each) (sweep_each_rest cs run)
    | inl e ↦
        let next = flip_absent now grace_min excused c run in
        let after = sweep_each now grace_min excused cs next in
        rw (e, sweep_each)
          (sweep_each_rest cs next
            ∙ ap
                (λ (d : Database). record d {
                  sessions = after.db.sessions;
                  audit = after.db.audit;
                })
                (flip_absent_rest c run))
  ]

module _ (now : Instant) (term : AcademicTerm) (db : Database) where
  abbrev pub no_shows : List Session
  no_shows = filter (is_no_show now term db) db.sessions

  abbrev pub swept : Database
  swept = record db {
    sessions = update (is_no_show now term db) mark_absent db.sessions;
    audit = db.audit ++ map absent_entry no_shows;
  }

  abbrev grace : ℕ
  grace = get_policy grace_minutes db

  abbrev candidates : List Session
  candidates = filter (is_candidate term now grace) db.sessions

  abbrev begin : SweepRun
  begin = record { db = db; marked = 0; floors = [] }

  flips_lem :
      HasKeys db
      → (r : Session) → Elem r db.sessions
      → flips now grace (excused_checker term.id db) candidates r ≡ is_no_show now term db r
  flips_lem u r m =
      rw
        (
          kept_lem now term db,
          has_key-filter (λ s. s.id) (is_no_show now term db) db.sessions r u m,
        )
        (ground arith)

  run_sessions :
      HasKeys db
      → (sweep_each now grace (excused_checker term.id db) candidates begin).db.sessions
        ≡ swept.sessions
  run_sessions u =
      sweep_each-sessions now grace (excused_checker term.id db) candidates begin
      ∙ update-eq_update (flips now grace (excused_checker term.id db) candidates)
          (is_no_show now term db) mark_absent db.sessions
          (All-Elem-All
            (λ r.
              flips now grace (excused_checker term.id db) candidates r ≡ is_no_show now term db r)
            db.sessions (flips_lem u))

  run_Counted :
      HasKeys db
      → Counted no_shows begin (sweep_each now grace (excused_checker term.id db) candidates begin)
  run_Counted u = rw (kept_lem now term db) at (
      sweep_each-Counted now grace (excused_checker term.id db) candidates begin
        (IsUnique-filter (λ s. s.id) (is_candidate term now grace) db.sessions u)
        (live_candidates (is_candidate term now grace) db.sessions (λ s h. ground arith)))

  sweep_term_lem :
      HasKeys db
      → sweep_term now term db ≡ record {
        db = swept;
        marked = length no_shows;
        floors = map (λ c. c.room.floor_id) no_shows;
      }
  unfolding sweep_term
  sweep_term_lem u =
      let counted = run_Counted u in
      let rest = sweep_each_rest now grace (excused_checker term.id db) candidates begin in
      let whole : (sweep_each now grace (excused_checker term.id db) candidates begin).db ≡ swept =
        rest ∙ λ i. record db { sessions = run_sessions u i; audit = counted.audit i } in
      let total : (sweep_each now grace (excused_checker term.id db) candidates begin).marked
          ≡ length no_shows =
        omega (arith, counted.marked) in
      λ i. record { db = whole i; marked = total i; floors = counted.floors i }

  -- With an active term and unique session keys, one run of the sweep marks ABSENT exactly the
  -- no-shows of that term, counts them, logs one audit row for each and collects the floor of each,
  -- and changes nothing else.
  pub sweep_no_shows_lem :
      HasKeys db
      → get_active_term db ≡ some term
      → sweep_no_shows now db ≡ record {
        db = swept;
        marked = length no_shows;
        floors = map (λ c. c.room.floor_id) no_shows;
      }
  unfolding sweep_no_shows
  sweep_no_shows_lem u active = rw (active, sweep_no_shows) (sweep_term_lem u)
