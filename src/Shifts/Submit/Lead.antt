-- ===== src/Shifts/Submit/Lead.antt =====
-- scheduling/services.py, submit_modality_shift: its gates, and the ticket behind them.
use fluxtrack_main.Calendar.{Date, Instant, combine}
use fluxtrack_main.Effects.{Error, Result, err, ok}
use fluxtrack_main.Model.{
  Database, Modality, ModalityShiftRequest, Room, Schedule, Session, User, modality_shift_lead_days,
}
use fluxtrack_main.Ops.{get_policy}
use fluxtrack_main.Prelude.{
  All, Bool, Bool-cases, List, Option, String, [], ap, arith, false, inl, inr, min, refl, some,
  true, ℕ, ◌-◌, ◌<◌, ◌∷◌, ◌≡◌, ◌≢◌, ◌≤◌, ◌⊎◌,
}
use fluxtrack_main.Shifts.Submit.{
  TimeMove, earliest_from, gate_lead, gathered, is_before_lead_cutoff, new_request, open_ticket,
  route_to_dean, submit_modality_shift,
}
use fluxtrack_main.Shifts.Submit.Cases.{accepted_run, submit-cases, ticket}
use fluxtrack_main.Shifts.Submit.Opened.{IsOpened, open_ticket-IsOpened}

earliest-le :
    (d : Date) (ss : List Session)
    → (earliest_from d ss ≤ d) × All (λ s. earliest_from d ss ≤ s.date) ss
earliest-le d [] = (omega arith, tt)
earliest-le d (s ∷ ss) =
    let (a, b) = earliest-le (min d s.date) ss in (omega arith, (omega arith, b))

abbrev succeeded : Result Unit → Bool
succeeded (ok u) = true
succeeded (err e) = false

module _ (now : Instant) (db : Database) where
  -- The midnight that lies the lead time before the session's day has not come.
  abbrev pub IsInTime : Session → Type 0
  IsInTime s = now < combine (s.date - get_policy modality_shift_lead_days db) 0

  IsInTime-from :
      (d : Date) (ss : List Session)
      → now < combine (d - get_policy modality_shift_lead_days db) 0
      → All (λ s. d ≤ s.date) ss
      → All IsInTime ss
  IsInTime-from d [] h k = tt
  IsInTime-from d (s ∷ ss) h k = let le = k.0 in (omega arith, IsInTime-from d ss h k.1)

  All-IsInTime :
      (ss : List Session) → gate_lead ss now db ≡ (ok tt, db) → (ss ≢ []) × All IsInTime ss
  unfolding is_before_lead_cutoff
  All-IsInTime [] h = let no : false ≡ true = ap (λ p. succeeded p.0) h in absurd (ground arith)
  All-IsInTime (s ∷ ss) h =
      elim (Bool-cases (is_before_lead_cutoff (earliest_from s.date ss) now db)) [
        | inl e ↦
            let (a, b) = earliest-le s.date ss in
            (
              λ q. ground arith,
              IsInTime-from (earliest_from s.date ss) (s ∷ ss) (ground arith) (a, b),
            )
        | inr e ↦
            let no : false ≡ true = rw e at (ap (λ p. succeeded p.0) h) in absurd (ground arith)
      ]

module _ (before : String → String → Bool) (user : User) (schedules : List Schedule)
    (target : Modality) (first last : Date) (wanted : ℕ → Option Room) (move : TimeMove)
    (now : Instant) (db : Database) where
  -- A submission is refused and writes nothing; or it has a dean, at least one session, and each of the
  -- sessions is at least the lead time ahead, and it opens the ticket: a new pending request of the user
  -- routed to the dean, one item for each schedule with its validated preference, one audit row and one
  -- notification to the dean, and nothing else.
  pub submit_modality_shift_lem :
      ((e : Error) × (submit_modality_shift before user schedules target first last wanted move now
            db
          ≡ (err e, db)))
      ⊎ ((decider : User) × (r : ModalityShiftRequest) × (after : Database) × (route_to_dean
              user.department db
            ≡ some decider)
          × (gathered schedules first last db ≢ [])
          × All (IsInTime now db) (gathered schedules first last db)
          × (submit_modality_shift before user schedules target first last wanted move now db
              ≡ (ok r, after))
          × IsOpened before user schedules target first last wanted move db decider r after)
  unfolding open_ticket
  submit_modality_shift_lem =
      elim (submit-cases before user schedules target first last wanted move now db) [
        | inl r ↦ inl r
        | inr h ↦
            let (some_sessions, early) =
              All-IsInTime now db (gathered schedules first last db) h.in_time in
            let made = new_request user h.decider target first last move db in
            inr (
              h.decider,
              made,
              (ticket before user schedules target first last wanted move now db h.decider).1,
              h.has_dean,
              some_sessions,
              early,
              accepted_run before user schedules target first last wanted move now db h,
              open_ticket-IsOpened before user schedules target first last wanted move db h.decider
                  made refl,
            )
      ]
