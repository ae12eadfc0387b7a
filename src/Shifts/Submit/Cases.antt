-- ===== src/Shifts/Submit/Cases.antt =====
-- A submission is refused and writes nothing, or has passed every gate.
use fluxtrack_main.Calendar.{Date, Instant}
use fluxtrack_main.Effects.{
  Error, Result, archived, atomic, does_not_exist, double_books, err, inverted_window,
  move_needs_room, no_dean, no_schedules, no_sessions, ok, past_cutoff, recent_request, shift_error,
}
use fluxtrack_main.Model.{
  Database, Modality, ModalityShiftRequest, Room, Schedule, Session, User, is_archived_term,
}
use fluxtrack_main.Ops.{term_by_id}
use fluxtrack_main.Prelude.{
  Bool, Bool-cases, List, Option, Option-cases, String, [], any, false, inl, inr, leb, map, refl,
  some, true, ℕ, ◌∷◌, ◌≡◌, ◌⊎◌,
}
use fluxtrack_main.Prelude.Distinct.{distinct}
use fluxtrack_main.Shifts.Decisions.{single-cases}
use fluxtrack_main.Shifts.Submit.{
  TimeMove, double_booked, earliest_from, gate_lead, gathered, has_recent, is_before_lead_cutoff,
  lock_open_term, new_request, open_ticket, preferences, route_to_dean, selected_term,
  submit_modality_shift, takes_rooms,
}

selected-cases :
    (ss : List Schedule) (db : Database)
    → ((e : Error) × (selected_term ss db ≡ (err e, db)))
      ⊎ ((t : ℕ) × (selected_term ss db ≡ (ok t, db)))
selected-cases [] db = inl (shift_error no_schedules, refl)
selected-cases (s ∷ ss) db = single-cases (distinct (map (λ x. x.term_id) (s ∷ ss))) db

gate-cases :
    (ss : List Session) (now : Instant) (db : Database)
    → ((e : Error) × (gate_lead ss now db ≡ (err e, db))) ⊎ (gate_lead ss now db ≡ (ok tt, db))
gate-cases [] now db = inl (shift_error no_sessions, refl)
gate-cases (s ∷ ss) now db =
    elim (Bool-cases (is_before_lead_cutoff (earliest_from s.date ss) now db)) [
      | inl e ↦ inr (rw e refl)
      | inr e ↦ inl (shift_error past_cutoff, rw e refl)
    ]

open-cases :
    (t : ℕ) (db : Database)
    → ((e : Error) × (lock_open_term t db ≡ (err e, db))) ⊎ (lock_open_term t db ≡ (ok tt, db))
open-cases t db = elim (Option-cases (term_by_id t db)) [
  | inl f ↦ inl (does_not_exist, rw f refl)
  | inr (term, f) ↦ elim (Bool-cases (is_archived_term term.status)) [
    | inl a ↦ inl (shift_error archived, rw (f, a) refl)
    | inr a ↦ inr (rw (f, a) refl)
  ]
]

module _ (before : String → String → Bool) (user : User) (schedules : List Schedule)
    (target : Modality) (first last : Date) (wanted : ℕ → Option Room) (move : TimeMove)
    (now : Instant) (db : Database) where
  -- Every gate is passed.
  pub record IsAccepted : Type 0 where
    pub term_id : ℕ
    pub one_term : selected_term schedules db ≡ (ok term_id, db)
    pub forward : leb first last ≡ true
    pub no_recent : any (has_recent user now db) schedules ≡ false
    pub bundled : takes_rooms move target ≡ true
    pub in_time : gate_lead (gathered schedules first last db) now db ≡ (ok tt, db)
    pub decider : User
    pub has_dean : route_to_dean user.department db ≡ some decider
    pub no_clash : double_booked move user (gathered schedules first last db) db ≡ false
    pub open_term : lock_open_term term_id db ≡ (ok tt, db)

  abbrev run : Result ModalityShiftRequest × Database
  run = submit_modality_shift before user schedules target first last wanted move now db

  abbrev pub ticket : User → Result ModalityShiftRequest × Database
  ticket decider =
      open_ticket (new_request user decider target first last move db) user decider move
        (preferences before wanted schedules first last db) db

  pub accepted_run :
      (h : IsAccepted)
      → submit_modality_shift before user schedules target first last wanted move now db
        ≡ atomic (λ d. ticket h.decider) db
  unfolding submit_modality_shift
  accepted_run h =
      rw
        (
          h.one_term, h.forward, h.no_recent, h.bundled, h.in_time, h.has_dean, h.no_clash,
          h.open_term,
        )
        refl

  pub submit-cases :
      ((e : Error) × (submit_modality_shift before user schedules target first last wanted move now
            db
          ≡ (err e, db)))
      ⊎ IsAccepted
  unfolding submit_modality_shift
  submit-cases = elim (selected-cases schedules db) [
    | inl (e, a) ↦ inl (e, rw a refl)
    | inr (t, a) ↦ elim (Bool-cases (leb first last)) [
      | inr b ↦ inl (shift_error inverted_window, rw (a, b) refl)
      | inl b ↦ elim (Bool-cases (any (has_recent user now db) schedules)) [
        | inl c ↦ inl (shift_error recent_request, rw (a, b, c) refl)
        | inr c ↦ elim (Bool-cases (takes_rooms move target)) [
          | inr d ↦ inl (shift_error move_needs_room, rw (a, b, c, d) refl)
          | inl d ↦ elim (gate-cases (gathered schedules first last db) now db) [
            | inl (e, g) ↦ inl (e, rw (a, b, c, d, g) refl)
            | inr g ↦ elim (Option-cases (route_to_dean user.department db)) [
              | inl r ↦ inl (shift_error no_dean, rw (a, b, c, d, g, r) refl)
              | inr (u, r) ↦
                  elim (Bool-cases
                    (double_booked move user (gathered schedules first last db) db)) [
                      | inl k ↦ inl (shift_error double_books, rw (a, b, c, d, g, r, k) refl)
                      | inr k ↦ elim (open-cases t db) [
                        | inl (e, o) ↦ inl (e, rw (a, b, c, d, g, r, k, o) refl)
                        | inr o ↦ inr (record {
                          term_id = t;
                          one_term = a;
                          forward = b;
                          no_recent = c;
                          bundled = d;
                          in_time = g;
                          decider = u;
                          has_dean = r;
                          no_clash = k;
                          open_term = o;
                        })
                      ]
                    ]
            ]
          ]
        ]
      ]
    ]
  ]
