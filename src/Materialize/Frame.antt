-- ===== src/Materialize/Frame.antt =====
-- A materialization leaves the term table alone.
use fluxtrack_main.Calendar.{Date, Instant, weekday}
use fluxtrack_main.Effects.{materialization_error, require}
use fluxtrack_main.Effects.Keeps.{Keeps, bind-Keeps}
use fluxtrack_main.Materialize.{
  MaterializationResult, apply_approved_shift, apply_room, apply_shift, approved_items, born,
  is_occurrence, latest, materialize_date, materialize_days, materialize_one, materialize_term,
  nothing_made, schedules_of, validate_term, visit,
}
use fluxtrack_main.Model.{
  AcademicTerm, Database, ModalityShiftItem, ModalityShiftRequest, Room, Schedule, is_archived_term,
  is_draft_term, is_online,
}
use fluxtrack_main.Ops.{
  keys, log, notify_ifo, notify_users, release_room, save_session, update_sessions,
}
use fluxtrack_main.Prelude.{
  Bool, Bool-cases, List, Option, [], any, count, false, inl, inr, leb, ltb, max, min, none, not,
  some, suc, true, zero, ℕ, ◌&&◌, ◌++◌, ◌+◌, ◌==◌, ◌∷◌, ◌≡◌,
}
use fluxtrack_main.Suspensions.{excused_checker, fresh_key}

abbrev pub HasTerms : List AcademicTerm → Database → Type 0
HasTerms ts db = db.terms ≡ ts

module _ (ts : List AcademicTerm) where
  roomed :
      (room : Option Room) (item : ModalityShiftItem) (r : ModalityShiftRequest) (k date : ℕ)
      (db : Database)
      → HasTerms ts db
      → HasTerms ts (apply_room room item r k date db)
  unfolding apply_room save_session update_sessions notify_ifo notify_users
  roomed none item r k date db h = h
  roomed (some room) item r k date db h = h

  shifted :
      (found : Option (ModalityShiftItem × ModalityShiftRequest)) (k date now : ℕ) (db : Database)
      → HasTerms ts db
      → HasTerms ts (apply_shift found k date now db)
  unfolding apply_shift release_room save_session update_sessions log
  shifted none k date now db h = h
  shifted (some (item, r)) k date now db h = elim (Bool-cases (is_online r.target_modality)) [
    | inl e ↦ rw e h
    | inr e ↦ rw e (roomed item.assigned_room item r k date db h)
  ]

  approved :
      (k : ℕ) (s : Schedule) (date now : ℕ) (db : Database)
      → HasTerms ts db
      → HasTerms ts (apply_approved_shift k s date now db)
  unfolding apply_approved_shift
  approved k s date now db h =
      shifted (latest none (approved_items db.items s date db)) k date now db h

  one-Keeps :
      (now : Instant) (date : Date) (s : Schedule) (r : MaterializationResult)
      → Keeps (HasTerms ts) (materialize_one now date s r)
  unfolding materialize_one
  one-Keeps now date s r db h =
      elim (Bool-cases (ltb 1 (count (is_occurrence s.id date) db.sessions))) [
        | inl e ↦ rw e h
        | inr e ↦ rw e (elim (Bool-cases (any (is_occurrence s.id date) db.sessions)) [
          | inl f ↦ rw f h
          | inr f ↦ rw f (
              approved (fresh_key (keys db.sessions)) s date now
                (record db {
                  sessions = db.sessions ++ born (fresh_key (keys db.sessions)) s date ∷ [];
                })
                h)
        ])
      ]

  module _ (now : Instant) (excused : Date → ℕ → Bool) where
    visit-Keeps :
        (date : Date) (s : Schedule) (r : MaterializationResult)
        → Keeps (HasTerms ts) (visit now excused date s r)
    visit-Keeps date s r db h = elim (Bool-cases (not (s.day_of_week == weekday date))) [
      | inl e ↦ rw e h
      | inr e ↦ rw e (elim (Bool-cases (excused date s.room.building_id)) [
        | inl f ↦ rw f h
        | inr f ↦ rw f (one-Keeps now date s r db h)
      ])
    ]

    date-Keeps :
        (date : Date) (schedules : List Schedule) (r : MaterializationResult)
        → Keeps (HasTerms ts) (materialize_date now excused date schedules r)
    unfolding materialize_date
    date-Keeps date [] r db h = h
    date-Keeps date (s ∷ ss) r db h =
        bind-Keeps (HasTerms ts) (visit now excused date s r) (materialize_date now excused date ss)
          (visit-Keeps date s r) (date-Keeps date ss) db h

    days-Keeps :
        (schedules : List Schedule) (n : ℕ) (date : Date) (r : MaterializationResult)
        → Keeps (HasTerms ts) (materialize_days now excused schedules n date r)
    unfolding materialize_days
    days-Keeps schedules zero date r db h = h
    days-Keeps schedules (suc n) date r db h =
        bind-Keeps (HasTerms ts) (materialize_date now excused date schedules r)
          (materialize_days now excused schedules n (date + 1)) (date-Keeps date schedules r)
          (days-Keeps schedules n (date + 1)) db h

  pub materialize_term-Keeps :
      (term : AcademicTerm) (start days : ℕ) (allow_draft : Bool) (now : Instant)
      → Keeps (HasTerms ts) (materialize_term term start days allow_draft now)
  unfolding materialize_term validate_term
  materialize_term-Keeps term start days allow_draft now =
      bind-Keeps (HasTerms ts) (validate_term term allow_draft) _ valid λ _.
        bind-Keeps (HasTerms ts) (require (not (ltb days 1)) materialization_error) _ (required _)
          λ _ db h.
            (elim (Bool-cases
              (leb (min (start + days) (term.end_date + 1)) (max start term.start_date))) [
                | inl e ↦ rw e h
                | inr e ↦ rw e (
                    days-Keeps now (excused_checker term.id db) (schedules_of term db) _ _
                      nothing_made db h)
              ])
    where
      required : (b : Bool) → Keeps (HasTerms ts) (require b materialization_error)
      required true db h = h
      required false db h = h

      valid : Keeps (HasTerms ts) (validate_term term allow_draft)
      valid db h = elim (Bool-cases (is_archived_term term.status)) [
        | inl e ↦ rw e h
        | inr e ↦ rw e (elim (Bool-cases (is_draft_term term.status && not allow_draft)) [
          | inl f ↦ rw f h
          | inr f ↦ rw f h
        ])
      ]
