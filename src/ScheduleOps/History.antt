-- ===== src/ScheduleOps/History.antt =====
-- An edit and a cancellation never rewrite a session that is past or is not SCHEDULED.
use mathlib.Core.Path.{subst}
use fluxtrack_main.Calendar.{Date}
use fluxtrack_main.Duty.Assign.Covered.{Pairwise}
use fluxtrack_main.Effects.{
  Error, Result, archived_term, does_not_exist, err, ok, schedule_conflict,
}
use fluxtrack_main.Model.{
  AcademicTerm, Database, Schedule, Session, SessionStatus, is_archived_term, is_online,
  is_scheduled,
}
use fluxtrack_main.Ops.{
  HasKeys, keys, log, log_each, require_writable_term, term_by_id, update_sessions,
}
use fluxtrack_main.Ops.Flips.{update-keys}
use fluxtrack_main.Prelude.{
  Bool, Bool-cases, List, Option, Option-cases, String, [], ap, arith, false, filter, find,
  if◌then◌else◌, inl, inr, leb, refl, some, sym, true, ℕ, ◌&&◌, ◌∙◌, ◌∷◌, ◌≡◌, ◌⊎◌,
}
use fluxtrack_main.Prelude.Unique.{IsUnique, has_key}
use fluxtrack_main.Prelude.Update.{filter-update, map-update, update}
use fluxtrack_main.ScheduleOps.{
  Edit, apply_edit, archive, assert_occurrences_free, cancel, cancel_schedule, check_move, follow,
  is_blocked, is_future_scheduled, is_move, is_of, occurrence_dates, or_keep, reason_of,
  save_schedule, schedule_by_id, update_schedule, write_cancel, write_edit,
}

-- Every row is changed where it passes the test, and nothing but its copy of the schedule differs
-- elsewhere.
abbrev pub IsFuture : (Session → Bool) → (Session → Session) → Session → Session → Type 0
IsFuture test change s r =
    ((test s ≡ true) × (r ≡ change (record s { schedule = r.schedule })))
    ⊎ ((test s ≡ false) × (r ≡ record s { schedule = r.schedule }))

module _ (k : ℕ) (save : Schedule → Schedule) (test : Session → Bool) (change : Session → Session)
    (same_test : (s : Session) → test (record s { schedule = save s.schedule }) ≡ test s)
    (keeps_schedule : (s : Session) → (change s).schedule ≡ s.schedule) where
  abbrev saved : Session → Session
  saved s = record s { schedule = save s.schedule }

  abbrev row : Session → Session
  row s = let t = if is_of k s then saved s else s in if test t then change t else t

  saved_row : (s : Session) → IsFuture test change s (row s)
  saved_row s = elim (Bool-cases (is_of k s)) [
    | inl e ↦ elim (Bool-cases (test s)) [
      | inl f ↦
          rw (e, same_test s, f)
            (inl
              (refl, ap (λ d. change (record s { schedule = d })) (sym (keeps_schedule (saved s)))))
      | inr f ↦ rw (e, same_test s, f) (inr (refl, refl))
    ]
    | inr e ↦ elim (Bool-cases (test s)) [
      | inl f ↦
          rw (e, f)
            (inl (refl, ap (λ d. change (record s { schedule = d })) (sym (keeps_schedule s))))
      | inr f ↦ rw (e, f) (inr (refl, refl))
    ]
  ]

  saved_rows :
      (rows : List Session)
      → Pairwise (IsFuture test change) rows (update test change (update (is_of k) saved rows))
  unfolding update
  saved_rows [] = tt
  saved_rows (s ∷ rows) = (saved_row s, saved_rows rows)

  abbrev rows_after : List Session → List Session
  rows_after rows =
      update (λ s. has_key (keys (filter test (update (is_of k) saved rows))) s.id) change
        (update (is_of k) saved rows)

  by_test :
      (rows : List Session)
      → IsUnique (keys rows)
      → rows_after rows ≡ update test change (update (is_of k) saved rows)
  by_test rows unique =
      update-keys test change (update (is_of k) saved rows)
        (subst IsUnique (sym (map-update (λ s. s.id) (is_of k) saved rows (λ s. refl))) unique)

  pub none_left :
      (rows : List Session)
      → IsUnique (keys rows)
      → ((s : Session) → test (change s) ≡ false)
      → filter test (rows_after rows) ≡ []
  none_left rows unique off =
      ap (filter test) (by_test rows unique)
      ∙ filter-update test change (update (is_of k) saved rows) (λ s _. off s)

  -- The rows after a save of the schedule and a change of the selected keys.
  pub saved_rows-keys :
      (rows : List Session)
      → IsUnique (keys rows)
      → Pairwise (IsFuture test change) rows (rows_after rows)
  saved_rows-keys rows unique =
      subst (Pairwise (IsFuture test change) rows) (sym (by_test rows unique)) (saved_rows rows)

-- A run has raised and left everything as it was, or it did the writes.
abbrev IsRun :
    {A : Type 0} → Database → (Schedule → Result A × Database) → ℕ → Result A × Database → Type 0
IsRun db writes k run =
    ((e : Error) × (run ≡ (err e, db)))
    ⊎ ((schedule : Schedule) × (schedule_by_id k db ≡ some schedule) × (run ≡ writes schedule))

module _ (k : ℕ) (actor : Option ℕ) (today : Date) (db : Database) where
  check_move-cases :
      (e : Edit) (schedule : Schedule) (term : AcademicTerm)
      → (check_move e schedule term today db ≡ (ok tt, db))
        ⊎ ((x : Error) × (check_move e schedule term today db ≡ (err x, db)))
  unfolding assert_occurrences_free
  check_move-cases e schedule term = elim (Bool-cases (is_move e schedule)) [
    | inr f ↦ rw f (inl refl)
    | inl f ↦ elim (Bool-cases (is_online schedule.modality)) [
      | inl g ↦ rw (f, g) (inl refl)
      | inr g ↦
          let blocked =
            is_blocked schedule (or_keep e.new_room schedule.room)
              (or_keep e.new_start schedule.start_time) (or_keep e.new_end schedule.end_time) today
              db in
          elim (Option-cases (find blocked (occurrence_dates schedule term today db))) [
            | inl q ↦ rw (f, g, q) (inl refl)
            | inr (d, q) ↦ rw (f, g, q) (inr (schedule_conflict d, refl))
          ]
    ]
  ]

  update_schedule-IsRun :
      (e : Edit)
      → IsRun db
          (λ schedule. write_edit e schedule k actor today db)
          k
          (update_schedule k e actor today db)
  unfolding update_schedule require_writable_term
  update_schedule-IsRun e = elim (Option-cases (schedule_by_id k db)) [
    | inl f ↦ rw f (inl (does_not_exist, refl))
    | inr (schedule, f) ↦ elim (Option-cases (term_by_id schedule.term_id db)) [
      | inl g ↦ rw (f, g) (inl (does_not_exist, refl))
      | inr (term, g) ↦ elim (Bool-cases (is_archived_term term.status)) [
        | inl h ↦ rw (f, g, h) (inl (archived_term, refl))
        | inr h ↦ elim (check_move-cases e schedule term) [
          | inl checked ↦ rw (f, g, h, checked) (inr (schedule, refl, refl))
          | inr (x, raised) ↦ rw (f, g, h, raised) (inl (x, refl))
        ]
      ]
    ]
  ]

  cancel_schedule-IsRun :
      (reason : String)
      → IsRun db
          (λ schedule. write_cancel (reason_of reason) k actor today db)
          k
          (cancel_schedule k actor reason today db)
  unfolding cancel_schedule require_writable_term
  cancel_schedule-IsRun reason = elim (Option-cases (schedule_by_id k db)) [
    | inl f ↦ rw f (inl (does_not_exist, refl))
    | inr (schedule, f) ↦ elim (Option-cases (term_by_id schedule.term_id db)) [
      | inl g ↦ rw (f, g) (inl (does_not_exist, refl))
      | inr (term, g) ↦ elim (Bool-cases (is_archived_term term.status)) [
        | inl h ↦ rw (f, g, h) (inl (archived_term, refl))
        | inr h ↦ rw (f, g, h) (inr (schedule, refl, refl))
      ]
    ]
  ]

  -- Where the keys of the sessions are unique, an edit either raises and changes nothing, or it finds the
  -- schedule, and then: each SCHEDULED session of it from today on takes the edited schedule's faculty and
  -- room, and its times on the session's own date; of every other session nothing but the copy of the
  -- schedule's row differs.
  pub update_schedule-history :
      (e : Edit)
      → HasKeys db
      → ((x : Error) × (update_schedule k e actor today db ≡ (err x, db)))
        ⊎ ((schedule : Schedule) × (n : ℕ) × (after : Database) × (schedule_by_id k db
              ≡ some schedule)
            × (update_schedule k e actor today db ≡ (ok n, after))
            × Pairwise
                (IsFuture (is_future_scheduled k today) (follow (apply_edit e schedule)))
                db.sessions
                after.sessions)
  unfolding save_schedule update_sessions log
  update_schedule-history e unique = elim (update_schedule-IsRun e) [
    | inl raised ↦ inl raised
    | inr (schedule, row, run) ↦ inr (
      schedule,
      _,
      _,
      row,
      run,
      saved_rows-keys k (apply_edit e) (is_future_scheduled k today)
          (follow (apply_edit e schedule)) (λ s. refl) (λ s. refl) db.sessions unique,
    )
  ]

  no_longer : (b c : Bool) → (b && (is_scheduled SessionStatus.cancelled && c)) ≡ false
  no_longer b c = ground arith

  -- Where the keys of the sessions are unique, a cancellation either raises and changes nothing, or each
  -- SCHEDULED session of the schedule from today on becomes CANCELLED with the reason, and none is left; of
  -- every other session nothing but the copy of the schedule's row differs.
  pub cancel_schedule-history :
      (reason : String)
      → HasKeys db
      → ((x : Error) × (cancel_schedule k actor reason today db ≡ (err x, db)))
        ⊎ ((n : ℕ) × (after : Database) × (cancel_schedule k actor reason today db ≡ (ok n, after))
            × Pairwise
                (IsFuture (is_future_scheduled k today) (cancel (reason_of reason)))
                db.sessions
                after.sessions
            × (filter (is_future_scheduled k today) after.sessions ≡ []))
  unfolding save_schedule update_sessions log log_each
  cancel_schedule-history reason unique = elim (cancel_schedule-IsRun reason) [
    | inl raised ↦ inl raised
    | inr (schedule, row, run) ↦ inr (
      _,
      _,
      run,
      saved_rows-keys k archive (is_future_scheduled k today) (cancel (reason_of reason))
          (λ s. refl) (λ s. refl) db.sessions unique,
      none_left k archive (is_future_scheduled k today) (cancel (reason_of reason)) (λ s. refl)
          (λ s. refl) db.sessions unique (λ s. no_longer (is_of k s) (leb today s.date)),
    )
  ]
