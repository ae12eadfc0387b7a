-- ===== src/Samples/Operations.antt =====
-- Edits of a class of the sample campus, and the minting of codes.
use fluxtrack_main.Availability.{room_is_free}
use fluxtrack_main.Calendar.{Date, combine, minutes}
use fluxtrack_main.Codes.{IsMinted, generate_manual_code, generate_manual_code-found, max_attempts}
use fluxtrack_main.Duty.Assign.Covered.{Pairwise}
use fluxtrack_main.Effects.{Error, err, ok}
use fluxtrack_main.Model.{Database, Schedule}
use fluxtrack_main.Ops.{require_writable_term}
use fluxtrack_main.Prelude.{Elem, [], arith, filter, none, refl, some, true, ℕ, ◌+◌, ◌↔◌, ◌≡◌, ◌⊎◌}
use fluxtrack_main.Prelude.Update.{update}
use fluxtrack_main.Samples.{campus, campus-HasKeys, fall, hall, section_a, teaching_day}
use fluxtrack_main.Scanning.{key_of}
use fluxtrack_main.ScheduleOps.{
  Edit, apply_edit, cancel, cancel_schedule, follow, is_future_scheduled, own_session, reason_of,
  schedule_by_id, update_schedule, weekly, weeks_until,
}
use fluxtrack_main.ScheduleOps.Free.{update_schedule-free}
use fluxtrack_main.ScheduleOps.History.{IsFuture, cancel_schedule-history, update_schedule-history}
use fluxtrack_main.ScheduleOps.Weeks.{IsWeekly, weekly_ends}
use fluxtrack_main.Suspensions.{excused_checker}

-- The first section moves to the hall at 10:00.
abbrev move_it : Edit
move_it = record {
  faculty = none;
  new_room = some hall;
  new_start = some (minutes 600);
  new_end = some (minutes 660);
  new_count = none;
}

abbrev moved : Database
moved = (update_schedule 1 move_it none teaching_day campus).1

update_schedule-free_example :
    room_is_free hall
      (combine (teaching_day + 7) (minutes 600))
      (combine (teaching_day + 7) (minutes 660))
      (key_of (own_session 1 teaching_day (teaching_day + 7) campus))
      (some 1)
      campus
    ≡ true
unfolding update_schedule excused_checker require_writable_term update
update_schedule-free_example =
    update_schedule-free 1 move_it none teaching_day campus section_a.schedule fall 1 moved refl
      refl refl refl refl (teaching_day + 7) (omega arith) (omega arith) refl refl refl

update_schedule-history_example :
    ((x : Error) × (update_schedule 1 move_it none teaching_day campus ≡ (err x, campus)))
    ⊎ ((schedule : Schedule) × (n : ℕ) × (after : Database) × (schedule_by_id 1 campus
          ≡ some schedule)
        × (update_schedule 1 move_it none teaching_day campus ≡ (ok n, after))
        × Pairwise
            (IsFuture (is_future_scheduled 1 teaching_day) (follow (apply_edit move_it schedule)))
            campus.sessions
            after.sessions)
update_schedule-history_example =
    update_schedule-history 1 none teaching_day campus move_it campus-HasKeys

cancel_schedule-history_example :
    ((x : Error) × (cancel_schedule 1 none "" teaching_day campus ≡ (err x, campus)))
    ⊎ ((n : ℕ) × (after : Database) × (cancel_schedule 1 none "" teaching_day campus
          ≡ (ok n, after))
        × Pairwise
            (IsFuture (is_future_scheduled 1 teaching_day) (cancel (reason_of "")))
            campus.sessions
            after.sessions
        × (filter (is_future_scheduled 1 teaching_day) after.sessions ≡ []))
cancel_schedule-history_example =
    cancel_schedule-history 1 none teaching_day campus "" campus-HasKeys

weekly_ends_example :
    (weekly 100 teaching_day fall.end_date []
      ≡ weekly (weeks_until teaching_day fall.end_date) teaching_day fall.end_date [])
    × ((x : Date)
        → Elem x (weekly 100 teaching_day fall.end_date [])
          ↔ (Elem x [] ⊎ IsWeekly teaching_day fall.end_date x))
weekly_ends_example = weekly_ends 100 teaching_day fall.end_date [] (omega arith)

-- The draws 0, 1, 2 and so on.
abbrev in_turn : ℕ → ℕ
in_turn i = i

minted : (generate_manual_code in_turn max_attempts campus).0 ≡ ok "000000"
unfolding generate_manual_code
minted = refl

generate_manual_code-found_example :
    IsMinted in_turn max_attempts campus (generate_manual_code in_turn max_attempts campus)
generate_manual_code-found_example = generate_manual_code-found in_turn max_attempts campus
