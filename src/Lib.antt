-- ===== src/Lib.antt =====
-- FluxTrack: attendance of classes, by scans of the rooms' codes.
--
-- A term's schedules are materialized into dated sessions. Faculty check in and out by scanning a room;
-- a sweep marks those who did not come; suspensions and breaks excuse a day; co-taught sections are
-- filled together; checkers verify rooms and online sessions, also from a queue that was filled offline;
-- modality shifts move sessions online or to other rooms on a dean's approval; classes are edited and
-- dropped within a term; and an administrator opens and closes the terms. The development models the
-- services that decide and write, over one database value, and shows what each writes.
--
-- The files, and the code that each models (paths from the repository's root):
--   Prelude                 tests on numbers, lists as querysets, `update` as `.filter(p).update(f)`,
--                           unique keys, the first row with a property
--   Calendar                datetime, django.utils.timezone
--   Model                   the rows and choices of scheduling/models.py, campus/models.py,
--                           accounts/models.py, verification/models.py and ops/models.py
--   Effects                 exceptions and `transaction.atomic()`; Effects.Keeps: invariants of actions
--   Ops                     ops/policy.py, ops/notify.py, ops/occupancy.py, scheduling/term_scope.py
--   Resolver                scheduling/resolver.py: is_no_show_past_grace, resolve_faculty_scan
--   Merge                   scheduling/merge.py: merged_sibling_ids, propagate_merged_present,
--                           propagate_merged_absent
--   Suspensions             scheduling/suspensions.py: excused_checker, suspend_classes,
--                           lift_suspension; ClassSuspension.covers
--   Sweep, Conflicts        scheduling/jobs.py: sweep_no_shows, detect_room_conflicts
--   Materialize             scheduling/materialization.py: materialize_term, _apply_approved_shift
--   Terms                   scheduling/term_lifecycle.py: create_term, close_term, reopen_term,
--                           activate_term, with their preflights
--   Availability            ops/availability.py: room_is_free, faculty_has_conflict,
--                           free_rooms_in_building, available_times_for
--   Duty                    verification/resolver.py: resolve_checker_scan, assignment_covers_now,
--                           distribute_online_sessions; Duty.Assign: verification/services.py,
--                           assign_online_sessions
--   Alerts                  ops/guard_alerts.py: notify_floor_guards
--   Shifts                  scheduling/services.py: withdraw_modality_shift, reject_modality_shift,
--                           apply_approval with its two consequences; Shifts.Submit:
--                           submit_modality_shift, weeks_window
--   Codes                   campus/codes.py: generate_manual_code, new_room_credentials
--   Web                     what web/scan.py and web/checker.py share: the cache, the limit on manual
--                           codes, _room_from_payload
--   ScheduleOps             scheduling/schedule_ops.py: _assert_occurrences_free, update_schedule,
--                           cancel_schedule
--   Scanning                web/scan.py: _apply; Scanning.Pages: resolve, confirm
--   Checker                 web/checker.py: resolve, _apply_action; Checker.Actions: action,
--                           _online_action; Checker.Replay: replay; Checker.Board: online_list,
--                           floor_rows
--   Samples                 a small campus, on which the definitions are run
--
-- How they interact: the sweep and the absent fill of Merge use the resolver's grace rule; the sweep and
-- the materialization ask Suspensions for the excused days; an activation of Terms runs Materialize; the
-- approvals of Shifts ask Availability for rooms and release them through Ops. Scanning
-- builds the resolver's query, applies its resolution and fills the group through Merge; Checker runs the
-- checker's resolver of Duty on the current state, for an action and for each replayed item; ScheduleOps
-- asks Suspensions and Availability about each remaining date. A file below one of these
-- holds the proofs on what its name says.
--
-- State. A Database is a record of tables, each a list of rows in the order of their keys, with the audit
-- log and the notifications oldest first. A foreign key to a schedule, a room or a request's schedule is
-- the row, as `select_related` loads it; one to a user, a term, a session or a request is the key. So a
-- save of a schedule's own row (ScheduleOps) is written to the copies of its sessions and items too. An
-- action takes a database to a result and a database; an action under `atomic` gives the old database
-- back with an error. A row inserted gets a key above all keys of its table. A service is one step:
-- writes of others between the reads and the writes of one service are modelled for the sweep, whose
-- loop works on rows that it read before, and are kept out of the others by their row locks.
--
-- A request to the scan pages sees a Site: the database and the cache. The cache is that of
-- django.core.cache, which keeps an entry for its whole timeout; every key carries its minute, and the
-- timeouts are longer than a minute. The time of a request is read once.
--
-- Numbers. Instants are microseconds of the Manila wall clock and dates are ordinals, both natural
-- numbers; where the code subtracts a few minutes from an instant or days from a date, the truncation at
-- 0 lies before the first date that Python has. Policy values are numbers that `int` has read; settings
-- that are not are not modelled. Terms.Casefold holds the table of `str.casefold`, the same in Unicode 14
-- and 15; decimal digits are those of Unicode 15.
--
-- Loops. Flips in chunks take the number of rows as fuel, and one chunk takes at least one row, so it is
-- enough (Suspensions.Chunks). The slots of a day take its microseconds as fuel, which is enough for a
-- session that has a duration; one without would not leave the loop. The weekly dates of a schedule take
-- the days to the end of the term as fuel (ScheduleOps.Weeks). All other loops are by recursion on the
-- rows.
--
-- Parameters. The order of room codes is that of the database's collation, and a parameter; no theorem
-- needs anything of it. The token that a link carries (urllib.parse) is a parameter of the lookup, and
-- what `signing.loads` gives is the argument of the confirmation. The draws of `secrets` are a parameter
-- of Codes; the uuid, the time and the session of a queued item are as the body's JSON gives them.
-- MultipleObjectsReturned of a lookup is modelled where two rows are possible.
--
-- Not modelled: titles and texts of notifications and the parts of audit payloads that repeat a row;
-- created-at stamps; the templates, the other views and their access checks, and the page of one online
-- session; the imports and the reports; sign-in, push delivery and the scheduled commands that call the
-- jobs.
pub mod Prelude
pub mod Calendar
pub mod Model
pub mod Effects
pub mod Ops
pub mod Resolver
pub mod Merge
pub mod Suspensions
pub mod Sweep
pub mod Conflicts
pub mod Materialize
pub mod Terms
pub mod Alerts
pub mod Availability
pub mod Duty
pub mod Codes
pub mod Web
pub mod ScheduleOps
pub mod Scanning
pub mod Checker
pub mod Shifts
pub mod Samples
