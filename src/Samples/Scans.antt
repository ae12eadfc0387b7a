-- ===== src/Samples/Scans.antt =====
-- Scans of the sample campus.
-- The teacher scans the lab.
use fluxtrack_main.Calendar.{Instant}
use fluxtrack_main.Duty.{checker_resolution, distribute_online_sessions, resolve_checker_scan}
use fluxtrack_main.Duty.Assign.{order_by_start}
use fluxtrack_main.Duty.RoundRobin.{distribute_online_sessions-fair, load}
use fluxtrack_main.Duty.Scan.{CheckerRule, resolve_checker_scan-CheckerRule}
use fluxtrack_main.Merge.{mark_absent}
use fluxtrack_main.Model.{Session, no_session}
use fluxtrack_main.Ops.{get_policy}
use fluxtrack_main.Prelude.{
  Elem, List, [], if◌then◌else◌, inl, inr, length, none, refl, some, ℕ, ◌+◌, ◌/◌, ◌↔◌, ◌∷◌, ◌≡◌,
  ◌≤◌,
}
use fluxtrack_main.Prelude.Unique.{IsUnique-all_differ}
use fluxtrack_main.Resolver.{ScanOutcome, ScanQuery, resolution, resolve_faculty_scan}
use fluxtrack_main.Resolver.Rules.{ScanRule}
use fluxtrack_main.Resolver.Table.{resolve-ScanRule}
use fluxtrack_main.Samples.{at_minute, campus, campus-HasKeys, fall, lab, section_a, section_b}
use fluxtrack_main.Scanning.Pages.{scan_query}
use fluxtrack_main.Suspensions.{excused_checker}
use fluxtrack_main.Sweep.{sweep_no_shows}
use fluxtrack_main.Sweep.Agreement.{absent_scan-sweep_no_shows}

abbrev scan_at : Instant → ScanQuery
scan_at now = record {
  sessions_today = section_a ∷ section_b ∷ [];
  scanned_room_id = 1;
  occupying_session_id = none;
  now = now;
  grace_min = 15;
  early_end_min = 15;
  open_min = 15;
}

on_time : (resolve_faculty_scan (scan_at (at_minute 490))).outcome ≡ ScanOutcome.checked_in
unfolding resolve_faculty_scan
on_time = refl

too_soon : (resolve_faculty_scan (scan_at (at_minute 450))).outcome ≡ ScanOutcome.too_early
unfolding resolve_faculty_scan
too_soon = refl

resolve-ScanRule_example :
    ScanRule (scan_at (at_minute 490)) (resolution ScanOutcome.checked_in section_a)
    ↔ (resolution ScanOutcome.checked_in section_a ≡ resolve_faculty_scan (scan_at (at_minute 490)))
resolve-ScanRule_example =
    resolve-ScanRule (scan_at (at_minute 490)) (resolution ScanOutcome.checked_in section_a)

absent_scan-sweep_no_shows_example :
    (s : Session) × Elem s campus.sessions
    × ((resolve_faculty_scan (scan_query 10 (at_minute 500) lab fall campus)).session_id
        ≡ some s.id)
    × Elem
        (if excused_checker fall.id campus s.date s.room.building_id then s else mark_absent s)
        (sweep_no_shows (at_minute 500) campus).db.sessions
unfolding resolve_faculty_scan scan_query get_policy order_by_start
absent_scan-sweep_no_shows_example =
    absent_scan-sweep_no_shows 10 (at_minute 500) lab fall campus campus-HasKeys refl refl

-- The checker's scan.
resolve_checker_scan-CheckerRule_example :
    CheckerRule (1 ∷ 2 ∷ []) 1 none (checker_resolution no_session none)
    ↔ (checker_resolution no_session none ≡ resolve_checker_scan (1 ∷ 2 ∷ []) 1 none)
resolve_checker_scan-CheckerRule_example =
    resolve_checker_scan-CheckerRule (1 ∷ 2 ∷ []) 1 none (checker_resolution no_session none)

abbrev waiting : List ℕ
waiting = 7 ∷ 8 ∷ 9 ∷ []

abbrev pool : List ℕ
pool = 1 ∷ 2 ∷ []

shared_out : distribute_online_sessions waiting pool ≡ (7, 1) ∷ (8, 2) ∷ (9, 1) ∷ []
unfolding distribute_online_sessions
shared_out = refl

distribute_online_sessions-fair_example :
    (length waiting / length pool ≤ load 2 (distribute_online_sessions waiting pool))
    × (load 2 (distribute_online_sessions waiting pool) ≤ length waiting / length pool + 1)
distribute_online_sessions-fair_example =
    distribute_online_sessions-fair waiting pool 2 (IsUnique-all_differ waiting refl)
      (IsUnique-all_differ pool refl) (inr (inl refl))
