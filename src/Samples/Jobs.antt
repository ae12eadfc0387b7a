-- ===== src/Samples/Jobs.antt =====
-- The sweep, the conflict detector and the merged sections, on the sample campus.
-- 08:20, past the grace of fifteen minutes.
use fluxtrack_main.Calendar.{Instant}
use fluxtrack_main.Conflicts.{detect_room_conflicts, has_open}
use fluxtrack_main.Conflicts.Detect.{detect_room_conflicts-has_open, holders_of}
use fluxtrack_main.Conflicts.Once.{IsOpenOnce, detect_room_conflicts-IsOpenOnce}
use fluxtrack_main.Effects.{ok}
use fluxtrack_main.Merge.{
  mark_absent, mark_merged, merges_with, propagate_merged_absent, propagate_merged_present,
}
use fluxtrack_main.Merge.Detector.{AreSiblings, merges_with_iff}
use fluxtrack_main.Merge.Fill.{propagate_merged_absent_lem, propagate_merged_present_lem, siblings}
use fluxtrack_main.Merge.Present.{to_fill}
use fluxtrack_main.Model.{grace_minutes, merged_absent, merged_present}
use fluxtrack_main.Ops.{get_policy, log_each, update_sessions}
use fluxtrack_main.Prelude.{
  [], arith, if◌then◌else◌, length, ltb, map, none, refl, some, true, ◌↔◌, ◌≡◌,
}
use fluxtrack_main.Prelude.Update.{update}
use fluxtrack_main.Resolver.{is_no_show_past_grace}
use fluxtrack_main.Samples.{at_minute, campus, campus-HasKeys, fall, section_a, section_b}
use fluxtrack_main.Sweep.{sweep_no_shows}
use fluxtrack_main.Sweep.Exact.{no_shows, sweep_no_shows_lem, swept}

abbrev late : Instant
late = at_minute 500

sweep_counts : (sweep_no_shows late campus).marked ≡ 2
unfolding sweep_no_shows update
sweep_counts = refl

sweep_early : (sweep_no_shows (at_minute 495) campus).marked ≡ 0
unfolding sweep_no_shows update
sweep_early = refl

sweep_no_shows_example : sweep_no_shows late campus ≡ record {
  db = swept late fall campus;
  marked = length (no_shows late fall campus);
  floors = map (λ c. c.room.floor_id) (no_shows late fall campus);
}
sweep_no_shows_example = sweep_no_shows_lem late fall campus campus-HasKeys refl

merges_with_iff_example : (merges_with section_a section_b ≡ true) ↔ AreSiblings section_a section_b
merges_with_iff_example = merges_with_iff section_a section_b

propagate_merged_present_example : propagate_merged_present 1 late (some 10) campus ≡ (
  ok (siblings section_a campus),
  log_each
      (some 10)
      (merged_present 1)
      (siblings section_a campus)
      (update_sessions (to_fill section_a) (mark_merged late) campus),
)
propagate_merged_present_example =
    propagate_merged_present_lem 1 section_a fall campus campus-HasKeys refl refl refl late
      (some 10)

propagate_merged_absent_example : propagate_merged_absent section_a none late campus ≡ (
    if is_no_show_past_grace section_a.scheduled_start late (get_policy grace_minutes campus)
    then (
      ok (siblings section_a campus),
      log_each none
          (merged_absent 1)
          (siblings section_a campus)
          (update_sessions (to_fill section_a) mark_absent campus),
    )
    else (ok [], campus))
propagate_merged_absent_example =
    propagate_merged_absent_lem 1 section_a fall campus campus-HasKeys refl refl refl section_a late
      none refl

detect_flags : (detect_room_conflicts late campus).flagged ≡ 1
unfolding detect_room_conflicts
detect_flags = refl

detect_room_conflicts-has_open_example :
    has_open (detect_room_conflicts late campus).db.flags 2 ≡ ltb 1 (holders_of fall campus 2)
detect_room_conflicts-has_open_example = detect_room_conflicts-has_open late fall campus 2 refl

detect_room_conflicts-IsOpenOnce_example : IsOpenOnce (detect_room_conflicts late campus).db.flags
detect_room_conflicts-IsOpenOnce_example =
    detect_room_conflicts-IsOpenOnce late campus (λ k. omega arith)
