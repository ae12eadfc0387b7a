-- ===== src/Samples/Duty.antt =====
-- Duty on the sample campus: the second section meets online with one checker posted, and one guard has
-- two postings on a floor with events.
use fluxtrack_main.Alerts.{Event, EventKind, notify_floor_guards}
use fluxtrack_main.Alerts.Guards.{is_told, notify_floor_guards_lem}
use fluxtrack_main.Duty.Assign.{assign_online_sessions}
use fluxtrack_main.Duty.Assign.Covered.{IsAssigned, Pairwise, assign_online_sessions_lem}
use fluxtrack_main.Model.{
  Assignment, Database, DutyRole, Modality, Scope, Session, guard_floor_alert,
}
use fluxtrack_main.Ops.{keys, notify_users}
use fluxtrack_main.Prelude.{List, [], any, length, none, refl, some, true, ℕ, ◌∷◌, ◌≡◌}
use fluxtrack_main.Prelude.Unique.{IsUnique, IsUnique-all_differ, has_key}
use fluxtrack_main.Samples.{at_minute, campus, fall, section_a, section_b, teaching_day}

abbrev posting : Assignment
posting = record {
  user_id = 20;
  role = DutyRole.checker;
  floors = [];
  scope = Scope.online;
  date = none;
  start_time = none;
  end_time = none;
  term_id = some 1;
  is_active_assignment = true;
}

abbrev meets_remotely : Session
meets_remotely = record section_b { declared_modality = some Modality.online }

abbrev remote_day : Database
remote_day = record campus {
  sessions = section_a ∷ meets_remotely ∷ [];
  assignments = posting ∷ [];
}

one_assigned : (assign_online_sessions teaching_day remote_day).0.assigned ≡ 1
unfolding assign_online_sessions
one_assigned = refl

assign_online_sessions_example :
    Pairwise
      (IsAssigned teaching_day fall remote_day)
      remote_day.sessions
      (assign_online_sessions teaching_day remote_day).1.sessions
assign_online_sessions_example =
    assign_online_sessions_lem teaching_day fall remote_day
      (IsUnique-all_differ (keys remote_day.sessions) refl) refl

abbrev watch : Assignment
watch = record posting { role = DutyRole.guard; scope = Scope.floor; floors = 1 ∷ [] }

abbrev watched : Database
watched = record campus { assignments = watch ∷ posting ∷ watch ∷ [] }

abbrev sweep_events : List Event
sweep_events =
    (EventKind.absent, some 1) ∷ (EventKind.conflict, none) ∷ (EventKind.absent, some 1) ∷ []

one_told : (notify_floor_guards sweep_events (at_minute 500) watched).0 ≡ 1
unfolding notify_floor_guards
one_told = refl

notify_floor_guards_example :
    (told : List ℕ) × IsUnique told
    × ((u : ℕ)
        → has_key told u ≡ any (is_told sweep_events (at_minute 500) watched u) watched.assignments)
    × (notify_floor_guards sweep_events (at_minute 500) watched
        ≡ (length told, notify_users told guard_floor_alert watched))
notify_floor_guards_example = notify_floor_guards_lem sweep_events (at_minute 500) watched
