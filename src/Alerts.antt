-- ===== src/Alerts.antt =====
-- ops/guard_alerts.py: one alert for each guard on duty and run of the sweeps.
pub mod Tally
pub mod Guards
use fluxtrack_main.Calendar.{Instant, local_date, local_time}
use fluxtrack_main.Duty.{assignment_covers_now}
use fluxtrack_main.Model.{Assignment, Database, DutyRole, Scope, guard_floor_alert}
use fluxtrack_main.Ops.{notify_users}
use fluxtrack_main.Prelude.{
  Bool, List, Option, [], any, false, filter, find, if_some, if◌then◌else◌, none, not, some, true,
  ℕ, ◌&&◌, ◌++◌, ◌+◌, ◌==◌, ◌∷◌,
}
use fluxtrack_main.Prelude.Unique.{has_key}

-- `KIND_ABSENT`, `KIND_CONFLICT`
pub data EventKind : Type 0 where
  absent conflict : EventKind

abbrev pub Event : Type 0
Event = EventKind × Option ℕ

-- `tally[floor_id]`
pub record FloorTally : Type 0 where
  pub floor : ℕ
  pub absent_count : ℕ
  pub conflict_count : ℕ

abbrev count_event : EventKind → FloorTally → FloorTally
count_event absent t = record t { absent_count = t.absent_count + 1 }
count_event conflict t = record t { conflict_count = t.conflict_count + 1 }

-- `tally.setdefault(floor_id, {...})`, and the count of the event.
pub count_at : EventKind → ℕ → List FloorTally → List FloorTally
count_at kind f [] =
    count_event kind (record { floor = f; absent_count = 0; conflict_count = 0 }) ∷ []
count_at kind f (t ∷ ts) =
    let rest = count_at kind f ts in if t.floor == f then count_event kind t ∷ ts else t ∷ rest

pub tally_from : List Event → List FloorTally → List FloorTally
unfolding count_at
tally_from [] tally = tally
tally_from ((kind, none) ∷ events) tally = tally_from events tally
tally_from ((kind, some f) ∷ events) tally = tally_from events (count_at kind f tally)

abbrev is_guard : DutyRole → Bool
is_guard DutyRole.guard = true
is_guard DutyRole.checker = false

abbrev is_floor_scope : Scope → Bool
is_floor_scope Scope.floor = true
is_floor_scope Scope.online = false

abbrev pub is_guard_duty : Assignment → Bool
is_guard_duty a = is_guard a.role && (is_floor_scope a.scope && a.is_active_assignment)

-- `a.user.is_active`
abbrev pub has_active_user : Database → Assignment → Bool
has_active_user db a = any (λ u. u.id == a.user_id && u.user_active) db.users

abbrev pub in_tally : List FloorTally → ℕ → Bool
in_tally tally f = any (λ t. t.floor == f) tally

abbrev pub UserFloors : Type 0
UserFloors = List (ℕ × List ℕ)

-- `per_user.setdefault(a.user, {})[floor.pk] = floor`
pub add_floor : ℕ → ℕ → UserFloors → UserFloors
add_floor u f [] = (u, f ∷ []) ∷ []
add_floor u f ((v, fs) ∷ rest) =
    let others = add_floor u f rest in
    if v == u then (v, if has_key fs f then fs else fs ++ f ∷ []) ∷ rest else (v, fs) ∷ others

pub add_floors : List FloorTally → ℕ → List ℕ → UserFloors → UserFloors
unfolding add_floor
add_floors tally u [] per_user = per_user
add_floors tally u (f ∷ fs) per_user =
    add_floors tally u fs (if in_tally tally f then add_floor u f per_user else per_user)

abbrev pub is_alerted : Database → Instant → Assignment → Bool
is_alerted db now a =
    has_active_user db a && assignment_covers_now a (local_date now) (local_time now)

pub gather : Database → Instant → List FloorTally → List Assignment → UserFloors → UserFloors
unfolding add_floors assignment_covers_now
gather db now tally [] per_user = per_user
gather db now tally (a ∷ rest) per_user =
    gather db now tally rest
      (if is_alerted db now a then add_floors tally a.user_id a.floors per_user else per_user)

-- `summarize_floor_events` has a title when a floor has an event.
abbrev pub has_news : List FloorTally → ℕ → Bool
has_news tally f =
    if_some (find (λ t. t.floor == f) tally)
      (λ t. not (t.absent_count == 0 && t.conflict_count == 0)) false

pub emit : List FloorTally → UserFloors → ℕ → Database → ℕ × Database
unfolding notify_users
emit tally [] n db = (n, db)
emit tally ((u, fs) ∷ rest) n db =
    if any (has_news tally) fs
    then emit tally rest (n + 1) (notify_users (u ∷ []) guard_floor_alert db)
    else emit tally rest n db

pub notify_tallied : List FloorTally → Instant → Database → ℕ × Database
unfolding emit gather
notify_tallied [] now db = (0, db)
notify_tallied (t ∷ ts) now db =
    emit (t ∷ ts) (gather db now (t ∷ ts) (filter is_guard_duty db.assignments) []) 0 db

unfoldable pub notify_floor_guards : List Event → Instant → Database → ℕ × Database
unfolding notify_tallied tally_from
notify_floor_guards events now db = notify_tallied (tally_from events []) now db
