-- ===== src/Conflicts.antt =====
-- scheduling/jobs.py, `detect_room_conflicts`. The conflict key `room:{id}` is the room's id here.
pub mod Flags
pub mod Detect
pub mod Once
use fluxtrack_main.Calendar.{Instant}
use fluxtrack_main.Model.{
  AcademicTerm, Database, Room, RoomConflictFlag, Session, is_active, room_conflict,
}
use fluxtrack_main.Ops.{get_active_term, in_term, notify_ifo}
use fluxtrack_main.Prelude.{
  Bool, List, [], any, count, filter, find, if_some, if◌then◌else◌, is_none, ltb, map, none, not,
  some, ℕ, ◌&&◌, ◌++◌, ◌+◌, ◌==◌, ◌∷◌,
}
use fluxtrack_main.Prelude.Distinct.{distinct}
use fluxtrack_main.Prelude.Unique.{has_key}
use fluxtrack_main.Prelude.Update.{update}

-- The flags, and what one run has counted and collected; every event has the kind KIND_CONFLICT.
pub record ConflictRun : Type 0 where
  pub db : Database
  pub flagged : ℕ
  pub floors : List ℕ

-- An ACTIVE session of the term that still holds its room.
abbrev pub holds_room : AcademicTerm → Session → Bool
holds_room term s = is_active s.status && (is_none s.room_released_at && in_term term s)

-- `values("room_id").annotate(n=Count("id")).filter(n__gt=1)`, and the keys of `current_keys`.
conflicting_room_ids : AcademicTerm → Database → List ℕ
conflicting_room_ids term db =
    let holders = filter (holds_room term) db.sessions in
    filter (λ k. ltb 1 (count (λ s. s.room.id == k) holders))
      (distinct (map (λ s. s.room.id) holders))

-- An open flag of a room.
abbrev pub is_open_for : ℕ → RoomConflictFlag → Bool
is_open_for k f = f.room_id == k && is_none f.resolved_at

abbrev pub has_open : List RoomConflictFlag → ℕ → Bool
has_open flags k = any (is_open_for k) flags

-- The first loop: the open flags whose conflict has cleared.
abbrev resolve_cleared : Instant → List ℕ → List RoomConflictFlag → List RoomConflictFlag
resolve_cleared now current flags =
    update (λ f. is_none f.resolved_at && not (has_key current f.room_id))
      (λ f. record f { resolved_at = some now }) flags

-- The body of the second loop where no open flag covers the conflict.
raise_flag : ℕ → ConflictRun → ConflictRun
unfolding notify_ifo
raise_flag k run = record {
  db =
      notify_ifo room_conflict
        (record run.db { flags = run.db.flags ++ record { room_id = k; resolved_at = none } ∷ [] });
  flagged = run.flagged + 1;
  floors =
      run.floors ++ if_some (find (λ (r : Room). r.id == k) run.db.rooms) (λ r. r.floor_id ∷ []) [];
}

pub flag_each : List ℕ → ConflictRun → ConflictRun
unfolding raise_flag
flag_each [] run = run
flag_each (k ∷ ks) run = flag_each ks (if has_open run.db.flags k then run else raise_flag k run)

detect_in_term : Instant → AcademicTerm → Database → ConflictRun
unfolding flag_each update conflicting_room_ids
detect_in_term now term db =
    let current = conflicting_room_ids term db in
    flag_each current (record {
      db = record db { flags = resolve_cleared now current db.flags };
      flagged = 0;
      floors = [];
    })

unfoldable pub detect_room_conflicts : Instant → Database → ConflictRun
unfolding detect_in_term
detect_room_conflicts now db =
    if_some (get_active_term db) (λ term. detect_in_term now term db)
      (record { db = db; flagged = 0; floors = [] })
