-- ===== src/Conflicts/Once.antt =====
-- The constraint `uniq_open_conflict_per_key`: a room has one open flag at most.
use fluxtrack_main.Calendar.{Instant}
use fluxtrack_main.Conflicts.{
  ConflictRun, conflicting_room_ids, detect_in_term, detect_room_conflicts, flag_each, has_open,
  is_open_for, raise_flag, resolve_cleared,
}
use fluxtrack_main.Model.{AcademicTerm, Database, RoomConflictFlag}
use fluxtrack_main.Ops.{get_active_term, notify_users}
use fluxtrack_main.Prelude.{
  Bool, Bool-cases, List, Option-cases, [], any, arith, count, count-append, false, inl, inr, none,
  refl, ℕ, ◌∷◌, ◌≡◌, ◌≤◌,
}
use fluxtrack_main.Prelude.Update.{update}

abbrev pub IsOpenOnce : List RoomConflictFlag → Type 0
IsOpenOnce flags = (k : ℕ) → count (is_open_for k) flags ≤ 1

count-any-false :
    (p : RoomConflictFlag → Bool) (xs : List RoomConflictFlag) → any p xs ≡ false → count p xs ≡ 0
count-any-false p [] h = refl
count-any-false p (x ∷ xs) h = ground (arith, count-any-false p xs)

count-resolve_cleared :
    (now : Instant) (current : List ℕ) (flags : List RoomConflictFlag) (k : ℕ)
    → count (is_open_for k) (resolve_cleared now current flags) ≤ count (is_open_for k) flags
unfolding update
count-resolve_cleared now current [] k = omega arith
count-resolve_cleared now current (f ∷ fs) k =
    ground (arith, count-resolve_cleared now current fs k)

raise_flag-IsOpenOnce :
    (k : ℕ) (run : ConflictRun)
    → has_open run.db.flags k ≡ false
    → IsOpenOnce run.db.flags
    → IsOpenOnce (raise_flag k run).db.flags
unfolding raise_flag notify_users
raise_flag-IsOpenOnce k run free h j = ground (
  arith,
  h j,
  count-append (is_open_for j) run.db.flags (record { room_id = k; resolved_at = none } ∷ []),
  count-any-false (is_open_for k) run.db.flags free,
)

flag_each-IsOpenOnce :
    (ks : List ℕ) (run : ConflictRun)
    → IsOpenOnce run.db.flags
    → IsOpenOnce (flag_each ks run).db.flags
unfolding flag_each
flag_each-IsOpenOnce [] run h = h
flag_each-IsOpenOnce (k ∷ ks) run h = elim (Bool-cases (has_open run.db.flags k)) [
  | inl e ↦ rw (e, flag_each) (flag_each-IsOpenOnce ks run h)
  | inr e ↦
      rw (e, flag_each)
        (flag_each-IsOpenOnce ks (raise_flag k run) (raise_flag-IsOpenOnce k run e h))
]

detect_in_term-IsOpenOnce :
    (now : Instant) (term : AcademicTerm) (db : Database)
    → IsOpenOnce db.flags
    → IsOpenOnce (detect_in_term now term db).db.flags
unfolding detect_in_term
detect_in_term-IsOpenOnce now term db h =
    flag_each-IsOpenOnce (conflicting_room_ids term db) _
      λ k. omega (arith, h k, count-resolve_cleared now (conflicting_room_ids term db) db.flags k)

-- A run never opens a second flag for a room, so it keeps the database's constraint on open flags.
pub detect_room_conflicts-IsOpenOnce :
    (now : Instant) (db : Database)
    → IsOpenOnce db.flags
    → IsOpenOnce (detect_room_conflicts now db).db.flags
unfolding detect_room_conflicts
detect_room_conflicts-IsOpenOnce now db h = elim (Option-cases (get_active_term db)) [
  | inl e ↦ rw (e, detect_room_conflicts) h
  | inr (term, e) ↦ rw (e, detect_room_conflicts) (detect_in_term-IsOpenOnce now term db h)
]
