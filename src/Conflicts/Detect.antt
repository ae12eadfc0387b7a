-- ===== src/Conflicts/Detect.antt =====
-- The flags after a run say which rooms are in conflict.
-- The number of ACTIVE sessions of the term that hold a room.
use fluxtrack_main.Calendar.{Instant}
use fluxtrack_main.Conflicts.{
  conflicting_room_ids, detect_in_term, detect_room_conflicts, has_open, holds_room,
}
use fluxtrack_main.Conflicts.Flags.{flag_each-has_open, resolve_cleared-has_open}
use fluxtrack_main.Model.{AcademicTerm, Database, Session}
use fluxtrack_main.Ops.{get_active_term}
use fluxtrack_main.Prelude.{
  Bool, Bool-cases, List, [], ap, arith, count, filter, inl, inr, ltb, map, refl, some, true, ℕ,
  ◌&&◌, ◌==◌, ◌∙◌, ◌∷◌, ◌≡◌,
}
use fluxtrack_main.Prelude.Distinct.{distinct, has_key-distinct, has_key-filter_keys}
use fluxtrack_main.Prelude.Unique.{has_key}

abbrev pub holders_of : AcademicTerm → Database → ℕ → ℕ
holders_of term db k = count (λ s. holds_room term s && s.room.id == k) db.sessions

count-filter :
    (p q : Session → Bool) (xs : List Session) → count q (filter p xs) ≡ count (λ x. p x && q x) xs
count-filter p q [] = refl
count-filter p q (x ∷ xs) = ground (arith, count-filter p q xs)

count-pos :
    (xs : List Session) (k : ℕ)
    → ltb 1 (count (λ s. s.room.id == k) xs) ≡ true
    → has_key (map (λ s. s.room.id) xs) k ≡ true
count-pos [] k h = ground arith
count-pos (x ∷ xs) k h = elim (Bool-cases (x.room.id == k)) [
  | inl e ↦ rw e refl
  | inr e ↦ rw e (count-pos xs k (rw e at h))
]

and-absorb : (a b : Bool) → (b ≡ true → a ≡ true) → (a && b) ≡ b
and-absorb a b h = ground arith

module _ (term : AcademicTerm) (db : Database) where
  -- A room is among the conflicts exactly when two or more sessions hold it.
  conflicting_lem :
      (k : ℕ) → has_key (conflicting_room_ids term db) k ≡ ltb 1 (holders_of term db k)
  unfolding conflicting_room_ids
  conflicting_lem k =
      let holders = filter (holds_room term) db.sessions in
      has_key-filter_keys (λ j. ltb 1 (count (λ s. s.room.id == j) holders))
        (distinct (map (λ s. s.room.id) holders)) k
      ∙ rw (has_key-distinct (map (λ s. s.room.id) holders) k) (
          and-absorb _ _ (count-pos holders k)
          ∙ ap (ltb 1) (count-filter (holds_room term) (λ s. s.room.id == k) db.sessions))

  detect_in_term-has_open :
      (now : Instant) (k : ℕ)
      → has_open (detect_in_term now term db).db.flags k ≡ ltb 1 (holders_of term db k)
  unfolding detect_in_term
  detect_in_term-has_open now k =
      flag_each-has_open (conflicting_room_ids term db) _ k
      ∙ rw (resolve_cleared-has_open now (conflicting_room_ids term db) db.flags k)
          (rw (conflicting_lem k) (ground arith))

-- After a run in an active term, a room has an open conflict flag exactly when two or more ACTIVE
-- sessions of the term hold it, whatever flags there were before.
pub detect_room_conflicts-has_open :
    (now : Instant) (term : AcademicTerm) (db : Database) (k : ℕ)
    → get_active_term db ≡ some term
    → has_open (detect_room_conflicts now db).db.flags k ≡ ltb 1 (holders_of term db k)
unfolding detect_room_conflicts
detect_room_conflicts-has_open now term db k running =
    rw (running, detect_room_conflicts) (detect_in_term-has_open term db now k)
