-- ===== src/Conflicts/Flags.antt =====
-- The open flags through the two loops.
use mathlib.Core.Path.{subst}
use fluxtrack_main.Calendar.{Instant}
use fluxtrack_main.Conflicts.{
  ConflictRun, flag_each, has_open, is_open_for, raise_flag, resolve_cleared,
}
use fluxtrack_main.Model.{RoomConflictFlag}
use fluxtrack_main.Ops.{notify_users}
use fluxtrack_main.Prelude.{
  ==_iff, Bool-cases, List, [], any-append, arith, false, inl, inr, refl, true, ℕ, ◌&&◌, ◌++◌, ◌==◌,
  ◌||◌, ◌∙◌, ◌∷◌, ◌≡◌, ◌⊎◌,
}
use fluxtrack_main.Prelude.Unique.{has_key}
use fluxtrack_main.Prelude.Update.{update}

has_open-append :
    (xs ys : List RoomConflictFlag) (k : ℕ)
    → has_open (xs ++ ys) k ≡ (has_open xs k || has_open ys k)
has_open-append xs ys k = any-append (is_open_for k) xs ys

raise_flag-has_open :
    (k j : ℕ) (run : ConflictRun)
    → has_open (raise_flag k run).db.flags j ≡ (has_open run.db.flags j || k == j)
unfolding raise_flag notify_users
raise_flag-has_open k j run = rw (has_open-append run.db.flags _ j) (ground arith)

-- After the second loop the open flags are those of before and those of the current conflicts.
pub flag_each-has_open :
    (ks : List ℕ) (run : ConflictRun) (j : ℕ)
    → has_open (flag_each ks run).db.flags j ≡ (has_open run.db.flags j || has_key ks j)
unfolding flag_each
flag_each-has_open [] run j = ground arith
flag_each-has_open (k ∷ ks) run j = elim (Bool-cases (has_open run.db.flags k)) [
  | inl e ↦ rw (e, flag_each) (flag_each-has_open ks run j ∙ covered e (Bool-cases (k == j)))
  | inr e ↦
      rw (e, flag_each)
        (flag_each-has_open ks (raise_flag k run) j
          ∙ rw (raise_flag-has_open k j run) (ground arith))
]
  where
    covered :
        has_open run.db.flags k ≡ true
        → ((k == j) ≡ true) ⊎ ((k == j) ≡ false)
        → (has_open run.db.flags j || has_key ks j)
          ≡ (has_open run.db.flags j || has_key (k ∷ ks) j)
    covered e (inl q) = rw q (
        subst (λ m. (has_open run.db.flags m || has_key ks m) ≡ (has_open run.db.flags m || true))
          ((==_iff k j).0 q) (rw e refl))
    covered e (inr q) = rw q refl

-- After the first loop a room has an open flag if it had one and is in conflict.
pub resolve_cleared-has_open :
    (now : Instant) (current : List ℕ) (flags : List RoomConflictFlag) (j : ℕ)
    → has_open (resolve_cleared now current flags) j ≡ (has_open flags j && has_key current j)
unfolding update
resolve_cleared-has_open now current [] j = refl
resolve_cleared-has_open now current (f ∷ fs) j =
    ground (arith, resolve_cleared-has_open now current fs j)
