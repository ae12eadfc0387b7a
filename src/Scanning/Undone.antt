-- ===== src/Scanning/Undone.antt =====
-- An outcome is written as a whole or not at all.
use fluxtrack_main.Effects.{Action, Error, Result, atomic, err, modify, ok, roll_back, ◌>>◌}
use fluxtrack_main.Model.{AcademicTerm, Database, Session, is_scheduled, room_event}
use fluxtrack_main.Ops.{get_active_term, notify_ifo}
use fluxtrack_main.Prelude.{
  Bool-cases, Option, Option-cases, false, inl, inr, refl, true, ℕ, ◌≡◌, ◌⊎◌,
}
use fluxtrack_main.Resolver.{Resolution, ScanOutcome}
use fluxtrack_main.Scanning.{
  Scan, apply, apply_in, apply_outcome, change_room, check_in, check_in_group, hand_over,
  session_in_term,
}

-- The action raises and leaves the database as it was, or it succeeds.
abbrev pub IsWhole : {A : Type 0} → Action A → Type 0
IsWhole {A} m =
    (db : Database)
    → ((e : Error) × (m db ≡ (err e, db))) ⊎ ((a : A) × (after : Database) × (m db ≡ (ok a, after)))

roll_back-IsWhole :
    {A : Type 0} (db : Database) (run : Result A × Database)
    → ((e : Error) × (roll_back run.0 db run.1 ≡ (err e, db)))
      ⊎ ((a : A) × (after : Database) × (roll_back run.0 db run.1 ≡ (ok a, after)))
roll_back-IsWhole db (ok a, after) = inr (a, after, refl)
roll_back-IsWhole db (err e, after) = inl (e, refl)

atomic-IsWhole : {A : Type 0} (m : Action A) → IsWhole (atomic m)
atomic-IsWhole m db = roll_back-IsWhole db (m db)

then_modify-IsWhole :
    (m : Action Unit) (f : Database → Database) → IsWhole m → IsWhole (m >> modify f)
then_modify-IsWhole m f h db = elim (h db) [
  | inl (e, p) ↦ inl (e, rw p refl)
  | inr (a, after, p) ↦ inr (tt, f after, rw p refl)
]

module _ (scan : Scan) where
  hand_over-IsWhole :
      (term : AcademicTerm) (prior : Option ℕ) (s : Session) → IsWhole (hand_over scan term prior s)
  unfolding hand_over
  hand_over-IsWhole term prior s = then_modify-IsWhole _ (notify_ifo room_event) (atomic-IsWhole _)

  pub apply_outcome-IsWhole :
      (o : ScanOutcome) (prior : Option ℕ) (term : AcademicTerm) (s : Session)
      → IsWhole (apply_outcome scan o prior term s)
  unfolding apply_outcome check_in change_room
  apply_outcome-IsWhole ScanOutcome.checked_in prior term s db =
      atomic-IsWhole (check_in_group scan s) db
  apply_outcome-IsWhole ScanOutcome.absent prior term s db =
      elim (Bool-cases (is_scheduled s.status)) [
        | inl e ↦ rw e (inr (tt, _, refl))
        | inr e ↦ rw e (inr (tt, _, refl))
      ]
  apply_outcome-IsWhole ScanOutcome.checked_out prior term s db = inr (tt, _, refl)
  apply_outcome-IsWhole ScanOutcome.early_end prior term s db = inr (tt, _, refl)
  apply_outcome-IsWhole ScanOutcome.wrong_room prior term s db = inr (tt, _, refl)
  apply_outcome-IsWhole ScanOutcome.room_occupied prior term s db =
      hand_over-IsWhole term prior s db
  apply_outcome-IsWhole ScanOutcome.too_early prior term s db = inr (tt, _, refl)
  apply_outcome-IsWhole ScanOutcome.online_reject prior term s db = inr (tt, _, refl)
  apply_outcome-IsWhole ScanOutcome.no_schedule prior term s db = inr (tt, _, refl)

  -- The three ways in which `_apply` ends.
  pub apply-cases :
      (r : Resolution) (db : Database)
      → ((e : Error) × (apply scan r db ≡ (err e, db)))
        ⊎ (apply scan r db ≡ (ok false, db))
        ⊎ ((after : Database) × (apply scan r db ≡ (ok true, after)))
  unfolding apply apply_in
  apply-cases r db = elim (Option-cases r.session_id) [
    | inl e ↦ rw e (inr (inr (db, refl)))
    | inr (k, e) ↦ elim (Option-cases (get_active_term db)) [
      | inl f ↦ rw (e, f) (inr (inl refl))
      | inr (t, f) ↦ elim (Option-cases (session_in_term t k db)) [
        | inl g ↦ rw (e, f, g) (inr (inl refl))
        | inr (s, g) ↦ elim (apply_outcome-IsWhole r.outcome r.prior_session_id t s db) [
          | inl (x, h) ↦ rw (e, f, g, h) (inl (x, refl))
          | inr (u, after, h) ↦ rw (e, f, g, h) (inr (inr (after, refl)))
        ]
      ]
    ]
  ]
