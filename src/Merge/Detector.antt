-- ===== src/Merge/Detector.antt =====
-- The sibling relation D-01.
use text.Mathlib.TextEquality.{eq_iff}
use fluxtrack_main.Merge.{merges_with}
use fluxtrack_main.Model.{Modality, Session, effective_modality}
use fluxtrack_main.Prelude.{Bool-cases, arith, inl, inr, sym, true, ◌↔◌, ◌∙◌, ◌≡◌, ◌≢◌, ◌⊎◌}

-- D-01, over the fields: another row of the same faculty at the same instant, both online, or in one
-- room, or of one course.
abbrev pub AreSiblings : Session → Session → Type 0
AreSiblings a c =
    (a.id ≢ c.id)
    × (a.faculty_id ≡ c.faculty_id)
    × (a.scheduled_start ≡ c.scheduled_start)
    × ((effective_modality a ≡ Modality.online) × (effective_modality c ≡ Modality.online)
        ⊎ ((a.room.id ≡ c.room.id) ⊎ (a.schedule.course_code ≡ c.schedule.course_code)))

-- The detector accepts a candidate exactly when it is a sibling under D-01.
pub merges_with_iff : (a c : Session) → (merges_with a c ≡ true) ↔ AreSiblings a c
unfolding merges_with
merges_with_iff a c = (
  λ h. ground (arith, eq_iff c.schedule.course_code a.schedule.course_code),
  λ h. ground (arith, eq_iff c.schedule.course_code a.schedule.course_code),
)

AreSiblings-symm : (a c : Session) → AreSiblings a c → AreSiblings c a
AreSiblings-symm a c h = ground arith

-- Two sessions find one another: whichever of the two is scanned, the other is filled.
pub merges_with_symm : (a c : Session) → merges_with a c ≡ merges_with c a
merges_with_symm a c = elim (Bool-cases (merges_with a c)) [
  | inl h ↦ h ∙ sym ((merges_with_iff c a).1 (AreSiblings-symm a c ((merges_with_iff a c).0 h)))
  | inr h ↦ elim (Bool-cases (merges_with c a)) [
    | inr k ↦ h ∙ sym k
    | inl k ↦
        let back = (merges_with_iff a c).1 (AreSiblings-symm c a ((merges_with_iff c a).0 k)) in cc
  ]
]
