-- ===== src/Availability/Recurs.antt =====
-- ops/availability.py, _schedule_occupies: a class that has no session of the date yet, over the fields.
use fluxtrack_main.Availability.{gives_up, reserves, shift_of}
use fluxtrack_main.Availability.Holds.{Meets, Meets-iff, offline_iff, vacant_iff}
use fluxtrack_main.Availability.Latest.{
  HasNoShift, HasNoShift-IsLatest, IsLatest, IsLatest-unique, latest_shift-cases,
}
use fluxtrack_main.Calendar.{Date, Instant, combine, local_date}
use fluxtrack_main.Materialize.{is_occurrence}
use fluxtrack_main.Model.{
  Database, Modality, ModalityShiftItem, ModalityShiftRequest, Schedule, Session, is_online,
}
use fluxtrack_main.Prelude.{
  &&-parts, ==-refl, ==_iff, Bool, Bool-cases, Elem, any, any-Elem, any-witness, arith, false,
  if◌then◌else◌, inl, inr, is_none, none, not, refl, sym, true, ◌==◌, ◌||◌, ◌↔◌, ◌∙◌, ◌≡◌, ◌≢◌,
}
use fluxtrack_main.Suspensions.{excused_checker}

-- Three early returns and a last test.
guards_iff :
    (a b c d : Bool)
    → ((if a then false else if b then false else if c then false else d) ≡ true)
      ↔ ((a ≡ false) × (b ≡ false) × (c ≡ false) × (d ≡ true))
guards_iff true b c d = (λ h. ground arith, λ (x, y, z, w). ground arith)
guards_iff false true c d = (λ h. ground arith, λ (x, y, z, w). ground arith)
guards_iff false false true d = (λ h. ground arith, λ (x, y, z, w). ground arith)
guards_iff false false false d = (λ h. (refl, refl, refl, h), λ (x, y, z, w). w)

module _ (start end : Instant) (db : Database) where
  abbrev date : Date
  date = local_date start

  -- The class is not held elsewhere: without an approved shift it does not meet online, and with one the
  -- latest keeps it off line and gives it no other room.
  pub data StaysIn (s : Schedule) : Type 0 where
    unshifted : HasNoShift s date db db.items → s.modality ≢ Modality.online → StaysIn s
    shifted :
        (item : ModalityShiftItem) (r : ModalityShiftRequest)
        → IsLatest s date db db.items item r
        → r.target_modality ≢ Modality.online
        → item.assigned_room ≡ none
        → StaysIn s

  -- The class has no session on the date.
  abbrev pub HasNoSession : Schedule → Type 0
  HasNoSession s = (x : Session) → Elem x db.sessions → x.schedule.id ≡ s.id → x.date ≢ date

  stays_iff : (s : Schedule) → (gives_up (shift_of s date db) s ≡ false) ↔ StaysIn s
  unfolding shift_of
  stays_iff s = elim (latest_shift-cases s date db db.items) [
    | inl (o, never) ↦
        rw o ((λ h. unshifted never ((offline_iff s.modality).0 h)), λ k. no_shift never k)
    | inr (i, r, o, l) ↦ rw o (
      (λ h. let (a, b) = kept_parts i r h in shifted i r l ((offline_iff r.target_modality).0 a) b),
      λ k. one_shift i r l k,
    )
  ]
    where
      no_shift : HasNoShift s date db db.items → StaysIn s → is_online s.modality ≡ false
      no_shift never (unshifted h k) = (offline_iff s.modality).1 k
      no_shift never (shifted i r l h k) =
          absurd (HasNoShift-IsLatest s date db db.items i r never l)

      kept_parts :
          (i : ModalityShiftItem) (r : ModalityShiftRequest)
          → (is_online r.target_modality || not (is_none i.assigned_room)) ≡ false
          → (is_online r.target_modality ≡ false) × (i.assigned_room ≡ none)
      kept_parts i r h = (ground arith, (vacant_iff i.assigned_room).0 (ground arith))

      one_shift :
          (i : ModalityShiftItem) (r : ModalityShiftRequest)
          → IsLatest s date db db.items i r
          → StaysIn s
          → (is_online r.target_modality || not (is_none i.assigned_room)) ≡ false
      one_shift i r l (unshifted h k) = absurd (HasNoShift-IsLatest s date db db.items i r h l)
      one_shift i r l (shifted j q m h k) =
          let (same, same') = IsLatest-unique s date db db.items i j r q l m in
          rw (same, same', (offline_iff q.target_modality).1 h, k) refl

  without_session :
      (s : Schedule) → (any (is_occurrence s.id date) db.sessions ≡ false) ↔ HasNoSession s
  without_session s = (
    (λ h x m e d.
        let no : true ≡ false =
          sym (
            any-Elem (is_occurrence s.id date) db.sessions x m
              (rw (e, d, ==-refl s.id, ==-refl date) refl))
          ∙ h in
        absurd (ground arith)),
    λ k. elim (Bool-cases (any (is_occurrence s.id date) db.sessions)) [
      | inr e ↦ e
      | inl e ↦
          let (x, m, p) = any-witness (is_occurrence s.id date) db.sessions e in
          let (a, b) = &&-parts (x.schedule.id == s.id) (x.date == date) p in
          absurd (k x m ((==_iff x.schedule.id s.id).0 a) ((==_iff x.date date).0 b))
    ],
  )

  pub class-Meets :
      (s : Schedule)
      → (reserves date start end db s ≡ true) ↔ (
          HasNoSession s
          × (excused_checker s.term_id db date s.room.building_id ≡ false)
          × StaysIn s
          × Meets (combine date s.start_time) (combine date s.end_time) start end)
  class-Meets s = (
    (λ h.
        let (a, b, c, d) = (guards_iff _ _ _ _).0 h in
        (
          (without_session s).0 a,
          b,
          (stays_iff s).0 c,
          (Meets-iff (combine date s.start_time) (combine date s.end_time) start end).0 d,
        )),
    λ (a, b, c, d). (guards_iff _ _ _ _).1 (
      (without_session s).1 a,
      b,
      (stays_iff s).1 c,
      (Meets-iff (combine date s.start_time) (combine date s.end_time) start end).1 d,
    ),
  )
