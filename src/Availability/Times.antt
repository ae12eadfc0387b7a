-- ===== src/Availability/Times.antt =====
-- The alternative times that are offered for a session.
use fluxtrack_main.Availability.{
  available_times_for, day_close, day_open, faculty_has_conflict, free_rooms_in_building, is_nil,
  is_offered, room_is_free, step_slots,
}
use fluxtrack_main.Availability.Rooms.{free_rooms_in_building_iff}
use fluxtrack_main.Calendar.{Instant, combine, local_date}
use fluxtrack_main.Model.{Database, Room, Session}
use fluxtrack_main.Prelude.{
  &&-parts, ==_iff, Bool, Bool-cases, Elem, List, String, [], ap, arith, false, if◌then◌else◌, inl,
  inr, leb, none, refl, some, suc, true, zero, ℕ, ◌&&◌, ◌*◌, ◌+◌, ◌-◌, ◌<◌, ◌==◌, ◌↔◌, ◌∷◌, ◌≡◌,
  ◌≤◌, ◌⊎◌,
}

le-mul : (j d : ℕ) → 0 < d → j ≤ j * d
le-mul zero d h = omega arith
le-mul (suc j) d h = let r = le-mul j d h in omega arith

module _ (before : String → String → Bool) (s : Session) (db : Database) where
  abbrev slots : (fuel duration cursor limit : ℕ) → List (Instant × Instant)
  slots fuel duration cursor limit = step_slots before fuel duration cursor limit s db

  -- The j-th slot after the cursor lies before the limit and is offered.
  abbrev IsSlot : (duration cursor limit j : ℕ) → Instant → Instant → Type 0
  IsSlot duration cursor limit j a b =
      (a ≡ cursor + j * duration)
      × (b ≡ cursor + j * duration + duration)
      × (b ≤ limit)
      × (is_offered before s a b db ≡ true)

  -- A slot after the next cursor.
  later :
      (duration cursor limit : ℕ) (a b : Instant)
      → (j : ℕ) × IsSlot duration (cursor + duration) limit j a b
      → (j : ℕ) × IsSlot duration cursor limit j a b
  later duration cursor limit a b (j, (p, q, r, o)) = (suc j, (omega arith, omega arith, r, o))

  here :
      (duration cursor limit : ℕ) (a b : Instant)
      → ◌≡◌ {A = Instant × Instant} (a, b) (cursor, cursor + duration)
      → is_offered before s cursor (cursor + duration) db ≡ true
      → cursor + duration ≤ limit
      → (j : ℕ) × IsSlot duration cursor limit j a b
  here duration cursor limit a b q f le =
      let p = ap (λ x. x.0) q in
      let r = ap (λ x. x.1) q in (0, (omega arith, omega arith, omega arith, rw (p, r) f))

  sound :
      (fuel duration cursor limit : ℕ) (a b : Instant)
      → Elem (a, b) (slots fuel duration cursor limit)
      → (j : ℕ) × IsSlot duration cursor limit j a b
  unfolding step_slots
  sound zero duration cursor limit a b m = absurd m
  sound (suc fuel) duration cursor limit a b m = elim (Bool-cases (leb (cursor + duration) limit)) [
    | inr e ↦ absurd (rw e at m)
    | inl e ↦ elim (Bool-cases (is_offered before s cursor (cursor + duration) db)) [
      | inr f ↦
          later duration cursor limit a b
            (sound fuel duration (cursor + duration) limit a b (rw (e, f) at m))
      | inl f ↦
          split (rw (e, f) at m) f (ground arith)
            (sound fuel duration (cursor + duration) limit a b)
    ]
  ]
    where
      split :
          ◌≡◌ {A = Instant × Instant} (a, b) (cursor, cursor + duration)
            ⊎ Elem (a, b) (slots fuel duration (cursor + duration) limit)
          → is_offered before s cursor (cursor + duration) db ≡ true
          → cursor + duration ≤ limit
          → (Elem (a, b) (slots fuel duration (cursor + duration) limit)
              → (j : ℕ) × IsSlot duration (cursor + duration) limit j a b)
          → (j : ℕ) × IsSlot duration cursor limit j a b
      split (inl q) f le rest = here duration cursor limit a b q f le
      split (inr n) f le rest = later duration cursor limit a b (rest n)

  -- The next slot starts where the first one ends.
  after_first :
      (duration cursor limit j : ℕ) (a b : Instant)
      → IsSlot duration cursor limit (suc j) a b
      → IsSlot duration (cursor + duration) limit j a b
  after_first duration cursor limit j a b (p, q, r, o) = (omega arith, omega arith, r, o)

  complete :
      (fuel duration cursor limit j : ℕ) (a b : Instant)
      → j < fuel
      → IsSlot duration cursor limit j a b
      → Elem (a, b) (slots fuel duration cursor limit)
  unfolding step_slots
  complete zero duration cursor limit j a b h t = absurd (omega arith)
  complete (suc fuel) duration cursor limit zero a b h (p, q, r, o) =
      let p' : a ≡ cursor = omega arith in
      let q' : b ≡ cursor + duration = omega arith in
      let fits : leb (cursor + duration) limit ≡ true = ground arith in
      rw (fits, rw (p', q') at o) (inl (λ i. (p' i, q' i)))
  complete (suc fuel) duration cursor limit (suc j) a b h t =
      let (p, q, r, o) = t in
      let fits : leb (cursor + duration) limit ≡ true = ground arith in
      let rest =
        complete fuel duration (cursor + duration) limit j a b (omega arith)
          (after_first duration cursor limit j a b t) in
      elim (Bool-cases (is_offered before s cursor (cursor + duration) db)) [
        | inl f ↦ rw (fits, f) (inr rest)
        | inr f ↦ rw (fits, f) rest
      ]

  abbrev pub class_time : ℕ
  class_time = s.scheduled_end - s.scheduled_start

  abbrev pub first_slot : Instant
  first_slot = combine (local_date s.scheduled_start) day_open

  abbrev pub last_end : Instant
  last_end = combine (local_date s.scheduled_start) day_close

  -- The interval is not the session's own; a room of the building is free in it for the session; and
  -- the faculty member has no other class in it.
  pub record IsAlternative (a b : Instant) : Type 0 where
    pub other_slot : (a ≡ s.scheduled_start) × (b ≡ s.scheduled_end) → ⊥
    pub offered : Room
    pub exists : Elem offered db.rooms
    pub in_building : offered.building_id ≡ s.schedule.room.building_id
    pub free : room_is_free offered a b (some s.id) none db ≡ true
    pub no_class : faculty_has_conflict s.faculty_id a b (some s.id) db ≡ false

  abbrev rooms_at : Instant → Instant → List Room
  rooms_at a b = free_rooms_in_building before s.schedule.room.building_id a b (some s.id) none db

  not_nil : (rs : List Room) → is_nil rs ≡ false → (r : Room) × Elem r rs
  not_nil [] e = absurd (ground arith)
  not_nil (r ∷ rs) e = (r, inl refl)

  has_member : (rs : List Room) (r : Room) → Elem r rs → is_nil rs ≡ false
  has_member [] r m = absurd m
  has_member (x ∷ xs) r m = refl

  offered_parts :
      (x y z : Bool)
      → ((if x then false else if y then false else if z then false else true) ≡ true)
        ↔ ((x ≡ false) × (y ≡ false) × (z ≡ false))
  offered_parts true y z = (λ h. ground arith, λ (a, b, c). ground arith)
  offered_parts false true z = (λ h. ground arith, λ (a, b, c). ground arith)
  offered_parts false false true = (λ h. ground arith, λ (a, b, c). ground arith)
  offered_parts false false false = (λ h. (refl, refl, refl), λ t. refl)

  is_offered_iff : (a b : Instant) → (is_offered before s a b db ≡ true) ↔ IsAlternative a b
  is_offered_iff a b =
      let (f, g) =
        offered_parts (a == s.scheduled_start && b == s.scheduled_end) (is_nil (rooms_at a b))
          (faculty_has_conflict s.faculty_id a b (some s.id) db) in
      (
        λ h.
            let (x, y, z) = f h in
            let (r, m) = not_nil (rooms_at a b) y in
            let (n, q, o) =
              (free_rooms_in_building_iff before s.schedule.room.building_id a b (some s.id) none db
                  r).0
                m in
            record {
              other_slot = λ (i, j). ground arith;
              offered = r;
              exists = n;
              in_building = q;
              free = o;
              no_class = z;
            },
        λ h. g (
          own h.other_slot,
          has_member (rooms_at a b) h.offered (
              (free_rooms_in_building_iff before s.schedule.room.building_id a b (some s.id) none db
                  h.offered).1
                (h.exists, h.in_building, h.free)),
          h.no_class,
        ),
      )
    where
      own :
          ((a ≡ s.scheduled_start) × (b ≡ s.scheduled_end) → ⊥)
          → (a == s.scheduled_start && b == s.scheduled_end) ≡ false
      own h = elim (Bool-cases (a == s.scheduled_start && b == s.scheduled_end)) [
        | inr e ↦ e
        | inl e ↦
            let (i, j) = &&-parts (a == s.scheduled_start) (b == s.scheduled_end) e in
            absurd (h ((==_iff a s.scheduled_start).0 i, (==_iff b s.scheduled_end).0 j))
      ]

  -- Where the session has a duration: a pair of instants is offered exactly when it is one of the slots
  -- of that duration that follow each other from 07:00 on and end by 21:00 of the session's day, is not
  -- the session's own slot, leaves the faculty member without another class, and has a free room in the
  -- building.
  pub available_times_for_iff :
      0 < class_time
      → (a b : Instant)
      → Elem (a, b) (available_times_for before s db) ↔ (
          (j : ℕ) × (a ≡ first_slot + j * class_time)
          × (b ≡ first_slot + j * class_time + class_time)
          × (b ≤ last_end)
          × IsAlternative a b)
  unfolding available_times_for
  available_times_for_iff some_time a b = (
    λ m.
        let (j, t) = sound fuel class_time first_slot last_end a b m in
        (j, t.0, t.1, t.2, (is_offered_iff a b).0 t.3),
    λ (j, p, q, r, o).
        let small = le-mul j class_time some_time in
        complete fuel class_time first_slot last_end j a b (omega arith)
          (p, q, r, (is_offered_iff a b).1 o),
  )
    where
      fuel : ℕ
      fuel = day_close - day_open + 1
