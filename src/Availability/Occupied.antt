-- ===== src/Availability/Occupied.antt =====
-- ops/availability.py, room_is_free: what occupies a room in an interval, over the fields of the rows.
use fluxtrack_main.Availability.{
  is_booked, is_occupant, is_recurring, is_reservation, reservation_occupies, reserved_slot,
  reserves, room_is_free, schedule_occupies, session_occupies, time_or,
}
use fluxtrack_main.Availability.Holds.{
  HoldsRoom, HoldsRoom-iff, IsBooking, IsBooking-iff, IsClass, IsClass-iff, Meets, Meets-iff,
  MovesIn, MovesIn-iff, onsite_iff,
}
use fluxtrack_main.Availability.Recurs.{HasNoSession, StaysIn, class-Meets}
use fluxtrack_main.Calendar.{Date, Instant, combine, local_date}
use fluxtrack_main.Materialize.{request_of}
use fluxtrack_main.Model.{
  Booking, Database, Modality, ModalityShiftItem, ModalityShiftRequest, Room, Schedule, Session,
  effective_modality, is_online,
}
use fluxtrack_main.Prelude.{
  &&-parts, Bool, Bool-cases, Elem, Elem-filter, Elem-filter_of, Option, Option-cases, any,
  any-Elem, any-witness, arith, false, filter, if_some, if◌then◌else◌, inl, inr, not, refl, some,
  true, ℕ, ◌&&◌, ◌||◌, ◌↔◌, ◌≡◌, ◌≢◌,
}
use fluxtrack_main.Suspensions.{excused_checker}

module _ (room : Room) (start end : Instant) (not_session not_schedule : Option ℕ)
    (db : Database) where
  abbrev date : Date
  date = local_date start

  -- Something holds the room in the interval: a session there that is SCHEDULED or ACTIVE, not released
  -- and not online; an active booking; a class that meets on the date, has no session yet, is not excused
  -- and has not moved away; or an approved move into the room.
  pub data IsOccupied : Type 0 where
    held :
        (s : Session)
        → Elem s db.sessions
        → HoldsRoom room start end not_session s
        → effective_modality s ≢ Modality.online
        → IsOccupied
    booked : (b : Booking) → Elem b db.bookings → IsBooking room start end b → IsOccupied
    recurs :
        (s : Schedule)
        → Elem s db.schedules
        → IsClass room date not_schedule db s
        → HasNoSession start end db s
        → excused_checker s.term_id db date s.room.building_id ≡ false
        → StaysIn start end db s
        → Meets (combine date s.start_time) (combine date s.end_time) start end
        → IsOccupied
    reserved :
        (item : ModalityShiftItem) (r : ModalityShiftRequest)
        → Elem item db.items
        → request_of db item ≡ some r
        → MovesIn room date not_schedule db item r
        → Meets
            (combine date (time_or item.new_start_time item.schedule.start_time))
            (combine date (time_or item.new_end_time item.schedule.end_time))
            start
            end
        → IsOccupied

  session_lem : session_occupies room start end not_session db ≡ true → IsOccupied
  unfolding session_occupies
  session_lem h =
      let (s, m, p) =
        any-witness (λ s. not (is_online (effective_modality s)))
          (filter (is_occupant room start end not_session) db.sessions) h in
      let (m', q) = Elem-filter (is_occupant room start end not_session) db.sessions s m in
      held s m' ((HoldsRoom-iff room start end not_session s).0 q)
        ((onsite_iff (effective_modality s)).0 p)

  schedule_lem : schedule_occupies room start end not_schedule db ≡ true → IsOccupied
  unfolding schedule_occupies
  schedule_lem h =
      let (s, m, p) =
        any-witness (reserves date start end db)
          (filter (is_recurring room date not_schedule db) db.schedules) h in
      let (m', q) = Elem-filter (is_recurring room date not_schedule db) db.schedules s m in
      let (a, b, c, d) = (class-Meets start end db s).0 p in
      recurs s m' ((IsClass-iff room date not_schedule db s).0 q) a b c d

  abbrev is_reserved : ModalityShiftItem → Bool
  is_reserved item =
      if_some (request_of db item) (λ r. is_reservation room date not_schedule item r) false
      && reserved_slot date start end item

  reserved_by :
      (item : ModalityShiftItem) → Elem item db.items → is_reserved item ≡ true → IsOccupied
  reserved_by item m h = elim (Option-cases (request_of db item)) [
    | inl e ↦ let no : false ≡ true = rw e at h in absurd (ground arith)
    | inr (r, e) ↦
        let (p, q) =
          &&-parts (is_reservation room date not_schedule item r)
            (reserved_slot date start end item) (rw e at h) in
        reserved item r m e ((MovesIn-iff room date not_schedule db item r).0 p) (
          (Meets-iff (combine date (time_or item.new_start_time item.schedule.start_time))
              (combine date (time_or item.new_end_time item.schedule.end_time)) start end).0
            q)
  ]

  reservation_lem : reservation_occupies room start end not_schedule db ≡ true → IsOccupied
  unfolding reservation_occupies
  reservation_lem h = let (item, m, p) = any-witness is_reserved db.items h in reserved_by item m p

  occupied_of_taken : room_is_free room start end not_session not_schedule db ≡ false → IsOccupied
  unfolding room_is_free
  occupied_of_taken h = elim (Bool-cases (session_occupies room start end not_session db)) [
    | inl e ↦ session_lem e
    | inr e ↦ elim (Bool-cases (any (is_booked room start end) db.bookings)) [
      | inl f ↦
          let (b, m, p) = any-witness (is_booked room start end) db.bookings f in
          booked b m ((IsBooking-iff room start end b).0 p)
      | inr f ↦ elim (Bool-cases (schedule_occupies room start end not_schedule db)) [
        | inl g ↦ schedule_lem g
        | inr g ↦ elim (Bool-cases (reservation_occupies room start end not_schedule db)) [
          | inl i ↦ reservation_lem i
          | inr i ↦ let no : true ≡ false = rw (e, f, g, i) at h in absurd (ground arith)
        ]
      ]
    ]
  ]

  taken :
      (a b c d : Bool)
      → (a || (b || (c || d))) ≡ true
      → (if a then false else if b then false else if c then false else if d then false else true)
        ≡ false
  taken true b c d h = refl
  taken false true c d h = refl
  taken false false true d h = refl
  taken false false false true h = refl
  taken false false false false h = absurd (ground arith)

  some_test :
      IsOccupied
      → (session_occupies room start end not_session db
          || (any (is_booked room start end) db.bookings
              || (schedule_occupies room start end not_schedule db
                  || reservation_occupies room start end not_schedule db)))
        ≡ true
  unfolding session_occupies schedule_occupies reservation_occupies
  some_test (held s m p q) =
      rw
        (any-Elem (λ s. not (is_online (effective_modality s)))
          (filter (is_occupant room start end not_session) db.sessions) s
          (Elem-filter_of (is_occupant room start end not_session) db.sessions s m
            ((HoldsRoom-iff room start end not_session s).1 p))
          ((onsite_iff (effective_modality s)).1 q))
        refl
  some_test (booked b m p) =
      let e =
        any-Elem (is_booked room start end) db.bookings b m
          ((IsBooking-iff room start end b).1 p) in
      ground (arith, e)
  some_test (recurs s m p a b c d) =
      let e =
        any-Elem (reserves date start end db)
          (filter (is_recurring room date not_schedule db) db.schedules) s
          (Elem-filter_of (is_recurring room date not_schedule db) db.schedules s m
            ((IsClass-iff room date not_schedule db s).1 p))
          ((class-Meets start end db s).1 (a, b, c, d)) in
      ground (arith, e)
  some_test (reserved item r m e p q) =
      let p' = (MovesIn-iff room date not_schedule db item r).1 p in
      let q' =
        (Meets-iff (combine date (time_or item.new_start_time item.schedule.start_time))
            (combine date (time_or item.new_end_time item.schedule.end_time)) start end).1
          q in
      let found_it = any-Elem is_reserved db.items item m (rw (e, p', q') refl) in
      ground (arith, found_it)

  -- A room is reported as taken in an interval exactly when one of four holds it there: a SCHEDULED or
  -- ACTIVE session of the room that was not released, does not meet online and meets the interval; an
  -- active booking of the room that meets it; an active class of the room that meets on the date's weekday
  -- in its running term, has no session on the date, is not excused there and meets the interval, and
  -- which the latest approved shift neither moves online nor to a room, or, without a shift, is not online;
  -- or an approved move of a class into the room on that weekday that meets the interval. The session and
  -- the class that are left out do not count.
  pub room_is_free_iff :
      (room_is_free room start end not_session not_schedule db ≡ false) ↔ IsOccupied
  unfolding room_is_free
  room_is_free_iff = (
    occupied_of_taken,
    λ o.
        taken (session_occupies room start end not_session db)
          (any (is_booked room start end) db.bookings)
          (schedule_occupies room start end not_schedule db)
          (reservation_occupies room start end not_schedule db) (some_test o),
  )
