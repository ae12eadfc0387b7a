-- ===== src/Availability/Holds.antt =====
-- ops/availability.py: the rows that its queries select for a room and an interval, over their fields.
use fluxtrack_main.Availability.{
  has_room, is_booked, is_excluded, is_occupant, is_recurring, is_reservation, term_runs,
}
use fluxtrack_main.Calendar.{Date, Instant, weekday}
use fluxtrack_main.Model.{
  AcademicTerm, Booking, Database, Modality, ModalityShiftItem, ModalityShiftRequest, Room,
  Schedule, ScheduleStatus, Session, SessionStatus, ShiftStatus, TermStatus, is_active_schedule,
  is_active_term, is_approved, is_occupying, is_online, overlaps,
}
use fluxtrack_main.Prelude.{
  &&-parts, ==_iff, Bool, Elem, Option, any, any-Elem, any-witness, ap, arith, false, is_none, leb,
  none, not, refl, some, true, ℕ, ◌&&◌, ◌<◌, ◌↔◌, ◌∙◌, ◌≡◌, ◌≢◌, ◌≤◌, ◌⊎◌,
}
use fluxtrack_main.Scanning.{start}

-- The half-open intervals meet.
abbrev pub Meets : Instant → Instant → Instant → Instant → Type 0
Meets a b start end = (a < end) × (start < b)

occupying_iff :
    (x : SessionStatus)
    → (is_occupying x ≡ true) ↔ ((x ≡ SessionStatus.scheduled) ⊎ (x ≡ SessionStatus.active))
occupying_iff x = ground arith

pub offline_iff : (m : Modality) → (is_online m ≡ false) ↔ (m ≢ Modality.online)
offline_iff m = ground arith

kept_iff : (exclude : Option ℕ) (k : ℕ) → (not (is_excluded exclude k) ≡ true) ↔ (exclude ≢ some k)
kept_iff exclude k = ground arith

pub vacant_iff : {A : Type 0} (o : Option A) → (is_none o ≡ true) ↔ (o ≡ none)
vacant_iff o = ground arith

both_iff :
    {P Q : Type 0} (a b : Bool) → (a ≡ true) ↔ P → (b ≡ true) ↔ Q → ((a && b) ≡ true) ↔ (P × Q)
both_iff a b (f, f') (g, g') =
    (λ h. (f (&&-parts a b h).0, g (&&-parts a b h).1), λ (p, q). rw (f' p, g' q) refl)

pub Meets-iff : (a b start end : Instant) → (overlaps a b start end ≡ true) ↔ Meets a b start end
Meets-iff a b start end = (λ h. ground arith, λ h. ground arith)

within_iff : (a d b : ℕ) → ((leb a d && leb d b) ≡ true) ↔ ((a ≤ d) × (d ≤ b))
within_iff a d b = (λ h. ground arith, λ h. ground arith)

active_iff : (x : ScheduleStatus) → (is_active_schedule x ≡ true) ↔ (x ≡ ScheduleStatus.active)
active_iff x = ground arith

running_iff : (x : TermStatus) → (is_active_term x ≡ true) ↔ (x ≡ TermStatus.active)
running_iff x = ground arith

approved_iff : (x : ShiftStatus) → (is_approved x ≡ true) ↔ (x ≡ ShiftStatus.approved)
approved_iff x = ground arith

pub onsite_iff : (m : Modality) → (not (is_online m) ≡ true) ↔ (m ≢ Modality.online)
onsite_iff m = ground arith

-- The schedule's term is active and contains the date.
abbrev pub IsInTerm : Schedule → Date → Database → Type 0
IsInTerm s date db =
    (t : AcademicTerm) × Elem t db.terms
    × ((t.id ≡ s.term_id)
        × ((t.status ≡ TermStatus.active) × ((t.start_date ≤ date) × (date ≤ t.end_date))))

term_iff :
    (s : Schedule) (date : Date) (db : Database)
    → (any (term_runs s date) db.terms ≡ true) ↔ IsInTerm s date db
term_iff s date db = (
  (λ h. let (t, m, p) = any-witness (term_runs s date) db.terms h in (t, m, (runs t).0 p)),
  λ (t, m, p). any-Elem (term_runs s date) db.terms t m ((runs t).1 p),
)
  where
    runs :
        (t : AcademicTerm)
        → (term_runs s date t ≡ true) ↔ (
            (t.id ≡ s.term_id)
            × ((t.status ≡ TermStatus.active) × ((t.start_date ≤ date) × (date ≤ t.end_date))))
    runs t =
        both_iff _ _ (==_iff t.id s.term_id)
          (both_iff _ _ (running_iff t.status) (within_iff t.start_date date t.end_date))

module _ (room : Room) (start end : Instant) where
  -- A session is SCHEDULED or ACTIVE in the room, not released, does not meet online, and meets the
  -- interval.
  abbrev pub HoldsRoom : Option ℕ → Session → Type 0
  HoldsRoom exclude s =
      (s.room.id ≡ room.id)
      × (((s.status ≡ SessionStatus.scheduled) ⊎ (s.status ≡ SessionStatus.active))
          × ((s.room_released_at ≡ none)
              × (Meets s.scheduled_start s.scheduled_end start end × (exclude ≢ some s.id))))

  pub HoldsRoom-iff :
      (exclude : Option ℕ) (s : Session)
      → (is_occupant room start end exclude s ≡ true) ↔ HoldsRoom exclude s
  HoldsRoom-iff exclude s = both_iff _ _ (==_iff s.room.id room.id) (
      both_iff _ _ (occupying_iff s.status) (
        both_iff _ _ (vacant_iff s.room_released_at) (
          both_iff _ _ (Meets-iff s.scheduled_start s.scheduled_end start end)
            (kept_iff exclude s.id))))

  abbrev pub IsBooking : Booking → Type 0
  IsBooking b =
      (b.room_id ≡ room.id)
      × ((b.is_active_booking ≡ true) × Meets b.start_datetime b.end_datetime start end)

  pub IsBooking-iff : (b : Booking) → (is_booked room start end b ≡ true) ↔ IsBooking b
  IsBooking-iff b =
      both_iff _ _ (==_iff b.room_id room.id)
        (both_iff _ _ ((λ h. h), λ h. h) (Meets-iff b.start_datetime b.end_datetime start end))

abbrev id_or_zero : Option Room → ℕ
id_or_zero none = 0
id_or_zero (some x) = x.id

module _ (room : Room) (date : Date) (exclude : Option ℕ) (db : Database) where
  -- An active class of the room meets on the date's weekday, in its running term.
  abbrev pub IsClass : Schedule → Type 0
  IsClass s =
      (s.room.id ≡ room.id)
      × ((s.status ≡ ScheduleStatus.active)
          × (IsInTerm s date db × ((s.day_of_week ≡ weekday date) × (exclude ≢ some s.id))))

  pub IsClass-iff : (s : Schedule) → (is_recurring room date exclude db s ≡ true) ↔ IsClass s
  IsClass-iff s = both_iff _ _ (==_iff s.room.id room.id) (
      both_iff _ _ (active_iff s.status) (
        both_iff _ _ (term_iff s date db)
          (both_iff _ _ (==_iff s.day_of_week (weekday date)) (kept_iff exclude s.id))))

  -- An approved request away from online moves a class of the date's weekday into the room.
  abbrev pub MovesIn : ModalityShiftItem → ModalityShiftRequest → Type 0
  MovesIn item r =
      ((into : Room) × (item.assigned_room ≡ some into) × (into.id ≡ room.id))
      × ((r.status ≡ ShiftStatus.approved)
          × (((r.window_start ≤ date) × (date ≤ r.window_end))
              × ((item.schedule.day_of_week ≡ weekday date)
                  × ((r.target_modality ≢ Modality.online) × (exclude ≢ some item.schedule.id)))))

  assigned_iff :
      (o : Option Room)
      → (has_room o room ≡ true) ↔ ((into : Room) × (o ≡ some into) × (into.id ≡ room.id))
  assigned_iff none = ((λ h. absurd (ground arith)), λ (into, e, h). absurd (ground arith))
  assigned_iff (some r) = (
    (λ h. (r, refl, (==_iff r.id room.id).0 h)),
    λ (into, e, h). (==_iff r.id room.id).1 (same_id into e ∙ h),
  )
    where
      same_id : (into : Room) → some r ≡ some into → r.id ≡ into.id
      same_id into e = ap id_or_zero e

  pub MovesIn-iff :
      (item : ModalityShiftItem) (r : ModalityShiftRequest)
      → (is_reservation room date exclude item r ≡ true) ↔ MovesIn item r
  MovesIn-iff item r = both_iff _ _ (assigned_iff item.assigned_room) (
      both_iff _ _ (approved_iff r.status) (
        both_iff _ _ (within_iff r.window_start date r.window_end) (
          both_iff _ _ (==_iff item.schedule.day_of_week (weekday date))
            (both_iff _ _ (onsite_iff r.target_modality) (kept_iff exclude item.schedule.id)))))
