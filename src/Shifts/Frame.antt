-- ===== src/Shifts/Frame.antt =====
-- The consequences of an approval leave the table of requests alone.
use fluxtrack_main.Availability.{faculty_has_conflict}
use fluxtrack_main.Calendar.{Instant}
use fluxtrack_main.Effects.{modify, ◌>>◌}
use fluxtrack_main.Effects.Keeps.{Keeps, bind-Keeps}
use fluxtrack_main.Model.{
  Database, Modality, ModalityShiftItem, ModalityShiftRequest, Room, Session, User, is_online,
}
use fluxtrack_main.Ops.{log, release_room, save_session, update_sessions}
use fluxtrack_main.Prelude.{
  Bool, Bool-cases, List, Option, Option-cases, String, [], inl, inr, none, some, ◌&&◌, ◌∷◌, ◌≡◌,
}
use fluxtrack_main.Shifts.{
  affected_sessions, apply_f2f, apply_online, consequence, in_window_sessions, items_of,
  resolve_shift_room, save_item, shift_session, shift_sessions, shift_slot, shifted,
}

abbrev pub HasRequests : List ModalityShiftRequest → Database → Type 0
HasRequests rs db = db.requests ≡ rs

module _ (rs : List ModalityShiftRequest) where
  online-requests :
      (ss : List Session) (decider : User) (now : Instant) (db : Database)
      → HasRequests rs db
      → HasRequests rs (apply_online ss decider now db)
  unfolding apply_online save_session release_room update_sessions log
  online-requests [] decider now db h = h
  online-requests (s ∷ ss) decider now db h =
      online-requests ss decider now
        (release_room s.id (some decider.id) now
          (save_session s.id (shifted Modality.online decider now) db))
        h

  saved :
      (found : Option Room) (item : ModalityShiftItem) (db : Database)
      → HasRequests rs db
      → HasRequests rs (save_item item found db)
  saved none item db h = h
  saved (some room) item db h = h

  module _ (before : String → String → Bool) (r : ModalityShiftRequest) (decider : User)
      (now : Instant) where
    session-Keeps :
        (item : ModalityShiftItem) (s : Session)
        → Keeps (HasRequests rs) (shift_session before r item decider now s)
    unfolding shift_session save_session update_sessions
    session-Keeps item s db h =
        let (moves, start, end) = shift_slot item s in
        elim (Bool-cases (moves && faculty_has_conflict s.faculty_id start end (some s.id) db)) [
          | inl e ↦ rw e h
          | inr e ↦ elim (Option-cases (resolve_shift_room before item start end (some s.id) db)) [
            | inl f ↦ rw (e, f) h
            | inr (room, f) ↦ rw (e, f) h
          ]
        ]

    sessions-Keeps :
        (item : ModalityShiftItem) (ss : List Session) (resolved : Option Room)
        → Keeps (HasRequests rs) (shift_sessions before r item decider now ss resolved)
    unfolding shift_sessions
    sessions-Keeps item [] resolved db h = h
    sessions-Keeps item (s ∷ ss) resolved db h =
        bind-Keeps (HasRequests rs) (shift_session before r item decider now s)
          (λ room. shift_sessions before r item decider now ss (some room)) (session-Keeps item s)
          (λ room. sessions-Keeps item ss (some room)) db h

    f2f-Keeps :
        (items : List ModalityShiftItem)
        → Keeps (HasRequests rs) (apply_f2f before r items decider now)
    unfolding apply_f2f
    f2f-Keeps [] db h = h
    f2f-Keeps (item ∷ rest) db h =
        let ss = in_window_sessions item.schedule r.window_start r.window_end db in
        bind-Keeps (HasRequests rs) (shift_sessions before r item decider now ss none)
          (λ resolved. modify (save_item item resolved) >> apply_f2f before r rest decider now)
          (sessions-Keeps item ss none)
          (λ resolved db h. f2f-Keeps rest (save_item item resolved db) (saved resolved item db h))
          db h

    pub consequence-Keeps : Keeps (HasRequests rs) (consequence before r decider now)
    consequence-Keeps db h = elim (Bool-cases (is_online r.target_modality)) [
      | inl e ↦ rw e (online-requests (affected_sessions r db) decider now db h)
      | inr e ↦ rw e (f2f-Keeps (items_of r.id db) db h)
    ]
