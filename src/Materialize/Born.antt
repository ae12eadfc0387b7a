-- ===== src/Materialize/Born.antt =====
-- What an approved shift leaves alone in the sessions of every other occurrence, and of its own.
use fluxtrack_main.Calendar.{Date, Instant, TimeOfDay}
use fluxtrack_main.Materialize.{
  apply_approved_shift, apply_room, apply_shift, approved_items, decided_or, declare_modality,
  is_occurrence, latest, move_times,
}
use fluxtrack_main.Model.{
  Database, ModalityShiftItem, ModalityShiftRequest, NotificationType, Room, Schedule, Session,
  is_online, modality_materialize_no_room,
}
use fluxtrack_main.Ops.{notify_ifo, release_room, save_session}
use fluxtrack_main.Prelude.{
  Bool-cases, Option, count, inl, inr, none, refl, some, ℕ, ◌==◌, ◌∙◌, ◌≡◌,
}
use fluxtrack_main.Prelude.Update.{count-update}

abbrev pub occurrences : ℕ → Date → Database → ℕ
occurrences schedule_id date db = count (is_occurrence schedule_id date) db.sessions

module _ (t : ℕ) (d : Date) where
  save-occurrences :
      (k : ℕ) (change : Session → Session) (db : Database)
      → ((s : Session) → is_occurrence t d (change s) ≡ is_occurrence t d s)
      → occurrences t d (save_session k change db) ≡ occurrences t d db
  unfolding save_session
  save-occurrences k change db h =
      count-update (is_occurrence t d) (λ s. s.id == k) change db.sessions h

  notify-occurrences :
      (kind : NotificationType) (db : Database)
      → occurrences t d (notify_ifo kind db) ≡ occurrences t d db
  unfolding notify_ifo
  notify-occurrences kind db = refl

  release-occurrences :
      (k : ℕ) (actor : Option ℕ) (now : Instant) (db : Database)
      → occurrences t d (release_room k actor now db) ≡ occurrences t d db
  unfolding release_room
  release-occurrences k actor now db =
      count-update (is_occurrence t d) (λ s. s.id == k)
        (λ s. record s { room_released_at = some now }) db.sessions (λ _. refl)

  move_times_lem :
      (st et : Option TimeOfDay) (date : Date) (s : Session)
      → is_occurrence t d (move_times st et date s) ≡ is_occurrence t d s
  unfolding move_times
  move_times_lem (some st) (some et) date s = refl
  move_times_lem (some st) none date s = refl
  move_times_lem none et date s = refl

  room-occurrences :
      (room : Option Room) (item : ModalityShiftItem) (r : ModalityShiftRequest) (k date : ℕ)
      (db : Database)
      → occurrences t d (apply_room room item r k date db) ≡ occurrences t d db
  unfolding apply_room
  room-occurrences none item r k date db =
      save-occurrences k (declare_modality r) (notify_ifo modality_materialize_no_room db)
        (λ _. refl)
      ∙ notify-occurrences modality_materialize_no_room db
  room-occurrences (some room) item r k date db =
      save-occurrences k
        (λ s.
          move_times item.new_start_time item.new_end_time date
            (record (declare_modality r s) { room = room }))
        db (λ s. move_times_lem item.new_start_time item.new_end_time date _)

  shift-occurrences :
      (found : Option (ModalityShiftItem × ModalityShiftRequest)) (k date now : ℕ) (db : Database)
      → occurrences t d (apply_shift found k date now db) ≡ occurrences t d db
  unfolding apply_shift
  shift-occurrences none k date now db = refl
  shift-occurrences (some (item, r)) k date now db =
      elim (Bool-cases (is_online r.target_modality)) [
        | inl e ↦ rw e (
            release-occurrences k r.decided_by (decided_or r.decided_at now)
              (save_session k (declare_modality r) db)
            ∙ save-occurrences k (declare_modality r) db (λ _. refl))
        | inr e ↦ rw e (room-occurrences item.assigned_room item r k date db)
      ]

  pub approved-occurrences :
      (k : ℕ) (schedule : Schedule) (date now : ℕ) (db : Database)
      → occurrences t d (apply_approved_shift k schedule date now db) ≡ occurrences t d db
  unfolding apply_approved_shift
  approved-occurrences k schedule date now db =
      shift-occurrences (latest none (approved_items db.items schedule date db)) k date now db
