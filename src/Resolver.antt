-- ===== src/Resolver.antt =====
-- scheduling/resolver.py: the faculty scan decision. Instants are natural numbers, so
-- `start - lead` is truncated at 0; before an instant, or compared with one, that is the same as the
-- subtraction on datetimes, which does not go below the first instant.
pub mod Rules
pub mod Table
use fluxtrack_main.Calendar.{Instant, minutes}
use fluxtrack_main.Model.{Session, effective_modality, is_active, is_online, is_scheduled}
use fluxtrack_main.Prelude.{
  Bool, List, Option, false, filter, find, if_some, if◌then◌else◌, is_none, leb, ltb, none, not,
  or_else, some, true, ℕ, ◌&&◌, ◌+◌, ◌-◌, ◌==◌,
}

pub data ScanOutcome : Type 0 where
  checked_in checked_out absent too_early wrong_room : ScanOutcome
  room_occupied early_end online_reject no_schedule : ScanOutcome

pub record Resolution : Type 0 where
  pub outcome : ScanOutcome
  pub session_id : Option ℕ
  pub prior_session_id : Option ℕ

-- The arguments of `resolve_faculty_scan`.
pub record ScanQuery : Type 0 where
  pub sessions_today : List Session
  pub scanned_room_id : ℕ
  pub occupying_session_id : Option ℕ
  pub now : Instant
  pub grace_min : ℕ
  pub early_end_min : ℕ
  pub open_min : ℕ

-- `outcome in CONFIRM_OUTCOMES`
unfoldable pub needs_confirm : ScanOutcome → Bool
needs_confirm ScanOutcome.wrong_room = true
needs_confirm ScanOutcome.room_occupied = true
needs_confirm ScanOutcome.early_end = true
needs_confirm _ = false

unfoldable pub is_no_show_past_grace : Instant → Instant → ℕ → Bool
is_no_show_past_grace scheduled_start now grace_min = ltb (scheduled_start + minutes grace_min) now

abbrev pub resolution : ScanOutcome → Session → Resolution
resolution o s = record { outcome = o; session_id = some s.id; prior_session_id = none }

module _ (q : ScanQuery) where
  -- The body of the first loop: the re-scan of an active session.
  active_scan : Session → Resolution
  active_scan s =
      if s.room.id == q.scanned_room_id
      then (if ltb q.now (s.scheduled_end - minutes q.early_end_min)
          then resolution ScanOutcome.early_end s
          else resolution ScanOutcome.checked_out s)
      else resolution ScanOutcome.wrong_room s

  abbrev pub in_window : Session → Bool
  in_window s =
      is_scheduled s.status
      && (leb (s.scheduled_start - minutes q.open_min) q.now && leb q.now s.scheduled_end)

  abbrev pub in_scanned_room : Session → Bool
  in_scanned_room s = s.room.id == q.scanned_room_id

  abbrev pub opens_later : Session → Bool
  opens_later s =
      is_scheduled s.status
      && (in_scanned_room s && ltb q.now (s.scheduled_start - minutes q.open_min))

  abbrev pub window_candidates : List Session
  window_candidates = filter in_window q.sessions_today

  -- The session in the scanned room, else the first one whose window contains now.
  candidate : Option Session
  candidate = or_else (find in_scanned_room window_candidates) (find (λ _. true) window_candidates)

  no_candidate : Resolution
  no_candidate =
      if_some (find opens_later q.sessions_today) (resolution ScanOutcome.too_early)
        (record { outcome = ScanOutcome.no_schedule; session_id = none; prior_session_id = none })

  candidate_scan : Session → Resolution
  unfolding is_no_show_past_grace
  candidate_scan s =
      if is_online (effective_modality s)
      then resolution ScanOutcome.online_reject s
      else if not (in_scanned_room s)
      then resolution ScanOutcome.wrong_room s
      else if is_no_show_past_grace s.scheduled_start q.now q.grace_min
      then resolution ScanOutcome.absent s
      else if not (is_none q.occupying_session_id)
      then record {
        outcome = ScanOutcome.room_occupied;
        session_id = some s.id;
        prior_session_id = q.occupying_session_id;
      }
      else resolution ScanOutcome.checked_in s

  scheduled_scan : Resolution
  unfolding candidate candidate_scan no_candidate
  scheduled_scan = if_some candidate candidate_scan no_candidate

  unfoldable pub resolve_faculty_scan : Resolution
  unfolding active_scan scheduled_scan
  resolve_faculty_scan =
      if_some (find (λ s. is_active s.status) q.sessions_today) active_scan scheduled_scan
