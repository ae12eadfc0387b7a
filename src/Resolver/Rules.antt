-- ===== src/Resolver/Rules.antt =====
-- SCAN-02 as a table of rules, each over the times, rooms and states of the sessions.
use fluxtrack_main.Calendar.{minutes}
use fluxtrack_main.Model.{Modality, Session, SessionStatus, effective_modality, is_active}
use fluxtrack_main.Prelude.{All, arith, none, some, ℕ, ◌&&◌, ◌+◌, ◌<◌, ◌≡◌, ◌≢◌, ◌≤◌, ◌⊎◌}
use fluxtrack_main.Prelude.First.{Decides, IsFirst}
use fluxtrack_main.Resolver.{
  Resolution, ScanOutcome, ScanQuery, in_scanned_room, in_window, opens_later, resolution,
}

module _ (q : ScanQuery) where
  abbrev pub IsActive : Session → Type 0
  IsActive s = s.status ≡ SessionStatus.active

  abbrev pub InRoom : Session → Type 0
  InRoom s = s.room.id ≡ q.scanned_room_id

  -- The check-in window: from `open_min` before the start to the end.
  abbrev pub InWindow : Session → Type 0
  InWindow s =
      (s.status ≡ SessionStatus.scheduled)
      × (s.scheduled_start ≤ q.now + minutes q.open_min)
      × (q.now ≤ s.scheduled_end)

  abbrev pub OpensLater : Session → Type 0
  OpensLater s =
      (s.status ≡ SessionStatus.scheduled)
      × InRoom s
      × (q.now + minutes q.open_min < s.scheduled_start)

  abbrev pub IsIdle : Type 0
  IsIdle = All (λ s. ¬ IsActive s) q.sessions_today

  -- The session that a scan is about when none is active.
  abbrev pub IsCandidate : Session → Type 0
  IsCandidate s =
      IsFirst (λ t. InWindow t × InRoom t) q.sessions_today s
      ⊎ All (λ t. ¬ (InWindow t × InRoom t)) q.sessions_today × IsFirst InWindow q.sessions_today s

  pub data ScanRule (r : Resolution) : Type 0 where
    check_out :
        (s : Session)
        → IsFirst IsActive q.sessions_today s
        → InRoom s
        → s.scheduled_end ≤ q.now + minutes q.early_end_min
        → r ≡ resolution ScanOutcome.checked_out s
        → ScanRule r
    end_early :
        (s : Session)
        → IsFirst IsActive q.sessions_today s
        → InRoom s
        → q.now + minutes q.early_end_min < s.scheduled_end
        → r ≡ resolution ScanOutcome.early_end s
        → ScanRule r
    leave_room :
        (s : Session)
        → IsFirst IsActive q.sessions_today s
        → ¬ InRoom s
        → r ≡ resolution ScanOutcome.wrong_room s
        → ScanRule r
    reject_online :
        (s : Session)
        → IsIdle
        → IsCandidate s
        → effective_modality s ≡ Modality.online
        → r ≡ resolution ScanOutcome.online_reject s
        → ScanRule r
    other_room :
        (s : Session)
        → IsIdle
        → IsCandidate s
        → effective_modality s ≢ Modality.online
        → ¬ InRoom s
        → r ≡ resolution ScanOutcome.wrong_room s
        → ScanRule r
    miss :
        (s : Session)
        → IsIdle
        → IsCandidate s
        → effective_modality s ≢ Modality.online
        → InRoom s
        → s.scheduled_start + minutes q.grace_min < q.now
        → r ≡ resolution ScanOutcome.absent s
        → ScanRule r
    hand_over :
        (s : Session) (k : ℕ)
        → IsIdle
        → IsCandidate s
        → effective_modality s ≢ Modality.online
        → InRoom s
        → q.now ≤ s.scheduled_start + minutes q.grace_min
        → q.occupying_session_id ≡ some k
        → r ≡ record {
          outcome = ScanOutcome.room_occupied;
          session_id = some s.id;
          prior_session_id = some k;
        }
        → ScanRule r
    check_in :
        (s : Session)
        → IsIdle
        → IsCandidate s
        → effective_modality s ≢ Modality.online
        → InRoom s
        → q.now ≤ s.scheduled_start + minutes q.grace_min
        → q.occupying_session_id ≡ none
        → r ≡ resolution ScanOutcome.checked_in s
        → ScanRule r
    wait :
        (s : Session)
        → IsIdle
        → All (λ t. ¬ InWindow t) q.sessions_today
        → IsFirst OpensLater q.sessions_today s
        → r ≡ resolution ScanOutcome.too_early s
        → ScanRule r
    nothing :
        IsIdle
        → All (λ t. ¬ InWindow t) q.sessions_today
        → All (λ t. ¬ OpensLater t) q.sessions_today
        → r
          ≡ record { outcome = ScanOutcome.no_schedule; session_id = none; prior_session_id = none }
        → ScanRule r

  pub IsActive-decides : Decides (λ s. is_active s.status) IsActive
  IsActive-decides = record { holds = λ s h. ground arith; fails = λ s h. ground arith }

  pub InRoom-decides : Decides (in_scanned_room q) InRoom
  InRoom-decides = record { holds = λ s h. ground arith; fails = λ s h. ground arith }

  pub InWindow-decides : Decides (in_window q) InWindow
  InWindow-decides = record { holds = λ s h. ground arith; fails = λ s h. ground arith }

  pub InWindow-InRoom-decides :
      Decides (λ s. in_window q s && in_scanned_room q s) (λ s. InWindow s × InRoom s)
  InWindow-InRoom-decides = record { holds = λ s h. ground arith; fails = λ s h. ground arith }

  pub OpensLater-decides : Decides (opens_later q) OpensLater
  OpensLater-decides = record { holds = λ s h. ground arith; fails = λ s h. ground arith }
