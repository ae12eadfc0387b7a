-- ===== src/Model/Rows.antt =====
-- The rows of campus/models.py, accounts/models.py, scheduling/models.py, ops/models.py and
-- verification/models.py. A blank choice field is `none`; a blank text is "".
use fluxtrack_main.Calendar.{Date, Instant, TimeOfDay}
use fluxtrack_main.Model.Enums.{
  CheckerOutcome, CheckinMethod, DutyRole, Modality, Role, ScheduleStatus, Scope, SessionStatus,
  ShiftStatus, TermStatus, ValidationAction,
}
use fluxtrack_main.Prelude.{Bool, List, Option, String, ltb, none, some, suc, zero, ℕ, ◌&&◌}

pub record Room : Type 0 where
  pub id : ℕ
  pub code : String
  pub floor_id : ℕ
  pub building_id : ℕ
  pub qr_token : String
  pub manual_code : String
  pub out_of_service : Bool

pub record User : Type 0 where
  pub id : ℕ
  pub role : Role
  pub department : Option ℕ
  pub is_superuser : Bool
  pub user_active : Bool

pub record AcademicTerm : Type 0 where
  pub id : ℕ
  pub name : String
  pub start_date : Date
  pub end_date : Date
  pub status : TermStatus

pub record AcademicBreak : Type 0 where
  pub term_id : ℕ
  pub start_date : Date
  pub end_date : Date

pub record ClassSuspension : Type 0 where
  pub id : ℕ
  pub term_id : ℕ
  pub start_date : Date
  pub end_date : Date
  pub building_id : Option ℕ
  pub reason : String
  pub declared_by : Option ℕ
  pub lifted_at : Option Instant
  pub lifted_by : Option ℕ

pub record Schedule : Type 0 where
  pub id : ℕ
  pub term_id : ℕ
  pub course_code : String
  pub faculty_id : ℕ
  pub room : Room
  pub day_of_week : ℕ
  pub start_time : TimeOfDay
  pub end_time : TimeOfDay
  pub modality : Modality
  pub enrolled_count : ℕ
  pub status : ScheduleStatus

pub record Session : Type 0 where
  pub id : ℕ
  pub schedule : Schedule
  pub faculty_id : ℕ
  pub room : Room
  pub date : Date
  pub scheduled_start : Instant
  pub scheduled_end : Instant
  pub status : SessionStatus
  pub actual_start : Option Instant
  pub actual_end : Option Instant
  pub checkin_method : Option CheckinMethod
  pub declared_modality : Option Modality
  pub modality_changed_at : Option Instant
  pub modality_changed_by : Option ℕ
  pub handover_from_session : Option ℕ
  pub online_checker : Option ℕ
  pub ended_early : Bool
  pub early_end_reason : String
  pub room_released_at : Option Instant
  pub cancelled_reason : String

pub record ModalityShiftRequest : Type 0 where
  pub id : ℕ
  pub requester : ℕ
  pub dean : Option ℕ
  pub department : Option ℕ
  pub target_modality : Modality
  pub window_start : Date
  pub window_end : Date
  pub is_time_move : Bool
  pub status : ShiftStatus
  pub decision_reason : String
  pub decided_at : Option Instant
  pub decided_by : Option ℕ

pub record ModalityShiftItem : Type 0 where
  pub id : ℕ
  pub request_id : ℕ
  pub schedule : Schedule
  pub preferred_room : Option Room
  pub assigned_room : Option Room
  pub new_start_time : Option TimeOfDay
  pub new_end_time : Option TimeOfDay

pub record Booking : Type 0 where
  pub room_id : ℕ
  pub start_datetime : Instant
  pub end_datetime : Instant
  pub is_active_booking : Bool

pub record RoomConflictFlag : Type 0 where
  pub room_id : ℕ
  pub resolved_at : Option Instant

pub record Assignment : Type 0 where
  pub user_id : ℕ
  pub role : DutyRole
  pub floors : List ℕ
  pub scope : Scope
  pub date : Option Date
  pub start_time : Option TimeOfDay
  pub end_time : Option TimeOfDay
  pub term_id : Option ℕ
  pub is_active_assignment : Bool

pub record CheckerValidation : Type 0 where
  pub session_id : Option ℕ
  pub room_id : ℕ
  pub checker : ℕ
  pub action : ValidationAction
  pub identity_match : Option Bool
  pub note : String
  pub scanned_at : Option Instant
  pub offline_queued : Bool

-- Why a queued scan was not applied.
pub data ReplayReason : Type 0 where
  rate_limited bad_room bad_payload session_changed action_incongruent note_required : ReplayReason
  outcome : CheckerOutcome → ReplayReason

-- The status and the reason of a receipt: "applied", or "flagged" with its reason.
pub data ReplayStatus : Type 0 where
  applied : ReplayStatus
  flagged : ReplayReason → ReplayStatus

pub record CheckerReplayReceipt : Type 0 where
  pub client_uuid : ℕ
  pub checker : ℕ
  pub status : ReplayStatus

-- SCAN-01: a declared modality overrides the schedule's.
abbrev pub modality_or : Option Modality → Modality → Modality
modality_or none m = m
modality_or (some d) m = d

abbrev pub effective_modality : Session → Modality
effective_modality s = modality_or s.declared_modality s.schedule.modality

-- The half-open intervals [a, b) and [c, d) meet.
abbrev pub overlaps : Instant → Instant → Instant → Instant → Bool
overlaps a b c d = ltb a d && ltb c b

-- `text[:n]`
abbrev pub take_chars : ℕ → String → String
take_chars zero s = String.[]
take_chars (suc n) String.[] = String.[]
take_chars (suc n) (String.◌∷◌ c s) = String.◌∷◌ c (take_chars n s)
