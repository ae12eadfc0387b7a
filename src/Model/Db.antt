-- ===== src/Model/Db.antt =====
-- The database: one list of rows for each table, in primary key order, the policy settings, and what
-- has been written to the audit log and to the notifications, oldest first.
-- The keys of FLUXTRACK_POLICY that the modelled code reads.
use fluxtrack_main.Model.Enums.{CheckerOutcome, CheckinMethod, Modality, ValidationAction}
use fluxtrack_main.Model.Rows.{
  AcademicBreak, AcademicTerm, Assignment, Booking, CheckerReplayReceipt, CheckerValidation,
  ClassSuspension, ModalityShiftItem, ModalityShiftRequest, ReplayReason, Room, RoomConflictFlag,
  Schedule, Session, User,
}
use fluxtrack_main.Prelude.{Bool, List, Option, String, ℕ}

pub data PolicyKey : Type 0 where
  grace_minutes early_end_threshold_minutes manual_code_rate_limit_per_min : PolicyKey
  materialization_horizon_days modality_shift_lead_days : PolicyKey

-- An AuditLog row's event type, with the part of its payload that names other rows or texts.
pub data AuditEvent : Type 0 where
  checked_in : Option CheckinMethod → AuditEvent
  marked_absent checked_out room_released : AuditEvent
  ended_early : String → AuditEvent
  room_changed : (old new : String) → AuditEvent
  force_handover : Option ℕ → AuditEvent
  merged_present merged_absent : ℕ → AuditEvent
  marked_absent_by_sweep : AuditEvent
  session_cancelled : String → ℕ → AuditEvent
  suspension_lifted : ℕ → AuditEvent
  online_checker_assigned : ℕ → AuditEvent
  shift_submitted shift_withdrawn : AuditEvent
  shift_rejected shift_denied : String → AuditEvent
  shift_approved : Modality → AuditEvent
  term_created : String → AuditEvent
  term_archived term_reopened : String → AuditEvent
  term_activated : AuditEvent
  scan_rate_limited : ℕ → AuditEvent
  scan_bad_manual_code : AuditEvent
  checker_rate_limited : Option ℕ → AuditEvent
  checker_bad_manual_code : AuditEvent
  checker_action : (action : ValidationAction) (offline is_online_check : Bool) → AuditEvent
  action_refused : CheckerOutcome → ValidationAction → AuditEvent
  replay_conflict : ReplayReason → ℕ → Option ValidationAction → AuditEvent
  schedule_updated schedule_archived : ℕ → AuditEvent

pub record AuditLog : Type 0 where
  pub actor : Option ℕ
  pub event : AuditEvent
  pub target_id : Option ℕ

-- A Notification row's type. Titles and texts are presentation and not modelled.
pub data NotificationType : Type 0 where
  room_event room_conflict class_suspended online_unassigned online_assigned : NotificationType
  modality_shift_submitted modality_shift_rejected modality_shift_denied : NotificationType
  modality_shift_approved modality_shift_applied modality_materialize_no_room : NotificationType
  guard_floor_alert checker_flag checker_replay_conflict : NotificationType

pub record Notification : Type 0 where
  pub user_id : ℕ
  pub type : NotificationType

pub record Database : Type 0 where
  pub settings : List (PolicyKey × ℕ)
  pub users : List User
  pub rooms : List Room
  pub terms : List AcademicTerm
  pub breaks : List AcademicBreak
  pub suspensions : List ClassSuspension
  pub schedules : List Schedule
  pub sessions : List Session
  pub requests : List ModalityShiftRequest
  pub items : List ModalityShiftItem
  pub bookings : List Booking
  pub assignments : List Assignment
  pub flags : List RoomConflictFlag
  pub validations : List CheckerValidation
  pub receipts : List CheckerReplayReceipt
  pub audit : List AuditLog
  pub notifications : List Notification
