-- ===== src/Model/Enums.antt =====
-- The TextChoices of accounts/models.py, scheduling/models.py and verification/models.py.
use fluxtrack_main.Prelude.{Bool, false, true}

pub data Modality : Type 0 where
  f2f blended online : Modality

pub data TermStatus : Type 0 where
  draft active archived : TermStatus

pub data ScheduleStatus : Type 0 where
  active archived : ScheduleStatus

pub data SessionStatus : Type 0 where
  scheduled active completed absent cancelled : SessionStatus

pub data CheckinMethod : Type 0 where
  qr_scan manual_code online_manual online_self force_handover merged : CheckinMethod

pub data ShiftStatus : Type 0 where
  pending approved rejected withdrawn denied : ShiftStatus

pub data Role : Type 0 where
  faculty checker ifo_admin hr_admin guard dean system_admin : Role

pub data DutyRole : Type 0 where
  checker guard : DutyRole

pub data Scope : Type 0 where
  floor online : Scope

-- The outcomes of verification/resolver.py.
pub data CheckerOutcome : Type 0 where
  off_duty wrong_floor no_session active_unverified already_verified absent_excluded :
      CheckerOutcome

pub data ValidationAction : Type 0 where
  verified flag_identity_mismatch flag_not_present verified_empty : ValidationAction

abbrev pub is_online : Modality → Bool
is_online Modality.online = true
is_online _ = false

abbrev pub is_active_term : TermStatus → Bool
is_active_term TermStatus.active = true
is_active_term _ = false

abbrev pub is_archived_term : TermStatus → Bool
is_archived_term TermStatus.archived = true
is_archived_term _ = false

abbrev pub is_draft_term : TermStatus → Bool
is_draft_term TermStatus.draft = true
is_draft_term _ = false

abbrev pub is_active_schedule : ScheduleStatus → Bool
is_active_schedule ScheduleStatus.active = true
is_active_schedule ScheduleStatus.archived = false

abbrev pub is_scheduled : SessionStatus → Bool
is_scheduled SessionStatus.scheduled = true
is_scheduled _ = false

abbrev pub is_active : SessionStatus → Bool
is_active SessionStatus.active = true
is_active _ = false

abbrev pub is_absent : SessionStatus → Bool
is_absent SessionStatus.absent = true
is_absent _ = false

abbrev pub is_cancelled : SessionStatus → Bool
is_cancelled SessionStatus.cancelled = true
is_cancelled _ = false

-- `status in _OCCUPYING_STATUSES`
abbrev pub is_occupying : SessionStatus → Bool
is_occupying SessionStatus.scheduled = true
is_occupying SessionStatus.active = true
is_occupying _ = false

abbrev pub is_pending : ShiftStatus → Bool
is_pending ShiftStatus.pending = true
is_pending _ = false

abbrev pub is_approved : ShiftStatus → Bool
is_approved ShiftStatus.approved = true
is_approved _ = false

abbrev pub is_ifo_admin : Role → Bool
is_ifo_admin Role.ifo_admin = true
is_ifo_admin _ = false

abbrev pub is_dean : Role → Bool
is_dean Role.dean = true
is_dean _ = false

abbrev pub is_hr_admin : Role → Bool
is_hr_admin Role.hr_admin = true
is_hr_admin _ = false

abbrev pub is_verified : ValidationAction → Bool
is_verified ValidationAction.verified = true
is_verified _ = false
