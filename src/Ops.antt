-- ===== src/Ops.antt =====
-- ops/policy.py, ops/notify.py, ops/occupancy.py and the writes to the audit log that the services
-- share, with scheduling/term_scope.py.
pub mod Flips
use fluxtrack_main.Calendar.{Instant}
use fluxtrack_main.Effects.{
  Action, archived_term, err, get_or_raise, gets, no_active_term, ok, pure, throw, ◌>>=◌, ◌>>◌,
}
use fluxtrack_main.Model.{
  AcademicTerm, AuditEvent, Database, NotificationType, PolicyKey, Role, Session,
  early_end_threshold_minutes, grace_minutes, is_active_term, is_archived_term, is_ifo_admin,
  manual_code_rate_limit_per_min, materialization_horizon_days, modality_shift_lead_days,
  room_released,
}
use fluxtrack_main.Prelude.{
  Bool, List, Option, [], filter, find, if_some, if◌then◌else◌, map, some, ℕ, ◌&&◌, ◌++◌, ◌==◌, ◌∷◌,
}
use fluxtrack_main.Prelude.Unique.{IsUnique, has_key}
use fluxtrack_main.Prelude.Update.{update}

abbrev default_policy : PolicyKey → ℕ
default_policy grace_minutes = 15
default_policy early_end_threshold_minutes = 15
default_policy manual_code_rate_limit_per_min = 5
default_policy materialization_horizon_days = 14
default_policy modality_shift_lead_days = 2

policy_number : PolicyKey → ℕ
policy_number grace_minutes = 0
policy_number early_end_threshold_minutes = 1
policy_number manual_code_rate_limit_per_min = 2
policy_number materialization_horizon_days = 3
policy_number modality_shift_lead_days = 4

-- A SystemSetting row overrides the default. Its value here is a number that `int` has read.
unfoldable pub get_policy : PolicyKey → Database → ℕ
unfolding policy_number
get_policy key db =
    if_some (find (λ row. policy_number row.0 == policy_number key) db.settings) (λ row. row.1)
      (default_policy key)

-- `AuditLog.objects.create(...)`
unfoldable pub log : Option ℕ → AuditEvent → Option ℕ → Database → Database
log actor event target db = record db {
  audit = db.audit ++ record { actor = actor; event = event; target_id = target } ∷ [];
}

-- `AuditLog.objects.bulk_create([... for pk in ids])`
unfoldable pub log_each : Option ℕ → AuditEvent → List ℕ → Database → Database
log_each actor event ids db = record db {
  audit = db.audit ++ map (λ k. record { actor = actor; event = event; target_id = some k }) ids;
}

-- The active users of a role.
abbrev pub role_members : (Role → Bool) → Database → List ℕ
role_members is_role db = map (λ u. u.id) (filter (λ u. is_role u.role && u.user_active) db.users)

-- `notify(users=[...], ...)`: one row for each recipient.
unfoldable pub notify_users : List ℕ → NotificationType → Database → Database
notify_users users kind db = record db {
  notifications = db.notifications ++ map (λ u. record { user_id = u; type = kind }) users;
}

-- `notify(role=Role.IFO_ADMIN, ...)`
unfoldable pub notify_ifo : NotificationType → Database → Database
unfolding notify_users
notify_ifo kind db = notify_users (role_members is_ifo_admin db) kind db

unfoldable pub update_sessions : (Session → Bool) → (Session → Session) → Database → Database
update_sessions test change db = record db { sessions = update test change db.sessions }

-- `session.save(update_fields=...)`, for the row with the session's key.
unfoldable pub save_session : ℕ → (Session → Session) → Database → Database
unfolding update_sessions
save_session k change db = update_sessions (λ s. s.id == k) change db

-- `values_list("pk", flat=True)`
abbrev pub keys : List Session → List ℕ
keys rows = map (λ s. s.id) rows

-- Primary keys of the sessions are unique.
abbrev pub HasKeys : Database → Type 0
HasKeys db = IsUnique (keys db.sessions)

-- `filter(pk__in=ids).update(...)` and one audit row for each key.
abbrev pub flip_once : (Session → Session) → AuditEvent → Option ℕ → List ℕ → Database → Database
flip_once change event actor ids db =
    log_each actor event ids (update_sessions (λ s. has_key ids s.id) change db)

abbrev pub session_by_id : ℕ → Database → Option Session
session_by_id k db = find (λ s. s.id == k) db.sessions

abbrev pub term_by_id : ℕ → Database → Option AcademicTerm
term_by_id k db = find (λ t. t.id == k) db.terms

-- The ACTIVE term. The database allows one at most.
abbrev pub get_active_term : Database → Option AcademicTerm
get_active_term db = find (λ t. is_active_term t.status) db.terms

-- `schedule__term=term`
abbrev pub in_term : AcademicTerm → Session → Bool
in_term t s = s.schedule.term_id == t.id

unfoldable pub require_active_term : Action AcademicTerm
require_active_term db = if_some (get_active_term db) (λ t. (ok t, db)) (err no_active_term, db)

unfoldable pub require_writable_term : AcademicTerm → Action AcademicTerm
require_writable_term t = if is_archived_term t.status then throw archived_term else pure t

-- The term row, locked, and refused if it is archived.
unfoldable pub lock_writable_term : ℕ → Action AcademicTerm
unfolding require_writable_term
lock_writable_term k = do
  found ← gets (term_by_id k)
  t ← get_or_raise found
  require_writable_term t

-- ops/occupancy.py: the only writer of `room_released_at`, and of its audit row.
unfoldable pub release_room : ℕ → Option ℕ → Instant → Database → Database
unfolding save_session log
release_room k actor now db =
    log actor room_released (some k)
      (save_session k (λ s. record s { room_released_at = some now }) db)
