-- ===== src/Duty.antt =====
-- verification/resolver.py: the checker's scan, who is on duty, and the round robin of online sessions.
pub mod Scan
pub mod RoundRobin
pub mod Assign
use fluxtrack_main.Calendar.{Date, TimeOfDay}
use fluxtrack_main.Model.{
  Assignment, CheckerOutcome, SessionStatus, absent_excluded, active_unverified, already_verified,
  is_absent, is_scheduled, no_session, off_duty, wrong_floor,
}
use fluxtrack_main.Prelude.{
  Bool, List, Option, [], false, if_some, if◌then◌else◌, leb, length, none, not, some, suc, true,
  zero, ℕ, ◌%◌, ◌&&◌, ◌==◌, ◌∷◌,
}
use fluxtrack_main.Prelude.Unique.{has_key}

-- `ACTIONABLE`
abbrev pub is_actionable : CheckerOutcome → Bool
is_actionable active_unverified = true
is_actionable no_session = true
is_actionable _ = false

-- The value object that the scan reads of the room's session.
pub record SessionState : Type 0 where
  pub id : ℕ
  pub status : SessionStatus
  pub verified : Bool

pub record CheckerResolution : Type 0 where
  pub outcome : CheckerOutcome
  pub session_id : Option ℕ
  pub actionable : Bool

-- `CheckerResolution(outcome, session_id)`, with `__post_init__`.
abbrev pub checker_resolution : CheckerOutcome → Option ℕ → CheckerResolution
checker_resolution outcome k = record {
  outcome = outcome;
  session_id = k;
  actionable = is_actionable outcome;
}

-- The session's part of the decision.
state_scan : Option SessionState → CheckerResolution
state_scan none = checker_resolution no_session none
state_scan (some s) =
    if is_scheduled s.status
    then checker_resolution no_session none
    else if is_absent s.status
    then checker_resolution absent_excluded (some s.id)
    else if s.verified
    then checker_resolution already_verified (some s.id)
    else checker_resolution active_unverified (some s.id)

unfoldable pub resolve_checker_scan : List ℕ → ℕ → Option SessionState → CheckerResolution
unfolding state_scan
resolve_checker_scan [] at state = checker_resolution off_duty none
resolve_checker_scan (f ∷ fs) at state =
    if not (has_key (f ∷ fs) at) then checker_resolution wrong_floor none else state_scan state

-- `x is None or x <= t`, `x is None or t <= x`
abbrev not_before : Option TimeOfDay → TimeOfDay → Bool
not_before none t = true
not_before (some x) t = leb x t

abbrev not_after : Option TimeOfDay → TimeOfDay → Bool
not_after none t = true
not_after (some x) t = leb t x

abbrev covers_on : Option Date → Assignment → Date → TimeOfDay → Bool
covers_on none a today now_t = true
covers_on (some d) a today now_t =
    if d == today then not_before a.start_time now_t && not_after a.end_time now_t else false

unfoldable pub assignment_covers_now : Assignment → Date → TimeOfDay → Bool
assignment_covers_now a today now_t = covers_on a.date a today now_t

-- A Python dict, in the order of the first insertions.
abbrev pub Dict : Type 0
Dict = List (ℕ × ℕ)

pub dict_set : ℕ → ℕ → Dict → Dict
dict_set k v [] = (k, v) ∷ []
dict_set k v (row ∷ rest) =
    let others = dict_set k v rest in if row.0 == k then (k, v) ∷ rest else row ∷ others

abbrev pub nth : List ℕ → ℕ → Option ℕ
nth [] i = none
nth (x ∷ xs) zero = some x
nth (x ∷ xs) (suc i) = nth xs i

-- The dict comprehension over `enumerate(session_ids)`, from the i-th session on.
pub hand_out : List ℕ → ℕ → List ℕ → Dict → Dict
unfolding dict_set
hand_out checkers i [] d = d
hand_out checkers i (s ∷ ss) d =
    hand_out checkers (suc i) ss
      (if_some (nth checkers (i % length checkers)) (λ c. dict_set s c d) d)

unfoldable pub distribute_online_sessions : List ℕ → List ℕ → Dict
unfolding hand_out
distribute_online_sessions session_ids [] = []
distribute_online_sessions session_ids (c ∷ cs) = hand_out (c ∷ cs) 0 session_ids []
