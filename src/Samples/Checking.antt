-- ===== src/Samples/Checking.antt =====
-- Scans and checks of the sample campus, with a checker on the first floor.
use fluxtrack_main.Checker.{applied_page, apply_action, gate, verified_by_checker}
use fluxtrack_main.Checker.Actions.{ActionForm, action, missing, number}
use fluxtrack_main.Checker.Authority.{IsAuthorized, action-IsAuthorized}
use fluxtrack_main.Checker.Board.{board_rows, floor_rows, floor_rows-coverage}
use fluxtrack_main.Checker.Replay.{ReplayItem, at_time, duplicate, replay, reported}
use fluxtrack_main.Checker.Replay.Twice.{replay_twice}
use fluxtrack_main.Effects.{ok}
use fluxtrack_main.Model.{
  Assignment, DutyRole, Scope, ValidationAction, applied, manual_code_rate_limit_per_min,
}
use fluxtrack_main.Ops.{get_policy}
use fluxtrack_main.Prelude.{
  List, Option, String, [], count, none, refl, some, true, ◌+◌, ◌-◌, ◌∷◌, ◌≡◌, ◌≤◌,
}
use fluxtrack_main.Samples.{at_minute, campus, campus-HasKeys}
use fluxtrack_main.Scanning.Forward.{AllForward}
use fluxtrack_main.Scanning.Life.{resolve-AllForward}
use fluxtrack_main.Scanning.Pages.{resolve, scan_lookup}
use fluxtrack_main.Scanning.Silent.{IsQuiet, resolve-IsQuiet}
use fluxtrack_main.Terms.Names.{strip}
use fluxtrack_main.Web.{Cache, Site, checker_rl, minute_of, room_from_payload, scan_rl}
use fluxtrack_main.Web.Limits.{Attempt, granted, granted_bound}

abbrev duty : Assignment
duty = record {
  user_id = 40;
  role = DutyRole.checker;
  floors = 1 ∷ [];
  scope = Scope.floor;
  date = none;
  start_time = none;
  end_time = none;
  term_id = some 1;
  is_active_assignment = true;
}

abbrev no_entries : Cache
no_entries = record { attempts = λ l user minute. 0; scans = []; checks = [] }

abbrev on_duty : Site
on_duty = record { db = record campus { assignments = duty ∷ [] }; cache = no_entries }

-- A payload is its own token.
abbrev as_token : String → Option String
as_token payload = some payload

-- No payload has a token.
abbrev no_token : String → Option String
no_token payload = none

resolve-AllForward_example :
    AllForward campus.sessions (resolve 10 (at_minute 490) as_token "q1" on_duty).1.db.sessions
resolve-AllForward_example =
    resolve-AllForward 10 (at_minute 490) as_token "q1" on_duty campus-HasKeys

resolve-IsQuiet_example :
    IsQuiet on_duty.db (resolve 10 (at_minute 490) no_token "000000" on_duty).1.db
unfolding resolve scan_lookup room_from_payload strip
resolve-IsQuiet_example = resolve-IsQuiet 10 (at_minute 490) no_token "000000" on_duty refl

abbrev tries : List Attempt
tries =
    record { limiter = scan_rl; user = 10; now = at_minute 490 }
    ∷ record { limiter = scan_rl; user = 10; now = at_minute 490 + 1 }
    ∷ record { limiter = checker_rl; user = 40; now = at_minute 490 }
    ∷ []

granted_bound_example :
    granted scan_rl 10 (minute_of (at_minute 490)) tries on_duty
    ≤ get_policy manual_code_rate_limit_per_min campus - 0
unfolding get_policy
granted_bound_example = granted_bound scan_rl 10 (minute_of (at_minute 490)) tries on_duty

-- The checker finds the hall's class.
abbrev form : ActionForm
form = record {
  action = some ValidationAction.verified;
  room_id = number 2;
  session_id = missing;
  note = "";
}

is_verified_hall : (action 40 (at_minute 500) form on_duty).0 ≡ ok applied_page
unfolding action gate apply_action
is_verified_hall = refl

action-IsAuthorized_example :
    IsAuthorized 40 (at_minute 500) form on_duty.db (action 40 (at_minute 500) form on_duty).1.db
action-IsAuthorized_example = action-IsAuthorized 40 (at_minute 500) form on_duty

floor_rows-coverage_example :
    ((floor_rows 40 (at_minute 500) on_duty.db).verified_count
      ≡ count (verified_by_checker on_duty.db) (board_rows 40 (at_minute 500) on_duty.db))
    × ((floor_rows 40 (at_minute 500) on_duty.db).verified_count
        ≤ (floor_rows 40 (at_minute 500) on_duty.db).total)
    × ((floor_rows 40 (at_minute 500) on_duty.db).coverage ≤ 100)
floor_rows-coverage_example = floor_rows-coverage 40 (at_minute 500) on_duty.db

-- A queue of one check of the hall.
abbrev queue : List ReplayItem
queue =
    record {
      client_uuid = some 7;
      token = "q2";
      session_id = number 3;
      action = some ValidationAction.verified;
      note = "";
      scanned_at = at_time (at_minute 495);
    }
    ∷ []

abbrev after_queue : Site
after_queue = (replay 40 (at_minute 500) queue on_duty).1

replay_twice_example :
    replay 41 (at_minute 600) queue after_queue ≡ (ok (duplicate 7 ∷ []), after_queue)
unfolding replay
replay_twice_example =
    replay_twice 40 (at_minute 500) queue on_duty after_queue (reported 7 applied ∷ []) refl 41
      (at_minute 600)
