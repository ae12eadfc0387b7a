-- ===== src/Scanning/Pages.antt =====
-- web/scan.py, `resolve` and `confirm`: the answer to a scan, and to its confirmation.
use fluxtrack_main.Calendar.{Instant, local_date}
use fluxtrack_main.Duty.Assign.{order_by_start}
use fluxtrack_main.Effects.{Action, Result, err, get_or_raise, gets, ok, pure, ◌>>=◌}
use fluxtrack_main.Model.{
  AcademicTerm, CheckinMethod, Database, Room, Session, early_end_threshold_minutes, grace_minutes,
  is_active, scan_bad_manual_code, scan_rate_limited,
}
use fluxtrack_main.Ops.{get_active_term, get_policy, in_term}
use fluxtrack_main.Prelude.{
  Bool, List, Option, String, false, filter, find, if_some, if◌then◌else◌, is_none, none, not, some,
  true, ℕ, ◌&&◌, ◌==◌, ◌∷◌,
}
use fluxtrack_main.Resolver.{
  Resolution, ScanOutcome, ScanQuery, needs_confirm, resolve_faculty_scan,
}
use fluxtrack_main.Scanning.{Scan, apply, key_of}
use fluxtrack_main.Web.{
  Cache, Lookup, ScanMark, Site, Source, bad_payload, found, minute_of, rate_limited,
  room_from_payload, scan_rl,
}

-- The data that a confirmation token signs.
pub record ConfirmData : Type 0 where
  pub outcome : ScanOutcome
  pub session_id : Option ℕ
  pub prior_session_id : Option ℕ
  pub room_id : ℕ
  pub method : CheckinMethod
  pub user_id : ℕ

-- What the page shows: an error, a resolution, or one with a token to confirm.
pub data Reply : Type 0 where
  failed : Lookup → Reply
  out_of_service : Reply
  shown repeated : Resolution → Reply
  to_confirm : Resolution → ConfirmData → Reply
  confirmed : Resolution → Reply
  bad_request : Reply

abbrev pub sessions_today : ℕ → Instant → AcademicTerm → Database → List Session
sessions_today user now term db =
    order_by_start (
      filter (λ s. s.faculty_id == user && (s.date == local_date now && in_term term s))
        db.sessions)

-- A session of another member that is active, still holds the room, and is of the term.
abbrev pub holds_room : ℕ → Room → AcademicTerm → Session → Bool
holds_room user room term s =
    s.room.id == room.id
    && (is_active s.status
        && (is_none s.room_released_at && (in_term term s && not (s.faculty_id == user))))

abbrev pub occupying : ℕ → Room → AcademicTerm → Database → Option ℕ
occupying user room term db = key_of (find (holds_room user room term) db.sessions)

unfoldable pub scan_query : ℕ → Instant → Room → AcademicTerm → Database → ScanQuery
unfolding get_policy order_by_start
scan_query user now room term db = record {
  sessions_today = sessions_today user now term db;
  scanned_room_id = room.id;
  occupying_session_id = occupying user room term db;
  now = now;
  grace_min = get_policy grace_minutes db;
  early_end_min = get_policy early_end_threshold_minutes db;
  open_min = 15;
}

abbrev outcome_number : ScanOutcome → ℕ
outcome_number ScanOutcome.checked_in = 0
outcome_number ScanOutcome.checked_out = 1
outcome_number ScanOutcome.absent = 2
outcome_number ScanOutcome.too_early = 3
outcome_number ScanOutcome.wrong_room = 4
outcome_number ScanOutcome.room_occupied = 5
outcome_number ScanOutcome.early_end = 6
outcome_number ScanOutcome.online_reject = 7
outcome_number ScanOutcome.no_schedule = 8

abbrev pub same_outcome : ScanOutcome → ScanOutcome → Bool
same_outcome a b = outcome_number a == outcome_number b

abbrev pub is_mark_of : ℕ → ℕ → ℕ → ScanMark → Bool
is_mark_of user k minute m = m.user_id == user && (m.session_id == k && m.minute == minute)

-- `cache.get(idem) != resolution.outcome` is false. The newest mark of a key is its value.
abbrev pub is_repeated : ℕ → ℕ → ℕ → ScanOutcome → Cache → Bool
is_repeated user k minute o cache =
    if_some (find (is_mark_of user k minute) cache.scans) (λ m. same_outcome m.outcome o) false

-- `cache.set(idem, resolution.outcome)`
abbrev pub mark_scan : ℕ → ℕ → ℕ → ScanOutcome → Cache → Cache
mark_scan user k minute o cache = record cache {
  scans = record { user_id = user; session_id = k; minute = minute; outcome = o } ∷ cache.scans;
}

abbrev applied_reply : Bool → Resolution → Reply
applied_reply true r = shown r
applied_reply false r = failed bad_payload

-- What follows `_apply`: the mark, unless it raised.
abbrev pub finish_scan :
    ℕ → ℕ → ℕ → Resolution → Cache → Result Bool × Database → Result Reply × Site
finish_scan user k minute r cache (ok b, db) =
    (ok (applied_reply b r), record { db = db; cache = mark_scan user k minute r.outcome cache })
finish_scan user k minute r cache (err e, db) = (err e, record { db = db; cache = cache })

abbrev pub faculty_source : Source
faculty_source = record {
  limiter = scan_rl;
  limited = scan_rate_limited;
  unknown_code = scan_bad_manual_code;
}

module _ (user : ℕ) (now : Instant) where
  abbrev pub scan_of : Room → CheckinMethod → String → Scan
  scan_of room method reason = record {
    user = user;
    now = now;
    room = room;
    method = method;
    reason = reason;
  }

  abbrev pub confirm_data : Room → CheckinMethod → Resolution → ConfirmData
  confirm_data room method r = record {
    outcome = r.outcome;
    session_id = r.session_id;
    prior_session_id = r.prior_session_id;
    room_id = room.id;
    method = method;
    user_id = user;
  }

  unfoldable pub settle_session : Room → CheckinMethod → Resolution → ℕ → Site → Result Reply × Site
  settle_session room method r k site =
      if is_repeated user k (minute_of now) r.outcome site.cache
      then (ok (repeated r), site)
      else finish_scan user k (minute_of now) r site.cache
          (apply (scan_of room method "") r site.db)

  -- Confirmed outcomes wait for their token, the others are applied once.
  unfoldable pub settle : Room → CheckinMethod → Resolution → Site → Result Reply × Site
  settle room method r site =
      if needs_confirm r.outcome
      then (ok (to_confirm r (confirm_data room method r)), site)
      else if_some r.session_id (λ k. settle_session room method r k site) (ok (shown r), site)

  unfoldable pub scan_room : Room → CheckinMethod → Site → Result Reply × Site
  scan_room room method site =
      if room.out_of_service
      then (ok out_of_service, site)
      else if_some (get_active_term site.db)
          (λ term.
            settle room method (resolve_faculty_scan (scan_query user now room term site.db)) site)
          (ok (failed bad_payload), site)

  unfoldable pub scan_lookup : Lookup → Site → Result Reply × Site
  scan_lookup (found room method) site = scan_room room method site
  scan_lookup (Lookup.unknown method) site = (ok (failed (Lookup.unknown method)), site)
  scan_lookup rate_limited site = (ok (failed rate_limited), site)
  scan_lookup bad_payload site = (ok (failed bad_payload), site)

  unfoldable pub resolve : (String → Option String) → String → Site → Result Reply × Site
  resolve query_token payload site =
      let (lookup, after) = room_from_payload query_token faculty_source user now payload site in
      scan_lookup lookup after

  abbrev resolution_of : ConfirmData → Resolution
  resolution_of d = record {
    outcome = d.outcome;
    session_id = d.session_id;
    prior_session_id = d.prior_session_id;
  }

  abbrev confirm_reply : ConfirmData → Bool → Reply
  confirm_reply d true = confirmed (resolution_of d)
  confirm_reply d false = failed bad_payload

  -- `signing.loads` gives the data of a token that is genuine and young enough.
  unfoldable pub confirm : Option ConfirmData → String → Action Reply
  confirm none reason = pure bad_request
  confirm (some d) reason = if not (d.user_id == user) then pure bad_request else (do
    row ← gets (λ db. find (λ r. r.id == d.room_id) db.rooms)
    room ← get_or_raise row
    b ← apply (scan_of room d.method reason) (resolution_of d)
    pure (confirm_reply d b))
