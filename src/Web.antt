-- ===== src/Web.antt =====
-- What web/scan.py and web/checker.py share: the state that a request sees, the limit on manual codes,
-- and the room of a payload. The cache is that of django.core.cache, which keeps an entry for its whole
-- timeout; each key holds its minute, and the timeouts are longer than a minute.
pub mod Limits
use Prim.Native.Char.{Char, code}
use text.Mathlib.Text.{◌==◌ as str_eq}
use fluxtrack_main.Calendar.{Instant, minutes}
use fluxtrack_main.Model.{
  AuditEvent, CheckinMethod, Database, Room, ValidationAction, manual_code,
  manual_code_rate_limit_per_min, qr_scan,
}
use fluxtrack_main.Ops.{get_policy, log}
use fluxtrack_main.Prelude.{
  Bool, List, Option, String, [], any, false, find, if_some, if◌then◌else◌, is_none, leb, none,
  some, suc, true, zero, ℕ, ◌&&◌, ◌+◌, ◌/◌, ◌==◌, ◌∷◌,
}
use fluxtrack_main.Resolver.{ScanOutcome}
use fluxtrack_main.Terms.Names.{strip}

-- `f"{now:%Y%m%d%H%M}"`
abbrev pub minute_of : Instant → ℕ
minute_of now = now / minutes 1

-- The prefixes `scan-rl`, `checker-rl` and `checker-replay-rl`.
pub data Limiter : Type 0 where
  scan_rl checker_rl checker_replay_rl : Limiter

abbrev pub limiter_number : Limiter → ℕ
limiter_number scan_rl = 0
limiter_number checker_rl = 1
limiter_number checker_replay_rl = 2

-- `scan-idem:user:session:minute`, with the outcome that it holds.
pub record ScanMark : Type 0 where
  pub user_id : ℕ
  pub session_id : ℕ
  pub minute : ℕ
  pub outcome : ScanOutcome

-- `checker-idem:user:scope:action:minute`
pub record CheckMark : Type 0 where
  pub checker : ℕ
  pub scope : ℕ
  pub action : ValidationAction
  pub minute : ℕ

-- The attempts of a limiter, a user and a minute; an entry that is not there reads as 0.
pub record Cache : Type 0 where
  pub attempts : Limiter → ℕ → ℕ → ℕ
  pub scans : List ScanMark
  pub checks : List CheckMark

pub record Site : Type 0 where
  pub db : Database
  pub cache : Cache

abbrev pub is_attempt : Limiter → ℕ → ℕ → Limiter → ℕ → ℕ → Bool
is_attempt l user minute l' user' minute' =
    limiter_number l == limiter_number l' && (user == user' && minute == minute')

-- `cache.incr(key)`
abbrev pub incr : Limiter → ℕ → ℕ → Cache → Cache
incr l user minute cache = record cache {
  attempts = λ l' user' minute'.
      if is_attempt l user minute l' user' minute'
      then cache.attempts l' user' minute' + 1
      else cache.attempts l' user' minute';
}

-- `count >= limit`, for the key of the current minute.
unfoldable pub is_over_limit : Limiter → ℕ → Instant → Site → Bool
unfolding get_policy
is_over_limit l user now site =
    leb (get_policy manual_code_rate_limit_per_min site.db)
      (site.cache.attempts l user (minute_of now))

-- A request of one of the 1000000 codes, if the limit grants it.
unfoldable pub take_attempt : Limiter → ℕ → Instant → Site → Bool × Site
unfolding is_over_limit
take_attempt l user now site =
    if is_over_limit l user now site
    then (false, site)
    else (true, record site { cache = incr l user (minute_of now) site.cache })

-- The zeros of the decimal digits, the category Nd of Unicode 15: each begins ten of them.
abbrev decimal_zeros : List ℕ
decimal_zeros =
    48 ∷ 1632 ∷ 1776 ∷ 1984 ∷ 2406 ∷ 2534 ∷ 2662 ∷ 2790 ∷ 2918 ∷ 3046 ∷ 3174 ∷ 3302 ∷ 3430 ∷ 3558
    ∷ 3664 ∷ 3792 ∷ 3872 ∷ 4160 ∷ 4240 ∷ 6112 ∷ 6160 ∷ 6470 ∷ 6608 ∷ 6784 ∷ 6800 ∷ 6992 ∷ 7088
    ∷ 7232 ∷ 7248 ∷ 42528 ∷ 43216 ∷ 43264 ∷ 43472 ∷ 43504 ∷ 43600 ∷ 44016 ∷ 65296 ∷ 66720 ∷ 68912
    ∷ 69734 ∷ 69872 ∷ 69942 ∷ 70096 ∷ 70384 ∷ 70736 ∷ 70864 ∷ 71248 ∷ 71360 ∷ 71472 ∷ 71904 ∷ 72016
    ∷ 72784 ∷ 73040 ∷ 73120 ∷ 73552 ∷ 92768 ∷ 92864 ∷ 93008 ∷ 120782 ∷ 120792 ∷ 120802 ∷ 120812
    ∷ 120822 ∷ 123200 ∷ 123632 ∷ 124144 ∷ 125264 ∷ 130032 ∷ []

abbrev pub is_digit : Char → Bool
is_digit c = any (λ zero_code. leb zero_code (code c) && leb (code c) (zero_code + 9)) decimal_zeros

-- `re.fullmatch(r"\d{6}", s)`
unfoldable pub is_digits : ℕ → String → Bool
is_digits zero String.[] = true
is_digits zero (String.◌∷◌ c s) = false
is_digits (suc n) String.[] = false
is_digits (suc n) (String.◌∷◌ c s) = is_digit c && is_digits n s

unfoldable pub is_manual_code : String → Bool
unfolding is_digits
is_manual_code s = is_digits 6 s

-- `Room.objects.filter(qr_token=token).first()`, and by the manual code.
abbrev pub room_by_token : String → Database → Option Room
room_by_token token db = find (λ r. str_eq r.qr_token token) db.rooms

abbrev pub room_by_code : String → Database → Option Room
room_by_code s db = find (λ r. str_eq r.manual_code s) db.rooms

-- The pair `(room, method)`, or why there is no room.
pub data Lookup : Type 0 where
  found : Room → CheckinMethod → Lookup
  unknown : CheckinMethod → Lookup
  rate_limited bad_payload : Lookup

abbrev lookup_of : CheckinMethod → Option Room → Lookup
lookup_of m none = unknown m
lookup_of m (some room) = found room m

abbrev write_log : ℕ → AuditEvent → Site → Site
unfolding log
write_log user event site = record site { db = log (some user) event none site.db }

-- What the two modules name differently: the prefix of the keys and the events of the audit log.
pub record Source : Type 0 where
  pub limiter : Limiter
  pub limited : ℕ → AuditEvent
  pub unknown_code : AuditEvent

unfoldable pub code_room : Source → ℕ → String → Site → Lookup × Site
unfolding log
code_room source user payload site =
    let room = room_by_code payload site.db in
    (
      lookup_of manual_code room,
      if is_none room then write_log user source.unknown_code site else site,
    )

-- `urlparse` and `parse_qs` are a parameter: the first value of `t` in the query, if the payload holds
-- "t=" and there is one.
module _ (query_token : String → Option String) where
  unfoldable pub room_from_payload : Source → ℕ → Instant → String → Site → Lookup × Site
  unfolding take_attempt code_room is_manual_code log
  room_from_payload source user now raw site =
      let payload = strip raw in
      if_some (query_token payload)
        (λ token. (lookup_of qr_scan (room_by_token token site.db), site))
        (if is_manual_code payload
          then (let (granted, after) = take_attempt source.limiter user now site in
              if granted then code_room source user payload after else (
                rate_limited,
                write_log user
                    (source.limited (site.cache.attempts source.limiter user (minute_of now) + 1))
                    site,
              ))
          else (bad_payload, site))
