-- ===== src/Scanning/Life.antt =====
-- Every scan moves sessions forward only.
use mathlib.Core.Path.{subst}
use fluxtrack_main.Calendar.{Instant}
use fluxtrack_main.Effects.{Result, err, ok}
use fluxtrack_main.Model.{Database}
use fluxtrack_main.Ops.{HasKeys, get_active_term}
use fluxtrack_main.Prelude.{
  Bool, Option, String, ap, false, if_some, if◌then◌else◌, none, refl, some, true, ℕ, ◌≡◌,
}
use fluxtrack_main.Resolver.{Resolution, needs_confirm, resolve_faculty_scan}
use fluxtrack_main.Scanning.{apply}
use fluxtrack_main.Scanning.Answer.{apply-AllForward}
use fluxtrack_main.Scanning.Forward.{AllForward, AllForward-refl}
use fluxtrack_main.Scanning.Pages.{
  Reply, faculty_source, finish_scan, is_repeated, resolve, scan_lookup, scan_of, scan_query,
  scan_room, settle, settle_session,
}
use fluxtrack_main.Scanning.Silent.{room_from_payload-IsQuiet}
use fluxtrack_main.Web.{
  Lookup, Site, bad_payload, found, minute_of, rate_limited, room_from_payload,
}

abbrev Advances : Database → Result Reply × Site → Type 0
Advances db run = AllForward db.sessions run.1.db.sessions

Advances-if :
    (db : Database) (b : Bool) (x y : Result Reply × Site)
    → (b ≡ true → Advances db x)
    → (b ≡ false → Advances db y)
    → Advances db (if b then x else y)
Advances-if db true x y h k = h refl
Advances-if db false x y h k = k refl

Advances-some :
    {A : Type 0} (db : Database) (o : Option A) (f : A → Result Reply × Site)
    (x : Result Reply × Site)
    → ((a : A) → o ≡ some a → Advances db (f a))
    → Advances db x
    → Advances db (if_some o f x)
Advances-some db none f x h k = k
Advances-some db (some a) f x h k = h a refl

module _ (user : ℕ) (now : Instant) (site : Site) (unique : HasKeys site.db) where
  Advances-finish :
      (k : ℕ) (r : Resolution) (run : Result Bool × Database)
      → AllForward site.db.sessions run.1.sessions
      → Advances site.db (finish_scan user k (minute_of now) r site.cache run)
  Advances-finish k r (ok b, after) h = h
  Advances-finish k r (err e, after) h = h

  scan_lookup-Advances : (lookup : Lookup) → Advances site.db (scan_lookup user now lookup site)
  unfolding scan_lookup scan_room settle settle_session
  scan_lookup-Advances (found room method) =
      Advances-if site.db room.out_of_service _ _ (λ _. AllForward-refl site.db.sessions)
        (λ _.
          Advances-some site.db (get_active_term site.db) _ _
            (λ term active.
              let r = resolve_faculty_scan (scan_query user now room term site.db) in
              Advances-if site.db (needs_confirm r.outcome) _ _
                (λ _. AllForward-refl site.db.sessions)
                (λ direct.
                  Advances-some site.db r.session_id _ _
                    (λ k _.
                      Advances-if site.db (is_repeated user k (minute_of now) r.outcome site.cache)
                        _ _ (λ _. AllForward-refl site.db.sessions)
                        (λ _.
                          Advances-finish k r (apply (scan_of user now room method "") r site.db) (
                            apply-AllForward user now room term site.db unique
                              (scan_of user now room method "") active direct)))
                    (AllForward-refl site.db.sessions)))
            (AllForward-refl site.db.sessions))
  scan_lookup-Advances (Lookup.unknown method) = AllForward-refl site.db.sessions
  scan_lookup-Advances rate_limited = AllForward-refl site.db.sessions
  scan_lookup-Advances bad_payload = AllForward-refl site.db.sessions

-- Where the keys of the sessions are unique, a scan with any payload leaves each session's status as it
-- was or moves it forward: SCHEDULED to anything but CANCELLED, and ACTIVE to COMPLETED. So a session
-- that is completed, absent or cancelled stays so.
pub resolve-AllForward :
    (user : ℕ) (now : Instant) (query_token : String → Option String) (payload : String)
    (site : Site)
    → HasKeys site.db
    → AllForward site.db.sessions (resolve user now query_token payload site).1.db.sessions
unfolding resolve
resolve-AllForward user now query_token payload site unique =
    let (lookup, after) = room_from_payload query_token faculty_source user now payload site in
    let same : after.db.sessions ≡ site.db.sessions =
      ap (λ d. d.sessions)
        (room_from_payload-IsQuiet query_token faculty_source user now payload site) in
    subst (λ rows. AllForward rows (scan_lookup user now lookup after).1.db.sessions) same
      (scan_lookup-Advances user now after (rw same unique) lookup)
