-- ===== src/Scanning/Silent.antt =====
-- What a scan that is not answered by an applied outcome leaves alone.
use fluxtrack_main.Calendar.{Instant}
use fluxtrack_main.Effects.{Error, Result, err, ok}
use fluxtrack_main.Model.{CheckinMethod, Database, Room}
use fluxtrack_main.Ops.{get_active_term, log}
use fluxtrack_main.Prelude.{
  Bool, Bool-cases, Option, Option-cases, String, false, if_some, if◌then◌else◌, inl, inr, none,
  refl, some, true, ℕ, ◌≡◌, ◌⊎◌,
}
use fluxtrack_main.Resolver.{Resolution, needs_confirm, resolve_faculty_scan}
use fluxtrack_main.Scanning.{apply}
use fluxtrack_main.Scanning.Pages.{
  Reply, faculty_source, finish_scan, is_repeated, resolve, scan_lookup, scan_of, scan_query,
  scan_room, settle, settle_session, shown,
}
use fluxtrack_main.Scanning.Undone.{apply-cases}
use fluxtrack_main.Terms.Names.{strip}
use fluxtrack_main.Web.{
  Lookup, Site, Source, bad_payload, code_room, found, is_manual_code, is_over_limit, minute_of,
  rate_limited, room_by_code, room_from_payload, take_attempt,
}

abbrev pub is_shown : Result Reply → Bool
is_shown (ok (shown r)) = true
is_shown (ok _) = false
is_shown (err e) = false

-- Nothing but the audit log differs.
abbrev pub IsQuiet : Database → Database → Type 0
IsQuiet before after = after ≡ record before { audit = after.audit }

pub room_from_payload-IsQuiet :
    (query_token : String → Option String) (source : Source) (user : ℕ) (now : Instant)
    (payload : String) (site : Site)
    → IsQuiet site.db (room_from_payload query_token source user now payload site).1.db
unfolding room_from_payload take_attempt code_room log
room_from_payload-IsQuiet query_token source user now payload site =
    elim (Option-cases (query_token (strip payload))) [
      | inr (t, e) ↦ rw e refl
      | inl e ↦ elim (Bool-cases (is_manual_code (strip payload))) [
        | inr f ↦ rw (e, f) refl
        | inl f ↦ elim (Bool-cases (is_over_limit source.limiter user now site)) [
          | inl g ↦ rw (e, f, g) refl
          | inr g ↦ elim (Option-cases (room_by_code (strip payload) site.db)) [
            | inl k ↦ rw (e, f, g, k) refl
            | inr (room, k) ↦ rw (e, f, g, k) refl
          ]
        ]
      ]
    ]

-- A run that is not answered by an applied outcome leaves this database.
abbrev Leaves : Database → Result Reply × Site → Type 0
Leaves db run = is_shown run.0 ≡ false → run.1.db ≡ db

Leaves-if :
    (db : Database) (b : Bool) (x y : Result Reply × Site)
    → Leaves db x
    → Leaves db y
    → Leaves db (if b then x else y)
Leaves-if db true x y h k = h
Leaves-if db false x y h k = k

Leaves-some :
    {A : Type 0} (db : Database) (o : Option A) (f : A → Result Reply × Site)
    (x : Result Reply × Site)
    → ((a : A) → Leaves db (f a))
    → Leaves db x
    → Leaves db (if_some o f x)
Leaves-some db none f x h k = k
Leaves-some db (some a) f x h k = h a

module _ (user : ℕ) (now : Instant) (site : Site) where
  Leaves-finish :
      (k : ℕ) (r : Resolution) (run : Result Bool × Database)
      → ((e : Error) × (run ≡ (err e, site.db)))
        ⊎ (run ≡ (ok false, site.db))
        ⊎ ((after : Database) × (run ≡ (ok true, after)))
      → Leaves site.db (finish_scan user k (minute_of now) r site.cache run)
  Leaves-finish k r run (inl (e, p)) = rw p (λ h. refl)
  Leaves-finish k r run (inr (inl p)) = rw p (λ h. refl)
  Leaves-finish k r run (inr (inr (after, p))) = rw p (λ h. cc)

  settle-Leaves :
      (room : Room) (method : CheckinMethod) (r : Resolution)
      → Leaves site.db (settle user now room method r site)
  unfolding settle settle_session
  settle-Leaves room method r =
      Leaves-if site.db (needs_confirm r.outcome) _ _ (λ h. refl)
        (Leaves-some site.db r.session_id _ _
          (λ k.
            Leaves-if site.db (is_repeated user k (minute_of now) r.outcome site.cache) _ _
              (λ h. refl)
              (Leaves-finish k r (apply (scan_of user now room method "") r site.db)
                (apply-cases (scan_of user now room method "") r site.db)))
          (λ h. refl))

  scan_lookup-Leaves : (lookup : Lookup) → Leaves site.db (scan_lookup user now lookup site)
  unfolding scan_lookup scan_room
  scan_lookup-Leaves (found room method) =
      Leaves-if site.db room.out_of_service _ _ (λ h. refl)
        (Leaves-some site.db (get_active_term site.db) _ _
          (λ term.
            settle-Leaves room method
              (resolve_faculty_scan (scan_query user now room term site.db)))
          (λ h. refl))
  scan_lookup-Leaves (Lookup.unknown method) = λ h. refl
  scan_lookup-Leaves rate_limited = λ h. refl
  scan_lookup-Leaves bad_payload = λ h. refl

module _ (user : ℕ) (now : Instant) where
  -- A scan that ends in an error page, a refused room, a confirmation to be given, a repetition within
  -- the minute or an exception changes no table but the audit log.
  pub resolve-IsQuiet :
      (query_token : String → Option String) (payload : String) (site : Site)
      → is_shown (resolve user now query_token payload site).0 ≡ false
      → IsQuiet site.db (resolve user now query_token payload site).1.db
  unfolding resolve
  resolve-IsQuiet query_token payload site h =
      let (lookup, after) = room_from_payload query_token faculty_source user now payload site in
      let quiet = room_from_payload-IsQuiet query_token faculty_source user now payload site in
      rw (scan_lookup-Leaves user now after lookup h) quiet
