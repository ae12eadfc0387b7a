-- ===== src/Sweep/Agreement.antt =====
-- scheduling/resolver.py and scheduling/jobs.py: a scan and a sweep at one instant.
use mathlib.Core.Path.{subst}
use fluxtrack_main.Calendar.{Instant, local_date}
use fluxtrack_main.Duty.Assign.Members.{Elem-order}
use fluxtrack_main.Merge.{mark_absent}
use fluxtrack_main.Model.{AcademicTerm, Database, Room, Session, SessionStatus}
use fluxtrack_main.Ops.{HasKeys, get_active_term, in_term}
use fluxtrack_main.Prelude.{
  &&-parts, Bool, Elem, Elem-filter, ap, arith, false, filter, if◌then◌else◌, inl, inr, not, refl,
  some, true, ℕ, ◌&&◌, ◌==◌, ◌≡◌,
}
use fluxtrack_main.Prelude.First.{IsFirst-Elem}
use fluxtrack_main.Prelude.Update.{Elem-update}
use fluxtrack_main.Resolver.{
  Resolution, ScanOutcome, ScanQuery, is_no_show_past_grace, resolve_faculty_scan,
}
use fluxtrack_main.Resolver.Rules.{
  InRoom, InWindow, IsCandidate, ScanRule, check_in, check_out, end_early, hand_over, leave_room,
  miss, nothing, other_room, reject_online, wait,
}
use fluxtrack_main.Resolver.Table.{resolve-ScanRule}
use fluxtrack_main.Scanning.Pages.{scan_query, sessions_today}
use fluxtrack_main.Suspensions.{excused_checker}
use fluxtrack_main.Sweep.{sweep_no_shows}
use fluxtrack_main.Sweep.Counts.{is_no_show}
use fluxtrack_main.Sweep.Exact.{sweep_no_shows_lem}

module _ (q : ScanQuery) where
  candidate_scheduled :
      (s : Session)
      → IsCandidate q s
      → Elem s q.sessions_today × (s.status ≡ SessionStatus.scheduled)
  candidate_scheduled s (inl h) =
      let (m, w) = IsFirst-Elem (λ t. InWindow q t × InRoom q t) q.sessions_today s h in (m, w.0.0)
  candidate_scheduled s (inr (_, h)) =
      let (m, w) = IsFirst-Elem (InWindow q) q.sessions_today s h in (m, w.0)

  -- The session of a scan, with what the scan has established of its start.
  abbrev Judged : Bool → Resolution → Type 0
  Judged late r =
      (s : Session) × Elem s q.sessions_today
      × (r.session_id ≡ some s.id)
      × (s.status ≡ SessionStatus.scheduled)
      × (is_no_show_past_grace s.scheduled_start q.now q.grace_min ≡ late)

  Judged-absent : (r : Resolution) → ScanRule q r → r.outcome ≡ ScanOutcome.absent → Judged true r
  unfolding is_no_show_past_grace
  Judged-absent r (miss s idle c m room late e) o =
      let (here, w) = candidate_scheduled s c in
      (s, here, ap (λ x. x.session_id) e, w, ground arith)
  Judged-absent r (check_out s f room late e) o = absurd (ground arith)
  Judged-absent r (end_early s f room late e) o = absurd (ground arith)
  Judged-absent r (leave_room s f room e) o = absurd (ground arith)
  Judged-absent r (reject_online s idle c m e) o = absurd (ground arith)
  Judged-absent r (other_room s idle c m away e) o = absurd (ground arith)
  Judged-absent r (hand_over s k idle c m room t p e) o = absurd (ground arith)
  Judged-absent r (check_in s idle c m room t p e) o = absurd (ground arith)
  Judged-absent r (wait s idle shut f e) o = absurd (ground arith)
  Judged-absent r (nothing idle shut never e) o = absurd (ground arith)

  Judged-check_in :
      (r : Resolution) → ScanRule q r → r.outcome ≡ ScanOutcome.checked_in → Judged false r
  unfolding is_no_show_past_grace
  Judged-check_in r (check_in s idle c m room t p e) o =
      let (here, w) = candidate_scheduled s c in
      (s, here, ap (λ x. x.session_id) e, w, ground arith)
  Judged-check_in r (check_out s f room late e) o = absurd (ground arith)
  Judged-check_in r (end_early s f room late e) o = absurd (ground arith)
  Judged-check_in r (leave_room s f room e) o = absurd (ground arith)
  Judged-check_in r (reject_online s idle c m e) o = absurd (ground arith)
  Judged-check_in r (other_room s idle c m away e) o = absurd (ground arith)
  Judged-check_in r (hand_over s k idle c m room t p e) o = absurd (ground arith)
  Judged-check_in r (miss s idle c m room t e) o = absurd (ground arith)
  Judged-check_in r (wait s idle shut f e) o = absurd (ground arith)
  Judged-check_in r (nothing idle shut never e) o = absurd (ground arith)

if_not : (b : Bool) (x y : Session) → (if not b then x else y) ≡ (if b then y else x)
if_not true x y = refl
if_not false x y = refl

-- The rows of a scan are rows of the database, of the active term.
today-Elem :
    (user : ℕ) (now : Instant) (term : AcademicTerm) (db : Database) (s : Session)
    → Elem s (sessions_today user now term db)
    → Elem s db.sessions × (in_term term s ≡ true)
today-Elem user now term db s m =
    let is_today =
      λ (x : Session). x.faculty_id == user && (x.date == local_date now && in_term term x) in
    let (here, passes) =
      Elem-filter is_today db.sessions s (Elem-order (filter is_today db.sessions) s m) in
    let (_, rest) = &&-parts (s.faculty_id == user) _ passes in
    (here, (&&-parts (s.date == local_date now) (in_term term s) rest).1)

module _ (user : ℕ) (now : Instant) (room : Room) (term : AcademicTerm) (db : Database)
    (unique : HasKeys db) (active : get_active_term db ≡ some term) where
  abbrev scan : Resolution
  scan = resolve_faculty_scan (scan_query user now room term db)

  -- What the sweep leaves of a row.
  swept-Elem :
      (s : Session)
      → Elem s db.sessions
      → Elem
          (if is_no_show now term db s then mark_absent s else s)
          (sweep_no_shows now db).db.sessions
  swept-Elem s m =
      rw (sweep_no_shows_lem now term db unique active)
        (Elem-update (is_no_show now term db) mark_absent db.sessions s m)

  -- Where a scan in the active term answers Absent: it is about a session of the database, and a sweep
  -- at the same instant stores that session as ABSENT, or as it was where the calendar excuses its date
  -- in its building.
  pub absent_scan-sweep_no_shows :
      (resolve_faculty_scan (scan_query user now room term db)).outcome ≡ ScanOutcome.absent
      → (s : Session) × Elem s db.sessions
        × ((resolve_faculty_scan (scan_query user now room term db)).session_id ≡ some s.id)
        × Elem
            (if excused_checker term.id db s.date s.room.building_id then s else mark_absent s)
            (sweep_no_shows now db).db.sessions
  unfolding scan_query is_no_show_past_grace
  absent_scan-sweep_no_shows o =
      let q = scan_query user now room term db in
      let (s, m, k, w, late) = Judged-absent q scan ((resolve-ScanRule q scan).1 refl) o in
      let (here, inside) = today-Elem user now term db s m in
      let same : is_no_show now term db s
          ≡ not (excused_checker term.id db s.date s.room.building_id) =
        ground arith in
      let left = rw same at (swept-Elem s here) in
      (
        s,
        here,
        k,
        subst (λ r. Elem r (sweep_no_shows now db).db.sessions)
            (if_not (excused_checker term.id db s.date s.room.building_id) (mark_absent s) s) left,
      )

  -- Where a scan in the active term checks in: it is about a session of the database, and a sweep at the
  -- same instant stores that session as it was.
  pub check_in_scan-sweep_no_shows :
      (resolve_faculty_scan (scan_query user now room term db)).outcome ≡ ScanOutcome.checked_in
      → (s : Session) × Elem s db.sessions
        × ((resolve_faculty_scan (scan_query user now room term db)).session_id ≡ some s.id)
        × Elem s (sweep_no_shows now db).db.sessions
  unfolding scan_query is_no_show_past_grace
  check_in_scan-sweep_no_shows o =
      let q = scan_query user now room term db in
      let (s, m, k, w, late) = Judged-check_in q scan ((resolve-ScanRule q scan).1 refl) o in
      let (here, inside) = today-Elem user now term db s m in
      let same : is_no_show now term db s ≡ false = ground arith in
      (s, here, k, rw same at (swept-Elem s here))
