-- ===== src/Scanning/Answer.antt =====
-- A scan from its payload to its writes: the resolver's answer fits the stored session.
use fluxtrack_main.Calendar.{Instant, local_date}
use fluxtrack_main.Duty.Assign.Members.{Elem-order}
use fluxtrack_main.Effects.{Result, and_then, err, gets, ok, pure, ◌>>=◌, ◌>>◌}
use fluxtrack_main.Model.{AcademicTerm, Database, Room, Session, SessionStatus}
use fluxtrack_main.Ops.{HasKeys, get_active_term, in_term}
use fluxtrack_main.Prelude.{
  &&-parts, ==_iff, Elem, Elem-filter, Option, ap, false, find-Elem, if_some, inl, inr, none, refl,
  some, sym, true, ℕ, ◌&&◌, ◌==◌, ◌∙◌, ◌≡◌,
}
use fluxtrack_main.Prelude.First.{IsFirst-Elem}
use fluxtrack_main.Prelude.Unique.{IsUnique-Elem}
use fluxtrack_main.Resolver.{Resolution, ScanQuery, needs_confirm, resolve_faculty_scan}
use fluxtrack_main.Resolver.Rules.{IsActive, IsCandidate, ScanRule}
use fluxtrack_main.Resolver.Table.{resolve-ScanRule}
use fluxtrack_main.Scanning.{Scan, apply, apply_in, apply_outcome, session_in_term}
use fluxtrack_main.Scanning.Forward.{AllForward, AllForward-refl}
use fluxtrack_main.Scanning.Moves.{Expects, apply_outcome-AllForward}
use fluxtrack_main.Scanning.Pages.{scan_query}

module _ (user : ℕ) (now : Instant) (room : Room) (term : AcademicTerm) (db : Database)
    (unique : HasKeys db) where
  abbrev query : ScanQuery
  query = scan_query user now room term db

  Elem-sessions_today : (s : Session) → Elem s query.sessions_today → Elem s db.sessions
  unfolding scan_query
  Elem-sessions_today s m =
      let n = Elem-order _ s m in
      (Elem-filter (λ x. x.faculty_id == user && (x.date == local_date now && in_term term x))
        db.sessions s n).0

  candidate_scheduled :
      (s : Session)
      → IsCandidate query s
      → Elem s query.sessions_today × (s.status ≡ SessionStatus.scheduled)
  candidate_scheduled s (inl f) = let (m, h) = IsFirst-Elem _ query.sessions_today s f in (m, h.0.0)
  candidate_scheduled s (inr (_, f)) =
      let (m, h) = IsFirst-Elem _ query.sessions_today s f in (m, h.0)

  stored :
      (k : ℕ) (s t : Session)
      → Elem t query.sessions_today
      → Elem s db.sessions
      → s.id ≡ k
      → some t.id ≡ some k
      → s ≡ t
  stored k s t n m q e =
      IsUnique-Elem (λ x. x.id) db.sessions s t unique m (Elem-sessions_today t n)
        (q ∙ sym (key_eq t.id e))
    where
      key_eq : (j : ℕ) → some j ≡ some k → j ≡ k
      key_eq j h = cc

  -- The session that the rule is about is the stored one with its key.
  rule-Expects :
      (r : Resolution) (k : ℕ) (s : Session)
      → ScanRule query r
      → r.session_id ≡ some k
      → Elem s db.sessions
      → s.id ≡ k
      → Expects r.outcome s
  rule-Expects r k s (ScanRule.check_out t f _ _ e) h m q =
      let (n, active) = IsFirst-Elem (IsActive query) query.sessions_today t f in
      rw e (ap (λ x. x.status) (stored k s t n m q (rw e at h)) ∙ active)
  rule-Expects r k s (ScanRule.check_in t _ c _ _ _ _ e) h m q =
      let (n, waiting) = candidate_scheduled t c in
      rw e (ap (λ x. x.status) (stored k s t n m q (rw e at h)) ∙ waiting)
  rule-Expects r k s (ScanRule.end_early t _ _ _ e) h m q = rw e tt
  rule-Expects r k s (ScanRule.leave_room t _ _ e) h m q = rw e tt
  rule-Expects r k s (ScanRule.reject_online t _ _ _ e) h m q = rw e tt
  rule-Expects r k s (ScanRule.other_room t _ _ _ _ e) h m q = rw e tt
  rule-Expects r k s (ScanRule.miss t _ _ _ _ _ e) h m q = rw e tt
  rule-Expects r k s (ScanRule.hand_over t j _ _ _ _ _ _ e) h m q = rw e tt
  rule-Expects r k s (ScanRule.wait t _ _ _ e) h m q = rw e tt
  rule-Expects r k s (ScanRule.nothing _ _ _ e) h m q = rw e tt

  abbrev answer : Resolution
  answer = resolve_faculty_scan query

  answer-Expects :
      (k : ℕ) (s : Session)
      → answer.session_id ≡ some k
      → session_in_term term k db ≡ some s
      → Expects answer.outcome s
  answer-Expects k s h f =
      let (m, q) = find-Elem (λ x. x.id == k && in_term term x) db.sessions s f in
      rule-Expects answer k s ((resolve-ScanRule query answer).1 refl) h m
        ((==_iff s.id k).0 (&&-parts (s.id == k) (in_term term s) q).0)

  -- `_apply` of an answer that needs no confirmation.
  pub apply-AllForward :
      (scan : Scan)
      → get_active_term db ≡ some term
      → needs_confirm answer.outcome ≡ false
      → AllForward db.sessions (apply scan answer db).1.sessions
  unfolding apply apply_in
  apply-AllForward scan active direct = by_session answer.session_id refl
    where
      ended :
          (r : Result Unit) (after : Database)
          → AllForward db.sessions after.sessions
          → AllForward db.sessions (and_then r (λ _. pure true) after).1.sessions
      ended (ok a) after k = k
      ended (err e) after k = k

      by_row :
          (k : ℕ)
          → answer.session_id ≡ some k
          → (o : Option Session) → session_in_term term k db ≡ o
          → AllForward db.sessions
              (if_some o
                (λ s. apply_outcome scan answer.outcome answer.prior_session_id term s >> pure true)
                (pure false)
                db).1.sessions
      by_row k h none f = AllForward-refl db.sessions
      by_row k h (some s) f =
          let (m, _) = find-Elem (λ x. x.id == k && in_term term x) db.sessions s f in
          let run = apply_outcome scan answer.outcome answer.prior_session_id term s db in
          ended run.0 run.1 (
            apply_outcome-AllForward scan db unique s m answer.outcome answer.prior_session_id term
              direct (answer-Expects k s h f))

      by_session :
          (o : Option ℕ)
          → answer.session_id ≡ o
          → AllForward db.sessions
              (if_some o
                (λ k. gets get_active_term >>= λ t.
                  if_some t (λ t. apply_in scan t answer k) (pure false))
                (pure true)
                db).1.sessions
      by_session none h = AllForward-refl db.sessions
      by_session (some k) h = rw active (by_row k h (session_in_term term k db) refl)
