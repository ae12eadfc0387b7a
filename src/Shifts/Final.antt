-- ===== src/Shifts/Final.antt =====
-- The state machine of a request: PENDING, and then one decision for good.
-- What a call may do to the table of requests: nothing, or one decision on a pending request.
use mathlib.Core.Path.{subst}
use fluxtrack_main.Calendar.{Instant}
use fluxtrack_main.Effects.{
  Action, Error, Result, and_then, archived_term, atomic, attribute_error, code_exhausted, deny,
  does_not_exist, err, integrity_error, materialization_error, multiple_objects, no_active_term,
  no_room, not_requester, not_routed_dean, ok, roll_back, schedule_conflict, shift_error,
  term_error, value_error,
}
use fluxtrack_main.Model.{Database, ModalityShiftRequest, ShiftStatus, User, is_pending}
use fluxtrack_main.Ops.{log, notify_ifo, notify_users}
use fluxtrack_main.Prelude.{
  ==_iff, Bool, Bool-cases, Elem, String, ap, false, find-Elem, inl, inr, map, refl, some, sym,
  true, ℕ, ◌==◌, ◌∙◌, ◌≡◌, ◌⊎◌,
}
use fluxtrack_main.Prelude.Unique.{IsUnique, IsUnique-Elem}
use fluxtrack_main.Prelude.Update.{Elem-update, map-update, update}
use fluxtrack_main.Shifts.{
  apply_approval, caught, conclude, consequence, decided, is_routed_dean, reject_modality_shift,
  request_by_id, withdraw_modality_shift, withdrawn_request,
}
use fluxtrack_main.Shifts.Decisions.{decision, decision-cases, decision_run}
use fluxtrack_main.Shifts.Frame.{consequence-Keeps}
use fluxtrack_main.Sweep.NoShows.{kept}

pub data Writes (k : ℕ) (db after : Database) : Type 0 where
  nothing : after.requests ≡ db.requests → Writes k db after
  decides :
      (r : ModalityShiftRequest) (change : ModalityShiftRequest → ModalityShiftRequest)
      → request_by_id k db ≡ some r
      → is_pending r.status ≡ true
      → ((x : ModalityShiftRequest) → (change x).id ≡ x.id)
      → after.requests ≡ update (λ x. x.id == k) change db.requests
      → Writes k db after

-- Errors that the approval does not catch.
pub caught-cases : (e : Error) → ((reason : String) × (e ≡ deny reason)) ⊎ (caught (err e) ≡ err e)
caught-cases does_not_exist = inr refl
caught-cases multiple_objects = inr refl
caught-cases archived_term = inr refl
caught-cases no_active_term = inr refl
caught-cases integrity_error = inr refl
caught-cases (shift_error x) = inr refl
caught-cases (term_error x) = inr refl
caught-cases materialization_error = inr refl
caught-cases no_room = inr refl
caught-cases code_exhausted = inr refl
caught-cases attribute_error = inr refl
caught-cases value_error = inr refl
caught-cases (schedule_conflict d) = inr refl
caught-cases (deny reason) = inl (reason, refl)

-- The end of an approval, whose consequence returned `res` and left `made`.
abbrev pub settle :
    ℕ
    → Database
    → ModalityShiftRequest
    → User
    → Instant
    → Result Unit
    → Database
    → Result ModalityShiftRequest × Database
settle k db r decider now res made =
    let (tried, kept) = roll_back res db made in
    let (answer, after) = and_then (caught tried) (conclude k r decider now) kept in
    roll_back answer db after

module _ (k : ℕ) (db : Database) where
  decision-Writes :
      (allowed : ModalityShiftRequest → Bool) (refusal : Error)
      (act : ModalityShiftRequest → Action ModalityShiftRequest)
      → ((r : ModalityShiftRequest)
          → request_by_id k db ≡ some r
          → is_pending r.status ≡ true
          → Writes k db (atomic (act r) db).1)
      → Writes k db (decision k allowed refusal act db).1
  decision-Writes allowed refusal act h = elim (decision-cases k allowed refusal act db) [
    | inl (e, q) ↦ nothing (ap (λ p. p.1.requests) q)
    | inr (r, d) ↦
        subst (λ p. Writes k db p.1) (sym (decision_run k allowed refusal act db r d))
          (h r d.stored d.undecided)
  ]

  withdraw-Writes : (actor : User) → Writes k db (withdraw_modality_shift k actor db).1
  unfolding withdraw_modality_shift log
  withdraw-Writes actor =
      decision-Writes (λ r. r.requester == actor.id) (shift_error not_requester) _
        (λ r q p. decides r withdrawn_request q p (λ _. refl) refl)

  reject-Writes :
      (decider : User) (reason : String) (now : Instant)
      → Writes k db (reject_modality_shift k decider reason now db).1
  unfolding reject_modality_shift log notify_users
  reject-Writes decider reason now =
      decision-Writes (is_routed_dean decider) (shift_error not_routed_dean) _
        (λ r q p. decides r (decided ShiftStatus.rejected reason decider now) q p (λ _. refl) refl)

  settle-Writes :
      (r : ModalityShiftRequest) (decider : User) (now : Instant)
      → request_by_id k db ≡ some r
      → is_pending r.status ≡ true
      → (res : Result Unit) (made : Database) → made.requests ≡ db.requests
      → Writes k db (settle k db r decider now res made).1
  unfolding log notify_users notify_ifo
  settle-Writes r decider now q p (ok u) made h =
      decides r (λ x. decided ShiftStatus.approved x.decision_reason decider now x) q p (λ _. refl)
        (ap
          (update (λ x. x.id == k)
            (λ x. decided ShiftStatus.approved x.decision_reason decider now x))
          h)
  settle-Writes r decider now q p (err e) made h = elim (caught-cases e) [
    | inl (reason, f) ↦
        subst (λ x. Writes k db (settle k db r decider now (err x) made).1) (sym f)
          (decides r (decided ShiftStatus.denied reason decider now) q p (λ _. refl) refl)
    | inr f ↦ rw f (nothing refl)
  ]

  approve-Writes :
      (before : String → String → Bool) (decider : User) (now : Instant)
      → Writes k db (apply_approval before k decider now db).1
  unfolding apply_approval
  approve-Writes before decider now =
      decision-Writes (is_routed_dean decider) (shift_error not_routed_dean) _ (λ r q p.
        settle-Writes r decider now q p (consequence before r decider now db).0
          (consequence before r decider now db).1
          (consequence-Keeps db.requests before r decider now db refl))

-- One call of one of the three services, with any arguments.
pub data ShiftStep : Database → Database → Type 0 where
  withdrawn_by :
      {db : Database} (k : ℕ) (actor : User) → ShiftStep db (withdraw_modality_shift k actor db).1
  rejected_by :
      {db : Database} (k : ℕ) (decider : User) (reason : String) (now : Instant)
      → ShiftStep db (reject_modality_shift k decider reason now db).1
  approved_by :
      {db : Database} (before : String → String → Bool) (k : ℕ) (decider : User) (now : Instant)
      → ShiftStep db (apply_approval before k decider now db).1

pub data ShiftSteps : Database → Database → Type 0 where
  stop : {db : Database} → ShiftSteps db db
  call : {a b c : Database} → ShiftStep a b → ShiftSteps b c → ShiftSteps a c

step-Writes : {a b : Database} → ShiftStep a b → (k : ℕ) × Writes k a b
step-Writes (withdrawn_by k actor) = (k, withdraw-Writes k _ actor)
step-Writes (rejected_by k decider reason now) = (k, reject-Writes k _ decider reason now)
step-Writes (approved_by before k decider now) = (k, approve-Writes k _ before decider now)

request_ids-Unique :
    (k : ℕ) (a b : Database)
    → Writes k a b
    → IsUnique (map (λ x. x.id) a.requests)
    → IsUnique (map (λ x. x.id) b.requests)
request_ids-Unique k a b (nothing e) u = rw e u
request_ids-Unique k a b (decides r change q p same e) u =
    rw (e, map-update (λ x. x.id) (λ x. x.id == k) change a.requests same) u

decided_kept :
    (k : ℕ) (a b : Database) (x : ModalityShiftRequest)
    → Writes k a b
    → IsUnique (map (λ r. r.id) a.requests)
    → Elem x a.requests
    → is_pending x.status ≡ false
    → Elem x b.requests
decided_kept k a b x (nothing e) u m d = rw e m
decided_kept k a b x (decides r change q p same e) u m d =
    let moved = Elem-update (λ y. y.id == k) change a.requests x m in
    let (found, key) = find-Elem (λ y. y.id == k) a.requests r q in
    elim (Bool-cases (x.id == k)) [
      | inr f ↦ rw e (rw f at moved)
      | inl f ↦
          let one =
            IsUnique-Elem (λ y. y.id) a.requests x r u m found
              ((==_iff x.id k).0 f ∙ sym ((==_iff r.id k).0 key)) in
          absurd (clash (ap (λ y. is_pending y.status) one) d p)
    ]
  where
    clash : {b c : Bool} → b ≡ c → b ≡ false → c ≡ true → ⊥
    clash e h k = cc

-- A decision is final: after any sequence of calls of withdraw_modality_shift, reject_modality_shift
-- and apply_approval, refused or not, each request that was not PENDING is stored as it was. The keys
-- of the requests are unique.
pub decision-final :
    {a b : Database} (x : ModalityShiftRequest)
    → ShiftSteps a b
    → IsUnique (map (λ r. r.id) a.requests)
    → Elem x a.requests
    → is_pending x.status ≡ false
    → Elem x b.requests
decision-final x stop u m d = m
decision-final x (call s rest) u m d =
    let (k, w) = step-Writes s in
    decision-final x rest (request_ids-Unique k _ _ w u) (decided_kept k _ _ x w u m d) d
