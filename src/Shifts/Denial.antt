-- ===== src/Shifts/Denial.antt =====
-- scheduling/services.py, apply_approval: the request that an approval stores, and what a denial leaves.
use fluxtrack_main.Calendar.{Instant}
use fluxtrack_main.Effects.{Result, err, not_routed_dean, ok, shift_error, ◌>>=◌}
use fluxtrack_main.Model.{Database, ModalityShiftRequest, ShiftStatus, User}
use fluxtrack_main.Ops.{log, notify_ifo, notify_users}
use fluxtrack_main.Prelude.{
  Bool, List, String, ap, arith, false, find, find-Elem, inl, inr, refl, some, sym, true, ℕ, ◌==◌,
  ◌∙◌, ◌≡◌, ◌⊎◌,
}
use fluxtrack_main.Prelude.Update.{find-update, update}
use fluxtrack_main.Shifts.{
  apply_approval, attempt, conclude, consequence, decided, is_routed_dean, request_by_id,
}
use fluxtrack_main.Shifts.Decisions.{decision-cases, decision_run}
use fluxtrack_main.Shifts.Final.{caught-cases, settle}
use fluxtrack_main.Shifts.Frame.{consequence-Keeps}

-- The request with this key is stored as decided, with who decided it and when.
abbrev pub IsStored : ℕ → User → Instant → ModalityShiftRequest → Database → Type 0
IsStored k decider now made after =
    (request_by_id k after ≡ some made)
    × (made.decided_by ≡ some decider.id)
    × (made.decided_at ≡ some now)

-- An approval that came to an end: approved, or denied with the sessions and the items as they were.
abbrev pub IsSettled : ℕ → User → Instant → Database → ModalityShiftRequest → Database → Type 0
IsSettled k decider now db made after =
    IsStored k decider now made after
    × ((made.status ≡ ShiftStatus.approved)
        ⊎ (made.status ≡ ShiftStatus.denied)
          × (after.sessions ≡ db.sessions)
          × (after.items ≡ db.items))

abbrev answer_or : ModalityShiftRequest → Result ModalityShiftRequest → ModalityShiftRequest
answer_or d (ok r) = r
answer_or d (err e) = d

abbrev is_returned : Result ModalityShiftRequest → Bool
is_returned (ok r) = true
is_returned (err e) = false

-- The row that a save of the request leaves under its key.
saved_request :
    (k : ℕ) (change : ModalityShiftRequest → ModalityShiftRequest)
    (rows : List ModalityShiftRequest) (r : ModalityShiftRequest)
    → ((x : ModalityShiftRequest) → (change x).id ≡ x.id)
    → find (λ x. x.id == k) rows ≡ some r
    → find (λ x. x.id == k) (update (λ x. x.id == k) change rows) ≡ some (change r)
saved_request k change rows r same found_it =
    find-update (λ x. x.id == k) (λ x. x.id == k) change rows r (λ x. ap (λ j. j == k) (same x))
      found_it
    ∙ rw (find-Elem (λ x. x.id == k) rows r found_it).1 refl

module _ (k : ℕ) (db : Database) (r : ModalityShiftRequest) (decider : User) (now : Instant)
    (made : ModalityShiftRequest) (after : Database) (stored : request_by_id k db ≡ some r) where
  settled_as :
      (change : ModalityShiftRequest → ModalityShiftRequest) (rows : List ModalityShiftRequest)
      → ((x : ModalityShiftRequest) → (change x).id ≡ x.id)
      → rows ≡ db.requests
      → update (λ x. x.id == k) change rows ≡ after.requests
      → change r ≡ made
      → request_by_id k after ≡ some made
  settled_as change rows same kept_rows written_rows e =
      ap (find (λ x. x.id == k)) (sym written_rows)
      ∙ saved_request k change rows r same (ap (find (λ x. x.id == k)) kept_rows ∙ stored)
      ∙ ap some e

  settle_lem :
      (res : Result Unit) (written : Database)
      → written.requests ≡ db.requests
      → settle k db r decider now res written ≡ (ok made, after)
      → IsSettled k decider now db made after
  unfolding log notify_users notify_ifo
  settle_lem (ok u) written kept_rows h =
      let change = λ (x : ModalityShiftRequest).
        decided ShiftStatus.approved x.decision_reason decider now x in
      let e : change r ≡ made = ap (λ p. answer_or made p.0) h in
      (
        (
          settled_as change written.requests (λ x. refl) kept_rows (ap (λ p. p.1.requests) h) e,
          sym (ap (λ x. x.decided_by) e),
          sym (ap (λ x. x.decided_at) e),
        ),
        inl (sym (ap (λ x. x.status) e)),
      )
  settle_lem (err x) written kept_rows h = elim (caught-cases x) [
    | inl (reason, f) ↦
        let change = decided ShiftStatus.denied reason decider now in
        let q = ap (λ y. settle k db r decider now (err y) written) (sym f) ∙ h in
        let e : change r ≡ made = ap (λ p. answer_or made p.0) q in
        (
          (
            settled_as change db.requests (λ x. refl) refl (ap (λ p. p.1.requests) q) e,
            sym (ap (λ x. x.decided_by) e),
            sym (ap (λ x. x.decided_at) e),
          ),
          inr (
            sym (ap (λ x. x.status) e),
            ap (λ p. p.1.sessions) (sym q),
            ap (λ p. p.1.items) (sym q),
          ),
        )
    | inr f ↦ let no : false ≡ true = rw f at (ap (λ p. is_returned p.0) h) in absurd (ground arith)
  ]

-- An approval that returns a request has settled it. The request is stored as it is returned, with the
-- decider and the time of the call, and it is APPROVED, or it is DENIED and all sessions and items are
-- stored as they were before the call. No other status is returned.
pub apply_approval-IsSettled :
    (before : String → String → Bool) (k : ℕ) (decider : User) (now : Instant) (db after : Database)
    (made : ModalityShiftRequest)
    → apply_approval before k decider now db ≡ (ok made, after)
    → IsSettled k decider now db made after
unfolding apply_approval
apply_approval-IsSettled before k decider now db after made h =
    let act = λ (r : ModalityShiftRequest).
      attempt (consequence before r decider now) >>= conclude k r decider now in
    elim (decision-cases k (is_routed_dean decider) (shift_error not_routed_dean) act db) [
      | inl (e, q) ↦
          let no : false ≡ true = ap (λ p. is_returned p.0) (sym q ∙ h) in absurd (ground arith)
      | inr (r, d) ↦
          settle_lem k db r decider now made after d.stored (consequence before r decider now db).0
            (consequence before r decider now db).1
            (consequence-Keeps db.requests before r decider now db refl)
            (sym (decision_run k (is_routed_dean decider) (shift_error not_routed_dean) act db r d)
              ∙ h)
    ]
