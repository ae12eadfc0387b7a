-- ===== src/Shifts/Decisions.antt =====
-- What the guards of the three decisions let through, and that a decision is final.
-- A pending request that may be decided, and what is then done.
use fluxtrack_main.Effects.{
  Action, Error, archived, atomic, does_not_exist, err, many_terms, not_pending, ok, require,
  shift_error, ◌>>=◌, ◌>>◌,
}
use fluxtrack_main.Model.{Database, ModalityShiftRequest, is_archived_term, is_pending}
use fluxtrack_main.Ops.{term_by_id}
use fluxtrack_main.Prelude.{
  Bool, Bool-cases, List, Option-cases, [], inl, inr, refl, some, true, ℕ, ◌∷◌, ◌≡◌, ◌⊎◌,
}
use fluxtrack_main.Shifts.{lock_shift_term, locked, request_by_id, single_term, term_ids}

abbrev pub decision :
    ℕ
    → (ModalityShiftRequest → Bool)
    → Error
    → (ModalityShiftRequest → Action ModalityShiftRequest)
    → Action ModalityShiftRequest
decision k allowed refusal act = atomic (do
  r ← locked k
  require (allowed r) refusal
  require (is_pending r.status) (shift_error not_pending)
  act r)

pub single-cases :
    (ts : List ℕ) (db : Database)
    → ((e : Error) × (single_term ts db ≡ (err e, db)))
      ⊎ ((t : ℕ) × (single_term ts db ≡ (ok t, db)))
single-cases [] db = inl (shift_error many_terms, refl)
single-cases (t ∷ []) db = inr (t, refl)
single-cases (t ∷ u ∷ us) db = inl (shift_error many_terms, refl)

lock-cases :
    (k : ℕ) (db : Database)
    → ((e : Error) × (lock_shift_term k db ≡ (err e, db))) ⊎ (lock_shift_term k db ≡ (ok tt, db))
unfolding lock_shift_term
lock-cases k db = elim (single-cases (term_ids k db) db) [
  | inl (e, q) ↦ inl (e, rw q refl)
  | inr (t, q) ↦ elim (Option-cases (term_by_id t db)) [
    | inl f ↦ inl (does_not_exist, rw (q, f) refl)
    | inr (term, f) ↦ elim (Bool-cases (is_archived_term term.status)) [
      | inl a ↦ inl (shift_error archived, rw (q, f, a) refl)
      | inr a ↦ inr (rw (q, f, a) refl)
    ]
  ]
]

module _ (k : ℕ) (allowed : ModalityShiftRequest → Bool) (refusal : Error)
    (act : ModalityShiftRequest → Action ModalityShiftRequest) (db : Database) where
  -- The request is stored, pending, and may be decided; its term is open.
  pub record IsDecidable (r : ModalityShiftRequest) : Type 0 where
    pub stored : request_by_id k db ≡ some r
    pub open_term : lock_shift_term k db ≡ (ok tt, db)
    pub permitted : allowed r ≡ true
    pub undecided : is_pending r.status ≡ true

  pub decision_run :
      (r : ModalityShiftRequest)
      → IsDecidable r
      → decision k allowed refusal act db ≡ atomic (act r) db
  decision_run r h = rw (h.stored, h.open_term, h.permitted, h.undecided) refl

  pub decision-cases :
      ((e : Error) × (decision k allowed refusal act db ≡ (err e, db)))
      ⊎ ((r : ModalityShiftRequest) × IsDecidable r)
  decision-cases = elim (Option-cases (request_by_id k db)) [
    | inl q ↦ inl (does_not_exist, rw q refl)
    | inr (r, q) ↦ elim (lock-cases k db) [
      | inl (e, l) ↦ inl (e, rw (q, l) refl)
      | inr l ↦ elim (Bool-cases (allowed r)) [
        | inr a ↦ inl (refusal, rw (q, l, a) refl)
        | inl a ↦ elim (Bool-cases (is_pending r.status)) [
          | inr p ↦ inl (shift_error not_pending, rw (q, l, a, p) refl)
          | inl p ↦ inr (r, record { stored = q; open_term = l; permitted = a; undecided = p })
        ]
      ]
    ]
  ]
