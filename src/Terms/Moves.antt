-- ===== src/Terms/Moves.antt =====
-- Closing and reopening: when they succeed, and what they change.
use text.Mathlib.Text.{◌==◌ as str_eq}
use fluxtrack_main.Calendar.{Date}
use fluxtrack_main.Effects.{
  Action, Blocker, active_sessions, atomic, before_end_date, confirmation_mismatch, err,
  get_or_raise, gets, not_active, not_archived, ok, reason_required, term_error, unauthorized,
  warnings_unacknowledged, ◌>>=◌, ◌>>◌,
}
use fluxtrack_main.Model.{
  AcademicTerm, AuditEvent, Database, TermStatus, User, is_active, is_active_term, is_archived_term,
  term_archived, term_reopened,
}
use fluxtrack_main.Ops.{log, term_by_id}
use fluxtrack_main.Prelude.{
  Bool, Bool-cases, List, Option, String, [], arith, false, inl, inr, ltb, not, refl, some, true, ℕ,
  ◌++◌, ◌==◌, ◌↔◌, ◌∷◌, ◌≡◌, ◌≤◌,
}
use fluxtrack_main.Prelude.Update.{update}
use fluxtrack_main.Terms.{
  TermAction, action_blockers, action_warnings, authorize, close_term, common_blockers, finish,
  has_session, reopen_term, same_texts, save_status, set_status, text_or_blank, unless_blocked,
  user_key, when,
}
use fluxtrack_main.Terms.Creation.{List-cases, authorized, may_manage, ok_ne_err, unauthorized_lem}
use fluxtrack_main.Terms.Names.{is_empty, strip}

when_off : (b : Bool) (x : Blocker) → (when b x ≡ []) ↔ (b ≡ false)
when_off true x = (λ h. ground arith, λ h. ground arith)
when_off false x = (λ h. refl, λ h. refl)

append_nil : (xs ys : List Blocker) → (xs ++ ys ≡ []) ↔ ((xs ≡ []) × (ys ≡ []))
append_nil [] ys = (λ h. (refl, h), λ (a, b). b)
append_nil (x ∷ xs) ys = (λ h. absurd (ground arith), λ (a, b). absurd (ground arith))

module _ (k : ℕ) (actor : Option User) (t : AcademicTerm) (db : Database) where
  abbrev guarded :
      (AcademicTerm → Database → List Blocker)
      → (AcademicTerm → Action AcademicTerm)
      → Action AcademicTerm
  guarded blockers act = atomic (do
    authorize actor
    found ← gets (term_by_id k)
    t ← get_or_raise found
    bs ← gets (blockers t)
    unless_blocked bs
    act t)

  -- What runs where the guards let it.
  pub guarded_run :
      (blockers : AcademicTerm → Database → List Blocker) (act : AcademicTerm → Action AcademicTerm)
      → term_by_id k db ≡ some t
      → may_manage actor ≡ true
      → blockers t db ≡ []
      → guarded blockers act db ≡ atomic (act t) db
  guarded_run blockers act stored a e = rw (authorized actor db a, stored, e) refl

  guarded_refused :
      (blockers : AcademicTerm → Database → List Blocker) (act : AcademicTerm → Action AcademicTerm)
      (b : Blocker) (rest : List Blocker)
      → term_by_id k db ≡ some t
      → may_manage actor ≡ true
      → blockers t db ≡ b ∷ rest
      → guarded blockers act db ≡ (err (term_error (b ∷ rest)), db)
  guarded_refused blockers act b rest stored a e = rw (authorized actor db a, stored, e) refl

  guarded_unauthorized :
      (blockers : AcademicTerm → Database → List Blocker) (act : AcademicTerm → Action AcademicTerm)
      → may_manage actor ≡ false
      → guarded blockers act db ≡ (err (term_error (unauthorized ∷ [])), db)
  guarded_unauthorized blockers act a = rw (unauthorized_lem actor db a) refl

  guarded_ok :
      (blockers : AcademicTerm → Database → List Blocker) (act : AcademicTerm → Action AcademicTerm)
      (made : AcademicTerm) (after : Database)
      → term_by_id k db ≡ some t
      → guarded blockers act db ≡ (ok made, after)
      → (may_manage actor ≡ true) × (blockers t db ≡ [])
  guarded_ok blockers act made after stored h = elim (Bool-cases (may_manage actor)) [
    | inr a ↦ absurd (
        ok_ne_err (guarded blockers act db) made after db _ h (guarded_unauthorized blockers act a))
    | inl a ↦ elim (List-cases (blockers t db)) [
      | inl e ↦ (a, e)
      | inr (b, rest, e) ↦ absurd (
          ok_ne_err (guarded blockers act db) made after db _ h
            (guarded_refused blockers act b rest stored a e))
    ]
  ]

  -- The term's row with the new status, and the audit row.
  abbrev pub moved : TermStatus → AuditEvent → Database
  moved status event = record db {
    terms = update (λ r. r.id == t.id) (set_status status) db.terms;
    audit =
        db.audit ++ record { actor = user_key actor; event = event; target_id = some t.id } ∷ [];
  }

  module _ (confirmation reason : Option String) (acknowledged : List String) (today : Date) where
    -- The three inputs that every action asks for.
    abbrev pub IsSure : TermAction → Type 0
    IsSure action =
        (str_eq (text_or_blank confirmation) t.name ≡ true)
        × (is_empty (strip (text_or_blank reason)) ≡ false)
        × (same_texts acknowledged (action_warnings t action db) ≡ true)

    IsSure-nil :
        (action : TermAction)
        → common_blockers t action today confirmation reason acknowledged db ≡ []
        → (action_blockers t action today db ≡ []) × IsSure action
    unfolding common_blockers
    IsSure-nil action h =
        let (a, h1) = (append_nil (action_blockers t action today db) _).0 h in
        let (b, h2) =
          (append_nil
              (when (not (str_eq (text_or_blank confirmation) t.name)) confirmation_mismatch) _).0
            h1 in
        let (c, d) =
          (append_nil (when (is_empty (strip (text_or_blank reason))) reason_required) _).0 h2 in
        let b' = (when_off _ confirmation_mismatch).0 b in
        let d' = (when_off _ warnings_unacknowledged).0 d in
        (a, (ground arith, (when_off _ reason_required).0 c, ground arith))

    nil-IsSure :
        (action : TermAction)
        → action_blockers t action today db ≡ []
        → IsSure action
        → common_blockers t action today confirmation reason acknowledged db ≡ []
    unfolding common_blockers
    nil-IsSure action a (x, y, z) = rw (a, x, y, z) refl

    -- The term runs to its end: it is ACTIVE, today is not before its last day, and none of its
    -- sessions is ACTIVE.
    abbrev pub IsClosable : Type 0
    IsClosable =
        (is_active_term t.status ≡ true)
        × (t.end_date ≤ today)
        × (has_session is_active t db ≡ false)

    IsClosable-nil : action_blockers t TermAction.close today db ≡ [] → IsClosable
    unfolding action_blockers
    IsClosable-nil h =
        let (a, h1) = (append_nil (when (not (is_active_term t.status)) not_active) _).0 h in
        let (b, c) = (append_nil (when (ltb today t.end_date) before_end_date) _).0 h1 in
        let a' = (when_off _ not_active).0 a in
        let b' = (when_off _ before_end_date).0 b in
        (ground arith, ground arith, (when_off _ active_sessions).0 c)

    nil-IsClosable : IsClosable → action_blockers t TermAction.close today db ≡ []
    unfolding action_blockers
    nil-IsClosable (a, b, c) =
        let b' : ltb today t.end_date ≡ false = ground arith in rw (a, b', c) refl

    -- Where the term is stored: closing it succeeds, makes it ARCHIVED, writes the audit row with the
    -- stripped reason and changes nothing else, exactly when the user is a superuser or an IFO
    -- administrator, the term is ACTIVE, today is not before its last day, none of its sessions is
    -- ACTIVE, the confirmation is its name, the reason is not blank, and the acknowledged warnings are
    -- the ones that there are.
    pub close_term_iff :
        term_by_id k db ≡ some t
        → ((may_manage actor ≡ true) × IsClosable × IsSure TermAction.close) ↔ (
            close_term k actor confirmation reason acknowledged today db ≡ (
              ok (set_status TermStatus.archived t),
              moved TermStatus.archived (term_archived (strip (text_or_blank reason))),
            ))
    unfolding close_term save_status log
    close_term_iff stored = (
      λ (a, c, s).
          guarded_run blockers act stored a (nil-IsSure TermAction.close (nil-IsClosable c) s),
      λ h.
          let (a, e) = guarded_ok blockers act _ _ stored h in
          let (c, s) = IsSure-nil TermAction.close e in (a, IsClosable-nil c, s),
    )
      where
        blockers : AcademicTerm → Database → List Blocker
        blockers t = common_blockers t TermAction.close today confirmation reason acknowledged

        act : AcademicTerm → Action AcademicTerm
        act t = finish t TermStatus.archived (term_archived (strip (text_or_blank reason))) actor

    archived_of_nil :
        action_blockers t TermAction.reopen today db ≡ [] → is_archived_term t.status ≡ true
    unfolding action_blockers
    archived_of_nil h = let e = (when_off _ not_archived).0 h in ground arith

    nil_of_archived :
        is_archived_term t.status ≡ true → action_blockers t TermAction.reopen today db ≡ []
    unfolding action_blockers
    nil_of_archived e = rw e refl

    -- Where the term is stored: reopening it succeeds, makes it a DRAFT again, writes the audit row with
    -- the stripped reason and changes nothing else, exactly when the user is a superuser or an IFO
    -- administrator, the term is ARCHIVED, the confirmation is its name, the reason is not blank, and
    -- the acknowledged warnings are the ones that there are.
    pub reopen_term_iff :
        term_by_id k db ≡ some t
        → ((may_manage actor ≡ true)
            × (is_archived_term t.status ≡ true)
            × IsSure TermAction.reopen)
          ↔ (reopen_term k actor confirmation reason acknowledged today db ≡ (
            ok (set_status TermStatus.draft t),
            moved TermStatus.draft (term_reopened (strip (text_or_blank reason))),
          ))
    unfolding reopen_term save_status log
    reopen_term_iff stored = (
      λ (a, c, s).
          guarded_run blockers act stored a (nil-IsSure TermAction.reopen (nil_of_archived c) s),
      λ h.
          let (a, e) = guarded_ok blockers act _ _ stored h in
          let (c, s) = IsSure-nil TermAction.reopen e in (a, archived_of_nil c, s),
    )
      where
        blockers : AcademicTerm → Database → List Blocker
        blockers t = common_blockers t TermAction.reopen today confirmation reason acknowledged

        act : AcademicTerm → Action AcademicTerm
        act t = finish t TermStatus.draft (term_reopened (strip (text_or_blank reason))) actor
