-- ===== src/Terms/Activate.antt =====
-- Activating a term materializes its sessions, and then makes it ACTIVE.
use text.Mathlib.Text.{◌==◌ as str_eq}
use fluxtrack_main.Calendar.{Date, Instant}
use fluxtrack_main.Effects.{Action, atomic, gets, ok, ◌>>=◌, ◌>>◌}
use fluxtrack_main.Materialize.{MaterializationResult, materialize_term}
use fluxtrack_main.Materialize.Born.{occurrences}
use fluxtrack_main.Materialize.Calendar.{IsOnce, grow}
use fluxtrack_main.Materialize.Frame.{materialize_term-Keeps}
use fluxtrack_main.Materialize.Term.{is_due, materialize_term-Adds}
use fluxtrack_main.Model.{
  AcademicTerm, Database, TermStatus, User, is_active_term, is_archived_term, is_draft_term,
  materialization_horizon_days, term_activated,
}
use fluxtrack_main.Ops.{get_policy, log, term_by_id}
use fluxtrack_main.Prelude.{
  List, Option, String, [], any, ap, arith, false, ltb, max, not, refl, some, sym, true, ℕ, ◌&&◌,
  ◌++◌, ◌<◌, ◌==◌, ◌∙◌, ◌∷◌, ◌≡◌, ◌≤◌,
}
use fluxtrack_main.Prelude.Update.{update}
use fluxtrack_main.Terms.{
  TermAction, action_blockers, action_warnings, activate_row, activate_term, activation_blockers,
  another_term_active, same_texts, save_status, set_status, text_or_blank, user_key,
}
use fluxtrack_main.Terms.Creation.{may_manage}
use fluxtrack_main.Terms.Moves.{guarded_run}

module _ (k : ℕ) (actor : Option User) (confirmation : Option String) (acknowledged : List String)
    (today : Date) (now : Instant) (t : AcademicTerm) (db : Database) where
  abbrev horizon : ℕ
  horizon = get_policy materialization_horizon_days db

  abbrev start : Date
  start = max today t.start_date

  -- The guards of the activation.
  pub record IsActivatable : Type 0 where
    pub permitted : may_manage actor ≡ true
    pub stored : term_by_id k db ≡ some t
    pub drafted : is_draft_term t.status ≡ true
    pub ordered : t.start_date ≤ t.end_date
    pub alone : another_term_active t db ≡ false
    pub confirmed : str_eq (text_or_blank confirmation) t.name ≡ true
    pub acknowledges : same_texts acknowledged (action_warnings t TermAction.activate db) ≡ true
    pub some_days : 0 < horizon

  abbrev launch : AcademicTerm → Action AcademicTerm
  launch t = do
    n ← gets (get_policy materialization_horizon_days)
    materialize_term t (max today t.start_date) n true now
    activate_row t actor

  nil_of_activatable : IsActivatable → activation_blockers t today confirmation acknowledged db ≡ []
  unfolding activation_blockers action_blockers
  nil_of_activatable h =
      let o : ltb t.end_date t.start_date ≡ false = (let e = h.ordered in ground arith) in
      rw (h.drafted, o, h.alone, h.confirmed, h.acknowledges) refl

  run_lem :
      IsActivatable
      → activate_term k actor confirmation acknowledged today now db ≡ atomic (launch t) db
  unfolding activate_term
  run_lem h =
      guarded_run k actor t db (λ t. activation_blockers t today confirmation acknowledged) launch
        h.stored h.permitted (nil_of_activatable h)

  abbrev finished : Database → Database
  finished db' = record db' {
    terms = update (λ r. r.id == t.id) (set_status TermStatus.active) db'.terms;
    audit =
        db'.audit
        ++ record { actor = user_key actor; event = term_activated; target_id = some t.id } ∷ [];
  }

  row_lem :
      (db' : Database)
      → another_term_active t db' ≡ false
      → activate_row t actor db' ≡ (ok (set_status TermStatus.active t), finished db')
  unfolding save_status log
  row_lem db' e = rw e refl

  launch_lem :
      (r : MaterializationResult) (made : Database)
      → materialize_term t start horizon true now db ≡ (ok r, made)
      → another_term_active t made ≡ false
      → atomic (launch t) db ≡ (ok (set_status TermStatus.active t), finished made)
  launch_lem r made q e = rw (q, row_lem made e) refl

  same_terms :
      (r : MaterializationResult) (made : Database)
      → materialize_term t start horizon true now db ≡ (ok r, made)
      → made.terms ≡ db.terms
  same_terms r made q =
      ap (λ p. p.1.terms) (sym q) ∙ materialize_term-Keeps db.terms t start horizon true now db refl

  -- Where no occurrence has two sessions, the guards hold and the materialization horizon is positive:
  -- the activation succeeds; the term, and no other, becomes ACTIVE; and a schedule has on a date the
  -- sessions it had, and one if it had none and is due on that date, in the term and within the horizon
  -- from today.
  pub activate_term_lem :
      IsOnce db
      → IsActivatable
      → (after : Database) × (activate_term k actor confirmation acknowledged today now db
          ≡ (ok (set_status TermStatus.active t), after))
        × (after.terms ≡ update (λ r. r.id == t.id) (set_status TermStatus.active) db.terms)
        × ((s : ℕ) (d : Date)
            → occurrences s d after
              ≡ grow (is_due t start horizon true now db s d) (occurrences s d db))
  activate_term_lem once h =
      let passive : is_archived_term t.status ≡ false = (let e = h.drafted in ground arith) in
      let (r, made, q, adds) =
        materialize_term-Adds t start horizon true now db once passive (ground arith) h.some_days in
      let same = same_terms r made q in
      (
        finished made,
        run_lem h
            ∙ launch_lem r made q (
                ap (λ ts. any (λ x. is_active_term x.status && not (x.id == t.id)) ts) same
                ∙ h.alone),
        ap (update (λ x. x.id == t.id) (set_status TermStatus.active)) same,
        adds,
      )
