-- ===== src/Merge/Guarded.antt =====
-- Whatever a present fill does, it only ever touches rows that were SCHEDULED.
use fluxtrack_main.Calendar.{Instant}
use fluxtrack_main.Merge.{fill_siblings, mark_merged, propagate_merged_present}
use fluxtrack_main.Merge.Present.{fill_siblings_lem, to_fill}
use fluxtrack_main.Model.{
  AuditEvent, Database, Session, is_archived_term, is_scheduled, merged_present,
}
use fluxtrack_main.Ops.{
  HasKeys, flip_once, keys, lock_writable_term, log_each, require_writable_term, session_by_id,
  term_by_id, update_sessions,
}
use fluxtrack_main.Ops.Flips.{update-keys}
use fluxtrack_main.Prelude.{
  &&-parts, All-Elem-All, Bool, Bool-cases, List, Option, Option-cases, ap, false, filter, inl, inr,
  refl, sym, true, ℕ, ◌∙◌, ◌≡◌,
}
use fluxtrack_main.Prelude.Unique.{has_key}
use fluxtrack_main.Prelude.Update.{update, update_none}

-- The rows after some update by a test that only scheduled rows pass.
abbrev pub IsGuardedFill : (Session → Session) → List Session → List Session → Type 0
IsGuardedFill change before after =
    (test : Session → Bool) × ((s : Session) → test s ≡ true → is_scheduled s.status ≡ true)
    × (after ≡ update test change before)

nothing_filled : (change : Session → Session) (rows : List Session) → IsGuardedFill change rows rows
nothing_filled change rows = (
  λ _. false,
  λ s h. cc,
  sym (update_none (λ _. false) change rows (All-Elem-All (λ _. false ≡ false) rows (λ _ _. refl))),
)

flip_once-sessions :
    (change : Session → Session) (event : AuditEvent) (actor : Option ℕ) (ks : List ℕ)
    (db : Database)
    → (flip_once change event actor ks db).sessions
      ≡ update (λ s. has_key ks s.id) change db.sessions
unfolding log_each update_sessions
flip_once-sessions change event actor ks db = refl

fill_siblings-IsGuardedFill :
    (change : Session → Session) (event : AuditEvent) (actor : Option ℕ) (anchor_id : ℕ)
    (db : Database)
    → HasKeys db
    → IsGuardedFill change db.sessions (fill_siblings anchor_id change event actor db).1.sessions
unfolding fill_siblings lock_writable_term require_writable_term
fill_siblings-IsGuardedFill change event actor anchor_id db u =
    elim (Option-cases (session_by_id anchor_id db)) [
      | inl e ↦ rw e (nothing_filled change db.sessions)
      | inr (anchor, e) ↦ elim (Option-cases (term_by_id anchor.schedule.term_id db)) [
        | inl f ↦ rw (e, f) (nothing_filled change db.sessions)
        | inr (t, f) ↦ elim (Bool-cases (is_archived_term t.status)) [
          | inl g ↦ rw (e, f, g) (nothing_filled change db.sessions)
          | inr g ↦ (
            to_fill anchor,
            λ s h. (&&-parts (is_scheduled s.status) _ h).0,
            ap (λ p. p.1.sessions)
                  (fill_siblings_lem change event actor anchor_id anchor t db u e f g)
                ∙ flip_once-sessions change event actor (keys (filter (to_fill anchor) db.sessions))
                    db
                ∙ update-keys (to_fill anchor) change db.sessions u,
          )
        ]
      ]
    ]

pub propagate_merged_present-IsGuardedFill :
    (anchor_id : ℕ) (now : Instant) (actor : Option ℕ) (db : Database)
    → HasKeys db
    → IsGuardedFill
        (mark_merged now)
        db.sessions
        (propagate_merged_present anchor_id now actor db).1.sessions
unfolding propagate_merged_present
propagate_merged_present-IsGuardedFill anchor_id now actor db u =
    fill_siblings-IsGuardedFill (mark_merged now) (merged_present anchor_id) actor anchor_id db u
