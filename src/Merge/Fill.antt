-- ===== src/Merge/Fill.antt =====
-- The two propagations: exactly the scheduled siblings are filled, once.
use fluxtrack_main.Calendar.{Instant}
use fluxtrack_main.Effects.{ok}
use fluxtrack_main.Merge.{
  fill, fill_siblings, mark_absent, mark_merged, merges_with, propagate_merged_absent,
  propagate_merged_present,
}
use fluxtrack_main.Merge.Present.{fill_lem, fill_siblings_lem, to_fill}
use fluxtrack_main.Model.{
  AcademicTerm, AuditEvent, Database, Session, grace_minutes, is_archived_term, merged_absent,
  merged_present,
}
use fluxtrack_main.Ops.{
  HasKeys, get_policy, keys, log_each, session_by_id, term_by_id, update_sessions,
}
use fluxtrack_main.Ops.Flips.{update-keys}
use fluxtrack_main.Prelude.{
  Bool-cases, List, Option, [], ap, arith, false, filter, if◌then◌else◌, inl, inr, refl, some, sym,
  ℕ, ◌==◌, ◌∙◌, ◌≡◌,
}
use fluxtrack_main.Prelude.Update.{filter-update, find-update, map-update}
use fluxtrack_main.Resolver.{is_no_show_past_grace}

-- The keys of the anchor's SCHEDULED siblings of its term.
abbrev pub siblings : Session → Database → List ℕ
siblings anchor db = keys (filter (to_fill anchor) db.sessions)

-- The database after a present fill.
abbrev after_present : ℕ → Session → Instant → Option ℕ → Database → Database
after_present anchor_id anchor now actor db =
    log_each actor (merged_present anchor_id) (siblings anchor db)
      (update_sessions (to_fill anchor) (mark_merged now) db)

module _ (anchor_id : ℕ) (anchor : Session) (term : AcademicTerm) (db : Database) (u : HasKeys db)
    (found : session_by_id anchor_id db ≡ some anchor)
    (stored : term_by_id anchor.schedule.term_id db ≡ some term)
    (writable : is_archived_term term.status ≡ false) where
  fill_siblings_state :
      (change : Session → Session) (event : AuditEvent) (actor : Option ℕ)
      → fill_siblings anchor_id change event actor db ≡ (
        ok (siblings anchor db),
        log_each actor event (siblings anchor db) (update_sessions (to_fill anchor) change db),
      )
  unfolding update_sessions
  fill_siblings_state change event actor =
      fill_siblings_lem change event actor anchor_id anchor term db u found stored writable
      ∙ ap
          (λ (rows : List Session). (
            ok (siblings anchor db),
            log_each actor event (siblings anchor db) (record db { sessions = rows }),
          ))
          (update-keys (to_fill anchor) change db.sessions u)

  -- Where the anchor is stored, its term is not archived and the keys of the sessions are unique, a
  -- present fill returns the keys of the anchor's SCHEDULED siblings of its term, activates exactly
  -- these rows, writes one audit row for each, and changes nothing else.
  pub propagate_merged_present_lem :
      (now : Instant) (actor : Option ℕ)
      → propagate_merged_present anchor_id now actor db ≡ (
        ok (siblings anchor db),
        log_each actor
            (merged_present anchor_id)
            (siblings anchor db)
            (update_sessions (to_fill anchor) (mark_merged now) db),
      )
  unfolding propagate_merged_present
  propagate_merged_present_lem now actor =
      fill_siblings_state (mark_merged now) (merged_present anchor_id) actor

  -- Past the grace period an absent fill marks exactly the same rows, and within it nothing is
  -- touched.
  pub propagate_merged_absent_lem :
      (caller : Session) (now : Instant) (actor : Option ℕ)
      → caller.id ≡ anchor_id
      → propagate_merged_absent caller actor now db ≡ (
          if is_no_show_past_grace caller.scheduled_start now (get_policy grace_minutes db)
          then (
            ok (siblings anchor db),
            log_each actor
                (merged_absent anchor_id)
                (siblings anchor db)
                (update_sessions (to_fill anchor) mark_absent db),
          )
          else (ok [], db))
  unfolding propagate_merged_absent
  propagate_merged_absent_lem caller now actor e =
      elim (Bool-cases
        (is_no_show_past_grace caller.scheduled_start now (get_policy grace_minutes db))) [
          | inl late ↦
              rw (late, e) (fill_siblings_state mark_absent (merged_absent anchor_id) actor)
          | inr early ↦ rw early
        ]

  not_self : to_fill anchor anchor ≡ false
  unfolding merges_with
  not_self = ground arith

  after_keys :
      (now : Instant) (actor : Option ℕ) → HasKeys (after_present anchor_id anchor now actor db)
  unfolding update_sessions log_each
  after_keys now actor =
      rw (map-update (λ s. s.id) (to_fill anchor) (mark_merged now) db.sessions (λ _. refl)) u

  after_found :
      (now : Instant) (actor : Option ℕ)
      → session_by_id anchor_id (after_present anchor_id anchor now actor db) ≡ some anchor
  unfolding update_sessions log_each
  after_found now actor =
      find-update (λ s. s.id == anchor_id) (to_fill anchor) (mark_merged now) db.sessions anchor
        (λ _. refl) found
      ∙ rw not_self refl

  after_siblings :
      (now : Instant) (actor : Option ℕ)
      → filter (to_fill anchor) (after_present anchor_id anchor now actor db).sessions ≡ []
  unfolding update_sessions log_each
  after_siblings now actor =
      filter-update (to_fill anchor) (mark_merged now) db.sessions (λ s h. refl)

  after_stored :
      (now : Instant) (actor : Option ℕ)
      → term_by_id anchor.schedule.term_id (after_present anchor_id anchor now actor db) ≡ some term
  unfolding update_sessions log_each
  after_stored now actor = stored

  no_siblings :
      (change : Session → Session) (event : AuditEvent) (actor : Option ℕ)
      → filter (to_fill anchor) db.sessions ≡ []
      → fill_siblings anchor_id change event actor db ≡ (ok [], db)
  unfolding fill
  no_siblings change event actor empty =
      rw
        (
          fill_siblings_lem change event actor anchor_id anchor term db u found stored writable,
          empty,
        )
        (sym (fill_lem change event actor [] db))

second_fill :
    (anchor_id : ℕ) (anchor : Session) (term : AcademicTerm) (db : Database) (u : HasKeys db)
    (found : session_by_id anchor_id db ≡ some anchor)
    (stored : term_by_id anchor.schedule.term_id db ≡ some term)
    (writable : is_archived_term term.status ≡ false) (now later : Instant)
    (actor actor' : Option ℕ)
    → propagate_merged_present anchor_id later actor' (after_present anchor_id anchor now actor db)
      ≡ (ok [], after_present anchor_id anchor now actor db)
unfolding propagate_merged_present
second_fill anchor_id anchor term db u found stored writable now later actor actor' =
    no_siblings anchor_id anchor term (after_present anchor_id anchor now actor db)
      (after_keys anchor_id anchor term db u found stored writable now actor)
      (after_found anchor_id anchor term db u found stored writable now actor)
      (after_stored anchor_id anchor term db u found stored writable now actor) writable
      (mark_merged later) (merged_present anchor_id) actor'
      (after_siblings anchor_id anchor term db u found stored writable now actor)

-- Under the same conditions a second present fill of the same anchor, by whomever and whenever, fills
-- nobody and changes nothing.
pub propagate_merged_present_twice :
    (anchor_id : ℕ) (anchor : Session) (term : AcademicTerm) (db : Database) (u : HasKeys db)
    (found : session_by_id anchor_id db ≡ some anchor)
    (stored : term_by_id anchor.schedule.term_id db ≡ some term)
    (writable : is_archived_term term.status ≡ false) (now later : Instant)
    (actor actor' : Option ℕ)
    → propagate_merged_present anchor_id later actor'
        (propagate_merged_present anchor_id now actor db).1
      ≡ (ok [], (propagate_merged_present anchor_id now actor db).1)
propagate_merged_present_twice anchor_id anchor term db u found stored writable now later actor
      actor' =
    rw (propagate_merged_present_lem anchor_id anchor term db u found stored writable now actor)
      (second_fill anchor_id anchor term db u found stored writable now later actor actor')
