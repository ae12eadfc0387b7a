-- ===== src/Merge/Present.antt =====
-- What a propagation writes.
use fluxtrack_main.Effects.{ok}
use fluxtrack_main.Merge.{
  fill, fill_ids, fill_siblings, is_candidate, materialize_candidates, merged_sibling_ids,
  merges_with,
}
use fluxtrack_main.Model.{
  AcademicTerm, AuditEvent, Database, Session, is_archived_term, is_scheduled,
}
use fluxtrack_main.Ops.{
  HasKeys, flip_once, keys, log_each, session_by_id, term_by_id, update_sessions,
}
use fluxtrack_main.Ops.Flips.{flip_once_nil}
use fluxtrack_main.Prelude.{
  All-Elem-All, Bool, Elem, List, Option, [], ap, arith, false, filter, filter-eq_filter,
  filter-filter, refl, some, sym, ℕ, ◌&&◌, ◌==◌, ◌∙◌, ◌∷◌, ◌≡◌,
}
use fluxtrack_main.Prelude.Unique.{has_key, has_key-filter}

abbrev pub to_fill : Session → Session → Bool
to_fill anchor s =
    is_scheduled s.status && (s.schedule.term_id == anchor.schedule.term_id && merges_with anchor s)

candidate_merges :
    (anchor s : Session)
    → (is_candidate anchor s && merges_with anchor s)
      ≡ (s.schedule.term_id == anchor.schedule.term_id && merges_with anchor s)
unfolding merges_with
candidate_merges anchor s = ground arith

regroup : (a b c d : Bool) → a ≡ (b && c) → (a && d) ≡ (d && (b && c))
regroup a b c d h = ground arith

module _ (anchor : Session) (db : Database) (u : HasKeys db) where
  sibling_key :
      (s : Session)
      → Elem s db.sessions
      → has_key (merged_sibling_ids anchor (materialize_candidates anchor db)) s.id
        ≡ (s.schedule.term_id == anchor.schedule.term_id && merges_with anchor s)
  unfolding merged_sibling_ids materialize_candidates
  sibling_key s m = rw (filter-filter (is_candidate anchor) (merges_with anchor) db.sessions) (
      has_key-filter (λ r. r.id) (λ r. is_candidate anchor r && merges_with anchor r) db.sessions s
        u m
      ∙ candidate_merges anchor s)

  abbrev found : Session → Bool
  found s =
      has_key (merged_sibling_ids anchor (materialize_candidates anchor db)) s.id
      && is_scheduled s.status

  found_lem : (s : Session) → Elem s db.sessions → found s ≡ to_fill anchor s
  found_lem s m =
      regroup _ (s.schedule.term_id == anchor.schedule.term_id) (merges_with anchor s) _
        (sibling_key s m)

  -- The rows whose keys `fill_ids` lists are the scheduled siblings.
  fill_key :
      (s : Session)
      → Elem s db.sessions
      → has_key (fill_ids (merged_sibling_ids anchor (materialize_candidates anchor db)) db) s.id
        ≡ to_fill anchor s
  unfolding fill_ids
  fill_key s m = has_key-filter (λ r. r.id) found db.sessions s u m ∙ found_lem s m

  fill_ids_lem :
      fill_ids (merged_sibling_ids anchor (materialize_candidates anchor db)) db
      ≡ keys (filter (to_fill anchor) db.sessions)
  unfolding fill_ids
  fill_ids_lem = ap keys (
      filter-eq_filter found (to_fill anchor) db.sessions
        (All-Elem-All (λ s. found s ≡ to_fill anchor s) db.sessions found_lem))

module _ (change : Session → Session) (event : AuditEvent) (actor : Option ℕ) where
  pub fill_lem :
      (ids : List ℕ) (db : Database)
      → fill change event actor ids db ≡ (ok ids, flip_once change event actor ids db)
  unfolding fill log_each update_sessions
  fill_lem (k ∷ ks) db = refl
  fill_lem [] db = ap (λ after. (ok [], after)) (sym (flip_once_nil change event actor db))

  -- The stored anchor and its term, as the propagation reads them.
  pub fill_siblings_lem :
      (anchor_id : ℕ) (anchor : Session) (term : AcademicTerm) (db : Database)
      → HasKeys db
      → session_by_id anchor_id db ≡ some anchor
      → term_by_id anchor.schedule.term_id db ≡ some term
      → is_archived_term term.status ≡ false
      → fill_siblings anchor_id change event actor db ≡ (
        ok (keys (filter (to_fill anchor) db.sessions)),
        flip_once change event actor (keys (filter (to_fill anchor) db.sessions)) db,
      )
  unfolding fill_siblings
  fill_siblings_lem anchor_id anchor term db u found stored writable =
      rw (found, stored, writable, fill_ids_lem anchor db u, fill_lem) refl
