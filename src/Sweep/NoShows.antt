-- ===== src/Sweep/NoShows.antt =====
-- One run of the sweep, on the sessions that it read and on what others have written since.
use fluxtrack_main.Calendar.{Date, Instant}
use fluxtrack_main.Merge.{mark_absent}
use fluxtrack_main.Model.{Session, is_scheduled}
use fluxtrack_main.Ops.{keys}
use fluxtrack_main.Prelude.{
  All-Elem-All, Bool, Bool-cases, List, [], any, any-false, arith, false, filter, inl, inr, refl,
  sym, true, ℕ, ◌&&◌, ◌==◌, ◌||◌, ◌∙◌, ◌∷◌, ◌≡◌,
}
use fluxtrack_main.Prelude.Unique.{has_key}
use fluxtrack_main.Prelude.Update.{update, update-eq_update, update-update_off, update_none}
use fluxtrack_main.Sweep.{SweepRun, flip_absent, is_swept, sweep_each}

module _ (now : Instant) (grace_min : ℕ) (excused : Date → ℕ → Bool) where
  abbrev pub kept : List Session → List Session
  kept candidates = filter (is_swept now grace_min excused) candidates

  abbrev mark_if : Session → Session → Bool
  mark_if c r = r.id == c.id && is_scheduled r.status

  -- A row is flipped if it is SCHEDULED when its turn comes.
  abbrev pub flips : List Session → Session → Bool
  flips candidates r = is_scheduled r.status && has_key (keys (kept candidates)) r.id

  flip_absent-sessions :
      (c : Session) (run : SweepRun)
      → (flip_absent now grace_min excused c run).db.sessions
        ≡ update (mark_if c) mark_absent run.db.sessions
  unfolding flip_absent
  flip_absent-sessions c run = elim (Bool-cases (any (mark_if c) run.db.sessions)) [
    | inl e ↦ rw e refl
    | inr e ↦ rw e (
        sym (
          update_none (mark_if c) mark_absent run.db.sessions
            (any-false (mark_if c) run.db.sessions e)))
  ]

  flips-cons :
      (c : Session) (cs : List Session) (r : Session)
      → is_swept now grace_min excused c ≡ true
      → (mark_if c r || flips cs r) ≡ flips (c ∷ cs) r
  flips-cons c cs r e = ground arith

  flips_skip :
      (c : Session) (cs : List Session) (r : Session)
      → is_swept now grace_min excused c ≡ false
      → flips cs r ≡ flips (c ∷ cs) r
  flips_skip c cs r e = ground arith

  -- Whatever the stored rows are by now, a run over stale candidates marks ABSENT exactly the rows
  -- that are still SCHEDULED and whose key is that of a no-show that is not excused.
  pub sweep_each-sessions :
      (candidates : List Session) (run : SweepRun)
      → (sweep_each now grace_min excused candidates run).db.sessions
        ≡ update (flips candidates) mark_absent run.db.sessions
  unfolding sweep_each
  sweep_each-sessions [] run = sym (
      update_none (flips []) mark_absent run.db.sessions
        (All-Elem-All (λ r. flips [] r ≡ false) run.db.sessions (λ r _. ground arith)))
  sweep_each-sessions (c ∷ cs) run = elim (Bool-cases (is_swept now grace_min excused c)) [
    | inl e ↦
        rw (e, sweep_each)
          (sweep_each-sessions cs (flip_absent now grace_min excused c run)
            ∙ rw (flip_absent-sessions c run) (
                update-update_off (mark_if c) (flips cs) mark_absent run.db.sessions (λ _. refl)
                ∙ update-eq_update (λ r. mark_if c r || flips cs r) (flips (c ∷ cs)) mark_absent
                    run.db.sessions
                    (All-Elem-All (λ r. (mark_if c r || flips cs r) ≡ flips (c ∷ cs) r)
                      run.db.sessions (λ r _. flips-cons c cs r e))))
    | inr e ↦
        rw (e, sweep_each)
          (sweep_each-sessions cs run
            ∙ update-eq_update (flips cs) (flips (c ∷ cs)) mark_absent run.db.sessions (
                All-Elem-All (λ r. flips cs r ≡ flips (c ∷ cs) r) run.db.sessions
                  (λ r _. flips_skip c cs r e)))
  ]
