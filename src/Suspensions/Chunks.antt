-- ===== src/Suspensions/Chunks.antt =====
-- The flip in chunks writes what one update and one bulk insert would.
use fluxtrack_main.Model.{AuditEvent, Database, Session}
use fluxtrack_main.Ops.{flip_once}
use fluxtrack_main.Ops.Flips.{flip_once-flip_once, flip_once_nil}
use fluxtrack_main.Prelude.{
  List, Option, [], ap, arith, drop, length, length-drop, suc, sym, take, take-append-drop, zero, ℕ,
  ◌<◌, ◌∙◌, ◌∷◌, ◌≡◌, ◌≤◌,
}
use fluxtrack_main.Suspensions.{flip_chunks}

module _ (change : Session → Session) (event : AuditEvent) (actor : Option ℕ)
    (same_key : (s : Session) → (change s).id ≡ s.id)
    (repeat : (s : Session) → change (change s) ≡ change s) where
  -- With a positive chunk size and fuel for every key, the chunks write what one flip writes.
  pub flip_chunks_lem :
      (size fuel : ℕ) (ids : List ℕ) (db : Database)
      → 0 < size
      → length ids ≤ fuel
      → flip_chunks size fuel change event actor ids db ≡ flip_once change event actor ids db
  unfolding flip_chunks
  flip_chunks_lem size zero [] db pos enough = sym (flip_once_nil change event actor db)
  flip_chunks_lem size zero (k ∷ ks) db pos enough = absurd (omega arith)
  flip_chunks_lem size (suc fuel) [] db pos enough = sym (flip_once_nil change event actor db)
  flip_chunks_lem size (suc fuel) (k ∷ ks) db pos enough =
      let ids = k ∷ ks in
      flip_chunks_lem size fuel (drop size ids) (flip_once change event actor (take size ids) db)
        pos (omega (arith, length-drop size ids))
      ∙ flip_once-flip_once change event actor same_key repeat (take size ids) (drop size ids) db
      ∙ ap (λ js. flip_once change event actor js db) (take-append-drop size ids)
