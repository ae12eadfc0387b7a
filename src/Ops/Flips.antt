-- ===== src/Ops/Flips.antt =====
-- One filtered update with its audit rows, for any keys: the effect that the bulk writes have.
use mathlib.Core.List.{append_assoc, append-nil, map-append}
use fluxtrack_main.Model.{AuditEvent, AuditLog, Database, Session}
use fluxtrack_main.Ops.{flip_once, keys, log_each, update_sessions}
use fluxtrack_main.Prelude.{
  All-Elem-All, Bool, List, Option, [], any-append, ap, false, filter, length, map, refl, some, suc,
  sym, ℕ, ◌++◌, ◌==◌, ◌||◌, ◌∙◌, ◌∷◌, ◌≡◌,
}
use fluxtrack_main.Prelude.Unique.{IsUnique, has_key, has_key-filter}
use fluxtrack_main.Prelude.Update.{update, update-eq_update, update-update, update_none}

-- No key, no effect.
pub flip_once_nil :
    (change : Session → Session) (event : AuditEvent) (actor : Option ℕ) (db : Database)
    → flip_once change event actor [] db ≡ db
unfolding log_each update_sessions
flip_once_nil change event actor db = λ i. record db {
  sessions =
      update_none (λ _. false) change db.sessions
        (All-Elem-All (λ _. false ≡ false) db.sessions (λ _ _. refl)) i;
  audit = append-nil db.audit i;
}

module _ (change : Session → Session) (event : AuditEvent) (actor : Option ℕ)
    (same_key : (s : Session) → (change s).id ≡ s.id)
    (repeat : (s : Session) → change (change s) ≡ change s) where
  pub flip_once-flip_once :
      (xs ys : List ℕ) (db : Database)
      → flip_once change event actor ys (flip_once change event actor xs db)
        ≡ flip_once change event actor (xs ++ ys) db
  unfolding log_each update_sessions
  flip_once-flip_once xs ys db = λ i. record db { sessions = rows i; audit = entries i }
    where
      rows :
          update (λ s. has_key ys s.id) change (update (λ s. has_key xs s.id) change db.sessions)
          ≡ update (λ s. has_key (xs ++ ys) s.id) change db.sessions
      rows =
          update-update (λ s. has_key xs s.id) (λ s. has_key ys s.id) change db.sessions
            (λ s. ap (has_key ys) (same_key s)) repeat
          ∙ update-eq_update (λ s. has_key xs s.id || has_key ys s.id)
              (λ s. has_key (xs ++ ys) s.id) change db.sessions
              (All-Elem-All (λ s. (has_key xs s.id || has_key ys s.id) ≡ has_key (xs ++ ys) s.id)
                db.sessions (λ s _. sym (any-append (λ j. j == s.id) xs ys)))

      entry : ℕ → AuditLog
      entry k = record { actor = actor; event = event; target_id = some k }

      entries : (db.audit ++ map entry xs) ++ map entry ys ≡ db.audit ++ map entry (xs ++ ys)
      entries =
          append_assoc db.audit (map entry xs) (map entry ys)
          ∙ ap (λ r. db.audit ++ r) (sym (map-append entry xs ys))

-- An update by the keys of the selected rows is the update by the selection.
pub update-keys :
    (test : Session → Bool) (change : Session → Session) (rows : List Session)
    → IsUnique (keys rows)
    → update (λ s. has_key (keys (filter test rows)) s.id) change rows ≡ update test change rows
update-keys test change rows u =
    update-eq_update (λ s. has_key (keys (filter test rows)) s.id) test change rows
      (All-Elem-All (λ s. has_key (keys (filter test rows)) s.id ≡ test s) rows
        (λ s m. has_key-filter (λ r. r.id) test rows s u m))

pub length-keys : (rows : List Session) → length (keys rows) ≡ length rows
length-keys [] = refl
length-keys (r ∷ rs) = ap suc (length-keys rs)
