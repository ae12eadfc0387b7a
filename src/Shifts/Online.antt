-- ===== src/Shifts/Online.antt =====
-- An approved shift to online moves every affected session, and only those.
use mathlib.Core.Path.{ap₂}
use fluxtrack_main.Calendar.{Instant}
use fluxtrack_main.Effects.{not_routed_dean, ok, shift_error, ◌>>=◌}
use fluxtrack_main.Model.{
  Database, Modality, ModalityShiftItem, ModalityShiftRequest, Session, ShiftStatus, User,
  is_online,
}
use fluxtrack_main.Ops.{
  HasKeys, keys, log, notify_ifo, notify_users, release_room, save_session, update_sessions,
}
use fluxtrack_main.Prelude.{
  All, All-Elem-All, Bool, Bool-cases, Elem, List, String, [], any, ap, arith, false, filter, inl,
  inr, ltb, none, refl, some, sym, true, ℕ, ◌&&◌, ◌++◌, ◌==◌, ◌||◌, ◌∙◌, ◌∷◌, ◌≡◌,
}
use fluxtrack_main.Prelude.Unique.{has_key, has_key-filter}
use fluxtrack_main.Prelude.Update.{
  update, update-eq_update, update-fuse, update-update, update_none,
}
use fluxtrack_main.Shifts.{
  affected_over, affected_sessions, apply_approval, apply_online, attempt, conclude, consequence,
  decided, in_window_sessions, insert_session, is_in_window, is_routed_dean, items_of,
  order_sessions, shifted,
}
use fluxtrack_main.Shifts.Decisions.{IsDecidable, decision_run}

abbrev pub moved_online : User → Instant → Session → Session
moved_online decider now s = record (shifted Modality.online decider now s) {
  room_released_at = some now;
}

==-sym : (a b : ℕ) → (a == b) ≡ (b == a)
==-sym a b = ground arith

same_test :
    (s : Session) (ss : List Session) (xs : List Session)
    → All (λ x. (x.id == s.id || has_key (keys ss) x.id) ≡ has_key (keys (s ∷ ss)) x.id) xs
same_test s ss [] = tt
same_test s ss (x ∷ xs) =
    (ap (λ b. b || has_key (keys ss) x.id) (==-sym x.id s.id), same_test s ss xs)

pub apply_online-sessions :
    (ss : List Session) (decider : User) (now : Instant) (db : Database)
    → (apply_online ss decider now db).sessions
      ≡ update (λ x. has_key (keys ss) x.id) (moved_online decider now) db.sessions
unfolding apply_online save_session release_room update_sessions log
apply_online-sessions [] decider now db = sym (
    update_none (λ x. false) (moved_online decider now) db.sessions
      (All-Elem-All _ db.sessions (λ x m. refl)))
apply_online-sessions (s ∷ ss) decider now db =
    apply_online-sessions ss decider now (
      release_room s.id (some decider.id) now
        (save_session s.id (shifted Modality.online decider now) db))
    ∙ ap (update (λ x. has_key (keys ss) x.id) (moved_online decider now)) (
        update-fuse (λ x. x.id == s.id) (shifted Modality.online decider now)
          (λ x. record x { room_released_at = some now }) db.sessions (λ _. refl))
    ∙ update-update (λ x. x.id == s.id) (λ x. has_key (keys ss) x.id) (moved_online decider now)
        db.sessions (λ _. refl) (λ _. refl)
    ∙ update-eq_update (λ x. x.id == s.id || has_key (keys ss) x.id)
        (λ x. has_key (keys (s ∷ ss)) x.id) (moved_online decider now) db.sessions
        (same_test s ss db.sessions)

-- Ordering and joining the affected sessions keeps their keys.
has_key-insert :
    (s : Session) (xs : List Session) (j : ℕ)
    → has_key (keys (insert_session s xs)) j ≡ has_key (keys (s ∷ xs)) j
unfolding insert_session
has_key-insert s [] j = refl
has_key-insert s (x ∷ xs) j =
    elim (Bool-cases
      (ltb x.date s.date || (x.date == s.date && ltb x.scheduled_start s.scheduled_start))) [
        | inr e ↦ rw e refl
        | inl e ↦ rw e (swap (x.id == j) (s.id == j) (has_key (keys xs) j) (has_key-insert s xs j))
      ]
  where
    swap : (a b c : Bool) {d : Bool} → d ≡ (b || c) → (a || d) ≡ (b || (a || c))
    swap true true c e = refl
    swap true false c e = refl
    swap false b c e = e

has_key-order :
    (xs : List Session) (j : ℕ) → has_key (keys (order_sessions xs)) j ≡ has_key (keys xs) j
unfolding order_sessions
has_key-order [] j = refl
has_key-order (x ∷ xs) j =
    has_key-insert x (order_sessions xs) j ∙ ap (λ b. x.id == j || b) (has_key-order xs j)

has_key-join :
    (xs ys : List Session) (j : ℕ)
    → has_key (keys (xs ++ ys)) j ≡ (has_key (keys xs) j || has_key (keys ys) j)
has_key-join [] ys j = refl
has_key-join (x ∷ xs) ys j = let r = has_key-join xs ys j in ground arith

module _ (r : ModalityShiftRequest) (db : Database) (unique : HasKeys db) where
  abbrev in_item : Session → ModalityShiftItem → Bool
  in_item s item = is_in_window item.schedule r.window_start r.window_end s

  affected_over-key :
      (items : List ModalityShiftItem) (s : Session)
      → Elem s db.sessions
      → has_key (keys (affected_over r db items)) s.id ≡ any (in_item s) items
  unfolding affected_over in_window_sessions
  affected_over-key [] s m = refl
  affected_over-key (item ∷ rest) s m =
      has_key-join
        (order_sessions
          (filter (is_in_window item.schedule r.window_start r.window_end) db.sessions))
        (affected_over r db rest) s.id
      ∙ ap₂ ◌||◌
          (has_key-order
              (filter (is_in_window item.schedule r.window_start r.window_end) db.sessions) s.id
            ∙ has_key-filter (λ x. x.id) (is_in_window item.schedule r.window_start r.window_end)
                db.sessions s unique m)
          (affected_over-key rest s m)

  pub affected-key :
      (s : Session)
      → Elem s db.sessions
      → has_key (keys (affected_sessions r db)) s.id ≡ any (in_item s) (items_of r.id db)
  unfolding affected_sessions
  affected-key s m = affected_over-key (items_of r.id db) s m

module _ (before : String → String → Bool) (k : ℕ) (decider : User) (now : Instant) (db : Database)
    (r : ModalityShiftRequest) where
  -- An online request of the decider's department that is pending, of one term that is not archived,
  -- where the keys of the sessions are unique: the approval succeeds; each SCHEDULED or ACTIVE session
  -- that an item's schedule has within the window is declared online by the decider and its room
  -- released, and all other sessions stay as they are.
  pub apply_approval_online :
      HasKeys db
      → IsDecidable k
          (is_routed_dean decider)
          (shift_error not_routed_dean)
          (λ r. attempt (consequence before r decider now) >>= conclude k r decider now)
          db
          r
      → is_online r.target_modality ≡ true
      → (made : ModalityShiftRequest) × (after : Database) × (apply_approval before k decider now db
          ≡ (ok made, after))
        × (made.status ≡ ShiftStatus.approved)
        × (after.sessions
            ≡ update
                (λ s.
                  any
                    (λ item. is_in_window item.schedule r.window_start r.window_end s)
                    (items_of r.id db))
                (moved_online decider now)
                db.sessions)
  unfolding apply_approval log notify_users notify_ifo
  apply_approval_online unique d e =
      let act = λ (r : ModalityShiftRequest).
        attempt (consequence before r decider now) >>= conclude k r decider now in
      let written = apply_online (affected_sessions r db) decider now db in
      (
        decided ShiftStatus.approved r.decision_reason decider now r,
        (conclude k r decider now none written).1,
        decision_run k (is_routed_dean decider) (shift_error not_routed_dean) act db r d
            ∙ rw e refl,
        refl,
        apply_online-sessions (affected_sessions r db) decider now db
            ∙ update-eq_update (λ s. has_key (keys (affected_sessions r db)) s.id)
                (λ s.
                  any (λ item. is_in_window item.schedule r.window_start r.window_end s)
                    (items_of r.id db))
                (moved_online decider now) db.sessions
                (All-Elem-All
                  (λ s.
                    has_key (keys (affected_sessions r db)) s.id
                    ≡ any (λ item. is_in_window item.schedule r.window_start r.window_end s)
                        (items_of r.id db))
                  db.sessions (affected-key r db unique)),
      )
