-- ===== src/Shifts/Submit/Opened.antt =====
-- scheduling/services.py, submit_modality_shift: the rows that a ticket writes.
use mathlib.Core.List.{append-nil, append_assoc}
use fluxtrack_main.Calendar.{Date}
use fluxtrack_main.Model.{
  Database, Modality, ModalityShiftItem, ModalityShiftRequest, Room, Schedule, ShiftStatus, User,
  modality_shift_submitted, shift_submitted,
}
use fluxtrack_main.Ops.{log, notify_users}
use fluxtrack_main.Prelude.{
  All, Bool, List, Option, String, [], ap, arith, map, none, refl, some, sym, ℕ, ◌++◌, ◌∙◌, ◌∷◌,
  ◌≡◌, ◌≢◌, ◌≤◌,
}
use fluxtrack_main.Shifts.Submit.{
  TimeMove, add_items, end_of, new_item, new_request, open_ticket, preferences, start_of,
}
use fluxtrack_main.Suspensions.{fresh_key}

-- The items that are added, over their fields.
abbrev pub IsItemOf : ℕ → TimeMove → ModalityShiftItem → Type 0
IsItemOf k move i =
    (i.request_id ≡ k)
    × (i.assigned_room ≡ none)
    × (i.new_start_time ≡ start_of move)
    × (i.new_end_time ≡ end_of move)

abbrev pub wished_rooms : List ModalityShiftItem → List (Schedule × Option Room)
wished_rooms is = map (λ i. (i.schedule, i.preferred_room)) is

abbrev IsAdded : ℕ → TimeMove → List (Schedule × Option Room) → Database → Database → Type 0
IsAdded k move chosen db after =
    (new : List ModalityShiftItem) × (after ≡ record db { items = db.items ++ new })
    × (wished_rooms new ≡ chosen)
    × All (IsItemOf k move) new

add_items-IsAdded :
    (k : ℕ) (move : TimeMove) (chosen : List (Schedule × Option Room)) (db : Database)
    → IsAdded k move chosen db (add_items k move chosen db)
unfolding add_items
add_items-IsAdded k move [] db = (
  [],
  ap {A = List ModalityShiftItem} {B = Database} (λ is. record db { items = is })
      (sym (append-nil db.items)),
  refl,
  tt,
)
add_items-IsAdded k move ((s, room) ∷ rest) db =
    let i = new_item (fresh_key (map (λ x. x.id) db.items)) k s room move in
    let (new, e, wishes, fits) =
      add_items-IsAdded k move rest (record db { items = db.items ++ i ∷ [] }) in
    (
      i ∷ new,
      e
          ∙ ap {A = List ModalityShiftItem} {B = Database} (λ is. record db { items = is })
              (append_assoc db.items (i ∷ []) new),
      ap (λ ws. (s, room) ∷ ws) wishes,
      ((refl, refl, refl, refl), fits),
    )

above-All :
    (rows : List ModalityShiftRequest) (k : ℕ)
    → fresh_key (map (λ x. x.id) rows) ≤ k
    → All (λ x. x.id ≢ k) rows
unfolding fresh_key
above-All [] k h = tt
above-All (x ∷ xs) k h = ((λ e. absurd (omega (arith, e, h))), above-All xs k (omega arith))

module _ (before : String → String → Bool) (user : User) (schedules : List Schedule)
    (target : Modality) (first last : Date) (wanted : ℕ → Option Room) (move : TimeMove)
    (db : Database) (decider : User) where
  -- The request is new and pending, and routed to the dean; there is one item for each schedule in
  -- order, with the preference that was validated; and one audit row and one notification are written.
  pub record IsOpened (r : ModalityShiftRequest) (after : Database) : Type 0 where
    pub new_key : All (λ x. x.id ≢ r.id) db.requests
    pub requester : r.requester ≡ user.id
    pub routed_to : r.dean ≡ some decider.id
    pub of_department : r.department ≡ user.department
    pub modality : r.target_modality ≡ target
    pub window : (r.window_start ≡ first) × (r.window_end ≡ last)
    pub status : r.status ≡ ShiftStatus.pending
    pub undecided : (r.decided_at ≡ none) × (r.decided_by ≡ none)
    pub new_items : List ModalityShiftItem
    pub wishes : wished_rooms new_items ≡ preferences before wanted schedules first last db
    pub items_fit : All (IsItemOf r.id move) new_items
    pub written : after ≡ record db {
      requests = db.requests ++ r ∷ [];
      items = db.items ++ new_items;
      audit =
          db.audit
          ++ record { actor = some user.id; event = shift_submitted; target_id = some r.id } ∷ [];
      notifications =
          db.notifications ++ record { user_id = decider.id; type = modality_shift_submitted } ∷ [];
    }

  pub open_ticket-IsOpened :
      (r : ModalityShiftRequest)
      → r ≡ new_request user decider target first last move db
      → IsOpened r
          (open_ticket r user decider move (preferences before wanted schedules first last db) db).1
  unfolding open_ticket log notify_users
  open_ticket-IsOpened r e =
      let chosen = preferences before wanted schedules first last db in
      let (new, added, wishes, fits) =
        add_items-IsAdded r.id move chosen (record db { requests = db.requests ++ r ∷ [] }) in
      record {
        new_key = above-All db.requests r.id (omega (arith, ap (λ x. x.id) e));
        requester = ap (λ x. x.requester) e;
        routed_to = ap (λ x. x.dean) e;
        of_department = ap (λ x. x.department) e;
        modality = ap (λ x. x.target_modality) e;
        window = (ap (λ x. x.window_start) e, ap (λ x. x.window_end) e);
        status = ap (λ x. x.status) e;
        undecided = (ap (λ x. x.decided_at) e, ap (λ x. x.decided_by) e);
        new_items = new;
        wishes = wishes;
        items_fit = fits;
        written =
            ap {A = Database} {B = Database}
              (λ d.
                notify_users (decider.id ∷ []) modality_shift_submitted
                  (log (some user.id) shift_submitted (some r.id) d))
              added;
      }
