-- ===== src/Shifts/Submit/Double.antt =====
-- No second request for a class: what the ticket leaves is found by the next submission.
use fluxtrack_main.Calendar.{Date, Instant, day}
use fluxtrack_main.Effects.{Error, Result, err, ok}
use fluxtrack_main.Model.{
  Database, Modality, ModalityShiftItem, ModalityShiftRequest, Room, Schedule, User, is_pending,
}
use fluxtrack_main.Ops.{log, notify_users}
use fluxtrack_main.Prelude.{
  ==-refl, ==_iff, Bool, Elem, List, Option, String, [], any, any-Elem, any-append, ap, arith,
  false, inl, inr, map, refl, sym, true, ℕ, ◌&&◌, ◌*◌, ◌++◌, ◌-◌, ◌==◌, ◌||◌, ◌∙◌, ◌∷◌, ◌≡◌,
}
use fluxtrack_main.Shifts.{in_window_sessions}
use fluxtrack_main.Shifts.Submit.{
  TimeMove, add_items, cooldown_days, decided_since, has_item, has_recent, new_item, new_request,
  open_ticket, preferences, submit_modality_shift, valid_preference,
}
use fluxtrack_main.Shifts.Submit.Cases.{accepted_run, submit-cases, ticket}
use fluxtrack_main.Suspensions.{fresh_key}

abbrev is_item_of : ℕ → ℕ → ModalityShiftItem → Bool
is_item_of request_id schedule_id item =
    item.request_id == request_id && item.schedule.id == schedule_id

module _ (request_id : ℕ) (move : TimeMove) where
  add_items-requests :
      (chosen : List (Schedule × Option Room)) (db : Database)
      → (add_items request_id move chosen db).requests ≡ db.requests
  unfolding add_items
  add_items-requests [] db = refl
  add_items-requests ((s, room) ∷ rest) db = add_items-requests rest (record db {
    items = db.items ++ new_item (fresh_key (map (λ i. i.id) db.items)) request_id s room move ∷ [];
  })

  add_items-kept :
      (p : ModalityShiftItem → Bool) (chosen : List (Schedule × Option Room)) (db : Database)
      → any p db.items ≡ true
      → any p (add_items request_id move chosen db).items ≡ true
  unfolding add_items
  add_items-kept p [] db h = h
  add_items-kept p ((s, room) ∷ rest) db h =
      let item = new_item (fresh_key (map (λ i. i.id) db.items)) request_id s room move in
      add_items-kept p rest (record db { items = db.items ++ item ∷ [] })
        (any-append p db.items (item ∷ []) ∙ rw h refl)

  add_items-has :
      (s : Schedule) (room : Option Room) (chosen : List (Schedule × Option Room)) (db : Database)
      → Elem (s, room) chosen
      → any (is_item_of request_id s.id) (add_items request_id move chosen db).items ≡ true
  unfolding add_items
  add_items-has s room [] db m = absurd m
  add_items-has s room ((t, other) ∷ rest) db (inl e) =
      let item = new_item (fresh_key (map (λ i. i.id) db.items)) request_id t other move in
      add_items-kept (is_item_of request_id s.id) rest (record db { items = db.items ++ item ∷ [] })
        (any-append (is_item_of request_id s.id) db.items (item ∷ [])
          ∙ found (any (is_item_of request_id s.id) db.items)
              ((==_iff t.id s.id).1 (sym (ap (λ p. p.0.id) e))))
    where
      found :
          (b : Bool)
          → (t.id == s.id) ≡ true
          → (b || (((request_id == request_id) && (t.id == s.id)) || false)) ≡ true
      found b q = rw (==-refl request_id, q) (ground arith)
  add_items-has s room ((t, other) ∷ rest) db (inr m) =
      add_items-has s room rest
        (record db {
          items =
              db.items
              ++ new_item (fresh_key (map (λ i. i.id) db.items)) request_id t other move ∷ [];
        })
        m

Elem-map :
    (f : Schedule → Option Room) (ss : List Schedule) (s : Schedule)
    → Elem s ss
    → Elem {A = Schedule × Option Room} (s, f s) (map (λ x. (x, f x)) ss)
Elem-map f [] s m = absurd m
Elem-map f (x ∷ xs) s (inl e) = inl (λ i. (e i, f (e i)))
Elem-map f (x ∷ xs) s (inr m) = inr (Elem-map f xs s m)

Elem-last : (rs : List ModalityShiftRequest) (r : ModalityShiftRequest) → Elem r (rs ++ r ∷ [])
Elem-last [] r = inl refl
Elem-last (x ∷ xs) r = inr (Elem-last xs r)

abbrev answered : Result ModalityShiftRequest → Bool
answered (ok r) = true
answered (err e) = false

ok_ne_err_request :
    (run : Result ModalityShiftRequest × Database) (r : ModalityShiftRequest)
    (after before : Database) (e : Error)
    → run ≡ (ok r, after)
    → run ≡ (err e, before)
    → ⊥
ok_ne_err_request run r after before e p q =
    let no : true ≡ false = ap (λ x. answered x.0) (sym p ∙ q) in ground arith

module _ (before : String → String → Bool) (user : User) (schedules : List Schedule)
    (target : Modality) (first last : Date) (wanted : ℕ → Option Room) (move : TimeMove)
    (now : Instant) (db : Database) where
  left_recent :
      (decider : User) (later : Instant) (s : Schedule)
      → Elem s schedules
      → has_recent user later
          (ticket before user schedules target first last wanted move now db decider).1
          s
        ≡ true
  unfolding open_ticket log notify_users
  left_recent decider later s m =
      let r = new_request user decider target first last move db in
      let chosen = preferences before wanted schedules first last db in
      let start = record db { requests = db.requests ++ r ∷ [] } in
      let made = add_items r.id move chosen start in
      let there : Elem r made.requests =
        rw (add_items-requests r.id move chosen start) (Elem-last db.requests r) in
      let item : has_item s made r ≡ true =
        add_items-has r.id move s
          (valid_preference before wanted s (in_window_sessions s first last db) db) chosen start
          (Elem-map (λ x. valid_preference before wanted x (in_window_sessions x first last db) db)
            schedules s m) in
      any-Elem
        (λ x.
          x.requester == user.id
          && (has_item s made x
              && (is_pending x.status || decided_since x.decided_at (later - cooldown_days * day))))
        made.requests r there (rw (==-refl user.id, item) refl)

  -- After a submission that opened its ticket, the same user's next submission for any of the same
  -- classes is refused and writes nothing, whatever else it asks for and whenever it comes.
  pub submit_modality_shift_twice :
      (made : ModalityShiftRequest) (after : Database)
      → submit_modality_shift before user schedules target first last wanted move now db
        ≡ (ok made, after)
      → (schedules' : List Schedule) (target' : Modality) (first' last' : Date)
        (wanted' : ℕ → Option Room) (move' : TimeMove) (later : Instant) (s : Schedule)
      → Elem s schedules
      → Elem s schedules'
      → (e : Error) × (submit_modality_shift before user schedules' target' first' last' wanted'
            move' later after
          ≡ (err e, after))
  unfolding open_ticket
  submit_modality_shift_twice made after q schedules' target' first' last' wanted' move' later s m
        n =
      elim (submit-cases before user schedules target first last wanted move now db) [
        | inl (e, h) ↦ absurd (ok_ne_err_request _ made after db e q h)
        | inr accepted ↦
            let decider = accepted.decider in
            let h =
              accepted_run before user schedules target first last wanted move now db accepted in
            elim (submit-cases before user schedules' target' first' last' wanted' move' later
              after) [
                | inl r ↦ r
                | inr a ↦
                    let left : after
                        ≡ (ticket before user schedules target first last wanted move now db
                            decider).1 =
                      ap (λ p. p.1) (sym q ∙ h) in
                    let recent : any (has_recent user later after) schedules' ≡ true =
                      any-Elem (has_recent user later after) schedules' s n (
                        ap (λ d. has_recent user later d s) left ∙ left_recent decider later s m) in
                    absurd (clash recent a.no_recent)
              ]
      ]
    where
      clash : {b : Bool} → b ≡ true → b ≡ false → ⊥
      clash x y = cc
