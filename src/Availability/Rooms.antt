-- ===== src/Availability/Rooms.antt =====
-- Which rooms are offered.
use fluxtrack_main.Availability.{
  free_rooms_in_building, insert_room, order_by_code, prefer, room_is_free,
}
use fluxtrack_main.Calendar.{Instant}
use fluxtrack_main.Model.{Database, Room}
use fluxtrack_main.Prelude.{
  ==_iff, Bool, Bool-cases, Elem, Elem-filter, Elem-filter_of, List, Option, String, [], any, ap,
  filter, inl, inr, none, not, some, true, ℕ, ◌++◌, ◌==◌, ◌↔◌, ◌∷◌, ◌≡◌, ◌⊎◌,
}

module _ (before : String → String → Bool) where
  Elem-insert :
      (r x : Room) (xs : List Room) → Elem r (insert_room before x xs) ↔ ((r ≡ x) ⊎ Elem r xs)
  unfolding insert_room
  Elem-insert r x [] = (λ m. m, λ m. m)
  Elem-insert r x (y ∷ ys) = elim (Bool-cases (before y.code x.code)) [
    | inr e ↦ rw e (λ m. m, λ m. m)
    | inl e ↦
        let (f, g) = Elem-insert r x ys in
        rw e (swap (λ (a : Elem r (insert_room before x ys)). f a), back g)
  ]
    where
      swap :
          (Elem r (insert_room before x ys) → (r ≡ x) ⊎ Elem r ys)
          → (r ≡ y) ⊎ Elem r (insert_room before x ys)
          → (r ≡ x) ⊎ ((r ≡ y) ⊎ Elem r ys)
      swap f (inl e) = inr (inl e)
      swap f (inr m) = elim (f m) [ inl e ↦ inl e | inr n ↦ inr (inr n) ]

      back :
          ((r ≡ x) ⊎ Elem r ys → Elem r (insert_room before x ys))
          → (r ≡ x) ⊎ ((r ≡ y) ⊎ Elem r ys)
          → (r ≡ y) ⊎ Elem r (insert_room before x ys)
      back g (inl e) = inr (g (inl e))
      back g (inr (inl e)) = inl e
      back g (inr (inr m)) = inr (g (inr m))

  Elem-order : (r : Room) (xs : List Room) → Elem r (order_by_code before xs) ↔ Elem r xs
  unfolding order_by_code
  Elem-order r [] = (λ m. m, λ m. m)
  Elem-order r (x ∷ xs) =
      let (f, g) = Elem-insert r x (order_by_code before xs) in
      let (h, k) = Elem-order r xs in
      (
        λ m. elim (f m) [ inl e ↦ inl e | inr n ↦ inr (h n) ],
        λ m. g (elim m [ inl e ↦ inl e | inr n ↦ inr (k n) ]),
      )

  Elem-append : (r : Room) (xs ys : List Room) → Elem r (xs ++ ys) ↔ (Elem r xs ⊎ Elem r ys)
  Elem-append r [] ys = (λ m. inr m, λ m. elim m [ inl e ↦ absurd e | inr n ↦ n ])
  Elem-append r (x ∷ xs) ys =
      let (f, g) = Elem-append r xs ys in
      (
        λ m. elim m [
          | inl e ↦ inl (inl e)
          | inr n ↦ elim (f n) [ inl a ↦ inl (inr a) | inr b ↦ inr b ]
        ],
        λ m. elim m [
          | inl a ↦ elim a [ inl e ↦ inl e | inr n ↦ inr (g (inl n)) ]
          | inr b ↦ inr (g (inr b))
        ],
      )

  -- A split of a list by a test.
  Elem-split :
      (p : Room → Bool) (r : Room) (xs : List Room)
      → Elem r (filter p xs ++ filter (λ x. not (p x)) xs) ↔ Elem r xs
  Elem-split p r xs =
      let (f, g) = Elem-append r (filter p xs) (filter (λ x. not (p x)) xs) in
      (
        λ m. elim (f m) [
          | inl a ↦ (Elem-filter p xs r a).0
          | inr b ↦ (Elem-filter (λ x. not (p x)) xs r b).0
        ],
        λ m. g (elim (Bool-cases (p r)) [
          | inl e ↦ inl (Elem-filter_of p xs r m e)
          | inr e ↦ inr (Elem-filter_of (λ x. not (p x)) xs r m (ap not e))
        ]),
      )

  Elem-prefer :
      (wanted : Option Room) (r : Room) (xs : List Room) → Elem r (prefer wanted xs) ↔ Elem r xs
  Elem-prefer none r xs = (λ m. m, λ m. m)
  Elem-prefer (some p) r xs = elim (Bool-cases (any (λ x. x.id == p.id) xs)) [
    | inl e ↦ rw e (Elem-split (λ x. x.id == p.id) r xs)
    | inr e ↦ rw e (λ m. m, λ m. m)
  ]

  -- A room is offered for a building and an interval exactly when it is a room of the building that is
  -- free in the interval, whatever the order and the preferred room.
  pub free_rooms_in_building_iff :
      (building : ℕ) (start end : Instant) (exclude : Option ℕ) (wanted : Option Room)
      (db : Database) (r : Room)
      → Elem r (free_rooms_in_building before building start end exclude wanted db) ↔ (
          Elem r db.rooms
          × (r.building_id ≡ building)
          × (room_is_free r start end exclude none db ≡ true))
  unfolding free_rooms_in_building
  free_rooms_in_building_iff building start end exclude wanted db r =
      let there = λ (x : Room). x.building_id == building in
      let free = λ (x : Room). room_is_free x start end exclude none db in
      let rows = order_by_code before (filter there db.rooms) in
      (
        λ m.
            let (n, f) = Elem-filter free rows r ((Elem-prefer wanted r (filter free rows)).0 m) in
            let (k, b) =
              Elem-filter there db.rooms r ((Elem-order r (filter there db.rooms)).0 n) in
            (k, (==_iff r.building_id building).0 b, f),
        λ (k, b, f). (Elem-prefer wanted r (filter free rows)).1 (
            Elem-filter_of free rows r
              ((Elem-order r (filter there db.rooms)).1
                (Elem-filter_of there db.rooms r k ((==_iff r.building_id building).1 b)))
              f),
      )
