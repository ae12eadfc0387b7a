-- ===== src/Alerts/Guards.antt =====
-- Who is alerted, and how often.
use mathlib.Core.List.{append_assoc, append-nil}
use fluxtrack_main.Alerts.{
  Event, FloorTally, UserFloors, add_floor, add_floors, emit, gather, has_news, in_tally,
  is_alerted, is_guard_duty, notify_floor_guards, notify_tallied, tally_from,
}
use fluxtrack_main.Alerts.Tally.{
  HasEvent, has_news_lem, in_tally-tally_from, is_on, tally_from-HasEvent,
}
use fluxtrack_main.Calendar.{Instant}
use fluxtrack_main.Model.{Assignment, Database, guard_floor_alert}
use fluxtrack_main.Ops.{notify_users}
use fluxtrack_main.Prelude.{
  All, Bool, Bool-cases, List, [], any, any-Elem, any-append, any-witness, ap, arith, false, filter,
  if◌then◌else◌, inl, inr, length, map, refl, sym, true, ℕ, ◌&&◌, ◌++◌, ◌+◌, ◌==◌, ◌||◌, ◌∙◌, ◌∷◌,
  ◌≡◌, ◌≢◌,
}
use fluxtrack_main.Prelude.Unique.{IsUnique, has_key}

pair_eq : {m n : ℕ} {a b : Database} → m ≡ n → a ≡ b → ◌≡◌ {A = ℕ × Database} (m, a) (n, b)
pair_eq p q = λ i. (p i, q i)

abbrev users_of : UserFloors → List ℕ
users_of rows = map (λ row. row.0) rows

has_key-add_floor :
    (u f : ℕ) (rows : UserFloors) (v : ℕ)
    → has_key (users_of (add_floor u f rows)) v ≡ ((u == v) || has_key (users_of rows) v)
unfolding add_floor
has_key-add_floor u f [] v = refl
has_key-add_floor u f ((w, fs) ∷ rest) v = elim (Bool-cases (w == u)) [
  | inl e ↦ let same : w ≡ u = ground arith in rw (e, same) (ground arith)
  | inr e ↦ rw e (ground (arith, has_key-add_floor u f rest v))
]

All-add_floor :
    (P : ℕ → Type 0) (u f : ℕ) (rows : UserFloors)
    → P u
    → All P (users_of rows)
    → All P (users_of (add_floor u f rows))
unfolding add_floor
All-add_floor P u f [] p h = (p, tt)
All-add_floor P u f ((w, fs) ∷ rest) p h = elim (Bool-cases (w == u)) [
  | inl e ↦ rw e h
  | inr e ↦ rw e (h.0, All-add_floor P u f rest p h.1)
]

IsUnique-add_floor :
    (u f : ℕ) (rows : UserFloors)
    → IsUnique (users_of rows)
    → IsUnique (users_of (add_floor u f rows))
unfolding add_floor
IsUnique-add_floor u f [] h = (tt, tt)
IsUnique-add_floor u f ((w, fs) ∷ rest) h = elim (Bool-cases (w == u)) [
  | inl e ↦ rw e h
  | inr e ↦
      rw e (
        All-add_floor (λ j. w ≢ j) u f rest (λ q. ground arith) h.0,
        IsUnique-add_floor u f rest h.1,
      )
]

module _ (tally : List FloorTally) where
  -- A floor of the user is in the tally.
  abbrev HasFloor : ℕ × List ℕ → Type 0
  HasFloor row = any (in_tally tally) row.1 ≡ true

  added :
      (fs : List ℕ) (f : ℕ) (b : Bool)
      → any (in_tally tally) fs ≡ true
      → any (in_tally tally) (if b then fs else fs ++ f ∷ []) ≡ true
  added fs f true h = h
  added fs f false h = any-append (in_tally tally) fs (f ∷ []) ∙ rw h refl

  add_floor-HasFloor :
      (u f : ℕ) (rows : UserFloors)
      → in_tally tally f ≡ true
      → All HasFloor rows
      → All HasFloor (add_floor u f rows)
  unfolding add_floor
  add_floor-HasFloor u f [] k h = (rw k refl, tt)
  add_floor-HasFloor u f ((w, fs) ∷ rest) k h = elim (Bool-cases (w == u)) [
    | inl e ↦ rw e (added fs f (has_key fs f) h.0, h.1)
    | inr e ↦ rw e (h.0, add_floor-HasFloor u f rest k h.1)
  ]

  -- What the loops keep of the users and their floors.
  abbrev IsGathered : UserFloors → Type 0
  IsGathered rows = IsUnique (users_of rows) × All HasFloor rows

  add_floors-IsGathered :
      (u : ℕ) (fs : List ℕ) (rows : UserFloors)
      → IsGathered rows
      → IsGathered (add_floors tally u fs rows)
  unfolding add_floors
  add_floors-IsGathered u [] rows h = h
  add_floors-IsGathered u (f ∷ fs) rows h = elim (Bool-cases (in_tally tally f)) [
    | inl e ↦ rw e (
        add_floors-IsGathered u fs (add_floor u f rows)
          (IsUnique-add_floor u f rows h.0, add_floor-HasFloor u f rows e h.1))
    | inr e ↦ rw e (add_floors-IsGathered u fs rows h)
  ]

  has_key-add_floors :
      (u : ℕ) (fs : List ℕ) (rows : UserFloors) (v : ℕ)
      → has_key (users_of (add_floors tally u fs rows)) v
        ≡ (has_key (users_of rows) v || (any (in_tally tally) fs && u == v))
  unfolding add_floors
  has_key-add_floors u [] rows v = ground arith
  has_key-add_floors u (f ∷ fs) rows v = elim (Bool-cases (in_tally tally f)) [
    | inl e ↦ rw e (
        has_key-add_floors u fs (add_floor u f rows) v
        ∙ rw (has_key-add_floor u f rows v) (ground arith))
    | inr e ↦ rw e (has_key-add_floors u fs rows v)
  ]

  module _ (db : Database) (now : Instant) where
    gather-IsGathered :
        (duties : List Assignment) (rows : UserFloors)
        → IsGathered rows
        → IsGathered (gather db now tally duties rows)
    unfolding gather
    gather-IsGathered [] rows h = h
    gather-IsGathered (a ∷ duties) rows h = elim (Bool-cases (is_alerted db now a)) [
      | inl e ↦ rw e (gather-IsGathered duties _ (add_floors-IsGathered a.user_id a.floors rows h))
      | inr e ↦ rw e (gather-IsGathered duties rows h)
    ]

    abbrev tells : ℕ → Assignment → Bool
    tells v a = is_alerted db now a && (any (in_tally tally) a.floors && a.user_id == v)

    has_key-gather :
        (duties : List Assignment) (rows : UserFloors) (v : ℕ)
        → has_key (users_of (gather db now tally duties rows)) v
          ≡ (has_key (users_of rows) v || any (tells v) duties)
    unfolding gather
    has_key-gather [] rows v = ground arith
    has_key-gather (a ∷ duties) rows v = elim (Bool-cases (is_alerted db now a)) [
      | inl e ↦ rw e (
          has_key-gather duties _ v
          ∙ rw (has_key-add_floors a.user_id a.floors rows v) (ground arith))
      | inr e ↦ rw e (has_key-gather duties rows v)
    ]

  notify_nobody : (db : Database) → notify_users [] guard_floor_alert db ≡ db
  unfolding notify_users
  notify_nobody db = ap (λ rows. record db { notifications = rows }) (append-nil db.notifications)

  notify_more :
      (u : ℕ) (us : List ℕ) (db : Database)
      → notify_users us guard_floor_alert (notify_users (u ∷ []) guard_floor_alert db)
        ≡ notify_users (u ∷ us) guard_floor_alert db
  unfolding notify_users
  notify_more u us db =
      ap (λ rows. record db { notifications = rows }) (append_assoc db.notifications _ _)

  emit_lem :
      (rows : UserFloors) (n : ℕ) (db : Database)
      → All HasEvent tally
      → All HasFloor rows
      → emit tally rows n db
        ≡ (n + length (users_of rows), notify_users (users_of rows) guard_floor_alert db)
  unfolding emit
  emit_lem [] n db t h = pair_eq (omega arith) (sym (notify_nobody db))
  emit_lem ((u, fs) ∷ rest) n db t h =
      let (f, m, k) = any-witness (in_tally tally) fs h.0 in
      let news : any (has_news tally) fs ≡ true =
        any-Elem (has_news tally) fs f m (has_news_lem tally f t k) in
      rw news (
        emit_lem rest (n + 1) (notify_users (u ∷ []) guard_floor_alert db) t h.1
        ∙ pair_eq (omega arith) (notify_more u (users_of rest) db))

any-filter :
    (p q : Assignment → Bool) (duties : List Assignment)
    → any p (filter q duties) ≡ any (λ a. q a && p a) duties
any-filter p q [] = refl
any-filter p q (a ∷ duties) = ground (arith, any-filter p q duties)

any_eq :
    (p q : Assignment → Bool) (duties : List Assignment)
    → ((a : Assignment) → p a ≡ q a)
    → any p duties ≡ any q duties
any_eq p q [] h = refl
any_eq p q (a ∷ duties) h = rw (h a, any_eq p q duties h) refl

floors_eq : (p q : ℕ → Bool) (fs : List ℕ) → ((f : ℕ) → p f ≡ q f) → any p fs ≡ any q fs
floors_eq p q [] h = refl
floors_eq p q (f ∷ fs) h = rw (h f, floors_eq p q fs h) refl

gather_nothing :
    (db : Database) (now : Instant) (duties : List Assignment) → gather db now [] duties [] ≡ []
unfolding gather add_floors
gather_nothing db now [] = refl
gather_nothing db now (a ∷ duties) = elim (Bool-cases (is_alerted db now a)) [
  | inl e ↦ rw (e, no_floors a.user_id a.floors) (gather_nothing db now duties)
  | inr e ↦ rw e (gather_nothing db now duties)
]
  where
    no_floors : (u : ℕ) (fs : List ℕ) → add_floors [] u fs [] ≡ []
    no_floors u [] = refl
    no_floors u (f ∷ fs) = no_floors u fs

notify_tallied_lem :
    (tally : List FloorTally) (now : Instant) (db : Database)
    → notify_tallied tally now db
      ≡ emit tally (gather db now tally (filter is_guard_duty db.assignments) []) 0 db
unfolding notify_tallied emit
notify_tallied_lem [] now db = rw (gather_nothing db now (filter is_guard_duty db.assignments)) refl
notify_tallied_lem (t ∷ ts) now db = refl

-- A posting of the user that has the user told: an active guard duty on floors that covers the instant,
-- of an active account, with an event on one of its floors.
abbrev pub is_told : List Event → Instant → Database → ℕ → Assignment → Bool
is_told events now db u a =
    is_guard_duty a
    && (is_alerted db now a && (any (λ f. any (is_on f) events) a.floors && a.user_id == u))

-- A run tells exactly the users with an active account and an active guard duty that covers the instant
-- and has a floor with an event; it tells each once, however many duties and events there are, writes
-- nothing else, and returns how many it told.
pub notify_floor_guards_lem :
    (events : List Event) (now : Instant) (db : Database)
    → (told : List ℕ) × IsUnique told
      × ((u : ℕ) → has_key told u ≡ any (is_told events now db u) db.assignments)
      × (notify_floor_guards events now db ≡ (length told, notify_users told guard_floor_alert db))
unfolding notify_floor_guards
notify_floor_guards_lem events now db =
    let tally = tally_from events [] in
    let duties = filter is_guard_duty db.assignments in
    let rows = gather db now tally duties [] in
    let (unique, floors) = gather-IsGathered tally db now duties [] (tt, tt) in
    (
      users_of rows,
      unique,
      λ u.
          has_key-gather tally db now duties [] u
          ∙ any-filter (tells tally db now u) is_guard_duty db.assignments
          ∙ any_eq _ (is_told events now db u) db.assignments (λ a.
            ap (λ b. is_guard_duty a && (is_alerted db now a && (b && a.user_id == u)))
              (floors_eq (in_tally tally) (λ f. any (is_on f) events) a.floors
                (in_tally-tally_from events []))),
      notify_tallied_lem tally now db
          ∙ emit_lem tally rows 0 db (tally_from-HasEvent events [] tt) floors
          ∙ pair_eq (omega arith) refl,
    )
