-- ===== src/Availability/Latest.antt =====
-- ops/availability.py, _schedule_occupies: the latest approved shift of a schedule on a date.
use mathlib.Core.Path.{subst}
use fluxtrack_main.Availability.{latest_shift}
use fluxtrack_main.Calendar.{Date, Instant}
use fluxtrack_main.Materialize.{approved_items, decided_before, request_of, window_covers}
use fluxtrack_main.Model.{
  Database, ModalityShiftItem, ModalityShiftRequest, Schedule, ShiftStatus, is_approved,
}
use fluxtrack_main.Prelude.{
  &&-parts, All, All-Elem, Bool, Bool-cases, Elem, List, Option, Option-cases, [], ap, arith, false,
  inl, inr, none, refl, some, sym, true, ◌&&◌, ◌<◌, ◌==◌, ◌↔◌, ◌∙◌, ◌∷◌, ◌≡◌, ◌≢◌, ◌≤◌, ◌⊎◌,
}

-- A later decision, or one where the other has none, comes after.
not_before_trans :
    (a b c : Option Instant)
    → decided_before a b ≡ false
    → decided_before b c ≡ false
    → decided_before a c ≡ false
not_before_trans a b c h k = ground arith

not_before_before :
    (a b c : Option Instant)
    → decided_before a b ≡ false
    → decided_before c b ≡ true
    → decided_before a c ≡ false
not_before_before a b c h k = ground arith

-- One decision was made before the other; one without a time comes before those that have one.
abbrev pub IsEarlier : Option Instant → Option Instant → Type 0
IsEarlier a b =
    ((a ≡ none) × (b ≢ none))
    ⊎ ((t : Instant) × (u : Instant) × (a ≡ some t) × (b ≡ some u) × (t < u))

IsEarlier-iff : (a b : Option Instant) → (decided_before a b ≡ true) ↔ IsEarlier a b
IsEarlier-iff none none = (
  (λ h. absurd (ground arith)),
  λ h. elim h [ inl (e, f) ↦ absurd (f refl) | inr (t, u, e, f, l) ↦ absurd (ground arith) ],
)
IsEarlier-iff none (some u) = ((λ h. inl (refl, λ e. ground arith)), λ h. refl)
IsEarlier-iff (some t) none = (
  (λ h. absurd (ground arith)),
  λ h. elim h [ inl (e, f) ↦ absurd (ground arith) | inr (v, u, e, f, l) ↦ absurd (ground arith) ],
)
IsEarlier-iff (some t) (some u) = (
  (λ h. inr (t, u, refl, refl, ground arith)),
  λ h. elim h [ inl (e, f) ↦ absurd (ground arith) | inr (v, w, e, f, l) ↦ ground arith ],
)

not-IsEarlier : (a b : Option Instant) → decided_before a b ≡ false → ¬ IsEarlier a b
not-IsEarlier a b h e =
    let yes : true ≡ false = sym ((IsEarlier-iff a b).1 e) ∙ h in absurd (ground arith)

or_request : ModalityShiftRequest → Option ModalityShiftRequest → ModalityShiftRequest
or_request d none = d
or_request d (some r) = r

approved_iff : (x : ShiftStatus) → (is_approved x ≡ true) ↔ (x ≡ ShiftStatus.approved)
approved_iff x = ground arith

module _ (s : Schedule) (date : Date) (db : Database) where
  -- The item is of the schedule, and its request is approved and covers the date.
  abbrev pub IsShift : ModalityShiftItem → ModalityShiftRequest → Type 0
  IsShift item r =
      (request_of db item ≡ some r)
      × (r.status ≡ ShiftStatus.approved)
      × (item.schedule.id ≡ s.id)
      × (r.window_start ≤ date)
      × (date ≤ r.window_end)

  abbrev pub IsBefore : ModalityShiftRequest → ModalityShiftItem → Type 0
  IsBefore r y = (r' : ModalityShiftRequest) → IsShift y r' → IsEarlier r'.decided_at r.decided_at

  abbrev pub IsNotAfter : ModalityShiftRequest → ModalityShiftItem → Type 0
  IsNotAfter r y =
      (r' : ModalityShiftRequest) → IsShift y r' → ¬ IsEarlier r.decided_at r'.decided_at

  -- In a list of items this one, with its request, is a shift that was decided no earlier than those
  -- before it, and later than those behind it.
  abbrev pub IsLatest : List ModalityShiftItem → ModalityShiftItem → ModalityShiftRequest → Type 0
  IsLatest [] i r = ⊥
  IsLatest (x ∷ xs) i r =
      ((i ≡ x) × IsShift i r × All (IsBefore r) xs) ⊎ (IsLatest xs i r × IsNotAfter r x)

  abbrev pub HasNoShift : List ModalityShiftItem → Type 0
  HasNoShift = All (λ y. (r : ModalityShiftRequest) → ¬ IsShift y r)

  same_request :
      (y : ModalityShiftItem) (r r' : ModalityShiftRequest) → IsShift y r → IsShift y r' → r ≡ r'
  unfolding or_request
  same_request y r r' a b = ap (or_request r) (sym a.0 ∙ b.0)

  abbrev shift_test : ModalityShiftItem → ModalityShiftRequest → Bool
  shift_test item r = is_approved r.status && (item.schedule.id == s.id && window_covers r date)

  IsShift-of_test :
      (item : ModalityShiftItem) (r : ModalityShiftRequest)
      → request_of db item ≡ some r
      → shift_test item r ≡ true
      → IsShift item r
  IsShift-of_test item r e h = (
    e,
    (approved_iff r.status).0 (&&-parts (is_approved r.status) _ h).0,
    ground arith,
    ground arith,
    ground arith,
  )

  test_of_shift :
      (item : ModalityShiftItem) (r : ModalityShiftRequest)
      → IsShift item r
      → shift_test item r ≡ true
  test_of_shift item r (e, a, b, c, d) = let h = (approved_iff r.status).1 a in ground arith

  -- The item contributes its shift, or it is none.
  item-cases :
      (x : ModalityShiftItem) (xs : List ModalityShiftItem)
      → ((r : ModalityShiftRequest) × IsShift x r
          × (approved_items (x ∷ xs) s date db ≡ (x, r) ∷ approved_items xs s date db))
        ⊎ (((r : ModalityShiftRequest) → ¬ IsShift x r)
            × (approved_items (x ∷ xs) s date db ≡ approved_items xs s date db))
  unfolding approved_items or_request
  item-cases x xs = elim (Option-cases (request_of db x)) [
    | inl e ↦
        inr ((λ r h. (let no : none ≡ some r = sym e ∙ h.0 in absurd (ground arith))), rw e refl)
    | inr (r, e) ↦ elim (Bool-cases (shift_test x r)) [
      | inl f ↦ inl (r, IsShift-of_test x r e f, rw (e, f) refl)
      | inr f ↦ inr (
        (λ r' h.
            (let same : r ≡ r' = ap (or_request r) (sym e ∙ h.0) in
              let no : true ≡ false =
                sym (test_of_shift x r' h) ∙ ap (shift_test x) (sym same) ∙ f in
              absurd (ground arith))),
        rw (e, f) refl,
      )
    ]
  ]

  -- From a best so far, either it stays, and all others were decided before it, or the result is the
  -- latest of the others.
  abbrev Outcome :
      ModalityShiftItem × ModalityShiftRequest
      → List ModalityShiftItem
      → Option (ModalityShiftItem × ModalityShiftRequest)
      → Type 0
  Outcome b xs out =
      ((out ≡ some b) × All (IsBefore b.1) xs)
      ⊎ ((i : ModalityShiftItem) × (r : ModalityShiftRequest) × (out ≡ some (i, r))
          × IsLatest xs i r
          × (decided_before r.decided_at b.1.decided_at ≡ false))

  IsBefore-this :
      (x : ModalityShiftItem) (rx rb : ModalityShiftRequest)
      → IsShift x rx
      → decided_before rx.decided_at rb.decided_at ≡ true
      → IsBefore rb x
  IsBefore-this x rx rb h k r' h' =
      (IsEarlier-iff r'.decided_at rb.decided_at).0 (
        subst (λ r. decided_before r.decided_at rb.decided_at ≡ true) (same_request x rx r' h h') k)

  IsNotAfter-this :
      (x : ModalityShiftItem) (rx r : ModalityShiftRequest)
      → IsShift x rx
      → decided_before r.decided_at rx.decided_at ≡ false
      → IsNotAfter r x
  IsNotAfter-this x rx r h k r' h' =
      not-IsEarlier r.decided_at r'.decided_at (
        subst (λ q. decided_before r.decided_at q.decided_at ≡ false) (same_request x rx r' h h') k)

  latest_shift-Outcome :
      (b : ModalityShiftItem × ModalityShiftRequest) (xs : List ModalityShiftItem)
      → Outcome b xs (latest_shift (some b) (approved_items xs s date db))
  unfolding latest_shift approved_items
  latest_shift-Outcome b [] = inl (refl, tt)
  latest_shift-Outcome b (x ∷ xs) = elim (item-cases x xs) [
    | inr (never, e) ↦ rw e (elim (latest_shift-Outcome b xs) [
      | inl (o, rest) ↦ inl (o, ((λ r h. absurd (never r h)), rest))
      | inr (i, r, o, l, k) ↦ inr (i, r, o, inr (l, λ r' h. absurd (never r' h)), k)
    ])
    | inl (rx, h, e) ↦ elim (Bool-cases (decided_before rx.decided_at b.1.decided_at)) [
      | inl f ↦
          rw (e, latest_shift, f)
            (elim (latest_shift-Outcome b xs) [
              | inl (o, rest) ↦ inl (o, (IsBefore-this x rx b.1 h f, rest))
              | inr (i, r, o, l, k) ↦ inr (
                i,
                r,
                o,
                inr (
                  l,
                  IsNotAfter-this x rx r h
                      (not_before_before r.decided_at b.1.decided_at rx.decided_at k f),
                ),
                k,
              )
            ])
      | inr f ↦
          rw (e, latest_shift, f)
            (elim (latest_shift-Outcome (x, rx) xs) [
              | inl (o, rest) ↦ inr (x, rx, o, inl (refl, h, rest), f)
              | inr (i, r, o, l, k) ↦ inr (
                i,
                r,
                o,
                inr (l, IsNotAfter-this x rx r h k),
                not_before_trans r.decided_at rx.decided_at b.1.decided_at k f,
              )
            ])
    ]
  ]

  -- There is no shift, or the one that is found is the latest.
  pub latest_shift-cases :
      (xs : List ModalityShiftItem)
      → ((latest_shift none (approved_items xs s date db) ≡ none) × HasNoShift xs)
        ⊎ ((i : ModalityShiftItem) × (r : ModalityShiftRequest) × (latest_shift none
                (approved_items xs s date db)
              ≡ some (i, r))
            × IsLatest xs i r)
  unfolding latest_shift approved_items
  latest_shift-cases [] = inl (refl, tt)
  latest_shift-cases (x ∷ xs) = elim (item-cases x xs) [
    | inr (never, e) ↦ rw e (elim (latest_shift-cases xs) [
      | inl (o, rest) ↦ inl (o, (never, rest))
      | inr (i, r, o, l) ↦ inr (i, r, o, inr (l, λ r' h. absurd (never r' h)))
    ])
    | inl (rx, h, e) ↦ rw e (elim (latest_shift-Outcome (x, rx) xs) [
      | inl (o, rest) ↦ inr (x, rx, o, inl (refl, h, rest))
      | inr (i, r, o, l, k) ↦ inr (i, r, o, inr (l, IsNotAfter-this x rx r h k))
    ])
  ]

  IsLatest-IsShift :
      (xs : List ModalityShiftItem) (i : ModalityShiftItem) (r : ModalityShiftRequest)
      → IsLatest xs i r
      → Elem i xs × IsShift i r
  IsLatest-IsShift [] i r h = absurd h
  IsLatest-IsShift (x ∷ xs) i r (inl (e, h, rest)) = (inl e, h)
  IsLatest-IsShift (x ∷ xs) i r (inr (l, k)) = let (m, h) = IsLatest-IsShift xs i r l in (inr m, h)

  -- Where there is none, no item is the latest shift.
  pub HasNoShift-IsLatest :
      (xs : List ModalityShiftItem) (i : ModalityShiftItem) (r : ModalityShiftRequest)
      → HasNoShift xs
      → IsLatest xs i r
      → ⊥
  HasNoShift-IsLatest xs i r never l =
      let (m, h) = IsLatest-IsShift xs i r l in
      All-Elem (λ y. (q : ModalityShiftRequest) → ¬ IsShift y q) xs i never m r h

  first_and_later :
      (x i : ModalityShiftItem) (r q : ModalityShiftRequest) (xs : List ModalityShiftItem)
      → IsShift x r
      → All (IsBefore r) xs
      → IsLatest xs i q
      → IsNotAfter q x
      → ⊥
  first_and_later x i r q xs h rest l k =
      let (m, hi) = IsLatest-IsShift xs i q l in k r h (All-Elem (IsBefore r) xs i rest m q hi)

  -- The latest shift is one.
  pub IsLatest-unique :
      (xs : List ModalityShiftItem) (i j : ModalityShiftItem) (r q : ModalityShiftRequest)
      → IsLatest xs i r
      → IsLatest xs j q
      → (i ≡ j) × (r ≡ q)
  IsLatest-unique [] i j r q a b = absurd a
  IsLatest-unique (x ∷ xs) i j r q (inl (e, h, rest)) (inl (f, k, more)) =
      (e ∙ sym f, same_request i r q h (subst (λ y. IsShift y q) (f ∙ sym e) k))
  IsLatest-unique (x ∷ xs) i j r q (inl (e, h, rest)) (inr (l, k)) =
      absurd (first_and_later x j r q xs (subst (λ y. IsShift y r) e h) rest l k)
  IsLatest-unique (x ∷ xs) i j r q (inr (l, k)) (inl (e, h, rest)) =
      absurd (first_and_later x i q r xs (subst (λ y. IsShift y q) e h) rest l k)
  IsLatest-unique (x ∷ xs) i j r q (inr (l, k)) (inr (m, n)) = IsLatest-unique xs i j r q l m
