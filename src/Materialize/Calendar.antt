-- ===== src/Materialize/Calendar.antt =====
-- Which occurrences there are after a materialization.
use mathlib.Core.Path.{ap₂, subst}
use fluxtrack_main.Calendar.{Date, Instant, weekday}
use fluxtrack_main.Effects.{Action, ok, pure, ◌>>=◌}
use fluxtrack_main.Materialize.{
  MaterializationResult, apply_approved_shift, born, is_occurrence, materialize_date,
  materialize_days, materialize_one, visit,
}
use fluxtrack_main.Materialize.Born.{approved-occurrences, occurrences}
use fluxtrack_main.Model.{Database, Schedule}
use fluxtrack_main.Ops.{keys}
use fluxtrack_main.Prelude.{
  &&-parts, ==_iff, Bool, Bool-cases, List, [], any, any-count, ap, arith, count, count-append,
  false, if◌then◌else◌, inl, inr, leb, ltb, max, not, refl, suc, sym, true, zero, ℕ, ◌&&◌, ◌++◌,
  ◌+◌, ◌==◌, ◌||◌, ◌∙◌, ◌∷◌, ◌≡◌, ◌≤◌,
}
use fluxtrack_main.Suspensions.{fresh_key}

-- An occurrence that has to be there is added unless it is there.

abbrev pub grow : Bool → ℕ → ℕ
grow b n = if b then max 1 n else n

grow-grow : (a b : Bool) (n : ℕ) → grow b (grow a n) ≡ grow (a || b) n
grow-grow a b n = ground arith

-- Every occurrence is materialized once at most.
abbrev pub IsOnce : Database → Type 0
IsOnce db = (t : ℕ) (d : Date) → occurrences t d db ≤ 1

-- An action that succeeds, and adds the missing ones of the occurrences `due`.
abbrev pub Adds : (ℕ → Date → Bool) → Action MaterializationResult → Database → Type 0
Adds due m db =
    (r : MaterializationResult) × (after : Database) × (m db ≡ (ok r, after))
    × ((t : ℕ) (d : Date) → occurrences t d after ≡ grow (due t d) (occurrences t d db))

grow-IsOnce :
    (due : ℕ → Date → Bool) (db after : Database)
    → IsOnce db
    → ((t : ℕ) (d : Date) → occurrences t d after ≡ grow (due t d) (occurrences t d db))
    → IsOnce after
grow-IsOnce due db after once h t d = ground (arith, once t d, h t d)

abbrev due_one : Schedule → Date → ℕ → Date → Bool
due_one schedule date t d = schedule.id == t && date == d

module _ (now : Instant) (date : Date) (schedule : Schedule) (r : MaterializationResult)
    (db : Database) where
  same_lem :
      (t : ℕ) (d : Date)
      → due_one schedule date t d ≡ true
      → occurrences schedule.id date db ≡ occurrences t d db
  same_lem t d e =
      let (i, j) = &&-parts (schedule.id == t) (date == d) e in
      ap₂ (λ x y. occurrences x y db) ((==_iff schedule.id t).0 i) ((==_iff date d).0 j)

  kept_lem :
      any (is_occurrence schedule.id date) db.sessions ≡ true
      → (t : ℕ) (d : Date)
      → occurrences t d db ≡ grow (due_one schedule date t d) (occurrences t d db)
  kept_lem e t d = elim (Bool-cases (due_one schedule date t d)) [
    | inr other ↦ rw other refl
    | inl due ↦ rw due (
        let there = any-count (is_occurrence schedule.id date) db.sessions in
        let same = same_lem t d due in ground arith)
  ]

  born_lem :
      any (is_occurrence schedule.id date) db.sessions ≡ false
      → (k t : ℕ) (d : Date)
      → occurrences t d (
          apply_approved_shift k schedule date now
            (record db { sessions = db.sessions ++ born k schedule date ∷ [] }))
        ≡ grow (due_one schedule date t d) (occurrences t d db)
  born_lem e k t d =
      approved-occurrences t d k schedule date now
        (record db { sessions = db.sessions ++ born k schedule date ∷ [] })
      ∙ count-append (is_occurrence t d) db.sessions (born k schedule date ∷ [])
      ∙ elim (Bool-cases (due_one schedule date t d)) [
        | inr other ↦ rw other (omega arith)
        | inl due ↦ rw due (
            let absent = any-count (is_occurrence schedule.id date) db.sessions in
            let same = same_lem t d due in ground arith)
      ]

  one-Adds : IsOnce db → Adds (due_one schedule date) (materialize_one now date schedule r) db
  unfolding materialize_one
  one-Adds once = elim (Bool-cases (any (is_occurrence schedule.id date) db.sessions)) [
    | inl e ↦ (record r { existing = r.existing + 1 }, db, rw (fine, e) refl, kept_lem e)
    | inr e ↦ (
      record r { created = r.created + 1 },
      apply_approved_shift (fresh_key (keys db.sessions)) schedule date now (record db {
        sessions = db.sessions ++ born (fresh_key (keys db.sessions)) schedule date ∷ [];
      }),
      rw (fine, e) refl,
      born_lem e (fresh_key (keys db.sessions)),
    )
  ]
    where
      fine : ltb 1 (count (is_occurrence schedule.id date) db.sessions) ≡ false
      fine = ground (arith, once schedule.id date)

Adds-bind :
    (due more : ℕ → Date → Bool) (m : Action MaterializationResult)
    (k : MaterializationResult → Action MaterializationResult) (db : Database)
    → IsOnce db
    → Adds due m db
    → ((r : MaterializationResult) (mid : Database) → IsOnce mid → Adds more (k r) mid)
    → Adds (λ t d. due t d || more t d) (m >>= k) db
Adds-bind due more m k db once (r, mid, e, h) rest =
    let (r', after, e', h') = rest r mid (grow-IsOnce due db mid once h) in
    (
      r',
      after,
      rw e e',
      λ t d.
          h' t d
          ∙ ap (grow (more t d)) (h t d)
          ∙ grow-grow (due t d) (more t d) (occurrences t d db),
    )

pub Adds-eq :
    (due same : ℕ → Date → Bool) (m : Action MaterializationResult) (db : Database)
    → ((t : ℕ) (d : Date) → due t d ≡ same t d)
    → Adds due m db
    → Adds same m db
Adds-eq due same m db e (r, after, q, h) =
    (r, after, q, λ t d. h t d ∙ ap (λ b. grow b (occurrences t d db)) (e t d))

Adds-none :
    (m : Action MaterializationResult) (r : MaterializationResult) (db : Database)
    → m db ≡ (ok r, db)
    → Adds (λ _ _. false) m db
Adds-none m r db e = (r, db, e, λ t d. refl)

module _ (now : Instant) (excused : Date → ℕ → Bool) where
  -- The schedule meets on the date, and the calendar does not excuse it.
  abbrev pub meets : Date → Schedule → Bool
  meets date s = s.day_of_week == weekday date && not (excused date s.room.building_id)

  abbrev pub due_on : Date → List Schedule → ℕ → Date → Bool
  due_on date ss t d = date == d && any (λ s. s.id == t && meets date s) ss

  visit-Adds :
      (date : Date) (s : Schedule) (r : MaterializationResult) (db : Database)
      → IsOnce db
      → Adds (λ t d. meets date s && due_one s date t d) (visit now excused date s r) db
  visit-Adds date s r db once = elim (Bool-cases (s.day_of_week == weekday date)) [
    | inr off ↦ rw off (r, db, refl, λ t d. refl)
    | inl on ↦ elim (Bool-cases (excused date s.room.building_id)) [
      | inl free ↦ rw (on, free) (record r { skipped = r.skipped + 1 }, db, refl, λ t d. refl)
      | inr held ↦ rw (on, held) (one-Adds now date s r db once)
    ]
  ]

  date-Adds :
      (date : Date) (ss : List Schedule) (r : MaterializationResult) (db : Database)
      → IsOnce db
      → Adds (due_on date ss) (materialize_date now excused date ss r) db
  unfolding materialize_date
  date-Adds date [] r db once =
      Adds-eq (λ _ _. false) (due_on date []) (pure r) db (λ t d. ground arith)
        (Adds-none (pure r) r db refl)
  date-Adds date (s ∷ ss) r db once =
      Adds-eq (λ t d. meets date s && due_one s date t d || due_on date ss t d)
        (due_on date (s ∷ ss)) (materialize_date now excused date (s ∷ ss) r) db
        (λ t d. ground arith)
        (Adds-bind (λ t d. meets date s && due_one s date t d) (due_on date ss)
          (visit now excused date s r) (materialize_date now excused date ss) db once
          (visit-Adds date s r db once) (date-Adds date ss))

  -- The date lies in the range and the schedule, one of the list, meets on it.
  abbrev pub due_in : Date → ℕ → List Schedule → ℕ → Date → Bool
  due_in from n ss t d = (leb from d && ltb d (from + n)) && any (λ s. s.id == t && meets d s) ss

  days-step :
      (from n : ℕ) (ss : List Schedule) (t : ℕ) (d : Date)
      → (due_on from ss t d || due_in (from + 1) n ss t d) ≡ due_in from (suc n) ss t d
  days-step from n ss t d = elim (Bool-cases (from == d)) [
    | inl e ↦
        subst (λ f. (due_on f ss t d || due_in (f + 1) n ss t d) ≡ due_in f (suc n) ss t d)
          (sym ((==_iff from d).0 e)) (ground arith)
    | inr e ↦ ground arith
  ]

  pub days-Adds :
      (ss : List Schedule) (n : ℕ) (from : Date) (r : MaterializationResult) (db : Database)
      → IsOnce db
      → Adds (due_in from n ss) (materialize_days now excused ss n from r) db
  unfolding materialize_days
  days-Adds ss zero from r db once =
      Adds-eq (λ _ _. false) (due_in from 0 ss) (pure r) db (λ t d. ground arith)
        (Adds-none (pure r) r db refl)
  days-Adds ss (suc n) from r db once =
      Adds-eq (λ t d. due_on from ss t d || due_in (from + 1) n ss t d) (due_in from (suc n) ss)
        (materialize_days now excused ss (suc n) from r) db (days-step from n ss)
        (Adds-bind (due_on from ss) (due_in (from + 1) n ss)
          (materialize_date now excused from ss r) (materialize_days now excused ss n (from + 1)) db
          once (date-Adds from ss r db once) (days-Adds ss n (from + 1)))
