-- ===== src/Checker/Board.antt =====
-- web/checker.py, `online_list`, `_card_state` and `floor_rows`: the pages that a checker works from.
use mathlib.Core.Path.{subst}
use native.Mathlib.Nat.{div-add-mod}
use fluxtrack_main.Calendar.{Instant, local_date}
use fluxtrack_main.Checker.{
  active_floor_ids, is_completed, is_flag, online_session, verified_by_checker,
}
use fluxtrack_main.Checker.Actions.{is_settled}
use fluxtrack_main.Duty.Assign.{order_by_start}
use fluxtrack_main.Duty.Assign.Members.{Elem-order}
use fluxtrack_main.Model.{
  AcademicTerm, CheckerValidation, Database, Session, SessionStatus, ValidationAction,
  effective_modality, is_absent, is_active, is_online, is_scheduled, is_verified,
}
use fluxtrack_main.Ops.{HasKeys, get_active_term, in_term, keys}
use fluxtrack_main.Prelude.{
  &&-parts, ==-refl, ==_iff, All-Elem, Bool, Bool-cases, Elem, Elem-filter, List, Option-cases, [],
  any, ap, arith, count, count-le-length, false, filter, find, find-Elem, find-none, if_some,
  if◌then◌else◌, inl, inr, is_key, length, ltb, map, not, refl, some, suc, true, zero, ℕ, ◌%◌, ◌&&◌,
  ◌*◌, ◌+◌, ◌-◌, ◌/◌, ◌<◌, ◌==◌, ◌||◌, ◌∙◌, ◌∷◌, ◌≡◌, ◌≤◌, ◌⊎◌,
}
use fluxtrack_main.Prelude.Unique.{IsUnique, IsUnique-Elem, has_key}

abbrev pub is_listed : ℕ → Instant → AcademicTerm → Session → Bool
is_listed user now term s =
    is_key s.online_checker user
    && (s.date == local_date now && (is_scheduled s.status && in_term term s))

-- `online_list`
unfoldable pub online_list : ℕ → Instant → Database → List Session
unfolding order_by_start
online_list user now db =
    if_some (get_active_term db)
      (λ term.
        filter (λ s. is_online (effective_modality s))
          (order_by_start (filter (is_listed user now term) db.sessions)))
      []

pub data CardState : Type 0 where
  idle needs_check card_verified card_flagged card_verified_empty : CardState

-- `session.validations`
abbrev pub validations_of : Database → Session → List CheckerValidation
validations_of db s = filter (λ v. is_key v.session_id s.id) db.validations

abbrev is_verified_empty : ValidationAction → Bool
is_verified_empty ValidationAction.verified_empty = true
is_verified_empty _ = false

-- `_card_state`, of the actions of the validations.
unfoldable pub card_state : List CheckerValidation → SessionStatus → CardState
card_state actions status =
    if any (λ v. is_flag v.action) actions
    then card_flagged
    else if any (λ v. is_verified v.action) actions
    then card_verified
    else if any (λ v. is_verified_empty v.action) actions
    then card_verified_empty
    else if is_active status
    then needs_check
    else idle

abbrev pub is_on_board : List ℕ → Instant → AcademicTerm → Session → Bool
is_on_board floors now term s =
    has_key floors s.room.floor_id
    && (s.date == local_date now && (in_term term s && not (is_absent s.status)))

unfoldable pub board_rows : ℕ → Instant → Database → List Session
unfolding order_by_start active_floor_ids
board_rows user now db =
    if_some (get_active_term db)
      (λ term.
        filter (λ s. not (is_online (effective_modality s)))
          (order_by_start
            (filter (is_on_board (active_floor_ids user now db) now term) db.sessions)))
      []

-- `round(n / d)`, of the exact quotient: a tie goes to the even number.
abbrev pub round_ratio : ℕ → ℕ → ℕ
round_ratio n d =
    if ltb (2 * (n % d)) d
    then n / d
    else if ltb d (2 * (n % d))
    then n / d + 1
    else n / d + (n / d) % 2

pub record Board : Type 0 where
  pub cards : List (Session × CardState)
  pub queue : List Session
  pub verified_count : ℕ
  pub total : ℕ
  pub coverage : ℕ

abbrev is_checked : Database → Session → Bool
is_checked db s = any (λ v. is_verified v.action) (validations_of db s)

unfoldable pub floor_rows : ℕ → Instant → Database → Board
unfolding board_rows card_state
floor_rows user now db =
    let board = board_rows user now db in
    let checked = count (is_checked db) board in
    record {
      cards = map (λ s. (s, card_state (validations_of db s) s.status)) board;
      queue = filter (λ s. is_active s.status && not (is_checked db s)) board;
      verified_count = checked;
      total = length board;
      coverage = if length board == 0 then 100 else round_ratio (100 * checked) (length board);
    }

is_checked_lem : (db : Database) (s : Session) → is_checked db s ≡ verified_by_checker db s
is_checked_lem db s = by_rows db.validations
  where
    by_rows :
        (rows : List CheckerValidation)
        → any (λ v. is_verified v.action) (filter (λ v. is_key v.session_id s.id) rows)
          ≡ any (λ v. is_key v.session_id s.id && is_verified v.action) rows
    by_rows [] = refl
    by_rows (v ∷ rows) = elim (Bool-cases (is_key v.session_id s.id)) [
      | inl e ↦ rw e (ap (λ b. is_verified v.action || b) (by_rows rows))
      | inr e ↦ rw e (by_rows rows)
    ]

-- The quotient and the remainder of at most a hundred times the divisor.
quotient_bound :
    (m d q r : ℕ) → d * q + r ≡ m → m ≤ 100 * d → 0 < d → (q < 100) ⊎ ((q ≡ 100) × (r ≡ 0))
quotient_bound m d q r e h k = elim (Bool-cases (ltb q 100)) [
  | inl f ↦ inl (ground arith)
  | inr f ↦
      let t = q - 100 in
      let split : q ≡ 100 + t = ground arith in
      let e' : d * (100 + t) + r ≡ m = subst (λ x. d * x + r ≡ m) split e in
      let full : (t ≡ 0) × (r ≡ 0) = excess t e' in inr (omega arith, full.1)
]
  where
    excess : (t : ℕ) → d * (100 + t) + r ≡ m → (t ≡ 0) × (r ≡ 0)
    excess zero e' = (refl, omega arith)
    excess (suc t) e' = absurd (omega arith)

round_bound :
    (d q r : ℕ)
    → 0 < d
    → (q < 100) ⊎ ((q ≡ 100) × (r ≡ 0))
    → (if ltb (2 * r) d then q else if ltb d (2 * r) then q + 1 else q + q % 2) ≤ 100
round_bound d q r k (inl h) = ground arith
round_bound d q r k (inr (h, z)) =
    let below : ltb (2 * r) d ≡ true = ground arith in rw below (omega arith)

round_ratio_bound : (n d : ℕ) → n ≤ d → 0 < d → round_ratio (100 * n) d ≤ 100
round_ratio_bound n d h k = round_bound d (100 * n / d) (100 * n % d) k (
    quotient_bound (100 * n) d (100 * n / d) (100 * n % d) (div-add-mod (100 * n) d) (omega arith)
      k)

-- The board counts what `verified_by_checker` reports on each row, at most all of them, and its coverage is
-- at most 100 percent.
pub floor_rows-coverage :
    (user : ℕ) (now : Instant) (db : Database)
    → ((floor_rows user now db).verified_count
        ≡ count (verified_by_checker db) (board_rows user now db))
      × ((floor_rows user now db).verified_count ≤ (floor_rows user now db).total)
      × ((floor_rows user now db).coverage ≤ 100)
unfolding floor_rows
floor_rows-coverage user now db =
    let board = board_rows user now db in
    let within = count-le-length (is_checked db) board in
    (
      same_count board,
      within,
      elim (Bool-cases (length board == 0)) [
        | inl e ↦ rw e (omega arith)
        | inr e ↦
            rw e
              (round_ratio_bound (count (is_checked db) board) (length board) within (ground arith))
      ],
    )
  where
    same_count :
        (rows : List Session) → count (is_checked db) rows ≡ count (verified_by_checker db) rows
    same_count [] = refl
    same_count (s ∷ rows) =
        rw (is_checked_lem db s)
          (ap (λ n. if verified_by_checker db s then suc n else n) (same_count rows))

-- The row with a key that passes a test, where keys are unique.
find_by_key :
    (test : Session → Bool) (rows : List Session) (s : Session)
    → IsUnique (keys rows)
    → Elem s rows
    → test s ≡ true
    → find (λ x. x.id == s.id && test x) rows ≡ some s
find_by_key test rows s unique m h = elim (Option-cases (find (λ x. x.id == s.id && test x) rows)) [
  | inl e ↦
      let no : (s.id == s.id && test s) ≡ false =
        All-Elem (λ x. (x.id == s.id && test x) ≡ false) rows s
          (find-none (λ x. x.id == s.id && test x) rows e) m in
      let no' : true ≡ false = rw (==-refl s.id, h) at no in absurd (ground arith)
  | inr (a, e) ↦
      let (member, passes) = find-Elem (λ x. x.id == s.id && test x) rows a e in
      let (same, _) = &&-parts (a.id == s.id) (test a) passes in
      e ∙ ap some (IsUnique-Elem (λ x. x.id) rows a s unique member m ((==_iff a.id s.id).0 same))
]

-- Where the keys of the sessions are unique, each session on the list can be opened and acted on: the
-- action's own lookup by its key finds it, for this user, and it is neither absent nor completed.
pub online_list-online_session :
    (user : ℕ) (now : Instant) (db : Database) (s : Session)
    → HasKeys db
    → Elem s (online_list user now db)
    → (online_session (some s.id) user db ≡ some s) × (is_settled user now s ≡ false)
unfolding online_list
online_list-online_session user now db s unique m = elim (Option-cases (get_active_term db)) [
  | inl e ↦ absurd (rw e at m)
  | inr (term, e) ↦
      let (m1, online) =
        Elem-filter (λ s. is_online (effective_modality s))
          (order_by_start (filter (is_listed user now term) db.sessions)) s (rw e at m) in
      let (m2, listed) =
        Elem-filter (is_listed user now term) db.sessions s
          (Elem-order (filter (is_listed user now term) db.sessions) s m1) in
      let (mine, rest) = &&-parts (is_key s.online_checker user) _ listed in
      let (_, rest') = &&-parts (s.date == local_date now) _ rest in
      let (fresh, inside) = &&-parts (is_scheduled s.status) (in_term term s) rest' in
      (
        rw (e, find_by_key (in_term term) db.sessions s unique m2 inside, online, mine) refl,
        not_settled s.status fresh,
      )
]
  where
    not_settled :
        (a : SessionStatus) → is_scheduled a ≡ true → (is_absent a || is_completed a) ≡ false
    not_settled a h = ground arith
