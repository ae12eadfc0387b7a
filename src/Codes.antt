-- ===== src/Codes.antt =====
-- campus/codes.py: the minting of a room's scan credentials. The values of `secrets.randbelow` are a
-- parameter, the draw of each attempt, and so is the token of `secrets.token_urlsafe`.
use Prim.Native.Char.{Char}
use mathlib.Core.Path.{subst}
use text.Mathlib.TextEquality.{eq_iff}
use text.Mathlib.Text.{◌==◌ as str_eq}
use fluxtrack_main.Effects.{Action, Result, code_exhausted, err, ok, pure, ◌>>=◌}
use fluxtrack_main.Model.{Database, Room}
use fluxtrack_main.Prelude.{
  Bool, Bool-cases, String, [], any, ap, arith, false, find-append_right, if◌then◌else◌, inl, inr,
  not, refl, some, suc, true, zero, ℕ, ◌%◌, ◌*◌, ◌++◌, ◌+◌, ◌/◌, ◌<◌, ◌==◌, ◌∙◌, ◌∷◌, ◌≡◌, ◌⊎◌,
}
use fluxtrack_main.Web.{is_digit, is_digits, is_manual_code, room_by_code}

-- MAX_ATTEMPTS
abbrev pub max_attempts : ℕ
max_attempts = 10

abbrev digit_char : ℕ → Char
digit_char n =
    if n == 0
    then "0"
    else if n == 1
    then "1"
    else if n == 2
    then "2"
    else if n == 3
    then "3"
    else if n == 4
    then "4"
    else if n == 5
    then "5"
    else if n == 6
    then "6"
    else if n == 7
    then "7"
    else if n == 8
    then "8"
    else "9"

abbrev pub ten_to : ℕ → ℕ
ten_to zero = 1
ten_to (suc w) = 10 * ten_to w

-- `f"{n:0{digits}d}"`, of a number with at most so many digits.
abbrev pub padded : ℕ → ℕ → String
padded zero n = String.[]
padded (suc w) n = String.◌∷◌ (digit_char (n / ten_to w % 10)) (padded w n)

abbrev pub is_code_taken : String → Database → Bool
is_code_taken candidate db = any (λ r. str_eq r.manual_code candidate) db.rooms

is_digit_if :
    (b : Bool) (c d : Char)
    → is_digit c ≡ true
    → is_digit d ≡ true
    → is_digit (if b then c else d) ≡ true
is_digit_if true c d h k = h
is_digit_if false c d h k = k

is_digit-digit_char : (n : ℕ) → is_digit (digit_char n) ≡ true
is_digit-digit_char n = is_digit_if (n == 0) "0" _ refl (
    is_digit_if (n == 1) "1" _ refl (
      is_digit_if (n == 2) "2" _ refl (
        is_digit_if (n == 3) "3" _ refl (
          is_digit_if (n == 4) "4" _ refl (
            is_digit_if (n == 5) "5" _ refl (
              is_digit_if (n == 6) "6" _ refl
                (is_digit_if (n == 7) "7" _ refl (is_digit_if (n == 8) "8" "9" refl refl))))))))

is_digits-padded : (w n : ℕ) → is_digits w (padded w n) ≡ true
unfolding is_digits
is_digits-padded zero n = refl
is_digits-padded (suc w) n = rw (is_digit-digit_char (n / ten_to w % 10)) (is_digits-padded w n)

free_code-found :
    (code : String) (db : Database) (room : Room)
    → is_code_taken code db ≡ false
    → room.manual_code ≡ code
    → room_by_code code (record db { rooms = db.rooms ++ room ∷ [] }) ≡ some room
free_code-found code db room free same =
    find-append_right (λ r. str_eq r.manual_code code) db.rooms (room ∷ []) free
    ∙ rw ((eq_iff room.manual_code code).1 same) refl

module _ (draw : ℕ → ℕ) where
  abbrev pub candidate : ℕ → String
  candidate i = padded 6 (draw i)

  -- `for _ in range(attempts)`, from attempt i on.
  pub mint_from : ℕ → ℕ → Action String
  mint_from i zero db = (err code_exhausted, db)
  mint_from i (suc left) db =
      let rest = mint_from (suc i) left db in
      if not (is_code_taken (candidate i) db) then (ok (candidate i), db) else rest

  -- `generate_manual_code`
  unfoldable pub generate_manual_code : ℕ → Action String
  unfolding mint_from
  generate_manual_code attempts db = mint_from 0 attempts db

  -- `new_room_credentials`
  unfoldable pub new_room_credentials : String → Action (String × String)
  unfolding generate_manual_code
  new_room_credentials token = do code ← generate_manual_code max_attempts; pure (token, code)

  abbrev pub IsTaken : Database → ℕ → Type 0
  IsTaken db i = is_code_taken (candidate i) db ≡ true

  -- The first free draw, of so many from attempt i on.
  abbrev pub IsFirstFree : ℕ → ℕ → Database → Result String × Database → Type 0
  IsFirstFree i left db run =
      ((j : ℕ) × (j < left)
        × (run ≡ (ok (candidate (i + j)), db))
        × (is_code_taken (candidate (i + j)) db ≡ false)
        × ((m : ℕ) → m < j → IsTaken db (i + m)))
      ⊎ ((run ≡ (err code_exhausted, db)) × ((m : ℕ) → m < left → IsTaken db (i + m)))

  earlier :
      (i : ℕ) (db : Database) (n : ℕ)
      → IsTaken db i
      → ((m : ℕ) → m < n → IsTaken db (suc i + m))
      → (m : ℕ) → m < suc n
      → IsTaken db (i + m)
  earlier i db n here rest zero h = subst (IsTaken db) (omega arith) here
  earlier i db n here rest (suc m) h = subst (IsTaken db) (omega arith) (rest m (omega arith))

  mint_from-IsFirstFree : (i left : ℕ) (db : Database) → IsFirstFree i left db (mint_from i left db)
  unfolding mint_from
  mint_from-IsFirstFree i zero db = inr (refl, λ m h. absurd (omega arith))
  mint_from-IsFirstFree i (suc left) db = elim (Bool-cases (is_code_taken (candidate i) db)) [
    | inr e ↦ rw e (
        inl (
          0,
          omega arith,
          ap (λ k. (ok (candidate k), db)) (omega arith),
          subst (λ k. is_code_taken (candidate k) db ≡ false) (omega arith) e,
          λ m h. absurd (omega arith),
        ))
    | inl e ↦ elim (mint_from-IsFirstFree (suc i) left db) [
      | inl (j, below, run, free, taken) ↦ rw e (
          inl (
            suc j,
            omega arith,
            run ∙ ap (λ k. (ok (candidate k), db)) (omega arith),
            subst (λ k. is_code_taken (candidate k) db ≡ false) (omega arith) free,
            earlier i db j e taken,
          ))
      | inr (run, taken) ↦ rw e (inr (run, earlier i db left e taken))
    ]
  ]

  -- A code that was minted, with the draw of its attempt; or none, since all are taken.
  abbrev pub IsMinted : ℕ → Database → Result String × Database → Type 0
  IsMinted attempts db run =
      ((j : ℕ) × (j < attempts)
        × (run ≡ (ok (candidate j), db))
        × (is_manual_code (candidate j) ≡ true)
        × ((m : ℕ) → m < j → IsTaken db m)
        × ((room : Room)
            → room.manual_code ≡ candidate j
            → room_by_code (candidate j) (record db { rooms = db.rooms ++ room ∷ [] }) ≡ some room))
      ⊎ ((run ≡ (err code_exhausted, db)) × ((m : ℕ) → m < attempts → IsTaken db m))

  -- Of the draws in their order, the code is the first that no room has: it reads as a manual code, and a
  -- room that is added with it is the one that a lookup of the code finds. Where every one of the attempts
  -- draws a code that is taken, and only then, it raises ManualCodeExhausted. Nothing is written.
  pub generate_manual_code-found :
      (attempts : ℕ) (db : Database) → IsMinted attempts db (generate_manual_code attempts db)
  unfolding generate_manual_code is_manual_code
  generate_manual_code-found attempts db = elim (mint_from-IsFirstFree 0 attempts db) [
    | inl (j, below, run, free, taken) ↦ inl (
      j,
      below,
      run ∙ ap (λ k. (ok (candidate k), db)) (omega arith),
      is_digits-padded 6 (draw j),
      (λ m h. subst (IsTaken db) (omega arith) (taken m h)),
      λ room same.
          free_code-found (candidate j) db room
            (subst (λ k. is_code_taken (candidate k) db ≡ false) (omega arith) free) same,
    )
    | inr (run, taken) ↦ inr (run, λ m h. subst (IsTaken db) (omega arith) (taken m h))
  ]
