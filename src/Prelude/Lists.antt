-- ===== src/Prelude/Lists.antt =====
-- Lists as the program reads them: `any`, `all`, `next`, `.filter`, `.count`, and the predicates on
-- their members.
use Prim.Native.Nat.{ℕ, zero, ◌-◌, suc, ◌+◌, ◌≤◌}
use mathlib.Core.Path.{◌≡◌, refl, ap}
use mathlib.Core.Logic.{◌⊎◌, inl, inr}
use mathlib.Core.Bool.{Bool, true, false, ◌&&◌, ◌||◌}
use mathlib.Core.Option.{Option, none, some}
use mathlib.Core.List.{List, [], ◌∷◌, ◌++◌}
use native.Mathlib.Omega.{arith}
use fluxtrack_main.Prelude.Tests.{Bool-cases, if◌then◌else◌, ltb}

module _ {ℓ} {A : Type ℓ} where
  abbrev pub length : List A → ℕ
  length [] = 0
  length (x ∷ xs) = suc (length xs)

  abbrev pub any : (A → Bool) → List A → Bool
  any p [] = false
  any p (x ∷ xs) = p x || any p xs

  abbrev pub all : (A → Bool) → List A → Bool
  all p [] = true
  all p (x ∷ xs) = p x && all p xs

  -- `next((x for x in xs if p(x)), None)`, and `.filter(p).first()`
  abbrev pub find : (A → Bool) → List A → Option A
  find p [] = none
  find p (x ∷ xs) = let rest = find p xs in if p x then some x else rest

  -- `[x for x in xs if p(x)]`, and the rows of `.filter(p)`
  abbrev pub filter : (A → Bool) → List A → List A
  filter p [] = []
  filter p (x ∷ xs) = let rest = filter p xs in if p x then x ∷ rest else rest

  abbrev pub count : (A → Bool) → List A → ℕ
  count p [] = 0
  count p (x ∷ xs) = let rest = count p xs in if p x then suc rest else rest

  abbrev pub All {κ} : (A → Type κ) → List A → Type κ
  All P [] = Unit
  All P (x ∷ xs) = P x × All P xs

module _ {A : Type 0} where
  abbrev pub Elem : A → List A → Type 0
  Elem a [] = ⊥
  Elem a (x ∷ xs) = (a ≡ x) ⊎ Elem a xs

module _ {A : Type 0} where
  -- What `find` returns is a member that passes the test.
  pub find-Elem :
      (p : A → Bool) (xs : List A) (a : A) → find p xs ≡ some a → Elem a xs × (p a ≡ true)
  find-Elem p [] a h = ground arith
  find-Elem p (x ∷ xs) a h = ground (arith, find-Elem p xs a)

  pub find-none : (p : A → Bool) (xs : List A) → find p xs ≡ none → All (λ x. p x ≡ false) xs
  find-none p [] h = tt
  find-none p (x ∷ xs) h = ground (arith, find-none p xs)

  pub find-of-All : (p : A → Bool) (xs : List A) → All (λ x. p x ≡ false) xs → find p xs ≡ none
  find-of-All p [] h = refl
  find-of-All p (x ∷ xs) h = ground (arith, find-of-All p xs)

  pub Elem-filter :
      (p : A → Bool) (xs : List A) (a : A) → Elem a (filter p xs) → Elem a xs × (p a ≡ true)
  Elem-filter p [] a h = absurd h
  Elem-filter p (x ∷ xs) a h = ground (arith, Elem-filter p xs a)

  pub Elem-filter_of :
      (p : A → Bool) (xs : List A) (a : A) → Elem a xs → p a ≡ true → Elem a (filter p xs)
  Elem-filter_of p [] a h q = absurd h
  Elem-filter_of p (x ∷ xs) a h q = ground (arith, Elem-filter_of p xs a)

  pub All-Elem {κ} : (P : A → Type κ) (xs : List A) (a : A) → All P xs → Elem a xs → P a
  All-Elem P (x ∷ xs) a h (inl e) = rw e h.0
  All-Elem P (x ∷ xs) a h (inr m) = All-Elem P xs a h.1 m
  All-Elem P [] a h m = absurd m

  pub any-false : (p : A → Bool) (xs : List A) → any p xs ≡ false → All (λ x. p x ≡ false) xs
  any-false p [] h = tt
  any-false p (x ∷ xs) h = ground (arith, any-false p xs)

  pub any-Elem : (p : A → Bool) (xs : List A) (a : A) → Elem a xs → p a ≡ true → any p xs ≡ true
  any-Elem p [] a h q = absurd h
  any-Elem p (x ∷ xs) a h q = ground (arith, any-Elem p xs a)

  pub any-witness :
      (p : A → Bool) (xs : List A) → any p xs ≡ true → (a : A) × Elem a xs × (p a ≡ true)
  any-witness p [] h = absurd (ground arith)
  any-witness p (x ∷ xs) h = elim (Bool-cases (p x)) [
    | inl e ↦ (x, inl refl, e)
    | inr e ↦ let (a, m, q) = any-witness p xs (ground arith) in (a, inr m, q)
  ]

  pub length-append : (xs ys : List A) → length (xs ++ ys) ≡ length xs + length ys
  length-append [] ys = omega arith
  length-append (x ∷ xs) ys = omega (arith, length-append xs ys)

  pub count-le-length : (p : A → Bool) (xs : List A) → count p xs ≤ length xs
  count-le-length p [] = omega arith
  count-le-length p (x ∷ xs) = ground (arith, count-le-length p xs)

  pub All-Elem-All {κ} : (P : A → Type κ) (xs : List A) → ((x : A) → Elem x xs → P x) → All P xs
  All-Elem-All P [] h = tt
  All-Elem-All P (x ∷ xs) h = (h x (inl refl), All-Elem-All P xs (λ y m. h y (inr m)))

  pub filter-eq_filter :
      (p q : A → Bool) (xs : List A) → All (λ x. p x ≡ q x) xs → filter p xs ≡ filter q xs
  filter-eq_filter p q [] h = refl
  filter-eq_filter p q (x ∷ xs) h = ground (arith, filter-eq_filter p q xs)

module _ {ℓ} {A : Type ℓ} where
  -- `xs[:n]` and `xs[n:]`
  abbrev pub take : ℕ → List A → List A
  take zero xs = []
  take (suc n) [] = []
  take (suc n) (x ∷ xs) = x ∷ take n xs

  abbrev pub drop : ℕ → List A → List A
  drop zero xs = xs
  drop (suc n) [] = []
  drop (suc n) (x ∷ xs) = drop n xs

  pub take-append-drop : (n : ℕ) (xs : List A) → take n xs ++ drop n xs ≡ xs
  take-append-drop zero xs = refl
  take-append-drop (suc n) [] = refl
  take-append-drop (suc n) (x ∷ xs) = ap (λ ys. x ∷ ys) (take-append-drop n xs)

  pub length-drop : (n : ℕ) (xs : List A) → length (drop n xs) ≤ length xs - n
  length-drop zero xs = omega arith
  length-drop (suc n) [] = omega arith
  length-drop (suc n) (x ∷ xs) = omega (arith, length-drop n xs)

  pub any-append : (p : A → Bool) (xs ys : List A) → any p (xs ++ ys) ≡ (any p xs || any p ys)
  any-append p [] ys = refl
  any-append p (x ∷ xs) ys = ground (arith, any-append p xs ys)

  pub find-append_right :
      (p : A → Bool) (xs ys : List A) → any p xs ≡ false → find p (xs ++ ys) ≡ find p ys
  find-append_right p [] ys h = refl
  find-append_right p (x ∷ xs) ys h = ground (arith, find-append_right p xs ys)

  pub filter-append :
      (p : A → Bool) (xs ys : List A) → filter p (xs ++ ys) ≡ filter p xs ++ filter p ys
  filter-append p [] ys = refl
  filter-append p (x ∷ xs) ys = ground (arith, filter-append p xs ys)

  pub filter-filter :
      (p q : A → Bool) (xs : List A) → filter q (filter p xs) ≡ filter (λ x. p x && q x) xs
  filter-filter p q [] = refl
  filter-filter p q (x ∷ xs) = ground (arith, filter-filter p q xs)

  pub count-append : (p : A → Bool) (xs ys : List A) → count p (xs ++ ys) ≡ count p xs + count p ys
  count-append p [] ys = omega arith
  count-append p (x ∷ xs) ys = ground (arith, count-append p xs ys)

  pub any-count : (p : A → Bool) (xs : List A) → any p xs ≡ ltb 0 (count p xs)
  any-count p [] = ground arith
  any-count p (x ∷ xs) = ground (arith, any-count p xs)
