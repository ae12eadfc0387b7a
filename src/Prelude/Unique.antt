-- ===== src/Prelude/Unique.antt =====
-- Primary keys: no two rows of a table have the same key.
use Prim.Native.Nat.{ℕ}
use mathlib.Core.Path.{◌≡◌, sym, ◌∙◌}
use mathlib.Core.Logic.{◌≢◌, inl, inr}
use mathlib.Core.List.{List, [], ◌∷◌, map}
use mathlib.Core.Bool.{◌&&◌, not}
use fluxtrack_main.Prelude.{Bool, ap, arith, false, refl, true}
use fluxtrack_main.Prelude.Lists.{All, All-Elem, Elem, Elem-filter, Elem-filter_of, any, filter}
use fluxtrack_main.Prelude.Tests.{==-refl, ==_iff, Bool-cases, ◌==◌}

abbrev pub IsUnique : List ℕ → Type 0
IsUnique [] = Unit
IsUnique (k ∷ ks) = All (λ j. k ≢ j) ks × IsUnique ks

-- `pk in ids`
abbrev pub has_key : List ℕ → ℕ → Bool
has_key ids k = any (λ j. j == k) ids

module _ {A : Type 0} (key : A → ℕ) where
  Elem-map : (xs : List A) (a : A) → Elem a xs → Elem (key a) (map key xs)
  Elem-map [] a h = absurd h
  Elem-map (x ∷ xs) a (inl e) = inl (λ i. key (e i))
  Elem-map (x ∷ xs) a (inr m) = inr (Elem-map xs a m)

  -- Two members with one key are one row.
  pub IsUnique-Elem :
      (xs : List A) (a b : A)
      → IsUnique (map key xs)
      → Elem a xs
      → Elem b xs
      → key a ≡ key b
      → a ≡ b
  IsUnique-Elem [] a b u ha hb e = absurd ha
  IsUnique-Elem (x ∷ xs) a b u (inl p) (inl q) e = p ∙ sym q
  IsUnique-Elem (x ∷ xs) a b u (inl p) (inr m) e = absurd (
      All-Elem (λ j. key x ≢ j) (map key xs) (key b) u.0 (Elem-map xs b m)
        (sym (λ i. key (p i)) ∙ e))
  IsUnique-Elem (x ∷ xs) a b u (inr m) (inl q) e = absurd (
      All-Elem (λ j. key x ≢ j) (map key xs) (key a) u.0 (Elem-map xs a m)
        (sym (λ i. key (q i)) ∙ sym e))
  IsUnique-Elem (x ∷ xs) a b u (inr m) (inr n) e = IsUnique-Elem xs a b u.1 m n e

  pub Elem-has_key :
      (xs : List A) (k : ℕ) → has_key (map key xs) k ≡ true → (a : A) × Elem a xs × (key a ≡ k)
  Elem-has_key [] k h = absurd (ground arith)
  Elem-has_key (x ∷ xs) k h = elim (Bool-cases (key x == k)) [
    | inl e ↦ (x, inl refl, (==_iff (key x) k).0 e)
    | inr e ↦ let (a, m, q) = Elem-has_key xs k (ground arith) in (a, inr m, q)
  ]

  pub has_key-Elem : (xs : List A) (a : A) → Elem a xs → has_key (map key xs) (key a) ≡ true
  has_key-Elem [] a h = absurd h
  has_key-Elem (x ∷ xs) a (inl e) = rw (e, ==-refl (key x))
  has_key-Elem (x ∷ xs) a (inr m) = ground (arith, has_key-Elem xs a m)

  -- Whether a row's key is among the selected keys is whether the row was selected.
  pub has_key-filter :
      (p : A → Bool) (xs : List A) (a : A)
      → IsUnique (map key xs)
      → Elem a xs
      → has_key (map key (filter p xs)) (key a) ≡ p a
  has_key-filter p xs a u m = elim (Bool-cases (p a)) [
    | inl e ↦ has_key-Elem (filter p xs) a (Elem-filter_of p xs a m e) ∙ sym e
    | inr e ↦ elim (Bool-cases (has_key (map key (filter p xs)) (key a))) [
      | inr f ↦ f ∙ sym e
      | inl f ↦
          let (b, n, q) = Elem-has_key (filter p xs) (key a) f in
          let (n', r) = Elem-filter p xs b n in
          absurd (differ (ap p (IsUnique-Elem xs b a u n' m q)) r e)
    ]
  ]
    where
      differ : {b c : Bool} → b ≡ c → b ≡ true → c ≡ false → ⊥
      differ e h k = cc

  All-filter {κ} :
      (P : ℕ → Type κ) (p : A → Bool) (xs : List A)
      → All P (map key xs)
      → All P (map key (filter p xs))
  All-filter P p [] h = tt
  All-filter P p (x ∷ xs) h = elim (Bool-cases (p x)) [
    | inl e ↦ rw e (h.0, All-filter P p xs h.1)
    | inr e ↦ rw e (All-filter P p xs h.1)
  ]

  pub IsUnique-filter :
      (p : A → Bool) (xs : List A) → IsUnique (map key xs) → IsUnique (map key (filter p xs))
  IsUnique-filter p [] u = tt
  IsUnique-filter p (x ∷ xs) u = elim (Bool-cases (p x)) [
    | inl e ↦ rw e (All-filter (λ j. key x ≢ j) p xs u.0, IsUnique-filter p xs u.1)
    | inr e ↦ rw e (IsUnique-filter p xs u.1)
  ]

abbrev pub all_differ : List ℕ → Bool
all_differ [] = true
all_differ (k ∷ ks) = not (has_key ks k) && all_differ ks

differ_All : (ks : List ℕ) (k : ℕ) → has_key ks k ≡ false → All (λ j. k ≢ j) ks
differ_All [] k h = tt
differ_All (j ∷ ks) k h = (λ e. ground arith, differ_All ks k (ground arith))

-- A test of keys that are there to be evaluated.
pub IsUnique-all_differ : (ks : List ℕ) → all_differ ks ≡ true → IsUnique ks
IsUnique-all_differ [] h = tt
IsUnique-all_differ (k ∷ ks) h =
    (differ_All ks k (ground arith), IsUnique-all_differ ks (ground arith))
