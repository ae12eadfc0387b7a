-- ===== src/Prelude/First.antt =====
-- "The first row with a property", said without the test that the code evaluates.
use fluxtrack_main.Prelude.{
  Bool, List, [], arith, false, inl, inr, none, refl, some, sym, true, ◌&&◌, ◌∷◌, ◌≡◌, ◌⊎◌,
}
use fluxtrack_main.Prelude.Lists.{All, Elem, filter, find}
use fluxtrack_main.Prelude.Tests.{Bool-cases}

module _ {A : Type 0} where
  abbrev pub IsFirst : (A → Type 0) → List A → A → Type 0
  IsFirst P [] a = ⊥
  IsFirst P (x ∷ xs) a = P x × (a ≡ x) ⊎ (¬ P x) × IsFirst P xs a

  -- The test `p` decides the property `P`.
  pub record Decides (p : A → Bool) (P : A → Type 0) : Type 0 where
    pub holds : (x : A) → p x ≡ true → P x
    pub fails : (x : A) → p x ≡ false → ¬ P x

module _ {A : Type 0} {p : A → Bool} {P : A → Type 0} (d : Decides p P) where
  pub accepts : (x : A) → P x → p x ≡ true
  accepts x h = elim (Bool-cases (p x)) [ inl e ↦ e | inr e ↦ absurd (d.fails x e h) ]

  pub refuses : (x : A) → ¬ P x → p x ≡ false
  refuses x h = elim (Bool-cases (p x)) [ inl e ↦ absurd (h (d.holds x e)) | inr e ↦ e ]

  pub find-IsFirst : (xs : List A) (a : A) → find p xs ≡ some a → IsFirst P xs a
  find-IsFirst [] a h = cc
  find-IsFirst (x ∷ xs) a h = elim (Bool-cases (p x)) [
    | inl e ↦ inl (d.holds x e, sym (some_eq x a (rw e at h)))
    | inr e ↦ inr (d.fails x e, find-IsFirst xs a (rw e at h))
  ]
    where
      some_eq : (y z : A) → some y ≡ some z → y ≡ z
      some_eq y z q = cc

  pub IsFirst-find : (xs : List A) (a : A) → IsFirst P xs a → find p xs ≡ some a
  IsFirst-find [] a h = absurd h
  IsFirst-find (x ∷ xs) a (inl (h, e)) = rw (accepts x h, e)
  IsFirst-find (x ∷ xs) a (inr (h, r)) = rw (refuses x h) (IsFirst-find xs a r)

  pub find-absent : (xs : List A) → find p xs ≡ none → All (λ x. ¬ P x) xs
  find-absent [] h = tt
  find-absent (x ∷ xs) h = elim (Bool-cases (p x)) [
    | inl e ↦ absurd (not_none x (rw e at h))
    | inr e ↦ (d.fails x e, find-absent xs (rw e at h))
  ]
    where
      not_none : (y : A) → some y ≡ none → ⊥
      not_none y q = cc

  pub absent-find : (xs : List A) → All (λ x. ¬ P x) xs → find p xs ≡ none
  absent-find [] h = refl
  absent-find (x ∷ xs) h = rw (refuses x h.0) (absent-find xs h.1)

-- The first row of a filtered list.
module _ {A : Type 0} (p q : A → Bool) where
  pub find-filter : (xs : List A) → find q (filter p xs) ≡ find (λ x. p x && q x) xs
  find-filter [] = refl
  find-filter (x ∷ xs) = ground (arith, find-filter xs)

module _ {A : Type 0} (p : A → Bool) where
  pub find-true-filter : (xs : List A) → find (λ _. true) (filter p xs) ≡ find p xs
  find-true-filter [] = refl
  find-true-filter (x ∷ xs) = ground (arith, find-true-filter xs)

module _ {A : Type 0} (P : A → Type 0) where
  pub IsFirst-Elem : (xs : List A) (a : A) → IsFirst P xs a → Elem a xs × P a
  IsFirst-Elem [] a h = absurd h
  IsFirst-Elem (x ∷ xs) a (inl (h, e)) = (inl e, rw e h)
  IsFirst-Elem (x ∷ xs) a (inr (_, r)) = let (m, h) = IsFirst-Elem xs a r in (inr m, h)
