-- ===== src/Prelude/Update.antt =====
-- The queryset update `.filter(p).update(f)`: every row that passes the test is rewritten in place.
use mathlib.Core.Path.{◌≡◌, refl, ap, ap₂}
use mathlib.Core.Logic.{inl, inr}
use mathlib.Core.Bool.{Bool, true, false, ◌||◌}
use mathlib.Core.List.{List, [], ◌∷◌, map}
use mathlib.Core.Option.{Option, some, none}
use fluxtrack_main.Prelude.{arith, suc, sym, ◌∙◌}
use fluxtrack_main.Prelude.Lists.{All, Elem, count, filter, find}
use fluxtrack_main.Prelude.Tests.{Bool-cases, if_some, if◌then◌else◌}

module _ {ℓ} {A : Type ℓ} where
  unfoldable pub update : (A → Bool) → (A → A) → List A → List A
  update p f [] = []
  update p f (x ∷ xs) = (if p x then f x else x) ∷ update p f xs

  -- Two updates whose tests and rewrites agree on each row of the table.
  pub update-eq_update :
      (p q : A → Bool) (f : A → A) (xs : List A)
      → All (λ x. p x ≡ q x) xs
      → update p f xs ≡ update q f xs
  unfolding update
  update-eq_update p q f [] h = refl
  update-eq_update p q f (x ∷ xs) h =
      ap₂ ◌∷◌ (ap (λ b. if b then f x else x) h.0) (update-eq_update p q f xs h.1)

  pub update_none :
      (p : A → Bool) (f : A → A) (xs : List A) → All (λ x. p x ≡ false) xs → update p f xs ≡ xs
  unfolding update
  update_none p f [] h = refl
  update_none p f (x ∷ xs) h = ap₂ ◌∷◌ (ap (λ b. if b then f x else x) h.0) (update_none p f xs h.1)

  -- An update that leaves a column alone.
  pub map-update {κ} :
      {B : Type κ} (g : A → B) (p : A → Bool) (f : A → A) (xs : List A)
      → ((x : A) → g (f x) ≡ g x)
      → map g (update p f xs) ≡ map g xs
  unfolding update
  map-update g p f [] h = refl
  map-update g p f (x ∷ xs) h = ap₂ ◌∷◌ (kept (p x)) (map-update g p f xs h)
    where
      kept : (b : Bool) → g (if b then f x else x) ≡ g x
      kept true = h x
      kept false = refl

  -- A row found by a column that the update leaves alone.
  pub find-update :
      (q p : A → Bool) (f : A → A) (xs : List A) (a : A)
      → ((x : A) → q (f x) ≡ q x)
      → find q xs ≡ some a
      → find q (update p f xs) ≡ some (if p a then f a else a)
  unfolding update
  find-update q p f [] a h e = cc
  find-update q p f (x ∷ xs) a h e = elim (Bool-cases (q x)) [
    | inl hit ↦
        rw (kept (p x), hit)
          (ap (λ (o : Option A). if_some o (λ y. some (if p y then f y else y)) none) (rw hit at e))
    | inr other ↦ rw (kept (p x), other) (find-update q p f xs a h (rw other at e))
  ]
    where
      kept : (b : Bool) → q (if b then f x else x) ≡ q x
      kept true = h x
      kept false = refl

  -- Nothing is left to update where the rewritten rows fail the test.
  pub filter-update :
      (p : A → Bool) (f : A → A) (xs : List A)
      → ((x : A) → p x ≡ true → p (f x) ≡ false)
      → filter p (update p f xs) ≡ []
  unfolding update
  filter-update p f [] h = refl
  filter-update p f (x ∷ xs) h = elim (Bool-cases (p x)) [
    | inl hit ↦ rw (hit, h x hit) (filter-update p f xs h)
    | inr other ↦ rw (other, other) (filter-update p f xs h)
  ]

  -- Two updates by one rewrite that can be repeated, over tests that it does not disturb.
  pub update-update :
      (p q : A → Bool) (f : A → A) (xs : List A)
      → ((x : A) → q (f x) ≡ q x)
      → ((x : A) → f (f x) ≡ f x)
      → update q f (update p f xs) ≡ update (λ x. p x || q x) f xs
  unfolding update
  update-update p q f [] h i = refl
  update-update p q f (x ∷ xs) h i = ap₂ ◌∷◌ (row (p x)) (update-update p q f xs h i)
    where
      again : (b : Bool) → (if b then f (f x) else f x) ≡ f x
      again true = i x
      again false = refl

      row :
          (b : Bool)
          → (if q (if b then f x else x) then f (if b then f x else x) else (if b then f x else x))
            ≡ (if b || q x then f x else x)
      row true = again (q (f x))
      row false = refl

module _ {A : Type 0} where
  pub Elem-update :
      (p : A → Bool) (f : A → A) (xs : List A) (a : A)
      → Elem a xs
      → Elem (if p a then f a else a) (update p f xs)
  unfolding update
  Elem-update p f [] a h = absurd h
  Elem-update p f (x ∷ xs) a (inl e) = inl (ap (λ y. if p y then f y else y) e)
  Elem-update p f (x ∷ xs) a (inr m) = inr (Elem-update p f xs a m)

module _ {ℓ} {A : Type ℓ} where
  -- Two updates by one rewrite, where a rewritten row no longer passes the second test.
  pub update-update_off :
      (p q : A → Bool) (f : A → A) (xs : List A)
      → ((x : A) → q (f x) ≡ false)
      → update q f (update p f xs) ≡ update (λ x. p x || q x) f xs
  unfolding update
  update-update_off p q f [] h = refl
  update-update_off p q f (x ∷ xs) h = ap₂ ◌∷◌ (row (p x)) (update-update_off p q f xs h)
    where
      row :
          (b : Bool)
          → (if q (if b then f x else x) then f (if b then f x else x) else (if b then f x else x))
            ≡ (if b || q x then f x else x)
      row true = ap (λ c. if c then f (f x) else f x) (h x)
      row false = refl

  pub update_of_nil :
      (p : A → Bool) (f : A → A) (xs : List A) → filter p xs ≡ [] → update p f xs ≡ xs
  update_of_nil p f xs h = update_none p f xs (nothing_passes p xs h)
    where
      nothing_passes : (q : A → Bool) (ys : List A) → filter q ys ≡ [] → All (λ x. q x ≡ false) ys
      nothing_passes q [] e = tt
      nothing_passes q (y ∷ ys) e = ground (arith, nothing_passes q ys)

  pub count-update :
      (q p : A → Bool) (f : A → A) (xs : List A)
      → ((x : A) → q (f x) ≡ q x)
      → count q (update p f xs) ≡ count q xs
  unfolding update
  count-update q p f [] h = refl
  count-update q p f (x ∷ xs) h = elim (Bool-cases (p x)) [
    | inl e ↦ rw (e, h x) (ap (λ n. if q x then suc n else n) (count-update q p f xs h))
    | inr e ↦ rw e (ap (λ n. if q x then suc n else n) (count-update q p f xs h))
  ]

  -- Two rewrites under one test, which the first leaves alone, are one.
  pub update-fuse :
      (p : A → Bool) (f g : A → A) (xs : List A)
      → ((x : A) → p (f x) ≡ p x)
      → update p g (update p f xs) ≡ update p (λ x. g (f x)) xs
  unfolding update
  update-fuse p f g [] h = refl
  update-fuse p f g (x ∷ xs) h = ap₂ ◌∷◌ (row (p x) refl) (update-fuse p f g xs h)
    where
      row :
          (b : Bool)
          → b ≡ p x
          → (if p (if b then f x else x) then g (if b then f x else x) else (if b then f x else x))
            ≡ (if b then g (f x) else x)
      row true e = ap (λ c. if c then g (f x) else f x) (h x ∙ sym e)
      row false e = ap (λ c. if c then g x else x) (sym e)
