-- ===== src/Prelude/Distinct.antt =====
-- The keys of a list, each once, in the order of their first occurrence: a set, or the keys of a
-- dictionary, that a loop fills.
use mathlib.Core.Path.{subst}
use fluxtrack_main.Prelude.{
  Bool, List, [], arith, false, inl, inr, refl, true, ℕ, ◌&&◌, ◌++◌, ◌||◌, ◌∙◌, ◌∷◌, ◌≡◌, ◌≢◌, ◌⊎◌,
}
use fluxtrack_main.Prelude.Lists.{All, any-append, filter}
use fluxtrack_main.Prelude.Tests.{==_iff, Bool-cases, if◌then◌else◌, ◌==◌}
use fluxtrack_main.Prelude.Unique.{IsUnique, has_key}

abbrev pub insert_key : ℕ → List ℕ → List ℕ
insert_key k ks = if has_key ks k then ks else ks ++ k ∷ []

abbrev distinct_from : List ℕ → List ℕ → List ℕ
distinct_from seen [] = seen
distinct_from seen (k ∷ ks) = distinct_from (insert_key k seen) ks

abbrev pub distinct : List ℕ → List ℕ
distinct ks = distinct_from [] ks

has_key-append : (xs ys : List ℕ) (k : ℕ) → has_key (xs ++ ys) k ≡ (has_key xs k || has_key ys k)
has_key-append xs ys k = any-append (λ j. j == k) xs ys

has_key-insert_key :
    (k j : ℕ) (ks : List ℕ) → has_key (insert_key k ks) j ≡ (has_key ks j || k == j)
has_key-insert_key k j ks = elim (Bool-cases (has_key ks k)) [
  | inl e ↦ rw e (old e (Bool-cases (k == j)))
  | inr e ↦ rw (e, has_key-append ks (k ∷ []) j) (ground arith)
]
  where
    old :
        has_key ks k ≡ true
        → ((k == j) ≡ true) ⊎ ((k == j) ≡ false)
        → has_key ks j ≡ (has_key ks j || k == j)
    old e (inl q) =
        rw q (subst (λ m. has_key ks m ≡ (has_key ks m || true)) ((==_iff k j).0 q) (rw e refl))
    old e (inr q) = rw q (ground arith)

has_key-distinct_from :
    (ks seen : List ℕ) (j : ℕ)
    → has_key (distinct_from seen ks) j ≡ (has_key seen j || has_key ks j)
has_key-distinct_from [] seen j = ground arith
has_key-distinct_from (k ∷ ks) seen j =
    has_key-distinct_from ks (insert_key k seen) j ∙ rw (has_key-insert_key k j seen) (ground arith)

-- The same keys, and each once.
pub has_key-distinct : (ks : List ℕ) (j : ℕ) → has_key (distinct ks) j ≡ has_key ks j
has_key-distinct ks j = has_key-distinct_from ks [] j

not-has_key-All : (ks : List ℕ) (k : ℕ) → has_key ks k ≡ false → All (λ j. j ≢ k) ks
not-has_key-All [] k h = tt
not-has_key-All (j ∷ ks) k h = ground (arith, not-has_key-All ks k)

IsUnique-snoc : (ks : List ℕ) (k : ℕ) → IsUnique ks → All (λ j. j ≢ k) ks → IsUnique (ks ++ k ∷ [])
IsUnique-snoc [] k u h = (tt, tt)
IsUnique-snoc (j ∷ ks) k u h = (All-snoc ks u.0, IsUnique-snoc ks k u.1 h.1)
  where
    All-snoc : (is : List ℕ) → All (λ i. j ≢ i) is → All (λ i. j ≢ i) (is ++ k ∷ [])
    All-snoc [] a = (h.0, tt)
    All-snoc (i ∷ is) a = (a.0, All-snoc is a.1)

IsUnique-distinct_from : (ks seen : List ℕ) → IsUnique seen → IsUnique (distinct_from seen ks)
IsUnique-distinct_from [] seen u = u
IsUnique-distinct_from (k ∷ ks) seen u = elim (Bool-cases (has_key seen k)) [
  | inl e ↦ rw e (IsUnique-distinct_from ks seen u)
  | inr e ↦ rw e (
      IsUnique-distinct_from ks (seen ++ k ∷ [])
        (IsUnique-snoc seen k u (not-has_key-All seen k e)))
]

pub IsUnique-distinct : (ks : List ℕ) → IsUnique (distinct ks)
IsUnique-distinct ks = IsUnique-distinct_from ks [] tt

pub has_key-filter_keys :
    (p : ℕ → Bool) (ks : List ℕ) (j : ℕ) → has_key (filter p ks) j ≡ (has_key ks j && p j)
has_key-filter_keys p [] j = refl
has_key-filter_keys p (k ∷ ks) j = ground (arith, has_key-filter_keys p ks j)
