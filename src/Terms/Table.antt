-- ===== src/Terms/Table.antt =====
-- The term table under a new row and under a change of one row's status.
use mathlib.Core.Path.{subst}
use fluxtrack_main.Model.{AcademicTerm, TermStatus, is_active_term}
use fluxtrack_main.Prelude.{
  ==_iff, ==_ne, All, Bool, Bool-cases, List, [], any, arith, count, count-append, false,
  if◌then◌else◌, inl, inr, leb, map, not, refl, some, sym, true, ℕ, ◌&&◌, ◌++◌, ◌==◌, ◌∷◌, ◌≡◌, ◌≢◌,
  ◌≤◌,
}
use fluxtrack_main.Prelude.Unique.{IsUnique}
use fluxtrack_main.Prelude.Update.{map-update, update}
use fluxtrack_main.Suspensions.{fresh_key}
use fluxtrack_main.Terms.{overlaps_term, set_status}

-- The first day of neither term lies behind the last day of the other.
abbrev pub apart : AcademicTerm → AcademicTerm → Bool
apart t r = not (leb t.start_date r.end_date && leb r.start_date t.end_date)

abbrev pub AreApart : List AcademicTerm → Type 0
AreApart [] = Unit
AreApart (t ∷ ts) = All (λ r. apart t r ≡ true) ts × AreApart ts

abbrev pub term_keys : List AcademicTerm → List ℕ
term_keys rows = map (λ r. r.id) rows

abbrev pub active_terms : List AcademicTerm → ℕ
active_terms rows = count (λ t. is_active_term t.status) rows

-- One ACTIVE term at most, terms that do not overlap, and their keys.
pub record IsTermTable (rows : List AcademicTerm) : Type 0 where
  pub unique : IsUnique (term_keys rows)
  pub single : active_terms rows ≤ 1
  pub disjoint : AreApart rows

count-key_absent :
    (rows : List AcademicTerm) (k : ℕ)
    → All (λ j. k ≢ j) (term_keys rows)
    → count (λ t. t.id == k) rows ≡ 0
count-key_absent [] k h = refl
count-key_absent (t ∷ ts) k h = rw (==_ne t.id k (λ e. h.0 (sym e))) (count-key_absent ts k h.1)

count-key :
    (rows : List AcademicTerm) (k : ℕ) → IsUnique (term_keys rows) → count (λ t. t.id == k) rows ≤ 1
count-key [] k u = omega arith
count-key (t ∷ ts) k u = elim (Bool-cases (t.id == k)) [
  | inl e ↦
      let none_left =
        count-key_absent ts k
          (subst (λ j. All (λ i. j ≢ i) (term_keys ts)) ((==_iff t.id k).0 e) u.0) in
      ground arith
  | inr e ↦ let rest = count-key ts k u.1 in ground arith
]

module _ (k : ℕ) (status : TermStatus) where
  abbrev pub changed : List AcademicTerm → List AcademicTerm
  changed rows = update (λ t. t.id == k) (set_status status) rows

  apart-changed :
      (t : AcademicTerm) (b : Bool) (rows : List AcademicTerm)
      → All (λ r. apart t r ≡ true) rows
      → All (λ r. apart (if b then set_status status t else t) r ≡ true) (changed rows)
  unfolding update
  apart-changed t b [] h = tt
  apart-changed t b (r ∷ rs) h = (kept b (r.id == k) h.0, apart-changed t b rs h.1)
    where
      kept :
          (b c : Bool)
          → apart t r ≡ true
          → apart (if b then set_status status t else t) (if c then set_status status r else r)
            ≡ true
      kept true true e = e
      kept true false e = e
      kept false true e = e
      kept false false e = e

  AreApart-changed : (rows : List AcademicTerm) → AreApart rows → AreApart (changed rows)
  unfolding update
  AreApart-changed [] h = tt
  AreApart-changed (t ∷ ts) h = (apart-changed t (t.id == k) ts h.0, AreApart-changed ts h.1)

  fewer_active :
      is_active_term status ≡ false
      → (rows : List AcademicTerm) → active_terms (changed rows) ≤ active_terms rows
  unfolding update
  fewer_active e [] = omega arith
  fewer_active e (t ∷ ts) = let rest = fewer_active e ts in ground arith

  only_one_active :
      (rows : List AcademicTerm)
      → any (λ r. is_active_term r.status && not (r.id == k)) rows ≡ false
      → active_terms (changed rows) ≤ count (λ r. r.id == k) rows
  unfolding update
  only_one_active [] h = omega arith
  only_one_active (t ∷ ts) h = let rest = only_one_active ts (ground arith) in ground arith

  IsUnique-changed :
      (rows : List AcademicTerm) → IsUnique (term_keys rows) → IsUnique (term_keys (changed rows))
  IsUnique-changed rows u =
      subst IsUnique
        (sym (map-update (λ r. r.id) (λ t. t.id == k) (set_status status) rows (λ _. refl))) u

  -- A status other than ACTIVE.
  pub passive-IsTermTable :
      (rows : List AcademicTerm)
      → is_active_term status ≡ false
      → IsTermTable rows
      → IsTermTable (changed rows)
  passive-IsTermTable rows e h = record {
    unique = IsUnique-changed rows h.unique;
    single = let fewer = fewer_active e rows in let one = h.single in omega arith;
    disjoint = AreApart-changed rows h.disjoint;
  }

  -- Any status, where no other row is ACTIVE.
  pub active-IsTermTable :
      (rows : List AcademicTerm)
      → any (λ r. is_active_term r.status && not (r.id == k)) rows ≡ false
      → IsTermTable rows
      → IsTermTable (changed rows)
  active-IsTermTable rows e h = record {
    unique = IsUnique-changed rows h.unique;
    single =
        let fewer = only_one_active rows e in let one = count-key rows k h.unique in omega arith;
    disjoint = AreApart-changed rows h.disjoint;
  }

module _ (t : AcademicTerm) where
  fresh_from :
      (rows : List AcademicTerm) (k : ℕ)
      → fresh_key (term_keys rows) ≤ k
      → All (λ j. j ≢ k) (term_keys rows)
  unfolding fresh_key
  fresh_from [] k h = tt
  fresh_from (r ∷ rs) k h = (λ e. omega arith, fresh_from rs k (omega arith))

  All-snoc :
      (P : ℕ → Type 0) (rows : List AcademicTerm)
      → All P (term_keys rows)
      → P t.id
      → All P (term_keys (rows ++ t ∷ []))
  All-snoc P [] h p = (p, tt)
  All-snoc P (r ∷ rs) h p = (h.0, All-snoc P rs h.1 p)

  IsUnique-snoc :
      (rows : List AcademicTerm)
      → IsUnique (term_keys rows)
      → All (λ j. j ≢ t.id) (term_keys rows)
      → IsUnique (term_keys (rows ++ t ∷ []))
  IsUnique-snoc [] u h = (tt, tt)
  IsUnique-snoc (r ∷ rs) u h = (All-snoc (λ j. r.id ≢ j) rs u.0 h.0, IsUnique-snoc rs u.1 h.1)

  apart-snoc :
      (r : AcademicTerm) (rows : List AcademicTerm)
      → All (λ x. apart r x ≡ true) rows
      → apart r t ≡ true
      → All (λ x. apart r x ≡ true) (rows ++ t ∷ [])
  apart-snoc r [] h e = (e, tt)
  apart-snoc r (x ∷ xs) h e = (h.0, apart-snoc r xs h.1 e)

  AreApart-snoc :
      (rows : List AcademicTerm)
      → AreApart rows
      → any (overlaps_term (some t.start_date) (some t.end_date)) rows ≡ false
      → AreApart (rows ++ t ∷ [])
  AreApart-snoc [] h e = (tt, tt)
  AreApart-snoc (r ∷ rs) h e =
      (apart-snoc r rs h.0 (ground arith), AreApart-snoc rs h.1 (ground arith))

  -- A new row with a fresh key, not ACTIVE, that overlaps none.
  pub new-IsTermTable :
      (rows : List AcademicTerm)
      → fresh_key (term_keys rows) ≡ t.id
      → is_active_term t.status ≡ false
      → any (overlaps_term (some t.start_date) (some t.end_date)) rows ≡ false
      → IsTermTable rows
      → IsTermTable (rows ++ t ∷ [])
  new-IsTermTable rows fresh passive free h = record {
    unique = IsUnique-snoc rows h.unique (fresh_from rows t.id (omega arith));
    single =
        let sum = count-append (λ r. is_active_term r.status) rows (t ∷ []) in
        let one = h.single in ground arith;
    disjoint = AreApart-snoc rows h.disjoint free;
  }
