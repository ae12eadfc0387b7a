-- ===== src/Duty/Assign/Covered.antt =====
-- The assignment as a whole: who owns a session after a run.
use fluxtrack_main.Calendar.{Date}
use fluxtrack_main.Duty.{Dict}
use fluxtrack_main.Duty.Assign.{
  assign_online_sessions, candidate_online_sessions, covers_start, dict_get, eligible, groups_from,
  is_online_duty, is_unowned, mapping_from, meets_online, online_duty_assignments, order_by_start,
  own,
}
use fluxtrack_main.Duty.Assign.Members.{
  Elem-order, Elem-order_of, Elem-sorted_set, Elem-sorted_set_of, Elem-user, Elem-user_of,
  names-Elem,
}
use fluxtrack_main.Duty.Assign.Named.{has_pool, is_some-mapping}
use fluxtrack_main.Duty.Assign.Owners.{assign_candidates-sessions, owned}
use fluxtrack_main.Duty.Assign.Pools.{Holds, dict_get-Holds, groups_from-IsPool, mapping_from-Holds}
use fluxtrack_main.Model.{AcademicTerm, Assignment, Database, Session}
use fluxtrack_main.Ops.{HasKeys, get_active_term, keys}
use fluxtrack_main.Prelude.{
  &&-parts, All-Elem, Bool, Bool-cases, Elem, Elem-filter, Elem-filter_of, List, Option-cases, [],
  any, any-false, any-witness, ap, false, filter, inl, inr, is_none, map, none, not, refl, some,
  sym, true, ℕ, ◌&&◌, ◌∙◌, ◌∷◌, ◌≡◌, ◌⊎◌,
}
use fluxtrack_main.Prelude.Unique.{Elem-has_key, IsUnique-Elem, has_key, has_key-Elem}
use fluxtrack_main.Suspensions.{covers}

differ : {b : Bool} → b ≡ true → b ≡ false → ⊥
differ h k = cc

module _ (target : Date) (term : AcademicTerm) (db : Database) where
  abbrev pub is_candidate : Session → Bool
  is_candidate s = is_unowned term target s && meets_online s

  abbrev pub is_covered : Session → Bool
  is_covered s = any (λ a. is_online_duty term target a && covers_start s a) db.assignments

  -- What the run may have made of a session: the same row, unless it is an unowned online session of the
  -- date that a duty covers; then its owner is a checker whose duty covers its start.
  abbrev pub IsAssigned : Session → Session → Type 0
  IsAssigned s r =
      ((r ≡ s) × ((is_candidate s && is_covered s) ≡ false))
      ⊎ ((a : Assignment) × Elem a db.assignments
          × (is_candidate s ≡ true)
          × (is_online_duty term target a ≡ true)
          × (covers_start s a ≡ true)
          × (r ≡ own a.user_id s))

  abbrev duties : List Assignment
  duties = online_duty_assignments term target db

  abbrev candidates : List Session
  candidates = candidate_online_sessions term target db

  Elem-candidates : (s : Session) → Elem s candidates → Elem s db.sessions × (is_candidate s ≡ true)
  Elem-candidates s m =
      let (n, online) =
        Elem-filter meets_online (order_by_start (filter (is_unowned term target) db.sessions)) s
          m in
      let (k, unowned) = Elem-filter (is_unowned term target) db.sessions s (Elem-order _ s n) in
      (k, rw (unowned, online) refl)

  Elem-candidates_of :
      (s : Session) → Elem s db.sessions → is_candidate s ≡ true → Elem s candidates
  Elem-candidates_of s m h =
      let (a, b) = &&-parts (is_unowned term target s) (meets_online s) h in
      Elem-filter_of meets_online _ s
        (Elem-order_of _ s (Elem-filter_of (is_unowned term target) db.sessions s m a)) b

  Elem-eligible :
      (s : Session) (c : ℕ)
      → Elem c (eligible duties s)
      → (a : Assignment) × Elem a db.assignments
        × (is_online_duty term target a ≡ true)
        × (covers_start s a ≡ true)
        × (a.user_id ≡ c)
  unfolding eligible
  Elem-eligible s c m =
      let (a, n, e) = Elem-user (filter (covers_start s) duties) c (Elem-sorted_set _ c m) in
      let (k, covers) = Elem-filter (covers_start s) duties a n in
      let (l, duty) = Elem-filter (is_online_duty term target) db.assignments a k in
      (a, l, duty, covers, e)

  no_pool : (s : Session) → has_pool duties s.id s ≡ false → is_covered s ≡ false
  unfolding eligible
  no_pool s h = elim (Bool-cases (is_covered s)) [
    | inr e ↦ e
    | inl e ↦
        let (a, m, q) =
          any-witness (λ a. is_online_duty term target a && covers_start s a) db.assignments e in
        let (duty, covers) = &&-parts (is_online_duty term target a) (covers_start s a) q in
        let n : Elem a duties =
          Elem-filter_of (is_online_duty term target) db.assignments a m duty in
        let k = Elem-user_of _ a (Elem-filter_of (covers_start s) duties a n covers) in
        absurd (
          differ (names-Elem s.id a.user_id (eligible duties s) (Elem-sorted_set_of _ a.user_id k))
            h)
  ]

  abbrev mapping : Dict
  mapping = mapping_from (groups_from duties candidates []) []

  abbrev InPool : ℕ → ℕ → Type 0
  InPool k c = (s : Session) × Elem s candidates × (s.id ≡ k) × Elem c (eligible duties s)

  mapping-Holds : Holds InPool mapping
  mapping-Holds =
      mapping_from-Holds InPool (groups_from duties candidates []) []
        (groups_from-IsPool InPool duties candidates [] (λ s c m n. (s, m, refl, n)) tt) tt

  module _ (unique : HasKeys db) (s : Session) (m : Elem s db.sessions) where
    the_candidate : (t : Session) → Elem t candidates → t.id ≡ s.id → t ≡ s
    the_candidate t n e =
        IsUnique-Elem (λ x. x.id) db.sessions t s unique (Elem-candidates t n).0 m e

    unmapped : Elem s candidates → dict_get s.id mapping ≡ none → is_covered s ≡ false
    unmapped n e =
        let nobody : any (has_pool duties s.id) candidates ≡ false =
          sym (is_some-mapping duties candidates s.id) ∙ ap (λ o. not (is_none o)) e in
        no_pool s (
          All-Elem (λ x. has_pool duties s.id x ≡ false) candidates s
            (any-false (has_pool duties s.id) candidates nobody) n)

    mapped :
        (c : ℕ) → is_candidate s ≡ true → dict_get s.id mapping ≡ some c → IsAssigned s (own c s)
    mapped c h e =
        let (t, n, q, k) = dict_get-Holds InPool s.id c mapping mapping-Holds e in
        let (a, l, duty, covers, p) = Elem-eligible s c (rw (the_candidate t n q) at k) in
        inr (a, l, h, duty, covers, ap (λ x. own x s) (sym p))

    owned-IsAssigned : IsAssigned s (owned mapping candidates s)
    owned-IsAssigned = elim (Bool-cases (has_key (keys candidates) s.id)) [
      | inr e ↦ rw e (elim (Bool-cases (is_candidate s)) [
        | inr f ↦ inl (refl, rw f refl)
        | inl f ↦
            absurd (differ (has_key-Elem (λ x. x.id) candidates s (Elem-candidates_of s m f)) e)
      ])
      | inl e ↦
          let (t, n, q) = Elem-has_key (λ x. x.id) candidates s.id e in
          let same = the_candidate t n q in
          let k : Elem s candidates = rw same at n in
          let h = (Elem-candidates s k).1 in
          elim (Option-cases (dict_get s.id mapping)) [
            | inl f ↦ rw (e, f) (inl (refl, rw (h, unmapped k f) refl))
            | inr (c, f) ↦ rw (e, f) (mapped c h f)
          ]
    ]

-- The rows of two tables, one by one.
abbrev pub Pairwise : (Session → Session → Type 0) → List Session → List Session → Type 0
Pairwise R [] [] = Unit
Pairwise R [] (y ∷ ys) = ⊥
Pairwise R (x ∷ xs) [] = ⊥
Pairwise R (x ∷ xs) (y ∷ ys) = R x y × Pairwise R xs ys

Pairwise-map :
    (R : Session → Session → Type 0) (f : Session → Session) (xs : List Session)
    → ((x : Session) → Elem x xs → R x (f x))
    → Pairwise R xs (map f xs)
Pairwise-map R f [] h = tt
Pairwise-map R f (x ∷ xs) h = (h x (inl refl), Pairwise-map R f xs (λ y m. h y (inr m)))

-- While a term is active and keys are unique, a run gives each unowned online session of the date whose
-- start an online duty covers to a checker of such a duty, and leaves every other session as it was.
pub assign_online_sessions_lem :
    (target : Date) (term : AcademicTerm) (db : Database)
    → HasKeys db
    → get_active_term db ≡ some term
    → Pairwise (IsAssigned target term db) db.sessions (assign_online_sessions target db).1.sessions
unfolding assign_online_sessions
assign_online_sessions_lem target term db unique active =
    let written =
      assign_candidates-sessions (online_duty_assignments term target db)
        (candidate_online_sessions term target db) db in
    rw (active, written)
      (Pairwise-map (IsAssigned target term db) _ db.sessions
        (owned-IsAssigned target term db unique))
