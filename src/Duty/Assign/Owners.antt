-- ===== src/Duty/Assign/Owners.antt =====
-- What a run of the assignment writes: the owners of the sessions.
use fluxtrack_main.Duty.{Dict}
use fluxtrack_main.Duty.Assign.{
  assign_candidates, assign_mapped, count_owners, dict_get, groups_from, mapping_from, own,
  tell_owners, write_owner, write_owners,
}
use fluxtrack_main.Model.{Assignment, Database, Session, online_assigned}
use fluxtrack_main.Ops.{keys, log, notify_ifo, notify_users, save_session, update_sessions}
use fluxtrack_main.Prelude.{
  Bool, Bool-cases, List, Option, [], any, ap, arith, false, if_some, if◌then◌else◌, inl, inr, map,
  none, refl, some, sym, true, ℕ, ◌==◌, ◌∙◌, ◌∷◌, ◌≡◌,
}
use fluxtrack_main.Prelude.Unique.{has_key}
use fluxtrack_main.Prelude.Update.{update}

-- The row of a session after the writes for the given sessions.
abbrev pub owned : Dict → List Session → Session → Session
owned mapping ss s =
    if has_key (keys ss) s.id then if_some (dict_get s.id mapping) (λ c. own c s) s else s

cons_eq : {x y : Session} {xs ys : List Session} → x ≡ y → xs ≡ ys → (x ∷ xs) ≡ (y ∷ ys)
cons_eq p q = λ i. p i ∷ q i

same_if : (b : Bool) (x : Session) → (if b then x else x) ≡ x
same_if true x = refl
same_if false x = refl

module _ (mapping : Dict) where
  map-owned_nobody : (xs : List Session) → map (owned mapping []) xs ≡ xs
  map-owned_nobody [] = refl
  map-owned_nobody (x ∷ xs) = ap (λ ys. x ∷ ys) (map-owned_nobody xs)

  owned_skip :
      (s : Session) (ss : List Session) (x : Session)
      → dict_get s.id mapping ≡ none
      → owned mapping ss x ≡ owned mapping (s ∷ ss) x
  owned_skip s ss x h = elim (Bool-cases (s.id == x.id)) [
    | inl e ↦
        let same : s.id ≡ x.id = ground arith in
        let gone : dict_get x.id mapping ≡ none = ap (λ k. dict_get k mapping) (sym same) ∙ h in
        rw (e, gone) (same_if (has_key (keys ss) x.id) x)
    | inr e ↦ rw e refl
  ]

  map-owned_skip :
      (s : Session) (ss xs : List Session)
      → dict_get s.id mapping ≡ none
      → map (owned mapping ss) xs ≡ map (owned mapping (s ∷ ss)) xs
  map-owned_skip s ss [] h = refl
  map-owned_skip s ss (x ∷ xs) h = cons_eq (owned_skip s ss x h) (map-owned_skip s ss xs h)

  owned_write :
      (s : Session) (c : ℕ) (ss : List Session) (x : Session)
      → dict_get s.id mapping ≡ some c
      → owned mapping ss (if x.id == s.id then own c x else x) ≡ owned mapping (s ∷ ss) x
  owned_write s c ss x h = elim (Bool-cases (x.id == s.id)) [
    | inl e ↦
        let same : x.id ≡ s.id = ground arith in
        let back : (s.id == x.id) ≡ true = ground arith in
        let mapped : dict_get x.id mapping ≡ some c = ap (λ k. dict_get k mapping) same ∙ h in
        rw (e, back, mapped) (same_if (has_key (keys ss) x.id) (own c x))
    | inr e ↦ let back : (s.id == x.id) ≡ false = ground arith in rw (e, back) refl
  ]

  map-owned_write :
      (s : Session) (c : ℕ) (ss xs : List Session)
      → dict_get s.id mapping ≡ some c
      → map (owned mapping ss) (update (λ r. r.id == s.id) (own c) xs)
        ≡ map (owned mapping (s ∷ ss)) xs
  unfolding update
  map-owned_write s c ss [] h = refl
  map-owned_write s c ss (x ∷ xs) h = cons_eq (owned_write s c ss x h) (map-owned_write s c ss xs h)

  pub write_owners-sessions :
      (ss : List Session) (db : Database)
      → (write_owners mapping ss db).sessions ≡ map (owned mapping ss) db.sessions
  unfolding write_owners log save_session update_sessions
  write_owners-sessions [] db = sym (map-owned_nobody db.sessions)
  write_owners-sessions (s ∷ ss) db = go (dict_get s.id mapping) refl (write_owners-sessions ss)
    where
      go :
          (o : Option ℕ)
          → dict_get s.id mapping ≡ o
          → ((d : Database)
              → (write_owners mapping ss d).sessions ≡ map (owned mapping ss) d.sessions)
          → (write_owners mapping ss (if_some o (λ c. write_owner s.id c db) db)).sessions
            ≡ map (owned mapping (s ∷ ss)) db.sessions
      go none e rest = rest db ∙ map-owned_skip s ss db.sessions e
      go (some c) e rest = rest (write_owner s.id c db) ∙ map-owned_write s c ss db.sessions e

map-owned_unmapped : (ss xs : List Session) → map (owned [] ss) xs ≡ xs
unfolding dict_get
map-owned_unmapped ss [] = refl
map-owned_unmapped ss (x ∷ xs) = elim (Bool-cases (has_key (keys ss) x.id)) [
  | inl e ↦ rw (e, map-owned_unmapped ss xs) refl
  | inr e ↦ rw (e, map-owned_unmapped ss xs) refl
]

tell_owners-sessions :
    (counts : Dict) (db : Database) → (tell_owners counts db).sessions ≡ db.sessions
unfolding tell_owners notify_users
tell_owners-sessions [] db = refl
tell_owners-sessions ((c, n) ∷ rest) db =
    go (any (λ u. u.id == c) db.users) (tell_owners-sessions rest)
  where
    go :
        (b : Bool)
        → ((d : Database) → (tell_owners rest d).sessions ≡ d.sessions)
        → (tell_owners rest (if b then notify_users (c ∷ []) online_assigned db else db)).sessions
          ≡ db.sessions
    go true later = later (notify_users (c ∷ []) online_assigned db)
    go false later = later db

assign_mapped-sessions :
    (ss : List Session) (mapping : Dict) (db : Database)
    → (assign_mapped ss mapping db).1.sessions ≡ map (owned mapping ss) db.sessions
unfolding assign_mapped notify_ifo notify_users
assign_mapped-sessions ss [] db = sym (map-owned_unmapped ss db.sessions)
assign_mapped-sessions ss (row ∷ rest) db =
    tell_owners-sessions (count_owners (row ∷ rest) ss []) (write_owners (row ∷ rest) ss db)
    ∙ write_owners-sessions (row ∷ rest) ss db

pub assign_candidates-sessions :
    (assignments : List Assignment) (ss : List Session) (db : Database)
    → (assign_candidates assignments ss db).1.sessions
      ≡ map (owned (mapping_from (groups_from assignments ss []) []) ss) db.sessions
unfolding assign_candidates
assign_candidates-sessions assignments [] db =
    sym (map-owned_nobody (mapping_from (groups_from assignments [] []) []) db.sessions)
assign_candidates-sessions assignments (s ∷ ss) db =
    assign_mapped-sessions (s ∷ ss) (mapping_from (groups_from assignments (s ∷ ss) []) []) db
