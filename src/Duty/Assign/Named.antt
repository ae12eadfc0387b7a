-- ===== src/Duty/Assign/Named.antt =====
-- The sessions that the mapping names: those whose pool is not empty.
use native.Mathlib.Nat.{mod-lt}
use fluxtrack_main.Duty.{Dict, dict_set, distribute_online_sessions, hand_out}
use fluxtrack_main.Duty.Assign.{
  Groups, add_to_group, dict_get, dict_update, eligible, groups_from, mapping_from, same_keys,
}
use fluxtrack_main.Duty.Assign.Pools.{same_keys_lem}
use fluxtrack_main.Duty.RoundRobin.{in_dict, nth-some}
use fluxtrack_main.Model.{Assignment, Session}
use fluxtrack_main.Prelude.{
  Bool, Bool-cases, List, [], any, any-append, arith, false, inl, inr, is_none, length, not, refl,
  suc, ℕ, ◌%◌, ◌++◌, ◌==◌, ◌||◌, ◌∙◌, ◌∷◌, ◌≡◌,
}
use fluxtrack_main.Prelude.Unique.{has_key}

-- A group that names a session: its pool is not empty.
abbrev pub names : ℕ → List ℕ × List ℕ → Bool
names t ([], ids) = false
names t (c ∷ cs, ids) = has_key ids t

in_dict_set : (k v t : ℕ) (d : Dict) → in_dict (dict_set k v d) t ≡ ((k == t) || in_dict d t)
unfolding dict_set
in_dict_set k v t [] = refl
in_dict_set k v t (row ∷ rest) = elim (Bool-cases (row.0 == k)) [
  | inl e ↦ let same : row.0 ≡ k = ground arith in rw (e, same) (ground arith)
  | inr e ↦ rw e (ground (arith, in_dict_set k v t rest))
]

in_dict_update : (d e : Dict) (t : ℕ) → in_dict (dict_update d e) t ≡ (in_dict d t || in_dict e t)
unfolding dict_update
in_dict_update d [] t = ground arith
in_dict_update d ((k, v) ∷ rest) t =
    let a = in_dict_update (dict_set k v d) rest t in
    let b = in_dict_set k v t d in a ∙ rw b (ground arith)

in_dict-hand_out :
    (c : ℕ) (cs : List ℕ) (i : ℕ) (ids : List ℕ) (d : Dict) (t : ℕ)
    → in_dict (hand_out (c ∷ cs) i ids d) t ≡ (in_dict d t || has_key ids t)
unfolding hand_out
in_dict-hand_out c cs i [] d t = ground arith
in_dict-hand_out c cs i (k ∷ ks) d t =
    let (x, e) = nth-some (c ∷ cs) (i % length (c ∷ cs)) (mod-lt i (omega arith)) in
    let a = in_dict-hand_out c cs (suc i) ks (dict_set k x d) t in
    let b = in_dict_set k x t d in rw e (a ∙ rw b (ground arith))

in_dict-mapping_from :
    (groups : Groups) (d : Dict) (t : ℕ)
    → in_dict (mapping_from groups d) t ≡ (in_dict d t || any (names t) groups)
unfolding mapping_from distribute_online_sessions
in_dict-mapping_from [] d t = ground arith
in_dict-mapping_from (([], ids) ∷ rest) d t = in_dict-mapping_from rest d t
in_dict-mapping_from ((c ∷ cs, ids) ∷ rest) d t =
    let handed = in_dict-hand_out c cs 0 ids [] t in
    let updated = in_dict_update d (hand_out (c ∷ cs) 0 ids []) t in
    in_dict-mapping_from rest _ t ∙ rw (updated, handed) (ground arith)

names-add :
    (pool : List ℕ) (ids : List ℕ) (k t : ℕ)
    → names t (pool, ids ++ k ∷ []) ≡ (names t (pool, ids) || names t (pool, k ∷ []))
names-add [] ids k t = refl
names-add (c ∷ cs) ids k t = any-append (λ j. j == t) ids (k ∷ [])

names-add_to_group :
    (pool : List ℕ) (k : ℕ) (groups : Groups) (t : ℕ)
    → any (names t) (add_to_group pool k groups) ≡ (names t (pool, k ∷ []) || any (names t) groups)
unfolding add_to_group
names-add_to_group pool k [] t = refl
names-add_to_group pool k ((p, ids) ∷ rest) t = elim (Bool-cases (same_keys p pool)) [
  | inl e ↦ rw (e, same_keys_lem p pool e, names-add pool ids k t) (ground arith)
  | inr e ↦ rw (e, names-add_to_group pool k rest t) (ground arith)
]

-- A session whose pool is not empty, under its key.
abbrev pub has_pool : List Assignment → ℕ → Session → Bool
has_pool assignments t s = names t (eligible assignments s, s.id ∷ [])

names-groups_from :
    (assignments : List Assignment) (ss : List Session) (groups : Groups) (t : ℕ)
    → any (names t) (groups_from assignments ss groups)
      ≡ (any (names t) groups || any (has_pool assignments t) ss)
unfolding groups_from
names-groups_from assignments [] groups t = ground arith
names-groups_from assignments (s ∷ ss) groups t =
    names-groups_from assignments ss _ t
    ∙ rw (names-add_to_group (eligible assignments s) s.id groups t) (ground arith)

is_some-dict_get : (t : ℕ) (d : Dict) → not (is_none (dict_get t d)) ≡ in_dict d t
unfolding dict_get
is_some-dict_get t [] = refl
is_some-dict_get t (row ∷ rest) = elim (Bool-cases (row.0 == t)) [
  | inl e ↦ rw e refl
  | inr e ↦ rw e (is_some-dict_get t rest)
]

-- A session has an owner in the mapping exactly when its pool is not empty.
pub is_some-mapping :
    (assignments : List Assignment) (ss : List Session) (t : ℕ)
    → not (is_none (dict_get t (mapping_from (groups_from assignments ss []) [])))
      ≡ any (has_pool assignments t) ss
is_some-mapping assignments ss t =
    is_some-dict_get t (mapping_from (groups_from assignments ss []) [])
    ∙ in_dict-mapping_from (groups_from assignments ss []) [] t
    ∙ names-groups_from assignments ss [] t
