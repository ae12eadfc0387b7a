-- ===== src/Duty/Assign/Pools.antt =====
-- The pools of the online duty: whom the mapping names, and which sessions it holds.
use mathlib.Core.Path.{subst}
use fluxtrack_main.Duty.{Dict, dict_set, distribute_online_sessions, hand_out, nth}
use fluxtrack_main.Duty.Assign.{
  Groups, add_to_group, dict_get, dict_update, eligible, groups_from, mapping_from, same_keys,
}
use fluxtrack_main.Duty.RoundRobin.{nth-Elem}
use fluxtrack_main.Model.{Assignment, Session}
use fluxtrack_main.Prelude.{
  All, Bool-cases, Elem, List, Option-cases, [], arith, inl, inr, length, refl, some, suc, sym,
  true, ℕ, ◌%◌, ◌++◌, ◌==◌, ◌∷◌, ◌≡◌, ◌⊎◌,
}

pub same_keys_lem : (xs ys : List ℕ) → same_keys xs ys ≡ true → xs ≡ ys
same_keys_lem [] [] h = refl
same_keys_lem [] (y ∷ ys) h = absurd (ground arith)
same_keys_lem (x ∷ xs) [] h = absurd (ground arith)
same_keys_lem (x ∷ xs) (y ∷ ys) h =
    let r = same_keys_lem xs ys (ground arith) in let e : x ≡ y = ground arith in rw (e, r) refl

Elem-last_cases : (ids : List ℕ) (j k : ℕ) → Elem j (ids ++ k ∷ []) → Elem j ids ⊎ (j ≡ k)
Elem-last_cases [] j k (inl e) = inr e
Elem-last_cases [] j k (inr m) = absurd m
Elem-last_cases (i ∷ ids) j k (inl e) = inl (inl e)
Elem-last_cases (i ∷ ids) j k (inr m) = elim (Elem-last_cases ids j k m) [
  | inl n ↦ inl (inr n)
  | inr e ↦ inr e
]

-- What holds of every pair of a dict.
module _ (Q : ℕ → ℕ → Type 0) where
  abbrev pub Holds : Dict → Type 0
  Holds d = All (λ row. Q row.0 row.1) d

  dict_set-Holds : (k v : ℕ) (d : Dict) → Q k v → Holds d → Holds (dict_set k v d)
  unfolding dict_set
  dict_set-Holds k v [] q h = (q, tt)
  dict_set-Holds k v (row ∷ rest) q h = elim (Bool-cases (row.0 == k)) [
    | inl e ↦ rw e (q, h.1)
    | inr e ↦ rw e (h.0, dict_set-Holds k v rest q h.1)
  ]

  dict_update-Holds : (d e : Dict) → Holds d → Holds e → Holds (dict_update d e)
  unfolding dict_update
  dict_update-Holds d [] h k = h
  dict_update-Holds d ((k, v) ∷ rest) h q =
      dict_update-Holds (dict_set k v d) rest (dict_set-Holds k v d q.0 h) q.1

  hand_out-Holds :
      (cs : List ℕ) (i : ℕ) (ids : List ℕ) (d : Dict)
      → ((k c : ℕ) → Elem k ids → Elem c cs → Q k c)
      → Holds d
      → Holds (hand_out cs i ids d)
  unfolding hand_out
  hand_out-Holds cs i [] d f h = h
  hand_out-Holds cs i (k ∷ ks) d f h = elim (Option-cases (nth cs (i % length cs))) [
    | inl e ↦ rw e (hand_out-Holds cs (suc i) ks d (λ j c m. f j c (inr m)) h)
    | inr (c, e) ↦ rw e (
        hand_out-Holds cs (suc i) ks (dict_set k c d) (λ j b m. f j b (inr m))
          (dict_set-Holds k c d (f k c (inl refl) (nth-Elem cs (i % length cs) c e)) h))
  ]

  abbrev pub IsPool : List ℕ × List ℕ → Type 0
  IsPool group = (k c : ℕ) → Elem k group.1 → Elem c group.0 → Q k c

  pub mapping_from-Holds :
      (groups : Groups) (d : Dict) → All IsPool groups → Holds d → Holds (mapping_from groups d)
  unfolding mapping_from distribute_online_sessions
  mapping_from-Holds [] d g h = h
  mapping_from-Holds (([], ids) ∷ rest) d g h = mapping_from-Holds rest d g.1 h
  mapping_from-Holds ((c ∷ cs, ids) ∷ rest) d g h =
      mapping_from-Holds rest _ g.1 (
        dict_update-Holds d (hand_out (c ∷ cs) 0 ids []) h
          (hand_out-Holds (c ∷ cs) 0 ids [] g.0 tt))

  add_to_group-IsPool :
      (pool : List ℕ) (k : ℕ) (groups : Groups)
      → ((c : ℕ) → Elem c pool → Q k c)
      → All IsPool groups
      → All IsPool (add_to_group pool k groups)
  unfolding add_to_group
  add_to_group-IsPool pool k [] f g =
      (λ j c m n. elim m [ inl e ↦ rw e (f c n) | inr x ↦ absurd x ], tt)
  add_to_group-IsPool pool k ((p, ids) ∷ rest) f g = elim (Bool-cases (same_keys p pool)) [
    | inl e ↦ rw e (
      λ j c m n. elim (Elem-last_cases ids j k m) [
        | inl old ↦ g.0 j c old n
        | inr new ↦ rw new (f c (subst (Elem c) (same_keys_lem p pool e) n))
      ],
      g.1,
    )
    | inr e ↦ rw e (g.0, add_to_group-IsPool pool k rest f g.1)
  ]

  pub groups_from-IsPool :
      (assignments : List Assignment) (ss : List Session) (groups : Groups)
      → ((s : Session) (c : ℕ) → Elem s ss → Elem c (eligible assignments s) → Q s.id c)
      → All IsPool groups
      → All IsPool (groups_from assignments ss groups)
  unfolding groups_from
  groups_from-IsPool assignments [] groups f g = g
  groups_from-IsPool assignments (s ∷ ss) groups f g =
      groups_from-IsPool assignments ss _ (λ t c m. f t c (inr m))
        (add_to_group-IsPool (eligible assignments s) s.id groups (λ c. f s c (inl refl)) g)

  pub dict_get-Holds : (k c : ℕ) (d : Dict) → Holds d → dict_get k d ≡ some c → Q k c
  unfolding dict_get
  dict_get-Holds k c [] h e = absurd (ground arith)
  dict_get-Holds k c (row ∷ rest) h e = elim (Bool-cases (row.0 == k)) [
    | inl f ↦
        let same : row.0 ≡ k = ground arith in
        let v : row.1 ≡ c = value row.1 c (rw f at e) in rw (sym same, sym v) h.0
    | inr f ↦ dict_get-Holds k c rest h.1 (rw f at e)
  ]
    where
      value : (x y : ℕ) → some x ≡ some y → x ≡ y
      value x y q = cc
