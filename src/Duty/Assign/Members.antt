-- ===== src/Duty/Assign/Members.antt =====
-- The members of the sorted sessions and of the sorted sets of users.
use fluxtrack_main.Duty.Assign.{
  comes_before, insert_by_start, insert_sorted, order_by_start, sorted_set,
}
use fluxtrack_main.Duty.Assign.Named.{names}
use fluxtrack_main.Model.{Assignment, Session}
use fluxtrack_main.Prelude.{
  ==-refl, Bool-cases, Elem, List, [], ap, arith, inl, inr, ltb, map, refl, sym, true, ℕ, ◌==◌, ◌∙◌,
  ◌∷◌, ◌≡◌, ◌⊎◌,
}

Elem-insert :
    (s : Session) (ss : List Session) (x : Session)
    → Elem x (insert_by_start s ss)
    → Elem x (s ∷ ss)
unfolding insert_by_start
Elem-insert s [] x m = m
Elem-insert s (t ∷ ts) x m = elim (Bool-cases (comes_before t s)) [
  | inl e ↦ elim (rw e at m) [
    | inl p ↦ inr (inl p)
    | inr n ↦ elim (Elem-insert s ts x n) [ inl p ↦ inl p | inr k ↦ inr (inr k) ]
  ]
  | inr e ↦ rw e at m
]

Elem-insert_of :
    (s : Session) (ss : List Session) (x : Session)
    → Elem x (s ∷ ss)
    → Elem x (insert_by_start s ss)
unfolding insert_by_start
Elem-insert_of s [] x m = m
Elem-insert_of s (t ∷ ts) x m = elim (Bool-cases (comes_before t s)) [
  | inl e ↦ rw e (elim m [
    | inl p ↦ inr (Elem-insert_of s ts x (inl p))
    | inr n ↦ elim n [ inl p ↦ inl p | inr k ↦ inr (Elem-insert_of s ts x (inr k)) ]
  ])
  | inr e ↦ rw e m
]

pub Elem-order : (ss : List Session) (x : Session) → Elem x (order_by_start ss) → Elem x ss
unfolding order_by_start
Elem-order [] x m = m
Elem-order (s ∷ ss) x m = elim (Elem-insert s (order_by_start ss) x m) [
  | inl e ↦ inl e
  | inr n ↦ inr (Elem-order ss x n)
]

pub Elem-order_of : (ss : List Session) (x : Session) → Elem x ss → Elem x (order_by_start ss)
unfolding order_by_start
Elem-order_of [] x m = m
Elem-order_of (s ∷ ss) x (inl e) = Elem-insert_of s (order_by_start ss) x (inl e)
Elem-order_of (s ∷ ss) x (inr m) =
    Elem-insert_of s (order_by_start ss) x (inr (Elem-order_of ss x m))

Elem-insert_sorted :
    (k : ℕ) (ks : List ℕ) (c : ℕ) → Elem c (insert_sorted k ks) → (c ≡ k) ⊎ Elem c ks
unfolding insert_sorted
Elem-insert_sorted k [] c m = m
Elem-insert_sorted k (j ∷ js) c m = elim (Bool-cases (k == j)) [
  | inl e ↦ inr (rw e at m)
  | inr e ↦ elim (Bool-cases (ltb k j)) [
    | inl f ↦ rw (e, f) at m
    | inr f ↦ elim (rw (e, f) at m) [
      | inl p ↦ inr (inl p)
      | inr n ↦ elim (Elem-insert_sorted k js c n) [ inl p ↦ inl p | inr q ↦ inr (inr q) ]
    ]
  ]
]

Elem-insert_sorted_of :
    (k : ℕ) (ks : List ℕ) (c : ℕ) → Elem c (k ∷ ks) → Elem c (insert_sorted k ks)
unfolding insert_sorted
Elem-insert_sorted_of k [] c m = m
Elem-insert_sorted_of k (j ∷ js) c m = elim (Bool-cases (k == j)) [
  | inl e ↦ let same : k ≡ j = ground arith in rw e (elim m [ inl p ↦ inl (p ∙ same) | inr n ↦ n ])
  | inr e ↦ elim (Bool-cases (ltb k j)) [
    | inl f ↦ rw (e, f) m
    | inr f ↦
        rw (e, f)
          (elim m [
            | inl p ↦ inr (Elem-insert_sorted_of k js c (inl p))
            | inr n ↦ elim n [ inl p ↦ inl p | inr q ↦ inr (Elem-insert_sorted_of k js c (inr q)) ]
          ])
  ]
]

pub Elem-sorted_set_of : (ks : List ℕ) (c : ℕ) → Elem c ks → Elem c (sorted_set ks)
unfolding sorted_set
Elem-sorted_set_of [] c m = m
Elem-sorted_set_of (k ∷ ks) c (inl e) = Elem-insert_sorted_of k (sorted_set ks) c (inl e)
Elem-sorted_set_of (k ∷ ks) c (inr m) =
    Elem-insert_sorted_of k (sorted_set ks) c (inr (Elem-sorted_set_of ks c m))

pub Elem-user_of :
    (rows : List Assignment) (a : Assignment)
    → Elem a rows
    → Elem a.user_id (map (λ r. r.user_id) rows)
Elem-user_of [] a m = absurd m
Elem-user_of (r ∷ rows) a (inl e) = inl (ap (λ r. r.user_id) e)
Elem-user_of (r ∷ rows) a (inr m) = inr (Elem-user_of rows a m)

pub names-Elem : (t c : ℕ) (pool : List ℕ) → Elem c pool → names t (pool, t ∷ []) ≡ true
names-Elem t c [] m = absurd m
names-Elem t c (d ∷ ds) m = rw (==-refl t) refl

pub Elem-sorted_set : (ks : List ℕ) (c : ℕ) → Elem c (sorted_set ks) → Elem c ks
unfolding sorted_set
Elem-sorted_set [] c m = m
Elem-sorted_set (k ∷ ks) c m = elim (Elem-insert_sorted k (sorted_set ks) c m) [
  | inl e ↦ inl e
  | inr n ↦ inr (Elem-sorted_set ks c n)
]

pub Elem-user :
    (rows : List Assignment) (c : ℕ)
    → Elem c (map (λ a. a.user_id) rows)
    → (a : Assignment) × Elem a rows × (a.user_id ≡ c)
Elem-user [] c m = absurd m
Elem-user (a ∷ rows) c (inl e) = (a, inl refl, sym e)
Elem-user (a ∷ rows) c (inr m) = let (b, n, e) = Elem-user rows c m in (b, inr n, e)
