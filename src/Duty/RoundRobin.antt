-- ===== src/Duty/RoundRobin.antt =====
-- The round robin is fair.
use native.Mathlib.Nat.{div-add-mod, div-eq_of_lt-le, mod-lt}
use mathlib.Core.Path.{subst}
use fluxtrack_main.Duty.{Dict, dict_set, distribute_online_sessions, hand_out, nth}
use fluxtrack_main.Prelude.{
  All, All-Elem, Bool, Bool-cases, Elem, List, [], any, ap, arith, count, false, if◌then◌else◌, inl,
  inr, leb, length, ltb, refl, some, suc, sym, zero, ℕ, ◌%◌, ◌*◌, ◌+◌, ◌-◌, ◌/◌, ◌<◌, ◌==◌, ◌∙◌,
  ◌∷◌, ◌≡◌, ◌≢◌, ◌≤◌,
}
use fluxtrack_main.Prelude.Unique.{IsUnique}

-- How many of the first m sessions go to the p-th of n checkers.
abbrev share : (n p m : ℕ) → ℕ
share n p m = (m + (n - 1 - p)) / n

share_at : (n p q r : ℕ) → p < n → r < n → share n p (n * q + r) ≡ q + (if leb r p then 0 else 1)
share_at n p q r h k = elim (Bool-cases (leb r p)) [
  | inl e ↦ let le : r ≤ p = ground arith in rw e (div-eq_of_lt-le n (omega arith) (omega arith))
  | inr e ↦ let gt : p < r = ground arith in rw e (div-eq_of_lt-le n (omega arith) (omega arith))
]

share-suc : (n p m : ℕ) → p < n → share n p (suc m) ≡ share n p m + (if m % n == p then 1 else 0)
share-suc n p m h =
    let e = div-add-mod m n in
    let k : m % n < n = mod-lt m (omega arith) in
    let now : share n p m ≡ m / n + (if leb (m % n) p then 0 else 1) =
      subst (λ x. share n p x ≡ m / n + (if leb (m % n) p then 0 else 1)) e
        (share_at n p (m / n) (m % n) h k) in
    elim (Bool-cases (ltb (suc (m % n)) n)) [
      | inl f ↦
          let next : share n p (suc m) ≡ m / n + (if leb (suc (m % n)) p then 0 else 1) =
            subst (λ x. share n p x ≡ m / n + (if leb (suc (m % n)) p then 0 else 1)) (omega arith)
              (share_at n p (m / n) (suc (m % n)) h (ground arith)) in
          ground arith
      | inr f ↦
          let last : suc (m % n) ≡ n = ground arith in
          let next : share n p (suc m) ≡ suc (m / n) + (if leb 0 p then 0 else 1) =
            subst (λ x. share n p x ≡ suc (m / n) + (if leb 0 p then 0 else 1)) (omega arith)
              (share_at n p (suc (m / n)) 0 h (omega arith)) in
          ground arith
    ]

share_bounds : (n p m : ℕ) → p < n → (m / n ≤ share n p m) × (share n p m ≤ m / n + 1)
share_bounds n p m h =
    let e = div-add-mod m n in
    let k : m % n < n = mod-lt m (omega arith) in
    let now : share n p m ≡ m / n + (if leb (m % n) p then 0 else 1) =
      subst (λ x. share n p x ≡ m / n + (if leb (m % n) p then 0 else 1)) e
        (share_at n p (m / n) (m % n) h k) in
    (ground arith, ground arith)

share-zero : (n p : ℕ) → p < n → share n p 0 ≡ 0
share-zero n p h = div-eq_of_lt-le n (omega arith) (omega arith)

-- The number of sessions that the dict gives to a checker.
abbrev pub load : ℕ → Dict → ℕ
load c d = count (λ row. row.1 == c) d

abbrev pub in_dict : Dict → ℕ → Bool
in_dict d s = any (λ row. row.0 == s) d

load-dict_set :
    (c s v : ℕ) (d : Dict)
    → in_dict d s ≡ false
    → load c (dict_set s v d) ≡ load c d + (if v == c then 1 else 0)
unfolding dict_set
load-dict_set c s v [] h = ground arith
load-dict_set c s v (row ∷ rest) h =
    let r = load-dict_set c s v rest (ground arith) in
    let other : (row.0 == s) ≡ false = ground arith in rw other (ground arith)

in_dict-dict_set :
    (s v t : ℕ) (d : Dict) → s ≢ t → in_dict d t ≡ false → in_dict (dict_set s v d) t ≡ false
unfolding dict_set
in_dict-dict_set s v t [] k h = ground arith
in_dict-dict_set s v t (row ∷ rest) k h = elim (Bool-cases (row.0 == s)) [
  | inl e ↦ rw e (ground arith)
  | inr e ↦ let r = in_dict-dict_set s v t rest k (ground arith) in rw e (ground arith)
]

still_fresh :
    (s v : ℕ) (d : Dict) (ss : List ℕ)
    → All (λ t. s ≢ t) ss
    → All (λ t. in_dict d t ≡ false) ss
    → All (λ t. in_dict (dict_set s v d) t ≡ false) ss
still_fresh s v d [] k h = tt
still_fresh s v d (t ∷ ts) k h = (in_dict-dict_set s v t d k.0 h.0, still_fresh s v d ts k.1 h.1)

pub nth-some : (xs : List ℕ) (i : ℕ) → i < length xs → (x : ℕ) × (nth xs i ≡ some x)
nth-some [] i h = absurd (omega arith)
nth-some (x ∷ xs) zero h = (x, refl)
nth-some (x ∷ xs) (suc i) h = nth-some xs i (omega arith)

pub nth-Elem : (xs : List ℕ) (i x : ℕ) → nth xs i ≡ some x → Elem x xs
nth-Elem [] i x h = absurd (ground arith)
nth-Elem (y ∷ ys) zero x h = inl (ground arith)
nth-Elem (y ∷ ys) (suc i) x h = inr (nth-Elem ys i x h)

nth_lt : (xs : List ℕ) (i x : ℕ) → nth xs i ≡ some x → i < length xs
nth_lt [] i x h = absurd (ground arith)
nth_lt (y ∷ ys) zero x h = omega arith
nth_lt (y ∷ ys) (suc i) x h = let r = nth_lt ys i x h in omega arith

-- In a list without repetitions, one value stands at one place.
nth_unique :
    (xs : List ℕ) (i j x y : ℕ)
    → IsUnique xs
    → nth xs i ≡ some x
    → nth xs j ≡ some y
    → (x == y) ≡ (i == j)
nth_unique [] i j x y u h k = absurd (ground arith)
nth_unique (z ∷ zs) zero zero x y u h k = ground arith
nth_unique (z ∷ zs) zero (suc j) x y u h k =
    let differ = All-Elem (λ w. z ≢ w) zs y u.0 (nth-Elem zs j y k) in ground arith
nth_unique (z ∷ zs) (suc i) zero x y u h k =
    let differ = All-Elem (λ w. z ≢ w) zs x u.0 (nth-Elem zs i x h) in ground arith
nth_unique (z ∷ zs) (suc i) (suc j) x y u h k =
    let r = nth_unique zs i j x y u.1 h k in ground arith

chain :
    (total first s0 s1 s2 before one same : ℕ)
    → total + s1 ≡ first + s2
    → first ≡ before + one
    → one ≡ same
    → s1 ≡ s0 + same
    → total + s0 ≡ before + s2
chain total first s0 s1 s2 before one same p q r t = omega arith

between :
    (total s0 s1 empty_load low : ℕ)
    → total + s0 ≡ empty_load + s1
    → empty_load ≡ 0
    → s0 ≡ 0
    → (low ≤ s1) × (s1 ≤ low + 1)
    → (low ≤ total) × (total ≤ low + 1)
between total s0 s1 empty_load low p q r (a, b) = (omega arith, omega arith)

module _ (checkers : List ℕ) (c p : ℕ) (unique : IsUnique checkers)
    (at : nth checkers p ≡ some c) where
  abbrev n : ℕ
  n = length checkers

  hand_out_lem :
      (i : ℕ) (ss : List ℕ) (d : Dict)
      → IsUnique ss
      → All (λ t. in_dict d t ≡ false) ss
      → load c (hand_out checkers i ss d) + share n p i ≡ load c d + share n p (i + length ss)
  unfolding hand_out
  hand_out_lem i [] d u h = ap (λ m. load c d + share n p m) (omega arith)
  hand_out_lem i (s ∷ ss) d u h =
      let low = nth_lt checkers p c at in
      let (x, e) = nth-some checkers (i % n) (mod-lt i (omega arith)) in
      let here = nth_unique checkers (i % n) p x c unique e at in
      let rest = hand_out_lem (suc i) ss (dict_set s x d) u.1 (still_fresh s x d ss u.0 h.1) in
      let step =
        chain _ _ (share n p i) (share n p (suc i)) (share n p (suc i + length ss)) (load c d) _ _
          rest (load-dict_set c s x d h.0) (ap (λ b. if b then 1 else 0) here)
          (share-suc n p i low) in
      rw e (step ∙ ap (λ m. load c d + share n p m) (omega arith))

fresh_dict : (ss : List ℕ) → All (λ t. in_dict [] t ≡ false) ss
fresh_dict [] = tt
fresh_dict (s ∷ ss) = (refl, fresh_dict ss)

place : (c : ℕ) (xs : List ℕ) → Elem c xs → (p : ℕ) × (nth xs p ≡ some c)
place c [] m = absurd m
place c (x ∷ xs) (inl e) = (0, ap some (sym e))
place c (x ∷ xs) (inr m) = let (p, e) = place c xs m in (suc p, e)

-- Where no session and no checker occurs twice: each checker of the pool gets the number of sessions
-- divided by the number of checkers, rounded down, or one more. So no two checkers differ by more than
-- one session.
pub distribute_online_sessions-fair :
    (session_ids checker_ids : List ℕ) (c : ℕ)
    → IsUnique session_ids
    → IsUnique checker_ids
    → Elem c checker_ids
    → (length session_ids / length checker_ids
        ≤ load c (distribute_online_sessions session_ids checker_ids))
      × (load c (distribute_online_sessions session_ids checker_ids)
          ≤ length session_ids / length checker_ids + 1)
unfolding distribute_online_sessions
distribute_online_sessions-fair session_ids [] c u v m = absurd m
distribute_online_sessions-fair session_ids (x ∷ xs) c u v m =
    let (p, e) = place c (x ∷ xs) m in
    let low = nth_lt (x ∷ xs) p c e in
    let n = length (x ∷ xs) in
    between (load c (hand_out (x ∷ xs) 0 session_ids [])) (share n p 0)
      (share n p (length session_ids)) 0 (length session_ids / n)
      (hand_out_lem (x ∷ xs) c p v e 0 session_ids [] u (fresh_dict session_ids)
        ∙ ap (λ m. 0 + share n p m) (omega arith))
      refl (share-zero n p low) (share_bounds n p (length session_ids) low)
