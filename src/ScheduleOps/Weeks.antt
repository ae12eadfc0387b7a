-- ===== src/ScheduleOps/Weeks.antt =====
-- The remaining weekly dates of a schedule: the `while` loop of `_assert_occurrences_free`.
use fluxtrack_main.Calendar.{Date}
use fluxtrack_main.Prelude.{
  ==_iff, Bool-cases, Elem, List, [], arith, false, inl, inr, leb, ltb, refl, suc, zero, ℕ, ◌%◌,
  ◌+◌, ◌-◌, ◌<◌, ◌==◌, ◌↔◌, ◌∙◌, ◌∷◌, ◌≡◌, ◌≤◌, ◌⊎◌,
}
use fluxtrack_main.ScheduleOps.{insert_date, weekly, weeks_until}

Elem-insert :
    (x d : Date) (dates : List Date) → Elem x (insert_date d dates) ↔ ((x ≡ d) ⊎ Elem x dates)
unfolding insert_date
Elem-insert x d [] = (λ m. m, λ m. m)
Elem-insert x d (e ∷ dates) = elim (Bool-cases (d == e)) [
  | inl f ↦ rw f (λ m. inr m, merge ((==_iff d e).0 f))
  | inr f ↦ elim (Bool-cases (ltb d e)) [
    | inl g ↦ rw (f, g) (λ m. m, λ m. m)
    | inr g ↦
        rw (f, g)
          (
            (λ m. elim m [ inl h ↦ inr (inl h) | inr h ↦ later ((Elem-insert x d dates).0 h) ]),
            λ m. elim m [
              | inl h ↦ inr ((Elem-insert x d dates).1 (inl h))
              | inr h ↦ elim h [ inl k ↦ inl k | inr k ↦ inr ((Elem-insert x d dates).1 (inr k)) ]
            ],
          )
  ]
]
  where
    merge : d ≡ e → (x ≡ d) ⊎ Elem x (e ∷ dates) → Elem x (e ∷ dates)
    merge h (inl k) = inl (k ∙ h)
    merge h (inr k) = k

    later : (x ≡ d) ⊎ Elem x dates → (x ≡ d) ⊎ Elem x (e ∷ dates)
    later (inl k) = inl k
    later (inr k) = inr (inr k)

-- A date of the series that begins at d, up to the end.
abbrev pub IsWeekly : Date → Date → Date → Type 0
IsWeekly d end x = (d ≤ x) × (x ≤ end) × ((x - d) % 7 ≡ 0)

starts : (x d end : Date) → d ≤ end → x ≡ d → IsWeekly d end x
starts x d end h e = rw e (omega arith, h, omega arith)

later_week : (x d end : Date) → IsWeekly (d + 7) end x → IsWeekly d end x
later_week x d end (a, b, c) = (omega arith, b, omega arith)

first_or_later : (x d end : Date) → IsWeekly d end x → (x ≡ d) ⊎ IsWeekly (d + 7) end x
first_or_later x d end (a, b, c) = elim (Bool-cases (x == d)) [
  | inl e ↦ inl ((==_iff x d).0 e)
  | inr e ↦ let ne : d < x = ground arith in inr (omega arith, b, omega arith)
]

pub weekly-Elem :
    (n : ℕ) (d end : Date) (dates : List Date) (x : Date)
    → weeks_until d end ≤ n
    → Elem x (weekly n d end dates) ↔ (Elem x dates ⊎ IsWeekly d end x)
unfolding weekly
weekly-Elem zero d end dates x h =
    (λ m. inl m, λ m. elim m [ inl k ↦ k | inr (a, b, c) ↦ absurd (omega arith) ])
weekly-Elem (suc n) d end dates x h = elim (Bool-cases (leb d end)) [
  | inr e ↦ rw e (λ m. inl m, λ m. elim m [ inl k ↦ k | inr (a, b, c) ↦ absurd (ground arith) ])
  | inl e ↦
      let (there, back) = weekly-Elem n (d + 7) end (insert_date d dates) x (ground arith) in
      let (split, join) = Elem-insert x d dates in
      rw e (
        (λ m. elim (there m) [
          | inl k ↦ elim (split k) [
            | inl same ↦ inr (starts x d end (ground arith) same)
            | inr k' ↦ inl k'
          ]
          | inr (a, b, c) ↦ inr (later_week x d end (a, b, c))
        ]),
        λ m. elim m [
          | inl k ↦ back (inl (join (inr k)))
          | inr (a, b, c) ↦ elim (first_or_later x d end (a, b, c)) [
            | inl same ↦ back (inl (join (inl same)))
            | inr later ↦ back (inr later)
          ]
        ],
      )
]

-- More fuel than the weeks that are left changes nothing.
pub weekly_enough :
    (n m : ℕ) (d end : Date) (dates : List Date)
    → weeks_until d end ≤ n
    → n ≤ m
    → weekly m d end dates ≡ weekly n d end dates
unfolding weekly
weekly_enough zero zero d end dates h k = refl
weekly_enough zero (suc m) d end dates h k = let e : leb d end ≡ false = ground arith in rw e refl
weekly_enough (suc n) zero d end dates h k = absurd (omega arith)
weekly_enough (suc n) (suc m) d end dates h k = elim (Bool-cases (leb d end)) [
  | inl e ↦ rw e (weekly_enough n m (d + 7) end (insert_date d dates) (ground arith) (omega arith))
  | inr e ↦ rw e refl
]

-- The `while` loop ends, for any two dates: with the fuel of the model or any more it gives the same set.
-- Its members are those the set had before, and the dates from the first to the end that lie a number of
-- whole weeks after the first.
pub weekly_ends :
    (fuel : ℕ) (d end : Date) (dates : List Date)
    → weeks_until d end ≤ fuel
    → (weekly fuel d end dates ≡ weekly (weeks_until d end) d end dates)
      × ((x : Date) → Elem x (weekly fuel d end dates) ↔ (Elem x dates ⊎ IsWeekly d end x))
weekly_ends fuel d end dates h = (
  weekly_enough (weeks_until d end) fuel d end dates (omega arith) h,
  λ x. weekly-Elem fuel d end dates x h,
)
