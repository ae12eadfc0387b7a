-- ===== src/Checker/Replay/Twice.antt =====
-- A queue that is sent again: web/checker.py, `replay`.
use mathlib.Core.Path.{subst}
use fluxtrack_main.Calendar.{Instant}
use fluxtrack_main.Checker.Records.{OnlyRecords, OnlyRecords-trans}
use fluxtrack_main.Checker.Replay.{
  ReplayItem, ReplayResult, add_result, bad_item, duplicate, fresh_item, has_receipt, replay,
  replay_item,
}
use fluxtrack_main.Checker.Replay.Receipts.{IsHandled, fresh_item-IsHandled}
use fluxtrack_main.Effects.{Error, Result, err, ok}
use fluxtrack_main.Model.{Database}
use fluxtrack_main.Prelude.{
  All, Bool, List, Option, [], ap, arith, false, if_some, if◌then◌else◌, inl, inr, map, none, refl,
  some, sym, true, ℕ, ◌∙◌, ◌∷◌, ◌≡◌, ◌⊎◌,
}
use fluxtrack_main.Web.{Site}

abbrev pub is_settled : ReplayItem → Database → Bool
is_settled item db = if_some item.client_uuid (λ u. has_receipt u db) true

-- What a settled item is answered with when it comes again.
abbrev pub answer_again : ReplayItem → ReplayResult
answer_again item = if_some item.client_uuid duplicate bad_item

-- No receipt is lost, and only records are written.
abbrev pub Grows : Database → Database → Type 0
Grows before after =
    ((u : ℕ) → has_receipt u before ≡ true → has_receipt u after ≡ true) × OnlyRecords before after

Grows-refl : (db : Database) → Grows db db
Grows-refl db = (λ u h. h, refl)

Grows-trans : (a b c : Database) → Grows a b → Grows b c → Grows a c
Grows-trans a b c (keep, only) (keep', only') =
    (λ u h. keep' u (keep u h), OnlyRecords-trans a b c only only')

is_settled-Grows :
    (item : ReplayItem) (before after : Database)
    → Grows before after
    → is_settled item before ≡ true
    → is_settled item after ≡ true
is_settled-Grows item before after (keep, only) = by_key item.client_uuid
  where
    by_key :
        (o : Option ℕ)
        → if_some o (λ u. has_receipt u before) true ≡ true
        → if_some o (λ u. has_receipt u after) true ≡ true
    by_key none h = refl
    by_key (some u) h = keep u h

-- The run of one item: it raised, or the item is settled now.
abbrev IsItemRun : ReplayItem → Site → Result ReplayResult × Site → Type 0
IsItemRun item site run =
    ((e : Error) × (after : Site) × (run ≡ (err e, after)) × Grows site.db after.db)
    ⊎ ((r : ReplayResult) × (after : Site) × (run ≡ (ok r, after))
        × Grows site.db after.db
        × (is_settled item after.db ≡ true))

abbrev is_answered : Result (List ReplayResult) → Bool
is_answered (ok rs) = true
is_answered (err e) = false

module _ (user : ℕ) (now : Instant) where
  replay_item-IsItemRun :
      (item : ReplayItem) (site : Site) → IsItemRun item site (replay_item user now item site)
  unfolding replay_item
  replay_item-IsItemRun item site = by_key item.client_uuid refl
    where
      settled :
          (u : ℕ) (db : Database)
          → item.client_uuid ≡ some u
          → has_receipt u db ≡ true
          → is_settled item db ≡ true
      settled u db e h = rw e h

      fresh :
          (u : ℕ)
          → item.client_uuid ≡ some u
          → IsHandled user now u site (fresh_item user now u item site)
          → IsItemRun item site (fresh_item user now u item site)
      fresh u e (inl (x, after, run, same)) = inl (x, after, run, rw same (Grows-refl site.db))
      fresh u e (inr (r, after, run, has, keep, only)) =
          inr (r, after, run, (keep, only), settled u after.db e has)

      by_receipt :
          (u : ℕ)
          → item.client_uuid ≡ some u
          → (b : Bool) → has_receipt u site.db ≡ b
          → IsItemRun item site
              (if b then (ok (duplicate u), site) else fresh_item user now u item site)
      by_receipt u e true h =
          inr (duplicate u, site, refl, Grows-refl site.db, settled u site.db e h)
      by_receipt u e false h = fresh u e (fresh_item-IsHandled user now u item site)

      by_key :
          (o : Option ℕ)
          → item.client_uuid ≡ o
          → IsItemRun item site (
              if_some o
                (λ u.
                  if has_receipt u site.db
                  then (ok (duplicate u), site)
                  else fresh_item user now u item site)
                (ok bad_item, site))
      by_key none e = inr (bad_item, site, refl, Grows-refl site.db, rw e refl)
      by_key (some u) e = by_receipt u e (has_receipt u site.db) refl

  -- The run of a queue: what was settled stays so, and where it is answered all its items are settled.
  abbrev IsRun : List ReplayItem → Site → Result (List ReplayResult) × Site → Type 0
  IsRun items site run =
      ((e : Error) × (after : Site) × (run ≡ (err e, after)) × Grows site.db after.db)
      ⊎ ((rs : List ReplayResult) × (after : Site) × (run ≡ (ok rs, after))
          × Grows site.db after.db
          × All (λ item. is_settled item after.db ≡ true) items)

  add-IsRun :
      (item : ReplayItem) (items : List ReplayItem) (r : ReplayResult) (site middle : Site)
      (run : Result (List ReplayResult) × Site)
      → Grows site.db middle.db
      → is_settled item middle.db ≡ true
      → IsRun items middle run
      → IsRun (item ∷ items) site (add_result user now r run)
  add-IsRun item items r site middle run grows settled (inl (e, after, eq, more)) =
      inl (e, after, rw eq refl, Grows-trans site.db middle.db after.db grows more)
  add-IsRun item items r site middle run grows settled (inr (rs, after, eq, more, others)) = inr (
    r ∷ rs,
    after,
    rw eq refl,
    Grows-trans site.db middle.db after.db grows more,
    (is_settled-Grows item middle.db after.db more settled, others),
  )

  replay-IsRun :
      (items : List ReplayItem) (site : Site) → IsRun items site (replay user now items site)
  unfolding replay
  replay-IsRun [] site = inr ([], site, refl, Grows-refl site.db, tt)
  replay-IsRun (item ∷ items) site = elim (replay_item-IsItemRun item site) [
    | inl (e, after, run, grows) ↦ rw run (inl (e, after, refl, grows))
    | inr (r, middle, run, grows, settled) ↦ rw run (
        add-IsRun item items r site middle (replay user now items middle) grows settled
          (replay-IsRun items middle))
  ]

  -- A queue may write checkers' records, their receipts, audit rows and notifications, and it loses no
  -- receipt. Everything else, the sessions among it, is as it was, also where an item raises.
  pub replay-Grows :
      (items : List ReplayItem) (site : Site) → Grows site.db (replay user now items site).1.db
  replay-Grows items site = elim (replay-IsRun items site) [
    | inl (e, after, run, grows) ↦ rw run grows
    | inr (rs, after, run, grows, settled) ↦ rw run grows
  ]

  replay_item-settled :
      (item : ReplayItem) (site : Site)
      → is_settled item site.db ≡ true
      → replay_item user now item site ≡ (ok (answer_again item), site)
  unfolding replay_item
  replay_item-settled item site = by_key item.client_uuid
    where
      by_key :
          (o : Option ℕ)
          → if_some o (λ u. has_receipt u site.db) true ≡ true
          → if_some o
              (λ u.
                if has_receipt u site.db
                then (ok (duplicate u), site)
                else fresh_item user now u item site)
              (ok bad_item, site)
            ≡ (ok (if_some o duplicate bad_item), site)
      by_key none h = refl
      by_key (some u) h = rw h refl

  replay-settled :
      (items : List ReplayItem) (site : Site)
      → All (λ item. is_settled item site.db ≡ true) items
      → replay user now items site ≡ (ok (map answer_again items), site)
  unfolding replay
  replay-settled [] site h = refl
  replay-settled (item ∷ items) site (h, hs) =
      rw (replay_item-settled item site h, replay-settled items site hs) refl

-- A queue that has been answered, in whatever state, has no effect when it is sent again, by whomever and
-- at whatever time: the state is unchanged, and each item is answered as a duplicate, or as a bad item
-- where it has no uuid.
pub replay_twice :
    (user : ℕ) (now : Instant) (items : List ReplayItem) (site after : Site)
    (rs : List ReplayResult)
    → replay user now items site ≡ (ok rs, after)
    → (again : ℕ) (later : Instant)
    → replay again later items after ≡ (ok (map answer_again items), after)
replay_twice user now items site after rs h again later = elim (replay-IsRun user now items site) [
  | inl (e, stopped, run, grows) ↦
      let no : true ≡ false = ap (λ x. is_answered x.0) (sym h ∙ run) in absurd (ground arith)
  | inr (rs', after', run, grows, settled) ↦
      let same : after' ≡ after = ap (λ x. x.1) (sym run ∙ h) in
      replay-settled again later items after
        (subst (λ s. All (λ item. is_settled item s.db ≡ true) items) same settled)
]
