-- ===== src/Alerts/Tally.antt =====
-- The tally of the events: the floors that it holds, and that each of them has news.
use fluxtrack_main.Alerts.{Event, EventKind, FloorTally, count_at, has_news, in_tally, tally_from}
use fluxtrack_main.Prelude.{
  All, Bool, Bool-cases, List, [], any, arith, false, inl, inr, is_key, none, refl, some, true, ℕ,
  ◌&&◌, ◌==◌, ◌||◌, ◌∙◌, ◌∷◌, ◌≡◌,
}

-- Each counted floor has an event.
abbrev pub HasEvent : FloorTally → Type 0
HasEvent t = (t.absent_count == 0 && t.conflict_count == 0) ≡ false

count_at-HasEvent :
    (kind : EventKind) (f : ℕ) (ts : List FloorTally)
    → All HasEvent ts
    → All HasEvent (count_at kind f ts)
unfolding count_at
count_at-HasEvent EventKind.absent f [] h = (refl, tt)
count_at-HasEvent EventKind.conflict f [] h = (refl, tt)
count_at-HasEvent EventKind.absent f (t ∷ ts) h = elim (Bool-cases (t.floor == f)) [
  | inl e ↦ rw e (ground arith, h.1)
  | inr e ↦ rw e (h.0, count_at-HasEvent EventKind.absent f ts h.1)
]
count_at-HasEvent EventKind.conflict f (t ∷ ts) h = elim (Bool-cases (t.floor == f)) [
  | inl e ↦ rw e (ground arith, h.1)
  | inr e ↦ rw e (h.0, count_at-HasEvent EventKind.conflict f ts h.1)
]

pub tally_from-HasEvent :
    (events : List Event) (ts : List FloorTally)
    → All HasEvent ts
    → All HasEvent (tally_from events ts)
unfolding tally_from
tally_from-HasEvent [] ts h = h
tally_from-HasEvent ((kind, none) ∷ events) ts h = tally_from-HasEvent events ts h
tally_from-HasEvent ((kind, some f) ∷ events) ts h =
    tally_from-HasEvent events (count_at kind f ts) (count_at-HasEvent kind f ts h)

in_tally-count_at :
    (kind : EventKind) (f g : ℕ) (ts : List FloorTally)
    → in_tally (count_at kind f ts) g ≡ ((f == g) || in_tally ts g)
unfolding count_at
in_tally-count_at EventKind.absent f g [] = refl
in_tally-count_at EventKind.conflict f g [] = refl
in_tally-count_at EventKind.absent f g (t ∷ ts) = elim (Bool-cases (t.floor == f)) [
  | inl e ↦ let same : t.floor ≡ f = ground arith in rw (e, same) (ground arith)
  | inr e ↦ rw e (ground (arith, in_tally-count_at EventKind.absent f g ts))
]
in_tally-count_at EventKind.conflict f g (t ∷ ts) = elim (Bool-cases (t.floor == f)) [
  | inl e ↦ let same : t.floor ≡ f = ground arith in rw (e, same) (ground arith)
  | inr e ↦ rw e (ground (arith, in_tally-count_at EventKind.conflict f g ts))
]

-- An event on the floor.
abbrev pub is_on : ℕ → Event → Bool
is_on g event = is_key event.1 g

pub in_tally-tally_from :
    (events : List Event) (ts : List FloorTally) (g : ℕ)
    → in_tally (tally_from events ts) g ≡ (in_tally ts g || any (is_on g) events)
unfolding tally_from
in_tally-tally_from [] ts g = ground arith
in_tally-tally_from ((kind, none) ∷ events) ts g = in_tally-tally_from events ts g
in_tally-tally_from ((kind, some f) ∷ events) ts g =
    in_tally-tally_from events (count_at kind f ts) g
    ∙ rw (in_tally-count_at kind f g ts) (ground arith)

pub has_news_lem :
    (ts : List FloorTally) (f : ℕ) → All HasEvent ts → in_tally ts f ≡ true → has_news ts f ≡ true
has_news_lem [] f h k = absurd (ground arith)
has_news_lem (t ∷ ts) f h k = elim (Bool-cases (t.floor == f)) [
  | inl e ↦ rw (e, h.0) refl
  | inr e ↦ rw e (has_news_lem ts f h.1 (rw e at k))
]
