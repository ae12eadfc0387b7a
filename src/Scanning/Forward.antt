-- ===== src/Scanning/Forward.antt =====
-- The life of a session under scans: it only moves forward.
use fluxtrack_main.Calendar.{Instant}
use fluxtrack_main.Duty.Assign.Covered.{Pairwise}
use fluxtrack_main.Merge.{mark_merged}
use fluxtrack_main.Merge.Guarded.{IsGuardedFill}
use fluxtrack_main.Model.{Session, SessionStatus, is_scheduled}
use fluxtrack_main.Prelude.{
  Bool, Elem, List, [], arith, false, if◌then◌else◌, inl, inr, refl, true, ◌∙◌, ◌∷◌, ◌≡◌,
}
use fluxtrack_main.Prelude.Update.{update}

-- SCHEDULED comes before ACTIVE, ABSENT and COMPLETED, and ACTIVE before COMPLETED; the others are final.
abbrev pub is_forward : SessionStatus → SessionStatus → Bool
is_forward SessionStatus.scheduled SessionStatus.cancelled = false
is_forward SessionStatus.scheduled _ = true
is_forward SessionStatus.active SessionStatus.active = true
is_forward SessionStatus.active SessionStatus.completed = true
is_forward SessionStatus.active _ = false
is_forward SessionStatus.completed SessionStatus.completed = true
is_forward SessionStatus.completed _ = false
is_forward SessionStatus.absent SessionStatus.absent = true
is_forward SessionStatus.absent _ = false
is_forward SessionStatus.cancelled SessionStatus.cancelled = true
is_forward SessionStatus.cancelled _ = false

abbrev pub IsForward : Session → Session → Type 0
IsForward s r = (r.id ≡ s.id) × (is_forward s.status r.status ≡ true)

abbrev pub AllForward : List Session → List Session → Type 0
AllForward = Pairwise IsForward

pub forward_refl : (a : SessionStatus) → is_forward a a ≡ true
forward_refl SessionStatus.scheduled = refl
forward_refl SessionStatus.active = refl
forward_refl SessionStatus.completed = refl
forward_refl SessionStatus.absent = refl
forward_refl SessionStatus.cancelled = refl

pub forward_trans :
    (a b c : SessionStatus) → is_forward a b ≡ true → is_forward b c ≡ true → is_forward a c ≡ true
forward_trans a b c h k = ground arith

pub AllForward-refl : (xs : List Session) → AllForward xs xs
AllForward-refl [] = tt
AllForward-refl (x ∷ xs) = ((refl, forward_refl x.status), AllForward-refl xs)

pub AllForward-trans :
    (xs ys zs : List Session) → AllForward xs ys → AllForward ys zs → AllForward xs zs
AllForward-trans [] [] [] h k = tt
AllForward-trans (x ∷ xs) (y ∷ ys) (z ∷ zs) h k = (
  (k.0.0 ∙ h.0.0, forward_trans x.status y.status z.status h.0.1 k.0.1),
  AllForward-trans xs ys zs h.1 k.1,
)
AllForward-trans [] [] (z ∷ zs) h k = absurd k
AllForward-trans [] (y ∷ ys) zs h k = absurd h
AllForward-trans (x ∷ xs) [] zs h k = absurd h
AllForward-trans (x ∷ xs) (y ∷ ys) [] h k = absurd k

pub AllForward-update :
    (test : Session → Bool) (change : Session → Session) (xs : List Session)
    → ((x : Session) → Elem x xs → test x ≡ true → IsForward x (change x))
    → AllForward xs (update test change xs)
unfolding update
AllForward-update test change [] h = tt
AllForward-update test change (x ∷ xs) h =
    (here (test x) refl, AllForward-update test change xs (λ y m. h y (inr m)))
  where
    here : (b : Bool) → test x ≡ b → IsForward x (if b then change x else x)
    here true e = h x (inl refl) e
    here false e = (refl, forward_refl x.status)

-- A fill turns scheduled rows active.
pub AllForward-fill :
    (now : Instant) (xs ys : List Session)
    → IsGuardedFill (mark_merged now) xs ys
    → AllForward xs ys
AllForward-fill now xs ys (test, guarded, e) = rw e (
    AllForward-update test (mark_merged now) xs
      (λ x m h. (refl, from_scheduled x.status (guarded x h))))
  where
    from_scheduled :
        (a : SessionStatus) → is_scheduled a ≡ true → is_forward a SessionStatus.active ≡ true
    from_scheduled a h = ground arith
