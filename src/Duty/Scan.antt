-- ===== src/Duty/Scan.antt =====
-- The checker's scan as a table of rules.
use fluxtrack_main.Duty.{
  CheckerResolution, SessionState, checker_resolution, resolve_checker_scan, state_scan,
}
use fluxtrack_main.Model.{
  SessionStatus, absent_excluded, active_unverified, already_verified, is_absent, is_scheduled,
  no_session, off_duty, wrong_floor,
}
use fluxtrack_main.Prelude.{
  ==-refl, ==_iff, Bool, Bool-cases, Elem, List, Option, [], any-Elem, any-witness, arith, false,
  inl, inr, none, refl, some, sym, true, ℕ, ◌==◌, ◌↔◌, ◌∙◌, ◌∷◌, ◌≡◌, ◌≢◌,
}
use fluxtrack_main.Prelude.Unique.{has_key}

module _ (duty : List ℕ) (at : ℕ) (state : Option SessionState) where
  abbrev pub OnFloor : Type 0
  OnFloor = Elem at duty

  -- The six rows of the table, for the floors on duty, the scanned floor and the room's session.
  pub data CheckerRule (r : CheckerResolution) : Type 0 where
    nobody : duty ≡ [] → r ≡ checker_resolution off_duty none → CheckerRule r
    elsewhere : duty ≢ [] → ¬ OnFloor → r ≡ checker_resolution wrong_floor none → CheckerRule r
    vacant :
        OnFloor
        → ((s : SessionState) → state ≡ some s → s.status ≡ SessionStatus.scheduled)
        → r ≡ checker_resolution no_session none
        → CheckerRule r
    missed :
        (s : SessionState)
        → OnFloor
        → state ≡ some s
        → s.status ≡ SessionStatus.absent
        → r ≡ checker_resolution absent_excluded (some s.id)
        → CheckerRule r
    seen :
        (s : SessionState)
        → OnFloor
        → state ≡ some s
        → s.status ≢ SessionStatus.scheduled
        → s.status ≢ SessionStatus.absent
        → s.verified ≡ true
        → r ≡ checker_resolution already_verified (some s.id)
        → CheckerRule r
    unseen :
        (s : SessionState)
        → OnFloor
        → state ≡ some s
        → s.status ≢ SessionStatus.scheduled
        → s.status ≢ SessionStatus.absent
        → s.verified ≡ false
        → r ≡ checker_resolution active_unverified (some s.id)
        → CheckerRule r

has_key_iff : (ks : List ℕ) (k : ℕ) → (has_key ks k ≡ true) ↔ Elem k ks
has_key_iff ks k = (
  λ h. let (j, m, e) = any-witness (λ j. j == k) ks h in rw (sym ((==_iff j k).0 e)) m,
  λ m. any-Elem (λ j. j == k) ks k m (==-refl k),
)

state_rule :
    (duty : List ℕ) (at : ℕ) (state : Option SessionState)
    → OnFloor duty at state
    → CheckerRule duty at state (state_scan state)
unfolding state_scan
state_rule duty at none m = vacant m (λ s e. absurd (ground arith)) refl
state_rule duty at (some s) m = elim (Bool-cases (is_scheduled s.status)) [
  | inl e ↦ vacant m (λ t q. ground arith) (rw e refl)
  | inr e ↦ elim (Bool-cases (is_absent s.status)) [
    | inl f ↦ missed s m refl (ground arith) (rw (e, f) refl)
    | inr f ↦ elim (Bool-cases s.verified) [
      | inl g ↦ seen s m refl (λ q. ground arith) (λ q. ground arith) g (rw (e, f, g) refl)
      | inr g ↦ unseen s m refl (λ q. ground arith) (λ q. ground arith) g (rw (e, f, g) refl)
    ]
  ]
]

on_floor :
    (duty : List ℕ) (at : ℕ) (state : Option SessionState)
    → OnFloor duty at state
    → resolve_checker_scan duty at state ≡ state_scan state
unfolding resolve_checker_scan
on_floor [] at state m = absurd m
on_floor (f ∷ fs) at state m = rw ((has_key_iff (f ∷ fs) at).1 m) refl

off_floor :
    (duty : List ℕ) (at : ℕ) (state : Option SessionState)
    → duty ≢ []
    → ¬ OnFloor duty at state
    → resolve_checker_scan duty at state ≡ checker_resolution wrong_floor none
unfolding resolve_checker_scan
off_floor [] at state h k = absurd (h refl)
off_floor (f ∷ fs) at state h k = elim (Bool-cases (has_key (f ∷ fs) at)) [
  | inl e ↦ absurd (k ((has_key_iff (f ∷ fs) at).0 e))
  | inr e ↦ rw e refl
]

scan_rule :
    (duty : List ℕ) (at : ℕ) (state : Option SessionState)
    → CheckerRule duty at state (resolve_checker_scan duty at state)
unfolding resolve_checker_scan
scan_rule [] at state = nobody refl refl
scan_rule (f ∷ fs) at state = elim (Bool-cases (has_key (f ∷ fs) at)) [
  | inl e ↦ rw e (state_rule (f ∷ fs) at state ((has_key_iff (f ∷ fs) at).0 e))
  | inr e ↦
      rw e (elsewhere (λ q. ground arith) (λ m. differ ((has_key_iff (f ∷ fs) at).1 m) e) refl)
]
  where
    differ : {b : Bool} → b ≡ true → b ≡ false → ⊥
    differ p q = cc

rule_scan :
    (duty : List ℕ) (at : ℕ) (state : Option SessionState) (r : CheckerResolution)
    → CheckerRule duty at state r
    → r ≡ resolve_checker_scan duty at state
unfolding resolve_checker_scan state_scan
rule_scan duty at state r (nobody h e) = e ∙ rw h refl
rule_scan duty at state r (elsewhere h k e) = e ∙ sym (off_floor duty at state h k)
rule_scan duty at none r (vacant m h e) = e ∙ sym (on_floor duty at none m)
rule_scan duty at (some s) r (vacant m h e) =
    e ∙ sym (on_floor duty at (some s) m ∙ rw (h s refl) refl)
rule_scan duty at state r (missed s m h k e) = e ∙ sym (on_floor duty at state m ∙ rw (h, k) refl)
rule_scan duty at state r (seen s m h k l v e) =
    let p : is_scheduled s.status ≡ false = ground arith in
    let q : is_absent s.status ≡ false = ground arith in
    e ∙ sym (on_floor duty at state m ∙ rw (h, p, q, v) refl)
rule_scan duty at state r (unseen s m h k l v e) =
    let p : is_scheduled s.status ≡ false = ground arith in
    let q : is_absent s.status ≡ false = ground arith in
    e ∙ sym (on_floor duty at state m ∙ rw (h, p, q, v) refl)

-- A checker's scan is answered with `r` exactly when one of the six rules gives `r`. So for every list
-- of floors, scanned floor and state of the room some rule applies, and the rules that apply agree.
pub resolve_checker_scan-CheckerRule :
    (duty : List ℕ) (at : ℕ) (state : Option SessionState) (r : CheckerResolution)
    → CheckerRule duty at state r ↔ (r ≡ resolve_checker_scan duty at state)
resolve_checker_scan-CheckerRule duty at state r =
    (rule_scan duty at state r, λ e. rw e (scan_rule duty at state))
