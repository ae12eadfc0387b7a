-- ===== src/Web/Limits.antt =====
-- The limits on manual codes of web/scan.py and web/checker.py. Each of the scan page, the checker page and
-- the replay has a count of its own.
use mathlib.Core.Path.{subst}
use fluxtrack_main.Calendar.{Instant}
use fluxtrack_main.Model.{manual_code_rate_limit_per_min}
use fluxtrack_main.Ops.{get_policy}
use fluxtrack_main.Prelude.{
  &&-parts, ==_iff, Bool, Bool-cases, List, [], arith, false, if◌then◌else◌, inl, inr, leb, refl,
  suc, sym, true, ℕ, ◌&&◌, ◌+◌, ◌-◌, ◌==◌, ◌∷◌, ◌≡◌, ◌≤◌,
}
use fluxtrack_main.Web.{
  Limiter, Site, checker_replay_rl, checker_rl, incr, is_attempt, is_over_limit, limiter_number,
  minute_of, scan_rl, take_attempt,
}

-- A six-digit code that is tried.
pub record Attempt : Type 0 where
  pub limiter : Limiter
  pub user : ℕ
  pub now : Instant

same_limiter : (l l' : Limiter) → (limiter_number l == limiter_number l') ≡ true → l ≡ l'
same_limiter scan_rl scan_rl h = refl
same_limiter scan_rl checker_rl h = ground arith
same_limiter scan_rl checker_replay_rl h = ground arith
same_limiter checker_rl scan_rl h = ground arith
same_limiter checker_rl checker_rl h = refl
same_limiter checker_rl checker_replay_rl h = ground arith
same_limiter checker_replay_rl scan_rl h = ground arith
same_limiter checker_replay_rl checker_rl h = ground arith
same_limiter checker_replay_rl checker_replay_rl h = refl

one_more :
    (n limit x : ℕ) (b : Bool)
    → b ≡ true
    → n ≤ limit - (if b then x + 1 else x)
    → leb limit x ≡ false
    → suc n ≤ limit - x
one_more n limit x b e h k =
    let h' : n ≤ limit - (x + 1) = subst (λ c. n ≤ limit - (if c then x + 1 else x)) e h in
    ground arith

no_more :
    (n limit x : ℕ) (b : Bool) → b ≡ false → n ≤ limit - (if b then x + 1 else x) → n ≤ limit - x
no_more n limit x b e h = subst (λ c. n ≤ limit - (if c then x + 1 else x)) e h

-- How many of the attempts with this key are granted.
module _ (l : Limiter) (user minute : ℕ) where
  abbrev pub has_this_key : Attempt → Bool
  has_this_key a = is_attempt a.limiter a.user (minute_of a.now) l user minute

  abbrev pub granted_by : Bool → Bool → ℕ → ℕ
  granted_by true true n = suc n
  granted_by true false n = n
  granted_by false b n = n

  unfoldable pub granted : List Attempt → Site → ℕ
  unfolding take_attempt
  granted [] site = 0
  granted (a ∷ attempts) site =
      let (grant, after) = take_attempt a.limiter a.user a.now site in
      granted_by grant (has_this_key a) (granted attempts after)

  abbrev limit_of : Site → ℕ
  limit_of site = get_policy manual_code_rate_limit_per_min site.db

  same_attempts :
      (a : Attempt) (site : Site)
      → has_this_key a ≡ true
      → site.cache.attempts a.limiter a.user (minute_of a.now) ≡ site.cache.attempts l user minute
  same_attempts a site h =
      let (same_l, h') =
        &&-parts (limiter_number a.limiter == limiter_number l)
          (a.user == user && minute_of a.now == minute) h in
      let (same_user, same_minute) = &&-parts (a.user == user) (minute_of a.now == minute) h' in
      rw
        (
          same_limiter a.limiter l same_l,
          (==_iff a.user user).0 same_user,
          (==_iff (minute_of a.now) minute).0 same_minute,
        )
        refl

  -- For one of the three counts (scan page, checker page, replay), one user and one minute: manual codes
  -- are looked up at most as often as the policy's limit leaves over what the cache has counted under
  -- that key, whatever other attempts, of the user under another count or of others, come between.
  pub granted_bound :
      (attempts : List Attempt) (site : Site)
      → granted attempts site
        ≤ get_policy manual_code_rate_limit_per_min site.db - site.cache.attempts l user minute
  unfolding granted take_attempt is_over_limit
  granted_bound [] site = omega arith
  granted_bound (a ∷ attempts) site =
      elim (Bool-cases (is_over_limit a.limiter a.user a.now site)) [
        | inl e ↦ rw e (granted_bound attempts site)
        | inr e ↦
            let after = record site {
              cache = incr a.limiter a.user (minute_of a.now) site.cache;
            } in
            elim (Bool-cases (has_this_key a)) [
              | inl f ↦
                  let rest = granted_bound attempts after in
                  let count = same_attempts a site f in
                  rw (e, f)
                    (one_more (granted attempts after) (limit_of site)
                      (site.cache.attempts l user minute) (has_this_key a) f rest
                      (rw (sym count) e))
              | inr f ↦
                  let rest = granted_bound attempts after in
                  rw (e, f)
                    (no_more (granted attempts after) (limit_of site)
                      (site.cache.attempts l user minute) (has_this_key a) f rest)
            ]
      ]
