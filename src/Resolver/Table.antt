-- ===== src/Resolver/Table.antt =====
-- The resolver follows the table of rules, and nothing else does.
use fluxtrack_main.Calendar.{minutes}
use fluxtrack_main.Model.{Session, effective_modality, is_active, is_online}
use fluxtrack_main.Prelude.{
  All, Bool-cases, List, Option-cases, [], arith, find, inl, inr, ltb, none, some, sym, ◌&&◌, ◌+◌,
  ◌-◌, ◌↔◌, ◌∙◌, ◌∷◌, ◌≡◌,
}
use fluxtrack_main.Prelude.First.{
  IsFirst, IsFirst-find, absent-find, find-IsFirst, find-absent, find-filter, find-true-filter,
}
use fluxtrack_main.Resolver.{
  Resolution, ScanQuery, active_scan, candidate, candidate_scan, in_scanned_room, in_window,
  is_no_show_past_grace, no_candidate, opens_later, resolve_faculty_scan, scheduled_scan,
}
use fluxtrack_main.Resolver.Rules.{
  InRoom, InWindow, IsActive, IsCandidate, IsIdle, ScanRule, IsActive-decides,
  InWindow-InRoom-decides, check_in, check_out, end_early, hand_over, OpensLater-decides,
  leave_room, miss, nothing, other_room, reject_online, InRoom-decides, wait, InWindow-decides,
}

module _ (q : ScanQuery) where
  idle-find : IsIdle q → find (λ s. is_active s.status) q.sessions_today ≡ none
  idle-find h = absent-find (IsActive-decides q) q.sessions_today h

  candidate_lem : (s : Session) → IsCandidate q s → candidate q ≡ some s
  unfolding candidate
  candidate_lem s (inl h) =
      rw (candidate, find-filter, IsFirst-find (InWindow-InRoom-decides q) q.sessions_today s h)
  candidate_lem s (inr (away, h)) = rw (
    candidate,
    find-filter,
    absent-find (InWindow-InRoom-decides q) q.sessions_today away,
    find-true-filter,
    IsFirst-find (InWindow-decides q) q.sessions_today s h,
  )

  All-not-both :
      (xs : List Session)
      → All (λ t. ¬ InWindow q t) xs
      → All (λ t. ¬ (InWindow q t × InRoom q t)) xs
  All-not-both [] h = tt
  All-not-both (x ∷ xs) h = (λ b. h.0 b.0, All-not-both xs h.1)

  candidate-none : All (λ t. ¬ InWindow q t) q.sessions_today → candidate q ≡ none
  unfolding candidate
  candidate-none h = rw (
    candidate,
    find-filter,
    absent-find (InWindow-InRoom-decides q) q.sessions_today (All-not-both q.sessions_today h),
    find-true-filter,
    absent-find (InWindow-decides q) q.sessions_today h,
  )

  active_lem :
      (s : Session)
      → IsFirst (IsActive q) q.sessions_today s
      → resolve_faculty_scan q ≡ active_scan q s
  unfolding resolve_faculty_scan
  active_lem s f = rw (resolve_faculty_scan, IsFirst-find (IsActive-decides q) q.sessions_today s f)

  scheduled_lem :
      (s : Session) → IsIdle q → IsCandidate q s → resolve_faculty_scan q ≡ candidate_scan q s
  unfolding resolve_faculty_scan scheduled_scan
  scheduled_lem s idle c = rw (resolve_faculty_scan, idle-find idle, candidate_lem s c)

  idle_lem :
      IsIdle q
      → All (λ t. ¬ InWindow q t) q.sessions_today
      → resolve_faculty_scan q ≡ no_candidate q
  unfolding resolve_faculty_scan scheduled_scan
  idle_lem idle h = rw (resolve_faculty_scan, idle-find idle, candidate-none h)

  -- Every rule that applies gives what the resolver returns.
  pub ScanRule-resolve : (r : Resolution) → ScanRule q r → r ≡ resolve_faculty_scan q
  unfolding active_scan candidate_scan no_candidate is_no_show_past_grace
  ScanRule-resolve r (check_out s f room late e) = ground (arith, active_lem s f)
  ScanRule-resolve r (end_early s f room early e) = ground (arith, active_lem s f)
  ScanRule-resolve r (leave_room s f away e) = ground (arith, active_lem s f)
  ScanRule-resolve r (reject_online s idle c m e) = ground (arith, scheduled_lem s idle c)
  ScanRule-resolve r (other_room s idle c m away e) = ground (arith, scheduled_lem s idle c)
  ScanRule-resolve r (miss s idle c m room late e) = ground (arith, scheduled_lem s idle c)
  ScanRule-resolve r (hand_over s k idle c m room t o e) = ground (arith, scheduled_lem s idle c)
  ScanRule-resolve r (check_in s idle c m room t o e) = ground (arith, scheduled_lem s idle c)
  ScanRule-resolve r (wait s idle shut f e) =
      e
      ∙ sym (
          idle_lem idle shut
          ∙ rw (no_candidate, IsFirst-find (OpensLater-decides q) q.sessions_today s f))
  ScanRule-resolve r (nothing idle shut never e) =
      e
      ∙ sym (
          idle_lem idle shut
          ∙ rw (no_candidate, absent-find (OpensLater-decides q) q.sessions_today never))

  active_rule :
      (s : Session) → IsFirst (IsActive q) q.sessions_today s → ScanRule q (active_scan q s)
  unfolding active_scan
  active_rule s f = elim (Bool-cases (in_scanned_room q s)) [
    | inr away ↦ leave_room s f ((InRoom-decides q).fails s away) (rw away)
    | inl here ↦ elim (Bool-cases (ltb q.now (s.scheduled_end - minutes q.early_end_min))) [
      | inl early ↦
          end_early s f ((InRoom-decides q).holds s here) (ground arith) (rw (here, early))
      | inr late ↦ check_out s f ((InRoom-decides q).holds s here) (ground arith) (rw (here, late))
    ]
  ]

  candidate_rule : (s : Session) → IsIdle q → IsCandidate q s → ScanRule q (candidate_scan q s)
  unfolding candidate_scan is_no_show_past_grace
  candidate_rule s idle c = elim (Bool-cases (is_online (effective_modality s))) [
    | inl net ↦ reject_online s idle c (ground arith) (rw net)
    | inr face ↦ elim (Bool-cases (in_scanned_room q s)) [
      | inr away ↦
          other_room s idle c (ground arith) ((InRoom-decides q).fails s away) (rw (face, away))
      | inl here ↦ elim (Bool-cases (ltb (s.scheduled_start + minutes q.grace_min) q.now)) [
        | inl late ↦
            miss s idle c (ground arith) ((InRoom-decides q).holds s here) (ground arith)
              (rw (face, here, late))
        | inr fine ↦ elim (Option-cases q.occupying_session_id) [
          | inl free ↦
              check_in s idle c (ground arith) ((InRoom-decides q).holds s here) (ground arith) free
                (rw (face, here, fine, free))
          | inr (k, taken) ↦
              hand_over s k idle c (ground arith) ((InRoom-decides q).holds s here) (ground arith)
                taken (rw (face, here, fine, taken))
        ]
      ]
    ]
  ]

  idle_rule : IsIdle q → All (λ t. ¬ InWindow q t) q.sessions_today → ScanRule q (no_candidate q)
  unfolding no_candidate
  idle_rule idle shut = elim (Option-cases (find (opens_later q) q.sessions_today)) [
    | inl never ↦
        nothing idle shut (find-absent (OpensLater-decides q) q.sessions_today never) (rw never)
    | inr (s, soon) ↦
        wait s idle shut (find-IsFirst (OpensLater-decides q) q.sessions_today s soon) (rw soon)
  ]

  scheduled_rule : IsIdle q → ScanRule q (resolve_faculty_scan q)
  scheduled_rule idle =
      elim (Option-cases (find (λ s. in_window q s && in_scanned_room q s) q.sessions_today)) [
        | inr (s, here) ↦
            from_candidate s
              (inl (find-IsFirst (InWindow-InRoom-decides q) q.sessions_today s here))
        | inl away ↦ elim (Option-cases (find (in_window q) q.sessions_today)) [
          | inr (s, open_now) ↦ from_candidate s (
              inr (
                find-absent (InWindow-InRoom-decides q) q.sessions_today away,
                find-IsFirst (InWindow-decides q) q.sessions_today s open_now,
              ))
          | inl none_open ↦
              let shut = find-absent (InWindow-decides q) q.sessions_today none_open in
              rw (idle_lem idle shut) (idle_rule idle shut)
        ]
      ]
    where
      from_candidate : (s : Session) → IsCandidate q s → ScanRule q (resolve_faculty_scan q)
      from_candidate s c = rw (scheduled_lem s idle c) (candidate_rule s idle c)

  resolve_rule : ScanRule q (resolve_faculty_scan q)
  resolve_rule = elim (Option-cases (find (λ s. is_active s.status) q.sessions_today)) [
    | inr (s, busy) ↦
        let f = find-IsFirst (IsActive-decides q) q.sessions_today s busy in
        rw (active_lem s f) (active_rule s f)
    | inl idle ↦ scheduled_rule (find-absent (IsActive-decides q) q.sessions_today idle)
  ]

  -- The resolver answers `r` exactly when one of the ten rules of the table gives `r`. So for every
  -- list of sessions, room, occupant and time some rule applies, and the rules that apply agree.
  pub resolve-ScanRule : (r : Resolution) → ScanRule q r ↔ (r ≡ resolve_faculty_scan q)
  resolve-ScanRule r = (ScanRule-resolve r, λ e. rw e resolve_rule)
