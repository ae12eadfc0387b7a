-- ===== src/Checker/Authority.antt =====
-- Who may write what: web/checker.py, `action` and `_online_action`.
use fluxtrack_main.Calendar.{Instant}
use fluxtrack_main.Checker.{
  active_floor_ids, apply_action, gate, is_flag, is_not_present, is_online_on_duty, online_session,
  permits, refused, room_session, validation_of,
}
use fluxtrack_main.Checker.Actions.{
  ActionForm, act, action, is_blank, is_online_action, is_same_check, is_settled, mark_of,
  names_session_only, number_of, once, online_action, owned_action, refuse, room_action, room_by_id,
  room_check, scope_of,
}
use fluxtrack_main.Checker.Records.{OnlyRecords, apply_action-IsRecord, apply_action-validations}
use fluxtrack_main.Duty.{SessionState, resolve_checker_scan}
use fluxtrack_main.Duty.Assign.{own}
use fluxtrack_main.Effects.{Action, ok}
use fluxtrack_main.Model.{
  AuditEvent, CheckerOutcome, Database, Room, Session, ValidationAction, off_duty,
}
use fluxtrack_main.Ops.{log}
use fluxtrack_main.Prelude.{
  Bool-cases, List, Option, Option-cases, String, [], any, arith, false, if_some, inl, inr, none,
  refl, some, true, ℕ, ◌&&◌, ◌++◌, ◌∷◌, ◌≡◌, ◌⊎◌,
}
use fluxtrack_main.Prelude.Unique.{has_key}
use fluxtrack_main.Scanning.Silent.{IsQuiet}
use fluxtrack_main.Web.{CheckMark, Site}

-- An outcome that permits an action is one of a floor that the checker is on.
permits-on_floor :
    (floors : List ℕ) (at : ℕ) (state : Option SessionState) (a : ValidationAction)
    → permits (resolve_checker_scan floors at state).outcome a ≡ true
    → has_key floors at ≡ true
unfolding resolve_checker_scan
permits-on_floor [] at state a h = let no : false ≡ true = h in absurd (ground arith)
permits-on_floor (f ∷ fs) at state a h = elim (Bool-cases (has_key (f ∷ fs) at)) [
  | inl e ↦ e
  | inr e ↦ let no : false ≡ true = rw e at h in absurd (ground arith)
]

refuse-IsQuiet :
    (user : ℕ) (event : AuditEvent) (target : ℕ) (o : CheckerOutcome) (site : Site)
    → IsQuiet site.db (refuse user event target o site).1.db
unfolding log
refuse-IsQuiet user event target o site = refl

quiet : {before after : Database} → after ≡ before → IsQuiet before after
quiet same = rw same refl

once-cases :
    (mark : CheckMark) (m : Action Unit) (site : Site)
    → ((once mark m site).1.db ≡ site.db) ⊎ ((once mark m site).1.db ≡ (m site.db).1)
once-cases mark m site = elim (Bool-cases (any (is_same_check mark) site.cache.checks)) [
  | inl e ↦ rw e (inl refl)
  | inr e ↦ rw e (inr refl)
]

module _ (user : ℕ) (now : Instant) where
  -- The checker is on duty on the room's floor, and the room's state calls for this action, with a note
  -- where it is a flag.
  abbrev pub MayCheck : Room → ValidationAction → String → Database → Type 0
  MayCheck room a note db =
      (has_key (active_floor_ids user now db) room.floor_id ≡ true)
      × (permits (gate user now room db).outcome a ≡ true)
      × ((is_flag a && is_blank note) ≡ false)

  -- The checker is on online duty and owns the session, which is neither absent nor completed, and the
  -- action is one of the two for an online session, with a note where it is a flag.
  abbrev pub MayCheckOnline : Option ℕ → Session → ValidationAction → String → Database → Type 0
  MayCheckOnline k s a note db =
      (is_online_on_duty user now db ≡ true)
      × (online_session k user db ≡ some s)
      × (is_settled user now s ≡ false)
      × (is_online_action user now a ≡ true)
      × ((is_not_present a && is_blank note) ≡ false)

  -- One record is written for the room, and no session.
  abbrev pub IsChecked : Room → ValidationAction → String → Database → Database → Type 0
  IsChecked room a note before after =
      OnlyRecords before after
      × (after.validations
          ≡ before.validations
            ++ validation_of (room_check user now room (room_session room now before) a note) ∷ [])

  checked :
      (room : Room) (a : ValidationAction) (note : String) (db : Database)
      → IsChecked room a note db
          (apply_action (room_check user now room (room_session room now db) a note) db).1
  checked room a note db =
      let c = room_check user now room (room_session room now db) a note in
      let (after, run, same, only) = apply_action-IsRecord c refl db in
      (rw run only, apply_action-validations c db refl)

  room_action-cases :
      (room : Room) (a : ValidationAction) (note : String) (site : Site)
      → IsQuiet site.db (room_action user now room a note site).1.db
        ⊎ (MayCheck room a note site.db
            × IsChecked room a note site.db (room_action user now room a note site).1.db)
  unfolding room_action gate
  room_action-cases room a note site = elim (Bool-cases (gate user now room site.db).actionable) [
    | inr e ↦ rw e (inl (refuse-IsQuiet user _ room.id _ site))
    | inl e ↦ elim (Bool-cases (permits (gate user now room site.db).outcome a)) [
      | inr f ↦ rw (e, f) (inl (refuse-IsQuiet user _ room.id _ site))
      | inl f ↦ elim (Bool-cases (is_flag a && is_blank note)) [
        | inl g ↦ rw (e, f, g) (inl refl)
        | inr g ↦
            let c = room_check user now room (room_session room now site.db) a note in
            let mark =
              mark_of user now (scope_of user now room (room_session room now site.db)) a in
            elim (once-cases mark (apply_action c) site) [
              | inl same ↦ rw (e, f, g) (inl (quiet same))
              | inr run ↦
                  rw (e, f, g)
                    (inr (
                      (
                        permits-on_floor (active_floor_ids user now site.db) room.floor_id _ a f,
                        refl,
                        refl,
                      ),
                      rw run (checked room a note site.db),
                    ))
            ]
      ]
    ]
  ]

  owned_action-cases :
      (k : Option ℕ) (s : Session) (a : ValidationAction) (note : String) (site : Site)
      → online_session k user site.db ≡ some s
      → IsQuiet site.db (owned_action user now s a note site).1.db
        ⊎ MayCheckOnline k s a note site.db
  unfolding owned_action
  owned_action-cases k s a note site own = elim (Bool-cases (is_online_on_duty user now site.db)) [
    | inr e ↦ rw e (inl (refuse-IsQuiet user _ s.id _ site))
    | inl e ↦ elim (Bool-cases (is_settled user now s)) [
      | inl f ↦ rw (e, f) (inl (refuse-IsQuiet user _ s.id _ site))
      | inr f ↦ elim (Bool-cases (is_online_action user now a)) [
        | inr g ↦ rw (e, f, g) (inl refl)
        | inl g ↦ elim (Bool-cases (is_not_present a && is_blank note)) [
          | inl h ↦ rw (e, f, g, h) (inl refl)
          | inr h ↦ inr (e, own, f, g, h)
        ]
      ]
    ]
  ]

  online_action-cases :
      (k : Option ℕ) (a : ValidationAction) (note : String) (site : Site)
      → IsQuiet site.db (online_action user now k a note site).1.db
        ⊎ ((s : Session) × MayCheckOnline k s a note site.db)
  unfolding online_action
  online_action-cases k a note site = by_session (online_session k user site.db) refl
    where
      by_session :
          (o : Option Session)
          → online_session k user site.db ≡ o
          → IsQuiet site.db
              (if_some o
                (λ s. owned_action user now s a note site)
                (ok (refused off_duty), site)).1.db
            ⊎ ((s : Session) × MayCheckOnline k s a note site.db)
      by_session none own = inl refl
      by_session (some s) own = elim (owned_action-cases k s a note site own) [
        | inl h ↦ inl h
        | inr h ↦ inr (s, h)
      ]

  -- The three ways in which an answered form leaves the database.
  abbrev pub IsAuthorized : ActionForm → Database → Database → Type 0
  IsAuthorized form before after =
      IsQuiet before after
      ⊎ ((a : ValidationAction) × (room : Room) × (form.action ≡ some a)
          × (room_by_id user now (number_of user now form.room_id) before ≡ some room)
          × MayCheck room a form.note before
          × IsChecked room a form.note before after)
      ⊎ ((a : ValidationAction) × (s : Session) × (form.action ≡ some a)
          × (names_session_only user now form.room_id form.session_id ≡ true)
          × MayCheckOnline (number_of user now form.session_id) s a form.note before)

  -- Whatever form a checker posts, one of three holds. Only the audit log is written. Or the form names a
  -- room and an action, the checker is on duty on the room's floor, the room's state at this moment
  -- permits the action, a flag has a note, and one record is written for the room and its session, with
  -- audit rows and notifications and no change of any session. Or the form names a session and no room,
  -- the checker is on online duty and is the session's online checker, the session is neither absent nor
  -- completed, the action is to verify or to flag as not present, and a flag has a note.
  pub action-IsAuthorized :
      (form : ActionForm) (site : Site) → IsAuthorized form site.db (action user now form site).1.db
  unfolding action act
  action-IsAuthorized form site = elim (Option-cases form.action) [
    | inl e ↦ rw e (inl refl)
    | inr (a, e) ↦ elim (Bool-cases (names_session_only user now form.room_id form.session_id)) [
      | inl f ↦ elim (online_action-cases (number_of user now form.session_id) a form.note site) [
        | inl same ↦ rw (e, f) (inl same)
        | inr (s, may) ↦ inr (inr (a, s, e, f, may))
      ]
      | inr f ↦
          elim (Option-cases (room_by_id user now (number_of user now form.room_id) site.db)) [
            | inl g ↦ rw (e, f, g) (inl refl)
            | inr (room, g) ↦ elim (room_action-cases room a form.note site) [
              | inl same ↦ rw (e, f, g) (inl same)
              | inr (may, written) ↦ inr (inl (a, room, e, g, may, rw (e, f, g) written))
            ]
          ]
    ]
  ]
