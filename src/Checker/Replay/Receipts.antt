-- ===== src/Checker/Replay/Receipts.antt =====
-- What one item of a queue writes: its receipt, and records beside it.
use fluxtrack_main.Calendar.{Instant}
use fluxtrack_main.Checker.{room_session}
use fluxtrack_main.Checker.Records.{IsRecord, OnlyRecords, OnlyRecords-trans, apply_action-IsRecord}
use fluxtrack_main.Checker.Replay.{
  Decision, ReplayItem, ReplayResult, ScannedAt, apply_it, at_time, decide, duplicate, flag_it,
  fresh_item, has_receipt, invalid_time, no_time, on_site, rate_limited_item, replay_check,
  replay_room, reported, settle, settle_item, settle_room, tell_conflict, timed_item, write_receipt,
}
use fluxtrack_main.Effects.{Action, Error, Result, err, modify, ok, value_error}
use fluxtrack_main.Model.{
  AuditEvent, Database, ReplayReason, ReplayStatus, Room, ValidationAction, checker_rate_limited,
}
use fluxtrack_main.Ops.{log, notify_ifo, notify_users}
use fluxtrack_main.Prelude.{
  ==-refl, Bool, Bool-cases, Option, [], any, any-append, ap, arith, false, inl, inr, none, refl,
  some, true, ℕ, ◌==◌, ◌||◌, ◌∙◌, ◌∷◌, ◌≡◌, ◌⊎◌,
}
use fluxtrack_main.Scanning.{key_of}
use fluxtrack_main.Sweep.NoShows.{kept}
use fluxtrack_main.Terms.Names.{strip}
use fluxtrack_main.Web.{
  Site, checker_replay_rl, incr, is_manual_code, is_over_limit, minute_of, take_attempt,
}

tell_conflict-IsRecord :
    (user : ℕ) (now : Instant) (u : ℕ) (reason : ReplayReason) (session : Option ℕ)
    (a : Option ValidationAction)
    → IsRecord (tell_conflict user now u reason session a)
unfolding tell_conflict log notify_ifo notify_users
tell_conflict-IsRecord user now u reason session a db = (_, refl, refl, refl)

rate_limited-IsRecord :
    (user : ℕ) (event : AuditEvent) → IsRecord (modify (log (some user) event none))
unfolding log
rate_limited-IsRecord user event db = (_, refl, refl, refl)

-- The state after an item that has been settled: it has a receipt, no receipt is lost, and only records
-- are written.
abbrev pub IsRecorded : ℕ → Database → Result ReplayResult × Database → Type 0
IsRecorded u db run =
    (r : ReplayResult) × (after : Database) × (run ≡ (ok r, after))
    × (has_receipt u after ≡ true)
    × ((v : ℕ) → has_receipt v db ≡ true → has_receipt v after ≡ true)
    × OnlyRecords db after

has_receipt-write :
    (user u : ℕ) (status : ReplayStatus) (db : Database) (v : ℕ)
    → has_receipt v (write_receipt user u status db) ≡ (has_receipt v db || (u == v))
has_receipt-write user u status db v =
    any-append (λ r. r.client_uuid == v) db.receipts
      (record { client_uuid = u; checker = user; status = status } ∷ [])
    ∙ no_more (has_receipt v db) (u == v)
  where
    no_more : (b c : Bool) → (b || (c || false)) ≡ (b || c)
    no_more b c = ground arith

settle-IsRecorded :
    (user u : ℕ) (status : ReplayStatus) (effect : Action Unit) (db : Database)
    → IsRecord effect
    → IsRecorded u db (settle user u status effect db)
unfolding settle
settle-IsRecorded user u status effect db recorded = elim (Bool-cases (has_receipt u db)) [
  | inl e ↦ rw e (duplicate u, db, refl, e, λ v h. h, refl)
  | inr e ↦
      let claimed = write_receipt user u status db in
      let (after, run, same, only) = recorded claimed in
      let kept : (v : ℕ) → has_receipt v after ≡ (has_receipt v db || (u == v)) =
        λ v. ap (any (λ r. r.client_uuid == v)) same ∙ has_receipt-write user u status db v in
      rw (e, run)
        (
          reported u status,
          after,
          refl,
          kept u ∙ rw (==-refl u) (or_true (has_receipt u db)),
          λ v h. kept v ∙ rw h refl,
          OnlyRecords-trans db claimed after refl only,
        )
]
  where
    or_true : (b : Bool) → (b || true) ≡ true
    or_true b = ground arith

module _ (user : ℕ) (now : Instant) where
  settle_item-IsRecorded :
      (u : ℕ) (item : ReplayItem) (t : Instant) (o : Option Room) (db : Database)
      → IsRecorded u db (settle_item user now u item t o db)
  unfolding settle_item
  settle_item-IsRecorded u item t none db =
      settle-IsRecorded user u _ _ db
        (tell_conflict-IsRecord user now u ReplayReason.bad_room none item.action)
  settle_item-IsRecorded u item t (some room) db = by_decision (decide user now item t room db)
    where
      by_decision : (d : Decision) → IsRecorded u db (settle_room user now u item t room d db)
      by_decision (apply_it a) =
          unfold settle_room in
          settle-IsRecorded user u ReplayStatus.applied _ db
            (apply_action-IsRecord (replay_check user now item t room a db) refl)
      by_decision (flag_it reason) =
          unfold settle_room in
          settle-IsRecorded user u (ReplayStatus.flagged reason) _ db (
            tell_conflict-IsRecord user now u reason (key_of (room_session room now db))
              item.action)

  -- The item has raised and written nothing, or it is settled.
  abbrev pub IsHandled : ℕ → Site → Result ReplayResult × Site → Type 0
  IsHandled u site run =
      ((e : Error) × (after : Site) × (run ≡ (err e, after)) × (after.db ≡ site.db))
      ⊎ ((r : ReplayResult) × (after : Site) × (run ≡ (ok r, after))
          × (has_receipt u after.db ≡ true)
          × ((v : ℕ) → has_receipt v site.db ≡ true → has_receipt v after.db ≡ true)
          × OnlyRecords site.db after.db)

  on_site-IsHandled :
      (u : ℕ) (m : Action ReplayResult) (site : Site)
      → IsRecorded u site.db (m site.db)
      → IsHandled u site (on_site user now m site)
  on_site-IsHandled u m site (r, after, run, has, kept, only) =
      inr (r, record site { db = after }, rw run refl, has, kept, only)

  timed_item-IsHandled :
      (u : ℕ) (item : ReplayItem) (t : ScannedAt) (site : Site)
      → IsHandled u site (timed_item user now u item t site)
  unfolding timed_item
  timed_item-IsHandled u item no_time site =
      let room = replay_room (strip item.token) site.db in
      on_site-IsHandled u (settle_item user now u item now room) site
        (settle_item-IsRecorded u item now room site.db)
  timed_item-IsHandled u item (at_time t) site =
      let room = replay_room (strip item.token) site.db in
      on_site-IsHandled u (settle_item user now u item t room) site
        (settle_item-IsRecorded u item t room site.db)
  timed_item-IsHandled u item invalid_time site = inl (value_error, site, refl, refl)

  limited_item-IsHandled :
      (u : ℕ) (site : Site)
      → IsHandled u site (on_site user now (rate_limited_item user now u) site)
  unfolding rate_limited_item
  limited_item-IsHandled u site = on_site-IsHandled u (rate_limited_item user now u) site (
      settle-IsRecorded user u _ _ site.db (rate_limited-IsRecord user (checker_rate_limited none)))

  pub fresh_item-IsHandled :
      (u : ℕ) (item : ReplayItem) (site : Site) → IsHandled u site (fresh_item user now u item site)
  unfolding fresh_item take_attempt
  fresh_item-IsHandled u item site = elim (Bool-cases (is_manual_code (strip item.token))) [
    | inr e ↦ rw e (timed_item-IsHandled u item item.scanned_at site)
    | inl e ↦ elim (Bool-cases (is_over_limit checker_replay_rl user now site)) [
      | inl f ↦ rw (e, f) (limited_item-IsHandled u site)
      | inr f ↦
          let after = record site {
            cache = incr checker_replay_rl user (minute_of now) site.cache;
          } in
          rw (e, f) (timed_item-IsHandled u item item.scanned_at after)
    ]
  ]
