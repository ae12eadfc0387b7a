-- ===== src/Checker/Records.antt =====
-- What an action on a room writes: a checker's record, an audit row and notifications.
use fluxtrack_main.Checker.{
  Check, apply_action, session_effect, tell_flag, validation_of, write_validation,
}
use fluxtrack_main.Effects.{Action, ok, pure}
use fluxtrack_main.Model.{Database, Session, ValidationAction}
use fluxtrack_main.Ops.{log, notify_ifo, notify_users}
use fluxtrack_main.Prelude.{
  Bool, Option, [], ap, false, none, refl, some, true, ◌++◌, ◌∙◌, ◌∷◌, ◌≡◌,
}

-- Only the checkers' records, their receipts, the audit log and the notifications differ.
abbrev pub OnlyRecords : Database → Database → Type 0
OnlyRecords before after = after ≡ record before {
  validations = after.validations;
  receipts = after.receipts;
  audit = after.audit;
  notifications = after.notifications;
}

-- An effect that cannot fail, and writes records but no receipt.
abbrev pub IsRecord : Action Unit → Type 0
IsRecord effect =
    (db : Database)
    → (after : Database) × (effect db ≡ (ok tt, after))
      × (after.receipts ≡ db.receipts)
      × OnlyRecords db after

pub tell_flag_lem :
    (a : ValidationAction) (db : Database)
    → ((tell_flag a db).receipts ≡ db.receipts) × OnlyRecords db (tell_flag a db)
unfolding tell_flag notify_ifo notify_users
tell_flag_lem ValidationAction.verified db = (refl, refl)
tell_flag_lem ValidationAction.flag_identity_mismatch db = (refl, refl)
tell_flag_lem ValidationAction.flag_not_present db = (refl, refl)
tell_flag_lem ValidationAction.verified_empty db = (refl, refl)

-- An action that is not one on an online session.
pub apply_action_run :
    (c : Check) (db : Database)
    → c.online ≡ false
    → apply_action c db ≡ (ok tt, tell_flag c.action (write_validation c db))
unfolding apply_action
apply_action_run c db h = rw (no_effect c.session c.online h) refl
  where
    no_effect : (o : Option Session) (b : Bool) → b ≡ false → session_effect c o b ≡ pure tt
    no_effect none b q = refl
    no_effect (some s) true q = cc
    no_effect (some s) false q = refl

pub write_validation_lem :
    (c : Check) (db : Database)
    → ((write_validation c db).receipts ≡ db.receipts) × OnlyRecords db (write_validation c db)
unfolding write_validation log
write_validation_lem c db = (refl, refl)

pub OnlyRecords-trans : (a b c : Database) → OnlyRecords a b → OnlyRecords b c → OnlyRecords a c
OnlyRecords-trans a b c h k =
    k
    ∙ ap {A = Database} {B = Database}
        (λ d. record d {
          validations = c.validations;
          receipts = c.receipts;
          audit = c.audit;
          notifications = c.notifications;
        })
        h

pub apply_action-IsRecord : (c : Check) → c.online ≡ false → IsRecord (apply_action c)
apply_action-IsRecord c h db =
    let (same, only) = write_validation_lem c db in
    let (same', only') = tell_flag_lem c.action (write_validation c db) in
    (
      tell_flag c.action (write_validation c db),
      apply_action_run c db h,
      same' ∙ same,
      OnlyRecords-trans db (write_validation c db) (tell_flag c.action (write_validation c db)) only
          only',
    )

tell_flag-validations :
    (a : ValidationAction) (db : Database) → (tell_flag a db).validations ≡ db.validations
unfolding tell_flag notify_ifo notify_users
tell_flag-validations ValidationAction.verified db = refl
tell_flag-validations ValidationAction.flag_identity_mismatch db = refl
tell_flag-validations ValidationAction.flag_not_present db = refl
tell_flag-validations ValidationAction.verified_empty db = refl

pub apply_action-validations :
    (c : Check) (db : Database)
    → c.online ≡ false
    → (apply_action c db).1.validations ≡ db.validations ++ validation_of c ∷ []
unfolding write_validation log
apply_action-validations c db h =
    ap (λ run. run.1.validations) (apply_action_run c db h)
    ∙ tell_flag-validations c.action (write_validation c db)
