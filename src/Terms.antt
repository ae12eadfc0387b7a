-- ===== src/Terms.antt =====
-- scheduling/term_lifecycle.py: the states of an academic term. A warning is its key, as in the code.
pub mod Casefold
pub mod Names
pub mod Creation
pub mod Moves
pub mod Activate
pub mod Table
pub mod Single
use text.Mathlib.Text.{◌==◌ as str_eq}
use fluxtrack_main.Calendar.{Date, Instant}
use fluxtrack_main.Effects.{
  Action, Blocker, active_sessions, another_active, atomic, before_end_date, confirmation_mismatch,
  date_order, dates_required, duplicate_name, err, get_or_raise, gets, name_required, not_active,
  not_archived, not_draft, ok, overlapping_term, pure, reason_required, term_error, throw,
  unauthorized, unknown_action, warnings_unacknowledged, ◌>>=◌, ◌>>◌,
}
use fluxtrack_main.Materialize.{materialize_term}
use fluxtrack_main.Model.{
  AcademicTerm, AuditEvent, Database, SessionStatus, TermStatus, User, is_active, is_active_term,
  is_archived_term, is_draft_term, is_ifo_admin, is_scheduled, materialization_horizon_days,
  term_activated, term_archived, term_created, term_reopened,
}
use fluxtrack_main.Ops.{get_policy, in_term, log, term_by_id}
use fluxtrack_main.Prelude.{
  Bool, List, Option, String, [], all, any, false, if◌then◌else◌, leb, ltb, map, max, none, not,
  some, true, ℕ, ◌&&◌, ◌++◌, ◌==◌, ◌∷◌,
}
use fluxtrack_main.Prelude.Update.{update}
use fluxtrack_main.Suspensions.{fresh_key}
use fluxtrack_main.Terms.Names.{is_empty, normalize_name, same_folded, strip}

-- `confirmation_name or ""`, `reason or ""`
abbrev text_or_blank : Option String → String
text_or_blank none = ""
text_or_blank (some s) = s

-- `blockers.append(b)` under a test.
abbrev pub when {ℓ} : {A : Type ℓ} → Bool → A → List A
when true a = a ∷ []
when false a = []

-- `set(xs) == set(ys)`
has_text : List String → String → Bool
has_text xs x = any (λ y. str_eq y x) xs

unfoldable pub same_texts : List String → List String → Bool
unfolding has_text
same_texts xs ys = all (has_text ys) xs && all (has_text xs) ys

-- `_authorize`
pub authorize : Option User → Action Unit
authorize none = throw (term_error (unauthorized ∷ []))
authorize (some u) =
    if u.is_superuser
    then pure tt
    else if is_ifo_admin u.role
    then pure tt
    else throw (term_error (unauthorized ∷ []))

-- `if test: raise TermLifecycleError(blockers=...)`
abbrev unless_blocked : List Blocker → Action Unit
unless_blocked [] = pure tt
unless_blocked (b ∷ bs) = throw (term_error (b ∷ bs))

-- Creation -----------------------------------------------------------------------------------------

abbrev dates_blockers : Option Date → Option Date → List Blocker
dates_blockers none e = dates_required ∷ []
dates_blockers (some s) none = dates_required ∷ []
dates_blockers (some s) (some e) = when (ltb e s) date_order

abbrev pub overlaps_term : Option Date → Option Date → AcademicTerm → Bool
overlaps_term none e t = false
overlaps_term (some s) none t = false
overlaps_term (some s) (some e) t = leb t.start_date e && leb s t.end_date

-- `_creation_preflight_from_rows`: its blockers, in their order. None of them is added twice.
pub creation_blockers : String → Option Date → Option Date → List AcademicTerm → List Blocker
creation_blockers name start_date end_date rows =
    let normalized = normalize_name name in
    when (is_empty normalized) name_required
    ++ (dates_blockers start_date end_date
        ++ (when
              (not (is_empty normalized)
                && any (λ t. same_folded (normalize_name t.name) normalized) rows)
              duplicate_name
            ++ when (any (overlaps_term start_date end_date) rows) overlapping_term))

abbrev pub date_or_zero : Option Date → Date
date_or_zero none = 0
date_or_zero (some d) = d

abbrev pub draft_term : ℕ → String → Option Date → Option Date → AcademicTerm
draft_term k name start_date end_date = record {
  id = k;
  name = name;
  start_date = date_or_zero start_date;
  end_date = date_or_zero end_date;
  status = TermStatus.draft;
}

abbrev user_key : Option User → Option ℕ
user_key none = none
user_key (some u) = some u.id

-- `AcademicTerm.objects.create`, in DRAFT, with its audit row.
insert_term : Option User → String → Option Date → Option Date → Action AcademicTerm
unfolding log fresh_key
insert_term actor name start_date end_date db =
    let t = draft_term (fresh_key (map (λ r. r.id) db.terms)) name start_date end_date in
    (
      ok t,
      log (user_key actor) (term_created name) (some t.id)
          (record db { terms = db.terms ++ t ∷ [] }),
    )

unfoldable pub create_term :
    Option User → String → Option Date → Option Date → Option String → Action AcademicTerm
unfolding authorize creation_blockers insert_term normalize_name
create_term actor name start_date end_date confirmation = atomic (do
  authorize actor
  blockers ← gets (λ db. creation_blockers name start_date end_date db.terms)
  let confirmed = str_eq (normalize_name (text_or_blank confirmation)) (normalize_name name)
  unless_blocked (if confirmed then blockers else blockers ++ confirmation_mismatch ∷ [])
  insert_term actor (normalize_name name) start_date end_date)

-- Closing, reopening, activating -------------------------------------------------------------------

pub data TermAction : Type 0 where
  close reopen activate unknown : TermAction

-- Some session of the term passes the test; the number of its schedules.
abbrev pub has_session : (SessionStatus → Bool) → AcademicTerm → Database → Bool
has_session test t db = any (λ s. in_term t s && test s.status) db.sessions

abbrev pub has_schedule : AcademicTerm → Database → Bool
has_schedule t db = any (λ s. s.term_id == t.id) db.schedules

abbrev pub another_term_active : AcademicTerm → Database → Bool
another_term_active t db = any (λ r. is_active_term r.status && not (r.id == t.id)) db.terms

-- `_action_preflight`: the blockers and the warnings of an action.
pub action_blockers : AcademicTerm → TermAction → Date → Database → List Blocker
action_blockers t TermAction.close today db =
    when (not (is_active_term t.status)) not_active
    ++ (when (ltb today t.end_date) before_end_date
        ++ when (has_session is_active t db) active_sessions)
action_blockers t TermAction.reopen today db = when (not (is_archived_term t.status)) not_archived
action_blockers t TermAction.activate today db =
    when (not (is_draft_term t.status)) not_draft
    ++ (when (ltb t.end_date t.start_date) date_order
        ++ when (another_term_active t db) another_active)
action_blockers t TermAction.unknown today db = unknown_action ∷ []

unfoldable pub action_warnings : AcademicTerm → TermAction → Database → List String
action_warnings t TermAction.close db =
    when (has_session is_scheduled t db) "scheduled_sessions_present"
action_warnings t TermAction.reopen db = when (another_term_active t db) "active_successor_exists"
action_warnings t TermAction.activate db = when (not (has_schedule t db)) "empty_schedule_set"
action_warnings t TermAction.unknown db = []

-- The blockers that `_validate_common_action_inputs` raises with.
pub common_blockers :
    AcademicTerm
    → TermAction
    → Date
    → Option String
    → Option String
    → List String
    → Database
    → List Blocker
unfolding action_blockers action_warnings same_texts strip is_empty
common_blockers t action today confirmation reason acknowledged db =
    action_blockers t action today db
    ++ (when (not (str_eq (text_or_blank confirmation) t.name)) confirmation_mismatch
        ++ (when (is_empty (strip (text_or_blank reason))) reason_required
            ++ when (not (same_texts acknowledged (action_warnings t action db)))
                warnings_unacknowledged))

-- The blockers that `_validate_activation_inputs` raises with.
pub activation_blockers :
    AcademicTerm → Date → Option String → List String → Database → List Blocker
unfolding action_blockers action_warnings same_texts
activation_blockers t today confirmation acknowledged db =
    action_blockers t TermAction.activate today db
    ++ (when (not (str_eq (text_or_blank confirmation) t.name)) confirmation_mismatch
        ++ when (not (same_texts acknowledged (action_warnings t TermAction.activate db)))
            warnings_unacknowledged)

-- `term.status = ...; term.save(update_fields=["status"])`
abbrev pub set_status : TermStatus → AcademicTerm → AcademicTerm
set_status status t = record t { status = status }

pub save_status : ℕ → TermStatus → Database → Database
save_status k status db = record db { terms = update (λ t. t.id == k) (set_status status) db.terms }

-- The last steps of `close_term` and of `reopen_term`.
abbrev finish : AcademicTerm → TermStatus → AuditEvent → Option User → Action AcademicTerm
finish t status event actor db =
    (ok (set_status status t), log (user_key actor) event (some t.id) (save_status t.id status db))

unfoldable pub close_term :
    ℕ → Option User → Option String → Option String → List String → Date → Action AcademicTerm
unfolding authorize common_blockers save_status log
close_term k actor confirmation reason acknowledged today = atomic (do
  authorize actor
  found ← gets (term_by_id k)
  t ← get_or_raise found
  blockers ← gets (common_blockers t TermAction.close today confirmation reason acknowledged)
  unless_blocked blockers
  finish t TermStatus.archived (term_archived (strip (text_or_blank reason))) actor)

unfoldable pub reopen_term :
    ℕ → Option User → Option String → Option String → List String → Date → Action AcademicTerm
unfolding authorize common_blockers save_status log
reopen_term k actor confirmation reason acknowledged today = atomic (do
  authorize actor
  found ← gets (term_by_id k)
  t ← get_or_raise found
  blockers ← gets (common_blockers t TermAction.reopen today confirmation reason acknowledged)
  unless_blocked blockers
  finish t TermStatus.draft (term_reopened (strip (text_or_blank reason))) actor)

-- `uniq_active_academic_term`: the save raises IntegrityError where another term is ACTIVE, and the
-- handler turns that into the blocker.
abbrev activate_row : AcademicTerm → Option User → Action AcademicTerm
activate_row t actor db =
    if another_term_active t db
    then (err (term_error (another_active ∷ [])), db)
    else finish t TermStatus.active term_activated actor db

unfoldable pub activate_term :
    ℕ → Option User → Option String → List String → Date → Instant → Action AcademicTerm
unfolding authorize activation_blockers save_status log materialize_term get_policy
activate_term k actor confirmation acknowledged today now = atomic (do
  authorize actor
  found ← gets (term_by_id k)
  t ← get_or_raise found
  blockers ← gets (activation_blockers t today confirmation acknowledged)
  unless_blocked blockers
  horizon ← gets (get_policy materialization_horizon_days)
  materialize_term t (max today t.start_date) horizon true now
  activate_row t actor)
