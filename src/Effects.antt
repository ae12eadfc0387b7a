-- ===== src/Effects.antt =====
-- Code that reads and writes the database and may raise. What was written before a raise stays
-- written, unless a `transaction.atomic()` block around it rolls the tables back.
pub mod Keeps
use fluxtrack_main.Model.{Database}
use fluxtrack_main.Prelude.{Bool, List, Option, String, false, none, some, true, ℕ}

pub data Blocker : Type 0 where
  unauthorized name_required dates_required date_order duplicate_name overlapping_term : Blocker
  not_active before_end_date active_sessions not_archived not_draft another_active : Blocker
  unknown_action confirmation_mismatch reason_required warnings_unacknowledged : Blocker

-- The reasons of `ModalityShiftError`.
pub data Refusal : Type 0 where
  no_schedules many_terms inverted_window recent_request move_needs_room no_sessions : Refusal
  past_cutoff no_dean double_books archived not_requester not_routed_dean not_pending : Refusal

pub data Error : Type 0 where
  does_not_exist multiple_objects archived_term no_active_term integrity_error : Error
  shift_error : Refusal → Error
  term_error : List Blocker → Error
  materialization_error no_room code_exhausted attribute_error value_error : Error
  deny : String → Error
  schedule_conflict : ℕ → Error

pub data Result (A : Type 0) : Type 0 where
  ok : A → Result A
  err : Error → Result A

abbrev pub Action : Type 0 → Type 0
Action A = Database → Result A × Database

module _ {A : Type 0} where
  abbrev pub pure : A → Action A
  pure a db = (ok a, db)

  abbrev pub throw : Error → Action A
  throw e db = (err e, db)

  -- A read of the database.
  abbrev pub gets : (Database → A) → Action A
  gets f db = (ok (f db), db)

  abbrev pub roll_back : Result A → Database → Database → Result A × Database
  roll_back (ok a) before after = (ok a, after)
  roll_back (err e) before after = (err e, before)

  -- `with transaction.atomic(): m`
  abbrev pub atomic : Action A → Action A
  atomic m db = let (r, after) = m db in roll_back r db after

  -- `objects.get(...)`: a row, or DoesNotExist.
  abbrev pub get_or_raise : Option A → Action A
  get_or_raise none = throw does_not_exist
  get_or_raise (some a) = pure a

abbrev pub modify : (Database → Database) → Action Unit
modify f db = (ok tt, f db)

-- A guard: `if not test: raise e`
abbrev pub require : Bool → Error → Action Unit
require true e = pure tt
require false e = throw e

module _ {A B : Type 0} where
  abbrev pub and_then : Result A → (A → Action B) → Action B
  and_then (ok a) f = f a
  and_then (err e) f = throw e

  infixl 5 ◌>>=◌ ◌>>◌
  abbrev pub ◌>>=◌ : Action A → (A → Action B) → Action B
  ◌>>=◌ m f db = let (r, after) = m db in and_then r f after

  abbrev pub ◌>>◌ : Action A → Action B → Action B
  m >> n = m >>= λ _. n
