-- ===== src/Terms/Single.antt =====
-- What the four services keep of the term table.
use mathlib.Core.Path.{subst}
use fluxtrack_main.Calendar.{Date, Instant}
use fluxtrack_main.Effects.{Action, Blocker, confirmation_mismatch, get_or_raise, gets, ◌>>=◌, ◌>>◌}
use fluxtrack_main.Effects.Keeps.{Keeps, atomic-Keeps, bind-Keeps, get_or_raise-Keeps, gets-Keeps}
use fluxtrack_main.Materialize.{materialize_term}
use fluxtrack_main.Materialize.Frame.{materialize_term-Keeps}
use fluxtrack_main.Model.{
  AcademicTerm, AuditEvent, Database, TermStatus, User, is_active_term, is_ifo_admin,
  materialization_horizon_days, term_archived, term_reopened,
}
use fluxtrack_main.Ops.{get_policy, log, term_by_id}
use fluxtrack_main.Prelude.{
  Bool, Bool-cases, List, Option, String, [], arith, false, if◌then◌else◌, inl, inr, max, none,
  refl, some, sym, true, ℕ, ◌++◌, ◌∷◌, ◌≡◌,
}
use fluxtrack_main.Suspensions.{fresh_key}
use fluxtrack_main.Terms.{
  activate_row, activate_term, another_term_active, authorize, close_term, create_term,
  creation_blockers, draft_term, finish, insert_term, reopen_term, save_status, text_or_blank,
  unless_blocked,
}
use fluxtrack_main.Terms.Creation.{MayCreate-nil, no_end, no_start, rows_apart}
use fluxtrack_main.Terms.Names.{normalize_name, strip}
use fluxtrack_main.Terms.Table.{
  IsTermTable, active-IsTermTable, new-IsTermTable, passive-IsTermTable, term_keys,
}

abbrev pub HasTermTable : Database → Type 0
HasTermTable db = IsTermTable db.terms

authorize-Keeps : (actor : Option User) → Keeps HasTermTable (authorize actor)
unfolding authorize
authorize-Keeps none db h = h
authorize-Keeps (some u) db h = elim (Bool-cases u.is_superuser) [
  | inl e ↦ rw e h
  | inr e ↦ rw e (elim (Bool-cases (is_ifo_admin u.role)) [ inl f ↦ rw f h | inr f ↦ rw f h ])
]

unless_blocked-Keeps : (bs : List Blocker) → Keeps HasTermTable (unless_blocked bs)
unless_blocked-Keeps [] db h = h
unless_blocked-Keeps (b ∷ bs) db h = h

finish-Keeps :
    (t : AcademicTerm) (status : TermStatus) (event : AuditEvent) (actor : Option User)
    → is_active_term status ≡ false
    → Keeps HasTermTable (finish t status event actor)
unfolding save_status log
finish-Keeps t status event actor e db h = passive-IsTermTable t.id status db.terms e h

activate_row-Keeps :
    (t : AcademicTerm) (actor : Option User) → Keeps HasTermTable (activate_row t actor)
unfolding save_status log
activate_row-Keeps t actor db h = elim (Bool-cases (another_term_active t db)) [
  | inl e ↦ rw e h
  | inr e ↦ rw e (active-IsTermTable t.id TermStatus.active db.terms e h)
]

-- The steps that close and reopen share, after `finish` is chosen.
found-Keeps :
    (k : ℕ) (f : AcademicTerm → Action AcademicTerm)
    → ((t : AcademicTerm) → Keeps HasTermTable (f t))
    → Keeps HasTermTable (gets (term_by_id k) >>= λ found. get_or_raise found >>= f)
found-Keeps k f h =
    gets-Keeps HasTermTable (term_by_id k) (λ found. get_or_raise found >>= f)
      λ found.
        bind-Keeps HasTermTable (get_or_raise found) f (get_or_raise-Keeps HasTermTable found) h

blocked-Keeps :
    (b : Database → List Blocker) (m : Action AcademicTerm)
    → Keeps HasTermTable m
    → Keeps HasTermTable (gets b >>= λ bs. unless_blocked bs >> m)
blocked-Keeps b m h =
    gets-Keeps HasTermTable b (λ bs. unless_blocked bs >> m)
      λ bs. bind-Keeps HasTermTable (unless_blocked bs) (λ _. m) (unless_blocked-Keeps bs) (λ _. h)

close_term-Keeps :
    (k : ℕ) (actor : Option User) (confirmation reason : Option String) (acknowledged : List String)
    (today : Date)
    → Keeps HasTermTable (close_term k actor confirmation reason acknowledged today)
unfolding close_term
close_term-Keeps k actor confirmation reason acknowledged today = atomic-Keeps HasTermTable _ (
    bind-Keeps HasTermTable (authorize actor) _ (authorize-Keeps actor) λ _. found-Keeps k _ λ t.
      blocked-Keeps _ _ (
        finish-Keeps t TermStatus.archived (term_archived (strip (text_or_blank reason))) actor
          refl))

reopen_term-Keeps :
    (k : ℕ) (actor : Option User) (confirmation reason : Option String) (acknowledged : List String)
    (today : Date)
    → Keeps HasTermTable (reopen_term k actor confirmation reason acknowledged today)
unfolding reopen_term
reopen_term-Keeps k actor confirmation reason acknowledged today = atomic-Keeps HasTermTable _ (
    bind-Keeps HasTermTable (authorize actor) _ (authorize-Keeps actor) λ _. found-Keeps k _ λ t.
      blocked-Keeps _ _
        (finish-Keeps t TermStatus.draft (term_reopened (strip (text_or_blank reason))) actor refl))

materialized-Keeps :
    (t : AcademicTerm) (start days : ℕ) (allow_draft : Bool) (now : Instant)
    → Keeps HasTermTable (materialize_term t start days allow_draft now)
materialized-Keeps t start days allow_draft now db h =
    subst IsTermTable (sym (materialize_term-Keeps db.terms t start days allow_draft now db refl)) h

launched-Keeps :
    (t : AcademicTerm) (actor : Option User) (start : Date) (now : Instant)
    → Keeps HasTermTable (do
      horizon ← gets (get_policy materialization_horizon_days)
      materialize_term t start horizon true now
      activate_row t actor)
launched-Keeps t actor start now db h =
    let horizon = get_policy materialization_horizon_days db in
    bind-Keeps HasTermTable (materialize_term t start horizon true now) (λ _. activate_row t actor)
      (materialized-Keeps t start horizon true now) (λ _. activate_row-Keeps t actor) db h

activate_term-Keeps :
    (k : ℕ) (actor : Option User) (confirmation : Option String) (acknowledged : List String)
    (today : Date) (now : Instant)
    → Keeps HasTermTable (activate_term k actor confirmation acknowledged today now)
unfolding activate_term
activate_term-Keeps k actor confirmation acknowledged today now = atomic-Keeps HasTermTable _ (
    bind-Keeps HasTermTable (authorize actor) _ (authorize-Keeps actor) λ _.
      found-Keeps k _ λ t. blocked-Keeps _ _ (launched-Keeps t actor (max today t.start_date) now))

-- A creation whose blockers are none.
inserted :
    (actor : Option User) (name : String) (start_date end_date : Option Date) (db : Database)
    → creation_blockers name start_date end_date db.terms ≡ []
    → HasTermTable db
    → HasTermTable (insert_term actor (normalize_name name) start_date end_date db).1
unfolding insert_term log
inserted actor name none end_date db e h = absurd (no_start name end_date db.terms e)
inserted actor name (some s) none db e h = absurd (no_end name s db.terms e)
inserted actor name (some s) (some l) db e h =
    new-IsTermTable
      (draft_term (fresh_key (term_keys db.terms)) (normalize_name name) (some s) (some l)) db.terms
      refl refl (rows_apart name s l db.terms (MayCreate-nil name s l db.terms e).free) h

checked :
    (bs : List Blocker) (m : Action AcademicTerm) (db : Database)
    → HasTermTable db
    → (bs ≡ [] → HasTermTable (m db).1)
    → HasTermTable ((unless_blocked bs >> m) db).1
checked [] m db h k = k refl
checked (b ∷ bs) m db h k = h

confirmed_nil :
    (b : Bool) (bs : List Blocker)
    → (if b then bs else bs ++ confirmation_mismatch ∷ []) ≡ []
    → bs ≡ []
confirmed_nil true bs e = e
confirmed_nil false [] e = refl
confirmed_nil false (b ∷ bs) e = absurd (ground arith)

create_term-Keeps :
    (actor : Option User) (name : String) (start_date end_date : Option Date)
    (confirmation : Option String)
    → Keeps HasTermTable (create_term actor name start_date end_date confirmation)
unfolding create_term
create_term-Keeps actor name start_date end_date confirmation = atomic-Keeps HasTermTable _ (
    bind-Keeps HasTermTable (authorize actor) _ (authorize-Keeps actor) λ _ db h.
      checked _ (insert_term actor (normalize_name name) start_date end_date) db h λ e.
        inserted actor name start_date end_date db
          (confirmed_nil _ (creation_blockers name start_date end_date db.terms) e) h)

-- One call of one of the four services, with any arguments.
pub data Step : Database → Database → Type 0 where
  created :
      {db : Database} (actor : Option User) (name : String) (start_date end_date : Option Date)
      (confirmation : Option String)
      → Step db (create_term actor name start_date end_date confirmation db).1
  closed :
      {db : Database} (k : ℕ) (actor : Option User) (confirmation reason : Option String)
      (acknowledged : List String) (today : Date)
      → Step db (close_term k actor confirmation reason acknowledged today db).1
  reopened :
      {db : Database} (k : ℕ) (actor : Option User) (confirmation reason : Option String)
      (acknowledged : List String) (today : Date)
      → Step db (reopen_term k actor confirmation reason acknowledged today db).1
  activated :
      {db : Database} (k : ℕ) (actor : Option User) (confirmation : Option String)
      (acknowledged : List String) (today : Date) (now : Instant)
      → Step db (activate_term k actor confirmation acknowledged today now db).1

pub data Steps : Database → Database → Type 0 where
  done : {db : Database} → Steps db db
  next : {a b c : Database} → Step a b → Steps b c → Steps a c

Step-IsTermTable : {a b : Database} → Step a b → HasTermTable a → HasTermTable b
Step-IsTermTable (created actor name s e conf) h = create_term-Keeps actor name s e conf _ h
Step-IsTermTable (closed k actor conf reason ack today) h =
    close_term-Keeps k actor conf reason ack today _ h
Step-IsTermTable (reopened k actor conf reason ack today) h =
    reopen_term-Keeps k actor conf reason ack today _ h
Step-IsTermTable (activated k actor conf ack today now) h =
    activate_term-Keeps k actor conf ack today now _ h

-- After any sequence of calls of create_term, close_term, reopen_term and activate_term, refused or
-- not, the term table has what it started with: keys of its own for each row, one ACTIVE term at most,
-- and no two terms whose dates overlap.
pub Steps-IsTermTable : {a b : Database} → Steps a b → IsTermTable a.terms → IsTermTable b.terms
Steps-IsTermTable done h = h
Steps-IsTermTable (next s rest) h = Steps-IsTermTable rest (Step-IsTermTable s h)
