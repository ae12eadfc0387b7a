-- ===== src/Terms/Creation.antt =====
-- When a term may be created, and what is created.
use text.Mathlib.Text.{◌==◌ as str_eq}
use fluxtrack_main.Calendar.{Date}
use fluxtrack_main.Effects.{
  Blocker, Error, Result, confirmation_mismatch, date_order, duplicate_name, err, name_required, ok,
  overlapping_term, term_error, unauthorized,
}
use fluxtrack_main.Model.{AcademicTerm, Database, User, is_ifo_admin, term_created}
use fluxtrack_main.Ops.{log}
use fluxtrack_main.Prelude.{
  All, Bool, Bool-cases, List, Option, String, [], any, any-false, ap, arith, false, if◌then◌else◌,
  inl, inr, ltb, map, none, refl, some, sym, true, ◌++◌, ◌<◌, ◌||◌, ◌↔◌, ◌∙◌, ◌∷◌, ◌≡◌, ◌≢◌, ◌≤◌,
  ◌⊎◌,
}
use fluxtrack_main.Suspensions.{fresh_key}
use fluxtrack_main.Terms.{
  authorize, create_term, creation_blockers, draft_term, insert_term, overlaps_term, text_or_blank,
  user_key, when,
}
use fluxtrack_main.Terms.Names.{is_empty, normalize_name, same_folded}

when_nil :
    (b : Bool) (x : Blocker) (rest : List Blocker)
    → when b x ++ rest ≡ []
    → (b ≡ false) × (rest ≡ [])
when_nil true x rest h = ground arith
when_nil false x rest h = (refl, h)

last_nil : (b : Bool) (x : Blocker) → when b x ≡ [] → b ≡ false
last_nil true x h = ground arith
last_nil false x h = refl

-- An academic term may be added to the table: it has a name that no row has, up to case and blanks,
-- its dates are in order, and no row's dates overlap its own.
pub record MayCreate (name : String) (first last : Date) (rows : List AcademicTerm) : Type 0 where
  pub named : is_empty (normalize_name name) ≡ false
  pub ordered : first ≤ last
  pub new_name : All (λ t. same_folded (normalize_name t.name) (normalize_name name) ≡ false) rows
  pub free : All (λ t. (t.end_date < first) ⊎ (last < t.start_date)) rows

module _ (name : String) (first last : Date) where
  apart_rows :
      (rows : List AcademicTerm)
      → any (overlaps_term (some first) (some last)) rows ≡ false
      → All (λ t. (t.end_date < first) ⊎ (last < t.start_date)) rows
  apart_rows [] h = tt
  apart_rows (t ∷ ts) h = (ground arith, apart_rows ts (ground arith))

  pub rows_apart :
      (rows : List AcademicTerm)
      → All (λ t. (t.end_date < first) ⊎ (last < t.start_date)) rows
      → any (overlaps_term (some first) (some last)) rows ≡ false
  rows_apart [] h = refl
  rows_apart (t ∷ ts) h = let here = h.0 in let rest = rows_apart ts h.1 in ground arith

  not_any :
      (p : AcademicTerm → Bool) (rows : List AcademicTerm)
      → All (λ t. p t ≡ false) rows
      → any p rows ≡ false
  not_any p [] h = refl
  not_any p (t ∷ ts) h = rw (h.0, not_any p ts h.1) refl

  pub MayCreate-nil :
      (rows : List AcademicTerm)
      → creation_blockers name (some first) (some last) rows ≡ []
      → MayCreate name first last rows
  unfolding creation_blockers
  MayCreate-nil rows h =
      let (a, h1) = when_nil _ name_required _ h in
      let (b, h2) = when_nil _ date_order _ h1 in
      let (c, h3) = when_nil _ duplicate_name _ h2 in
      let d = last_nil _ overlapping_term h3 in
      record {
        named = a;
        ordered = ground arith;
        new_name =
            any-false (λ t. same_folded (normalize_name t.name) (normalize_name name)) rows
              (rw a at c);
        free = apart_rows rows d;
      }

  pub nil-MayCreate :
      (rows : List AcademicTerm)
      → MayCreate name first last rows
      → creation_blockers name (some first) (some last) rows ≡ []
  unfolding creation_blockers
  nil-MayCreate rows h =
      let ordered : ltb last first ≡ false = (let o = h.ordered in ground arith) in
      rw
        (
          h.named,
          ordered,
          not_any (λ t. same_folded (normalize_name t.name) (normalize_name name)) rows h.new_name,
          rows_apart rows h.free,
        )
        refl

-- A date is missing.
pub no_start :
    (name : String) (end_date : Option Date) (rows : List AcademicTerm)
    → creation_blockers name none end_date rows ≢ []
unfolding creation_blockers
no_start name end_date rows h = ground arith

pub no_end :
    (name : String) (first : Date) (rows : List AcademicTerm)
    → creation_blockers name (some first) none rows ≢ []
unfolding creation_blockers
no_end name first rows h = ground arith

-- A superuser, or an IFO administrator.
abbrev pub may_manage : Option User → Bool
may_manage none = false
may_manage (some u) = u.is_superuser || is_ifo_admin u.role

pub authorized :
    (actor : Option User) (db : Database)
    → may_manage actor ≡ true
    → authorize actor db ≡ (ok tt, db)
unfolding authorize
authorized none db h = absurd (ground arith)
authorized (some u) db h = ground arith

pub unauthorized_lem :
    (actor : Option User) (db : Database)
    → may_manage actor ≡ false
    → authorize actor db ≡ (err (term_error (unauthorized ∷ [])), db)
unfolding authorize
unauthorized_lem none db h = refl
unauthorized_lem (some u) db h = ground arith

pub List-cases :
    (bs : List Blocker) → (bs ≡ []) ⊎ ((b : Blocker) × (rest : List Blocker) × (bs ≡ b ∷ rest))
List-cases [] = inl refl
List-cases (b ∷ bs) = inr (b, bs, refl)

-- No run is both a success and a refusal.
pub ok_ne_err :
    (run : Result AcademicTerm × Database) (t : AcademicTerm) (after before : Database) (e : Error)
    → run ≡ (ok t, after)
    → run ≡ (err e, before)
    → ⊥
ok_ne_err run t after before e p q = differ (ap (λ r. r.0) (sym p ∙ q))
  where
    differ : ok t ≡ err e → ⊥
    differ h = ground arith

module _ (actor : Option User) (name : String) (first last : Date) (confirmation : Option String)
    (db : Database) where
  abbrev pub new_term : AcademicTerm
  new_term =
      draft_term (fresh_key (map (λ r. r.id) db.terms)) (normalize_name name) (some first)
        (some last)

  abbrev pub with_new_term : Database
  with_new_term = record db {
    terms = db.terms ++ new_term ∷ [];
    audit =
        db.audit
        ++ record {
          actor = user_key actor;
          event = term_created (normalize_name name);
          target_id = some new_term.id;
        }
          ∷ [];
  }

  abbrev pub is_confirmed : Bool
  is_confirmed = str_eq (normalize_name (text_or_blank confirmation)) (normalize_name name)

  abbrev run : Result AcademicTerm × Database
  run = create_term actor name (some first) (some last) confirmation db

  created :
      may_manage actor ≡ true
      → is_confirmed ≡ true
      → MayCreate name first last db.terms
      → run ≡ (ok new_term, with_new_term)
  unfolding create_term insert_term log
  created a c m = rw (authorized actor db a, c, nil-MayCreate name first last db.terms m) refl

  refused_unauthorized : may_manage actor ≡ false → run ≡ (err (term_error (unauthorized ∷ [])), db)
  unfolding create_term
  refused_unauthorized a = rw (unauthorized_lem actor db a) refl

  refused :
      (b : Blocker) (rest : List Blocker)
      → may_manage actor ≡ true
      → (if is_confirmed
          then creation_blockers name (some first) (some last) db.terms
          else creation_blockers name (some first) (some last) db.terms
            ++ confirmation_mismatch ∷ [])
        ≡ b ∷ rest
      → run ≡ (err (term_error (b ∷ rest)), db)
  unfolding create_term
  refused b rest a e = rw (authorized actor db a, e) refl

  -- A term is created, in DRAFT and under its normalized name, with its audit row and no other change,
  -- exactly when the user is a superuser or an IFO administrator, the confirmation is the name up to
  -- blanks, the name is not blank and no term has it up to case and blanks, the dates are in order, and
  -- no term's dates overlap them.
  pub create_term_iff :
      ((may_manage actor ≡ true) × (is_confirmed ≡ true) × MayCreate name first last db.terms) ↔ (
        create_term actor name (some first) (some last) confirmation db
        ≡ (ok new_term, with_new_term))
  create_term_iff = (λ (a, c, m). created a c m, back)
    where
      unconfirmed :
          (bs : List Blocker)
          → (b : Blocker) × (rest : List Blocker) × (bs ++ confirmation_mismatch ∷ [] ≡ b ∷ rest)
      unconfirmed [] = (confirmation_mismatch, [], refl)
      unconfirmed (b ∷ bs) = (b, bs ++ confirmation_mismatch ∷ [], refl)

      back :
          run ≡ (ok new_term, with_new_term)
          → (may_manage actor ≡ true) × (is_confirmed ≡ true) × MayCreate name first last db.terms
      back h = elim (Bool-cases (may_manage actor)) [
        | inr a ↦ absurd (ok_ne_err run new_term with_new_term db _ h (refused_unauthorized a))
        | inl a ↦ elim (Bool-cases is_confirmed) [
          | inr c ↦
              let (b, rest, q) =
                unconfirmed (creation_blockers name (some first) (some last) db.terms) in
              absurd (ok_ne_err run new_term with_new_term db _ h (refused b rest a (rw c q)))
          | inl c ↦ elim (List-cases (creation_blockers name (some first) (some last) db.terms)) [
            | inl e ↦ (a, c, MayCreate-nil name first last db.terms e)
            | inr (b, rest, e) ↦
                absurd (ok_ne_err run new_term with_new_term db _ h (refused b rest a (rw c e)))
          ]
        ]
      ]
