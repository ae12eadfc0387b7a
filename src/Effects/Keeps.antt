-- ===== src/Effects/Keeps.antt =====
-- Predicates on the database that an action keeps, whether it raises or not.
use fluxtrack_main.Effects.{
  Action, Result, and_then, atomic, err, get_or_raise, gets, ok, roll_back, ◌>>=◌,
}
use fluxtrack_main.Model.{Database}
use fluxtrack_main.Prelude.{Option, none, some}

abbrev pub Keeps {κ} : {A : Type 0} → (Database → Type κ) → Action A → Type κ
Keeps P m = (db : Database) → P db → P (m db).1

module _ {κ} (P : Database → Type κ) {A : Type 0} where
  pub atomic-Keeps : (m : Action A) → Keeps P m → Keeps P (atomic m)
  atomic-Keeps m h db p = rolled (m db).0 (m db).1 (h db p)
    where
      rolled : (r : Result A) (after : Database) → P after → P (roll_back r db after).1
      rolled (ok a) after q = q
      rolled (err e) after q = p

  pub get_or_raise-Keeps : (o : Option A) → Keeps P (get_or_raise o)
  get_or_raise-Keeps none db p = p
  get_or_raise-Keeps (some a) db p = p

module _ {κ} (P : Database → Type κ) {A B : Type 0} where
  pub bind-Keeps :
      (m : Action A) (f : A → Action B) → Keeps P m → ((a : A) → Keeps P (f a)) → Keeps P (m >>= f)
  bind-Keeps m f h k db p = next (m db).0 (m db).1 (h db p)
    where
      next : (r : Result A) (after : Database) → P after → P (and_then r f after).1
      next (ok a) after q = k a after q
      next (err e) after q = q

  -- A read first.
  pub gets-Keeps :
      (g : Database → A) (f : A → Action B) → ((a : A) → Keeps P (f a)) → Keeps P (gets g >>= f)
  gets-Keeps g f k db p = k (g db) db p
