-- ===== src/Terms/Casefold.antt =====
-- `str.casefold`, as scheduling/term_lifecycle.py uses it, over code points.
mod Rows
mod Expansions
use Prim.Native.Char.{Char, code}
use fluxtrack_main.Prelude.{
  Bool, List, Option, String, [], if◌then◌else◌, leb, none, some, ℕ, ◌%◌, ◌&&◌, ◌++◌, ◌+◌, ◌-◌,
  ◌==◌, ◌∷◌,
}
use fluxtrack_main.Terms.Casefold.Expansions.{expansions}
use fluxtrack_main.Terms.Casefold.Rows.{Row, rows}

abbrev covers : ℕ → Row → Bool
covers n (first, last, step, target) = leb first n && (leb n last && (n - first) % step == 0)

fold_by : List Row → ℕ → Option ℕ
fold_by [] n = none
fold_by ((first, last, step, target) ∷ rest) n =
    let later = fold_by rest n in
    if covers n (first, last, step, target) then some (target + (n - first)) else later

expand_by : List (ℕ × List ℕ) → ℕ → List ℕ
expand_by [] n = n ∷ []
expand_by ((key, codes) ∷ rest) n =
    let later = expand_by rest n in if key == n then codes else later

unfoldable fold_code : ℕ → List ℕ
unfolding fold_by expand_by
fold_code n = elim (fold_by rows n) [ some m ↦ m ∷ [] | none ↦ expand_by expansions n ]

-- `s.casefold()`, as code points.
unfoldable pub casefold : String → List ℕ
unfolding fold_code
casefold String.[] = []
casefold (String.◌∷◌ c s) = fold_code (code c) ++ casefold s
