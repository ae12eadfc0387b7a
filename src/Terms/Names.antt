-- ===== src/Terms/Names.antt =====
-- `_normalize_name`, `str.strip` and the comparison of names. Blanks are those of Python's `str.split`;
-- `str.casefold` is in Terms/Casefold.
use Prim.Native.Char.{Char, code}
use fluxtrack_main.Prelude.{
  Bool, List, String, [], arith, false, if◌then◌else◌, leb, not, refl, true, ℕ, ◌&&◌, ◌==◌, ◌||◌,
  ◌∷◌, ◌≡◌,
}
use fluxtrack_main.Terms.Casefold.{casefold}

abbrev is_space : Char → Bool
is_space c =
    let n = code c in
    (leb 9 n && leb n 13)
    || ((leb 28 n && leb n 32)
        || (n == 133
            || (n == 160
                || (n == 5760
                    || ((leb 8192 n && leb n 8202)
                        || ((leb 8232 n && leb n 8233)
                            || (n == 8239 || (n == 8287 || n == 12288))))))))

-- `" ".join(name.split())`: `started` says that a word has been written, `gap` that blanks wait.
join_words : Bool → Bool → String → String
join_words started gap String.[] = String.[]
join_words started gap (String.◌∷◌ c s) =
    let blank = is_space c in
    let rest = join_words (started || not blank) blank s in
    if blank
    then rest
    else if started && gap
    then String.◌∷◌ " " (String.◌∷◌ c rest)
    else String.◌∷◌ c rest

unfoldable pub normalize_name : String → String
unfolding join_words
normalize_name s = join_words false false s

unfoldable pub is_empty : String → Bool
is_empty String.[] = true
is_empty (String.◌∷◌ c s) = false

drop_left : String → String
drop_left String.[] = String.[]
drop_left (String.◌∷◌ c s) = let rest = drop_left s in if is_space c then rest else String.◌∷◌ c s

drop_right : String → String
drop_right String.[] = String.[]
drop_right (String.◌∷◌ c s) =
    let rest = drop_right s in if is_empty rest && is_space c then String.[] else String.◌∷◌ c rest

unfoldable pub strip : String → String
unfolding drop_left drop_right is_empty
strip s = drop_right (drop_left s)

same_codes : List ℕ → List ℕ → Bool
same_codes [] [] = true
same_codes (m ∷ ms) (n ∷ ns) = m == n && same_codes ms ns
same_codes _ _ = false

-- `a.casefold() == b.casefold()`
unfoldable pub same_folded : String → String → Bool
unfolding same_codes casefold
same_folded s t = same_codes (casefold s) (casefold t)

-- Words are written once: a normalized text is left as it is.
join_words_again :
    (s : String) (gap : Bool)
    → join_words true false (join_words true gap s) ≡ join_words true gap s
unfolding join_words
join_words_again String.[] gap = refl
join_words_again (String.◌∷◌ c s) gap = ground (arith, join_words_again s (is_space c))

join_words_start :
    (s : String) (gap other : Bool)
    → join_words false other (join_words false gap s) ≡ join_words false gap s
unfolding join_words
join_words_start String.[] gap other = refl
join_words_start (String.◌∷◌ c s) gap other =
    ground (arith, join_words_start s true other, join_words_again s false)

-- Normalizing a name twice is normalizing it once.
pub normalize_name_idem : (s : String) → normalize_name (normalize_name s) ≡ normalize_name s
unfolding normalize_name
normalize_name_idem s = join_words_start s false false
