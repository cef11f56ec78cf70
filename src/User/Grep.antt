-- ===== src/User/Grep.antt =====
-- user/grep.c: the matcher. A string is the list of its characters before the terminating 0.
pub mod Spec
pub mod Sound
mod Tests
use sleep_e_pingpong.Base.{
  ℕ, Bool, true, false, not, ◌&&◌, ◌||◌, List, [], ◌∷◌, ◌==◌, if◌then◌else◌,
}

-- '*', '.', '^' and '$'.
abbrev pub star_char : ℕ
star_char = 42

abbrev pub dot : ℕ
dot = 46

abbrev pub caret : ℕ
caret = 94

abbrev pub dollar : ℕ
dollar = 36

-- The loop of `matchstar`, with `here` for its calls of matchhere.
unfoldable pub matchstar : ℕ → (List ℕ → Bool) → List ℕ → Bool
matchstar c here [] = here []
matchstar c here (t ∷ text) =
    let rest = matchstar c here text in
    if here (t ∷ text) then true else if (t == c) || (c == dot) then rest else false

-- The last two tests of `matchhere`, with `next` for its call of itself on what is left of the pattern.
unfoldable pub match_one : ℕ → (List ℕ → Bool) → List ℕ → Bool
match_one c next [] = false
match_one c next (t ∷ text) = if (c == dot) || (c == t) then next text else false

abbrev pub is_end : List ℕ → Bool
is_end [] = true
is_end (t ∷ text) = false

unfoldable pub matchhere : List ℕ → List ℕ → Bool
unfolding matchstar match_one
matchhere [] text = true
matchhere (c ∷ []) text = if c == dollar then is_end text else match_one c (matchhere []) text
matchhere (c ∷ s ∷ re) text =
    if s == star_char
    then matchstar c (matchhere re) text
    else match_one c (matchhere (s ∷ re)) text

-- The loop of `match` over the ends of the text.
unfoldable pub match_from : List ℕ → List ℕ → Bool
unfolding matchhere
match_from re [] = matchhere re []
match_from re (t ∷ text) = if matchhere re (t ∷ text) then true else match_from re text

unfoldable pub match : List ℕ → List ℕ → Bool
unfolding matchhere match_from
match [] text = match_from [] text
match (c ∷ re) text = if c == caret then matchhere re text else match_from (c ∷ re) text
