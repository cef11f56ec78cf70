-- ===== src/User/Grep/Tests.antt =====
-- The matcher of user/grep.c at concrete strings.
use sleep_e_pingpong.Base.{ℕ, ◌≡◌, ◌↔◌, refl, true, false, List, [], ◌∷◌}
use sleep_e_pingpong.User.Grep.{matchstar, match_one, matchhere, match_from, match}
use sleep_e_pingpong.User.Grep.Spec.{Found}
use sleep_e_pingpong.User.Grep.Sound.{match-Found}

-- "ab*c$" and the texts "xabbc" and "abd".
abbrev pattern : List ℕ
pattern = 97 ∷ 98 ∷ 42 ∷ 99 ∷ 36 ∷ []

abbrev has_it : List ℕ
has_it = 120 ∷ 97 ∷ 98 ∷ 98 ∷ 99 ∷ []

abbrev lacks_it : List ℕ
lacks_it = 97 ∷ 98 ∷ 100 ∷ []

match-has_it : match pattern has_it ≡ true
unfolding match match_from matchhere matchstar match_one
match-has_it = refl

match-lacks_it : match pattern lacks_it ≡ false
unfolding match match_from matchhere matchstar match_one
match-lacks_it = refl

match-Found_example : (match pattern has_it ≡ true) ↔ Found pattern has_it
match-Found_example = match-Found pattern has_it
