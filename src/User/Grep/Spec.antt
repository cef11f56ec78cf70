-- ===== src/User/Grep/Spec.antt =====
-- What a pattern of user/grep.c stands for, without the matcher.
use sleep_e_pingpong.Base.{ℕ, ◌≡◌, Bool, true, false, ◌||◌, List, [], ◌∷◌, ◌++◌, All, ◌==◌}
use sleep_e_pingpong.User.Grep.{star_char, dot, caret, dollar}

-- A character fits a character of the pattern.
abbrev pub Fits : ℕ → ℕ → Type 0
Fits c t = ((t == c) || (c == dot)) ≡ true

-- Whether a pattern begins with a star, or is a lone character after a dollar.
abbrev pub is_starred : List ℕ → Bool
is_starred [] = false
is_starred (s ∷ re) = s == star_char

abbrev pub is_anchored : ℕ → List ℕ → Bool
is_anchored c [] = c == dollar
is_anchored c (s ∷ re) = false

-- The pattern matches at the beginning of the text.
pub data Here : List ℕ → List ℕ → Type 0 where
  empty : {text : List ℕ} → Here [] text
  at_end : {c : ℕ} → (c == dollar) ≡ true → Here (c ∷ []) []
  one :
      {c t : ℕ} {re text : List ℕ}
      → is_starred re ≡ false
      → is_anchored c re ≡ false
      → Fits c t
      → Here re text
      → Here (c ∷ re) (t ∷ text)
  repeat :
      {c s : ℕ} {re text : List ℕ} (run : List ℕ)
      → (s == star_char) ≡ true
      → All (Fits c) run
      → Here re text
      → Here (c ∷ s ∷ re) (run ++ text)

-- The pattern matches somewhere in the text: at its beginning, if it begins with a caret.
pub data Found : List ℕ → List ℕ → Type 0 where
  at_start : {c : ℕ} {re text : List ℕ} → (c == caret) ≡ true → Here re text → Found (c ∷ re) text
  nowhere_fixed : {text : List ℕ} → Found [] text
  anywhere :
      {c : ℕ} {re text : List ℕ} (before : List ℕ)
      → (c == caret) ≡ false
      → Here (c ∷ re) text
      → Found (c ∷ re) (before ++ text)
