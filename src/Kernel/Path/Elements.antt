-- ===== src/Kernel/Path/Elements.antt =====
-- The elements of a path of kernel/fs.c, and what skipelem takes of it.
use mathlib.Core.Path.{subst}
use sleep_e_pingpong.Base.{
  ℕ, ◌≤◌, ◌<◌, ◌≡◌, refl, sym, ap, ◌∙◌, Bool, true, false, List, [], ◌∷◌, ◌++◌, All, Option, none,
  some, ◌==◌, take, length, length-append, arith,
}
use sleep_e_pingpong.Kernel.Path.{
  slash, dirsiz, Text, skip_slashes, after_elem, elem_of, take_elem, skipelem, is_last,
}

-- A character of a name.
abbrev pub Plain : ℕ → Type 0
Plain c = (c == slash) ≡ false

-- A name ends at a slash or at the end of the path.
abbrev pub Ends : Text → Type 0
Ends [] = Unit
Ends (c ∷ path) = (c == slash) ≡ true

-- The path has these names, with slashes between them, and any number of slashes around.
pub data Spells : Text → List Text → Type 0 where
  nothing : Spells [] []
  gap :
      {path : Text} {names : List Text} (c : ℕ)
      → (c == slash) ≡ true
      → Spells path names
      → Spells (c ∷ path) names
  name :
      {path : Text} {names : List Text} (c : ℕ) (word : Text)
      → Plain c
      → All Plain word
      → Ends path
      → Spells path names
      → Spells (c ∷ (word ++ path)) ((c ∷ word) ∷ names)

abbrev pub no_names : List Text → Bool
no_names [] = true
no_names (n ∷ names) = false

after_word : (word path : Text) → All Plain word → Ends path → after_elem (word ++ path) ≡ path
unfolding after_elem
after_word [] [] p e = refl
after_word [] (c ∷ path) p e = rw e refl
after_word (c ∷ word) path (h, p) e = rw h (after_word word path p e)

elem_word : (word path : Text) → All Plain word → Ends path → elem_of (word ++ path) ≡ word
unfolding elem_of
elem_word [] [] p e = refl
elem_word [] (c ∷ path) p e = rw e refl
elem_word (c ∷ word) path (h, p) e = rw h (ap (λ w. c ∷ w) (elem_word word path p e))

-- Past slashes the names are the same, and the path is at its end only if there is none.
slashes-Spells :
    (path : Text) (names : List Text)
    → Spells path names
    → Spells (skip_slashes path) names
      × (is_last (skip_slashes path) ≡ no_names names)
      × (length (skip_slashes path) ≤ length path)
unfolding skip_slashes
slashes-Spells _ _ nothing = (nothing, refl, omega arith)
slashes-Spells _ _ (gap {path} {names} c e s) =
    let (s', last, le) = slashes-Spells path names s in rw e (s', last, omega (arith, le))
slashes-Spells _ _ (name {path} {names} c word h p e s) =
    rw h (name c word h p e s, refl, omega arith)

-- What `skipelem` takes from a path with these names.
pub data Taken : Text → List Text → Option (Text × Text) → Type 0 where
  none_left : {path : Text} → Taken path [] none
  takes :
      {path : Text} {names : List Text} (word rest : Text)
      → Spells rest names
      → is_last rest ≡ no_names names
      → length rest < length path
      → Taken path (word ∷ names) (some (rest, take dirsiz word))

pair_eq : {a a' b b' : Text} → a ≡ a' → b ≡ b' → ◌≡◌ {A = Text × Text} (a, b) (a', b')
pair_eq e e' = rw (e, e') refl

Taken-gap :
    (c : ℕ) (path : Text) (names : List Text) (r : Option (Text × Text))
    → Taken path names r
    → Taken (c ∷ path) names r
Taken-gap c path _ _ none_left = none_left
Taken-gap c path _ _ (takes word rest s e l) = takes word rest s e (omega (arith, l))

-- A path that begins with a name.
take_elem_name :
    (c : ℕ) (word path : Text)
    → Plain c
    → All Plain word
    → Ends path
    → take_elem (c ∷ (word ++ path)) ≡ some (skip_slashes path, take dirsiz (c ∷ word))
unfolding take_elem
take_elem_name c word path h p e =
    ap (λ (x : Text × Text). some (skip_slashes x.0, take dirsiz x.1))
      (pair_eq (after_word (c ∷ word) path (h, p) e) (elem_word (c ∷ word) path (h, p) e))

slashes_name : (c : ℕ) (path : Text) → Plain c → skip_slashes (c ∷ path) ≡ c ∷ path
unfolding skip_slashes
slashes_name c path h = rw h refl

slashes_gap :
    (c : ℕ) (path : Text) → (c == slash) ≡ true → skip_slashes (c ∷ path) ≡ skip_slashes path
unfolding skip_slashes
slashes_gap c path h = rw h refl

pub skipelem-Taken :
    (path : Text) (names : List Text) → Spells path names → Taken path names (skipelem path)
unfolding skipelem
skipelem-Taken _ _ nothing = none_left
skipelem-Taken _ _ (gap {path} {names} c e s) =
    subst (Taken (c ∷ path) names) (sym (ap take_elem (slashes_gap c path e)))
      (Taken-gap c path names _ (skipelem-Taken path names s))
skipelem-Taken _ _ (name {path} {names} c word h p e s) =
    let (s', last, le) = slashes-Spells path names s in
    let longer = length-append word path in
    subst (Taken (c ∷ (word ++ path)) ((c ∷ word) ∷ names))
      (sym (ap take_elem (slashes_name c (word ++ path) h) ∙ take_elem_name c word path h p e))
      (takes (c ∷ word) (skip_slashes path) s' last (omega (arith, le, longer)))
