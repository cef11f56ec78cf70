-- ===== src/User/Grep/Sound.antt =====
-- The matcher of user/grep.c finds what the pattern stands for, and nothing else.
use mathlib.Core.Path.{subst}
use sleep_e_pingpong.Base.{
  ℕ, ◌≡◌, refl, sym, ap, ◌∙◌, ◌↔◌, inl, inr, Bool, Bool-cases, true, false, ◌||◌, List, [], ◌∷◌,
  ◌++◌, All, ◌==◌, arith,
}
use sleep_e_pingpong.User.Grep.{
  star_char, dot, caret, dollar, matchstar, match_one, is_end, matchhere, match_from, match,
}
use sleep_e_pingpong.User.Grep.Spec.{
  Fits, is_starred, is_anchored, Here, empty, at_end, one, repeat, Found, at_start, nowhere_fixed,
  anywhere,
}

-- A star: some run of characters that fit, and then what comes after.
abbrev Repeats : ℕ → (List ℕ → Type 0) → List ℕ → Type 0
Repeats c P text =
    (run : List ℕ) × (rest : List ℕ) × (text ≡ run ++ rest) × All (Fits c) run × P rest

matchstar_sound :
    (c : ℕ) (here : List ℕ → Bool) (text : List ℕ)
    → matchstar c here text ≡ true
    → Repeats c (λ rest. here rest ≡ true) text
unfolding matchstar
matchstar_sound c here [] h = ([], [], refl, tt, h)
matchstar_sound c here (t ∷ text) h = elim (Bool-cases (here (t ∷ text))) [
  | inl e ↦ ([], t ∷ text, refl, tt, e)
  | inr e ↦ elim (Bool-cases ((t == c) || (c == dot))) [
    | inl f ↦
        let (run, rest, q, fits, h') = matchstar_sound c here text (rw (e, f) at h) in
        (t ∷ run, rest, ap (λ ts. t ∷ ts) q, (f, fits), h')
    | inr f ↦ let h' = rw (e, f) at h in absurd (cc)
  ]
]

matchstar_complete :
    (c : ℕ) (here : List ℕ → Bool) (run rest : List ℕ)
    → All (Fits c) run
    → here rest ≡ true
    → matchstar c here (run ++ rest) ≡ true
unfolding matchstar
matchstar_complete c here [] [] fits h = h
matchstar_complete c here [] (t ∷ rest) fits h = rw h refl
matchstar_complete c here (t ∷ run) rest (f, fits) h =
    let later = matchstar_complete c here run rest fits h in
    elim (Bool-cases (here (t ∷ (run ++ rest)))) [ inl e ↦ rw e refl | inr e ↦ rw (e, f) later ]

fits_swap : (c t : ℕ) → ((c == dot) || (c == t)) ≡ ((t == c) || (c == dot))
fits_swap c t = ground arith

match_one_sound :
    (c : ℕ) (next : List ℕ → Bool) (text : List ℕ)
    → match_one c next text ≡ true
    → (t : ℕ) × (rest : List ℕ) × (text ≡ t ∷ rest) × Fits c t × (next rest ≡ true)
unfolding match_one
match_one_sound c next [] h = absurd (cc)
match_one_sound c next (t ∷ text) h = elim (Bool-cases ((c == dot) || (c == t))) [
  | inl e ↦ (t, text, refl, sym (fits_swap c t) ∙ e, rw e at h)
  | inr e ↦ let h' = rw e at h in absurd (cc)
]

match_one_complete :
    (c t : ℕ) (next : List ℕ → Bool) (text : List ℕ)
    → Fits c t
    → next text ≡ true
    → match_one c next (t ∷ text) ≡ true
unfolding match_one
match_one_complete c t next text f h = rw (fits_swap c t, f) h

is_end_nil : (text : List ℕ) → is_end text ≡ true → text ≡ []
is_end_nil [] h = refl
is_end_nil (t ∷ text) h = absurd (cc)

pub matchhere-sound : (re text : List ℕ) → matchhere re text ≡ true → Here re text
unfolding matchhere
matchhere-sound [] text h = empty
matchhere-sound (c ∷ []) text h = elim (Bool-cases (c == dollar)) [
  | inl e ↦ subst (Here (c ∷ [])) (sym (is_end_nil text (rw e at h))) (at_end e)
  | inr e ↦
      let (t, rest, q, f, h') = match_one_sound c (matchhere []) text (rw e at h) in
      subst (Here (c ∷ [])) (sym q) (one refl e f empty)
]
matchhere-sound (c ∷ s ∷ re) text h = elim (Bool-cases (s == star_char)) [
  | inl e ↦
      let (run, rest, q, fits, h') = matchstar_sound c (matchhere re) text (rw e at h) in
      subst (Here (c ∷ s ∷ re)) (sym q) (repeat run e fits (matchhere-sound re rest h'))
  | inr e ↦
      let (t, rest, q, f, h') = match_one_sound c (matchhere (s ∷ re)) text (rw e at h) in
      subst (Here (c ∷ s ∷ re)) (sym q) (one e refl f (matchhere-sound (s ∷ re) rest h'))
]

one_complete :
    (c t : ℕ) (re text : List ℕ)
    → is_starred re ≡ false
    → is_anchored c re ≡ false
    → Fits c t
    → matchhere re text ≡ true
    → matchhere (c ∷ re) (t ∷ text) ≡ true
unfolding matchhere
one_complete c t [] text s a f h = rw a (match_one_complete c t (matchhere []) text f h)
one_complete c t (x ∷ re) text s a f h = rw s (match_one_complete c t (matchhere (x ∷ re)) text f h)

pub matchhere_complete : (re text : List ℕ) → Here re text → matchhere re text ≡ true
unfolding matchhere
matchhere_complete _ _ empty = refl
matchhere_complete _ _ (at_end e) = rw e refl
matchhere_complete _ _ (one {c} {t} {re} {text} s a f h) =
    one_complete c t re text s a f (matchhere_complete re text h)
matchhere_complete _ _ (repeat {c} {s} {re} {text} run e fits h) =
    rw e (matchstar_complete c (matchhere re) run text fits (matchhere_complete re text h))

match_from_sound :
    (re text : List ℕ)
    → match_from re text ≡ true
    → (before : List ℕ) × (after : List ℕ) × (text ≡ before ++ after) × Here re after
unfolding match_from
match_from_sound re [] h = ([], [], refl, matchhere-sound re [] h)
match_from_sound re (t ∷ text) h = elim (Bool-cases (matchhere re (t ∷ text))) [
  | inl e ↦ ([], t ∷ text, refl, matchhere-sound re (t ∷ text) e)
  | inr e ↦
      let (before, after, q, here) = match_from_sound re text (rw e at h) in
      (t ∷ before, after, ap (λ ts. t ∷ ts) q, here)
]

match_from_complete :
    (re before after : List ℕ) → Here re after → match_from re (before ++ after) ≡ true
unfolding match_from
match_from_complete re [] [] here = matchhere_complete re [] here
match_from_complete re [] (t ∷ after) here = rw (matchhere_complete re (t ∷ after) here) refl
match_from_complete re (t ∷ before) after here =
    let later = match_from_complete re before after here in
    elim (Bool-cases (matchhere re (t ∷ (before ++ after)))) [
      | inl e ↦ rw e refl
      | inr e ↦ rw e later
    ]

match-sound : (re text : List ℕ) → match re text ≡ true → Found re text
unfolding match
match-sound [] text h = nowhere_fixed
match-sound (c ∷ re) text h = elim (Bool-cases (c == caret)) [
  | inl e ↦ at_start e (matchhere-sound re text (rw e at h))
  | inr e ↦
      let (before, after, q, here) = match_from_sound (c ∷ re) text (rw e at h) in
      subst (Found (c ∷ re)) (sym q) (anywhere before e here)
]

match_from_empty : (text : List ℕ) → match_from [] text ≡ true
unfolding match_from matchhere
match_from_empty [] = refl
match_from_empty (t ∷ text) = refl

match_complete : (re text : List ℕ) → Found re text → match re text ≡ true
unfolding match
match_complete _ _ (at_start {c} {re} {text} e here) = rw e (matchhere_complete re text here)
match_complete _ _ (nowhere_fixed {text}) = match_from_empty text
match_complete _ _ (anywhere {c} {re} {text} before e here) =
    rw e (match_from_complete (c ∷ re) before text here)

-- `match` returns 1 exactly when the text has the pattern, as the grammar says it: a caret fixes the
-- beginning, a dollar at the end of the pattern fixes the end, a dot is any character, and a character
-- with a star after it is any run of characters that fit it, also an empty one.
pub match-Found : (re text : List ℕ) → (match re text ≡ true) ↔ Found re text
match-Found re text = (match-sound re text, match_complete re text)
