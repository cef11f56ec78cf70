-- ===== src/Kernel/Path/Resolve.antt =====
-- `namex` of kernel/fs.c resolves a path name by name, and leaves the caller one pointer or none.
use mathlib.Core.Path.{subst}
use sleep_e_pingpong.Base.{
  ℕ, zero, suc, ◌+◌, ◌<◌, ◌≡◌, refl, sym, ◌≢◌, inl, inr, Bool, Bool-cases, true, false, not, ◌&&◌,
  List, [], ◌∷◌, Option, none, some, ◌==◌, if◌then◌else◌, take, length, count, drop_one,
  count-drop_one, arith,
}
use sleep_e_pingpong.Kernel.Path.{
  slash, dirsiz, Text, skipelem, Dirs, Named, namex_step, namex_round, namex_loop, namex,
}
use sleep_e_pingpong.Kernel.Path.Elements.{
  Spells, no_names, Taken, none_left, takes, skipelem-Taken,
}

abbrev and_then : Option ℕ → (ℕ → Option (ℕ × Text)) → Option (ℕ × Text)
and_then none f = none
and_then (some next) f = f next

-- The inode that the names lead to from `ip`; with `parent`, the one before the last name, and that
-- name.
pub resolve : Dirs → Bool → List Text → ℕ → Option (ℕ × Text)
resolve dirs parent [] ip = if parent then none else some (ip, [])
resolve dirs parent (n ∷ names) ip =
    if not (dirs.is_dir ip)
    then none
    else if parent && no_names names
    then some (ip, take dirsiz n)
    else and_then (dirs.lookup ip (take dirsiz n)) (λ next. resolve dirs parent names next)

abbrev pub given : ℕ → Option (ℕ × Text) → ℕ
given j none = 0
given j (some (ip, name)) = if j == ip then 1 else 0

-- The result is what the names lead to; of the pointers held, the one to `ip` is given back, and the
-- one to the result is new.
abbrev pub IsResolved : Dirs → Bool → List Text → ℕ → List ℕ → Named → Type 0
IsResolved dirs parent names ip held r =
    (r.0 ≡ resolve dirs parent names ip)
    × ((j : ℕ) → count j r.1 + (if j == ip then 1 else 0) ≡ count j held + given j r.0)

given_up :
    (ip : ℕ) (held : List ℕ)
    → count ip held ≢ 0
    → (j : ℕ) → count j (drop_one ip held) + (if j == ip then 1 else 0) ≡ count j held + 0
given_up ip held nz j =
    let e = count-drop_one ip j held nz in
    elim (Bool-cases (j == ip)) [
      | inl q ↦
          let same : j ≡ ip = ground arith in
          let some_held = subst (λ i. count i held ≢ 0) (sym same) nz in ground arith
      | inr q ↦ ground arith
    ]

-- One step to the next inode.
step_counts :
    (ip next : ℕ) (held held' : List ℕ) (r : Option (ℕ × Text))
    → count ip held ≢ 0
    → ((j : ℕ)
        → count j held' + (if j == next then 1 else 0)
          ≡ count j (drop_one ip (next ∷ held)) + given j r)
    → (j : ℕ) → count j held' + (if j == ip then 1 else 0) ≡ count j held + given j r
step_counts ip next held held' r nz h j =
    let later = h j in
    let more : count ip (next ∷ held) ≢ 0 = λ z. nz (omega (arith, z)) in
    let dropped = given_up ip (next ∷ held) more j in omega (arith, later, dropped)

next_held :
    (ip next : ℕ) (held : List ℕ) → count ip held ≢ 0 → count next (drop_one ip (next ∷ held)) ≢ 0
next_held ip next held nz z = elim (Bool-cases (ip == next)) [
  | inl e ↦
      let same : ip ≡ next = ground arith in
      nz (let z' = rw e at z in subst (λ i. count i held ≡ 0) (sym same) z')
  | inr e ↦ let z' = rw e at z in absurd (ground arith)
]

abbrev Balanced : ℕ → List ℕ → Named → Type 0
Balanced ip held r = (j : ℕ) → count j r.1 + (if j == ip then 1 else 0) ≡ count j held + given j r.0

namex_step-IsResolved :
    (dirs : Dirs) (parent : Bool) (names : List Text) (ip : ℕ) (held : List ℕ)
    (go : ℕ → List ℕ → Named) (found : Option ℕ)
    → count ip held ≢ 0
    → ((next : ℕ) (held' : List ℕ)
        → count next held' ≢ 0
        → IsResolved dirs parent names next held' (go next held'))
    → ((namex_step ip held go found).0 ≡ and_then found (λ next. resolve dirs parent names next))
      × Balanced ip held (namex_step ip held go found)
unfolding namex_step
namex_step-IsResolved dirs parent names ip held go none nz h = (refl, given_up ip held nz)
namex_step-IsResolved dirs parent names ip held go (some next) nz h =
    let held' = drop_one ip (next ∷ held) in
    let (e, counts) = h next held' (next_held ip next held nz) in
    (e, step_counts ip next held (go next held').1 (go next held').0 nz counts)

namex_round-IsResolved :
    (dirs : Dirs) (parent : Bool) (path : Text) (names : List Text) (ip : ℕ) (held : List ℕ)
    (go : Text → ℕ → List ℕ → Named) (r : Option (Text × Text))
    → Taken path names r
    → count ip held ≢ 0
    → ((rest : Text) (others : List Text)
        → Spells rest others
        → length rest < length path
        → (next : ℕ) (held' : List ℕ) → count next held' ≢ 0
        → IsResolved dirs parent others next held' (go rest next held'))
    → IsResolved dirs parent names ip held (namex_round dirs parent ip held go r)
unfolding namex_round resolve
namex_round-IsResolved dirs true path _ ip held go _ none_left nz h = (refl, given_up ip held nz)
namex_round-IsResolved dirs false path _ ip held go _ none_left nz h = (refl, λ j. refl)
namex_round-IsResolved dirs parent path _ ip held go _ (takes {names} word rest s last l) nz h =
    elim (Bool-cases (not (dirs.is_dir ip))) [
      | inl e ↦ rw e (refl, given_up ip held nz)
      | inr e ↦ elim (Bool-cases (parent && no_names names)) [
        | inl q ↦ rw (e, last, q) (refl, λ j. refl)
        | inr q ↦
            rw (e, last, q)
              (namex_step-IsResolved dirs parent names ip held (go rest)
                (dirs.lookup ip (take dirsiz word)) nz (h rest names s l))
      ]
    ]

pub namex_loop-IsResolved :
    (fuel : ℕ) (dirs : Dirs) (parent : Bool) (path : Text) (names : List Text) (ip : ℕ)
    (held : List ℕ)
    → Spells path names
    → length path < fuel
    → count ip held ≢ 0
    → IsResolved dirs parent names ip held (namex_loop fuel dirs parent path ip held)
unfolding namex_loop
namex_loop-IsResolved zero dirs parent path names ip held s enough nz =
    absurd (omega (arith, enough))
namex_loop-IsResolved (suc fuel) dirs parent path names ip held s enough nz =
    namex_round-IsResolved dirs parent path names ip held
      (λ path' next held'. namex_loop fuel dirs parent path' next held') (skipelem path)
      (skipelem-Taken path names s) nz
      (λ rest others s' l next held' nz'.
        namex_loop-IsResolved fuel dirs parent rest others next held' s' (omega (arith, enough, l))
          nz')

abbrev starts_at_root : Text → Bool
starts_at_root [] = false
starts_at_root (c ∷ path) = c == slash

held_now : (ip : ℕ) (held : List ℕ) → count ip (ip ∷ held) ≢ 0
held_now ip held z = absurd (ground arith)

-- `namex` of a path that has these names, with slashes between them and any number of slashes around,
-- where the directories do not change during the call. From the root if the path begins with a slash,
-- and from the working directory otherwise, it returns what the names lead to, each of them cut at 14
-- characters: 0 if an inode on the way is no directory or lacks the name; with nameiparent the
-- directory before the last name, and that name. The caller holds the pointers that it held before,
-- and one more to the inode that is returned, or none more if 0 is.
pub namex-resolve :
    (dirs : Dirs) (parent : Bool) (root cwd : ℕ) (path : Text) (names : List Text) (held : List ℕ)
    → Spells path names
    → ((namex dirs parent root cwd path held).0
        ≡ resolve dirs parent names (if starts_at_root path then root else cwd))
      × ((j : ℕ)
          → count j (namex dirs parent root cwd path held).1
            ≡ count j held + given j (namex dirs parent root cwd path held).0)
unfolding namex
namex-resolve dirs parent root cwd [] names held s =
    let (e, counts) =
      namex_loop-IsResolved 1 dirs parent [] names cwd (cwd ∷ held) s (omega arith)
        (held_now cwd held) in
    (e, λ j. let c = counts j in omega (arith, c))
namex-resolve dirs parent root cwd (c ∷ path) names held s =
    let ip = if c == slash then root else cwd in
    let (e, counts) =
      namex_loop-IsResolved (length (c ∷ path) + 1) dirs parent (c ∷ path) names ip (ip ∷ held) s
        (omega arith) (held_now ip held) in
    (e, λ j. let c' = counts j in omega (arith, c'))
