-- ===== src/Kernel/Path.antt =====
-- kernel/fs.c: path names, skipelem and namex. A string is the list of its characters before the
-- terminating 0. Directories are what `is_dir` and `lookup` say of them: a pointer's type, and the
-- pointer that dirlookup gets for a name; they do not change during a call.
pub mod Elements
pub mod Resolve
mod Tests
use sleep_e_pingpong.Base.{
  ℕ, zero, suc, ◌+◌, Bool, true, false, not, ◌&&◌, List, [], ◌∷◌, Option, none, some, ◌==◌,
  if◌then◌else◌, take, length, drop_one,
}

abbrev pub slash : ℕ
slash = 47

-- `DIRSIZ`
abbrev pub dirsiz : ℕ
dirsiz = 14

abbrev pub Text : Type 0
Text = List ℕ

-- The loops of `skipelem`: past slashes, up to a slash, and what stands before that.
unfoldable pub skip_slashes : Text → Text
skip_slashes [] = []
skip_slashes (c ∷ path) = let rest = skip_slashes path in if c == slash then rest else c ∷ path

unfoldable pub after_elem : Text → Text
after_elem [] = []
after_elem (c ∷ path) = let rest = after_elem path in if c == slash then c ∷ path else rest

unfoldable pub elem_of : Text → Text
elem_of [] = []
elem_of (c ∷ path) = let rest = elem_of path in if c == slash then [] else c ∷ rest

-- `skipelem` after the first slashes: the rest of the path, and the name, cut at DIRSIZ characters.
unfoldable pub take_elem : Text → Option (Text × Text)
unfolding skip_slashes after_elem elem_of
take_elem [] = none
take_elem (c ∷ path) = some (skip_slashes (after_elem (c ∷ path)), take dirsiz (elem_of (c ∷ path)))

unfoldable pub skipelem : Text → Option (Text × Text)
unfolding skip_slashes take_elem
skipelem path = take_elem (skip_slashes path)

-- The directories as namex sees them.
pub record Dirs : Type 0 where
  pub is_dir : ℕ → Bool
  pub lookup : ℕ → Text → Option ℕ

abbrev pub is_last : Text → Bool
is_last [] = true
is_last (c ∷ path) = false

-- What namex returns, 0 or an inode and the name for nameiparent, and the pointers that are held.
abbrev pub Named : Type 0
Named = Option (ℕ × Text) × List ℕ

-- `iunlockput` of the inode, with the result 0.
abbrev pub give_up : ℕ → List ℕ → Named
give_up ip held = (none, drop_one ip held)

-- What dirlookup found in the directory `ip`, with `go` for the rounds that follow. It holds the next
-- inode before `ip` is put.
unfoldable pub namex_step : ℕ → List ℕ → (ℕ → List ℕ → Named) → Option ℕ → Named
namex_step ip held go none = give_up ip held
namex_step ip held go (some next) = go next (drop_one ip (next ∷ held))

-- A round of the loop, by what skipelem returned; `parent` is nameiparent.
unfoldable pub namex_round :
    Dirs → Bool → ℕ → List ℕ → (Text → ℕ → List ℕ → Named) → Option (Text × Text) → Named
unfolding namex_step
namex_round dirs parent ip held go none = if parent then give_up ip held else (some (ip, []), held)
namex_round dirs parent ip held go (some (path, name)) =
    if not (dirs.is_dir ip)
    then give_up ip held
    else if parent && is_last path
    then (some (ip, name), held)
    else namex_step ip held (go path) (dirs.lookup ip name)

unfoldable pub namex_loop : ℕ → Dirs → Bool → Text → ℕ → List ℕ → Named
unfolding skipelem namex_round
namex_loop zero dirs parent path ip held = give_up ip held
namex_loop (suc fuel) dirs parent path ip held =
    namex_round dirs parent ip held
      (λ path' next held'. namex_loop fuel dirs parent path' next held') (skipelem path)

-- `namex` from the root or the working directory, which are pointers to inodes.
unfoldable pub namex : Dirs → Bool → ℕ → ℕ → Text → List ℕ → Named
unfolding namex_loop
namex dirs parent root cwd [] held = namex_loop 1 dirs parent [] cwd (cwd ∷ held)
namex dirs parent root cwd (c ∷ path) held =
    let ip = if c == slash then root else cwd in
    namex_loop (length (c ∷ path) + 1) dirs parent (c ∷ path) ip (ip ∷ held)
