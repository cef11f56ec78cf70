-- ===== src/Kernel/Directory.antt =====
-- kernel/fs.c: the content of a directory, namecmp and dirlookup up to the call of iget.
pub mod Entries
pub mod Lookup
use sleep_e_pingpong.Base.{
  ℕ, zero, suc, ◌+◌, ◌-◌, ◌*◌, Bool, true, false, ◌&&◌, Option, none, some, ltb, leb, ◌==◌,
  if◌then◌else◌,
}
use sleep_e_pingpong.Kernel.Fs.{Disk, Superblock}
use sleep_e_pingpong.Kernel.Strings.{Mem}
use sleep_e_pingpong.Kernel.Inode.{Inode}
use sleep_e_pingpong.Kernel.Content.{Copyout, Read, readi}

-- `sizeof(struct dirent)`, and DIRSIZ.
abbrev pub dirent_size : ℕ
dirent_size = 16

abbrev pub name_size : ℕ
name_size = 14

-- `T_DIR`
abbrev pub t_dir : ℕ
t_dir = 1

-- either_copyout to the kernel's memory.
abbrev pub kernel_copyout : Copyout
kernel_copyout mem dst blk i m =
    (true, λ a. if leb dst a && ltb a (dst + m) then blk (i + (a - dst)) else mem a)

-- Whether strncmp of at most `n` characters at `p` and at `q` is 0.
unfoldable pub same_name : ℕ → Mem → ℕ → Mem → ℕ → Bool
same_name zero s p t q = true
same_name (suc n) s p t q =
    let rest = same_name n s (p + 1) t (q + 1) in
    if s p == 0 then t q == 0 else if s p == t q then rest else false

-- The struct dirent that was read to address 0: its `inum`, least byte first, and its name.
unfoldable pub dirent_inum : Mem → ℕ
dirent_inum de = de 0 + 256 * de 1

-- The inode number and the offset of an entry, if there is one, with the inode and the disk after the
-- reads; the outer `none` is a panic.
abbrev pub Looked : Type 0
Looked = Option (Option (ℕ × ℕ) × (Inode × Disk))

-- A round of the loop, by what readi returned, with `go` for the rounds that follow.
unfoldable pub lookup_round : Mem → ℕ → (Disk → Inode → Looked) → Option Read → Looked
unfolding dirent_inum same_name
lookup_round name off go none = none
lookup_round name off go (some (none, rest)) = none
lookup_round name off go (some (some k, (de, (dp, d)))) =
    let rest = go d dp in
    if k == dirent_size
    then if dirent_inum de == 0
      then rest
      else if same_name name_size name 0 de 2
      then some (some (dirent_inum de, off), (dp, d))
      else rest
    else none

-- The loop from `off` on, for the name at address 0 of `name`; `mem` is what `de` holds before.
unfoldable pub lookup_loop : ℕ → Superblock → Mem → Mem → Disk → Inode → ℕ → Looked
unfolding lookup_round
lookup_loop zero sb name mem d dp off = some (none, (dp, d))
lookup_loop (suc fuel) sb name mem d dp off =
    let rest =
      lookup_round name off (λ d' dp'. lookup_loop fuel sb name mem d' dp' (off + dirent_size))
        (readi kernel_copyout sb d dp mem 0 off dirent_size) in
    if ltb off dp.size then rest else some (none, (dp, d))

unfoldable pub dirlookup : Superblock → Mem → Mem → Disk → Inode → Looked
unfolding lookup_loop
dirlookup sb name mem d dp =
    if dp.kind == t_dir then lookup_loop (dp.size + 1) sb name mem d dp 0 else none
