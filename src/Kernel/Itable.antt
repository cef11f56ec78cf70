-- ===== src/Kernel/Itable.antt =====
-- The table of inodes in memory of kernel/fs.c: iinit, iget, idup and iput. A pointer to an inode is
-- its index in the table; there is one device. The int `ref` is a natural number: it counts the
-- pointers that the kernel holds, which are far fewer than the largest int.
pub mod Find
pub mod Refs
pub mod Calls
use sleep_e_pingpong.Base.{
  ℕ, zero, suc, ◌+◌, ◌-◌, Bool, true, false, ◌&&◌, List, [], ◌∷◌, Option, none, some, ltb, ◌==◌,
  if◌then◌else◌, get_or, set, replicate,
}
use sleep_e_pingpong.Kernel.Fs.{Disk, Superblock}
use sleep_e_pingpong.Kernel.Inode.{Inode}
use sleep_e_pingpong.Kernel.Dinode.{iupdate}
use sleep_e_pingpong.Kernel.Trunc.{itrunc}

-- `NINODE`
abbrev pub ninode : ℕ
ninode = 50

-- An entry as it is at boot.
abbrev pub free_inode : Inode
free_inode = record {
  inum = 0;
  ref = 0;
  valid = false;
  kind = 0;
  major = 0;
  minor = 0;
  nlink = 0;
  size = 0;
  addrs = replicate 13 0;
}

abbrev pub boot_inodes : List Inode
boot_inodes = replicate ninode free_inode

-- Entry `i`; the callers keep `i` within the table.
abbrev pub entry : List Inode → ℕ → Inode
entry t i = get_or t i free_inode

-- What the loop of `iget` ends with: the entry of that number, or the empty slot that it remembers.
pub data Search : Type 0 where
  hit : ℕ → Search
  miss : Option ℕ → Search

abbrev pub remember : Option ℕ → Inode → ℕ → Option ℕ
remember (some e) ip i = some e
remember none ip i = if ip.ref == 0 then some i else none

-- The loop of `iget` over the entries from `i` on.
unfoldable pub find_inode : List Inode → ℕ → ℕ → Option ℕ → Search
find_inode [] inum i empty = miss empty
find_inode (ip ∷ t) inum i empty =
    let rest = find_inode t inum (i + 1) (remember empty ip i) in
    if ltb 0 ip.ref && (ip.inum == inum) then hit i else rest

-- What `iget` does with what it found; `none` is the panic.
unfoldable pub get_found : List Inode → ℕ → Search → Option (ℕ × List Inode)
get_found t inum (hit i) = let ip = entry t i in some (i, set t i (record ip { ref = ip.ref + 1 }))
get_found t inum (miss none) = none
get_found t inum (miss (some i)) =
    let ip = entry t i in some (i, set t i (record ip { inum = inum; ref = 1; valid = false }))

unfoldable pub iget : List Inode → ℕ → Option (ℕ × List Inode)
unfolding find_inode get_found
iget t inum = get_found t inum (find_inode t inum 0 none)

unfoldable pub idup : List Inode → ℕ → List Inode
idup t i = let ip = entry t i in set t i (record ip { ref = ip.ref + 1 })

-- The inode that has no links is truncated and freed.
unfoldable pub drop_inode : Superblock → Option (Inode × Disk) → Option (Inode × Disk)
unfolding iupdate
drop_inode sb none = none
drop_inode sb (some (ip, d)) =
    let ip' : Inode = record ip { kind = 0 } in
    some (record ip' { valid = false }, iupdate sb d ip')

-- The end of `iput`: one reference less.
unfoldable pub drop_ref : List Inode → ℕ → Option (Inode × Disk) → Option (List Inode × Disk)
drop_ref t i none = none
drop_ref t i (some (ip, d)) = some (set t i (record ip { ref = ip.ref - 1 }), d)

-- `iput`; `none` is a panic of itrunc.
unfoldable pub iput : Superblock → Disk → List Inode → ℕ → Option (List Inode × Disk)
unfolding drop_ref drop_inode
iput sb d t i =
    let ip = entry t i in
    if (ip.ref == 1) && ip.valid && (ip.nlink == 0)
    then drop_ref t i (drop_inode sb (itrunc sb d ip))
    else drop_ref t i (some (ip, d))
