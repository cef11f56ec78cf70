-- ===== src/Kernel/Dinode.antt =====
-- kernel/fs.c: the inodes as they lie on the disk, `struct dinode` of kernel/fs.h: iupdate, ilock and
-- ialloc. There is one disk, and the sleep lock is left out.
pub mod Fields
pub mod Stored
use sleep_e_pingpong.Base.{
  ℕ, zero, suc, ◌+◌, ◌-◌, ◌*◌, ◌/◌, ◌%◌, Bool, true, false, List, [], ◌∷◌, Option, none, some, ltb,
  leb, ◌==◌, if◌then◌else◌, ◌&&◌,
}
use sleep_e_pingpong.Kernel.Fs.{Block, Disk, poke, log_write, Superblock}
use sleep_e_pingpong.Kernel.Inode.{Inode, word, set_word}

-- `IPB`: the inodes of a block.
abbrev pub ipb : ℕ
ipb = 16

-- `IBLOCK(i, sb)`
unfoldable pub iblock : Superblock → ℕ → ℕ
iblock sb i = i / ipb + sb.inodestart

-- Entry `j` of a block that is read as an array of `short`, least byte first, as a number below 2^16.
unfoldable pub half : Block → ℕ → ℕ
half blk j = blk (2 * j) + 256 * blk (2 * j + 1)

unfoldable pub set_half : Block → ℕ → ℕ → Block
unfolding poke
set_half blk j v = poke (poke blk (2 * j) (v % 256)) (2 * j + 1) (v / 256 % 256)

-- The copy of `addrs` to the words from `j` on, and of `n` of them from there.
unfoldable pub put_addrs : Block → ℕ → List ℕ → Block
unfolding set_word
put_addrs blk j [] = blk
put_addrs blk j (a ∷ addrs) = put_addrs (set_word blk j a) (j + 1) addrs

unfoldable pub get_addrs : Block → ℕ → ℕ → List ℕ
unfolding word
get_addrs blk j zero = []
get_addrs blk j (suc n) = word blk j ∷ get_addrs blk (j + 1) n

-- The numbers of a `dinode` before `addrs`, at place `i` of its block.
unfoldable pub put_fields : Block → ℕ → Inode → Block
unfolding set_half set_word
put_fields blk i ip =
    let blk₁ = set_half blk (32 * i) ip.kind in
    let blk₂ = set_half blk₁ (32 * i + 1) ip.major in
    let blk₃ = set_half blk₂ (32 * i + 2) ip.minor in
    let blk₄ = set_half blk₃ (32 * i + 3) ip.nlink in set_word blk₄ (16 * i + 2) ip.size

unfoldable pub iupdate : Superblock → Disk → Inode → Disk
unfolding iblock log_write put_fields put_addrs
iupdate sb d ip =
    let b = iblock sb ip.inum in
    let i = ip.inum % ipb in log_write d b (put_addrs (put_fields (d b) i ip) (16 * i + 3) ip.addrs)

-- The copy that `ilock` makes of the inode on the disk.
unfoldable pub load_inode : Superblock → Disk → Inode → Inode
unfolding iblock half word get_addrs
load_inode sb d ip =
    let blk = d (iblock sb ip.inum) in
    let i = ip.inum % ipb in
    record ip {
      kind = half blk (32 * i);
      major = half blk (32 * i + 1);
      minor = half blk (32 * i + 2);
      nlink = half blk (32 * i + 3);
      size = word blk (16 * i + 2);
      addrs = get_addrs blk (16 * i + 3) 13;
      valid = true;
    }

-- `ilock`; `none` is a panic.
unfoldable pub ilock : Superblock → Disk → Inode → Option Inode
unfolding load_inode
ilock sb d ip =
    let ip' = load_inode sb d ip in
    if ltb ip.ref 1
    then none
    else if ip.valid
    then some ip
    else if ip'.kind == 0
    then none
    else some ip'

-- `memset` of the dinode at place `i` to 0.
unfoldable pub clear_dinode : Block → ℕ → Block
clear_dinode blk i j = if leb (64 * i) j && ltb j (64 * i + 64) then 0 else blk j

-- The loop of `ialloc` from `inum` with `left` numbers to go: the number it takes, or `none`.
unfoldable pub ialloc_loop : Superblock → Disk → ℕ → ℕ → ℕ → Option ℕ × Disk
unfolding iblock half set_half clear_dinode log_write
ialloc_loop sb d kind zero inum = (none, d)
ialloc_loop sb d kind (suc left) inum =
    let rest = ialloc_loop sb d kind left (inum + 1) in
    let b = iblock sb inum in
    let i = inum % ipb in
    if half (d b) (32 * i) == 0
    then (some inum, log_write d b (set_half (clear_dinode (d b) i) (32 * i) kind))
    else rest

-- `ialloc`, up to the call of iget.
unfoldable pub ialloc : Superblock → Disk → ℕ → Option ℕ × Disk
unfolding ialloc_loop
ialloc sb d kind = ialloc_loop sb d kind (sb.ninodes - 1) 1
