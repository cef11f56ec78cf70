-- ===== src/Kernel/Inode.antt =====
-- kernel/fs.c: an inode in memory, its blocks, and reading and writing its content. The caller holds
-- the inode's lock. The device is left out.
pub mod Words
pub mod Tree
pub mod Grow
pub mod Slot
pub mod Bmap
use sleep_e_pingpong.Base.{
  uint_mod, ℕ, zero, suc, ◌+◌, ◌-◌, ◌*◌, ◌/◌, ◌%◌, Bool, true, false, not, ◌&&◌, ◌||◌, List, [],
  ◌∷◌, Option, none, some, ltb, leb, ◌==◌, if◌then◌else◌, get_or, set, min,
}
use sleep_e_pingpong.Kernel.Fs.{bsize, Block, Disk, poke, log_write, Superblock, balloc, bfree}

abbrev pub ndirect : ℕ
ndirect = 12

abbrev pub nindirect : ℕ
nindirect = 256

abbrev pub maxfile : ℕ
maxfile = 268

-- `struct inode` of kernel/file.h, less its lock and device.
pub record Inode : Type 0 where
  pub inum : ℕ
  pub ref : ℕ
  pub valid : Bool
  pub kind : ℕ
  pub major : ℕ
  pub minor : ℕ
  pub nlink : ℕ
  pub size : ℕ
  pub addrs : List ℕ

-- Entry `j` of a block that is read as an array of `uint`, least byte first.
unfoldable pub word : Block → ℕ → ℕ
word blk j =
    blk (4 * j) + 256 * blk (4 * j + 1) + 65536 * blk (4 * j + 2) + 16777216 * blk (4 * j + 3)

unfoldable pub set_word : Block → ℕ → ℕ → Block
unfolding poke
set_word blk j v =
    poke
      (poke (poke (poke blk (4 * j) (v % 256)) (4 * j + 1) (v / 256 % 256)) (4 * j + 2)
        (v / 65536 % 256))
      (4 * j + 3) (v / 16777216 % 256)

-- The result of a call, the inode and the disk after it.
abbrev pub Step : Type 0
Step = ℕ × (Inode × Disk)

-- Slot `i` of `addrs`, filled with a new block if it is empty.
unfoldable pub slot_block : Superblock → Disk → Inode → ℕ → Step
slot_block sb d ip i =
    let addr = get_or ip.addrs i 0 in
    let (new, d') = balloc sb d in
    if addr == 0
    then if new == 0 then (0, (ip, d')) else (new, (record ip { addrs = set ip.addrs i new }, d'))
    else (addr, (ip, d))

-- Entry `bn` of the indirect block `addr`, filled with a new block if it is empty.
unfoldable pub entry_block : Superblock → Disk → Inode → ℕ → ℕ → Step
unfolding word set_word log_write
entry_block sb d ip addr bn =
    let old = word (d addr) bn in
    let (new, d') = balloc sb d in
    if old == 0
    then if new == 0
      then (0, (ip, d'))
      else (new, (ip, log_write d' addr (set_word (d' addr) bn new)))
    else (old, (ip, d))

-- `bmap` past the direct blocks, once slot NDIRECT was filled.
unfoldable pub indirect_block : Superblock → Step → ℕ → Step
unfolding entry_block
indirect_block sb (addr, (ip, d)) bn =
    let rest = entry_block sb d ip addr bn in if addr == 0 then (0, (ip, d)) else rest

-- `bmap`; `none` is the panic on a block number out of range.
unfoldable pub bmap : Superblock → Disk → Inode → ℕ → Option Step
unfolding slot_block indirect_block
bmap sb d ip bn =
    if ltb bn ndirect
    then some (slot_block sb d ip bn)
    else if ltb (bn - ndirect) nindirect
    then some (indirect_block sb (slot_block sb d ip ndirect) (bn - ndirect))
    else none
