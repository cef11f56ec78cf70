-- ===== src/Kernel/Fs.antt =====
-- kernel/fs.c: blocks, and the bitmap of the blocks in use. `d b` is what
-- `bread` returns for block `b`, and `log_write` after a change is a change of `d`. A block is a
-- function from offsets to bytes.
pub mod Bits
pub mod Bitmap
pub mod Balloc
pub mod Bfree
use Prim.Native.Nat.{bit_and, bit_or}
use sleep_e_pingpong.Base.{
  uint_mod, ℕ, zero, suc, ◌+◌, ◌-◌, ◌*◌, ◌/◌, ◌%◌, ◌^◌, Bool, true, false, not, ◌&&◌, List, [], ◌∷◌,
  Option, none, some, ltb, leb, ◌==◌, if◌then◌else◌,
}

abbrev pub bsize : ℕ
bsize = 1024

-- `BPB`: the bits of a bitmap block.
abbrev pub bpb : ℕ
bpb = 8192

abbrev pub Block : Type 0
Block = ℕ → ℕ

abbrev pub Disk : Type 0
Disk = ℕ → Block

unfoldable pub poke : Block → ℕ → ℕ → Block
poke blk i v j = if j == i then v else blk j

-- `log_write` of block `b` with new contents.
unfoldable pub log_write : Disk → ℕ → Block → Disk
log_write d b blk c = if c == b then blk else d c

-- `struct superblock`, the fields that are used here.
pub record Superblock : Type 0 where
  pub size : ℕ
  pub ninodes : ℕ
  pub inodestart : ℕ
  pub bmapstart : ℕ

-- `BBLOCK(b, sb)`
unfoldable pub bblock : Superblock → ℕ → ℕ
bblock sb b = b / bpb + sb.bmapstart

unfoldable pub bzero : Disk → ℕ → Disk
unfolding log_write
bzero d bno = log_write d bno (λ _. 0)

-- The bit `1 << (bi % 8)` of byte `bi / 8`: whether it is clear, its setting and its clearing. `~m` on
-- a byte is `255 - m`.
unfoldable pub is_clear : Block → ℕ → Bool
is_clear blk bi = bit_and (blk (bi / 8)) (2 ^ (bi % 8)) == 0

unfoldable pub set_bit : Block → ℕ → Block
unfolding poke
set_bit blk bi = poke blk (bi / 8) (bit_or (blk (bi / 8)) (2 ^ (bi % 8)))

unfoldable pub clear_bit : Block → ℕ → Block
unfolding poke
clear_bit blk bi = poke blk (bi / 8) (bit_and (blk (bi / 8)) (255 - 2 ^ (bi % 8)))

-- The inner loop of `balloc` over block `blk` of the bitmap, from bit `bi` with `left` bits to go.
unfoldable pub scan_bits : Superblock → Block → ℕ → ℕ → ℕ → Option ℕ
unfolding is_clear
scan_bits sb blk b zero bi = none
scan_bits sb blk b (suc left) bi =
    let rest = scan_bits sb blk b left (bi + 1) in
    if ltb (b + bi) sb.size then (if is_clear blk bi then some bi else rest) else none

-- What `balloc` does with the bit that it found.
unfoldable pub take_block : Superblock → Disk → ℕ → ℕ → ℕ × Disk
unfolding bzero log_write set_bit bblock
take_block sb d b bi =
    (b + bi, bzero (log_write d (bblock sb b) (set_bit (d (bblock sb b)) bi)) (b + bi))

-- The outer loop, with `rounds` blocks of the bitmap to go.
unfoldable pub balloc_loop : Superblock → Disk → ℕ → ℕ → ℕ × Disk
unfolding take_block bblock
balloc_loop sb d zero b = (0, d)
balloc_loop sb d (suc rounds) b =
    let rest = balloc_loop sb d rounds (b + bpb) in
    if ltb b sb.size
    then elim (scan_bits sb (d (bblock sb b)) b bpb 0) [
      | none ↦ rest
      | some bi ↦ take_block sb d b bi
    ]
    else (0, d)

-- `balloc`: the number of the block, or 0.
unfoldable pub balloc : Superblock → Disk → ℕ × Disk
unfolding balloc_loop
balloc sb d = balloc_loop sb d (sb.size / bpb + 1) 0

-- `bfree`; `none` is the panic on a free block.
unfoldable pub bfree : Superblock → Disk → ℕ → Option Disk
unfolding bblock is_clear clear_bit log_write
bfree sb d b =
    let blk = d (bblock sb b) in
    if is_clear blk (b % bpb)
    then none
    else some (log_write d (bblock sb b) (clear_bit blk (b % bpb)))
