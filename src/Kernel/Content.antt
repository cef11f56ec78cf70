-- ===== src/Kernel/Content.antt =====
-- kernel/fs.c: reading and writing the content of an inode. `copyin` and `copyout` stand for
-- either_copyin and either_copyout of kernel/proc.c at the caller's choice of user or kernel memory;
-- `false` is their -1. They return what they have changed also when they fail.
pub mod Bytes
pub mod Read
pub mod Edit
pub mod Write
pub mod Change
pub mod Store
pub mod RoundTrip
use sleep_e_pingpong.Base.{
  uint_mod, ℕ, zero, suc, ◌+◌, ◌-◌, ◌*◌, ◌/◌, ◌%◌, Bool, true, false, ◌||◌, Option, none, some, ltb,
  ◌==◌, if◌then◌else◌, min,
}
use sleep_e_pingpong.Kernel.Fs.{bsize, Block, Disk, log_write, Superblock}
use sleep_e_pingpong.Kernel.Strings.{Mem}
use sleep_e_pingpong.Kernel.Inode.{maxfile, Inode, Step, bmap}
use sleep_e_pingpong.Kernel.Dinode.{iupdate}

-- The copy of `m` bytes at an offset of a block to an address of the memory, and back.
abbrev pub Copyout : Type 0
Copyout = Mem → ℕ → Block → ℕ → ℕ → Bool × Mem

abbrev pub Copyin : Type 0
Copyin = Block → ℕ → ℕ → ℕ → Bool × Block

-- What `readi` returns, where `none` is its -1, and the memory, the inode and the disk after it.
abbrev pub Read : Type 0
Read = Option ℕ × (Mem × (Inode × Disk))

-- The bytes of the block of `off` from there on, at most `left`.
abbrev pub chunk : ℕ → ℕ → ℕ
chunk off left = min left (bsize - off % bsize)

-- The loop of `readi` with `left` bytes to go; the outer `none` is the panic of bmap.
unfoldable pub read_loop :
    ℕ → Copyout → Superblock → Disk → Inode → Mem → ℕ → ℕ → ℕ → ℕ → Option Read
unfolding bmap
read_loop zero copyout sb d ip mem dst off left tot = some (some tot, (mem, (ip, d)))
read_loop (suc fuel) copyout sb d ip mem dst off left tot =
    if left == 0 then some (some tot, (mem, (ip, d))) else elim (bmap sb d ip (off / bsize)) [
      | none ↦ none
      | some (addr, (ip', d')) ↦
          let m = chunk off left in
          let (ok, mem') = copyout mem dst (d' addr) (off % bsize) m in
          let rest =
            read_loop fuel copyout sb d' ip' mem' (dst + m) (off + m) (left - m) (tot + m) in
          if addr == 0
          then some (some tot, (mem, (ip', d')))
          else if ok
          then rest
          else some (none, (mem', (ip', d')))
    ]

-- `readi`; the sums are those of `uint`.
unfoldable pub readi : Copyout → Superblock → Disk → Inode → Mem → ℕ → ℕ → ℕ → Option Read
unfolding read_loop
readi copyout sb d ip mem dst off n =
    let sum = (off + n) % uint_mod in
    let n' = if ltb ip.size sum then ip.size - off else n in
    if ltb ip.size off || ltb sum off
    then some (some 0, (mem, (ip, d)))
    else read_loop n' copyout sb d ip mem dst off n' 0

-- The bytes written, the offset after them, the inode and the disk.
abbrev pub Written : Type 0
Written = ℕ × (ℕ × (Inode × Disk))

-- The loop of `writei` with `left` bytes to go. A copy that fails may have changed the buffer, which is
-- not logged then; `d` holds what the buffers hold.
unfoldable pub write_loop : ℕ → Copyin → Superblock → Disk → Inode → ℕ → ℕ → ℕ → ℕ → Option Written
unfolding bmap log_write
write_loop zero copyin sb d ip src off left tot = some (tot, (off, (ip, d)))
write_loop (suc fuel) copyin sb d ip src off left tot =
    if left == 0 then some (tot, (off, (ip, d))) else elim (bmap sb d ip (off / bsize)) [
      | none ↦ none
      | some (addr, (ip', d')) ↦
          let m = chunk off left in
          let (ok, blk) = copyin (d' addr) (off % bsize) src m in
          let d'' = log_write d' addr blk in
          let rest = write_loop fuel copyin sb d'' ip' (src + m) (off + m) (left - m) (tot + m) in
          if addr == 0
          then some (tot, (off, (ip', d')))
          else if ok
          then rest
          else some (tot, (off, (ip', d'')))
    ]

-- The end of `writei`: the size, and `iupdate`.
unfoldable pub write_end : Superblock → Option Written → Option (Option ℕ × (Inode × Disk))
unfolding iupdate
write_end sb none = none
write_end sb (some (tot, (off, (ip, d)))) =
    let ip' = record ip { size = if ltb ip.size off then off else ip.size } in
    some (some tot, (ip', iupdate sb d ip'))

-- `writei`; the inner `none` is its -1.
unfoldable pub writei :
    Copyin → Superblock → Disk → Inode → ℕ → ℕ → ℕ → Option (Option ℕ × (Inode × Disk))
unfolding write_loop write_end
writei copyin sb d ip src off n =
    let sum = (off + n) % uint_mod in
    if ltb ip.size off || ltb sum off || ltb (maxfile * bsize) sum
    then some (none, (ip, d))
    else write_end sb (write_loop n copyin sb d ip src off n 0)
