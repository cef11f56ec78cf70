-- ===== src/Kernel/Trunc.antt =====
-- `itrunc` of kernel/fs.c: the content of an inode is discarded.
pub mod Release
pub mod Slots
pub mod Index
pub mod Whole
pub mod Keeps
use sleep_e_pingpong.Base.{ℕ, zero, suc, ◌+◌, Option, none, some, ◌==◌, if◌then◌else◌, get_or, set}
use sleep_e_pingpong.Kernel.Fs.{Disk, Superblock, bfree}
use sleep_e_pingpong.Kernel.Inode.{ndirect, nindirect, Inode, word}
use sleep_e_pingpong.Kernel.Dinode.{iupdate}

-- `bfree` of a block number, if it is not 0.
unfoldable pub free_block : Superblock → Disk → ℕ → Option Disk
unfolding bfree
free_block sb d addr = if addr == 0 then some d else bfree sb d addr

-- A slot of `addrs` after its block was freed; `none` is the panic of bfree.
abbrev pub empty_slot : Inode → ℕ → Option Disk → Option (Inode × Disk)
empty_slot ip i none = none
empty_slot ip i (some d) = some (record ip { addrs = set ip.addrs i 0 }, d)

unfoldable pub free_slot : Superblock → Disk → Inode → ℕ → Option (Inode × Disk)
unfolding bfree
free_slot sb d ip i =
    let addr = get_or ip.addrs i 0 in
    if addr == 0 then some (ip, d) else empty_slot ip i (bfree sb d addr)

abbrev pub then_do :
    Option (Inode × Disk) → (Inode → Disk → Option (Inode × Disk)) → Option (Inode × Disk)
then_do none f = none
then_do (some (ip, d)) f = f ip d

-- The loop over the direct blocks from `i` on, with `left` of them to go.
unfoldable pub slots_loop : ℕ → Superblock → Disk → Inode → ℕ → Option (Inode × Disk)
unfolding free_slot
slots_loop zero sb d ip i = some (ip, d)
slots_loop (suc left) sb d ip i =
    then_do (free_slot sb d ip i) (λ ip' d'. slots_loop left sb d' ip' (i + 1))

-- The loop over the entries of the indirect block `addr`.
unfoldable pub entries_loop : ℕ → Superblock → Disk → ℕ → ℕ → Option Disk
unfolding free_block word
entries_loop zero sb d addr j = some d
entries_loop (suc left) sb d addr j = elim (free_block sb d (word (d addr) j)) [
  | none ↦ none
  | some d' ↦ entries_loop left sb d' addr (j + 1)
]

-- The indirect block `addr` itself, after its entries.
unfoldable pub free_last : Superblock → Inode → ℕ → Option Disk → Option (Inode × Disk)
unfolding bfree
free_last sb ip addr none = none
free_last sb ip addr (some d) = empty_slot ip ndirect (bfree sb d addr)

unfoldable pub free_index : Superblock → Disk → Inode → Option (Inode × Disk)
unfolding free_last
free_index sb d ip =
    let addr = get_or ip.addrs ndirect 0 in
    let rest = free_last sb ip addr (entries_loop nindirect sb d addr 0) in
    if addr == 0 then some (ip, d) else rest

-- The part of `itrunc` after the first loop, and its end.
unfoldable pub trunc_index : Superblock → Option (Inode × Disk) → Option (Inode × Disk)
trunc_index sb none = none
trunc_index sb (some (ip, d)) = free_index sb d ip

unfoldable pub trunc_end : Superblock → Option (Inode × Disk) → Option (Inode × Disk)
unfolding iupdate
trunc_end sb none = none
trunc_end sb (some (ip, d)) =
    let ip' : Inode = record ip { size = 0 } in some (ip', iupdate sb d ip')

unfoldable pub itrunc : Superblock → Disk → Inode → Option (Inode × Disk)
unfolding trunc_index trunc_end
itrunc sb d ip = trunc_end sb (trunc_index sb (slots_loop ndirect sb d ip 0))
