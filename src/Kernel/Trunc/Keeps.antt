-- ===== src/Kernel/Trunc/Keeps.antt =====
-- `itrunc` of kernel/fs.c keeps the number and the references of the entry, also where it is not in
-- order.
use sleep_e_pingpong.Base.{
  ℕ, zero, suc, ◌+◌, ◌≡◌, refl, ◌∙◌, inl, inr, Bool-cases, Option, none, some, ◌==◌, get_or,
}
use sleep_e_pingpong.Kernel.Fs.{Disk, Superblock, bfree}
use sleep_e_pingpong.Kernel.Inode.{ndirect, nindirect, Inode}
use sleep_e_pingpong.Kernel.Trunc.{
  then_do, empty_slot, free_slot, free_last, slots_loop, entries_loop, free_index, trunc_index,
  trunc_end, itrunc,
}

abbrev pub Keeps : Inode → Option (Inode × Disk) → Type 0
Keeps ip none = Unit
Keeps ip (some (ip', d')) = (ip'.ref ≡ ip.ref) × (ip'.inum ≡ ip.inum)

empty_slot-Keeps : (ip : Inode) (i : ℕ) (r : Option Disk) → Keeps ip (empty_slot ip i r)
empty_slot-Keeps ip i none = tt
empty_slot-Keeps ip i (some d) = (refl, refl)

free_slot-Keeps : (sb : Superblock) (d : Disk) (ip : Inode) (i : ℕ) → Keeps ip (free_slot sb d ip i)
unfolding free_slot
free_slot-Keeps sb d ip i = elim (Bool-cases (get_or ip.addrs i 0 == 0)) [
  | inl e ↦ rw e (refl, refl)
  | inr e ↦ rw e (empty_slot-Keeps ip i (bfree sb d (get_or ip.addrs i 0)))
]

Keeps-trans :
    (ip ip' : Inode) (r : Option (Inode × Disk))
    → (ip'.ref ≡ ip.ref) × (ip'.inum ≡ ip.inum)
    → Keeps ip' r
    → Keeps ip r
Keeps-trans ip ip' none e k = tt
Keeps-trans ip ip' (some (ip'', d)) e k = (k.0 ∙ e.0, k.1 ∙ e.1)

then_do-Keeps :
    (ip : Inode) (r : Option (Inode × Disk)) (f : Inode → Disk → Option (Inode × Disk))
    → Keeps ip r
    → ((ip' : Inode) (d' : Disk) → Keeps ip' (f ip' d'))
    → Keeps ip (then_do r f)
then_do-Keeps ip none f k h = tt
then_do-Keeps ip (some (ip', d')) f k h = Keeps-trans ip ip' (f ip' d') k (h ip' d')

slots_loop-Keeps :
    (left : ℕ) (sb : Superblock) (d : Disk) (ip : Inode) (i : ℕ)
    → Keeps ip (slots_loop left sb d ip i)
unfolding slots_loop
slots_loop-Keeps zero sb d ip i = (refl, refl)
slots_loop-Keeps (suc left) sb d ip i =
    then_do-Keeps ip (free_slot sb d ip i) (λ ip' d'. slots_loop left sb d' ip' (i + 1))
      (free_slot-Keeps sb d ip i) (λ ip' d'. slots_loop-Keeps left sb d' ip' (i + 1))

free_last-Keeps :
    (sb : Superblock) (ip : Inode) (addr : ℕ) (r : Option Disk) → Keeps ip (free_last sb ip addr r)
unfolding free_last
free_last-Keeps sb ip addr none = tt
free_last-Keeps sb ip addr (some d) = empty_slot-Keeps ip ndirect (bfree sb d addr)

free_index-Keeps : (sb : Superblock) (d : Disk) (ip : Inode) → Keeps ip (free_index sb d ip)
unfolding free_index
free_index-Keeps sb d ip = elim (Bool-cases (get_or ip.addrs ndirect 0 == 0)) [
  | inl e ↦ rw e (refl, refl)
  | inr e ↦ rw e (
      free_last-Keeps sb ip (get_or ip.addrs ndirect 0)
        (entries_loop nindirect sb d (get_or ip.addrs ndirect 0) 0))
]

trunc_index-Keeps :
    (sb : Superblock) (ip : Inode) (r : Option (Inode × Disk))
    → Keeps ip r
    → Keeps ip (trunc_index sb r)
unfolding trunc_index
trunc_index-Keeps sb ip none k = tt
trunc_index-Keeps sb ip (some (ip', d')) k =
    Keeps-trans ip ip' (free_index sb d' ip') k (free_index-Keeps sb d' ip')

trunc_end-Keeps :
    (sb : Superblock) (ip : Inode) (r : Option (Inode × Disk))
    → Keeps ip r
    → Keeps ip (trunc_end sb r)
unfolding trunc_end
trunc_end-Keeps sb ip none k = tt
trunc_end-Keeps sb ip (some (ip', d')) k = k

pub itrunc-Keeps : (sb : Superblock) (d : Disk) (ip : Inode) → Keeps ip (itrunc sb d ip)
unfolding itrunc
itrunc-Keeps sb d ip =
    trunc_end-Keeps sb ip (trunc_index sb (slots_loop ndirect sb d ip 0))
      (trunc_index-Keeps sb ip (slots_loop ndirect sb d ip 0) (slots_loop-Keeps ndirect sb d ip 0))
