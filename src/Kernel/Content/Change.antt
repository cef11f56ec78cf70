-- ===== src/Kernel/Content/Change.antt =====
-- A change of the inode's own place on the disk leaves its blocks and its content, in kernel/fs.c.
use mathlib.Core.Path.{subst}
use sleep_e_pingpong.Base.{
  ℕ, suc, ◌/◌, ◌%◌, ◌<◌, ◌≡◌, refl, sym, ap, ◌∙◌, ◌≢◌, inl, inr, Bool-cases, List, [], ◌∷◌, ◌==◌,
  get_or, length, All, arith,
}
use sleep_e_pingpong.Kernel.Fs.{bsize, Block, Disk, Superblock, bblock}
use sleep_e_pingpong.Kernel.Fs.Bits.{IsBytes}
use sleep_e_pingpong.Kernel.Inode.{Inode}
use sleep_e_pingpong.Kernel.Inode.Tree.{root, mapped, IsUsed, IsOther, Owns}
use sleep_e_pingpong.Kernel.Inode.Grow.{IsInode}
use sleep_e_pingpong.Kernel.Inode.Slot.{mapped_same}
use sleep_e_pingpong.Kernel.Content.Bytes.{max_bytes, content}
use sleep_e_pingpong.Kernel.Content.Edit.{frees_same, IsBitmap-same, Owns-same}

-- A change of a block that is not the inode's, nor the bitmap's.
module _ (sb : Superblock) (d d' : Disk) (ip ip' : Inode) (c : ℕ) (g : IsInode sb d ip)
    (used : IsUsed sb d c) (other : IsOther d ip c) (kept : (b : ℕ) → b ≢ c → d' b ≡ d b)
    (bytes : (b : ℕ) → IsBytes (d' b)) (same_addrs : ip'.addrs ≡ ip.addrs) where
  same_root : root ip' ≡ root ip
  same_root = rw same_addrs refl

  pub change_mapped : (bn : ℕ) → mapped d' ip' bn ≡ mapped d ip bn
  change_mapped bn =
      mapped_same sb d d' ip ip' bn (rw same_addrs refl) same_root (λ _. kept (root ip) other.1)

  map_kept : (b : ℕ) → b < sb.size → d' (bblock sb b) ≡ d (bblock sb b)
  map_kept b h = kept (bblock sb b) (used.0.no_map b h)

  pub change-IsInode : IsInode sb d' ip'
  change-IsInode = record {
    fits = g.fits;
    bitmap = IsBitmap-same sb d d' (omega (arith, used.0.bound)) map_kept bytes g.bitmap;
    slots = ap length same_addrs ∙ g.slots;
    owns = subst (Owns sb d' (mapped d' ip')) (sym same_root) (
        Owns-same sb d d' (mapped d ip) (mapped d' ip') (root ip) (frees_same sb d d' map_kept)
          change_mapped g.owns);
  }

  pub change_content : (o : ℕ) → o < max_bytes → content d' ip' o ≡ content d ip o
  change_content o h =
      rw (change_mapped (o / bsize)) (elim (Bool-cases (mapped d ip (o / bsize) == 0)) [
        | inl z ↦ rw z refl
        | inr z ↦ rw z (
            ap (λ (blk : Block). blk (o % bsize))
              (kept (mapped d ip (o / bsize)) (other.0 (o / bsize) (omega (arith, h)))))
      ])

pub All-each :
    (P : ℕ → Type 0) (xs : List ℕ) → ((i : ℕ) → i < length xs → P (get_or xs i 0)) → All P xs
All-each P [] = λ h. tt
All-each P (x ∷ xs) = λ h. (h 0 (omega arith), All-each P xs (λ i l. h (suc i) (omega (arith, l))))
