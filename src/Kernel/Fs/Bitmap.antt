-- ===== src/Kernel/Fs/Bitmap.antt =====
-- The bitmap of kernel/fs.c: which blocks are free, and which hold data.
use sleep_e_pingpong.Base.{ℕ, ◌%◌, ◌<◌, ◌≡◌, ◌≢◌, Bool, false, ◌==◌, arith}
use sleep_e_pingpong.Kernel.Fs.{bpb, Disk, Superblock, bblock, is_clear}
use sleep_e_pingpong.Kernel.Fs.Bits.{IsBytes}

-- Whether the bitmap says that block `b` is free.
abbrev pub is_free : Superblock → Disk → ℕ → Bool
is_free sb d b = is_clear (d (bblock sb b)) (b % bpb)

-- Every block holds bytes, and the blocks of the bitmap, as block 0, are in use.
pub record IsBitmap (sb : Superblock) (d : Disk) : Type 0 where
  pub bytes : (b : ℕ) → IsBytes (d b)
  pub inside : (b : ℕ) → b < sb.size → bblock sb b < sb.size
  pub own : (b : ℕ) → b < sb.size → is_free sb d (bblock sb b) ≡ false
  pub boot : is_free sb d 0 ≡ false

pub mod_eq :
    (sb : Superblock) (c n : ℕ) → bblock sb c ≡ bblock sb n → ((c % bpb) == (n % bpb)) ≡ (c == n)
unfolding bblock
mod_eq sb c n q = ground arith

-- A block of the disk that holds no bitmap and is not block 0.
pub record IsData (sb : Superblock) (b : ℕ) : Type 0 where
  pub bound : b < sb.size
  pub nonzero : b ≢ 0
  pub no_map : (c : ℕ) → c < sb.size → bblock sb c ≢ b
