-- ===== src/Kernel/Content/Bytes.antt =====
-- The content of an inode of kernel/fs.c as bytes, and the copies that it is read and written with.
use sleep_e_pingpong.Base.{
  ℕ, ◌+◌, ◌-◌, ◌/◌, ◌%◌, ◌≤◌, ◌<◌, ◌≡◌, refl, ap, ◌∙◌, ◌≢◌, inl, inr, Bool, Bool-cases, true, ◌&&◌,
  ltb, leb, ◌==◌, if◌then◌else◌, arith, ne→==,
}
use sleep_e_pingpong.Kernel.Fs.{bsize, Block, Disk, Superblock}
use sleep_e_pingpong.Kernel.Strings.{Mem}
use sleep_e_pingpong.Kernel.Inode.{maxfile, Inode}
use sleep_e_pingpong.Kernel.Inode.Tree.{mapped}
use sleep_e_pingpong.Kernel.Inode.Grow.{is_zero, not_zero, Grows}
use sleep_e_pingpong.Kernel.Content.{Copyout, Copyin, chunk}

-- The bytes that a file can have.
abbrev pub max_bytes : ℕ
max_bytes = 274432

-- The byte at offset `o`; a block that is not there is one of zeros.
abbrev pub content : Disk → Inode → ℕ → ℕ
content d ip o = if mapped d ip (o / bsize) == 0 then 0 else d (mapped d ip (o / bsize)) (o % bsize)

-- Whether `a` is one of the `n` numbers from `lo` on.
abbrev pub within : ℕ → ℕ → ℕ → Bool
within lo n a = leb lo a && ltb a (lo + n)

-- Copies to and from the addresses from `lo` to `hi` do not fail, and copy those bytes only.
pub record CopiesOut (copyout : Copyout) (lo hi : ℕ) : Type 0 where
  pub succeeds :
      (mem : Mem) (dst : ℕ) (blk : Block) (i m : ℕ)
      → lo ≤ dst
      → dst + m ≤ hi
      → (copyout mem dst blk i m).0 ≡ true
  pub copies :
      (mem : Mem) (dst : ℕ) (blk : Block) (i m : ℕ)
      → lo ≤ dst
      → dst + m ≤ hi
      → (a : ℕ)
      → (copyout mem dst blk i m).1 a ≡ (if within dst m a then blk (i + (a - dst)) else mem a)

pub record CopiesIn (copyin : Copyin) (bytes : Mem) (lo hi : ℕ) : Type 0 where
  pub succeeds :
      (blk : Block) (i src m : ℕ) → lo ≤ src → src + m ≤ hi → (copyin blk i src m).0 ≡ true
  pub copies :
      (blk : Block) (i src m : ℕ)
      → lo ≤ src
      → src + m ≤ hi
      → (j : ℕ) → (copyin blk i src m).1 j ≡ (if within i m j then bytes (src + (j - i)) else blk j)

pub content_at :
    (d : Disk) (ip : Inode) (o b i : ℕ)
    → o / bsize ≡ b
    → o % bsize ≡ i
    → content d ip o ≡ (if mapped d ip b == 0 then 0 else d (mapped d ip b) i)
content_at d ip o b i e e' = rw (e, e') refl

-- A byte of the part that one round of the loops copies.
pub content-chunk :
    (d : Disk) (ip : Inode) (off left j : ℕ)
    → j < chunk off left
    → mapped d ip (off / bsize) ≢ 0
    → content d ip (off + j) ≡ d (mapped d ip (off / bsize)) (off % bsize + j)
content-chunk d ip off left j h nz =
    let some_block = ne→== (mapped d ip (off / bsize)) 0 nz in
    content_at d ip (off + j) (off / bsize) (off % bsize + j) (ground arith) (ground arith)
    ∙ (rw some_block refl)

-- A new block changes no byte of the content.
pub Grows-content :
    (sb : Superblock) (d d' : Disk) (ip ip' : Inode)
    → Grows sb d ip d' ip'
    → (o : ℕ) → o < max_bytes
    → content d' ip' o ≡ content d ip o
Grows-content sb d d' ip ip' g o h =
    let b = o / bsize in
    let lt : b < maxfile = omega (arith, h) in
    elim (Bool-cases (mapped d ip b == 0)) [
      | inl e ↦ elim (Bool-cases (mapped d' ip' b == 0)) [
        | inl e' ↦ rw (e, e') refl
        | inr e' ↦ rw (e, e') (g.fresh b lt (is_zero _ e) (not_zero _ e') (o % bsize))
      ]
      | inr e ↦
          let nz = not_zero _ e in
          rw (g.kept b lt nz, e) (ap (λ (blk : Block). blk (o % bsize)) (g.same b lt nz))
    ]
