-- ===== src/Kernel/Content/RoundTrip.antt =====
-- `writei` and `readi` of kernel/fs.c: what was written is what is read.
use sleep_e_pingpong.Base.{
  ℕ, ◌+◌, ◌-◌, ◌/◌, ◌≤◌, ◌<◌, ◌≡◌, refl, sym, ap, ◌∙◌, inl, inr, Bool-cases, true, false, some, ltb,
  if◌then◌else◌, min, arith,
}
use sleep_e_pingpong.Kernel.Fs.{bsize, Disk, Superblock}
use sleep_e_pingpong.Kernel.Strings.{Mem}
use sleep_e_pingpong.Kernel.Inode.{Inode}
use sleep_e_pingpong.Kernel.Inode.Tree.{IsUsed, IsOther}
use sleep_e_pingpong.Kernel.Inode.Grow.{IsInode}
use sleep_e_pingpong.Kernel.Dinode.{iblock}
use sleep_e_pingpong.Kernel.Dinode.Stored.{IsNarrow}
use sleep_e_pingpong.Kernel.Content.{Copyin, Copyout, readi, writei}
use sleep_e_pingpong.Kernel.Content.Bytes.{max_bytes, within, CopiesIn, CopiesOut}
use sleep_e_pingpong.Kernel.Content.Read.{Reads, readi-Reads}
use sleep_e_pingpong.Kernel.Content.Store.{WriteRun, writei-WriteRun}

-- Reading back, by what the two calls have done.
module _ (sb : Superblock) (d d₁ d₂ : Disk) (ip ip₁ ip₂ : Inode) (bytes mem mem' : Mem)
    (off src dst n k r : ℕ) (w : WriteRun sb d ip bytes off src n k ip₁ d₁)
    (fits : off + n ≤ max_bytes)
    (reads : Reads sb d₁ ip₁ mem dst off (min k (ip₁.size - off)) r mem' ip₂ d₂) where
  size_after : ip₁.size ≡ (if ltb ip.size (off + k) then off + k else ip.size)
  size_after = ap (λ (x : Inode). x.size) w.rest

  in_size : min k (ip₁.size - off) ≡ k
  in_size = let e = size_after in ground arith

  reads_all : r ≡ k
  reads_all =
      let bound = reads.bound in
      let total = in_size in
      let k_le = w.bound in
      elim (Bool-cases (ltb r k)) [
        | inl l ↦
            let lt : r < k = ground arith in
            let here : within off k (off + r) ≡ true = ground arith in
            let old = w.present (off + r) (omega (arith, lt, k_le, fits)) here in
            absurd (
              old (
                sym (reads.grows.kept ((off + r) / bsize) (omega (arith, lt, k_le, fits)) old)
                ∙ reads.missing (omega (arith, lt, total))))
        | inr l ↦ ground arith
      ]

  read_back : (a : ℕ) → mem' a ≡ (if within dst k a then bytes (src + (a - dst)) else mem a)
  read_back a =
      let k_le = w.bound in
      elim (Bool-cases (within dst k a)) [
        | inl h ↦
            let h' : within dst r a ≡ true = rw reads_all h in
            let near : off + (a - dst) < max_bytes = ground arith in
            let there : within off k (off + (a - dst)) ≡ true = ground arith in
            let place : (off + (a - dst)) - off ≡ a - dst = omega arith in
            reads.bytes a ∙ (rw (h', h) (w.holds (off + (a - dst)) near ∙ (rw (there, place) refl)))
        | inr h ↦
            let h' : within dst r a ≡ false = rw reads_all h in reads.bytes a ∙ (rw (h', h) refl)
      ]

CopiesOut-shorter :
    (copyout : Copyout) (lo hi hi' : ℕ)
    → hi' ≤ hi
    → CopiesOut copyout lo hi
    → CopiesOut copyout lo hi'
CopiesOut-shorter copyout lo hi hi' le out = record {
  succeeds = λ mem dst blk i m h h'. out.succeeds mem dst blk i m h (omega (arith, h', le));
  copies = λ mem dst blk i m h h'. out.copies mem dst blk i m h (omega (arith, h', le));
}

read_written :
    (copyout : Copyout) (sb : Superblock) (d d₁ : Disk) (ip ip₁ : Inode) (bytes mem : Mem)
    (off src dst n k : ℕ)
    → WriteRun sb d ip bytes off src n k ip₁ d₁
    → CopiesOut copyout dst (dst + n)
    → ip.size ≤ max_bytes
    → off + n ≤ max_bytes
    → (mem' : Mem) × (ip₂ : Inode) × (d₂ : Disk) × (readi copyout sb d₁ ip₁ mem dst off k
        ≡ some (some k, (mem', (ip₂, d₂))))
      × ((a : ℕ) → mem' a ≡ (if within dst k a then bytes (src + (a - dst)) else mem a))
read_written copyout sb d d₁ ip ip₁ bytes mem off src dst n k w out size fits =
    let size_eq : ip₁.size ≡ (if ltb ip.size (off + k) then off + k else ip.size) =
      ap (λ (x : Inode). x.size) w.rest in
    let k_le = w.bound in
    let size_small : ip₁.size ≤ max_bytes = ground arith in
    let out' = CopiesOut-shorter copyout dst (dst + n) (dst + k) (omega (arith, k_le)) out in
    let (r, mem', ip₂, d₂, e, reads) =
      readi-Reads copyout sb d₁ ip₁ mem dst off k out' w.good size_small
        (omega (arith, k_le, fits)) in
    let all = reads_all sb d d₁ d₂ ip ip₁ ip₂ bytes mem mem' off src dst n k r w fits reads in
    (
      mem',
      ip₂,
      d₂,
      e ∙ ap (λ t. some (some t, (mem', (ip₂, d₂)))) all,
      read_back sb d d₁ d₂ ip ip₁ ip₂ bytes mem mem' off src dst n k r w fits reads,
    )

-- `readi` after `writei` gets back what was written. For an inode that owns its blocks, from an offset
-- within the file or at its end, with the end of what is written in range, a source of bytes that can
-- be read, a destination that can be written and an inode stored outside its own blocks: `writei`
-- returns some number `k`, and `readi` of `k` bytes from the same offset of the inode and the disk it
-- left returns `k`, with the source's bytes at the destination and every other address as it was.
pub readi-writei :
    (copyin : Copyin) (copyout : Copyout) (sb : Superblock) (d : Disk) (ip : Inode)
    (bytes mem : Mem) (off src dst n : ℕ)
    → CopiesIn copyin bytes src (src + n)
    → CopiesOut copyout dst (dst + n)
    → ((a : ℕ) → bytes a < 256)
    → IsInode sb d ip
    → IsNarrow ip
    → IsUsed sb d (iblock sb ip.inum)
    → IsOther d ip (iblock sb ip.inum)
    → ip.size ≤ max_bytes
    → off ≤ ip.size
    → off + n ≤ max_bytes
    → (k : ℕ) × (ip₁ : Inode) × (d₁ : Disk) × (mem' : Mem) × (ip₂ : Inode) × (d₂ : Disk) × (writei
          copyin sb d ip src off n
        ≡ some (some k, (ip₁, d₁)))
      × (readi copyout sb d₁ ip₁ mem dst off k ≡ some (some k, (mem', (ip₂, d₂))))
      × ((a : ℕ) → mem' a ≡ (if within dst k a then bytes (src + (a - dst)) else mem a))
readi-writei copyin copyout sb d ip bytes mem off src dst n into out is_bytes g narrow used other
      size inside fits =
    let (k, ip₁, d₁, e, w) =
      writei-WriteRun copyin sb d ip bytes off src n into is_bytes g narrow used other size inside
        fits in
    let (mem', ip₂, d₂, e', back) =
      read_written copyout sb d d₁ ip ip₁ bytes mem off src dst n k w out size fits in
    (k, ip₁, d₁, mem', ip₂, d₂, e, e', back)
