-- ===== src/Kernel/Content/Read.antt =====
-- `readi` of kernel/fs.c: how much it reads, and which bytes.
use mathlib.Core.Path.{subst}
use sleep_e_pingpong.Base.{
  uint_mod, ℕ, zero, suc, ◌+◌, ◌-◌, ◌/◌, ◌%◌, ◌≤◌, ◌<◌, ◌≡◌, refl, sym, ap, ◌∙◌, ◌≢◌, inl, inr,
  Bool-cases, true, false, Option, some, ltb, ◌==◌, if◌then◌else◌, min, arith,
}
use sleep_e_pingpong.Kernel.Fs.{bsize, Disk, Superblock}
use sleep_e_pingpong.Kernel.Fs.Bitmap.{is_free}
use sleep_e_pingpong.Kernel.Strings.{Mem}
use sleep_e_pingpong.Kernel.Inode.{Inode}
use sleep_e_pingpong.Kernel.Inode.Tree.{mapped}
use sleep_e_pingpong.Kernel.Inode.Grow.{not_zero, is_zero, IsInode, Grows, Grows-refl, Grows-trans}
use sleep_e_pingpong.Kernel.Inode.Slot.{Gives}
use sleep_e_pingpong.Kernel.Inode.Bmap.{bmap-Gives}
use sleep_e_pingpong.Kernel.Content.{Copyout, Read, chunk, read_loop, readi}
use sleep_e_pingpong.Kernel.Content.Bytes.{
  max_bytes, content, within, CopiesOut, content-chunk, Grows-content,
}

-- `k` of `left` bytes have been read from `off` on to `dst` on.
pub record Reads (sb : Superblock) (d : Disk) (ip : Inode) (mem : Mem) (dst off left k : ℕ)
    (mem' : Mem) (ip' : Inode) (d' : Disk) : Type 0 where
  pub bound : k ≤ left
  pub short : k < left → (b : ℕ) → b < sb.size → is_free sb d' b ≡ false
  pub missing : k < left → mapped d' ip' ((off + k) / bsize) ≡ 0
  pub grows : Grows sb d ip d' ip'
  pub bytes : (a : ℕ) → mem' a ≡ (if within dst k a then content d ip (off + (a - dst)) else mem a)

pub from_none : (k : ℕ) → 0 + k ≡ k
from_none k = omega arith

pub none_more : (tot : ℕ) → tot + 0 ≡ tot
none_more tot = omega arith

module _ (copyout : Copyout) (sb : Superblock) (lo hi : ℕ) (out : CopiesOut copyout lo hi) where
  Reads-nothing :
      (d d' : Disk) (ip ip' : Inode) (mem : Mem) (dst off left : ℕ)
      → Grows sb d ip d' ip'
      → (0 < left → (b : ℕ) → b < sb.size → is_free sb d' b ≡ false)
      → (0 < left → mapped d' ip' (off / bsize) ≡ 0)
      → Reads sb d ip mem dst off left 0 mem ip' d'
  Reads-nothing d d' ip ip' mem dst off left g full missing = record {
    bound = omega arith;
    short = full;
    missing = rw (none_more off) missing;
    grows = g;
    bytes = λ a. let e : within dst 0 a ≡ false = ground arith in rw e refl;
  }

  Reads-more :
      (d d' d'' : Disk) (ip ip' ip'' : Inode) (mem mem' mem'' : Mem) (dst off left k : ℕ)
      → Grows sb d ip d' ip'
      → off + left ≤ max_bytes
      → ((a : ℕ)
          → mem' a
            ≡ (if within dst (chunk off left) a then content d ip (off + (a - dst)) else mem a))
      → Reads sb d' ip' mem'
          (dst + chunk off left)
          (off + chunk off left)
          (left - chunk off left)
          k
          mem''
          ip''
          d''
      → Reads sb d ip mem dst off left (chunk off left + k) mem'' ip'' d''
  Reads-more d d' d'' ip ip' ip'' mem mem' mem'' dst off left k g h e r =
      let m = chunk off left in
      let k_le = r.bound in
      record {
        bound = ground arith;
        short = λ l. r.short (ground arith);
        missing = λ l.
            let same : (off + m) + k ≡ off + (m + k) = omega arith in
            subst (λ o. mapped d'' ip'' (o / bsize) ≡ 0) same (r.missing (ground arith));
        grows = Grows-trans sb d d' d'' ip ip' ip'' g r.grows;
        bytes = λ a. elim (Bool-cases (within (dst + m) k a)) [
          | inl w ↦
              let whole : within dst (m + k) a ≡ true = ground arith in
              let same : (off + m) + (a - (dst + m)) ≡ off + (a - dst) = ground arith in
              let near : off + (a - dst) < max_bytes = ground arith in
              r.bytes a
              ∙ (rw (w, whole, same) (Grows-content sb d d' ip ip' g (off + (a - dst)) near))
          | inr w ↦
              let part : within dst (m + k) a ≡ within dst m a = ground arith in
              r.bytes a ∙ (rw (w, part) (e a))
        ];
      }

  -- The bytes of one round, by what they were before it.
  round_bytes :
      (d d' : Disk) (ip ip' : Inode) (addr off left j : ℕ)
      → off + left ≤ max_bytes
      → (addr == 0) ≡ false
      → Gives sb d ip (off / bsize) addr d' ip'
      → j < chunk off left
      → d' addr (off % bsize + j) ≡ content d ip (off + j)
  round_bytes d d' ip ip' addr off left j h n gives lt =
      let nz : mapped d' ip' (off / bsize) ≢ 0 = λ z. not_zero addr n (gives.found ∙ z) in
      ap (λ c. d' c (off % bsize + j)) gives.found
      ∙ sym (content-chunk d' ip' off left j lt nz)
      ∙ Grows-content sb d d' ip ip' gives.grows (off + j) (ground arith)

  read_loop-Reads :
      (fuel : ℕ) (d : Disk) (ip : Inode) (mem : Mem) (dst off left tot : ℕ)
      → IsInode sb d ip
      → left ≤ fuel
      → off + left ≤ max_bytes
      → lo ≤ dst
      → dst + left ≤ hi
      → (k : ℕ) × (mem' : Mem) × (ip' : Inode) × (d' : Disk) × (read_loop fuel copyout sb d ip mem
            dst off left tot
          ≡ some (some (tot + k), (mem', (ip', d'))))
        × Reads sb d ip mem dst off left k mem' ip' d'
  unfolding read_loop
  read_loop-Reads zero d ip mem dst off left tot g h h' l l' = (
    0,
    mem,
    ip,
    d,
    ap (λ t. some (some t, (mem, (ip, d)))) (sym (none_more tot)),
    Reads-nothing d d ip ip mem dst off left (Grows-refl sb d ip g)
        (λ c. absurd (omega (arith, c, h))) (λ c. absurd (omega (arith, c, h))),
  )
  read_loop-Reads (suc fuel) d ip mem dst off left tot g h h' l l' = elim (Bool-cases (left == 0)) [
    | inl z ↦ (
      0,
      mem,
      ip,
      d,
      rw (z, none_more tot) refl,
      Reads-nothing d d ip ip mem dst off left (Grows-refl sb d ip g) (λ c. absurd (ground arith))
          (λ c. absurd (ground arith)),
    )
    | inr z ↦
        let (addr, ip', d', e, gives) = bmap-Gives sb d ip (off / bsize) g (ground arith) in
        elim (Bool-cases (addr == 0)) [
          | inl n ↦ (
            0,
            mem,
            ip',
            d',
            rw (z, e, n, none_more tot) refl,
            Reads-nothing d d' ip ip' mem dst off left gives.grows
                (λ _. gives.no_space (is_zero _ n)) (λ _. sym gives.found ∙ is_zero _ n),
          )
          | inr n ↦
              let m = chunk off left in
              let in_range : dst + m ≤ hi = ground arith in
              let ok = out.succeeds mem dst (d' addr) (off % bsize) m l in_range in
              let mem' = (copyout mem dst (d' addr) (off % bsize) m).1 in
              let (k, mem'', ip'', d'', e', reads) =
                read_loop-Reads fuel d' ip' mem' (dst + m) (off + m) (left - m) (tot + m)
                  gives.grows.good (ground arith) (ground arith) (omega (arith, l))
                  (ground arith) in
              (
                m + k,
                mem'',
                ip'',
                d'',
                rw (z, e, n, ok) (e' ∙ ap (λ t. some (some t, (mem'', (ip'', d'')))) (omega arith)),
                Reads-more d d' d'' ip ip' ip'' mem mem' mem'' dst off left k gives.grows h'
                    (λ a. elim (Bool-cases (within dst m a)) [
                      | inl w ↦
                          out.copies mem dst (d' addr) (off % bsize) m l in_range a
                          ∙ (rw w (
                              round_bytes d d' ip ip' addr off left (a - dst) h' n gives
                                (ground arith)))
                      | inr w ↦
                          out.copies mem dst (d' addr) (off % bsize) m l in_range a ∙ (rw w refl)
                    ])
                    reads,
              )
        ]
  ]

from_start :
    (sb : Superblock) (d : Disk) (ip : Inode) (mem : Mem) (dst off left : ℕ) (r r' : Option Read)
    → r' ≡ r
    → (k : ℕ) × (mem' : Mem) × (ip' : Inode) × (d' : Disk) × (r
        ≡ some (some (0 + k), (mem', (ip', d'))))
      × Reads sb d ip mem dst off left k mem' ip' d'
    → (k : ℕ) × (mem' : Mem) × (ip' : Inode) × (d' : Disk) × (r' ≡ some (some k, (mem', (ip', d'))))
      × Reads sb d ip mem dst off left k mem' ip' d'
from_start sb d ip mem dst off left r r' q (k, mem', ip', d', e, reads) =
    (k, mem', ip', d', q ∙ e ∙ ap (λ t. some (some t, (mem', (ip', d')))) (from_none k), reads)

-- `readi` of an inode that owns its blocks, where the size is in range and the sum of offset and
-- length fits in a `uint`, to addresses that can be written. It does not panic and returns the number
-- `k` of bytes read: as many as were asked for and the file has from the offset on, or fewer only when
-- no block of the disk is free for a block that the file lacks at the place where it stopped. The `k`
-- addresses hold the bytes of the file from the offset on, every other address what it held, and the
-- inode keeps its blocks with their bytes, and all its numbers but block numbers that were 0.
pub readi-Reads :
    (copyout : Copyout) (sb : Superblock) (d : Disk) (ip : Inode) (mem : Mem) (dst off n : ℕ)
    → CopiesOut copyout dst (dst + n)
    → IsInode sb d ip
    → ip.size ≤ max_bytes
    → off + n < uint_mod
    → (k : ℕ) × (mem' : Mem) × (ip' : Inode) × (d' : Disk) × (readi copyout sb d ip mem dst off n
        ≡ some (some k, (mem', (ip', d'))))
      × Reads sb d ip mem dst off (min n (ip.size - off)) k mem' ip' d'
unfolding readi
readi-Reads copyout sb d ip mem dst off n out g size fits =
    let no_wrap : (off + n) % uint_mod ≡ off + n = ground arith in
    let no_over : ltb (off + n) off ≡ false = ground arith in
    elim (Bool-cases (ltb ip.size off)) [
      | inl past ↦
          let nothing : min n (ip.size - off) ≡ 0 = ground arith in
          (
            0,
            mem,
            ip,
            d,
            rw (no_wrap, no_over, past) refl,
            Reads-nothing copyout sb dst (dst + n) out d d ip ip mem dst off (min n (ip.size - off))
                (Grows-refl sb d ip g) (λ c. absurd (omega (arith, c, nothing)))
                (λ c. absurd (omega (arith, c, nothing))),
          )
      | inr inside ↦
          let left : (if ltb ip.size (off + n) then ip.size - off else n) ≡ min n (ip.size - off) =
            ground arith in
          from_start sb d ip mem dst off (min n (ip.size - off))
            (read_loop (min n (ip.size - off)) copyout sb d ip mem dst off (min n (ip.size - off))
              0)
            _ (rw (no_wrap, no_over, inside, left) refl)
            (read_loop-Reads copyout sb dst (dst + n) out (min n (ip.size - off)) d ip mem dst off
              (min n (ip.size - off)) 0 g (omega arith) (ground arith) (omega arith) (ground arith))
    ]
