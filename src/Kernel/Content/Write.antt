-- ===== src/Kernel/Content/Write.antt =====
-- `writei` of kernel/fs.c: how much it writes, and the content and size afterwards.
use mathlib.Core.Path.{subst}
use sleep_e_pingpong.Base.{
  ℕ, zero, suc, ◌+◌, ◌-◌, ◌/◌, ◌%◌, ◌≤◌, ◌<◌, ◌≡◌, refl, sym, ◌∙◌, ◌≢◌, inl, inr, Bool-cases, true,
  false, Option, some, ◌==◌, if◌then◌else◌, arith, ne→==,
}
use sleep_e_pingpong.Kernel.Fs.{bsize, Block, Disk, log_write, Superblock}
use sleep_e_pingpong.Kernel.Fs.Bits.{IsBytes}
use sleep_e_pingpong.Kernel.Fs.Bitmap.{is_free}
use sleep_e_pingpong.Kernel.Strings.{Mem}
use sleep_e_pingpong.Kernel.Inode.{maxfile, Inode}
use sleep_e_pingpong.Kernel.Inode.Tree.{mapped}
use sleep_e_pingpong.Kernel.Inode.Grow.{not_zero, is_zero, IsInode, Grows, Grows-refl, rest_trans}
use sleep_e_pingpong.Kernel.Inode.Slot.{Gives}
use sleep_e_pingpong.Kernel.Inode.Bmap.{bmap-Gives}
use sleep_e_pingpong.Kernel.Content.{Copyin, Written, chunk, write_loop}
use sleep_e_pingpong.Kernel.Content.Bytes.{
  max_bytes, content, within, CopiesIn, content_at, Grows-content,
}
use sleep_e_pingpong.Kernel.Content.Edit.{
  Edits, Grows-Edits, logged-mapped, logged-IsInode, logged_outside, logged-content,
}
use sleep_e_pingpong.Kernel.Content.Read.{none_more}

Edits-trans :
    (sb : Superblock) (d d' d'' : Disk) (ip ip' ip'' : Inode) (bytes : Mem) (off src m k : ℕ)
    → Edits sb d ip d' ip' bytes off src m
    → Edits sb d' ip' d'' ip'' bytes (off + m) (src + m) k
    → Edits sb d ip d'' ip'' bytes off src (m + k)
Edits-trans sb d d' d'' ip ip' ip'' bytes off src m k e e' = record {
  good = e'.good;
  holds = λ o h. elim (Bool-cases (within (off + m) k o)) [
    | inl w ↦
        let whole : within off (m + k) o ≡ true = ground arith in
        let same : (src + m) + (o - (off + m)) ≡ src + (o - off) = ground arith in
        e'.holds o h ∙ (rw (w, whole, same) refl)
    | inr w ↦
        let part : within off (m + k) o ≡ within off m o = ground arith in
        e'.holds o h ∙ (rw (w, part) (e.holds o h))
  ];
  kept = λ bn h nz. e'.kept bn h (e.kept bn h nz);
  present = λ o h w. elim (Bool-cases (within (off + m) k o)) [
    | inl in_next ↦ e'.present o h in_next
    | inr out ↦ e'.kept (o / bsize) (omega (arith, h)) (e.present o h (ground arith))
  ];
  outside = λ c used other.
      let s = e.outside c used other in
      let s' = e'.outside c s.used s.other in
      record { used = s'.used; other = s'.other; kept = s'.kept ∙ s.kept };
  rest = rest_trans ip ip' ip'' e.rest e'.rest;
}

-- `k` of `left` bytes have been written from `off` on.
pub record Writes (sb : Superblock) (d : Disk) (ip : Inode) (bytes : Mem) (off src left k : ℕ)
    (ip' : Inode) (d' : Disk) : Type 0 where
  pub bound : k ≤ left
  pub short : k < left → (b : ℕ) → b < sb.size → is_free sb d' b ≡ false
  pub edits : Edits sb d ip d' ip' bytes off src k

written_eq :
    (tot m k off : ℕ) (ip : Inode) (d : Disk)
    → ◌≡◌ {A = Option Written}
        (some ((tot + m) + k, ((off + m) + k, (ip, d))))
        (some (tot + (m + k), (off + (m + k), (ip, d))))
written_eq tot m k off ip d =
    let e : (tot + m) + k ≡ tot + (m + k) = omega arith in
    let e' : (off + m) + k ≡ off + (m + k) = omega arith in rw (e, e') refl

same_start :
    (tot off : ℕ) (ip : Inode) (d : Disk)
    → ◌≡◌ {A = Option Written} (some (tot, (off, (ip, d)))) (some (tot + 0, (off + 0, (ip, d))))
same_start tot off ip d = rw (none_more tot, none_more off) refl

-- One round: the block of `off` gets the next bytes, after `bmap`.
edit_chunk :
    (sb : Superblock) (d d' : Disk) (ip ip' : Inode) (bytes : Mem) (off src left : ℕ)
    → off + left ≤ max_bytes
    → left ≢ 0
    → Grows sb d ip d' ip'
    → mapped d' ip' (off / bsize) ≢ 0
    → (blk : Block) → IsBytes blk
    → ((j : ℕ)
        → blk j ≡ (
            if within (off % bsize) (chunk off left) j
            then bytes (src + (j - off % bsize))
            else d' (mapped d' ip' (off / bsize)) j))
    → Edits sb d ip
        (log_write d' (mapped d' ip' (off / bsize)) blk)
        ip'
        bytes
        off
        src
        (chunk off left)
edit_chunk sb d d' ip ip' bytes off src left h some_left grows nz blk is_bytes e =
    let bn = off / bsize in
    let lt : bn < maxfile = omega (arith, h, some_left) in
    let g = grows.good in
    let d'' = log_write d' (mapped d' ip' bn) blk in
    record {
      good = logged-IsInode sb d' ip' g bn lt nz blk is_bytes;
      holds = λ o h'.
          let old = Grows-content sb d d' ip ip' grows o h' in
          let now = logged-content sb d' ip' g bn lt nz blk is_bytes o h' in
          elim (Bool-cases ((o / bsize) == bn)) [
            | inl q ↦
                let q' : o / bsize ≡ bn = ground arith in
                let now' : content d'' ip' o ≡ blk (o % bsize) = now ∙ (rw q refl) in
                let some_block = ne→== (mapped d' ip' bn) 0 nz in
                let before : content d' ip' o ≡ d' (mapped d' ip' bn) (o % bsize) =
                  content_at d' ip' o bn (o % bsize) q' refl ∙ (rw some_block refl) in
                elim (Bool-cases (within off (chunk off left) o)) [
                  | inl w ↦
                      let w' : within (off % bsize) (chunk off left) (o % bsize) ≡ true =
                        ground arith in
                      let same : (o % bsize) - (off % bsize) ≡ o - off = ground arith in
                      now' ∙ e (o % bsize) ∙ (rw (w', w, same) refl)
                  | inr w ↦
                      let w' : within (off % bsize) (chunk off left) (o % bsize) ≡ false =
                        ground arith in
                      now' ∙ e (o % bsize) ∙ (rw (w', w) (sym before ∙ old))
                ]
            | inr q ↦
                let out : within off (chunk off left) o ≡ false = ground arith in
                now ∙ (rw (q, out) old)
          ];
      kept = λ m h' old z.
          old (
            sym (grows.kept m h' old)
            ∙ sym (logged-mapped sb d' ip' g bn lt nz blk is_bytes m)
            ∙ z);
      present = λ o h' w z.
          let here : o / bsize ≡ bn = ground arith in
          nz (
            sym (logged-mapped sb d' ip' g bn lt nz blk is_bytes bn)
            ∙ subst (λ b. mapped (log_write d' (mapped d' ip' bn) blk) ip' b ≡ 0) here z);
      outside = λ c used other.
          let s = grows.outside c used other in
          let s' = logged_outside sb d' ip' g bn lt nz blk is_bytes c s.used s.other in
          record { used = s'.used; other = s'.other; kept = s'.kept ∙ s.kept };
      rest = grows.rest;
    }

module _ (copyin : Copyin) (sb : Superblock) (bytes : Mem) (lo hi : ℕ)
    (into : CopiesIn copyin bytes lo hi) (is_bytes : (a : ℕ) → bytes a < 256) where
  copied-IsBytes :
      (blk : Block) (i src m : ℕ)
      → lo ≤ src
      → src + m ≤ hi
      → IsBytes blk
      → IsBytes (copyin blk i src m).1
  copied-IsBytes blk i src m l h old j =
      let new = is_bytes (src + (j - i)) in
      let keep = old j in
      elim (Bool-cases (within i m j)) [
        | inl w ↦ subst (λ v. v < 256) (sym (into.copies blk i src m l h j ∙ (rw w refl))) new
        | inr w ↦ subst (λ v. v < 256) (sym (into.copies blk i src m l h j ∙ (rw w refl))) keep
      ]

  round-Edits :
      (d d' : Disk) (ip ip' : Inode) (addr off src left : ℕ)
      → off + left ≤ max_bytes
      → left ≢ 0
      → lo ≤ src
      → src + chunk off left ≤ hi
      → (addr == 0) ≡ false
      → Gives sb d ip (off / bsize) addr d' ip'
      → Edits sb d ip
          (log_write d' addr (copyin (d' addr) (off % bsize) src (chunk off left)).1)
          ip'
          bytes
          off
          src
          (chunk off left)
  round-Edits d d' ip ip' addr off src left h some_left l h' n gives =
      subst
        (λ c.
          Edits sb d ip (log_write d' c (copyin (d' c) (off % bsize) src (chunk off left)).1) ip'
            bytes off src (chunk off left))
        (sym gives.found)
        (edit_chunk sb d d' ip ip' bytes off src left h some_left gives.grows
          (λ z. not_zero addr n (gives.found ∙ z))
          (copyin (d' (mapped d' ip' (off / bsize))) (off % bsize) src (chunk off left)).1
          (copied-IsBytes (d' (mapped d' ip' (off / bsize))) (off % bsize) src (chunk off left) l h'
            (gives.grows.good.bitmap.bytes (mapped d' ip' (off / bsize))))
          (into.copies (d' (mapped d' ip' (off / bsize))) (off % bsize) src (chunk off left) l h'))

  pub write_loop-Writes :
      (fuel : ℕ) (d : Disk) (ip : Inode) (off src left tot : ℕ)
      → IsInode sb d ip
      → left ≤ fuel
      → off + left ≤ max_bytes
      → lo ≤ src
      → src + left ≤ hi
      → (k : ℕ) × (ip' : Inode) × (d' : Disk) × (write_loop fuel copyin sb d ip src off left tot
          ≡ some (tot + k, (off + k, (ip', d'))))
        × Writes sb d ip bytes off src left k ip' d'
  unfolding write_loop
  write_loop-Writes zero d ip off src left tot g h h' l l' = (
    0,
    ip,
    d,
    same_start tot off ip d,
    record {
      bound = omega arith;
      short = λ c. absurd (omega (arith, c, h));
      edits = Grows-Edits sb d d ip ip bytes off src (Grows-refl sb d ip g);
    },
  )
  write_loop-Writes (suc fuel) d ip off src left tot g h h' l l' = elim (Bool-cases (left == 0)) [
    | inl z ↦ (
      0,
      ip,
      d,
      rw (z, none_more tot, none_more off) refl,
      record {
        bound = omega arith;
        short = λ c. absurd (ground arith);
        edits = Grows-Edits sb d d ip ip bytes off src (Grows-refl sb d ip g);
      },
    )
    | inr z ↦
        let (addr, ip', d', e, gives) = bmap-Gives sb d ip (off / bsize) g (ground arith) in
        elim (Bool-cases (addr == 0)) [
          | inl n ↦ (
            0,
            ip',
            d',
            rw (z, e, n, none_more tot, none_more off) refl,
            record {
              bound = omega arith;
              short = λ _. gives.no_space (is_zero _ n);
              edits = Grows-Edits sb d d' ip ip' bytes off src gives.grows;
            },
          )
          | inr n ↦
              let m = chunk off left in
              let in_range : src + m ≤ hi = ground arith in
              let ok = into.succeeds (d' addr) (off % bsize) src m l in_range in
              let d'' = log_write d' addr (copyin (d' addr) (off % bsize) src m).1 in
              let edits =
                round-Edits d d' ip ip' addr off src left h' (not_zero left z) l in_range n gives in
              let (k, ip'', d₂, e', writes) =
                write_loop-Writes fuel d'' ip' (off + m) (src + m) (left - m) (tot + m) edits.good
                  (ground arith) (ground arith) (omega (arith, l)) (ground arith) in
              (
                m + k,
                ip'',
                d₂,
                rw (z, e, n, ok) (e' ∙ written_eq tot m k off ip'' d₂),
                record {
                  bound = let k_le = writes.bound in ground arith;
                  short = λ c. let k_le = writes.bound in writes.short (ground arith);
                  edits = Edits-trans sb d d'' d₂ ip ip' ip'' bytes off src m k edits writes.edits;
                },
              )
        ]
  ]
