-- ===== src/Kernel/Content/Edit.antt =====
-- Writing a block of an inode of kernel/fs.c: the blocks, the bitmap and the rest of the content stay.
use sleep_e_pingpong.Base.{
  ℕ, ◌+◌, ◌-◌, ◌/◌, ◌%◌, ◌<◌, ◌≡◌, refl, sym, ap, ◌∙◌, ◌≢◌, inl, inr, Bool-cases, true, false, ◌==◌,
  if◌then◌else◌, arith, ne→==, ==_refl,
}
use sleep_e_pingpong.Kernel.Fs.{bsize, Block, Disk, log_write, Superblock, bblock}
use sleep_e_pingpong.Kernel.Fs.Bits.{IsBytes}
use sleep_e_pingpong.Kernel.Fs.Bitmap.{is_free, IsBitmap}
use sleep_e_pingpong.Kernel.Strings.{Mem}
use sleep_e_pingpong.Kernel.Inode.{maxfile, Inode}
use sleep_e_pingpong.Kernel.Inode.Tree.{root, mapped, IsUsed, IsOther, Owns}
use sleep_e_pingpong.Kernel.Inode.Grow.{not_zero, IsInode, Spares, Grows}
use sleep_e_pingpong.Kernel.Inode.Slot.{mapped_same}
use sleep_e_pingpong.Kernel.Content.Bytes.{max_bytes, content, within, Grows-content}

-- The content from `off` on is `n` bytes that `bytes` has from `src` on; all else is as it was.
pub record Edits (sb : Superblock) (d : Disk) (ip : Inode) (d' : Disk) (ip' : Inode) (bytes : Mem)
    (off src n : ℕ) : Type 0 where
  pub good : IsInode sb d' ip'
  pub holds :
      (o : ℕ)
      → o < max_bytes
      → content d' ip' o ≡ (if within off n o then bytes (src + (o - off)) else content d ip o)
  pub kept : (bn : ℕ) → bn < maxfile → mapped d ip bn ≢ 0 → mapped d' ip' bn ≢ 0
  pub present : (o : ℕ) → o < max_bytes → within off n o ≡ true → mapped d' ip' (o / bsize) ≢ 0
  pub outside : (c : ℕ) → IsUsed sb d c → IsOther d ip c → Spares sb d ip d' ip' c
  pub rest : ip' ≡ record ip { addrs = ip'.addrs }

pub Grows-Edits :
    (sb : Superblock) (d d' : Disk) (ip ip' : Inode) (bytes : Mem) (off src : ℕ)
    → Grows sb d ip d' ip'
    → Edits sb d ip d' ip' bytes off src 0
Grows-Edits sb d d' ip ip' bytes off src g = record {
  good = g.good;
  holds = λ o h.
      let e : within off 0 o ≡ false = ground arith in rw e (Grows-content sb d d' ip ip' g o h);
  kept = λ bn h nz e. nz (sym (g.kept bn h nz) ∙ e);
  present = λ o h w. absurd (ground arith);
  outside = g.outside;
  rest = g.rest;
}

-- A change of blocks that are not the bitmap's keeps what is free.
pub frees_same :
    (sb : Superblock) (d d' : Disk)
    → ((c : ℕ) → c < sb.size → d' (bblock sb c) ≡ d (bblock sb c))
    → (c : ℕ) → c < sb.size
    → is_free sb d' c ≡ is_free sb d c
frees_same sb d d' e c h = rw (e c h) refl

pub IsBitmap-same :
    (sb : Superblock) (d d' : Disk)
    → 0 < sb.size
    → ((c : ℕ) → c < sb.size → d' (bblock sb c) ≡ d (bblock sb c))
    → ((c : ℕ) → IsBytes (d' c))
    → IsBitmap sb d
    → IsBitmap sb d'
IsBitmap-same sb d d' some_size e bytes w = record {
  bytes = bytes;
  inside = w.inside;
  own = λ c h. frees_same sb d d' e (bblock sb c) (w.inside c h) ∙ w.own c h;
  boot = frees_same sb d d' e 0 some_size ∙ w.boot;
}

-- The same blocks, with the same bitmap.
pub Owns-same :
    (sb : Superblock) (d d' : Disk) (f f' : ℕ → ℕ) (r : ℕ)
    → ((c : ℕ) → c < sb.size → is_free sb d' c ≡ is_free sb d c)
    → ((bn : ℕ) → f' bn ≡ f bn)
    → Owns sb d f r
    → Owns sb d' f' r
Owns-same sb d d' f f' r e step o = record {
  pages = λ bn h. rw (step bn) (λ nz. let u = o.pages bn h nz in (u.0, e (f bn) u.0.bound ∙ u.1));
  index = λ nz. let u = o.index nz in (u.0, e r u.0.bound ∙ u.1);
  distinct = λ bn bm h h'. rw (step bn, step bm) (o.distinct bn bm h h');
  apart = λ bn h. rw (step bn) (o.apart bn h);
}

module _ (sb : Superblock) (d : Disk) (ip : Inode) (g : IsInode sb d ip) (bn : ℕ)
    (lt : bn < maxfile) (nz : mapped d ip bn ≢ 0) (blk : Block) (is_bytes : IsBytes blk) where
  abbrev pub logged : Disk
  logged = log_write d (mapped d ip bn) blk

  pub logged_self : logged (mapped d ip bn) ≡ blk
  unfolding log_write
  logged_self = let e = ==_refl (mapped d ip bn) in rw e refl

  pub logged_other : (c : ℕ) → c ≢ mapped d ip bn → logged c ≡ d c
  unfolding log_write
  logged_other c h = let e = ne→== c (mapped d ip bn) h in rw e refl

  pub logged-mapped : (m : ℕ) → mapped logged ip m ≡ mapped d ip m
  logged-mapped m =
      mapped_same sb d logged ip ip m refl refl
        (λ _. logged_other (root ip) (λ e. g.owns.apart bn lt nz (sym e)))

  logged_map : (c : ℕ) → c < sb.size → logged (bblock sb c) ≡ d (bblock sb c)
  logged_map c h = logged_other (bblock sb c) ((g.owns.pages bn lt nz).0.no_map c h)

  logged-IsBytes : (c : ℕ) → IsBytes (logged c)
  unfolding log_write
  logged-IsBytes c i =
      let old = g.bitmap.bytes c i in
      let new = is_bytes i in
      elim (Bool-cases (c == mapped d ip bn)) [ inl e ↦ rw e new | inr e ↦ rw e old ]

  pub logged-IsInode : IsInode sb logged ip
  logged-IsInode =
      let page = (g.owns.pages bn lt nz).0 in
      record {
        fits = g.fits;
        bitmap =
            IsBitmap-same sb d logged (omega (arith, page.bound)) logged_map logged-IsBytes
              g.bitmap;
        slots = g.slots;
        owns =
            Owns-same sb d logged (mapped d ip) (mapped logged ip) (root ip)
              (frees_same sb d logged logged_map) logged-mapped g.owns;
      }

  pub logged_outside : (c : ℕ) → IsUsed sb d c → IsOther d ip c → Spares sb d ip logged ip c
  logged_outside c used other = record {
    used = (used.0, frees_same sb d logged logged_map c used.0.bound ∙ used.1);
    other = (λ m h e. other.0 m h (sym (logged-mapped m) ∙ e), other.1);
    kept = logged_other c (λ e. other.0 bn lt (sym e));
  }

  pub logged-content :
      (o : ℕ)
      → o < max_bytes
      → content logged ip o ≡ (if (o / bsize) == bn then blk (o % bsize) else content d ip o)
  logged-content o h =
      let some_block = ne→== (mapped d ip bn) 0 nz in
      elim (Bool-cases ((o / bsize) == bn)) [
        | inl e ↦
            let q : o / bsize ≡ bn = ground arith in
            rw (e, q, logged-mapped bn, some_block) (ap (λ (b : Block). b (o % bsize)) logged_self)
        | inr e ↦
            rw (e, logged-mapped (o / bsize))
              (elim (Bool-cases (mapped d ip (o / bsize) == 0)) [
                | inl z ↦ rw z refl
                | inr z ↦
                    let apart : mapped d ip (o / bsize) ≢ mapped d ip bn = λ q.
                      let same =
                        g.owns.distinct (o / bsize) bn (omega (arith, h)) lt (not_zero _ z) q in
                      absurd (ground arith) in
                    rw z (
                      ap (λ (b : Block). b (o % bsize))
                        (logged_other (mapped d ip (o / bsize)) apart))
              ])
      ]
