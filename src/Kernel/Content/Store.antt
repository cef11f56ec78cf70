-- ===== src/Kernel/Content/Store.antt =====
-- The end of `writei` of kernel/fs.c: the size, and the inode that is stored on the disk.
use mathlib.Core.Path.{subst}
use sleep_e_pingpong.Base.{
  uint_mod, ℕ, ◌+◌, ◌-◌, ◌/◌, ◌%◌, ◌≤◌, ◌<◌, ◌≡◌, refl, sym, ap, ◌∙◌, ◌≢◌, inl, inr, Bool-cases,
  true, false, Option, some, ltb, ◌==◌, if◌then◌else◌, get_or, All, arith,
}
use sleep_e_pingpong.Kernel.Fs.{bsize, Block, Disk, Superblock, bblock}
use sleep_e_pingpong.Kernel.Fs.Bitmap.{is_free}
use sleep_e_pingpong.Kernel.Strings.{Mem}
use sleep_e_pingpong.Kernel.Inode.{ndirect, Inode}
use sleep_e_pingpong.Kernel.Inode.Tree.{root, mapped, IsUsed, IsOther}
use sleep_e_pingpong.Kernel.Inode.Grow.{not_zero, IsInode}
use sleep_e_pingpong.Kernel.Dinode.{iblock, iupdate, load_inode}
use sleep_e_pingpong.Kernel.Dinode.Stored.{IsNarrow, iupdate-IsStored, load_same}
use sleep_e_pingpong.Kernel.Content.{Copyin, Written, write_loop, write_end, writei}
use sleep_e_pingpong.Kernel.Content.Bytes.{max_bytes, content, within, CopiesIn}
use sleep_e_pingpong.Kernel.Content.Edit.{frees_same}
use sleep_e_pingpong.Kernel.Content.Write.{Writes, write_loop-Writes}
use sleep_e_pingpong.Kernel.Content.Read.{from_none}
use sleep_e_pingpong.Kernel.Content.Change.{change_mapped, change-IsInode, change_content, All-each}

-- The block numbers of an inode fit in a `uint`.
addrs_fit :
    (sb : Superblock) (d : Disk) (ip : Inode) → IsInode sb d ip → All (λ a. a < uint_mod) ip.addrs
addrs_fit sb d ip g =
    let o = g.owns in
    let fits = g.fits in
    let slots = g.slots in
    All-each (λ a. a < uint_mod) ip.addrs
      (λ i l. elim (Bool-cases (get_or ip.addrs i 0 == 0)) [
        | inl z ↦ ground arith
        | inr z ↦ elim (Bool-cases (ltb i ndirect)) [
          | inl e ↦
              let q : mapped d ip i ≡ get_or ip.addrs i 0 = rw e refl in
              let page = o.pages i (ground arith) (λ h. not_zero _ z (sym q ∙ h)) in
              let bound : mapped d ip i < sb.size = page.0.bound in omega (arith, bound, q, fits)
          | inr e ↦
              let last : i ≡ ndirect = ground arith in
              let nz = subst (λ j. get_or ip.addrs j 0 ≢ 0) last (not_zero _ z) in
              let bound : root ip < sb.size = (o.index nz).0.bound in
              subst (λ j. get_or ip.addrs j 0 < uint_mod) (sym last) (omega (arith, bound, fits))
        ]
      ])

-- What a `writei` that returns `k` leaves.
pub record WriteRun (sb : Superblock) (d : Disk) (ip : Inode) (bytes : Mem) (off src n k : ℕ)
    (ip' : Inode) (d' : Disk) : Type 0 where
  pub bound : k ≤ n
  pub short : k < n → (b : ℕ) → b < sb.size → is_free sb d' b ≡ false
  pub good : IsInode sb d' ip'
  pub holds :
      (o : ℕ)
      → o < max_bytes
      → content d' ip' o ≡ (if within off k o then bytes (src + (o - off)) else content d ip o)
  pub present : (o : ℕ) → o < max_bytes → within off k o ≡ true → mapped d' ip' (o / bsize) ≢ 0
  pub rest :
      ip'
      ≡ record ip { size = if ltb ip.size (off + k) then off + k else ip.size; addrs = ip'.addrs }
  pub stored : load_inode sb d' ip' ≡ record ip' { valid = true }
  pub narrow : IsNarrow ip'
  pub home : IsUsed sb d' (iblock sb ip'.inum) × IsOther d' ip' (iblock sb ip'.inum)
  pub blocks : (c : ℕ) → IsUsed sb d c → IsOther d ip c → c ≢ iblock sb ip.inum → d' c ≡ d c
  pub inodes :
      (j : Inode)
      → j.inum ≢ ip.inum
      → IsUsed sb d (iblock sb j.inum)
      → IsOther d ip (iblock sb j.inum)
      → load_inode sb d' j ≡ load_inode sb d j

-- The new size and `iupdate`, after the loop.
module _ (sb : Superblock) (d d₁ : Disk) (ip ip₁ : Inode) (bytes : Mem) (off src n k : ℕ)
    (w : Writes sb d ip bytes off src n k ip₁ d₁) (narrow : IsNarrow ip)
    (used : IsUsed sb d (iblock sb ip.inum)) (other : IsOther d ip (iblock sb ip.inum))
    (size : ip.size ≤ max_bytes) (fits : off + n ≤ max_bytes) where
  abbrev ip₂ : Inode
  ip₂ = record ip₁ { size = if ltb ip₁.size (off + k) then off + k else ip₁.size }

  ip₂_rest :
      ip₂
      ≡ record ip { size = if ltb ip.size (off + k) then off + k else ip.size; addrs = ip₁.addrs }
  ip₂_rest =
      ap
        (λ (x : Inode). record x {
          size = if ltb x.size (off + k) then off + k else x.size;
          addrs = ip₁.addrs;
        })
        w.edits.rest

  ip₂_inum : ip₁.inum ≡ ip.inum
  ip₂_inum = ap (λ (x : Inode). x.inum) ip₂_rest

  ip₂-IsNarrow : IsNarrow ip₂
  ip₂-IsNarrow =
      let k_le = w.bound in
      let n = narrow in
      let size_small : (if ltb ip.size (off + k) then off + k else ip.size) < uint_mod =
        ground arith in
      record {
        kind = subst (λ (x : Inode). x.kind < 65536) (sym ip₂_rest) n.kind;
        major = subst (λ (x : Inode). x.major < 65536) (sym ip₂_rest) n.major;
        minor = subst (λ (x : Inode). x.minor < 65536) (sym ip₂_rest) n.minor;
        nlink = subst (λ (x : Inode). x.nlink < 65536) (sym ip₂_rest) n.nlink;
        size = subst (λ (x : Inode). x.size < uint_mod) (sym ip₂_rest) size_small;
        addrs = addrs_fit sb d₁ ip₁ w.edits.good;
        slots = w.edits.good.slots;
      }

  end-WriteRun : WriteRun sb d ip bytes off src n k ip₂ (iupdate sb d₁ ip₂)
  end-WriteRun =
      let spared = w.edits.outside (iblock sb ip.inum) used other in
      let place : iblock sb ip₂.inum ≡ iblock sb ip.inum = ap (iblock sb) ip₂_inum in
      let s = iupdate-IsStored sb d₁ ip₂ ip₂-IsNarrow in
      let kept : (c : ℕ) → c ≢ iblock sb ip.inum → iupdate sb d₁ ip₂ c ≡ d₁ c =
        λ c h. s.blocks c (λ e. h (e ∙ place)) in
      let good = w.edits.good in
      let bytes_kept = s.bytes good.bitmap.bytes in
      record {
        bound = w.bound;
        short = λ l c h.
            frees_same sb d₁ (iupdate sb d₁ ip₂)
              (λ b h'. kept (bblock sb b) (spared.used.0.no_map b h')) c h
            ∙ w.short l c h;
        good =
            change-IsInode sb d₁ (iupdate sb d₁ ip₂) ip₁ ip₂ (iblock sb ip.inum) good spared.used
              spared.other kept bytes_kept refl;
        holds = λ o h.
            change_content sb d₁ (iupdate sb d₁ ip₂) ip₁ ip₂ (iblock sb ip.inum) good spared.used
              spared.other kept bytes_kept refl o h
            ∙ w.edits.holds o h;
        present = λ o h in_range z. w.edits.present o h in_range (
            sym (
              change_mapped sb d₁ (iupdate sb d₁ ip₂) ip₁ ip₂ (iblock sb ip.inum) good spared.used
                spared.other kept bytes_kept refl (o / bsize))
            ∙ z);
        rest = ip₂_rest;
        stored = s.own ip₂ refl;
        narrow = ip₂-IsNarrow;
        home =
            subst (λ b. IsUsed sb (iupdate sb d₁ ip₂) b × IsOther (iupdate sb d₁ ip₂) ip₂ b)
              (sym place)
              (
                (
                  spared.used.0,
                  frees_same sb d₁ (iupdate sb d₁ ip₂)
                        (λ b h'. kept (bblock sb b) (spared.used.0.no_map b h')) (iblock sb ip.inum)
                        spared.used.0.bound
                      ∙ spared.used.1,
                ),
                (
                  λ bn h e. spared.other.0 bn h (
                      sym (
                        change_mapped sb d₁ (iupdate sb d₁ ip₂) ip₁ ip₂ (iblock sb ip.inum) good
                          spared.used spared.other kept bytes_kept refl bn)
                      ∙ e),
                  spared.other.1,
                ),
              );
        blocks = λ c u o h. kept c h ∙ (w.edits.outside c u o).kept;
        inodes = λ j ne u o.
            s.other j (λ e. ne (e ∙ ip₂_inum))
            ∙ load_same sb d d₁ j (λ b _ _.
              ap (λ (blk : Block). blk b) (w.edits.outside (iblock sb j.inum) u o).kept);
      }

write_end_run :
    (sb : Superblock) (d : Disk) (ip : Inode) (bytes : Mem) (off src n : ℕ) (r : Option Written)
    (k : ℕ) (ip' : Inode) (d' : Disk)
    → r ≡ some (0 + k, (off + k, (ip', d')))
    → IsNarrow ip
    → IsUsed sb d (iblock sb ip.inum)
    → IsOther d ip (iblock sb ip.inum)
    → ip.size ≤ max_bytes
    → off + n ≤ max_bytes
    → Writes sb d ip bytes off src n k ip' d'
    → (k : ℕ) × (ip' : Inode) × (d' : Disk) × (write_end sb r ≡ some (some k, (ip', d')))
      × WriteRun sb d ip bytes off src n k ip' d'
unfolding write_end
write_end_run sb d ip bytes off src n r k ip' d' e narrow used other size fits w =
    let ip'' : Inode = ip₂ sb d d' ip ip' bytes off src n k w narrow used other size fits in
    (
      k,
      ip'',
      iupdate sb d' ip'',
      ap (write_end sb) (e ∙ ap (λ t. some (t, (off + k, (ip', d')))) (from_none k)),
      end-WriteRun sb d d' ip ip' bytes off src n k w narrow used other size fits,
    )

-- `writei` of an inode that owns its blocks, from an offset within the file or at its end, where the
-- end of what is written is in range, its numbers have the widths of the disk's fields, the source is
-- bytes that can be read, and the inode's place on the disk is a used block that is not one of its
-- own. It does not panic and returns the number `k` of bytes written, less than asked only when no
-- block of the disk is free. The content is then the source's bytes in that range, the old content
-- elsewhere; the size is the end of the range if that is larger, and the other numbers of the inode
-- stay. The bitmap is in order and every block still has one use; the inode on the disk loads as the
-- one in memory, every other inode loads as before, and every other block in use is as before.
pub writei-WriteRun :
    (copyin : Copyin) (sb : Superblock) (d : Disk) (ip : Inode) (bytes : Mem) (off src n : ℕ)
    → CopiesIn copyin bytes src (src + n)
    → ((a : ℕ) → bytes a < 256)
    → IsInode sb d ip
    → IsNarrow ip
    → IsUsed sb d (iblock sb ip.inum)
    → IsOther d ip (iblock sb ip.inum)
    → ip.size ≤ max_bytes
    → off ≤ ip.size
    → off + n ≤ max_bytes
    → (k : ℕ) × (ip' : Inode) × (d' : Disk) × (writei copyin sb d ip src off n
        ≡ some (some k, (ip', d')))
      × WriteRun sb d ip bytes off src n k ip' d'
unfolding writei
writei-WriteRun copyin sb d ip bytes off src n into is_bytes g narrow used other size inside fits =
    let no_wrap : (off + n) % uint_mod ≡ off + n = ground arith in
    let in_file : ltb ip.size off ≡ false = ground arith in
    let no_over : ltb (off + n) off ≡ false = ground arith in
    let in_range : ltb max_bytes (off + n) ≡ false = ground arith in
    let (k, ip', d', e, w) =
      write_loop-Writes copyin sb bytes src (src + n) into is_bytes n d ip off src n 0 g
        (omega arith) fits (omega arith) (omega arith) in
    rw (no_wrap, in_file, no_over, in_range)
      (write_end_run sb d ip bytes off src n (write_loop n copyin sb d ip src off n 0) k ip' d' e
        narrow used other size fits w)
