-- ===== src/Kernel/Inode/Bmap.antt =====
-- `bmap` of kernel/fs.c: what it returns, and what it leaves of the inode.
use mathlib.Core.Path.{subst}
use sleep_e_pingpong.Base.{
  uint_mod, ℕ, ◌+◌, ◌-◌, ◌<◌, ◌≡◌, refl, sym, ap, ◌∙◌, ◌≢◌, inl, inr, Bool-cases, true, false, some,
  ltb, ◌==◌, if◌then◌else◌, set, arith, ne→==, ==_refl, length-set, get_or-set_self, get_or-set_ne,
}
use sleep_e_pingpong.Kernel.Fs.{Block, Disk, Superblock, bblock, log_write, balloc}
use sleep_e_pingpong.Kernel.Fs.Bits.{IsBytes}
use sleep_e_pingpong.Kernel.Fs.Bitmap.{is_free, IsBitmap}
use sleep_e_pingpong.Kernel.Inode.{
  ndirect, nindirect, maxfile, Inode, word, set_word, Step, slot_block, entry_block, indirect_block,
  bmap,
}
use sleep_e_pingpong.Kernel.Inode.Words.{
  word-set_word_self, word-set_word_ne, set_word-IsBytes, word_zero,
}
use sleep_e_pingpong.Kernel.Inode.Tree.{root, mapped, Marks, Marks-used}
use sleep_e_pingpong.Kernel.Inode.Grow.{
  is_zero, not_zero, IsInode, Grows, Grows-trans, Grows-page, Grows-index,
}
use sleep_e_pingpong.Kernel.Inode.Slot.{
  Gives, GivesStep, Took, Alloc, no_block, block, balloc-Alloc, unchanged, no_space_left, root_same,
  slot_block-Gives,
}

-- An entry of the indirect block that is written after `balloc` took block `b`.
module _ (sb : Superblock) (d d' : Disk) (ip : Inode) (k b : ℕ) (g : IsInode sb d ip)
    (nz : root ip ≢ 0) (lt : k < nindirect) (t : Took sb d d' b) where
  abbrev entered : Disk
  entered = log_write d' (root ip) (set_word (d' (root ip)) k b)

  entered_other : (c : ℕ) → c ≢ root ip → entered c ≡ d' c
  unfolding log_write
  entered_other c h = let e = ne→== c (root ip) h in rw e refl

  entered_root : entered (root ip) ≡ set_word (d (root ip)) k b
  unfolding log_write
  entered_root =
      let e = ==_refl (root ip) in
      rw e (ap (λ (blk : Block). set_word blk k b) (root_same sb d ip g d' b t nz))

  entered_free : (c : ℕ) → c < sb.size → is_free sb entered c ≡ is_free sb d' c
  entered_free c h =
      let no_map = (g.owns.index nz).0.no_map c h in rw (entered_other (bblock sb c) no_map) refl

  entered-IsBytes : (c : ℕ) → IsBytes (entered c)
  unfolding log_write
  entered-IsBytes c i =
      let old = t.bitmap.bytes c i in
      let new = set_word-IsBytes (d' (root ip)) k b (t.bitmap.bytes (root ip)) i in
      elim (Bool-cases (c == root ip)) [ inl e ↦ rw e new | inr e ↦ rw e old ]

  entered-IsBitmap : IsBitmap sb entered
  entered-IsBitmap = record {
    bytes = entered-IsBytes;
    inside = t.bitmap.inside;
    own = λ c h. entered_free (bblock sb c) (t.bitmap.inside c h) ∙ t.bitmap.own c h;
    boot = entered_free 0 (omega (arith, t.marks.page.bound)) ∙ t.bitmap.boot;
  }

  entered-Marks : Marks sb d entered b
  entered-Marks = record {
    page = t.marks.page;
    free = t.marks.free;
    map = λ c h. entered_free c h ∙ t.marks.map c h;
  }

  entered_step :
      (bn : ℕ)
      → bn < maxfile
      → mapped entered ip bn ≡ (if bn == (ndirect + k) then b else mapped d ip bn)
  entered_step bn h =
      let some_root : (root ip == 0) ≡ false = ne→== (root ip) 0 nz in
      let fits : b < uint_mod = omega (arith, g.fits, t.marks.page.bound) in
      elim (Bool-cases (ltb bn ndirect)) [
        | inl e ↦ let other : (bn == (ndirect + k)) ≡ false = ground arith in rw (e, other) refl
        | inr e ↦ elim (Bool-cases (bn == (ndirect + k))) [
          | inl e' ↦
              let j : bn - ndirect ≡ k = ground arith in
              rw (e, e', some_root, j) (rw entered_root (word-set_word_self (d (root ip)) k b fits))
          | inr e' ↦
              let j : bn - ndirect ≢ k = ground arith in
              rw (e, e', some_root)
                (rw entered_root (word-set_word_ne (d (root ip)) k (bn - ndirect) b j))
        ]
      ]

  entry_taken :
      mapped d ip (ndirect + k) ≡ 0
      → (b == 0) ≡ false
      → GivesStep sb d ip (ndirect + k) (b, (ip, entered))
  entry_taken hole some_block =
      let same : ((ndirect + k) == (ndirect + k)) ≡ true = ==_refl (ndirect + k) in
      record {
        grows =
            Grows-page sb d entered ip ip b g entered-Marks
              (λ i.
                ap (λ (blk : Block). blk i)
                  (entered_other b
                    (λ e. (Marks-used sb d d' b t.marks (root ip) (g.owns.index nz)).0 (sym e)))
                ∙ t.zeros i)
              (λ c h h' h''. entered_other c h'' ∙ t.others c h h') entered-IsBitmap g.slots refl
              (ndirect + k) (omega arith) hole entered_step refl;
        found = sym (entered_step (ndirect + k) (omega arith) ∙ (rw same refl));
        old = λ h. absurd (h hole);
        no_space = λ e. absurd (not_zero b some_block e);
      }

module _ (sb : Superblock) (d : Disk) (ip : Inode) (g : IsInode sb d ip) where
  -- The block of an entry, when there is an indirect block.
  pub mapped_entry : (k : ℕ) → root ip ≢ 0 → mapped d ip (ndirect + k) ≡ word (d (root ip)) k
  mapped_entry k nz =
      let far : ltb (ndirect + k) ndirect ≡ false = ground arith in
      let some_root : (root ip == 0) ≡ false = ne→== (root ip) 0 nz in
      let j : (ndirect + k) - ndirect ≡ k = omega arith in rw (far, some_root, j) refl

  entry-Alloc :
      (k : ℕ) (r : ℕ × Disk)
      → root ip ≢ 0
      → k < nindirect
      → mapped d ip (ndirect + k) ≡ 0
      → Alloc sb d r
      → GivesStep sb d ip (ndirect + k) (
          if r.0 == 0
          then (0, (ip, r.1))
          else (r.0, (ip, log_write r.1 (root ip) (set_word (r.1 (root ip)) k r.0))))
  entry-Alloc k _ nz lt hole (no_block f) = no_space_left sb d ip g (ndirect + k) hole f
  entry-Alloc k _ nz lt hole (block b d' some_block t) =
      rw some_block (entry_taken sb d d' ip k b g nz lt t hole some_block)

  entry_block-Gives :
      (k : ℕ)
      → root ip ≢ 0
      → k < nindirect
      → GivesStep sb d ip (ndirect + k) (entry_block sb d ip (root ip) k)
  unfolding entry_block
  entry_block-Gives k nz lt =
      let e = mapped_entry k nz in
      elim (Bool-cases (word (d (root ip)) k == 0)) [
        | inl z ↦
            rw z (entry-Alloc k (balloc sb d) nz lt (e ∙ is_zero _ z) (balloc-Alloc sb d g.bitmap))
        | inr z ↦ rw z (unchanged sb d ip g (ndirect + k) _ (sym e) (not_zero _ z))
      ]

pub no_root_hole : (d : Disk) (ip : Inode) (k : ℕ) → root ip ≡ 0 → mapped d ip (ndirect + k) ≡ 0
no_root_hole d ip k e =
    let far : ltb (ndirect + k) ndirect ≡ false = ground arith in
    let none_given : (root ip == 0) ≡ true = ground arith in rw (far, none_given) refl

-- What `bmap` does to the slot of the indirect block.
data RootRun (sb : Superblock) (d : Disk) (ip : Inode) : Step → Type 0 where
  have : (root ip == 0) ≡ false → RootRun sb d ip (root ip, (ip, d))
  lacks :
      root ip ≡ 0 → ((b : ℕ) → b < sb.size → is_free sb d b ≡ false) → RootRun sb d ip (0, (ip, d))
  makes :
      (b : ℕ) (ip' : Inode) (d' : Disk)
      → root ip ≡ 0
      → (b == 0) ≡ false
      → Grows sb d ip d' ip'
      → root ip' ≡ b
      → ((bn : ℕ) → bn < maxfile → mapped d' ip' bn ≡ mapped d ip bn)
      → RootRun sb d ip (b, (ip', d'))

root_made :
    (sb : Superblock) (d d' : Disk) (ip : Inode) (b : ℕ)
    → IsInode sb d ip
    → root ip ≡ 0
    → (b == 0) ≡ false
    → Took sb d d' b
    → RootRun sb d ip (b, (record ip { addrs = set ip.addrs ndirect b }, d'))
root_made sb d d' ip b g no_root some_block t =
    let ip' : Inode = record ip { addrs = set ip.addrs ndirect b } in
    let new_root : root ip' ≡ b = get_or-set_self ip.addrs ndirect b 0 (omega (arith, g.slots)) in
    let empty : (j : ℕ) → word (d' b) j ≡ 0 = λ j. word_zero (d' b) j t.zeros in
    let none_before : (root ip == 0) ≡ true = ground arith in
    let some_root : (root ip' == 0) ≡ false = rw new_root some_block in
    let step : (bn : ℕ) → bn < maxfile → mapped d' ip' bn ≡ mapped d ip bn = λ bn h.
      elim (Bool-cases (ltb bn ndirect)) [
        | inl e ↦
            let ne : ndirect ≢ bn = λ q. absurd (ground arith) in
            rw e (get_or-set_ne ip.addrs ndirect bn b 0 ne)
        | inr e ↦ rw (e, none_before, some_root) (rw new_root (empty (bn - ndirect)))
      ] in
    makes b ip' d' no_root some_block
      (Grows-index sb d d' ip ip' b g t.marks t.zeros (λ c h h' _. t.others c h h') t.bitmap
        (length-set ip.addrs ndirect b ∙ g.slots) refl no_root new_root step)
      new_root step

root-Alloc :
    (sb : Superblock) (d : Disk) (ip : Inode) (r : ℕ × Disk)
    → IsInode sb d ip
    → root ip ≡ 0
    → Alloc sb d r
    → RootRun sb d ip (
        if r.0 == 0
        then (0, (ip, r.1))
        else (r.0, (record ip { addrs = set ip.addrs ndirect r.0 }, r.1)))
root-Alloc sb d ip _ g no_root (no_block f) = lacks no_root f
root-Alloc sb d ip _ g no_root (block b d' some_block t) =
    rw some_block (root_made sb d d' ip b g no_root some_block t)

root-RootRun :
    (sb : Superblock) (d : Disk) (ip : Inode)
    → IsInode sb d ip
    → RootRun sb d ip (slot_block sb d ip ndirect)
unfolding slot_block
root-RootRun sb d ip g = elim (Bool-cases (root ip == 0)) [
  | inl e ↦ rw e (root-Alloc sb d ip (balloc sb d) g (is_zero _ e) (balloc-Alloc sb d g.bitmap))
  | inr e ↦ rw e (have e)
]

Gives-after :
    (sb : Superblock) (d d' d'' : Disk) (ip ip' ip'' : Inode) (bn a : ℕ)
    → mapped d ip bn ≡ 0
    → Grows sb d ip d' ip'
    → Gives sb d' ip' bn a d'' ip''
    → Gives sb d ip bn a d'' ip''
Gives-after sb d d' d'' ip ip' ip'' bn a hole grows h = record {
  grows = Grows-trans sb d d' d'' ip ip' ip'' grows h.grows;
  found = h.found;
  old = λ nz. absurd (nz hole);
  no_space = h.no_space;
}

indirect-Gives :
    (sb : Superblock) (d : Disk) (ip : Inode) (s : Step) (k : ℕ)
    → IsInode sb d ip
    → k < nindirect
    → RootRun sb d ip s
    → GivesStep sb d ip (ndirect + k) (indirect_block sb s k)
unfolding indirect_block
indirect-Gives sb d ip _ k g lt (have e) = rw e (entry_block-Gives sb d ip g k (not_zero _ e) lt)
indirect-Gives sb d ip _ k g lt (lacks e f) =
    no_space_left sb d ip g (ndirect + k) (no_root_hole d ip k e) f
indirect-Gives sb d ip _ k g lt (makes b ip' d' e some_block grows e' step) =
    let root_given : root ip' ≢ 0 = λ z. not_zero b some_block (sym e' ∙ z) in
    let entry = entry_block-Gives sb d' ip' grows.good k root_given lt in
    let hole = no_root_hole d ip k e in
    rw some_block (
      subst (λ c. GivesStep sb d ip (ndirect + k) (entry_block sb d' ip' c k)) e'
        (Gives-after sb d d' _ ip ip' _ (ndirect + k) _ hole grows entry))

-- `bmap` of a block number in range, of an inode that owns its blocks in a bitmap that is in order,
-- does not panic. It returns the block that the number has afterwards, which is 0 only if no block of
-- the disk is free. A number that had a block changes neither the inode nor the disk. In all cases the
-- bitmap is in order afterwards and the inode owns its blocks, each of them once; every number keeps
-- the block it had and what that block holds, a block that is new holds zeros, every other block in
-- use is as it was, and all numbers of the inode but its block numbers stay.
pub bmap-Gives :
    (sb : Superblock) (d : Disk) (ip : Inode) (bn : ℕ)
    → IsInode sb d ip
    → bn < maxfile
    → (a : ℕ) × (ip' : Inode) × (d' : Disk) × (bmap sb d ip bn ≡ some (a, (ip', d')))
      × Gives sb d ip bn a d' ip'
unfolding bmap
bmap-Gives sb d ip bn g lt = elim (Bool-cases (ltb bn ndirect)) [
  | inl e ↦
      let s = slot_block sb d ip bn in
      (s.0, s.1.0, s.1.1, rw e refl, slot_block-Gives sb d ip g bn (ground arith))
  | inr e ↦
      let s = indirect_block sb (slot_block sb d ip ndirect) (bn - ndirect) in
      let test : ltb (bn - ndirect) nindirect ≡ true = ground arith in
      let sum : ndirect + (bn - ndirect) ≡ bn = ground arith in
      (
        s.0,
        s.1.0,
        s.1.1,
        rw (e, test) refl,
        subst (λ n. GivesStep sb d ip n s) sum
            (indirect-Gives sb d ip (slot_block sb d ip ndirect) (bn - ndirect) g (ground arith)
              (root-RootRun sb d ip g)),
      )
]
