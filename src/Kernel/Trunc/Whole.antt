-- ===== src/Kernel/Trunc/Whole.antt =====
-- `itrunc` of kernel/fs.c as a whole: which blocks are free afterwards, and what is stored.
use mathlib.Core.Path.{subst}
use sleep_e_pingpong.Base.{
  uint_mod, ℕ, ◌≤◌, ◌<◌, ◌≡◌, refl, sym, ap, ◌∙◌, ◌≢◌, inl, inr, Bool, Bool-cases, true, false, not,
  ◌&&◌, ◌||◌, some, ltb, ◌==◌, get_or, length, arith, ne→==, ==_refl,
}
use sleep_e_pingpong.Kernel.Fs.{Block, Disk, Superblock, bblock}
use sleep_e_pingpong.Kernel.Fs.Bitmap.{is_free, IsData}
use sleep_e_pingpong.Kernel.Inode.{ndirect, maxfile, Inode}
use sleep_e_pingpong.Kernel.Inode.Tree.{root, mapped, IsOther}
use sleep_e_pingpong.Kernel.Inode.Grow.{IsInode}
use sleep_e_pingpong.Kernel.Dinode.{iblock, iupdate, load_inode}
use sleep_e_pingpong.Kernel.Dinode.Stored.{IsNarrow, iupdate-IsStored, load_same}
use sleep_e_pingpong.Kernel.Content.Edit.{frees_same, IsBitmap-same}
use sleep_e_pingpong.Kernel.Content.Change.{All-each}
use sleep_e_pingpong.Kernel.Trunc.{slots_loop, free_index, trunc_index, trunc_end, itrunc}
use sleep_e_pingpong.Kernel.Trunc.Release.{among, among_none, among_some, Releases, Releases-start}
use sleep_e_pingpong.Kernel.Trunc.Slots.{Emptied, slots_loop-Emptied}
use sleep_e_pingpong.Kernel.Trunc.Index.{owned, free_index-Releases}

-- What `itrunc` leaves.
pub record Truncated (sb : Superblock) (d : Disk) (ip : Inode) (ip' : Inode) (d' : Disk)
    : Type 0 where
  pub pages : (bn : ℕ) → bn < maxfile → mapped d ip bn ≢ 0 → is_free sb d' (mapped d ip bn) ≡ true
  pub index : root ip ≢ 0 → is_free sb d' (root ip) ≡ true
  pub others : (c : ℕ) → c < sb.size → IsOther d ip c → is_free sb d' c ≡ is_free sb d c
  pub blocks :
      (c : ℕ) → ((b : ℕ) → b < sb.size → bblock sb b ≢ c) → c ≢ iblock sb ip.inum → d' c ≡ d c
  pub good : IsInode sb d' ip'
  pub empty : (bn : ℕ) → bn < maxfile → mapped d' ip' bn ≡ 0
  pub rest : ip' ≡ record ip { size = 0; addrs = ip'.addrs }
  pub stored : load_inode sb d' ip' ≡ record ip' { valid = true }
  pub inodes :
      (j : Inode)
      → j.inum ≢ ip.inum
      → IsData sb (iblock sb j.inum)
      → load_inode sb d' j ≡ load_inode sb d j

trunc_runs :
    (sb : Superblock) (d d₁ d₂ : Disk) (ip ip₁ ip₂ : Inode)
    → slots_loop ndirect sb d ip 0 ≡ some (ip₁, d₁)
    → free_index sb d₁ ip₁ ≡ some (ip₂, d₂)
    → itrunc sb d ip ≡ some (record ip₂ { size = 0 }, iupdate sb d₂ (record ip₂ { size = 0 }))
unfolding itrunc trunc_index trunc_end
trunc_runs sb d d₁ d₂ ip ip₁ ip₂ e e' = ap (trunc_end sb) (ap (trunc_index sb) e ∙ e')

empty_mapped :
    (d : Disk) (ip : Inode) (bn : ℕ)
    → ((j : ℕ) → j ≤ ndirect → get_or ip.addrs j 0 ≡ 0)
    → mapped d ip bn ≡ 0
empty_mapped d ip bn h = elim (Bool-cases (ltb bn ndirect)) [
  | inl e ↦ rw e (h bn (ground arith))
  | inr e ↦ rw (e, h ndirect (omega arith)) refl
]

start-Emptied : (sb : Superblock) (d : Disk) (ip : Inode) → IsInode sb d ip → Emptied sb d ip 0 ip d
start-Emptied sb d ip g = record {
  releases = Releases-start sb d (mapped d ip) g.bitmap;
  slots = g.slots;
  addrs = λ j. let none_yet : ltb j 0 ≡ false = ground arith in rw none_yet refl;
  rest = refl;
}

or_middle : (a b c : Bool) → b ≡ true → ((a || b) || c) ≡ true
or_middle true b c e = refl
or_middle false b c e = rw e refl

module _ (sb : Superblock) (d : Disk) (ip : Inode) (g : IsInode sb d ip) where
  owned_page :
      (bn : ℕ)
      → bn < maxfile
      → mapped d ip bn ≢ 0
      → (owned sb d ip g (mapped d ip bn) || is_free sb d (mapped d ip bn)) ≡ true
  owned_page bn h nz =
      or_middle (not (root ip == 0) && (mapped d ip bn == root ip))
        (among (mapped d ip) maxfile (mapped d ip bn)) (is_free sb d (mapped d ip bn))
        (among_some (mapped d ip) maxfile bn h nz)

  owned_root : root ip ≢ 0 → (owned sb d ip g (root ip) || is_free sb d (root ip)) ≡ true
  owned_root nz =
      let some_root = ne→== (root ip) 0 nz in
      let same = ==_refl (root ip) in rw (some_root, same) refl

  owned_other : (c : ℕ) → IsOther d ip c → (owned sb d ip g c || is_free sb d c) ≡ is_free sb d c
  owned_other c other =
      let ne = ne→== c (root ip) (λ e. other.1 (sym e)) in
      let none_of = among_none (mapped d ip) maxfile c (λ bn h _. other.0 bn h) in
      elim (Bool-cases (root ip == 0)) [
        | inl z ↦ rw (z, none_of) refl
        | inr z ↦ rw (z, ne, none_of) refl
      ]

-- The blocks are free and the block numbers 0; the size and `iupdate` are left to do.
module _ (sb : Superblock) (d d₂ : Disk) (ip ip₂ : Inode) (g : IsInode sb d ip)
    (narrow : IsNarrow ip) (page : IsData sb (iblock sb ip.inum))
    (r : Releases sb d d₂ (owned sb d ip g))
    (zeros : (j : ℕ) → j ≤ ndirect → get_or ip₂.addrs j 0 ≡ 0) (slots : length ip₂.addrs ≡ 13)
    (rest : ip₂ ≡ record ip { addrs = ip₂.addrs }) where
  abbrev ip₃ : Inode
  ip₃ = record ip₂ { size = 0 }

  ip₃_rest : ip₃ ≡ record ip { size = 0; addrs = ip₂.addrs }
  ip₃_rest = ap (λ (x : Inode). record x { size = 0; addrs = ip₂.addrs }) rest

  ip₃-IsNarrow : IsNarrow ip₃
  ip₃-IsNarrow = record {
    kind = subst (λ (x : Inode). x.kind < 65536) (sym ip₃_rest) narrow.kind;
    major = subst (λ (x : Inode). x.major < 65536) (sym ip₃_rest) narrow.major;
    minor = subst (λ (x : Inode). x.minor < 65536) (sym ip₃_rest) narrow.minor;
    nlink = subst (λ (x : Inode). x.nlink < 65536) (sym ip₃_rest) narrow.nlink;
    size = omega arith;
    addrs =
        All-each (λ a. a < uint_mod) ip₂.addrs
          (λ i h.
            subst (λ a. a < uint_mod) (sym (zeros i (omega (arith, h, slots)))) (omega arith));
    slots = slots;
  }

  trunc-Truncated : Truncated sb d ip ip₃ (iupdate sb d₂ ip₃)
  trunc-Truncated =
      let inum : ip₃.inum ≡ ip.inum = ap (λ (x : Inode). x.inum) ip₃_rest in
      let place : iblock sb ip₃.inum ≡ iblock sb ip.inum = ap (iblock sb) inum in
      let s = iupdate-IsStored sb d₂ ip₃ ip₃-IsNarrow in
      let kept : (c : ℕ) → c ≢ iblock sb ip.inum → iupdate sb d₂ ip₃ c ≡ d₂ c =
        λ c h. s.blocks c (λ e. h (e ∙ place)) in
      let map : (b : ℕ) → b < sb.size → iupdate sb d₂ ip₃ (bblock sb b) ≡ d₂ (bblock sb b) =
        λ b h. kept (bblock sb b) (page.no_map b h) in
      let frees = frees_same sb d₂ (iupdate sb d₂ ip₃) map in
      let o = g.owns in
      let empty : (bn : ℕ) → mapped (iupdate sb d₂ ip₃) ip₃ bn ≡ 0 =
        λ bn. empty_mapped (iupdate sb d₂ ip₃) ip₃ bn zeros in
      record {
        pages = λ bn h nz.
            let bound = (o.pages bn h nz).0.bound in
            frees (mapped d ip bn) bound
            ∙ r.map (mapped d ip bn) bound
            ∙ owned_page sb d ip g bn h nz;
        index = λ nz.
            let bound = (o.index nz).0.bound in
            frees (root ip) bound ∙ r.map (root ip) bound ∙ owned_root sb d ip g nz;
        others = λ c h other. frees c h ∙ r.map c h ∙ owned_other sb d ip g c other;
        blocks = λ c h ne. kept c ne ∙ r.same c h;
        good = record {
          fits = g.fits;
          bitmap =
              IsBitmap-same sb d₂ (iupdate sb d₂ ip₃) (omega (arith, page.bound)) map
                (s.bytes r.bitmap.bytes) r.bitmap;
          slots = slots;
          owns = record {
            pages = λ bn h nz. absurd (nz (empty bn));
            index = λ nz. absurd (nz (zeros ndirect (omega arith)));
            distinct = λ bn bm h h' nz e. absurd (nz (empty bn));
            apart = λ bn h nz. absurd (nz (empty bn));
          };
        };
        empty = λ bn h. empty bn;
        rest = ip₃_rest;
        stored = s.own ip₃ refl;
        inodes = λ j ne p.
            s.other j (λ e. ne (e ∙ inum))
            ∙ load_same sb d d₂ j
                (λ b _ _. ap (λ (blk : Block). blk b) (r.same (iblock sb j.inum) p.no_map));
      }

-- `itrunc` of an inode that owns its blocks, whose numbers have the widths of the disk's fields and
-- which lies in a data block. It does not panic. Every block that the inode had, and its indirect
-- block, is free afterwards, every other block is as free as before; no block changes but those of the
-- bitmap and the one with the inode. The inode has size 0 and no blocks, its other numbers stay, the
-- bitmap is in order, the inode on the disk loads as the one in memory, and every other inode loads as
-- before.
pub itrunc-Truncated :
    (sb : Superblock) (d : Disk) (ip : Inode)
    → IsInode sb d ip
    → IsNarrow ip
    → IsData sb (iblock sb ip.inum)
    → (ip' : Inode) × (d' : Disk) × (itrunc sb d ip ≡ some (ip', d')) × Truncated sb d ip ip' d'
itrunc-Truncated sb d ip g narrow page =
    let (ip₁, d₁, e, emptied) =
      slots_loop-Emptied sb d ip g ndirect 0 ip d (omega arith) (start-Emptied sb d ip g) in
    let (ip₂, d₂, e', r, zeros, slots, rest) = free_index-Releases sb d ip g ip₁ d₁ emptied in
    (
      record ip₂ { size = 0 },
      iupdate sb d₂ (record ip₂ { size = 0 }),
      trunc_runs sb d d₁ d₂ ip ip₁ ip₂ e e',
      trunc-Truncated sb d d₂ ip ip₂ g narrow page r zeros slots rest,
    )
