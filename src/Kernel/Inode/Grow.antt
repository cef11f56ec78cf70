-- ===== src/Kernel/Inode/Grow.antt =====
-- An inode of kernel/fs.c that gets a new block keeps the blocks and the content that it has.
use mathlib.Core.Path.{subst}
use sleep_e_pingpong.Base.{
  uint_mod, ℕ, ◌≤◌, ◌<◌, ◌≡◌, refl, sym, ap, ◌∙◌, ◌≢◌, inl, inr, Bool-cases, true, false, ◌==◌,
  if◌then◌else◌, length, arith, ne→==,
}
use sleep_e_pingpong.Kernel.Fs.{Block, Disk, Superblock, bblock}
use sleep_e_pingpong.Kernel.Fs.Bitmap.{IsBitmap}
use sleep_e_pingpong.Kernel.Inode.{maxfile, Inode}
use sleep_e_pingpong.Kernel.Inode.Tree.{
  root, mapped, IsUsed, IsOther, Owns, Marks, Marks-used, Owns-page, Owns-index,
}

-- The bitmap is in order, and the inode has its 13 slots and owns its blocks.
pub record IsInode (sb : Superblock) (d : Disk) (ip : Inode) : Type 0 where
  pub fits : sb.size ≤ uint_mod
  pub bitmap : IsBitmap sb d
  pub slots : length ip.addrs ≡ 13
  pub owns : Owns sb d (mapped d ip) (root ip)

-- What a change of the inode leaves of a block in use that is not the inode's.
pub record Spares (sb : Superblock) (d : Disk) (ip : Inode) (d' : Disk) (ip' : Inode) (c : ℕ)
    : Type 0 where
  pub used : IsUsed sb d' c
  pub other : IsOther d' ip' c
  pub kept : d' c ≡ d c

-- The inode has kept its blocks and what they hold; a new block holds zeros.
pub record Grows (sb : Superblock) (d : Disk) (ip : Inode) (d' : Disk) (ip' : Inode) : Type 0 where
  pub good : IsInode sb d' ip'
  pub kept : (bn : ℕ) → bn < maxfile → mapped d ip bn ≢ 0 → mapped d' ip' bn ≡ mapped d ip bn
  pub same : (bn : ℕ) → bn < maxfile → mapped d ip bn ≢ 0 → d' (mapped d ip bn) ≡ d (mapped d ip bn)
  pub fresh :
      (bn : ℕ)
      → bn < maxfile
      → mapped d ip bn ≡ 0
      → mapped d' ip' bn ≢ 0
      → (i : ℕ) → d' (mapped d' ip' bn) i ≡ 0
  pub outside : (c : ℕ) → IsUsed sb d c → IsOther d ip c → Spares sb d ip d' ip' c
  pub rest : ip' ≡ record ip { addrs = ip'.addrs }

pub Grows-refl : (sb : Superblock) (d : Disk) (ip : Inode) → IsInode sb d ip → Grows sb d ip d ip
Grows-refl sb d ip g = record {
  good = g;
  kept = λ bn h nz. refl;
  same = λ bn h nz. refl;
  fresh = λ bn h z nz. absurd (nz z);
  outside = λ c used other. record { used = used; other = other; kept = refl };
  rest = refl;
}

pub is_zero : (a : ℕ) → (a == 0) ≡ true → a ≡ 0
is_zero a h = ground arith

pub not_zero : (a : ℕ) → (a == 0) ≡ false → a ≢ 0
not_zero a h = ground arith

pub rest_trans :
    (ip₀ ip₁ ip₂ : Inode)
    → ip₁ ≡ record ip₀ { addrs = ip₁.addrs }
    → ip₂ ≡ record ip₁ { addrs = ip₂.addrs }
    → ip₂ ≡ record ip₀ { addrs = ip₂.addrs }
rest_trans ip₀ ip₁ ip₂ e e' = e' ∙ ap (λ (x : Inode). record x { addrs = ip₂.addrs }) e

pub Grows-trans :
    (sb : Superblock) (d₀ d₁ d₂ : Disk) (ip₀ ip₁ ip₂ : Inode)
    → Grows sb d₀ ip₀ d₁ ip₁
    → Grows sb d₁ ip₁ d₂ ip₂
    → Grows sb d₀ ip₀ d₂ ip₂
Grows-trans sb d₀ d₁ d₂ ip₀ ip₁ ip₂ g h =
    let still : (bn : ℕ) → bn < maxfile → mapped d₀ ip₀ bn ≢ 0 → mapped d₁ ip₁ bn ≢ 0 =
      λ bn lt nz z. nz (sym (g.kept bn lt nz) ∙ z) in
    record {
      good = h.good;
      kept = λ bn lt nz. h.kept bn lt (still bn lt nz) ∙ g.kept bn lt nz;
      same = λ bn lt nz.
          let e = h.same bn lt (still bn lt nz) in rw (g.kept bn lt nz) at e ∙ g.same bn lt nz;
      fresh = λ bn lt z nz i. elim (Bool-cases (mapped d₁ ip₁ bn == 0)) [
        | inl e ↦ h.fresh bn lt (ground arith) nz i
        | inr e ↦
            let nz₁ : mapped d₁ ip₁ bn ≢ 0 = not_zero _ e in
            subst (λ a. d₂ a i ≡ 0) (sym (h.kept bn lt nz₁))
              (ap (λ (blk : Block). blk i) (h.same bn lt nz₁) ∙ g.fresh bn lt z nz₁ i)
      ];
      outside = λ c used other.
          let s = g.outside c used other in
          let s' = h.outside c s.used s.other in
          record { used = s'.used; other = s'.other; kept = s'.kept ∙ s.kept };
      rest = rest_trans ip₀ ip₁ ip₂ g.rest h.rest;
    }

-- A new block at number `n`. The indirect block may have changed as well.
module _ (sb : Superblock) (d d' : Disk) (ip ip' : Inode) (b : ℕ) (g : IsInode sb d ip)
    (m : Marks sb d d' b) (zeros : (i : ℕ) → d' b i ≡ 0)
    (others : (c : ℕ) → c ≢ b → c ≢ bblock sb b → c ≢ root ip → d' c ≡ d c)
    (bitmap : IsBitmap sb d') (slots : length ip'.addrs ≡ 13)
    (same_rest : ip' ≡ record ip { addrs = ip'.addrs }) where
  block_same :
      (bn : ℕ) → bn < maxfile → mapped d ip bn ≢ 0 → d' (mapped d ip bn) ≡ d (mapped d ip bn)
  block_same bn lt nz =
      let o = g.owns in
      let used = o.pages bn lt nz in
      let page = used.0 in
      let mine = m.page in
      others (mapped d ip bn) (Marks-used sb d d' b m (mapped d ip bn) used).0
        (λ e. page.no_map b mine.bound (sym e)) (o.apart bn lt nz)

  spared_used : (c : ℕ) → IsUsed sb d c → IsUsed sb d' c
  spared_used c used = (Marks-used sb d d' b m c used).1

  spared_kept : (c : ℕ) → IsUsed sb d c → root ip ≢ c → d' c ≡ d c
  spared_kept c used h =
      others c (Marks-used sb d d' b m c used).0 (λ e. used.0.no_map b m.page.bound (sym e))
        (λ e. h (sym e))

  pub Grows-page :
      (n : ℕ)
      → n < maxfile
      → mapped d ip n ≡ 0
      → ((bn : ℕ) → bn < maxfile → mapped d' ip' bn ≡ (if bn == n then b else mapped d ip bn))
      → root ip' ≡ root ip
      → Grows sb d ip d' ip'
  Grows-page n lt hole step same_root = record {
    good = record {
      fits = g.fits;
      bitmap = bitmap;
      slots = slots;
      owns =
          rw same_root
            (Owns-page sb d d' b m (mapped d ip) (mapped d' ip') (root ip) n lt hole step g.owns);
    };
    kept = λ bn h nz.
        let other : (bn == n) ≡ false = ne→== bn n (λ e. nz (rw e hole)) in
        step bn h ∙ (rw other refl);
    same = block_same;
    fresh = λ bn h z nz i. elim (Bool-cases (bn == n)) [
      | inl e ↦ subst (λ a. d' a i ≡ 0) (sym (step bn h ∙ (rw e refl))) (zeros i)
      | inr e ↦ absurd (nz (step bn h ∙ (rw e z)))
    ];
    outside = λ c used other. record {
      used = spared_used c used;
      other = (
        λ bn h e. elim (Bool-cases (bn == n)) [
          | inl q ↦ (Marks-used sb d d' b m c used).0 (sym (sym (step bn h ∙ (rw q refl)) ∙ e))
          | inr q ↦ other.0 bn h (sym (step bn h ∙ (rw q refl)) ∙ e)
        ],
        λ e. other.1 (sym same_root ∙ e),
      );
      kept = spared_kept c used other.1;
    };
    rest = same_rest;
  }

  pub Grows-index :
      root ip ≡ 0
      → root ip' ≡ b
      → ((bn : ℕ) → bn < maxfile → mapped d' ip' bn ≡ mapped d ip bn)
      → Grows sb d ip d' ip'
  Grows-index no_root new_root step = record {
    good = record {
      fits = g.fits;
      bitmap = bitmap;
      slots = slots;
      owns = subst (Owns sb d' (mapped d' ip')) (sym new_root) (
          Owns-index sb d d' b m (mapped d ip) (mapped d' ip') step
            (subst (Owns sb d (mapped d ip)) no_root g.owns));
    };
    kept = λ bn h nz. step bn h;
    same = block_same;
    fresh = λ bn h z nz i. absurd (nz (step bn h ∙ z));
    outside = λ c used other. record {
      used = spared_used c used;
      other = (
        λ bn h e. other.0 bn h (sym (step bn h) ∙ e),
        λ e. (Marks-used sb d d' b m c used).0 (sym (sym new_root ∙ e)),
      );
      kept = spared_kept c used other.1;
    };
    rest = same_rest;
  }
