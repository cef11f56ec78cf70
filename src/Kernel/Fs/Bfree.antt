-- ===== src/Kernel/Fs/Bfree.antt =====
-- `bfree` of kernel/fs.c.
use sleep_e_pingpong.Base.{
  ℕ, ◌%◌, ◌<◌, ◌≡◌, refl, sym, ap, ◌≢◌, ◌⊎◌, inl, inr, Bool-cases, none, some, true, false, ◌==◌,
  if◌then◌else◌, arith, ==_refl, ne→==,
}
use sleep_e_pingpong.Kernel.Fs.{bpb, Disk, log_write, Superblock, bblock, clear_bit, bfree}
use sleep_e_pingpong.Kernel.Fs.Bits.{IsBytes, clear_bit-IsBytes, is_clear-clear_bit}
use sleep_e_pingpong.Kernel.Fs.Bitmap.{is_free, IsBitmap, IsData, mod_eq}

-- `d'` is `d` but for the bit of block `b`, which is free now.
pub record Freed (sb : Superblock) (d : Disk) (b : ℕ) (d' : Disk) : Type 0 where
  pub map : (c : ℕ) → c < sb.size → is_free sb d' c ≡ (if c == b then true else is_free sb d c)
  pub others : (c : ℕ) → c ≢ bblock sb b → d' c ≡ d c
  pub bitmap : IsBitmap sb d'

module _ (sb : Superblock) (d : Disk) (b : ℕ) (w : IsBitmap sb d) (page : IsData sb b) where
  abbrev cleared : Disk
  cleared = log_write d (bblock sb b) (clear_bit (d (bblock sb b)) (b % bpb))

  cleared_other : (c : ℕ) → c ≢ bblock sb b → cleared c ≡ d c
  unfolding log_write
  cleared_other c h = let e = ne→== c (bblock sb b) h in rw e refl

  cleared_map : cleared (bblock sb b) ≡ clear_bit (d (bblock sb b)) (b % bpb)
  unfolding log_write
  cleared_map = let e = ==_refl (bblock sb b) in rw e refl

  cleared-IsBytes : (c : ℕ) → IsBytes (cleared c)
  unfolding log_write
  cleared-IsBytes c i =
      let old = w.bytes c i in
      let new = clear_bit-IsBytes (d (bblock sb b)) (b % bpb) (w.bytes (bblock sb b)) i in
      elim (Bool-cases (c == bblock sb b)) [ inl e ↦ rw e new | inr e ↦ rw e old ]

  cleared_free :
      (c : ℕ) → c < sb.size → is_free sb cleared c ≡ (if c == b then true else is_free sb d c)
  cleared_free c h = elim (Bool-cases (bblock sb c == bblock sb b)) [
    | inl e ↦
        let q : bblock sb c ≡ bblock sb b = ground arith in
        let m = is_clear-clear_bit (d (bblock sb b)) (b % bpb) (c % bpb) (w.bytes (bblock sb b)) in
        let same_bit : ((c % bpb) == (b % bpb)) ≡ (c == b) = mod_eq sb c b q in
        rw q (rw cleared_map (rw same_bit at m))
    | inr e ↦
        let q : bblock sb c ≢ bblock sb b = ground arith in
        let other : (c == b) ≡ false = ne→== c b (λ h'. q (ap (bblock sb) h')) in
        rw (cleared_other (bblock sb c) q) (rw other refl)
  ]

  cleared-Freed : Freed sb d b cleared
  cleared-Freed = record {
    map = cleared_free;
    others = cleared_other;
    bitmap = record {
      bytes = cleared-IsBytes;
      inside = w.inside;
      own = λ c h.
          let ne = ne→== (bblock sb c) b (page.no_map c h) in
          let e = cleared_free (bblock sb c) (w.inside c h) in let old = w.own c h in ground arith;
      boot =
          let ne = ne→== 0 b (λ e. page.nonzero (sym e)) in
          let e = cleared_free 0 (omega (arith, page.bound)) in let old = w.boot in ground arith;
    };
  }

-- `bfree` of a data block panics when the bitmap has the block as free, and otherwise marks it as free
-- and changes no other block's bit and no other block of the disk.
pub bfree-Freed :
    (sb : Superblock) (d : Disk) (b : ℕ)
    → IsBitmap sb d
    → IsData sb b
    → ((is_free sb d b ≡ true) × (bfree sb d b ≡ none))
      ⊎ ((is_free sb d b ≡ false) × ((d' : Disk) × (bfree sb d b ≡ some d') × Freed sb d b d'))
unfolding bfree
bfree-Freed sb d b w page = elim (Bool-cases (is_free sb d b)) [
  | inl e ↦ inl (e, rw e refl)
  | inr e ↦ inr (e, (cleared sb d b w page, rw e refl, cleared-Freed sb d b w page))
]
