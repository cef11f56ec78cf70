-- ===== src/Kernel/Fs/Balloc.antt =====
-- `balloc` of kernel/fs.c: which block it takes, and what it writes.
use mathlib.Core.Path.{subst}
use sleep_e_pingpong.Base.{
  ℕ, zero, suc, ◌+◌, ◌-◌, ◌*◌, ◌/◌, ◌%◌, ◌≤◌, ◌<◌, ◌≡◌, refl, ap, ◌∙◌, ◌≢◌, inl, inr, Bool-cases,
  Option, none, some, true, false, not, ◌&&◌, ltb, ◌==◌, arith, ==_refl, ne→==,
}
use sleep_e_pingpong.Kernel.Fs.{
  bpb, Block, Disk, log_write, Superblock, bblock, bzero, is_clear, set_bit, scan_bits, take_block,
  balloc_loop, balloc,
}
use sleep_e_pingpong.Kernel.Fs.Bits.{IsBytes, set_bit-IsBytes, is_clear-set_bit}
use sleep_e_pingpong.Kernel.Fs.Bitmap.{is_free, IsBitmap, IsData, mod_eq}

-- What a scan of one block of the bitmap finds.
data ScanRun (sb : Superblock) (blk : Block) (b left bi : ℕ) : Option ℕ → Type 0 where
  hit :
      (i : ℕ)
      → bi ≤ i
      → i < bi + left
      → b + i < sb.size
      → is_clear blk i ≡ true
      → ((j : ℕ) → bi ≤ j → j < i → is_clear blk j ≡ false)
      → ScanRun sb blk b left bi (some i)
  miss :
      ((j : ℕ) → bi ≤ j → j < bi + left → b + j < sb.size → is_clear blk j ≡ false)
      → ScanRun sb blk b left bi none

scan_cons :
    (sb : Superblock) (blk : Block) (b left bi : ℕ) (r : Option ℕ)
    → is_clear blk bi ≡ false
    → ScanRun sb blk b left (bi + 1) r
    → ScanRun sb blk b (suc left) bi r
scan_cons sb blk b left bi _ e (hit i ge lt lt_size free before) =
    hit i (omega arith) (omega arith) lt_size free (λ j ge_j lt_j. elim (Bool-cases (j == bi)) [
      | inl h ↦ let h' : j ≡ bi = ground arith in rw h' e
      | inr h ↦ before j (ground arith) lt_j
    ])
scan_cons sb blk b left bi _ e (miss before) = miss (λ j ge_j lt_j lt_size.
    elim (Bool-cases (j == bi)) [
      | inl h ↦ let h' : j ≡ bi = ground arith in rw h' e
      | inr h ↦ before j (ground arith) (omega arith) lt_size
    ])

scan_bits-ScanRun :
    (sb : Superblock) (blk : Block) (b left bi : ℕ)
    → ScanRun sb blk b left bi (scan_bits sb blk b left bi)
unfolding scan_bits
scan_bits-ScanRun sb blk b zero bi = miss (λ j ge lt. absurd (omega arith))
scan_bits-ScanRun sb blk b (suc left) bi =
    let rest = scan_bits-ScanRun sb blk b left (bi + 1) in
    elim (Bool-cases (ltb (b + bi) sb.size)) [
      | inl e ↦ elim (Bool-cases (is_clear blk bi)) [
        | inl e' ↦ rw e (
            rw e' (
              hit bi (omega arith) (omega arith) (ground arith) e'
                (λ j ge lt. absurd (omega arith))))
        | inr e' ↦ rw e (rw e' (scan_cons sb blk b left bi _ e' rest))
      ]
      | inr e ↦ rw e (miss (λ j ge lt lt_size. absurd (ground arith)))
    ]

-- What `balloc` may do.
pub data BallocRun (sb : Superblock) (d : Disk) : ℕ × Disk → Type 0 where
  full : ((b : ℕ) → b < sb.size → is_free sb d b ≡ false) → BallocRun sb d (0, d)
  takes :
      (b : ℕ) (d' : Disk)
      → b < sb.size
      → is_free sb d b ≡ true
      → ((c : ℕ) → c < b → is_free sb d c ≡ false)
      → ((c : ℕ) → c < sb.size → is_free sb d' c ≡ (not (c == b) && is_free sb d c))
      → ((i : ℕ) → d' b i ≡ 0)
      → ((c : ℕ) → c ≢ b → c ≢ bblock sb b → d' c ≡ d c)
      → IsBitmap sb d'
      → BallocRun sb d (b, d')

-- The two writes of `balloc` for block `n`.
abbrev taken : Superblock → Disk → ℕ → Disk
taken sb d n = bzero (log_write d (bblock sb n) (set_bit (d (bblock sb n)) (n % bpb))) n

module _ (sb : Superblock) (d : Disk) (n : ℕ) (w : IsBitmap sb d) (lt : n < sb.size)
    (free : is_free sb d n ≡ true) where
  -- A free block is no block of the bitmap.
  apart : (c : ℕ) → c < sb.size → bblock sb c ≢ n
  apart c h e = let own = w.own c h in let own' = rw e at own in cc

  taken_zero : (i : ℕ) → taken sb d n n i ≡ 0
  unfolding bzero log_write
  taken_zero i = let e = ==_refl n in rw e refl

  taken_other : (c : ℕ) → c ≢ n → c ≢ bblock sb n → taken sb d n c ≡ d c
  unfolding bzero log_write
  taken_other c h h' = let e = ne→== c n h in let e' = ne→== c (bblock sb n) h' in rw e (rw e' refl)

  taken_map : taken sb d n (bblock sb n) ≡ set_bit (d (bblock sb n)) (n % bpb)
  unfolding bzero log_write
  taken_map =
      let e = ne→== (bblock sb n) n (apart n lt) in
      let e' = ==_refl (bblock sb n) in rw e (rw e' refl)

  taken-IsBytes : (b : ℕ) → IsBytes (taken sb d n b)
  unfolding bzero log_write
  taken-IsBytes b i =
      let old = w.bytes b i in
      let new = set_bit-IsBytes (d (bblock sb n)) (n % bpb) (w.bytes (bblock sb n)) i in
      elim (Bool-cases (b == n)) [
        | inl e ↦ rw e (omega arith)
        | inr e ↦
            rw e (elim (Bool-cases (b == bblock sb n)) [ inl e' ↦ rw e' new | inr e' ↦ rw e' old ])
      ]

  taken_free :
      (c : ℕ) → c < sb.size → is_free sb (taken sb d n) c ≡ (not (c == n) && is_free sb d c)
  taken_free c h = elim (Bool-cases (bblock sb c == bblock sb n)) [
    | inl e ↦
        let q : bblock sb c ≡ bblock sb n = ground arith in
        let m = is_clear-set_bit (d (bblock sb n)) (n % bpb) (c % bpb) (w.bytes (bblock sb n)) in
        let same_bit : ((c % bpb) == (n % bpb)) ≡ (c == n) = mod_eq sb c n q in
        rw q (rw taken_map (rw same_bit at m))
    | inr e ↦
        let q : bblock sb c ≢ bblock sb n = ground arith in
        let other : (c == n) ≡ false = ne→== c n (λ h'. q (ap (bblock sb) h')) in
        rw (taken_other (bblock sb c) (apart c h) q) (rw other refl)
  ]

  taken-IsBitmap : IsBitmap sb (taken sb d n)
  taken-IsBitmap = record {
    bytes = taken-IsBytes;
    inside = w.inside;
    own = λ b h.
        let e = taken_free (bblock sb b) (w.inside b h) in let old = w.own b h in ground arith;
    boot = let e = taken_free 0 (omega arith) in let old = w.boot in ground arith;
  }

  taken-BallocRun : ((c : ℕ) → c < n → is_free sb d c ≡ false) → BallocRun sb d (n, taken sb d n)
  taken-BallocRun before =
      takes n (taken sb d n) lt free before taken_free taken_zero taken_other taken-IsBitmap

-- The bit `bi` of the block of the bitmap that starts at block `k * bpb`.
bblock_at : (sb : Superblock) (k bi : ℕ) → bi < bpb → bblock sb (k * bpb + bi) ≡ bblock sb (k * bpb)
unfolding bblock
bblock_at sb k bi h = omega arith

is_free_at :
    (sb : Superblock) (d : Disk) (k bi : ℕ)
    → bi < bpb
    → is_free sb d (k * bpb + bi) ≡ is_clear (d (bblock sb (k * bpb))) bi
is_free_at sb d k bi h =
    let e : (k * bpb + bi) % bpb ≡ bi = omega arith in rw (bblock_at sb k bi h, e) refl

take_block_at :
    (sb : Superblock) (d : Disk) (k bi : ℕ)
    → bi < bpb
    → take_block sb d (k * bpb) bi ≡ (k * bpb + bi, taken sb d (k * bpb + bi))
unfolding take_block
take_block_at sb d k bi h =
    let e : (k * bpb + bi) % bpb ≡ bi = omega arith in rw (bblock_at sb k bi h, e) refl

-- The blocks before the next one of the bitmap, when the scan of this one found none free.
scanned :
    (sb : Superblock) (d : Disk) (k : ℕ)
    → ((c : ℕ) → c < sb.size → c < k * bpb → is_free sb d c ≡ false)
    → ((j : ℕ)
        → 0 ≤ j
        → j < 0 + bpb
        → k * bpb + j < sb.size
        → is_clear (d (bblock sb (k * bpb))) j ≡ false)
    → (c : ℕ) → c < sb.size
    → c < (k + 1) * bpb
    → is_free sb d c ≡ false
scanned sb d k before none_free c lt_size lt = elim (Bool-cases (ltb c (k * bpb))) [
  | inl e ↦ before c lt_size (ground arith)
  | inr e ↦
      let j : ℕ = c - k * bpb in
      let at_c : k * bpb + j ≡ c = ground arith in
      subst (λ x. is_free sb d x ≡ false) at_c
        (is_free_at sb d k j (ground arith)
          ∙ none_free j (omega arith) (ground arith) (ground arith))
]

balloc_found :
    (sb : Superblock) (d : Disk) (k bi : ℕ)
    → IsBitmap sb d
    → ((c : ℕ) → c < sb.size → c < k * bpb → is_free sb d c ≡ false)
    → bi < bpb
    → k * bpb + bi < sb.size
    → is_clear (d (bblock sb (k * bpb))) bi ≡ true
    → ((j : ℕ) → 0 ≤ j → j < bi → is_clear (d (bblock sb (k * bpb))) j ≡ false)
    → BallocRun sb d (take_block sb d (k * bpb) bi)
balloc_found sb d k bi w before lt lt_size clear first =
    let n : ℕ = k * bpb + bi in
    let free = is_free_at sb d k bi lt ∙ clear in
    let earlier : (c : ℕ) → c < n → is_free sb d c ≡ false = λ c h.
      elim (Bool-cases (ltb c (k * bpb))) [
        | inl e ↦ before c (omega arith) (ground arith)
        | inr e ↦
            let j : ℕ = c - k * bpb in
            let at_c : k * bpb + j ≡ c = ground arith in
            subst (λ x. is_free sb d x ≡ false) at_c
              (is_free_at sb d k j (ground arith) ∙ first j (omega arith) (ground arith))
      ] in
    rw (take_block_at sb d k bi lt) (taken-BallocRun sb d n w lt_size free earlier)

balloc_scanned :
    (sb : Superblock) (d : Disk) (rounds k : ℕ) (r : Option ℕ)
    → IsBitmap sb d
    → ((c : ℕ) → c < sb.size → c < k * bpb → is_free sb d c ≡ false)
    → sb.size ≤ (k + suc rounds) * bpb
    → ScanRun sb (d (bblock sb (k * bpb))) (k * bpb) bpb 0 r
    → (((c : ℕ) → c < sb.size → c < (k + 1) * bpb → is_free sb d c ≡ false)
        → BallocRun sb d (balloc_loop sb d rounds ((k + 1) * bpb)))
    → BallocRun sb d (elim r [
      | none ↦ balloc_loop sb d rounds (k * bpb + bpb)
      | some bi ↦ take_block sb d (k * bpb) bi
    ])
balloc_scanned sb d rounds k _ w before enough (hit bi _ lt lt_size clear first) rest =
    balloc_found sb d k bi w before lt lt_size clear first
balloc_scanned sb d rounds k _ w before enough (miss none_free) rest =
    subst (λ x. BallocRun sb d (balloc_loop sb d rounds x)) (omega arith)
      (rest (scanned sb d k before none_free))

balloc_loop-BallocRun :
    (sb : Superblock) (d : Disk) (rounds k : ℕ)
    → IsBitmap sb d
    → ((c : ℕ) → c < sb.size → c < k * bpb → is_free sb d c ≡ false)
    → sb.size ≤ (k + rounds) * bpb
    → BallocRun sb d (balloc_loop sb d rounds (k * bpb))
unfolding balloc_loop
balloc_loop-BallocRun sb d zero k w before enough = full (λ c h. before c h (omega arith))
balloc_loop-BallocRun sb d (suc rounds) k w before enough =
    elim (Bool-cases (ltb (k * bpb) sb.size)) [
      | inl e ↦ rw e (
          balloc_scanned sb d rounds k _ w before enough
            (scan_bits-ScanRun sb (d (bblock sb (k * bpb))) (k * bpb) bpb 0)
            (λ before'. balloc_loop-BallocRun sb d rounds (k + 1) w before' (omega arith)))
      | inr e ↦ rw e (full (λ c h. before c h (ground arith)))
    ]

-- Where the bitmap is in order, `balloc` returns the first block that it has as free, marks it as
-- used, fills it with zeros, and changes no other block than it and its block of the bitmap, and no
-- other block's bit. It returns 0 and changes nothing exactly when no block is free.
pub balloc-BallocRun : (sb : Superblock) (d : Disk) → IsBitmap sb d → BallocRun sb d (balloc sb d)
unfolding balloc
balloc-BallocRun sb d w =
    balloc_loop-BallocRun sb d (sb.size / bpb + 1) 0 w (λ c _ h. absurd (omega arith)) (omega arith)

pub free-IsData :
    (sb : Superblock) (d : Disk) (b : ℕ)
    → IsBitmap sb d
    → b < sb.size
    → is_free sb d b ≡ true
    → IsData sb b
free-IsData sb d b w lt free = record {
  bound = lt;
  nonzero = λ e. let boot = w.boot in let free' = rw e at free in cc;
  no_map = λ c h. apart sb d b w lt free c h;
}
