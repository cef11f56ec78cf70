-- ===== src/Kernel/Trunc/Release.antt =====
-- Freeing the blocks of an inode of kernel/fs.c one after the other, up to a number.
use sleep_e_pingpong.Base.{
  ℕ, zero, suc, ◌<◌, ◌≡◌, refl, sym, ◌∙◌, ◌≢◌, inl, inr, Bool, Bool-cases, true, false, not, ◌&&◌,
  ◌||◌, some, ◌==◌, arith, ne→==, ==_refl,
}
use sleep_e_pingpong.Kernel.Fs.{Disk, Superblock, bblock, bfree}
use sleep_e_pingpong.Kernel.Fs.Bitmap.{is_free, IsBitmap}
use sleep_e_pingpong.Kernel.Fs.Bfree.{bfree-Freed}
use sleep_e_pingpong.Kernel.Inode.Tree.{IsUsed}
use sleep_e_pingpong.Kernel.Inode.Grow.{is_zero, not_zero}
use sleep_e_pingpong.Kernel.Trunc.{free_block}

-- Whether `c` is one of the blocks that `f` gives to the numbers below `n`.
pub among : (ℕ → ℕ) → ℕ → ℕ → Bool
among f zero c = false
among f (suc n) c = (not (f n == 0) && (c == f n)) || among f n c

pub among_none :
    (f : ℕ → ℕ) (n c : ℕ) → ((bn : ℕ) → bn < n → f bn ≢ 0 → f bn ≢ c) → among f n c ≡ false
unfolding among
among_none f zero c h = refl
among_none f (suc n) c h =
    let rest = among_none f n c (λ bn l. h bn (omega (arith, l))) in
    elim (Bool-cases (f n == 0)) [
      | inl z ↦ rw (z, rest) refl
      | inr z ↦
          let ne = ne→== c (f n) (λ e. h n (omega arith) (not_zero _ z) (sym e)) in
          rw (z, ne, rest) refl
    ]

pub among_some : (f : ℕ → ℕ) (n bn : ℕ) → bn < n → f bn ≢ 0 → among f n (f bn) ≡ true
unfolding among
among_some f zero bn l nz = absurd (omega (arith, l))
among_some f (suc n) bn l nz = elim (Bool-cases (bn == n)) [
  | inl e ↦
      let q : n ≡ bn = ground arith in
      let nz' = ne→== (f bn) 0 nz in let same = ==_refl (f bn) in rw q (rw (nz', same) refl)
  | inr e ↦
      let rest = among_some f n bn (ground arith) nz in
      elim (Bool-cases (not (f n == 0) && (f bn == f n))) [
        | inl z ↦ rw z refl
        | inr z ↦ rw (z, rest) refl
      ]
]

-- The blocks that `p` names have become free; no block but the bitmap's has changed.
pub record Releases (sb : Superblock) (d d' : Disk) (p : ℕ → Bool) : Type 0 where
  pub map : (c : ℕ) → c < sb.size → is_free sb d' c ≡ (p c || is_free sb d c)
  pub same : (c : ℕ) → ((b : ℕ) → b < sb.size → bblock sb b ≢ c) → d' c ≡ d c
  pub bitmap : IsBitmap sb d'

pub Releases-start :
    (sb : Superblock) (d : Disk) (f : ℕ → ℕ) → IsBitmap sb d → Releases sb d d (among f 0)
unfolding among
Releases-start sb d f w = record { map = λ c h. refl; same = λ c h. refl; bitmap = w }

pub Releases-bfree :
    (sb : Superblock) (d d' : Disk) (p : ℕ → Bool) (b : ℕ)
    → Releases sb d d' p
    → IsUsed sb d b
    → p b ≡ false
    → (d'' : Disk) × (bfree sb d' b ≡ some d'') × Releases sb d d'' (λ c. (c == b) || p c)
Releases-bfree sb d d' p b r used fresh =
    let before : is_free sb d' b ≡ false = r.map b used.0.bound ∙ (rw (fresh, used.1) refl) in
    elim (bfree-Freed sb d' b r.bitmap used.0) [
      | inl (free, _) ↦ absurd (cc)
      | inr (_, (d'', e, f)) ↦ (
        d'',
        e,
        record {
          map = λ c h.
              f.map c h
              ∙ elim (Bool-cases (c == b)) [ inl q ↦ rw q refl | inr q ↦ rw q (r.map c h) ];
          same = λ c h. f.others c (λ q. h b used.0.bound (sym q)) ∙ r.same c h;
          bitmap = f.bitmap;
        },
      )
    ]

pub Releases-none :
    (sb : Superblock) (d d' : Disk) (f : ℕ → ℕ) (n : ℕ)
    → f n ≡ 0
    → Releases sb d d' (among f n)
    → Releases sb d d' (among f (suc n))
unfolding among
Releases-none sb d d' f n z r = record {
  map = λ c l. r.map c l ∙ (rw z refl);
  same = r.same;
  bitmap = r.bitmap;
}

pub Releases-next :
    (sb : Superblock) (d d' : Disk) (f : ℕ → ℕ) (n : ℕ)
    → (f n == 0) ≡ false
    → Releases sb d d' (among f n)
    → IsUsed sb d (f n) × (among f n (f n) ≡ false)
    → (d'' : Disk) × (bfree sb d' (f n) ≡ some d'') × Releases sb d d'' (among f (suc n))
unfolding among
Releases-next sb d d' f n z r (used, fresh) =
    let (d'', e, s) = Releases-bfree sb d d' (among f n) (f n) r used fresh in
    (d'', e, record { map = λ c l. s.map c l ∙ (rw z refl); same = s.same; bitmap = s.bitmap })

pub Releases-free_block :
    (sb : Superblock) (d d' : Disk) (f : ℕ → ℕ) (n : ℕ)
    → Releases sb d d' (among f n)
    → (f n ≢ 0 → IsUsed sb d (f n) × (among f n (f n) ≡ false))
    → (d'' : Disk) × (free_block sb d' (f n) ≡ some d'') × Releases sb d d'' (among f (suc n))
unfolding free_block
Releases-free_block sb d d' f n r h = elim (Bool-cases (f n == 0)) [
  | inl z ↦ (d', rw z refl, Releases-none sb d d' f n (is_zero _ z) r)
  | inr z ↦ let (d'', e, s) = Releases-next sb d d' f n z r (h (not_zero _ z)) in (d'', rw z e, s)
]
