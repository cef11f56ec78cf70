-- ===== src/Kernel/Inode/Slot.antt =====
-- A direct block of an inode of kernel/fs.c: `bmap` returns it, or takes a new one.
use sleep_e_pingpong.Base.{
  ℕ, ◌-◌, ◌<◌, ◌≡◌, refl, sym, ap, ◌∙◌, ◌≢◌, inl, inr, Bool-cases, true, false, ltb, ◌==◌,
  if◌then◌else◌, get_or, set, arith, ne→==, length-set, get_or-set_self, get_or-set_ne,
}
use sleep_e_pingpong.Kernel.Fs.{Block, Disk, Superblock, bblock, balloc}
use sleep_e_pingpong.Kernel.Fs.Bitmap.{is_free, IsBitmap}
use sleep_e_pingpong.Kernel.Fs.Balloc.{BallocRun, full, takes, balloc-BallocRun, free-IsData}
use sleep_e_pingpong.Kernel.Inode.{ndirect, maxfile, Inode, word, Step, slot_block}
use sleep_e_pingpong.Kernel.Inode.Tree.{root, mapped, Marks, Marks-used}
use sleep_e_pingpong.Kernel.Inode.Grow.{not_zero, IsInode, Grows, Grows-refl, Grows-page}

-- A call that returned `a` for number `bn`: the inode has grown, and `a` is the block, if there is one.
pub record Gives (sb : Superblock) (d : Disk) (ip : Inode) (bn a : ℕ) (d' : Disk) (ip' : Inode)
    : Type 0 where
  pub grows : Grows sb d ip d' ip'
  pub found : a ≡ mapped d' ip' bn
  pub old : mapped d ip bn ≢ 0 → (ip' ≡ ip) × (d' ≡ d)
  pub no_space : a ≡ 0 → (b : ℕ) → b < sb.size → is_free sb d' b ≡ false

-- The disk after `balloc` took block `b`.
pub record Took (sb : Superblock) (d d' : Disk) (b : ℕ) : Type 0 where
  pub marks : Marks sb d d' b
  pub zeros : (i : ℕ) → d' b i ≡ 0
  pub others : (c : ℕ) → c ≢ b → c ≢ bblock sb b → d' c ≡ d c
  pub bitmap : IsBitmap sb d'

-- `balloc` has taken a block, or there is none.
pub data Alloc (sb : Superblock) (d : Disk) : ℕ × Disk → Type 0 where
  no_block : ((b : ℕ) → b < sb.size → is_free sb d b ≡ false) → Alloc sb d (0, d)
  block : (b : ℕ) (d' : Disk) → (b == 0) ≡ false → Took sb d d' b → Alloc sb d (b, d')

balloc_cases :
    (sb : Superblock) (d : Disk) (r : ℕ × Disk) → IsBitmap sb d → BallocRun sb d r → Alloc sb d r
balloc_cases sb d _ w (full f) = no_block f
balloc_cases sb d _ w (takes b d' lt free _ map zeros others w') =
    let page = free-IsData sb d b w lt free in
    block b d' (ne→== b 0 page.nonzero) record {
      marks = record { page = page; free = free; map = map };
      zeros = zeros;
      others = others;
      bitmap = w';
    }

pub balloc-Alloc : (sb : Superblock) (d : Disk) → IsBitmap sb d → Alloc sb d (balloc sb d)
balloc-Alloc sb d w = balloc_cases sb d _ w (balloc-BallocRun sb d w)

-- An entry of an indirect block that has not changed.
pub mapped_same :
    (sb : Superblock) (d d' : Disk) (ip ip' : Inode) (bn : ℕ)
    → get_or ip'.addrs bn 0 ≡ get_or ip.addrs bn 0
    → root ip' ≡ root ip
    → (root ip ≢ 0 → d' (root ip) ≡ d (root ip))
    → mapped d' ip' bn ≡ mapped d ip bn
mapped_same sb d d' ip ip' bn e e' same = elim (Bool-cases (ltb bn ndirect)) [
  | inl h ↦ rw h e
  | inr h ↦
      rw (h, e')
        (elim (Bool-cases (root ip == 0)) [
          | inl z ↦ rw z refl
          | inr z ↦ rw z (ap (λ (blk : Block). word blk (bn - ndirect)) (same (not_zero _ z)))
        ])
]

-- What a step that was asked for number `bn` gives.
abbrev pub GivesStep : Superblock → Disk → Inode → ℕ → Step → Type 0
GivesStep sb d ip bn s = Gives sb d ip bn s.0 s.1.1 s.1.0

-- A direct slot that was empty, after `balloc`.
module _ (sb : Superblock) (d : Disk) (ip : Inode) (g : IsInode sb d ip) where
  pub unchanged : (bn a : ℕ) → a ≡ mapped d ip bn → a ≢ 0 → GivesStep sb d ip bn (a, (ip, d))
  unchanged bn a e nz = record {
    grows = Grows-refl sb d ip g;
    found = e;
    old = λ _. (refl, refl);
    no_space = λ z. absurd (nz z);
  }

  pub no_space_left :
      (bn : ℕ)
      → mapped d ip bn ≡ 0
      → ((b : ℕ) → b < sb.size → is_free sb d b ≡ false)
      → GivesStep sb d ip bn (0, (ip, d))
  no_space_left bn z f = record {
    grows = Grows-refl sb d ip g;
    found = sym z;
    old = λ nz. absurd (nz z);
    no_space = λ _. f;
  }

  pub root_same : (d' : Disk) (b : ℕ) → Took sb d d' b → root ip ≢ 0 → d' (root ip) ≡ d (root ip)
  root_same d' b t nz =
      let used = g.owns.index nz in
      t.others (root ip) (Marks-used sb d d' b t.marks (root ip) used).0
        (λ e. used.0.no_map b t.marks.page.bound (sym e))

  slot_taken :
      (n b : ℕ) (d' : Disk)
      → n < ndirect
      → get_or ip.addrs n 0 ≡ 0
      → (b == 0) ≡ false
      → Took sb d d' b
      → GivesStep sb d ip n (b, (record ip { addrs = set ip.addrs n b }, d'))
  slot_taken n b d' lt hole nz t =
      let ip' : Inode = record ip { addrs = set ip.addrs n b } in
      let direct : ltb n ndirect ≡ true = ground arith in
      let self = get_or-set_self ip.addrs n b 0 (omega (arith, g.slots)) in
      let same_root : root ip' ≡ root ip =
        get_or-set_ne ip.addrs n ndirect b 0 (λ e. absurd (omega arith)) in
      let step : (bn : ℕ)
          → bn < maxfile
          → mapped d' ip' bn ≡ (if bn == n then b else mapped d ip bn) =
        λ bn h. elim (Bool-cases (bn == n)) [
          | inl e ↦ let e' : bn ≡ n = ground arith in rw e (rw e' (rw direct self))
          | inr e ↦
              let ne : n ≢ bn = ground arith in
              rw e (
                mapped_same sb d d' ip ip' bn (get_or-set_ne ip.addrs n bn b 0 ne) same_root
                  (root_same d' b t))
        ] in
      record {
        grows =
            Grows-page sb d d' ip ip' b g t.marks t.zeros (λ c h h' _. t.others c h h') t.bitmap
              (length-set ip.addrs n b ∙ g.slots) refl n (omega arith) (rw direct hole) step
              same_root;
        found = rw direct (sym self);
        old = λ h. absurd (h (rw direct hole));
        no_space = λ e. absurd (not_zero b nz e);
      }

  slot-Alloc :
      (n : ℕ) (r : ℕ × Disk)
      → n < ndirect
      → get_or ip.addrs n 0 ≡ 0
      → Alloc sb d r
      → GivesStep sb d ip n (
          if r.0 == 0
          then (0, (ip, r.1))
          else (r.0, (record ip { addrs = set ip.addrs n r.0 }, r.1)))
  slot-Alloc n _ lt hole (no_block f) =
      let direct : ltb n ndirect ≡ true = ground arith in no_space_left n (rw direct hole) f
  slot-Alloc n _ lt hole (block b d' nz t) = rw nz (slot_taken n b d' lt hole nz t)

  pub slot_block-Gives : (n : ℕ) → n < ndirect → GivesStep sb d ip n (slot_block sb d ip n)
  unfolding slot_block
  slot_block-Gives n lt =
      let direct : ltb n ndirect ≡ true = ground arith in
      elim (Bool-cases (get_or ip.addrs n 0 == 0)) [
        | inl e ↦ rw e (slot-Alloc n (balloc sb d) lt (ground arith) (balloc-Alloc sb d g.bitmap))
        | inr e ↦ rw e (unchanged n _ (rw direct refl) (not_zero _ e))
      ]
