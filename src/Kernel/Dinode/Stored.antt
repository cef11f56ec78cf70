-- ===== src/Kernel/Dinode/Stored.antt =====
-- iupdate and ilock of kernel/fs.c: what is stored is what is loaded.
use mathlib.Core.Path.{subst}
use sleep_e_pingpong.Base.{
  uint_mod, ℕ, ◌+◌, ◌*◌, ◌%◌, ◌≤◌, ◌<◌, ◌≡◌, refl, sym, ap, ◌∙◌, ◌≢◌, ◌⊎◌, inl, inr, Bool-cases,
  true, false, not, ◌&&◌, ◌==◌, if◌then◌else◌, List, none, some, ltb, length, All, arith, ==_refl,
  ne→==,
}
use sleep_e_pingpong.Kernel.Fs.{Block, Disk, log_write, Superblock}
use sleep_e_pingpong.Kernel.Fs.Bits.{IsBytes}
use sleep_e_pingpong.Kernel.Inode.{Inode, word}
use sleep_e_pingpong.Kernel.Inode.Words.{word-set_word_self, set_word-IsBytes}
use sleep_e_pingpong.Kernel.Dinode.{
  ipb, iblock, half, set_half, put_addrs, get_addrs, put_fields, iupdate, load_inode, ilock,
}
use sleep_e_pingpong.Kernel.Dinode.Fields.{
  half-set_half_self, set_half_other, set_half-IsBytes, set_word_other, half_same, word_same,
  put_addrs_other, put_addrs-IsBytes, get_addrs-put_addrs, get_addrs_same,
}

-- The numbers of an inode have the widths of the fields of `struct dinode`.
pub record IsNarrow (ip : Inode) : Type 0 where
  pub kind : ip.kind < 65536
  pub major : ip.major < 65536
  pub minor : ip.minor < 65536
  pub nlink : ip.nlink < 65536
  pub size : ip.size < uint_mod
  pub addrs : All (λ a. a < uint_mod) ip.addrs
  pub slots : length ip.addrs ≡ 13

module _ (blk : Block) (i : ℕ) (ip : Inode) where
  abbrev one : Block
  one = set_half blk (32 * i) ip.kind

  abbrev two : Block
  two = set_half one (32 * i + 1) ip.major

  abbrev three : Block
  three = set_half two (32 * i + 2) ip.minor

  abbrev four : Block
  four = set_half three (32 * i + 3) ip.nlink

  abbrev fields : Block
  fields = put_fields blk i ip

  abbrev whole : Block
  whole = put_addrs fields (16 * i + 3) ip.addrs

  fields_low : (b : ℕ) → b < 64 * i + 8 → fields b ≡ four b
  unfolding put_fields
  fields_low b h = set_word_other four (16 * i + 2) ip.size b (inl (omega (arith, h)))

  whole_low : (b : ℕ) → b < 64 * i + 8 → whole b ≡ four b
  whole_low b h =
      put_addrs_other fields (16 * i + 3) ip.addrs b (inl (omega (arith, h))) ∙ fields_low b h

  -- A `short` is kept by the writes of those after it.
  whole-half :
      (m : Block) (k : ℕ)
      → k < 4
      → ((b : ℕ) → 2 * (32 * i + k) ≤ b → b < 2 * (32 * i + k) + 2 → four b ≡ m b)
      → half whole (32 * i + k) ≡ half m (32 * i + k)
  whole-half m k h e =
      half_same m whole (32 * i + k)
        (whole_low (2 * (32 * i + k)) (omega (arith, h))
          ∙ e (2 * (32 * i + k)) (omega arith) (omega arith))
        (whole_low (2 * (32 * i + k) + 1) (omega (arith, h))
          ∙ e (2 * (32 * i + k) + 1) (omega arith) (omega arith))

  four-three : (b : ℕ) → b < 64 * i + 6 → four b ≡ three b
  four-three b h =
      set_half_other three (32 * i + 3) ip.nlink b (λ e. absurd (omega (arith, e, h)))
        (λ e. absurd (omega (arith, e, h)))

  three-two : (b : ℕ) → b < 64 * i + 4 → three b ≡ two b
  three-two b h =
      set_half_other two (32 * i + 2) ip.minor b (λ e. absurd (omega (arith, e, h)))
        (λ e. absurd (omega (arith, e, h)))

  two-one : (b : ℕ) → b < 64 * i + 2 → two b ≡ one b
  two-one b h =
      set_half_other one (32 * i + 1) ip.major b (λ e. absurd (omega (arith, e, h)))
        (λ e. absurd (omega (arith, e, h)))

  whole_kind : IsNarrow ip → half whole (32 * i) ≡ ip.kind
  whole_kind w =
      let step : (b : ℕ) → b < 64 * i + 2 → whole b ≡ one b = λ b h.
        whole_low b (omega (arith, h))
        ∙ four-three b (omega (arith, h))
        ∙ three-two b (omega (arith, h))
        ∙ two-one b h in
      half_same one whole (32 * i) (step (2 * (32 * i)) (omega arith))
        (step (2 * (32 * i) + 1) (omega arith))
      ∙ half-set_half_self blk (32 * i) ip.kind w.kind

  whole_major : IsNarrow ip → half whole (32 * i + 1) ≡ ip.major
  whole_major w =
      whole-half two 1 (omega arith)
        (λ b _ h. four-three b (omega (arith, h)) ∙ three-two b (omega (arith, h)))
      ∙ half-set_half_self one (32 * i + 1) ip.major w.major

  whole_minor : IsNarrow ip → half whole (32 * i + 2) ≡ ip.minor
  whole_minor w =
      whole-half three 2 (omega arith) (λ b _ h. four-three b (omega (arith, h)))
      ∙ half-set_half_self two (32 * i + 2) ip.minor w.minor

  whole_nlink : IsNarrow ip → half whole (32 * i + 3) ≡ ip.nlink
  whole_nlink w =
      whole-half four 3 (omega arith) (λ b _ h. refl)
      ∙ half-set_half_self three (32 * i + 3) ip.nlink w.nlink

  whole_size : IsNarrow ip → word whole (16 * i + 2) ≡ ip.size
  unfolding put_fields
  whole_size w =
      word_same fields whole (16 * i + 2)
        (λ b _ h. put_addrs_other fields (16 * i + 3) ip.addrs b (inl (omega (arith, h))))
      ∙ word-set_word_self four (16 * i + 2) ip.size w.size

  -- Bytes before and after the dinode.
  whole_other : IsNarrow ip → (b : ℕ) → b < 64 * i ⊎ 64 * i + 64 ≤ b → whole b ≡ blk b
  unfolding put_fields
  whole_other w b h =
      let slots = w.slots in
      let past : b < 4 * (16 * i + 3) ⊎ 4 * (16 * i + 3 + length ip.addrs) ≤ b = elim h [
        | inl l ↦ inl (omega (arith, l))
        | inr l ↦ rw slots (inr (omega (arith, l)))
      ] in
      let size : b < 4 * (16 * i + 2) ⊎ 4 * (16 * i + 2) + 4 ≤ b = elim h [
        | inl l ↦ inl (omega (arith, l))
        | inr l ↦ inr (omega (arith, l))
      ] in
      let apart : (k : ℕ) → k < 4 → (b ≢ 2 * (32 * i + k)) × (b ≢ 2 * (32 * i + k) + 1) = λ k l.
        elim h [
          | inl l' ↦ (λ e. absurd (omega (arith, e, l, l')), λ e. absurd (omega (arith, e, l, l')))
          | inr l' ↦ (λ e. absurd (omega (arith, e, l, l')), λ e. absurd (omega (arith, e, l, l')))
        ] in
      let zeroth = apart 0 (omega arith) in
      let first = apart 1 (omega arith) in
      let second = apart 2 (omega arith) in
      let third = apart 3 (omega arith) in
      put_addrs_other fields (16 * i + 3) ip.addrs b past
      ∙ set_word_other four (16 * i + 2) ip.size b size
      ∙ set_half_other three (32 * i + 3) ip.nlink b third.0 third.1
      ∙ set_half_other two (32 * i + 2) ip.minor b second.0 second.1
      ∙ set_half_other one (32 * i + 1) ip.major b first.0 first.1
      ∙ set_half_other blk (32 * i) ip.kind b (λ e. zeroth.0 (omega (arith, e)))
          (λ e. zeroth.1 (omega (arith, e)))

  whole-IsBytes : IsBytes blk → IsBytes whole
  unfolding put_fields
  whole-IsBytes h = put_addrs-IsBytes fields (16 * i + 3) ip.addrs (
      set_word-IsBytes four (16 * i + 2) ip.size (
        set_half-IsBytes three (32 * i + 3) ip.nlink (
          set_half-IsBytes two (32 * i + 2) ip.minor (
            set_half-IsBytes one (32 * i + 1) ip.major (set_half-IsBytes blk (32 * i) ip.kind h)))))

abbrev loaded : Inode → ℕ → ℕ → ℕ → ℕ → ℕ → List ℕ → Inode
loaded ip kind major minor nlink size addrs = record ip {
  kind = kind;
  major = major;
  minor = minor;
  nlink = nlink;
  size = size;
  addrs = addrs;
  valid = true;
}

loaded_eq :
    (ip : Inode)
    → {k k' m m' n n' l l' s s' : ℕ} → {a a' : List ℕ} → k ≡ k'
    → m ≡ m'
    → n ≡ n'
    → l ≡ l'
    → s ≡ s'
    → a ≡ a'
    → loaded ip k m n l s a ≡ loaded ip k' m' n' l' s' a'
loaded_eq ip e₁ e₂ e₃ e₄ e₅ e₆ = rw (e₁, e₂, e₃, e₄, e₅, e₆) refl

-- Two inodes of the same number are loaded alike from bytes that agree.
pub load_same :
    (sb : Superblock) (d d' : Disk) (ip : Inode)
    → ((b : ℕ)
        → 64 * (ip.inum % ipb) ≤ b
        → b < 64 * (ip.inum % ipb) + 64
        → d' (iblock sb ip.inum) b ≡ d (iblock sb ip.inum) b)
    → load_inode sb d' ip ≡ load_inode sb d ip
unfolding load_inode
load_same sb d d' ip e =
    let i = ip.inum % ipb in
    let blk = d (iblock sb ip.inum) in
    let blk' = d' (iblock sb ip.inum) in
    let halves : (p : ℕ) → 32 * i ≤ p → p < 32 * i + 4 → half blk' p ≡ half blk p = λ p h h'.
      half_same blk blk' p (e (2 * p) (omega (arith, h)) (omega (arith, h')))
        (e (2 * p + 1) (omega (arith, h)) (omega (arith, h'))) in
    loaded_eq ip (halves (32 * i) (omega arith) (omega arith))
      (halves (32 * i + 1) (omega arith) (omega arith))
      (halves (32 * i + 2) (omega arith) (omega arith))
      (halves (32 * i + 3) (omega arith) (omega arith))
      (word_same blk blk' (16 * i + 2) (λ b h h'. e b (omega (arith, h)) (omega (arith, h'))))
      (get_addrs_same blk blk' (16 * i + 3) 13
        (λ b h h'. e b (omega (arith, h)) (omega (arith, h'))))

update_block :
    (sb : Superblock) (d : Disk) (ip : Inode) (c : ℕ)
    → iupdate sb d ip c
      ≡ (if c == iblock sb ip.inum then whole (d (iblock sb ip.inum)) (ip.inum % ipb) ip else d c)
unfolding iupdate log_write
update_block sb d ip c = refl

update_own :
    (sb : Superblock) (d : Disk) (ip : Inode)
    → iupdate sb d ip (iblock sb ip.inum) ≡ whole (d (iblock sb ip.inum)) (ip.inum % ipb) ip
update_own sb d ip =
    let e = ==_refl (iblock sb ip.inum) in update_block sb d ip (iblock sb ip.inum) ∙ (rw e refl)

update_other :
    (sb : Superblock) (d : Disk) (ip : Inode) (c : ℕ)
    → c ≢ iblock sb ip.inum
    → iupdate sb d ip c ≡ d c
update_other sb d ip c h =
    let e = ne→== c (iblock sb ip.inum) h in update_block sb d ip c ∙ (rw e refl)

-- Another number is in another block or at another place of the same one.
other_place :
    (sb : Superblock) (n m : ℕ)
    → n ≢ m
    → iblock sb n ≡ iblock sb m
    → (b : ℕ) → 64 * (n % ipb) ≤ b
    → b < 64 * (n % ipb) + 64
    → b < 64 * (m % ipb) ⊎ 64 * (m % ipb) + 64 ≤ b
unfolding iblock
other_place sb n m ne e b h h' = elim (Bool-cases (ltb b (64 * (m % ipb)))) [
  | inl l ↦ inl (ground arith)
  | inr l ↦ inr (ground arith)
]

load_place :
    (sb : Superblock) (d : Disk) (ip' : Inode) (n : ℕ) (blk : Block)
    → ip'.inum ≡ n
    → d (iblock sb n) ≡ blk
    → load_inode sb d ip'
      ≡ loaded ip'
          (half blk (32 * (n % ipb)))
          (half blk (32 * (n % ipb) + 1))
          (half blk (32 * (n % ipb) + 2))
          (half blk (32 * (n % ipb) + 3))
          (word blk (16 * (n % ipb) + 2))
          (get_addrs blk (16 * (n % ipb) + 3) 13)
unfolding load_inode
load_place sb d ip' n blk e e' = rw (sym e', sym e) refl

whole_addrs :
    (blk : Block) (i : ℕ) (ip : Inode)
    → IsNarrow ip
    → get_addrs (whole blk i ip) (16 * i + 3) 13 ≡ ip.addrs
whole_addrs blk i ip w =
    subst (λ n. get_addrs (whole blk i ip) (16 * i + 3) n ≡ ip.addrs) w.slots
      (get_addrs-put_addrs (fields blk i ip) (16 * i + 3) ip.addrs w.addrs)

update_loads :
    (sb : Superblock) (d : Disk) (ip ip' : Inode)
    → IsNarrow ip
    → ip'.inum ≡ ip.inum
    → load_inode sb (iupdate sb d ip) ip'
      ≡ record ip { inum = ip'.inum; ref = ip'.ref; valid = true }
update_loads sb d ip ip' w e =
    let blk = d (iblock sb ip.inum) in
    let i = ip.inum % ipb in
    load_place sb (iupdate sb d ip) ip' ip.inum (whole blk i ip) e (update_own sb d ip)
    ∙ loaded_eq ip' (whole_kind blk i ip w) (whole_major blk i ip w) (whole_minor blk i ip w)
        (whole_nlink blk i ip w) (whole_size blk i ip w) (whole_addrs blk i ip w)

update_keeps :
    (sb : Superblock) (d : Disk) (ip ip' : Inode)
    → IsNarrow ip
    → ip'.inum ≢ ip.inum
    → load_inode sb (iupdate sb d ip) ip' ≡ load_inode sb d ip'
update_keeps sb d ip ip' w ne = load_same sb d (iupdate sb d ip) ip' (λ b h h'.
    elim (Bool-cases (iblock sb ip'.inum == iblock sb ip.inum)) [
      | inl e ↦
          let q : iblock sb ip'.inum ≡ iblock sb ip.inum = ground arith in
          ap (λ (blk : Block). blk b) (ap (iupdate sb d ip) q ∙ update_own sb d ip)
          ∙ whole_other (d (iblock sb ip.inum)) (ip.inum % ipb) ip w b
              (other_place sb ip'.inum ip.inum ne q b h h')
          ∙ ap (λ c. d c b) (sym q)
      | inr e ↦
          ap (λ (blk : Block). blk b) (update_other sb d ip (iblock sb ip'.inum) (ground arith))
    ])

update-IsBytes :
    (sb : Superblock) (d : Disk) (ip : Inode)
    → ((c : ℕ) → IsBytes (d c))
    → (c : ℕ) → IsBytes (iupdate sb d ip c)
update-IsBytes sb d ip h c = elim (Bool-cases (c == iblock sb ip.inum)) [
  | inl e ↦
      subst IsBytes (sym (update_block sb d ip c ∙ (rw e refl)))
        (whole-IsBytes (d (iblock sb ip.inum)) (ip.inum % ipb) ip (h (iblock sb ip.inum)))
  | inr e ↦ subst IsBytes (sym (update_block sb d ip c ∙ (rw e refl))) (h c)
]

-- What `iupdate` leaves: the inode can be loaded again, and the other inodes and blocks are as they
-- were.
pub record IsStored (sb : Superblock) (d : Disk) (ip : Inode) (d' : Disk) : Type 0 where
  pub own :
      (ip' : Inode)
      → ip'.inum ≡ ip.inum
      → load_inode sb d' ip' ≡ record ip { inum = ip'.inum; ref = ip'.ref; valid = true }
  pub other : (ip' : Inode) → ip'.inum ≢ ip.inum → load_inode sb d' ip' ≡ load_inode sb d ip'
  pub blocks : (c : ℕ) → c ≢ iblock sb ip.inum → d' c ≡ d c
  pub bytes : ((c : ℕ) → IsBytes (d c)) → (c : ℕ) → IsBytes (d' c)

pub iupdate-IsStored :
    (sb : Superblock) (d : Disk) (ip : Inode) → IsNarrow ip → IsStored sb d ip (iupdate sb d ip)
iupdate-IsStored sb d ip w = record {
  own = λ ip' e. update_loads sb d ip ip' w e;
  other = λ ip' ne. update_keeps sb d ip ip' w ne;
  blocks = update_other sb d ip;
  bytes = update-IsBytes sb d ip;
}

loaded_some :
    (x y : Inode) → x ≡ y → (y.kind == 0) ≡ false → (if x.kind == 0 then none else some x) ≡ some y
loaded_some x y e h =
    subst (λ z. (if z.kind == 0 then none else some z) ≡ some y) (sym e) (rw h refl)

ilock_same :
    (sb : Superblock) (d d' : Disk) (ip : Inode)
    → load_inode sb d' ip ≡ load_inode sb d ip
    → ilock sb d' ip ≡ ilock sb d ip
unfolding ilock
ilock_same sb d d' ip e =
    ap
      (λ (x : Inode).
        if ltb ip.ref 1
        then none
        else if ip.valid
        then some ip
        else if x.kind == 0
        then none
        else some x)
      e

-- After `iupdate` of an inode that is in use, whose numbers have the widths of the fields on the disk,
-- `ilock` of any entry `ip'` that is referenced, not yet valid and has the same number gets back the
-- type, the device numbers, the link count, the size and all 13 block numbers. `ilock` of every other
-- entry does as before, also where its inode lies in the same block, and every other block is as
-- before.
pub ilock-iupdate :
    (sb : Superblock) (d : Disk) (ip ip' : Inode) (c : ℕ)
    → IsNarrow ip
    → ip.kind ≢ 0
    → c ≢ iblock sb ip.inum
    → (ilock sb (iupdate sb d ip) ip' ≡ (
        if (ip'.inum == ip.inum) && not ip'.valid && not (ltb ip'.ref 1)
        then some (record ip { inum = ip'.inum; ref = ip'.ref; valid = true })
        else ilock sb d ip'))
      × (iupdate sb d ip c ≡ d c)
unfolding ilock
ilock-iupdate sb d ip ip' c w nz ne =
    let s = iupdate-IsStored sb d ip w in
    let in_use : (ip.kind == 0) ≡ false = ne→== ip.kind 0 nz in
    (
      elim (Bool-cases (ip'.inum == ip.inum)) [
        | inl e ↦
            let q = s.own ip' (ground arith) in
            elim (Bool-cases (ltb ip'.ref 1)) [
              | inl r ↦
                  rw (e, r) (elim (Bool-cases ip'.valid) [ inl v ↦ rw v refl | inr v ↦ rw v refl ])
              | inr r ↦ elim (Bool-cases ip'.valid) [
                | inl v ↦ rw (e, r, v) refl
                | inr v ↦ rw (e, r, v) (loaded_some _ _ q in_use)
              ]
            ]
        | inr e ↦ rw e (ilock_same sb d (iupdate sb d ip) ip' (s.other ip' (ground arith)))
      ],
      s.blocks c ne,
    )
