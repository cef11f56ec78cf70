-- ===== src/Kernel/Trunc/Slots.antt =====
-- The first loop of `itrunc` of kernel/fs.c: the direct blocks.
use mathlib.Core.Path.{subst}
use sleep_e_pingpong.Base.{
  ℕ, zero, suc, ◌+◌, ◌<◌, ◌≡◌, refl, ap, ◌∙◌, ◌≢◌, inl, inr, Bool-cases, true, false, some, ltb,
  ◌==◌, if◌then◌else◌, get_or, set, length, arith, length-set, get_or-set_self, get_or-set_ne,
}
use sleep_e_pingpong.Kernel.Fs.{Disk, Superblock}
use sleep_e_pingpong.Kernel.Inode.{ndirect, maxfile, Inode}
use sleep_e_pingpong.Kernel.Inode.Tree.{mapped, IsUsed}
use sleep_e_pingpong.Kernel.Inode.Grow.{is_zero, not_zero, IsInode}
use sleep_e_pingpong.Kernel.Trunc.{empty_slot, free_slot, slots_loop}
use sleep_e_pingpong.Kernel.Trunc.Release.{
  among, among_none, Releases, Releases-none, Releases-next,
}

-- The blocks of numbers below `n` are free, and those of the slots below `n` are 0 in the inode.
pub record Emptied (sb : Superblock) (d : Disk) (ip : Inode) (n : ℕ) (ip' : Inode) (d' : Disk)
    : Type 0 where
  pub releases : Releases sb d d' (among (mapped d ip) n)
  pub slots : length ip'.addrs ≡ 13
  pub addrs : (j : ℕ) → get_or ip'.addrs j 0 ≡ (if ltb j n then 0 else get_or ip.addrs j 0)
  pub rest : ip' ≡ record ip { addrs = ip'.addrs }

slots_next :
    (left : ℕ) (sb : Superblock) (d d' : Disk) (ip ip' : Inode) (i : ℕ)
    → free_slot sb d ip i ≡ some (ip', d')
    → slots_loop (suc left) sb d ip i ≡ slots_loop left sb d' ip' (i + 1)
unfolding slots_loop
slots_next left sb d d' ip ip' i e = rw (slots_loop, e) refl

module _ (sb : Superblock) (d : Disk) (ip : Inode) (g : IsInode sb d ip) where
  -- A block of the inode has not been freed with the ones of lower numbers.
  pub unfreed :
      (n : ℕ)
      → n < maxfile
      → mapped d ip n ≢ 0
      → IsUsed sb d (mapped d ip n) × (among (mapped d ip) n (mapped d ip n) ≡ false)
  unfreed n lt nz =
      let o = g.owns in
      (
        o.pages n lt nz,
        among_none (mapped d ip) n (mapped d ip n) (λ bn l h e.
            let same = o.distinct bn n (omega (arith, l, lt)) lt h e in
            absurd (omega (arith, same, l))),
      )

  slot-Emptied :
      (n : ℕ) (ip' : Inode) (d' d'' : Disk)
      → n < ndirect
      → Emptied sb d ip n ip' d'
      → Releases sb d d'' (among (mapped d ip) (suc n))
      → Emptied sb d ip (suc n) (record ip' { addrs = set ip'.addrs n 0 }) d''
  slot-Emptied n ip' d' d'' lt e r = record {
    releases = r;
    slots = length-set ip'.addrs n 0 ∙ e.slots;
    addrs = λ j. elim (Bool-cases (j == n)) [
      | inl q ↦
          let here : n ≡ j = ground arith in
          let test : ltb j (suc n) ≡ true = ground arith in
          let slots = e.slots in
          rw test (rw here (get_or-set_self ip'.addrs j 0 0 (omega (arith, here, slots, lt))))
      | inr q ↦
          let ne : n ≢ j = ground arith in
          let test : ltb j (suc n) ≡ ltb j n = ground arith in
          get_or-set_ne ip'.addrs n j 0 0 ne ∙ e.addrs j ∙ (rw test refl)
    ];
    rest = ap (λ (x : Inode). record x { addrs = set ip'.addrs n 0 }) e.rest;
  }

  slot_skipped :
      (n : ℕ) (ip' : Inode) (d' : Disk)
      → mapped d ip n ≡ 0
      → n < ndirect
      → Emptied sb d ip n ip' d'
      → Releases sb d d' (among (mapped d ip) (suc n))
      → Emptied sb d ip (suc n) ip' d'
  slot_skipped n ip' d' hole lt e r = record {
    releases = r;
    slots = e.slots;
    addrs = λ j. elim (Bool-cases (j == n)) [
      | inl q ↦
          let here : n ≡ j = ground arith in
          let test : ltb j (suc n) ≡ true = ground arith in
          let before : ltb j n ≡ false = ground arith in
          let direct : ltb n ndirect ≡ true = ground arith in
          let none_there : get_or ip.addrs n 0 ≡ 0 = rw direct at hole in
          e.addrs j ∙ (rw (test, before) (rw here at none_there))
      | inr q ↦ let test : ltb j (suc n) ≡ ltb j n = ground arith in e.addrs j ∙ (rw test refl)
    ];
    rest = e.rest;
  }

  free_slot-Emptied :
      (n : ℕ) (ip' : Inode) (d' : Disk)
      → n < ndirect
      → Emptied sb d ip n ip' d'
      → (ip'' : Inode) × (d'' : Disk) × (free_slot sb d' ip' n ≡ some (ip'', d''))
        × Emptied sb d ip (suc n) ip'' d''
  unfolding free_slot
  free_slot-Emptied n ip' d' lt e =
      let direct : ltb n ndirect ≡ true = ground arith in
      let not_yet : ltb n n ≡ false = ground arith in
      let same : get_or ip'.addrs n 0 ≡ mapped d ip n = e.addrs n ∙ (rw (not_yet, direct) refl) in
      let r = e.releases in
      elim (Bool-cases (mapped d ip n == 0)) [
        | inl z ↦
            let hole = is_zero _ z in
            (
              ip',
              d',
              rw (same, z) refl,
              slot_skipped n ip' d' hole lt e (Releases-none sb d d' (mapped d ip) n hole r),
            )
        | inr z ↦
            let (d'', q, s) =
              Releases-next sb d d' (mapped d ip) n z r
                (unfreed n (omega (arith, lt)) (not_zero _ z)) in
            (
              record ip' { addrs = set ip'.addrs n 0 },
              d'',
              rw (same, z) (ap (empty_slot ip' n) q),
              slot-Emptied n ip' d' d'' lt e s,
            )
      ]

  -- All the direct blocks, from `n` on.
  pub slots_loop-Emptied :
      (left n : ℕ) (ip' : Inode) (d' : Disk)
      → n + left ≡ ndirect
      → Emptied sb d ip n ip' d'
      → (ip'' : Inode) × (d'' : Disk) × (slots_loop left sb d' ip' n ≡ some (ip'', d''))
        × Emptied sb d ip ndirect ip'' d''
  unfolding slots_loop
  slots_loop-Emptied zero n ip' d' h e =
      let q : n ≡ ndirect = omega (arith, h) in
      (ip', d', refl, subst (λ m. Emptied sb d ip m ip' d') q e)
  slots_loop-Emptied (suc left) n ip' d' h e =
      let (ip₁, d₁, q, e₁) = free_slot-Emptied n ip' d' (omega (arith, h)) e in
      let next : n + 1 ≡ suc n = omega arith in
      let (ip₂, d₂, q', e₂) = slots_loop-Emptied left (suc n) ip₁ d₁ (omega (arith, h)) e₁ in
      (ip₂, d₂, slots_next left sb d' d₁ ip' ip₁ n q ∙ (rw next q'), e₂)
