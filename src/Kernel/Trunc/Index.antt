-- ===== src/Kernel/Trunc/Index.antt =====
-- `itrunc` of kernel/fs.c as a whole: which blocks are free afterwards.
use mathlib.Core.Path.{subst}
use sleep_e_pingpong.Base.{
  ℕ, zero, suc, ◌+◌, ◌-◌, ◌≤◌, ◌<◌, ◌≡◌, refl, sym, ap, ◌∙◌, ◌≢◌, inl, inr, Bool, Bool-cases, true,
  false, not, ◌&&◌, ◌||◌, some, ltb, ◌==◌, get_or, set, length, arith, length-set, get_or-set_self,
  get_or-set_ne,
}
use sleep_e_pingpong.Kernel.Fs.{Block, Disk, Superblock, bfree}
use sleep_e_pingpong.Kernel.Inode.{ndirect, nindirect, maxfile, Inode, word}
use sleep_e_pingpong.Kernel.Inode.Tree.{root, mapped}
use sleep_e_pingpong.Kernel.Inode.Grow.{is_zero, not_zero, IsInode}
use sleep_e_pingpong.Kernel.Inode.Bmap.{mapped_entry, no_root_hole}
use sleep_e_pingpong.Kernel.Trunc.{empty_slot, free_last, free_block, entries_loop, free_index}
use sleep_e_pingpong.Kernel.Trunc.Release.{
  among, among_none, Releases, Releases-bfree, Releases-none, Releases-free_block,
}
use sleep_e_pingpong.Kernel.Trunc.Slots.{Emptied, unfreed}

below : (j n : ℕ) → ltb j n ≡ true → j < n
below j n h = ground arith

last_one : (j n : ℕ) → j ≤ n → ltb j n ≡ false → n ≡ j
last_one j n h h' = ground arith

not_last : (j n : ℕ) → ltb j n ≡ true → n ≢ j
not_last j n h = ground arith

entries_next :
    (left : ℕ) (sb : Superblock) (d d' : Disk) (addr j : ℕ)
    → free_block sb d (word (d addr) j) ≡ some d'
    → entries_loop (suc left) sb d addr j ≡ entries_loop left sb d' addr (j + 1)
unfolding entries_loop
entries_next left sb d d' addr j e = rw (entries_loop, e) refl

index_runs :
    (sb : Superblock) (d d₁ d₂ : Disk) (ip : Inode) (addr : ℕ)
    → get_or ip.addrs ndirect 0 ≡ addr
    → (addr == 0) ≡ false
    → entries_loop nindirect sb d addr 0 ≡ some d₁
    → bfree sb d₁ addr ≡ some d₂
    → free_index sb d ip ≡ some (record ip { addrs = set ip.addrs ndirect 0 }, d₂)
unfolding free_index free_last
index_runs sb d d₁ d₂ ip addr e z q q' = rw (e, z, q) (ap (empty_slot ip ndirect) q')

module _ (sb : Superblock) (d : Disk) (ip : Inode) (g : IsInode sb d ip) where
  entries_loop-Releases :
      (left j : ℕ) (d' : Disk)
      → root ip ≢ 0
      → j + left ≡ nindirect
      → Releases sb d d' (among (mapped d ip) (ndirect + j))
      → (d'' : Disk) × (entries_loop left sb d' (root ip) j ≡ some d'')
        × Releases sb d d'' (among (mapped d ip) maxfile)
  unfolding entries_loop
  entries_loop-Releases zero j d' nz h r =
      let q : ndirect + j ≡ maxfile = omega (arith, h) in
      (d', refl, subst (λ m. Releases sb d d' (among (mapped d ip) m)) q r)
  entries_loop-Releases (suc left) j d' nz h r =
      let lt : ndirect + j < maxfile = omega (arith, h) in
      let (d₁, q, r₁) =
        Releases-free_block sb d d' (mapped d ip) (ndirect + j) r
          (unfreed sb d ip g (ndirect + j) lt) in
      let index = g.owns.index nz in
      let entry : word (d' (root ip)) j ≡ mapped d ip (ndirect + j) =
        ap (λ (blk : Block). word blk j) (r.same (root ip) index.0.no_map)
        ∙ sym (mapped_entry sb d ip g j nz) in
      let next : suc (ndirect + j) ≡ ndirect + (j + 1) = omega arith in
      let (d₂, q', r₂) =
        entries_loop-Releases left (j + 1) d₁ nz (omega (arith, h))
          (subst (λ m. Releases sb d d₁ (among (mapped d ip) m)) next r₁) in
      (d₂, entries_next left sb d' d₁ (root ip) j (ap (free_block sb d') entry ∙ q) ∙ q', r₂)

  -- All the blocks of the inode, and its indirect block.
  abbrev pub owned : ℕ → Bool
  owned c = (not (root ip == 0) && (c == root ip)) || among (mapped d ip) maxfile c

  far_holes :
      (d' : Disk) (left n : ℕ)
      → root ip ≡ 0
      → ndirect ≤ n
      → n + left ≡ maxfile
      → Releases sb d d' (among (mapped d ip) n)
      → Releases sb d d' (among (mapped d ip) maxfile)
  far_holes d' zero n no_root h e r =
      let q : n ≡ maxfile = omega (arith, e) in
      subst (λ m. Releases sb d d' (among (mapped d ip) m)) q r
  far_holes d' (suc left) n no_root h e r =
      let same : ndirect + (n - ndirect) ≡ n = omega (arith, h) in
      let hole = subst (λ m. mapped d ip m ≡ 0) same (no_root_hole d ip (n - ndirect) no_root) in
      far_holes d' left (suc n) no_root (omega (arith, h)) (omega (arith, e))
        (Releases-none sb d d' (mapped d ip) n hole r)

  -- The inode after the indirect block was freed.
  pub free_index-Releases :
      (ip' : Inode) (d' : Disk)
      → Emptied sb d ip ndirect ip' d'
      → (ip'' : Inode) × (d'' : Disk) × (free_index sb d' ip' ≡ some (ip'', d''))
        × Releases sb d d'' owned
        × ((j : ℕ) → j ≤ ndirect → get_or ip''.addrs j 0 ≡ 0)
        × (length ip''.addrs ≡ 13)
        × (ip'' ≡ record ip { addrs = ip''.addrs })
  unfolding free_index
  free_index-Releases ip' d' e =
      let same : get_or ip'.addrs ndirect 0 ≡ root ip = e.addrs ndirect in
      let low : (j : ℕ) → j < ndirect → get_or ip'.addrs j 0 ≡ 0 =
        λ j l. let test : ltb j ndirect ≡ true = ground arith in e.addrs j ∙ (rw test refl) in
      elim (Bool-cases (root ip == 0)) [
        | inl z ↦
            let no_root = is_zero _ z in
            let r = far_holes d' 256 ndirect no_root (omega arith) (omega arith) e.releases in
            (
              ip',
              d',
              rw (same, z) refl,
              record { map = λ c l. r.map c l ∙ (rw z refl); same = r.same; bitmap = r.bitmap },
              λ j l. elim (Bool-cases (ltb j ndirect)) [
                | inl q ↦ low j (below j ndirect q)
                | inr q ↦
                    let last = last_one j ndirect l q in
                    subst (λ i. get_or ip'.addrs i 0 ≡ 0) last (same ∙ no_root)
              ],
              e.slots,
              e.rest,
            )
        | inr z ↦
            let nz = not_zero _ z in
            let (d₁, q, r₁) = entries_loop-Releases 256 0 d' nz (omega arith) e.releases in
            let fresh = among_none (mapped d ip) maxfile (root ip) g.owns.apart in
            let (d₂, q', r₂) =
              Releases-bfree sb d d₁ (among (mapped d ip) maxfile) (root ip) r₁ (g.owns.index nz)
                fresh in
            (
              record ip' { addrs = set ip'.addrs ndirect 0 },
              d₂,
              index_runs sb d' d₁ d₂ ip' (root ip) same z q q',
              record { map = λ c l. r₂.map c l ∙ (rw z refl); same = r₂.same; bitmap = r₂.bitmap },
              λ j l. elim (Bool-cases (ltb j ndirect)) [
                | inl h ↦
                    get_or-set_ne ip'.addrs ndirect j 0 0 (not_last j ndirect h)
                    ∙ low j (below j ndirect h)
                | inr h ↦
                    let last = last_one j ndirect l h in
                    let slots = e.slots in
                    subst (λ i. get_or (set ip'.addrs ndirect 0) i 0 ≡ 0) last
                      (get_or-set_self ip'.addrs ndirect 0 0 (omega (arith, slots)))
              ],
              length-set ip'.addrs ndirect 0 ∙ e.slots,
              ap (λ (x : Inode). record x { addrs = set ip'.addrs ndirect 0 }) e.rest,
            )
      ]
