-- ===== src/Kernel/Directory/Lookup.antt =====
-- `dirlookup` of kernel/fs.c finds the first entry of that name.
use mathlib.Core.Path.{subst}
use sleep_e_pingpong.Base.{
  ℕ, zero, suc, ◌+◌, ◌-◌, ◌*◌, ◌/◌, ◌≤◌, ◌<◌, ◌≡◌, refl, sym, ap, ◌∙◌, inl, inr, Bool-cases, true,
  false, Option, some, ltb, ◌==◌, min, arith,
}
use sleep_e_pingpong.Kernel.Fs.{bsize, Disk, Superblock}
use sleep_e_pingpong.Kernel.Strings.{Mem}
use sleep_e_pingpong.Kernel.Inode.{Inode}
use sleep_e_pingpong.Kernel.Inode.Grow.{Grows, Grows-refl, Grows-trans}
use sleep_e_pingpong.Kernel.Content.Bytes.{content, within, CopiesOut, Grows-content}
use sleep_e_pingpong.Kernel.Content.Read.{Reads, readi-Reads}
use sleep_e_pingpong.Kernel.Directory.{
  dirent_size, name_size, t_dir, kernel_copyout, same_name, dirent_inum, Looked, lookup_round,
  lookup_loop, dirlookup,
}
use sleep_e_pingpong.Kernel.Directory.Entries.{
  first_entry, scan_entries, scan_entries-first_entry, IsDirectory, same_name_eq, inum_eq,
  scan_entries_eq, scan_none,
}

-- A result that is the first entry, where the inode keeps its content.
abbrev pub LookupRun : Superblock → Disk → Inode → Option (ℕ × ℕ) → Looked → Type 0
LookupRun sb d dp first r =
    (dp' : Inode) × (d' : Disk) × (r ≡ some (first, (dp', d'))) × Grows sb d dp d' dp'

run_after :
    (sb : Superblock) (d d' : Disk) (dp dp' : Inode) (first : Option (ℕ × ℕ)) (r : Looked)
    → Grows sb d dp d' dp'
    → LookupRun sb d' dp' first r
    → LookupRun sb d dp first r
run_after sb d d' dp dp' first r g (dp₂, d₂, e, g') =
    (dp₂, d₂, e, Grows-trans sb d d' d₂ dp dp' dp₂ g g')

-- A round that has read the entry at `off`.
round_run :
    (sb : Superblock) (name bytes de : Mem) (off left k : ℕ) (go : Disk → Inode → Looked)
    (d d' : Disk) (dp dp' : Inode)
    → Grows sb d dp d' dp'
    → k ≡ dirent_size
    → ((a : ℕ) → a < 16 → de a ≡ bytes (off + a))
    → LookupRun sb d' dp' (scan_entries left name bytes (off + dirent_size)) (go d' dp')
    → LookupRun sb d dp
        (scan_entries (suc left) name bytes off)
        (lookup_round name off go (some (some k, (de, (dp', d')))))
unfolding lookup_round scan_entries
round_run sb name bytes de off left k go d d' dp dp' g e h rest =
    let i = inum_eq (λ a. bytes (off + a)) de h in
    let s =
      same_name_eq name_size name (λ a. bytes (off + a)) de 0 2 (λ a _ l. h a (omega (arith, l))) in
    let later =
      run_after sb d d' dp dp' (scan_entries left name bytes (off + dirent_size)) (go d' dp') g
        rest in
    rw (e, i, s)
      (elim (Bool-cases (dirent_inum (λ a. bytes (off + a)) == 0)) [
        | inl z ↦ rw z later
        | inr z ↦ elim (Bool-cases (same_name name_size name 0 (λ a. bytes (off + a)) 2)) [
          | inl q ↦ rw (z, q) (dp', d', refl, g)
          | inr q ↦ rw (z, q) later
        ]
      ])

kernel_copyout-CopiesOut : (lo hi : ℕ) → CopiesOut kernel_copyout lo hi
kernel_copyout-CopiesOut lo hi = record {
  succeeds = λ mem dst blk i m h h'. refl;
  copies = λ mem dst blk i m h h' a. refl;
}

module _ (sb : Superblock) (name mem : Mem) (entries : ℕ) where
  -- The whole entry is read.
  whole_read :
      (d d' : Disk) (dp dp' : Inode) (mem' : Mem) (off k : ℕ)
      → IsDirectory sb d dp entries
      → off + 16 ≤ dp.size
      → Reads sb d dp mem 0 off (min 16 (dp.size - off)) k mem' dp' d'
      → k ≡ 16
  whole_read d d' dp dp' mem' off k w h reads =
      let most = reads.bound in
      let size_bound = w.bound in
      elim (Bool-cases (ltb k 16)) [
        | inl l ↦
            let lt : k < 16 = ground arith in
            let there = w.whole (off + k) (omega (arith, lt, h)) in
            absurd (
              there (
                sym (reads.grows.kept ((off + k) / bsize) (omega (arith, lt, h, size_bound)) there)
                ∙ reads.missing (omega (arith, lt, h))))
        | inr l ↦ ground arith
      ]

  read_bytes :
      (d d' : Disk) (dp dp' : Inode) (mem' : Mem) (off k : ℕ)
      → k ≡ 16
      → Reads sb d dp mem 0 off (min 16 (dp.size - off)) k mem' dp' d'
      → (a : ℕ) → a < 16
      → mem' a ≡ content d dp (off + a)
  read_bytes d d' dp dp' mem' off k all reads a l =
      let inside : within 0 k a ≡ true = ground arith in
      let place : a - 0 ≡ a = omega arith in reads.bytes a ∙ (rw (inside, place) refl)

  IsDirectory-after :
      (d d' : Disk) (dp dp' : Inode)
      → IsDirectory sb d dp entries
      → Grows sb d dp d' dp'
      → IsDirectory sb d' dp' entries
  IsDirectory-after d d' dp dp' w g =
      let same : dp'.size ≡ dp.size = ap (λ (x : Inode). x.size) g.rest in
      let bound = w.bound in
      record {
        good = g.good;
        size = same ∙ w.size;
        bound = omega (arith, same, bound);
        whole = λ o l z.
            let there = w.whole o (omega (arith, l, same)) in
            there (sym (g.kept (o / bsize) (omega (arith, l, same, bound)) there) ∙ z);
      }

  lookup_loop-LookupRun :
      (fuel left : ℕ) (d : Disk) (dp : Inode) (off : ℕ)
      → IsDirectory sb d dp entries
      → off + dirent_size * left ≡ dp.size
      → left < fuel
      → LookupRun sb d dp
          (scan_entries left name (content d dp) off)
          (lookup_loop fuel sb name mem d dp off)
  unfolding lookup_loop
  lookup_loop-LookupRun zero left d dp off w h enough = absurd (omega (arith, enough))
  lookup_loop-LookupRun (suc fuel) zero d dp off w h enough =
      let at_end : ltb off dp.size ≡ false = ground arith in
      rw (at_end, scan_none name (content d dp) off) (dp, d, refl, Grows-refl sb d dp w.good)
  lookup_loop-LookupRun (suc fuel) (suc left) d dp off w h enough =
      let more : ltb off dp.size ≡ true = ground arith in
      let room : off + 16 ≤ dp.size = omega (arith, h) in
      let bound = w.bound in
      let (k, de, dp', d', e, reads) =
        readi-Reads kernel_copyout sb d dp mem 0 off 16 (kernel_copyout-CopiesOut 0 16) w.good
          w.bound (omega (arith, room, bound)) in
      let all = whole_read d d' dp dp' de off k w room reads in
      let w' = IsDirectory-after d d' dp dp' w reads.grows in
      let same : dp'.size ≡ dp.size = ap (λ (x : Inode). x.size) reads.grows.rest in
      let go : Disk → Inode → Looked =
        λ d₁ dp₁. lookup_loop fuel sb name mem d₁ dp₁ (off + dirent_size) in
      let rest =
        lookup_loop-LookupRun fuel left d' dp' (off + dirent_size) w' (omega (arith, h, same))
          (omega (arith, enough)) in
      let unchanged =
        scan_entries_eq left name (content d dp) (content d' dp') (off + dirent_size)
          (λ a l. Grows-content sb d d' dp dp' reads.grows a (omega (arith, l, h, bound))) in
      let rest' = subst (λ first. LookupRun sb d' dp' first (go d' dp')) unchanged rest in
      rw more (
        subst
          (λ r.
            LookupRun sb d dp (scan_entries (suc left) name (content d dp) off)
              (lookup_round name off go r))
          (sym e)
          (round_run sb name (content d dp) de off left k go d d' dp dp' reads.grows all
            (read_bytes d d' dp dp' de off k all reads) rest'))

-- `dirlookup` of a directory that owns its blocks, whose size is a number of whole entries with no
-- block missing. It does not panic, and finds the first entry in the content whose inode number is not
-- 0 and whose text, up to the first 0 of its 14 bytes, is the text of the name, with the entry's inode
-- number and its offset; or none, where no entry is both. The directory keeps its blocks and their
-- content.
pub dirlookup-first_entry :
    (sb : Superblock) (name mem : Mem) (entries : ℕ) (d : Disk) (dp : Inode)
    → IsDirectory sb d dp entries
    → dp.kind ≡ t_dir
    → (dp' : Inode) × (d' : Disk) × (dirlookup sb name mem d dp
        ≡ some (first_entry entries name (content d dp) 0, (dp', d')))
      × Grows sb d dp d' dp'
unfolding dirlookup
dirlookup-first_entry sb name mem entries d dp w e =
    let is_dir : (dp.kind == t_dir) ≡ true = ground arith in
    let size = w.size in
    let found =
      lookup_loop-LookupRun sb name mem entries (dp.size + 1) entries d dp 0 w (omega (arith, size))
        (omega (arith, size)) in
    rw is_dir (
      subst (λ first. LookupRun sb d dp first (lookup_loop (dp.size + 1) sb name mem d dp 0))
        (scan_entries-first_entry entries name (content d dp) 0) found)
