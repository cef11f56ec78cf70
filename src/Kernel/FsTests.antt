-- ===== src/Kernel/FsTests.antt =====
-- The file system's definitions at a small volume: block 0, the bitmap, a block of inodes, a block of
-- a file, four free blocks.
use sleep_e_pingpong.Base.{
  ◌/◌, uint_mod, ℕ, zero, suc, ◌+◌, ◌-◌, ◌≤◌, ◌<◌, ◌≡◌, refl, sym, ap, ◌∙◌, ◌≢◌, ◌⊎◌, inl, inr,
  Bool-cases, true, false, ◌&&◌, List, [], ◌∷◌, none, some, ltb, ◌==◌, if◌then◌else◌, get_or, All,
  min, replicate, arith,
}
use sleep_e_pingpong.Kernel.Fs.{
  Disk, Superblock, bblock, is_clear, balloc_loop, scan_bits, balloc, bfree,
}
use sleep_e_pingpong.Kernel.Fs.Bitmap.{is_free, IsBitmap, IsData}
use sleep_e_pingpong.Kernel.Fs.Balloc.{BallocRun, balloc-BallocRun}
use sleep_e_pingpong.Kernel.Fs.Bfree.{Freed, bfree-Freed}
use sleep_e_pingpong.Kernel.Strings.{Mem}
use sleep_e_pingpong.Kernel.Inode.{Inode, bmap}
use sleep_e_pingpong.Kernel.Inode.Tree.{mapped, IsUsed, IsOther}
use sleep_e_pingpong.Kernel.Inode.Grow.{IsInode, Grows}
use sleep_e_pingpong.Kernel.Inode.Slot.{Gives}
use sleep_e_pingpong.Kernel.Inode.Bmap.{bmap-Gives}
use sleep_e_pingpong.Kernel.Dinode.{iblock, iupdate, ilock}
use sleep_e_pingpong.Kernel.Dinode.Stored.{IsNarrow, ilock-iupdate}
use sleep_e_pingpong.Kernel.Content.{Copyin, Copyout, readi, writei}
use sleep_e_pingpong.Kernel.Content.Bytes.{content, within, CopiesIn, CopiesOut}
use sleep_e_pingpong.Kernel.Content.Read.{Reads, readi-Reads}
use sleep_e_pingpong.Kernel.Content.Store.{WriteRun, writei-WriteRun}
use sleep_e_pingpong.Kernel.Content.RoundTrip.{readi-writei}
use sleep_e_pingpong.Kernel.Trunc.{itrunc}
use sleep_e_pingpong.Kernel.Trunc.Whole.{Truncated, itrunc-Truncated}
use sleep_e_pingpong.Kernel.Itable.{free_inode, boot_inodes, find_inode, get_found, iget, idup}
use sleep_e_pingpong.Kernel.Itable.Refs.{IsTable}
use sleep_e_pingpong.Kernel.Itable.Calls.{Got, iget-Got, start, gets, dups, Uses-IsTable}
use sleep_e_pingpong.Kernel.File.{fd_inode, File, fileclose, filewrite_inode}
use sleep_e_pingpong.Kernel.File.Refs.{IsCounted, Closing, fileclose-Closing}
use sleep_e_pingpong.Kernel.File.Chunks.{IsReady, Chunked}
use sleep_e_pingpong.Kernel.File.Whole.{filewrite_inode-Chunked}
use sleep_e_pingpong.Kernel.Directory.{dirlookup}
use sleep_e_pingpong.Kernel.Directory.Entries.{first_entry, IsDirectory}
use sleep_e_pingpong.Kernel.Directory.Lookup.{dirlookup-first_entry}

abbrev sb : Superblock
sb = record { size = 8; ninodes = 16; inodestart = 2; bmapstart = 1 }

abbrev volume : Disk
volume b i = if (b == 1) && (i == 0) then 15 else if b == 3 then 8 else 0

-- A file of three bytes in block 3.
abbrev file : Inode
file = record {
  inum = 1;
  ref = 1;
  valid = true;
  kind = 2;
  major = 0;
  minor = 0;
  nlink = 1;
  size = 3;
  addrs = 3 ∷ replicate 12 0;
}

map_block : (b : ℕ) → b < 8 → bblock sb b ≡ 1
unfolding bblock
map_block b h = omega (arith, h)

volume_own : is_free sb volume 1 ≡ false
unfolding bblock is_clear
volume_own = refl

volume-IsBitmap : IsBitmap sb volume
unfolding bblock is_clear
volume-IsBitmap = record {
  bytes = λ b i. ground arith;
  inside = λ b h. omega (arith, map_block b h);
  own = λ b h. rw (map_block b h) refl;
  boot = refl;
}

data-IsData : (b : ℕ) → 2 ≤ b → b < 8 → IsData sb b
data-IsData b h l = record {
  bound = l;
  nonzero = λ e. absurd (omega (arith, e, h));
  no_map = λ c h' e. absurd (omega (arith, map_block c h', e, h));
}

no_number : (n i : ℕ) → get_or (replicate n zero) i zero ≡ zero
no_number zero i = refl
no_number (suc n) zero = refl
no_number (suc n) (suc i) = no_number n i

small_numbers : (n : ℕ) → All (λ a. a < uint_mod) (replicate n zero)
small_numbers zero = tt
small_numbers (suc n) = (omega arith, small_numbers n)

file-mapped : (bn : ℕ) → mapped volume file bn ≡ (if bn == 0 then 3 else 0)
file-mapped zero = refl
file-mapped (suc bn) = elim (Bool-cases (ltb (suc bn) 12)) [
  | inl e ↦ rw e (no_number 12 bn ∙ ground arith)
  | inr e ↦ rw e (ground arith)
]

file_first : (bn : ℕ) → mapped volume file bn ≢ 0 → bn ≡ 0
file_first bn nz = let e = file-mapped bn in let z = nz in ground arith

file_block : (bn : ℕ) → mapped volume file bn ≢ 0 → mapped volume file bn ≡ 3
file_block bn nz = ap (mapped volume file) (file_first bn nz)

block-IsUsed : IsUsed sb volume 3
unfolding bblock is_clear
block-IsUsed = (data-IsData 3 (omega arith) (omega arith), refl)

file-IsInode : IsInode sb volume file
file-IsInode = record {
  fits = omega arith;
  bitmap = volume-IsBitmap;
  slots = refl;
  owns = record {
    pages = λ bn h nz. rw (file_block bn nz) block-IsUsed;
    index = λ nz. absurd (nz refl);
    distinct = λ bn bm h h' nz e. file_first bn nz ∙ sym (file_first bm (λ z. nz (e ∙ z)));
    apart = λ bn h nz. nz;
  };
}

file-IsNarrow : IsNarrow file
file-IsNarrow = record {
  kind = omega arith;
  major = omega arith;
  minor = omega arith;
  nlink = omega arith;
  size = omega arith;
  addrs = (omega arith, small_numbers 12);
  slots = refl;
}

node-IsUsed : IsUsed sb volume (iblock sb file.inum)
unfolding iblock bblock is_clear
node-IsUsed = (data-IsData 2 (omega arith) (omega arith), refl)

node-IsOther : IsOther volume file (iblock sb file.inum)
unfolding iblock
node-IsOther =
    (λ bn h e. let e' = file-mapped bn in absurd (ground arith), λ e. absurd (omega (arith, e)))

-- Copies within the kernel's memory, of a source whose bytes are 5.
abbrev fives : Mem
fives a = 5

abbrev kernel_in : Copyin
kernel_in blk i src m = (true, λ j. if within i m j then fives (src + (j - i)) else blk j)

abbrev kernel_out : Copyout
kernel_out mem dst blk i m = (true, λ a. if within dst m a then blk (i + (a - dst)) else mem a)

kernel-CopiesIn : CopiesIn kernel_in fives 100 103
kernel-CopiesIn = record {
  succeeds = λ blk i src m h h'. refl;
  copies = λ blk i src m h h' j. refl;
}

kernel-CopiesOut : CopiesOut kernel_out 200 203
kernel-CopiesOut = record {
  succeeds = λ mem dst blk i m h h'. refl;
  copies = λ mem dst blk i m h h' a. refl;
}

-- The first free block is 4.
balloc_first : (balloc sb volume).0 ≡ 4
unfolding balloc balloc_loop scan_bits bblock is_clear
balloc_first = refl

balloc-BallocRun_example : BallocRun sb volume (balloc sb volume)
balloc-BallocRun_example = balloc-BallocRun sb volume volume-IsBitmap

bfree-Freed_example :
    ((is_free sb volume 2 ≡ true) × (bfree sb volume 2 ≡ none))
    ⊎ ((is_free sb volume 2 ≡ false)
        × ((d' : Disk) × (bfree sb volume 2 ≡ some d') × Freed sb volume 2 d'))
bfree-Freed_example =
    bfree-Freed sb volume 2 volume-IsBitmap (data-IsData 2 (omega arith) (omega arith))

-- The first entry of the indirect block: two blocks are taken.
bmap-Gives_example :
    (a : ℕ) × (ip' : Inode) × (d' : Disk) × (bmap sb volume file 12 ≡ some (a, (ip', d')))
    × Gives sb volume file 12 a d' ip'
bmap-Gives_example = bmap-Gives sb volume file 12 file-IsInode (omega arith)

ilock-iupdate_example :
    (ilock sb (iupdate sb volume file) (record file { valid = false; size = 9 })
      ≡ some (record file { ref = 1; valid = true }))
    × (iupdate sb volume file 3 ≡ volume 3)
unfolding iblock
ilock-iupdate_example =
    ilock-iupdate sb volume file (record file { valid = false; size = 9 }) 3 file-IsNarrow
      (λ e. absurd (omega (arith, e))) (λ e. absurd (omega (arith, e)))

readi-Reads_example :
    (k : ℕ) × (mem' : Mem) × (ip' : Inode) × (d' : Disk) × (readi kernel_out sb volume file fives
        200 0 3
      ≡ some (some k, (mem', (ip', d'))))
    × Reads sb volume file fives 200 0 (min 3 (file.size - 0)) k mem' ip' d'
readi-Reads_example =
    readi-Reads kernel_out sb volume file fives 200 0 3 kernel-CopiesOut file-IsInode (omega arith)
      (omega arith)

writei-WriteRun_example :
    (k : ℕ) × (ip' : Inode) × (d' : Disk) × (writei kernel_in sb volume file 100 2 3
      ≡ some (some k, (ip', d')))
    × WriteRun sb volume file fives 2 100 3 k ip' d'
writei-WriteRun_example =
    writei-WriteRun kernel_in sb volume file fives 2 100 3 kernel-CopiesIn (λ a. omega arith)
      file-IsInode file-IsNarrow node-IsUsed node-IsOther (omega arith) (omega arith) (omega arith)

readi-writei_example :
    (k : ℕ) × (ip₁ : Inode) × (d₁ : Disk) × (mem' : Mem) × (ip₂ : Inode) × (d₂ : Disk) × (writei
        kernel_in sb volume file 100 2 3
      ≡ some (some k, (ip₁, d₁)))
    × (readi kernel_out sb d₁ ip₁ fives 200 2 k ≡ some (some k, (mem', (ip₂, d₂))))
    × ((a : ℕ) → mem' a ≡ (if within 200 k a then fives (100 + (a - 200)) else fives a))
readi-writei_example =
    readi-writei kernel_in kernel_out sb volume file fives fives 2 100 200 3 kernel-CopiesIn
      kernel-CopiesOut (λ a. omega arith) file-IsInode file-IsNarrow node-IsUsed node-IsOther
      (omega arith) (omega arith) (omega arith)

itrunc-Truncated_example :
    (ip' : Inode) × (d' : Disk) × (itrunc sb volume file ≡ some (ip', d'))
    × Truncated sb volume file ip' d'
unfolding iblock
itrunc-Truncated_example =
    itrunc-Truncated sb volume file file-IsInode file-IsNarrow
      (data-IsData 2 (omega arith) (omega arith))

boot-IsTable : IsTable boot_inodes []
boot-IsTable = Uses-IsTable sb volume boot_inodes [] (start volume)

iget-Got_example : Got boot_inodes [] 1 (iget boot_inodes 1)
iget-Got_example = iget-Got boot_inodes [] 1 boot-IsTable

-- The table after `iget` of inode 1.
abbrev one_inode : List Inode
one_inode =
    record {
      inum = 1;
      ref = 1;
      valid = false;
      kind = 0;
      major = 0;
      minor = 0;
      nlink = 0;
      size = 0;
      addrs = replicate 13 0;
    }
    ∷ replicate 49 free_inode

iget_first : iget boot_inodes 1 ≡ some (0, one_inode)
unfolding iget find_inode get_found
iget_first = refl

Uses-IsTable_example : IsTable (idup one_inode 0) (0 ∷ 0 ∷ [])
Uses-IsTable_example =
    Uses-IsTable sb volume (idup one_inode 0) (0 ∷ 0 ∷ [])
      (dups 0 (gets 1 0 one_inode (start volume) iget_first) (λ e. absurd (omega (arith, e))))

-- An open file with one pointer to it.
abbrev open_files : List File
open_files =
    record {
      kind = fd_inode;
      ref = 1;
      readable = true;
      writable = true;
      pipe = 0;
      ip = 7;
      off = 0;
      major = 0;
    }
    ∷ []

open_files-IsCounted : IsCounted open_files (0 ∷ [])
open_files-IsCounted = record {
  refs = λ i h. let first : i ≡ 0 = omega (arith, h) in rw first refl;
  inside =
      λ i nz. elim (Bool-cases (i == 0)) [ inl e ↦ ground arith | inr e ↦ absurd (ground arith) ];
}

fileclose-Closing_example : Closing open_files (0 ∷ []) 0 (fileclose open_files 0)
fileclose-Closing_example =
    fileclose-Closing open_files (0 ∷ []) open_files-IsCounted 0 (omega arith)

file-IsReady : IsReady sb volume file 2
file-IsReady = record {
  good = file-IsInode;
  narrow = file-IsNarrow;
  home = (node-IsUsed, node-IsOther);
  size = omega arith;
  inside = omega arith;
}

filewrite_inode-Chunked_example :
    (k : ℕ) × (ip' : Inode) × (d' : Disk) × (filewrite_inode kernel_in sb volume file 100 2 3
      ≡ some (if k == 3 then some 3 else none, (2 + k, (ip', d'))))
    × Chunked sb volume file fives 2 100 3 k ip' d'
filewrite_inode-Chunked_example =
    filewrite_inode-Chunked kernel_in sb volume file fives 100 2 3 kernel-CopiesIn
      (λ a. omega arith) file-IsReady (omega arith)

-- A directory of one entry, for a name of which all characters are 8.
abbrev directory : Inode
directory = record file { kind = 1; size = 16 }

directory-IsDirectory : IsDirectory sb volume directory 1
directory-IsDirectory = record {
  good = record {
    fits = file-IsInode.fits;
    bitmap = volume-IsBitmap;
    slots = refl;
    owns = file-IsInode.owns;
  };
  size = refl;
  bound = omega arith;
  whole = λ o h.
      let first : o / 1024 ≡ 0 = omega (arith, h) in rw first (λ e. absurd (omega (arith, e)));
}

dirlookup-first_entry_example :
    (dp' : Inode) × (d' : Disk) × (dirlookup sb (λ a. 8) fives volume directory
      ≡ some (first_entry 1 (λ a. 8) (content volume directory) 0, (dp', d')))
    × Grows sb volume directory d' dp'
dirlookup-first_entry_example =
    dirlookup-first_entry sb (λ a. 8) fives 1 volume directory directory-IsDirectory refl
