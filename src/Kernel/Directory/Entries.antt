-- ===== src/Kernel/Directory/Entries.antt =====
-- The entries of a directory of kernel/fs.c, in its content.
use sleep_e_pingpong.Base.{
  Bool, true, false, List, [], ◌∷◌, ◌&&◌, Bool-cases, inl, inr, ℕ, zero, suc, ◌+◌, ◌*◌, ◌/◌, ◌≤◌,
  ◌<◌, ◌≡◌, refl, ◌≢◌, Option, none, some, ◌==◌, if◌then◌else◌, arith,
}
use sleep_e_pingpong.Kernel.Fs.{bsize, Disk, Superblock}
use sleep_e_pingpong.Kernel.Strings.{Mem}
use sleep_e_pingpong.Kernel.Inode.{Inode}
use sleep_e_pingpong.Kernel.Inode.Tree.{mapped}
use sleep_e_pingpong.Kernel.Inode.Grow.{IsInode}
use sleep_e_pingpong.Kernel.Content.Bytes.{max_bytes}
use sleep_e_pingpong.Kernel.Directory.{dirent_size, name_size, same_name, dirent_inum}

-- The text at `p`: the bytes up to the first 0, or `n` bytes where none is 0.
unfoldable pub text_at : ℕ → Mem → ℕ → List ℕ
text_at zero s p = []
text_at (suc n) s p = let rest = text_at n s (p + 1) in if s p == 0 then [] else s p ∷ rest

unfoldable pub same_text : List ℕ → List ℕ → Bool
same_text [] [] = true
same_text (x ∷ xs) (y ∷ ys) = (x == y) && same_text xs ys
same_text _ _ = false

-- A 16-bit number in the content, least byte first.
abbrev pub half_word : Mem → ℕ → ℕ
half_word bytes off = bytes off + 256 * bytes (off + 1)

-- The entries of a directory in its content, from `off` on: the first with an inode number other than
-- 0 whose text is the name. An entry is an inode number of two bytes and a text of 14 bytes at most.
unfoldable pub first_entry : ℕ → Mem → Mem → ℕ → Option (ℕ × ℕ)
unfolding same_text text_at
first_entry zero name bytes off = none
first_entry (suc left) name bytes off =
    let rest = first_entry left name bytes (off + 16) in
    if half_word bytes off == 0
    then rest
    else if same_text (text_at 14 bytes (off + 2)) (text_at 14 name 0)
    then some (half_word bytes off, off)
    else rest

-- The same search with the tests of the code.
unfoldable pub scan_entries : ℕ → Mem → Mem → ℕ → Option (ℕ × ℕ)
scan_entries zero name bytes off = none
scan_entries (suc left) name bytes off =
    if dirent_inum (λ a. bytes (off + a)) == 0
    then scan_entries left name bytes (off + dirent_size)
    else if same_name name_size name 0 (λ a. bytes (off + a)) 2
    then some (dirent_inum (λ a. bytes (off + a)), off)
    else scan_entries left name bytes (off + dirent_size)

-- A directory that can be read: its size is a number of entries, and all its blocks are there.
pub record IsDirectory (sb : Superblock) (d : Disk) (dp : Inode) (entries : ℕ) : Type 0 where
  pub good : IsInode sb d dp
  pub size : dp.size ≡ dirent_size * entries
  pub bound : dp.size ≤ max_bytes
  pub whole : (o : ℕ) → o < dp.size → mapped d dp (o / bsize) ≢ 0

pub same_name_eq :
    (n : ℕ) (s t t' : Mem) (p q : ℕ)
    → ((a : ℕ) → q ≤ a → a < q + n → t' a ≡ t a)
    → same_name n s p t' q ≡ same_name n s p t q
unfolding same_name
same_name_eq zero s t t' p q h = refl
same_name_eq (suc n) s t t' p q h =
    let first = h q (omega arith) (omega arith) in
    let rest =
      same_name_eq n s t t' (p + 1) (q + 1)
        (λ a l l'. h a (omega (arith, l)) (omega (arith, l'))) in
    rw (first, rest) refl

pub inum_eq : (t t' : Mem) → ((a : ℕ) → a < 16 → t' a ≡ t a) → dirent_inum t' ≡ dirent_inum t
unfolding dirent_inum
inum_eq t t' h = rw (h 0 (omega arith), h 1 (omega arith)) refl

-- Only the bytes of the entries matter.
pub scan_entries_eq :
    (left : ℕ) (name bytes bytes' : Mem) (off : ℕ)
    → ((a : ℕ) → a < off + dirent_size * left → bytes' a ≡ bytes a)
    → scan_entries left name bytes' off ≡ scan_entries left name bytes off
unfolding scan_entries
scan_entries_eq zero name bytes bytes' off h = refl
scan_entries_eq (suc left) name bytes bytes' off h =
    let near : (a : ℕ) → a < 16 → bytes' (off + a) ≡ bytes (off + a) =
      λ a l. h (off + a) (omega (arith, l)) in
    let i = inum_eq (λ a. bytes (off + a)) (λ a. bytes' (off + a)) near in
    let s =
      same_name_eq name_size name (λ a. bytes (off + a)) (λ a. bytes' (off + a)) 0 2
        (λ a _ l. near a (omega (arith, l))) in
    let rest =
      scan_entries_eq left name bytes bytes' (off + dirent_size) (λ a l. h a (omega (arith, l))) in
    rw (i, s, rest) refl

pub scan_none : (name bytes : Mem) (off : ℕ) → scan_entries 0 name bytes off ≡ none
unfolding scan_entries
scan_none name bytes off = refl

text_eq :
    (n : ℕ) (s t : Mem) (p q : ℕ) → same_name n s p t q ≡ same_text (text_at n t q) (text_at n s p)
unfolding same_name same_text text_at
text_eq zero s t p q = refl
text_eq (suc n) s t p q =
    let rest = text_eq n s t (p + 1) (q + 1) in
    elim (Bool-cases (s p == 0)) [
      | inl e ↦ elim (Bool-cases (t q == 0)) [ inl e' ↦ rw (e, e') refl | inr e' ↦ rw (e, e') refl ]
      | inr e ↦ elim (Bool-cases (t q == 0)) [
        | inl e' ↦ let ne : (s p == t q) ≡ false = ground arith in rw (e, e', ne) refl
        | inr e' ↦ elim (Bool-cases (s p == t q)) [
          | inl h ↦ let h' : (t q == s p) ≡ true = ground arith in rw (e, e', h, h') rest
          | inr h ↦ let h' : (t q == s p) ≡ false = ground arith in rw (e, e', h, h') refl
        ]
      ]
    ]

text_shift :
    (n : ℕ) (bytes : Mem) (off q q' : ℕ)
    → off + q ≡ q'
    → text_at n (λ a. bytes (off + a)) q ≡ text_at n bytes q'
unfolding text_at
text_shift zero bytes off q q' e = refl
text_shift (suc n) bytes off q q' e =
    let rest = text_shift n bytes off (q + 1) (q' + 1) (omega arith) in rw (e, rest) refl

inum_shift : (bytes : Mem) (off : ℕ) → dirent_inum (λ a. bytes (off + a)) ≡ half_word bytes off
unfolding dirent_inum
inum_shift bytes off = let e : off + 0 ≡ off = omega arith in rw e refl

-- The tests of the code are those of the texts.
pub scan_entries-first_entry :
    (left : ℕ) (name bytes : Mem) (off : ℕ)
    → scan_entries left name bytes off ≡ first_entry left name bytes off
unfolding scan_entries first_entry
scan_entries-first_entry zero name bytes off = refl
scan_entries-first_entry (suc left) name bytes off =
    let rest = scan_entries-first_entry left name bytes (off + 16) in
    let i = inum_shift bytes off in
    let s = text_eq name_size name (λ a. bytes (off + a)) 0 2 in
    let t = text_shift 14 bytes off 2 (off + 2) refl in rw (i, s, t, rest) refl
