-- ===== src/Kernel/Inode/Tree.antt =====
-- The blocks of an inode of kernel/fs.c: which are mapped, and that no block is used twice.
use sleep_e_pingpong.Base.{
  ℕ, ◌-◌, ◌<◌, ◌≡◌, refl, sym, ◌∙◌, ◌≢◌, ◌⊎◌, inl, inr, Bool-cases, true, false, not, ◌&&◌, ltb,
  ◌==◌, if◌then◌else◌, get_or, arith, ==_refl,
}
use sleep_e_pingpong.Kernel.Fs.{Disk, Superblock}
use sleep_e_pingpong.Kernel.Fs.Bitmap.{is_free, IsData}
use sleep_e_pingpong.Kernel.Inode.{ndirect, maxfile, Inode, word}

-- The indirect block, and the block of number `bn`, or 0.
abbrev pub root : Inode → ℕ
root ip = get_or ip.addrs ndirect 0

abbrev pub mapped : Disk → Inode → ℕ → ℕ
mapped d ip bn =
    if ltb bn ndirect
    then get_or ip.addrs bn 0
    else if root ip == 0
    then 0
    else word (d (root ip)) (bn - ndirect)

-- A data block that the bitmap has as used.
abbrev pub IsUsed : Superblock → Disk → ℕ → Type 0
IsUsed sb d b = IsData sb b × (is_free sb d b ≡ false)

-- A block that is not one of the inode's.
abbrev pub IsOther : Disk → Inode → ℕ → Type 0
IsOther d ip c = ((bn : ℕ) → bn < maxfile → mapped d ip bn ≢ c) × (root ip ≢ c)

-- The blocks `f` and the indirect block `r` are in use, and each of them once.
pub record Owns (sb : Superblock) (d : Disk) (f : ℕ → ℕ) (r : ℕ) : Type 0 where
  pub pages : (bn : ℕ) → bn < maxfile → f bn ≢ 0 → IsUsed sb d (f bn)
  pub index : r ≢ 0 → IsUsed sb d r
  pub distinct : (bn bm : ℕ) → bn < maxfile → bm < maxfile → f bn ≢ 0 → f bn ≡ f bm → bn ≡ bm
  pub apart : (bn : ℕ) → bn < maxfile → f bn ≢ 0 → f bn ≢ r

-- Block `b` was free in `d` and is in use in `d'`; no other block's bit is another one.
pub record Marks (sb : Superblock) (d d' : Disk) (b : ℕ) : Type 0 where
  pub page : IsData sb b
  pub free : is_free sb d b ≡ true
  pub map : (c : ℕ) → c < sb.size → is_free sb d' c ≡ (not (c == b) && is_free sb d c)

module _ (sb : Superblock) (d d' : Disk) (b : ℕ) (m : Marks sb d d' b) where
  pub Marks-used : (c : ℕ) → IsUsed sb d c → (c ≢ b) × IsUsed sb d' c
  Marks-used c (page, used) =
      let e = m.map c page.bound in
      let free = m.free in ((λ h. let free' = rw h at used in cc), (page, ground arith))

  new-IsUsed : IsUsed sb d' b
  new-IsUsed = let e = m.map b m.page.bound in let same = ==_refl b in (m.page, ground arith)

  -- A new block at number `n`, which had none.
  pub Owns-page :
      (f f' : ℕ → ℕ) (r n : ℕ)
      → n < maxfile
      → f n ≡ 0
      → ((bn : ℕ) → bn < maxfile → f' bn ≡ (if bn == n then b else f bn))
      → Owns sb d f r
      → Owns sb d' f' r
  Owns-page f f' r n lt hole step o =
      let cases : (bn : ℕ) → bn < maxfile → ((bn ≡ n) × (f' bn ≡ b)) ⊎ ((bn ≢ n) × (f' bn ≡ f bn)) =
        λ bn h. elim (Bool-cases (bn == n)) [
          | inl e ↦ inl (ground arith, step bn h ∙ (rw e refl))
          | inr e ↦ inr (ground arith, step bn h ∙ (rw e refl))
        ] in
      record {
        pages = λ bn h. elim (cases bn h) [
          | inl (_, e) ↦ rw e (λ _. new-IsUsed)
          | inr (_, e) ↦ rw e (λ nz. (Marks-used (f bn) (o.pages bn h nz)).1)
        ];
        index = λ nz. (Marks-used r (o.index nz)).1;
        distinct = λ bn bm h h'. elim (cases bn h) [
          | inl (e₁, e) ↦ elim (cases bm h') [
            | inl (e₂, e') ↦ λ _ _. e₁ ∙ sym e₂
            | inr (_, e') ↦
                rw (e, e')
                  (λ nz eq.
                    absurd ((Marks-used (f bm) (o.pages bm h' (λ z. nz (eq ∙ z)))).0 (sym eq)))
          ]
          | inr (_, e) ↦ elim (cases bm h') [
            | inl (_, e') ↦
                rw (e, e') (λ nz eq. absurd ((Marks-used (f bn) (o.pages bn h nz)).0 eq))
            | inr (_, e') ↦ rw (e, e') (o.distinct bn bm h h')
          ]
        ];
        apart = λ bn h. elim (cases bn h) [
          | inl (_, e) ↦ rw e (λ nz eq. (Marks-used r (o.index (λ z. nz (eq ∙ z)))).0 (sym eq))
          | inr (_, e) ↦ rw e (o.apart bn h)
        ];
      }

  -- A new block as the indirect one, where there was none.
  pub Owns-index :
      (f f' : ℕ → ℕ) → ((bn : ℕ) → bn < maxfile → f' bn ≡ f bn) → Owns sb d f 0 → Owns sb d' f' b
  Owns-index f f' step o = record {
    pages = λ bn h. rw (step bn h) (λ nz. (Marks-used (f bn) (o.pages bn h nz)).1);
    index = λ _. new-IsUsed;
    distinct = λ bn bm h h'. rw (step bn h, step bm h') (o.distinct bn bm h h');
    apart = λ bn h. rw (step bn h) (λ nz. (Marks-used (f bn) (o.pages bn h nz)).0);
  }
