-- ===== src/Kernel/File/Chunks.antt =====
-- Writing in chunks, as `filewrite` of kernel/file.c does: what one call of writei and a chain of them
-- do.
use mathlib.Core.Path.{subst}
use sleep_e_pingpong.Base.{
  ℕ, ◌+◌, ◌-◌, ◌≤◌, ◌<◌, ◌≡◌, refl, ap, ◌∙◌, inl, inr, Bool-cases, true, false, ltb, if◌then◌else◌,
  arith,
}
use sleep_e_pingpong.Kernel.Fs.{Disk, Superblock}
use sleep_e_pingpong.Kernel.Fs.Bitmap.{is_free}
use sleep_e_pingpong.Kernel.Strings.{Mem}
use sleep_e_pingpong.Kernel.Inode.{Inode}
use sleep_e_pingpong.Kernel.Inode.Tree.{IsUsed, IsOther}
use sleep_e_pingpong.Kernel.Inode.Grow.{IsInode}
use sleep_e_pingpong.Kernel.Dinode.{iblock}
use sleep_e_pingpong.Kernel.Dinode.Stored.{IsNarrow}
use sleep_e_pingpong.Kernel.Content.Bytes.{max_bytes, content, within}
use sleep_e_pingpong.Kernel.Content.Store.{WriteRun}

-- An inode that can be written from `off` on.
pub record IsReady (sb : Superblock) (d : Disk) (ip : Inode) (off : ℕ) : Type 0 where
  pub good : IsInode sb d ip
  pub narrow : IsNarrow ip
  pub home : IsUsed sb d (iblock sb ip.inum) × IsOther d ip (iblock sb ip.inum)
  pub size : ip.size ≤ max_bytes
  pub inside : off ≤ ip.size

-- `k` of `n` bytes from `src` on have been written from `off` on.
pub record Chunked (sb : Superblock) (d : Disk) (ip : Inode) (bytes : Mem) (off src n k : ℕ)
    (ip' : Inode) (d' : Disk) : Type 0 where
  pub bound : k ≤ n
  pub short : k < n → (b : ℕ) → b < sb.size → is_free sb d' b ≡ false
  pub ready : IsReady sb d' ip' (off + k)
  pub holds :
      (o : ℕ)
      → o < max_bytes
      → content d' ip' o ≡ (if within off k o then bytes (src + (o - off)) else content d ip o)
  pub size : ip'.size ≡ (if ltb ip.size (off + k) then off + k else ip.size)

pub Chunked-start :
    (sb : Superblock) (d : Disk) (ip : Inode) (bytes : Mem) (off src : ℕ)
    → IsReady sb d ip off
    → Chunked sb d ip bytes off src 0 0 ip d
Chunked-start sb d ip bytes off src r = record {
  bound = omega arith;
  short = λ l. absurd (omega (arith, l));
  ready = let e : off ≡ off + 0 = omega arith in subst (IsReady sb d ip) e r;
  holds = λ o h. let e : within off 0 o ≡ false = ground arith in rw e refl;
  size = let inside = r.inside in let e : ltb ip.size (off + 0) ≡ false = ground arith in rw e refl;
}

-- One call of writei.
pub WriteRun-Chunked :
    (sb : Superblock) (d d' : Disk) (ip ip' : Inode) (bytes : Mem) (off src m k : ℕ)
    → IsReady sb d ip off
    → off + m ≤ max_bytes
    → WriteRun sb d ip bytes off src m k ip' d'
    → Chunked sb d ip bytes off src m k ip' d'
WriteRun-Chunked sb d d' ip ip' bytes off src m k r fits w =
    let size : ip'.size ≡ (if ltb ip.size (off + k) then off + k else ip.size) =
      ap (λ (x : Inode). x.size) w.rest in
    let bound = w.bound in
    let old = r.size in
    record {
      bound = w.bound;
      short = w.short;
      ready = record {
        good = w.good;
        narrow = w.narrow;
        home = w.home;
        size = ground arith;
        inside = ground arith;
      };
      holds = w.holds;
      size = size;
    }

-- A whole chunk, and then the rest.
pub Chunked-trans :
    (sb : Superblock) (d d' d'' : Disk) (ip ip' ip'' : Inode) (bytes : Mem) (off src m n k : ℕ)
    → m ≤ n
    → Chunked sb d ip bytes off src m m ip' d'
    → Chunked sb d' ip' bytes (off + m) (src + m) (n - m) k ip'' d''
    → Chunked sb d ip bytes off src n (m + k) ip'' d''
Chunked-trans sb d d' d'' ip ip' ip'' bytes off src m n k le e e' =
    let bound = e'.bound in
    record {
      bound = omega (arith, bound, le);
      short = λ l. e'.short (omega (arith, l, le));
      ready =
          let q : (off + m) + k ≡ off + (m + k) = omega arith in
          subst (IsReady sb d'' ip'') q e'.ready;
      holds = λ o h. elim (Bool-cases (within (off + m) k o)) [
        | inl w ↦
            let whole : within off (m + k) o ≡ true = ground arith in
            let same : (src + m) + (o - (off + m)) ≡ src + (o - off) = ground arith in
            e'.holds o h ∙ (rw (w, whole, same) refl)
        | inr w ↦
            let part : within off (m + k) o ≡ within off m o = ground arith in
            e'.holds o h ∙ (rw (w, part) (e.holds o h))
      ];
      size = let first = e.size in let second = e'.size in ground arith;
    }
