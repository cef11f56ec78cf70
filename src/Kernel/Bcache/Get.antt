-- ===== src/Kernel/Bcache/Get.antt =====
-- `bget` of kernel/bio.c: which buffer it returns, and what it does to the others.
use sleep_e_pingpong.Base.{
  uint_mod, arith, ◌+◌, ◌%◌, ◌==◌, ◌&&◌, ℕ, ◌≡◌, inl, inr, false, List, [], ◌∷◌, ◌++◌, none, some,
  All, Bool-cases,
}
use sleep_e_pingpong.Kernel.Bcache.{
  Buf, is_block, is_unused, hold, reuse, Found, behind, find_cached, take_here, find_free, bget,
}

-- No buffer holds the block; every buffer is referred to.
abbrev pub Absent : ℕ → ℕ → List Buf → Type 0
Absent dev blockno = All (λ b. ((b.dev == dev) && (b.blockno == blockno)) ≡ false)

abbrev pub Busy : List Buf → Type 0
Busy = All (λ b. (b.refcnt == 0) ≡ false)

-- A buffer with one more reference, and one that is given to another block.
abbrev pub held : Buf → Buf
held b = record b { refcnt = (b.refcnt + 1) % uint_mod }

abbrev pub renewed : ℕ → ℕ → Buf → Buf
renewed dev blockno b = record b { valid = false; dev = dev; blockno = blockno; refcnt = 1 }

-- What `bget` may do.
pub data GetRun (dev blockno : ℕ) : List Buf → Found → Type 0 where
  cached :
      (xs : List Buf) (b : Buf) (ys : List Buf)
      → Absent dev blockno xs
      → b.dev ≡ dev
      → b.blockno ≡ blockno
      → GetRun dev blockno (xs ++ b ∷ ys) (some (held b, xs ++ held b ∷ ys))
  recycled :
      (xs : List Buf) (b : Buf) (ys : List Buf)
      → Absent dev blockno (xs ++ b ∷ ys)
      → b.refcnt ≡ 0
      → Busy ys
      → GetRun dev blockno
          (xs ++ b ∷ ys)
          (some (renewed dev blockno b, xs ++ renewed dev blockno b ∷ ys))
  panics : (bs : List Buf) → Absent dev blockno bs → Busy bs → GetRun dev blockno bs none

-- The first loop, and the second one.
data CachedRun (dev blockno : ℕ) : List Buf → Found → Type 0 where
  hit :
      (xs : List Buf) (b : Buf) (ys : List Buf)
      → Absent dev blockno xs
      → b.dev ≡ dev
      → b.blockno ≡ blockno
      → CachedRun dev blockno (xs ++ b ∷ ys) (some (held b, xs ++ held b ∷ ys))
  miss : (bs : List Buf) → Absent dev blockno bs → CachedRun dev blockno bs none

data FreeRun (dev blockno : ℕ) : List Buf → Found → Type 0 where
  takes :
      (xs : List Buf) (b : Buf) (ys : List Buf)
      → b.refcnt ≡ 0
      → Busy ys
      → FreeRun dev blockno
          (xs ++ b ∷ ys)
          (some (renewed dev blockno b, xs ++ renewed dev blockno b ∷ ys))
  full : (bs : List Buf) → Busy bs → FreeRun dev blockno bs none

cached_cons :
    (dev blockno : ℕ) (b : Buf) (bs : List Buf) (r : Found)
    → ((b.dev == dev) && (b.blockno == blockno)) ≡ false
    → CachedRun dev blockno bs r
    → CachedRun dev blockno (b ∷ bs) (behind b r)
unfolding behind
cached_cons dev blockno b _ _ e (hit xs c ys away d n) = hit (b ∷ xs) c ys (e, away) d n
cached_cons dev blockno b _ _ e (miss bs away) = miss (b ∷ bs) (e, away)

find_cached-CachedRun :
    (dev blockno : ℕ) (bs : List Buf) → CachedRun dev blockno bs (find_cached dev blockno bs)
unfolding find_cached is_block hold
find_cached-CachedRun dev blockno [] = miss [] _
find_cached-CachedRun dev blockno (b ∷ bs) =
    let rest = find_cached-CachedRun dev blockno bs in
    elim (Bool-cases ((b.dev == dev) && (b.blockno == blockno))) [
      | inl e ↦ rw e (hit [] b bs _ (ground arith) (ground arith))
      | inr e ↦ rw e (cached_cons dev blockno b bs _ e rest)
    ]

unused_cons :
    (dev blockno : ℕ) (b : Buf) (bs : List Buf) (r : Found)
    → FreeRun dev blockno bs r
    → FreeRun dev blockno (b ∷ bs) (take_here dev blockno b bs r)
unfolding take_here behind is_unused reuse
unused_cons dev blockno b _ _ (takes xs c ys free busy) = takes (b ∷ xs) c ys free busy
unused_cons dev blockno b _ _ (full bs busy) = elim (Bool-cases (b.refcnt == 0)) [
  | inl e ↦ rw e (takes [] b bs (ground arith) busy)
  | inr e ↦ rw e (full (b ∷ bs) (e, busy))
]

find_free-FreeRun :
    (dev blockno : ℕ) (bs : List Buf) → FreeRun dev blockno bs (find_free dev blockno bs)
unfolding find_free
find_free-FreeRun dev blockno [] = full [] _
find_free-FreeRun dev blockno (b ∷ bs) =
    unused_cons dev blockno b bs _ (find_free-FreeRun dev blockno bs)

free_get :
    (dev blockno : ℕ) (bs : List Buf) (r : Found)
    → Absent dev blockno bs
    → FreeRun dev blockno bs r
    → GetRun dev blockno bs r
free_get dev blockno _ _ away (takes xs b ys free busy) = recycled xs b ys away free busy
free_get dev blockno _ _ away (full bs busy) = panics bs away busy

after_cached :
    (dev blockno : ℕ) (bs : List Buf) (r : Found)
    → CachedRun dev blockno bs r
    → GetRun dev blockno bs (elim r [ none ↦ find_free dev blockno bs | some s ↦ some s ])
after_cached dev blockno _ _ (hit xs b ys away d n) = cached xs b ys away d n
after_cached dev blockno _ _ (miss bs away) =
    free_get dev blockno bs _ away (find_free-FreeRun dev blockno bs)

-- `bget` returns the first buffer that holds the block, with one more reference. When no buffer holds
-- it, `bget` takes the last unused buffer of the list for the block, the one that was given back the
-- longest ago, with one reference and not valid. It panics exactly when no buffer holds the block and
-- all are in use. No other buffer changes, and the order stays.
pub bget-GetRun : (dev blockno : ℕ) (bs : List Buf) → GetRun dev blockno bs (bget dev blockno bs)
unfolding bget
bget-GetRun dev blockno bs =
    after_cached dev blockno bs (find_cached dev blockno bs) (find_cached-CachedRun dev blockno bs)
