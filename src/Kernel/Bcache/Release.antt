-- ===== src/Kernel/Bcache/Release.antt =====
-- No block of kernel/bio.c's cache is in two buffers, whatever calls are made.
use mathlib.Core.Path.{subst}
use sleep_e_pingpong.Base.{
  ℕ, zero, suc, ◌+◌, ◌≤◌, ◌≡◌, refl, sym, ◌∙◌, inl, inr, true, false, ◌==◌, if◌then◌else◌, List, [],
  ◌∷◌, ◌++◌, Option, none, some, Bool-cases, arith, ◌≢◌, ne→==,
}
use sleep_e_pingpong.Kernel.Bcache.{
  nbuf, Buf, is_block, is_unused, release, Found, behind, unlink, update, to_front, brelse, bget,
  binit, binit_loop,
}
use sleep_e_pingpong.Kernel.Bcache.Get.{
  held, renewed, Absent, GetRun, cached, recycled, panics, bget-GetRun,
}

-- How many buffers held the block.
abbrev pub copies : ℕ → ℕ → List Buf → ℕ
copies d n [] = 0
copies d n (b ∷ bs) = (if is_block d n b then 1 else 0) + copies d n bs

-- No block of a real device, which has a number other than 0, is in two buffers.
abbrev pub IsSingle : List Buf → Type 0
IsSingle bs = (d n : ℕ) → d ≢ 0 → copies d n bs ≤ 1

copies-append : (d n : ℕ) (xs ys : List Buf) → copies d n (xs ++ ys) ≡ copies d n xs + copies d n ys
copies-append d n [] ys = omega arith
copies-append d n (b ∷ xs) ys = omega (arith, copies-append d n xs ys)

Absent-copies : (d n : ℕ) (bs : List Buf) → Absent d n bs → copies d n bs ≡ 0
unfolding is_block
Absent-copies d n [] h = refl
Absent-copies d n (b ∷ bs) (e, h) = rw e (omega (arith, Absent-copies d n bs h))

renewed_block :
    (dev blockno d n : ℕ) (b : Buf)
    → is_block d n (renewed dev blockno b) ≡ true
    → (dev ≡ d) × (blockno ≡ n)
unfolding is_block
renewed_block dev blockno d n b e = ground arith

copies-held :
    (d n : ℕ) (xs : List Buf) (b : Buf) (ys : List Buf)
    → copies d n (xs ++ held b ∷ ys) ≡ copies d n (xs ++ b ∷ ys)
unfolding is_block
copies-held d n xs b ys = copies-append d n xs (held b ∷ ys) ∙ sym (copies-append d n xs (b ∷ ys))

copies-renewed :
    (dev blockno d n : ℕ) (xs : List Buf) (b : Buf) (ys : List Buf)
    → Absent dev blockno (xs ++ b ∷ ys)
    → copies d n (xs ++ b ∷ ys) ≤ 1
    → copies d n (xs ++ renewed dev blockno b ∷ ys) ≤ 1
copies-renewed dev blockno d n xs b ys away le =
    let before = copies-append d n xs (b ∷ ys) in
    let after = copies-append d n xs (renewed dev blockno b ∷ ys) in
    elim (Bool-cases (is_block d n (renewed dev blockno b))) [
      | inl e ↦
          let (e₁, e₂) = renewed_block dev blockno d n b e in
          let none_before : copies d n (xs ++ b ∷ ys) ≡ 0 =
            rw (sym e₁, sym e₂) (Absent-copies dev blockno (xs ++ b ∷ ys) away) in
          ground arith
      | inr e ↦ ground arith
    ]

copies-update : (a d n : ℕ) (bs : List Buf) → copies d n (update a release bs) ≡ copies d n bs
unfolding update release is_block
copies-update a d n [] = refl
copies-update a d n (b ∷ bs) =
    let rest = copies-update a d n bs in
    elim (Bool-cases (b.address == a)) [ inl e ↦ rw (e, rest) refl | inr e ↦ rw (e, rest) refl ]

-- What `unlink` finds, and what it leaves.
Unlinked : ℕ → ℕ → List Buf → Found → Type 0
Unlinked d n bs none = Unit
Unlinked d n bs (some (b, cs)) = copies d n (b ∷ cs) ≡ copies d n bs

unlink_cons :
    (d n : ℕ) (b : Buf) (bs : List Buf) (r : Found)
    → Unlinked d n bs r
    → Unlinked d n (b ∷ bs) (behind b r)
unfolding behind Unlinked
unlink_cons d n b bs none h = h
unlink_cons d n b bs (some (c, cs)) h = omega arith

unlink-Unlinked : (a d n : ℕ) (bs : List Buf) → Unlinked d n bs (unlink a bs)
unfolding unlink Unlinked
unlink-Unlinked a d n [] = _
unlink-Unlinked a d n (b ∷ bs) = elim (Bool-cases (b.address == a)) [
  | inl e ↦ rw e refl
  | inr e ↦ rw e (unlink_cons d n b bs _ (unlink-Unlinked a d n bs))
]

front_copies :
    (d n : ℕ) (bs : List Buf) (r : Found)
    → Unlinked d n bs r
    → copies d n (to_front bs r) ≡ copies d n bs
unfolding to_front Unlinked
front_copies d n bs none h = refl
front_copies d n bs (some (b, cs)) h = elim (Bool-cases (is_unused b)) [
  | inl e ↦ rw e h
  | inr e ↦ rw e refl
]

brelse-copies : (a d n : ℕ) (bs : List Buf) → copies d n (brelse a bs) ≡ copies d n bs
unfolding brelse
brelse-copies a d n bs =
    let cs = update a release bs in
    front_copies d n cs (unlink a cs) (unlink-Unlinked a d n cs) ∙ copies-update a d n bs

-- A call of the cache, and the calls from the list `bs` on; `none` is a panic.
pub data Call : Type 0 where
  get : ℕ → ℕ → Call
  put_back : ℕ → Call

abbrev pub kept : Found → Option (List Buf)
kept none = none
kept (some (b, cs)) = some cs

abbrev pub after : Call → List Buf → Option (List Buf)
after (get dev blockno) bs = kept (bget dev blockno bs)
after (put_back a) bs = some (brelse a bs)

get-IsSingle :
    (dev blockno : ℕ) (bs cs : List Buf) (r : Found)
    → GetRun dev blockno bs r
    → kept r ≡ some cs
    → IsSingle bs
    → IsSingle cs
get-IsSingle dev blockno _ cs _ (cached xs c ys _ _ _) e s d n h =
    let here : xs ++ held c ∷ ys ≡ cs = cc in
    let le : copies d n (xs ++ held c ∷ ys) ≤ 1 = omega (arith, copies-held d n xs c ys, s d n h) in
    subst (λ zs. copies d n zs ≤ 1) here le
get-IsSingle dev blockno _ cs _ (recycled xs c ys away _ _) e s d n h =
    let here : xs ++ renewed dev blockno c ∷ ys ≡ cs = cc in
    subst (λ zs. copies d n zs ≤ 1) here (copies-renewed dev blockno d n xs c ys away (s d n h))
get-IsSingle dev blockno _ cs _ (panics bs _ _) e s d n h = absurd cc

put-IsSingle : (a : ℕ) (bs cs : List Buf) → some (brelse a bs) ≡ some cs → IsSingle bs → IsSingle cs
put-IsSingle a bs cs e s d n h =
    let here : brelse a bs ≡ cs = cc in
    let le : copies d n (brelse a bs) ≤ 1 = omega (arith, brelse-copies a d n bs, s d n h) in
    subst (λ zs. copies d n zs ≤ 1) here le

pub data Calls (bs : List Buf) : List Buf → Type 0 where
  stop : Calls bs bs
  more : {cs ds : List Buf} (c : Call) → Calls bs cs → after c cs ≡ some ds → Calls bs ds

Calls-IsSingle : {bs cs : List Buf} → Calls bs cs → IsSingle bs → IsSingle cs
Calls-IsSingle stop s = s
Calls-IsSingle (more (get dev blockno) h e) s =
    get-IsSingle dev blockno _ _ _ (bget-GetRun dev blockno _) e (Calls-IsSingle h s)
Calls-IsSingle (more (put_back a) h e) s = put-IsSingle a _ _ e (Calls-IsSingle h s)

binit_copies :
    (k i d n : ℕ) (bs : List Buf) → d ≢ 0 → copies d n (binit_loop k i bs) ≡ copies d n bs
unfolding binit_loop is_block
binit_copies zero i d n bs ne = refl
binit_copies (suc k) i d n bs ne =
    let other : (0 == d) ≡ false = ne→== 0 d (λ e. ne (sym e)) in
    binit_copies k (i + 1) d n _ ne ∙ rw other (omega arith)

-- After any calls of `bget` and `brelse` since `binit` that did not panic, no block of a device with a
-- number other than 0 is in two buffers.
pub Calls-copies : (bs : List Buf) (d n : ℕ) → d ≢ 0 → Calls binit bs → copies d n bs ≤ 1
unfolding binit
Calls-copies bs d n ne h =
    Calls-IsSingle h (λ d n ne. omega (arith, binit_copies nbuf 0 d n [] ne)) d n ne
