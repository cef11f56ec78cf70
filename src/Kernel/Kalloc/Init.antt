-- ===== src/Kernel/Kalloc/Init.antt =====
-- `freerange` and `kinit` of kernel/kalloc.c: which pages are free when the kernel has started.
use sleep_e_pingpong.Base.{
  ℕ, zero, suc, ◌+◌, ◌-◌, ◌*◌, ◌/◌, ◌%◌, ◌≤◌, ◌<◌, ◌≡◌, refl, inl, inr, Bool, true, false, ◌&&◌,
  some, List, [], ◌∷◌, arith, leb, ◌==◌, if◌then◌else◌, Bool-cases,
}
use native.Mathlib.Nat.{add-zero}
use sleep_e_pingpong.Kernel.Kalloc.{pgsize, phystop, pgroundup, Mem, Kmem, freerange_loop, kinit}
use sleep_e_pingpong.Kernel.Kalloc.Chain.{count, IsPage, Holds, kfree-push}

-- `n` pages from `p` on, put in front of `xs` one by one.
abbrev pub pages : ℕ → ℕ → List ℕ → List ℕ
pages zero p xs = xs
pages (suc n) p xs = pages n (p + pgsize) (p ∷ xs)

-- Whether a page at `a` lies between `lo` and `hi`.
abbrev pub page_in : ℕ → ℕ → ℕ → Bool
page_in lo hi a = (a % pgsize == 0) && leb lo a && leb (a + pgsize) hi

abbrev pub indicator : Bool → ℕ
indicator b = if b then 1 else 0

count-pages :
    (n p a : ℕ) (xs : List ℕ)
    → p % pgsize ≡ 0
    → count a (pages n p xs) ≡ indicator (page_in p (p + n * pgsize) a) + count a xs
count-pages zero p a xs h = ground arith
count-pages (suc n) p a xs h = ground (arith, count-pages n (p + pgsize) a (p ∷ xs))

-- A page above `lo` is above its rounding.
page_in_round :
    (lo up hi a : ℕ)
    → up % pgsize ≡ 0
    → lo ≤ up
    → up < lo + pgsize
    → page_in up hi a ≡ page_in lo hi a
page_in_round lo up hi a h l u = elim (Bool-cases (a % pgsize == 0)) [
  | inl al ↦ rw al (elim (Bool-cases (leb lo a)) [
    | inl above ↦ let above' : leb up a ≡ true = ground arith in rw (above, above') refl
    | inr below ↦ let below' : leb up a ≡ false = ground arith in rw (below, below') refl
  ])
  | inr no_page ↦ rw no_page refl
]

module _ (kend : ℕ) where
  -- The loop frees every page that fits, each once, when none from `p` on is free yet.
  freerange_loop-pages :
      (fuel n p pa_end : ℕ) (k : Kmem) (xs : List ℕ)
      → n ≡ (pa_end - p) / pgsize
      → n < fuel
      → p % pgsize ≡ 0
      → kend ≤ p
      → pa_end ≤ phystop
      → Holds kend k xs
      → ((a : ℕ) → p ≤ a → count a xs ≡ 0)
      → (k' : Kmem) × (freerange_loop kend fuel p pa_end k ≡ some k') × Holds kend k' (pages n p xs)
  unfolding freerange_loop
  freerange_loop-pages zero n p pa_end k xs rounds more al lo hi c above = absurd (omega arith)
  freerange_loop-pages (suc fuel) zero p pa_end k xs rounds more al lo hi c above =
      let stop : leb (p + pgsize) pa_end ≡ false = ground arith in (k, rw stop refl, c)
  freerange_loop-pages (suc fuel) (suc n) p pa_end k xs rounds more al lo hi c above =
      let go : leb (p + pgsize) pa_end ≡ true = ground arith in
      let page : IsPage kend p = omega arith in
      let (k₁, done, c₁, _) = kfree-push kend k p xs c page (above p (omega arith)) in
      let (k', rest, c') =
        freerange_loop-pages fuel n (p + pgsize) pa_end k₁ (p ∷ xs) (omega arith) (omega arith)
          (omega arith) (omega arith) hi c₁ (λ a h. ground (arith, above a)) in
      (k', rw go (rw done rest), c')

  -- After `kinit`, which does not panic, the free list holds exactly the whole pages that lie
  -- between the kernel's `end` and `PHYSTOP`, each once.
  pub kinit_lem :
      (m : Mem)
      → 0 < kend
      → kend ≤ phystop
      → (k : Kmem) × (xs : List ℕ) × (kinit kend m ≡ some k)
        × Holds kend k xs
        × ((a : ℕ) → count a xs ≡ indicator (page_in kend phystop a))
  unfolding kinit
  kinit_lem m pos hi =
      let lo = pgroundup kend in
      let n = (phystop - lo) / pgsize in
      let (k, done, c) =
        freerange_loop-pages (suc (phystop / pgsize)) n lo phystop
          (record { mem = m; freelist = 0 }) [] refl (omega arith) (omega arith) (omega arith)
          (omega arith) refl (λ a h. refl) in
      let top : lo + n * pgsize ≡ phystop = omega arith in
      (
        k,
        pages n lo [],
        done,
        c,
        λ a.
            rw (count-pages n lo a [] (omega arith), top)
              (rw (page_in_round kend lo phystop a (omega arith) (omega arith) (omega arith))
                (add-zero (indicator (page_in kend phystop a)))),
      )
