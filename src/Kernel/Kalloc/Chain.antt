-- ===== src/Kernel/Kalloc/Chain.antt =====
-- The free list of kernel/kalloc.c as a list of pages: what `kfree` and `kalloc` do to it.
use sleep_e_pingpong.Base.{
  ℕ, ◌+◌, ◌%◌, ◌≤◌, ◌<◌, ◌≡◌, refl, ◌≢◌, inl, inr, false, none, some, List, [], ◌∷◌, arith, ◌==◌,
  if◌then◌else◌, ==_refl, Bool-cases,
}
use sleep_e_pingpong.Kernel.Kalloc.{
  pgsize, phystop, Mem, in_page, memset_page, store, Kmem, push_page, kalloc, is_bad, kfree,
}

-- How often a page occurs.
abbrev pub count : ℕ → List ℕ → ℕ
count a [] = 0
count a (x ∷ xs) = (if a == x then 1 else 0) + count a xs

-- `m` and `m'` agree outside the page at `pa`.
abbrev pub SameOutside : ℕ → Mem → Mem → Type 0
SameOutside pa m m' = (a : ℕ) → in_page pa a ≡ false → m' a ≡ m a

module _ (kend : ℕ) where
  -- What `kfree` accepts. `end` lies above the kernel's base.
  pub record IsPage (pa : ℕ) : Type 0 where
    pub aligned : pa % pgsize ≡ 0
    pub above : kend ≤ pa
    pub below : pa < phystop

  -- The words at the pages' starts lead from `p` through distinct pages to the null pointer.
  abbrev pub Chain : Mem → ℕ → List ℕ → Type 0
  Chain m p [] = p ≡ 0
  Chain m p (x ∷ xs) = (p ≡ x) × IsPage x × (count x xs ≡ 0) × Chain m (m x) xs

  abbrev pub Holds : Kmem → List ℕ → Type 0
  Holds k xs = Chain k.mem k.freelist xs

  apart : {a b : ℕ} → IsPage a → IsPage b → a ≢ b → in_page a b ≡ false
  apart pa pb ne = ground arith

  -- Writing within one page leaves a chain through other pages.
  pub Chain-frame :
      {m m' : Mem} {pa : ℕ} (p : ℕ) (xs : List ℕ)
      → SameOutside pa m m'
      → IsPage pa
      → count pa xs ≡ 0
      → Chain m p xs
      → Chain m' p xs
  Chain-frame p [] same page out c = c
  Chain-frame {m} {m'} {pa} p (x ∷ xs) same page out (e, is, once, rest) =
      let other : in_page pa x ≡ false = apart page is (ground arith) in
      let later : count pa xs ≡ 0 = omega arith in
      (e, is, once, rw (same x other) (Chain-frame (m x) xs same page later rest))

  push_same : (k : Kmem) (pa : ℕ) → SameOutside pa k.mem (push_page k pa).mem
  unfolding push_page store memset_page
  push_same k pa a h = ground arith

  -- `kfree` panics on exactly the addresses that are no whole page between `end` and `PHYSTOP`.
  pub kfree_panics :
      (k : Kmem) (pa : ℕ)
      → (kfree kend k pa ≡ none → ¬ IsPage pa) × (¬ IsPage pa → kfree kend k pa ≡ none)
  unfolding kfree
  kfree_panics k pa = elim (Bool-cases (is_bad kend pa)) [
    | inl bad ↦ rw bad ((λ _ page. ground arith), λ _. refl)
    | inr good ↦ rw good ((λ e. cc), λ no_page. absurd (no_page (ground arith)))
  ]

  -- `kfree` of a whole page between `end` and `PHYSTOP` that is not on the free list does not panic,
  -- puts the page in front of the list, and writes nothing outside the page.
  pub kfree-push :
      (k : Kmem) (pa : ℕ) (xs : List ℕ)
      → Holds k xs
      → IsPage pa
      → count pa xs ≡ 0
      → (k' : Kmem) × (kfree kend k pa ≡ some k') × Holds k' (pa ∷ xs) × SameOutside pa k.mem k'.mem
  unfolding kfree push_page store memset_page
  kfree-push k pa xs c page out = (
    push_page k pa,
    ground arith,
    (refl, page, out, rw (==_refl pa) (Chain-frame k.freelist xs (push_same k pa) page out c)),
    push_same k pa,
  )

  memset_same : (m : Mem) (pa c : ℕ) → SameOutside pa m (memset_page m pa c)
  unfolding memset_page
  memset_same m pa c a h = rw h

  -- `kalloc` on a list that is not empty returns its first page, filled with the junk byte 5, leaves
  -- the rest as the free list, and writes nothing outside the page.
  pub kalloc-cons :
      (k : Kmem) (x : ℕ) (xs : List ℕ)
      → 0 < kend
      → Holds k (x ∷ xs)
      → (kalloc k ≡ (x, record { mem = memset_page k.mem x 5; freelist = k.mem x }))
        × Holds (kalloc k).1 xs
        × SameOutside x k.mem (kalloc k).1.mem
  unfolding kalloc
  kalloc-cons k x xs pos (e, page, once, rest) =
      let some_page : (x == 0) ≡ false = ground arith in
      rw e (
        rw some_page (
          refl,
          Chain-frame (k.mem x) xs (memset_same k.mem x 5) page once rest,
          memset_same k.mem x 5,
        ))

  pub kalloc-nil : (k : Kmem) → Holds k [] → kalloc k ≡ (0, k)
  unfolding kalloc
  kalloc-nil k e = ground arith
