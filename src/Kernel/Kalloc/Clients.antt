-- ===== src/Kernel/Kalloc/Clients.antt =====
-- Users of kernel/kalloc.c: any sequence of `kalloc` and of `kfree` of pages that were handed out.
use sleep_e_pingpong.Base.{
  ℕ, zero, suc, ◌+◌, ◌≤◌, ◌<◌, ◌≡◌, refl, inl, inr, Bool, true, false, Option, none, some, List, [],
  ◌∷◌, arith, ◌==◌, if◌then◌else◌, Bool-cases, Option-cases, ==_iff, get_elem?,
}
use sleep_e_pingpong.Kernel.Kalloc.{phystop, Mem, Kmem, kalloc, kfree, kinit}
use sleep_e_pingpong.Kernel.Kalloc.Chain.{count, IsPage, Holds, kfree-push, kalloc-cons, kalloc-nil}
use sleep_e_pingpong.Kernel.Kalloc.Init.{page_in, indicator, kinit_lem}

-- `free i` gives back the page that was handed out `i` allocations ago and not freed since.
pub data Op : Type 0 where
  alloc : Op
  free : ℕ → Op

pub record World : Type 0 where
  pub kmem : Kmem
  pub owned : List ℕ

abbrev pub remove : List ℕ → ℕ → List ℕ
remove [] i = []
remove (x ∷ xs) zero = xs
remove (x ∷ xs) (suc i) = x ∷ remove xs i

count-remove :
    (xs : List ℕ) (i a : ℕ) {x : ℕ}
    → get_elem? xs i ≡ some x
    → count a xs ≡ indicator (a == x) + count a (remove xs i)
count-remove [] i a h = cc
count-remove (y ∷ ys) zero a h = ground arith
count-remove (y ∷ ys) (suc i) a h = omega (arith, count-remove ys i a h)

module _ (kend : ℕ) where
  -- `none` is a panic.
  unfoldable pub op : Op → World → Option World
  op alloc w =
      let (r, k) = kalloc w.kmem in
      if r == 0
      then some (record { kmem = k; owned = w.owned })
      else some (record { kmem = k; owned = r ∷ w.owned })
  op (free i) w = elim (get_elem? w.owned i) [
    | none ↦ some w
    | some pa ↦ elim (kfree kend w.kmem pa) [
      | none ↦ none
      | some k ↦ some (record { kmem = k; owned = remove w.owned i })
    ]
  ]

  unfoldable pub ops : List Op → World → Option World
  ops [] w = some w
  ops (o ∷ os) w = elim (op o w) [ none ↦ none | some w' ↦ ops os w' ]

  -- Every page of `all` is owned or free, once.
  pub record IsShared (all : ℕ → ℕ) (w : World) (xs : List ℕ) : Type 0 where
    pub chain : Holds kend w.kmem xs
    pub total : (a : ℕ) → count a w.owned + count a xs ≡ all a
    pub pages : (a : ℕ) → 0 < count a w.owned → IsPage kend a

  alloc_pages :
      (a x : ℕ) (owned : List ℕ)
      → IsPage kend x
      → (0 < count a owned → IsPage kend a)
      → 0 < count a (x ∷ owned)
      → IsPage kend a
  alloc_pages a x owned page old h = elim (Bool-cases (a == x)) [
    | inl same ↦ rw ((==_iff a x).0 same) page
    | inr other ↦ old (ground arith)
  ]

  module _ (all : ℕ → ℕ) (single : (a : ℕ) → all a ≤ 1) (pos : 0 < kend) where
    alloc-IsShared :
        (w : World) (xs : List ℕ)
        → IsShared all w xs
        → (w' : World) × (xs' : List ℕ) × (op alloc w ≡ some w') × IsShared all w' xs'
    unfolding op
    alloc-IsShared w [] s = rw (kalloc-nil kend w.kmem s.chain) (w, [], refl, s)
    alloc-IsShared w (x ∷ xs) s =
        let (got, c, _) = kalloc-cons kend w.kmem x xs pos s.chain in
        let some_page : (x == 0) ≡ false = ground arith in
        (
          record { kmem = (kalloc w.kmem).1; owned = x ∷ w.owned },
          xs,
          rw (got, some_page) refl,
          record {
            chain = c;
            total = λ a. omega (arith, s.total a);
            pages = λ a h. alloc_pages a x w.owned s.chain.1 (s.pages a) h;
          },
        )

    free-IsShared :
        (i : ℕ) (w : World) (xs : List ℕ)
        → IsShared all w xs
        → (w' : World) × (xs' : List ℕ) × (op (free i) w ≡ some w') × IsShared all w' xs'
    unfolding op
    free-IsShared i w xs s = elim (Option-cases (get_elem? w.owned i)) [
      | inl bad ↦ (w, xs, rw (bad, op) refl, s)
      | inr (pa, good) ↦
          let one = count-remove w.owned i pa good in
          let out : count pa xs ≡ 0 = ground (arith, s.total pa, single pa) in
          let (k', done, c, _) =
            kfree-push kend w.kmem pa xs s.chain (s.pages pa (ground arith)) out in
          (
            record { kmem = k'; owned = remove w.owned i },
            pa ∷ xs,
            rw (good, op) (rw done refl),
            record {
              chain = c;
              total = λ a. omega (arith, s.total a, count-remove w.owned i a good);
              pages = λ a h. s.pages a (omega (arith, count-remove w.owned i a good));
            },
          )
    ]

    op-IsShared :
        (o : Op) (w : World) (xs : List ℕ)
        → IsShared all w xs
        → (w' : World) × (xs' : List ℕ) × (op o w ≡ some w') × IsShared all w' xs'
    op-IsShared alloc w xs s = alloc-IsShared w xs s
    op-IsShared (free i) w xs s = free-IsShared i w xs s

    ops-IsShared :
        (os : List Op) (w : World) (xs : List ℕ)
        → IsShared all w xs
        → (w' : World) × (xs' : List ℕ) × (ops os w ≡ some w') × IsShared all w' xs'
    unfolding ops
    ops-IsShared [] w xs s = (w, xs, refl, s)
    ops-IsShared (o ∷ os) w xs s =
        let (w₁, xs₁, done, s₁) = op-IsShared o w xs s in
        let (w', xs', rest, s') = ops-IsShared os w₁ xs₁ s₁ in (w', xs', rw (done, ops) rest, s')

  indicator_le : (b : Bool) → indicator b ≤ 1
  indicator_le true = omega arith
  indicator_le false = omega arith

  -- Whatever sequence of allocations and frees of owned pages follows `kinit`, nothing panics, and
  -- each whole page between the kernel's `end` and `PHYSTOP` is owned or on the free list, once in
  -- all, and no other page is: no page is handed out twice, and none leaks.
  pub ops_exclusive :
      (m : Mem) (os : List Op)
      → 0 < kend
      → kend ≤ phystop
      → (k : Kmem) × (w : World) × (xs : List ℕ) × (kinit kend m ≡ some k)
        × (ops os (record { kmem = k; owned = [] }) ≡ some w)
        × Holds kend w.kmem xs
        × ((a : ℕ) → count a w.owned + count a xs ≡ indicator (page_in kend phystop a))
  ops_exclusive m os pos hi =
      let (k, xs, start, c, total) = kinit_lem kend m pos hi in
      let (w, xs', done, s) =
        ops-IsShared (λ a. indicator (page_in kend phystop a))
          (λ a. indicator_le (page_in kend phystop a)) pos os (record { kmem = k; owned = [] }) xs
          (record {
            chain = c;
            total = λ a. omega (arith, total a);
            pages = λ a h. absurd (omega arith);
          }) in
      (k, w, xs', start, done, s.chain, s.total)
