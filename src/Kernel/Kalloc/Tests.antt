-- ===== src/Kernel/Kalloc/Tests.antt =====
-- The allocator of kernel/kalloc.c at concrete inputs.
use sleep_e_pingpong.Base.{ℕ, ◌+◌, ◌-◌, ◌*◌, ◌≡◌, some, none, List, [], ◌∷◌, arith}
use sleep_e_pingpong.Kernel.Kalloc.{phystop, Mem, Kmem, kfree, kinit}
use sleep_e_pingpong.Kernel.Kalloc.Chain.{count, IsPage, Holds, kfree_panics}
use sleep_e_pingpong.Kernel.Kalloc.Init.{page_in, indicator, kinit_lem}
use sleep_e_pingpong.Kernel.Kalloc.Clients.{Op, alloc, free, World, ops, ops_exclusive}

-- A kernel that ends three pages below the top of memory, and one word past a page's start.
abbrev kend : ℕ
kend = phystop - 3 * 4096 + 8

abbrev zeros : Mem
zeros = λ _. 0

abbrev top : ℕ
top = phystop - 4096

abbrev one_free : Kmem
one_free = record { mem = zeros; freelist = top }

one_free-Holds : Holds kend one_free (top ∷ [])
one_free-Holds = omega arith

kfree_panics_example :
    (kfree kend one_free 8 ≡ none → ¬ IsPage kend 8)
    × (¬ IsPage kend 8 → kfree kend one_free 8 ≡ none)
kfree_panics_example = kfree_panics kend one_free 8

kinit_lem_example :
    (k : Kmem) × (xs : List ℕ) × (kinit kend zeros ≡ some k)
    × Holds kend k xs
    × ((a : ℕ) → count a xs ≡ indicator (page_in kend phystop a))
kinit_lem_example = kinit_lem kend zeros (omega arith) (omega arith)

abbrev script : List Op
script = alloc ∷ alloc ∷ free 1 ∷ alloc ∷ alloc ∷ []

ops_exclusive_example :
    (k : Kmem) × (w : World) × (xs : List ℕ) × (kinit kend zeros ≡ some k)
    × (ops kend script (record { kmem = k; owned = [] }) ≡ some w)
    × Holds kend w.kmem xs
    × ((a : ℕ) → count a w.owned + count a xs ≡ indicator (page_in kend phystop a))
ops_exclusive_example = ops_exclusive kend zeros script (omega arith) (omega arith)
