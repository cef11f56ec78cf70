-- ===== src/Kernel/Kalloc.antt =====
-- kernel/kalloc.c: the allocator of physical pages, a list threaded through the free pages.
-- Memory is read and written by aligned 8-byte words, each at its byte address; the allocator
-- touches whole pages and the word at a page's start only. The lock makes each call atomic.
pub mod Chain
pub mod Clients
pub mod Init
mod Tests
use sleep_e_pingpong.Base.{
  ℕ, zero, suc, ◌+◌, ◌-◌, ◌*◌, ◌/◌, ◌%◌, ◌^◌, Bool, ◌||◌, not, ◌&&◌, Option, none, some, ltb, leb,
  ◌==◌, if◌then◌else◌,
}

-- `PGSIZE`, `KERNBASE` and `PHYSTOP`
abbrev pub pgsize : ℕ
pgsize = 4096

abbrev pub kernbase : ℕ
kernbase = 0x80000000

abbrev pub phystop : ℕ
phystop = kernbase + 128 * 1024 * 1024

-- `PGROUNDUP` on `uint64`: the mask clears the twelve low bits.
abbrev pub pgroundup : ℕ → ℕ
pgroundup sz = (sz + pgsize - 1) % 2 ^ 64 / pgsize * pgsize

abbrev pub Mem : Type 0
Mem = ℕ → ℕ

-- Whether the word at `a` lies in the page at `pa`.
abbrev pub in_page : ℕ → ℕ → Bool
in_page pa a = leb pa a && ltb a (pa + pgsize)

-- `memset(pa, c, PGSIZE)`: every word holds the byte eight times.
unfoldable pub memset_page : Mem → ℕ → ℕ → Mem
memset_page m pa c a = if in_page pa a then c * 0x0101010101010101 else m a

-- A store of one word.
unfoldable pub store : Mem → ℕ → ℕ → Mem
store m p v a = if a == p then v else m a

-- `kmem` and the memory.
pub record Kmem : Type 0 where
  pub mem : Mem
  pub freelist : ℕ

-- `r->next = kmem.freelist; kmem.freelist = r;`
unfoldable pub push_page : Kmem → ℕ → Kmem
push_page k pa = record { mem = store (memset_page k.mem pa 1) pa k.freelist; freelist = pa }

-- The null pointer is 0.
unfoldable pub kalloc : Kmem → ℕ × Kmem
kalloc k =
    if k.freelist == 0
    then (0, k)
    else (k.freelist, record { mem = memset_page k.mem k.freelist 5; freelist = k.mem k.freelist })

-- `kend` is the symbol `end`, which the linker script defines.
module _ (kend : ℕ) where
  -- The test of `kfree`.
  abbrev pub is_bad : ℕ → Bool
  is_bad pa = not (pa % pgsize == 0) || ltb pa kend || leb phystop pa

  -- `none` is `panic("kfree")`.
  unfoldable pub kfree : Kmem → ℕ → Option Kmem
  kfree k pa = if is_bad pa then none else some (push_page k pa)

  -- The loop of `freerange` from page `p`, on fuel.
  unfoldable pub freerange_loop : ℕ → ℕ → ℕ → Kmem → Option Kmem
  freerange_loop zero p pa_end k = none
  freerange_loop (suc fuel) p pa_end k =
      if leb (p + pgsize) pa_end
      then elim (kfree k p) [ none ↦ none | some k' ↦ freerange_loop fuel (p + pgsize) pa_end k' ]
      else some k

  -- One round for each page that can fit, and one to leave the loop.
  unfoldable pub freerange : ℕ → ℕ → Kmem → Option Kmem
  unfolding freerange_loop
  freerange pa_start pa_end k = freerange_loop (suc (pa_end / pgsize)) (pgroundup pa_start) pa_end k

  -- `kmem` is zero before `kinit`.
  unfoldable pub kinit : Mem → Option Kmem
  unfolding freerange
  kinit m = freerange kend phystop (record { mem = m; freelist = 0 })
