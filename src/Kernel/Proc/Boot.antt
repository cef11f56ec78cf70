-- ===== src/Kernel/Proc/Boot.antt =====
-- The first process of kernel/proc.c, and the tables that the calls reach from there.
use mathlib.Core.Path.{subst}
use sleep_e_pingpong.Base.{
  int_max, ◌≤◌, sym, ◌∙◌, inl, inr, Option-cases, ◌+◌, ℕ, zero, suc, ◌≡◌, refl, ap, ◌≢◌, false, ◌∷◌,
  none, some, ◌==◌, get_or, replicate, ne→==, arith,
}
use sleep_e_pingpong.Kernel.Proc.{
  unused, runnable, is_state, Proc, blank, Table, at, initcode_name, page_size, boot_table,
  userinit, start_first, find_unused, alloc_slot, allocproc, allocpid,
}
use sleep_e_pingpong.Kernel.Proc.Fork.{fresh}
use sleep_e_pingpong.Kernel.Proc.Family.{is_live, IsNumbered}
use sleep_e_pingpong.Kernel.Proc.Moves.{IsOrdered}
use sleep_e_pingpong.Kernel.Proc.Steps.{Steps, fork_count, Steps-IsOrdered, Steps-Heirs}
use sleep_e_pingpong.Kernel.Proc.Heirs.{Heirs}

-- Only slot 0 holds a process.
record IsFirst (t : Table) : Type 0 where
  pub next : t.nextpid ≡ 2
  pub init : t.initproc ≡ 0
  pub first : ((at t 0).state ≡ runnable) × ((at t 0).pid ≡ 1) × ((at t 0).parent ≡ none)
  pub others : (i : ℕ) → at t (suc i) ≡ blank

get_or-replicate : (n i : ℕ) → get_or (replicate n blank) i blank ≡ blank
get_or-replicate zero i = refl
get_or-replicate (suc n) zero = refl
get_or-replicate (suc n) (suc i) = get_or-replicate n i

first-IsNumbered : (t : Table) → IsFirst t → (i : ℕ) → IsNumbered t.nextpid (at t i)
first-IsNumbered t b zero =
    let (state, pid, _) = b.first in (λ u. absurd cc, λ _. (omega arith, omega (arith, b.next)))
first-IsNumbered t b (suc i) = rw (b.others i) (λ _. refl, λ h. absurd (h refl))

first_distinct :
    (t : Table)
    → IsFirst t
    → (i j : ℕ) → (at t i).state ≢ unused
    → (at t i).pid ≡ (at t j).pid
    → i ≡ j
first_distinct t b zero zero _ _ = refl
first_distinct t b zero (suc j) _ e =
    let (_, pid, _) = b.first in
    let e' = ap (λ (p : Proc). p.pid) (b.others j) in absurd (omega arith)
first_distinct t b (suc i) j h _ = absurd (h (ap (λ (p : Proc). p.state) (b.others i)))

-- No slot has a parent yet.
first_orphan : (t : Table) → IsFirst t → (i : ℕ) → (at t i).parent ≡ none
first_orphan t b zero = b.first.2
first_orphan t b (suc i) = ap (λ (p : Proc). p.parent) (b.others i)

IsFirst-IsOrdered : (t : Table) → IsFirst t → IsOrdered t
unfolding is_live
IsFirst-IsOrdered t b = (
  record {
    counter = omega (arith, b.next);
    numbered = first-IsNumbered t b;
    distinct = first_distinct t b;
    parented = λ i j e. absurd (let e' = first_orphan t b i in cc);
    init = let e = b.first.0 in rw b.init (ap is_live e);
  },
  λ i j _ e _. let e' = first_orphan t b i in cc,
)

-- The first process, and its table.
abbrev pub first_proc : ℕ → ℕ → ℕ → Proc
first_proc trapframe pagetable root = record blank {
  pid = 1;
  state = runnable;
  trapframe = trapframe;
  pagetable = pagetable;
  sz = page_size;
  name = initcode_name;
  cwd = root;
}

abbrev pub booted : ℕ → ℕ → ℕ → Table
booted trapframe pagetable root = record {
  procs = first_proc trapframe pagetable root ∷ replicate 63 blank;
  nextpid = 2;
  initproc = 0;
}

abbrev first_alloc : ℕ → ℕ → Table
first_alloc trapframe pagetable = record boot_table {
  procs = fresh 1 trapframe pagetable blank ∷ replicate 63 blank;
  nextpid = 2;
}

boot_alloc :
    (trapframe pagetable : ℕ)
    → trapframe ≢ 0
    → pagetable ≢ 0
    → allocproc trapframe pagetable boot_table ≡ (some 0, first_alloc trapframe pagetable)
unfolding find_unused alloc_slot allocproc allocpid is_state
boot_alloc tf pg ntf npg =
    let e : (tf == 0) ≡ false = ne→== tf 0 ntf in
    let e' : (pg == 0) ≡ false = ne→== pg 0 npg in rw (e, e') refl

userinit-booted :
    (trapframe pagetable root : ℕ)
    → trapframe ≢ 0
    → pagetable ≢ 0
    → userinit trapframe pagetable root boot_table ≡ some (booted trapframe pagetable root)
unfolding userinit start_first
userinit-booted tf pg root ntf npg = let e = boot_alloc tf pg ntf npg in rw e refl

booted-IsFirst : (trapframe pagetable root : ℕ) → IsFirst (booted trapframe pagetable root)
booted-IsFirst tf pg root = record {
  next = refl;
  init = refl;
  first = (refl, refl, refl);
  others = get_or-replicate 63;
}

pub booted-IsOrdered : (trapframe pagetable root : ℕ) → IsOrdered (booted trapframe pagetable root)
booted-IsOrdered tf pg root = IsFirst-IsOrdered _ (booted-IsFirst tf pg root)

-- No other slot is in use then.
first_alone : (tf pg root i : ℕ) → i ≢ 0 → ¬ ((at (booted tf pg root) i).state ≢ unused)
first_alone tf pg root zero ne = λ _. ne refl
first_alone tf pg root (suc i) ne = λ u. u (ap (λ (p : Proc). p.state) (get_or-replicate 63 i))

-- Every process but the first has a parent.
abbrev pub HasParent : Table → Type 0
HasParent t =
    (i : ℕ) → (at t i).state ≢ unused → i ≢ t.initproc → (j : ℕ) × ((at t i).parent ≡ some j)

Heirs-HasParent : (tf pg root : ℕ) (t' : Table) → Heirs (booted tf pg root) t' → HasParent t'
Heirs-HasParent tf pg root t' h i live ne = elim (Option-cases (at t' i).parent) [
  | inl e ↦
      let (used_before, _) = h.slots i live e in
      absurd (first_alone tf pg root i (λ z. ne (z ∙ sym h.init)) used_before)
  | inr (j, e) ↦ (j, e)
]

-- When `userinit` has made the first process, with a page for its trap frame and one for its page
-- table, the following holds in every table that the calls of the processes then reach, in any order
-- and any number, as long as the forks leave the counter of pids at the largest int or below. A free
-- slot has pid 0, and any other a pid of its own, below the counter. Every process but the first has a
-- parent, a zombie too, and a parent is neither a free slot nor a zombie. The first process has not
-- exited. No parent of a zombie sleeps on its own slot, so that no wakeup of `wait` is lost.
pub reached-IsOrdered :
    (trapframe pagetable root : ℕ) (t t' : Table) (s : Steps t t')
    → trapframe ≢ 0
    → pagetable ≢ 0
    → userinit trapframe pagetable root boot_table ≡ some t
    → fork_count s + 2 ≤ int_max
    → IsOrdered t' × HasParent t'
reached-IsOrdered tf pg root t t' s ntf npg e few =
    let e' = userinit-booted tf pg root ntf npg in
    let here : booted tf pg root ≡ t = cc in
    let next : 2 ≡ t.nextpid = ap (λ (x : Table). x.nextpid) here in
    let heirs = subst (λ t₀. Heirs t₀ t') (sym here) (Steps-Heirs t t' s) in
    (
      (Steps-IsOrdered t t' s (omega arith) (subst IsOrdered here (booted-IsOrdered tf pg root))).0,
      Heirs-HasParent tf pg root t' heirs,
    )
