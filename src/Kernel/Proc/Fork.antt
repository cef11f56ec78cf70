-- ===== src/Kernel/Proc/Fork.antt =====
-- `allocproc` and `fork` of kernel/proc.c: the new process, and what a failure leaves.
use sleep_e_pingpong.Base.{
  zero, suc, List, [], ◌∷◌, get_or, ne→==, ap, uint_mod, ◌%◌, ℕ, ◌+◌, ◌<◌, ◌≡◌, refl, sym, ◌∙◌, ◌≢◌,
  ◌⊎◌, inl, inr, Bool, true, false, Option, none, some, ◌==◌, set, length, Option-cases, length-set,
  Bool-cases, arith,
}
use sleep_e_pingpong.Kernel.Proc.{
  unused, used, runnable, Proc, Table, at, put, allocpid, freeproc, find_unused, alloc_slot,
  allocproc, dup_files, fork_slot, fork,
}
use sleep_e_pingpong.Kernel.Proc.Wait.{cleared}
use sleep_e_pingpong.Kernel.Proc.Slots.{
  FirstFree, is_free, find_unused-some, find_unused-none, at-put_self, at-put_ne,
}

-- Slot `i` was free, holds `p` now, and a pid was used up.
pub record Takes (i : ℕ) (p : Proc) (t t' : Table) : Type 0 where
  pub slot : FirstFree t.procs i
  pub proc : at t' i ≡ p
  pub next : t'.nextpid ≡ (t.nextpid + 1) % uint_mod
  pub others : (j : ℕ) → j ≢ i → at t' j ≡ at t j
  pub initproc : t'.initproc ≡ t.initproc

takes :
    (i : ℕ) (p : Proc) (t : Table)
    → FirstFree t.procs i
    → Takes i p t (record t { procs = set t.procs i p; nextpid = (t.nextpid + 1) % uint_mod })
takes i p t f = record {
  slot = f;
  proc = at-put_self t i p f.bound;
  next = refl;
  others = λ j ne. at-put_ne t i j p (λ e. ne (sym e));
  initproc = refl;
}

-- A second write to the slot that was taken.
retake :
    (i : ℕ) (p q : Proc) (t t' : Table)
    → Takes i p t t'
    → length t'.procs ≡ length t.procs
    → Takes i q t (put t' i q)
retake i p q t t' k len = record {
  slot = k.slot;
  proc = at-put_self t' i q (omega (arith, k.slot.bound));
  next = k.next;
  others = λ j ne. at-put_ne t' i j q (λ e. ne (sym e)) ∙ k.others j ne;
  initproc = k.initproc;
}

-- The process that `allocproc` makes of the free slot `p`.
abbrev pub fresh : ℕ → ℕ → ℕ → Proc → Proc
fresh pid trapframe pagetable p = record p {
  pid = pid;
  state = used;
  trapframe = trapframe;
  pagetable = pagetable;
}

-- What `allocproc` may do.
pub data AllocRun (trapframe pagetable : ℕ) (t : Table) : Option ℕ × Table → Type 0 where
  full :
      ((j : ℕ) → j < length t.procs → is_free (at t j) ≡ false)
      → AllocRun trapframe pagetable t (none, t)
  fails :
      (i : ℕ) (t' : Table)
      → (trapframe ≡ 0) ⊎ (pagetable ≡ 0)
      → Takes i (cleared (at t i)) t t'
      → AllocRun trapframe pagetable t (none, t')
  allocs :
      (i : ℕ) (t' : Table)
      → trapframe ≢ 0
      → pagetable ≢ 0
      → Takes i (fresh t.nextpid trapframe pagetable (at t i)) t t'
      → length t'.procs ≡ length t.procs
      → AllocRun trapframe pagetable t (some i, t')

alloc_slot-AllocRun :
    (trapframe pagetable i : ℕ) (t : Table)
    → FirstFree t.procs i
    → AllocRun trapframe pagetable t (alloc_slot trapframe pagetable i t)
unfolding alloc_slot allocpid freeproc
alloc_slot-AllocRun tf pg i t f = elim (Bool-cases (tf == 0)) [
  | inl e ↦ rw e (fails i _ (inl (ground arith)) (takes i _ t f))
  | inr e ↦ elim (Bool-cases (pg == 0)) [
    | inl e' ↦ rw e (rw e' (fails i _ (inr (ground arith)) (takes i _ t f)))
    | inr e' ↦ rw e (
        rw e' (
          allocs i _ (ground arith) (ground arith) (takes i _ t f)
            (length-set t.procs i (fresh t.nextpid tf pg (at t i)))))
  ]
]

-- All that `allocproc` does.
pub allocproc-AllocRun :
    (trapframe pagetable : ℕ) (t : Table)
    → AllocRun trapframe pagetable t (allocproc trapframe pagetable t)
unfolding allocproc
allocproc-AllocRun tf pg t = elim (Option-cases (find_unused t.procs 0)) [
  | inl e ↦ rw (e, allocproc) (full (find_unused-none t.procs 0 e))
  | inr (i, e) ↦ rw (e, allocproc) (alloc_slot-AllocRun tf pg i t (find_unused-some t.procs i e))
]

-- The files `hs` of a child: those of its parent, `fs`, and the old ones, `gs`, where it has none open.
pub record SharesFiles (fs gs hs : List ℕ) : Type 0 where
  pub size : length hs ≡ length gs
  pub opened : (k : ℕ) → k < length gs → get_or fs k 0 ≢ 0 → get_or hs k 0 ≡ get_or fs k 0
  pub closed : (k : ℕ) → get_or fs k 0 ≡ 0 → get_or hs k 0 ≡ get_or gs k 0

length-dup_files : (fs gs : List ℕ) → length (dup_files fs gs) ≡ length gs
unfolding dup_files
length-dup_files [] gs = refl
length-dup_files (f ∷ fs) [] = refl
length-dup_files (f ∷ fs) (g ∷ gs) = ap suc (length-dup_files fs gs)

dup_opened :
    (fs gs : List ℕ) (k : ℕ)
    → k < length gs
    → get_or fs k 0 ≢ 0
    → get_or (dup_files fs gs) k 0 ≡ get_or fs k 0
unfolding dup_files
dup_opened [] gs k lt ne = absurd (ne refl)
dup_opened (f ∷ fs) [] k lt ne = absurd (omega arith)
dup_opened (f ∷ fs) (g ∷ gs) zero lt ne = let e : (f == 0) ≡ false = ne→== f 0 ne in rw e refl
dup_opened (f ∷ fs) (g ∷ gs) (suc k) lt ne = dup_opened fs gs k (omega arith) ne

dup_closed :
    (fs gs : List ℕ) (k : ℕ) → get_or fs k 0 ≡ 0 → get_or (dup_files fs gs) k 0 ≡ get_or gs k 0
unfolding dup_files
dup_closed [] gs k e = refl
dup_closed (f ∷ fs) [] k e = refl
dup_closed (f ∷ fs) (g ∷ gs) zero e = rw e refl
dup_closed (f ∷ fs) (g ∷ gs) (suc k) e = dup_closed fs gs k e

dup_files-SharesFiles : (fs gs : List ℕ) → SharesFiles fs gs (dup_files fs gs)
dup_files-SharesFiles fs gs = record {
  size = length-dup_files fs gs;
  opened = dup_opened fs gs;
  closed = dup_closed fs gs;
}

-- The child that `fork` makes of the free slot `p`, for the parent `me`.
abbrev pub child : ℕ → ℕ → ℕ → ℕ → Proc → List ℕ → Proc → Proc
child pid trapframe pagetable me parent files p = record p {
  pid = pid;
  state = runnable;
  trapframe = trapframe;
  pagetable = pagetable;
  sz = parent.sz;
  ofile = files;
  cwd = parent.cwd;
  name = parent.name;
  parent = some me;
}

-- What `fork` may do.
pub data ForkRun (me trapframe pagetable : ℕ) (copied : Bool) (t : Table)
    : Option ℕ × Table → Type 0 where
  full :
      ((j : ℕ) → j < length t.procs → is_free (at t j) ≡ false)
      → ForkRun me trapframe pagetable copied t (none, t)
  fails :
      (i : ℕ) (t' : Table)
      → (trapframe ≡ 0) ⊎ (pagetable ≡ 0) ⊎ (copied ≡ false)
      → Takes i (cleared (at t i)) t t'
      → ForkRun me trapframe pagetable copied t (none, t')
  forks :
      (i : ℕ) (files : List ℕ) (t' : Table)
      → trapframe ≢ 0
      → pagetable ≢ 0
      → copied ≡ true
      → SharesFiles (at t me).ofile (at t i).ofile files
      → Takes i (child t.nextpid trapframe pagetable me (at t me) files (at t i)) t t'
      → ForkRun me trapframe pagetable copied t (some t.nextpid, t')

fork_slot-ForkRun :
    (me tf pg i : ℕ) (copied : Bool) (t t' : Table)
    → (at t me).state ≢ unused
    → tf ≢ 0
    → pg ≢ 0
    → Takes i (fresh t.nextpid tf pg (at t i)) t t'
    → length t'.procs ≡ length t.procs
    → ForkRun me tf pg copied t (fork_slot me copied i t')
unfolding fork_slot freeproc
fork_slot-ForkRun me tf pg i copied t t' live ntf npg k len =
    let ne : me ≢ i = λ e. live (rw e k.slot.free) in
    elim (Bool-cases copied) [
      | inl e ↦ rw e (
          rw (k.proc, k.others me ne)
            (forks i _ _ ntf npg refl (dup_files-SharesFiles _ _) (retake i _ _ t t' k len)))
      | inr e ↦ rw e (rw k.proc (fails i _ (inr (inr refl)) (retake i _ _ t t' k len)))
    ]

after_alloc :
    (me tf pg : ℕ) (copied : Bool) (t : Table) (r : Option ℕ × Table)
    → (at t me).state ≢ unused
    → AllocRun tf pg t r
    → ForkRun me tf pg copied t
        (elim r.0 [ none ↦ (none, r.1) | some i ↦ fork_slot me copied i r.1 ])
after_alloc me tf pg copied t r live (full f) = full f
after_alloc me tf pg copied t r live (fails i t' (inl e) k) = fails i t' (inl e) k
after_alloc me tf pg copied t r live (fails i t' (inr e) k) = fails i t' (inr (inl e)) k
after_alloc me tf pg copied t r live (allocs i t' ntf npg k len) =
    fork_slot-ForkRun me tf pg i copied t t' live ntf npg k len

-- `fork` by a process in use does one of three things. With no free slot it fails and changes nothing.
-- If the trap frame, the page table or the copy of the memory fails, it fails, leaves the first free
-- slot free and clear but for its open files and directory, uses up a pid and changes no other slot.
-- Otherwise the first free slot holds a RUNNABLE child of the caller with the caller's size, directory
-- and name and the files that the caller has open, the result is its pid, the old value of the
-- counter, and no other slot changes.
pub fork-ForkRun :
    (me trapframe pagetable : ℕ) (copied : Bool) (t : Table)
    → (at t me).state ≢ unused
    → ForkRun me trapframe pagetable copied t (fork me trapframe pagetable copied t)
unfolding fork
fork-ForkRun me tf pg copied t live =
    after_alloc me tf pg copied t (allocproc tf pg t) live (allocproc-AllocRun tf pg t)
