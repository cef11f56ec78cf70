-- ===== src/Kernel/Proc.antt =====
-- kernel/proc.c: the process table, and the calls that change it.
-- A process is its slot in the table, and a pointer to one is its index. Each function runs as if
-- alone: what it reads and writes is under the locks that it takes. Saved registers, and the pages
-- that hang from a slot, are left out but for whether they are there.
pub mod Slots
pub mod Wakeup
pub mod Fork
pub mod Wait
pub mod Kill
pub mod Family
pub mod Await
pub mod Reparent
pub mod Exit
pub mod Moves
pub mod Counter
pub mod Heirs
pub mod ExitHeirs
pub mod Steps
pub mod Boot
pub mod KillZero
mod Tests
use sleep_e_pingpong.Base.{
  uint_mod, ◌%◌, ℕ, zero, suc, ◌+◌, Bool, true, false, not, ◌&&◌, ◌||◌, List, [], ◌∷◌, Option, none,
  some, ltb, ◌==◌, if◌then◌else◌, get_or, set, replicate, length,
}

-- `NPROC` with the file system's larger tests, and `NOFILE`
abbrev pub nproc : ℕ
nproc = 64

abbrev pub nofile : ℕ
nofile = 16

-- `enum procstate`
pub data ProcState : Type 0 where
  unused used sleeping runnable running zombie : ProcState

-- The addresses that processes sleep on: a slot of the table, or another kernel object.
pub data Channel : Type 0 where
  slot : ℕ → Channel
  object : ℕ → Channel

unfoldable pub same_chan : Channel → Channel → Bool
same_chan (slot i) (slot j) = i == j
same_chan (object a) (object b) = a == b
same_chan _ _ = false

unfoldable pub is_state : ProcState → ProcState → Bool
is_state unused unused = true
is_state used used = true
is_state sleeping sleeping = true
is_state runnable runnable = true
is_state running running = true
is_state zombie zombie = true
is_state _ _ = false

-- `struct proc`, less its lock, kernel stack and context. The null pointer is `none`, or 0 for an
-- address outside the table.
pub record Proc : Type 0 where
  pub state : ProcState
  pub chan : Option Channel
  pub killed : Bool
  pub xstate : ℕ
  pub pid : ℕ
  pub parent : Option ℕ
  pub sz : ℕ
  pub pagetable : ℕ
  pub trapframe : ℕ
  pub ofile : List ℕ
  pub cwd : ℕ
  pub name : List ℕ

-- A slot of the zeroed table.
abbrev pub blank : Proc
blank = record {
  state = unused;
  chan = none;
  killed = false;
  xstate = 0;
  pid = 0;
  parent = none;
  sz = 0;
  pagetable = 0;
  trapframe = 0;
  ofile = replicate nofile 0;
  cwd = 0;
  name = [];
}

pub record Table : Type 0 where
  pub procs : List Proc
  pub nextpid : ℕ
  pub initproc : ℕ

-- `proc[i]`, and a write of it.
abbrev pub at : Table → ℕ → Proc
at t i = get_or t.procs i blank

abbrev pub put : Table → ℕ → Proc → Table
put t i p = record t { procs = set t.procs i p }

-- `allocpid`. The counter is the 32-bit word of the int `nextpid`; past the largest int the sum is
-- undefined in C, so that theorems on many calls assume that it stays below.
unfoldable pub allocpid : Table → ℕ × Table
allocpid t = (t.nextpid, record t { nextpid = (t.nextpid + 1) % uint_mod })

unfoldable pub freeproc : Proc → Proc
freeproc p = record p {
  trapframe = 0;
  pagetable = 0;
  sz = 0;
  pid = 0;
  parent = none;
  name = [];
  chan = none;
  killed = false;
  xstate = 0;
  state = unused;
}

-- The scan of `allocproc` from slot `i`.
unfoldable pub find_unused : List Proc → ℕ → Option ℕ
unfolding is_state
find_unused [] i = none
find_unused (p ∷ ps) i =
    let rest = find_unused ps (i + 1) in if is_state p.state unused then some i else rest

-- `allocproc` at the slot it found: `trapframe` and `pagetable` are what `kalloc` and
-- `proc_pagetable` return, 0 on failure.
unfoldable pub alloc_slot : ℕ → ℕ → ℕ → Table → Option ℕ × Table
unfolding allocpid freeproc
alloc_slot trapframe pagetable i t =
    let (pid, t₁) = allocpid t in
    let p = record (at t i) { pid = pid; state = used; trapframe = trapframe } in
    let p' = record p { pagetable = pagetable } in
    if trapframe == 0
    then (none, put t₁ i (freeproc p))
    else if pagetable == 0
    then (none, put t₁ i (freeproc p'))
    else (some i, put t₁ i p')

unfoldable pub allocproc : ℕ → ℕ → Table → Option ℕ × Table
unfolding find_unused alloc_slot
allocproc trapframe pagetable t = elim (find_unused t.procs 0) [
  | none ↦ (none, t)
  | some i ↦ alloc_slot trapframe pagetable i t
]

-- The table before the first process, and the constants of `userinit`.
abbrev pub boot_table : Table
boot_table = record { procs = replicate nproc blank; nextpid = 1; initproc = 0 }

abbrev pub initcode_name : List ℕ
initcode_name = 105 ∷ 110 ∷ 105 ∷ 116 ∷ 99 ∷ 111 ∷ 100 ∷ 101 ∷ []

abbrev pub page_size : ℕ
page_size = 4096

-- `userinit` once `allocproc` has returned; `none` is a null pointer that is followed.
unfoldable pub start_first : ℕ → Option ℕ → Table → Option Table
start_first root none t = none
start_first root (some i) t = some (
    put (record t { initproc = i }) i
      (record (at t i) { sz = page_size; name = initcode_name; cwd = root; state = runnable }))

-- `userinit`, where `root` is what `namei` returns.
unfoldable pub userinit : ℕ → ℕ → ℕ → Table → Option Table
unfolding allocproc start_first
userinit trapframe pagetable root t =
    let (found, t₁) = allocproc trapframe pagetable t in start_first root found t₁

-- The loop that shares the open files: a null entry leaves the child's as it is.
unfoldable pub dup_files : List ℕ → List ℕ → List ℕ
dup_files [] np = np
dup_files (f ∷ fs) [] = []
dup_files (f ∷ fs) (g ∷ gs) = (if f == 0 then g else f) ∷ dup_files fs gs

-- `fork` once `allocproc` has found slot `i`; `copied` says whether `uvmcopy` succeeds.
unfoldable pub fork_slot : ℕ → Bool → ℕ → Table → Option ℕ × Table
unfolding freeproc dup_files
fork_slot me copied i t =
    let p = at t me in
    let np = at t i in
    if not copied then (none, put t i (freeproc np)) else (
      some np.pid,
      put t i (record np {
        sz = p.sz;
        ofile = dup_files p.ofile np.ofile;
        cwd = p.cwd;
        name = p.name;
        parent = some me;
        state = runnable;
      }),
    )

-- `fork` by process `me`; `none` is -1.
unfoldable pub fork : ℕ → ℕ → ℕ → Bool → Table → Option ℕ × Table
unfolding allocproc fork_slot
fork me trapframe pagetable copied t =
    let (found, t₁) = allocproc trapframe pagetable t in
    elim found [ none ↦ (none, t₁) | some i ↦ fork_slot me copied i t₁ ]
