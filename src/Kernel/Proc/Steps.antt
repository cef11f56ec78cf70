-- ===== src/Kernel/Proc/Steps.antt =====
-- The calls of kernel/proc.c as steps of the process table, and what holds in every table they reach.
use mathlib.Core.Path.{subst}
use sleep_e_pingpong.Base.{
  uint_mod, ◌+◌, ◌<◌, ◌≤◌, ℕ, ◌≡◌, refl, ap, ◌≢◌, inl, inr, Bool, some, ◌==◌, Bool-cases, arith,
}
use sleep_e_pingpong.Kernel.Proc.{running, object, Table, at, fork}
use sleep_e_pingpong.Kernel.Sched.{
  wakeup, exit, sleep, awake, wait_round, schedule, yield, kill, setkilled,
}
use sleep_e_pingpong.Kernel.Proc.Fork.{fork-ForkRun}
use sleep_e_pingpong.Kernel.Proc.Wait.{wait_round-WaitRun}
use sleep_e_pingpong.Kernel.Proc.Kill.{kill-KillEffect}
use sleep_e_pingpong.Kernel.Proc.Exit.{exit-Exited}
use sleep_e_pingpong.Kernel.Proc.Family.{is_live, IsFamily-kin}
use sleep_e_pingpong.Kernel.Proc.Await.{IsAwaited-kept, wakeup-Same}
use sleep_e_pingpong.Kernel.Proc.Counter.{
  exit-SameCounter, wait_round-SameCounter, kill-SameCounter, schedule-SameCounter, fork_moves,
}
use sleep_e_pingpong.Kernel.Proc.ExitHeirs.{exit-Heirs}
use sleep_e_pingpong.Kernel.Proc.Heirs.{
  Heirs, Heirs-refl, Heirs-trans, wakeup-Heirs, fork-Heirs, wait_round-Heirs, kill-Heirs,
  schedule-Heirs, sleep-Heirs, awake-Heirs, yield-Heirs, setkilled-Heirs,
}
use sleep_e_pingpong.Kernel.Proc.Moves.{
  IsOrdered, fork_step, wait_step, kill_step, choose_step, own_step,
}

-- A step: the process `me` runs, or the scheduler chooses. A process sleeps on its own slot in `wait`
-- only, and elsewhere on another object.
pub data Step (t : Table) : Table → Type 0 where
  forking :
      (me trapframe pagetable : ℕ) (copied : Bool) (t' : Table)
      → (at t me).state ≡ running
      → (fork me trapframe pagetable copied t).1 ≡ t'
      → Step t t'
  exiting :
      (me status : ℕ) (t' : Table)
      → (at t me).state ≡ running
      → exit me status t ≡ some t'
      → Step t t'
  waiting :
      (me : ℕ) (copyout : Bool) (t' : Table)
      → (at t me).state ≡ running
      → (wait_round me copyout t).1 ≡ t'
      → Step t t'
  blocking : (me address : ℕ) → (at t me).state ≡ running → Step t (sleep me (object address) t)
  resuming : (me : ℕ) → (at t me).state ≡ running → Step t (awake me t)
  signalling : (me address : ℕ) → Step t (wakeup me (object address) t)
  choosing : (i : ℕ) (t' : Table) → schedule i t ≡ some t' → Step t t'
  yielding : (me : ℕ) → (at t me).state ≡ running → Step t (yield me t)
  killing : (pid : ℕ) (t' : Table) → kill pid t ≡ some t' → Step t t'
  condemning : (me : ℕ) → (at t me).state ≡ running → Step t (setkilled me t)

pub data Steps (t : Table) : Table → Type 0 where
  stop : Steps t t
  more : {t' t'' : Table} → Steps t t' → Step t' t'' → Steps t t''

exit_step :
    (me status : ℕ) (t t' : Table)
    → (at t me).state ≡ running
    → exit me status t ≡ some t'
    → IsOrdered t
    → IsOrdered t'
unfolding exit
exit_step me status t t' runs e (f, q) = elim (Bool-cases (me == t.initproc)) [
  | inl h ↦ absurd (let e' = rw h at e in cc)
  | inr h ↦
      let ne : t.initproc ≢ me = ground arith in
      let (s, e', x) = exit-Exited me status t runs ne f q in
      let here : s ≡ t' = cc in subst IsOrdered here (x.family, x.awaited)
]

-- How often a process is made: the counter of pids moves then at most.
abbrev pub step_forks : {t t' : Table} → Step t t' → ℕ
step_forks (forking _ _ _ _ _ _ _) = 1
step_forks _ = 0

abbrev pub fork_count : {t t' : Table} → Steps t t' → ℕ
fork_count stop = 0
fork_count (more rest step) = fork_count rest + step_forks step

Step-counter : {t t' : Table} → (s : Step t t') → t'.nextpid ≤ t.nextpid + step_forks s
unfolding sleep awake yield setkilled wakeup
Step-counter {t} (forking me tf pg copied _ runs e) =
    let le = fork_moves me tf pg copied t (λ u. absurd cc) in
    let e' = ap (λ (x : Table). x.nextpid) e in omega arith
Step-counter {t} {t'} (exiting me status _ runs e) =
    omega (arith, exit-SameCounter me status t t' e)
Step-counter {t} (waiting me copyout _ runs e) =
    let e' = ap (λ (x : Table). x.nextpid) e in omega (arith, wait_round-SameCounter me copyout t)
Step-counter {t} (blocking me a runs) = omega arith
Step-counter {t} (resuming me runs) = omega arith
Step-counter {t} (signalling me a) = omega arith
Step-counter {t} (choosing i t' e) = omega (arith, schedule-SameCounter i t t' e)
Step-counter {t} (yielding me runs) = omega arith
Step-counter {t} (killing pid t' e) = omega (arith, kill-SameCounter pid t t' e)
Step-counter {t} (condemning me runs) = omega arith

Step-IsOrdered :
    {t t' : Table}
    → (s : Step t t') → t.nextpid + step_forks s < uint_mod
    → IsOrdered t
    → IsOrdered t'
unfolding is_live sleep awake yield setkilled wakeup
Step-IsOrdered {t} (forking me tf pg copied _ runs e) lt o =
    subst IsOrdered e
      (fork_step me tf pg copied t _ lt runs (fork-ForkRun me tf pg copied t (λ u. absurd cc)) o)
Step-IsOrdered {t} {t'} (exiting me status _ runs e) lt o = exit_step me status t t' runs e o
Step-IsOrdered {t} (waiting me copyout _ runs e) lt o =
    subst IsOrdered e (wait_step me copyout t _ runs (wait_round-WaitRun me copyout t) o)
Step-IsOrdered {t} (blocking me a runs) lt o =
    own_step me _ t runs refl refl refl (λ j w. let (_, w₁) = w in absurd cc) o
Step-IsOrdered {t} (resuming me runs) lt o =
    own_step me _ t runs refl refl (ap is_live runs) (λ j w. let (_, w₁) = w in absurd cc) o
Step-IsOrdered {t} (signalling me a) lt (f, q) =
    let s = wakeup-Same me (object a) t in
    (
      IsFamily-kin t (wakeup me (object a) t) refl refl (λ j. (s j).0) f,
      IsAwaited-kept t (wakeup me (object a) t) s q,
    )
Step-IsOrdered {t} (choosing i t' e) lt o = choose_step i t t' e o
Step-IsOrdered {t} (yielding me runs) lt o =
    own_step me _ t runs refl refl refl (λ j w. let (w₀, _) = w in absurd cc) o
Step-IsOrdered {t} (killing pid t' e) lt o = kill_step pid t t' _ e (kill-KillEffect pid t) o
Step-IsOrdered {t} (condemning me runs) lt o =
    own_step me _ t runs refl refl (ap is_live runs) (λ j w. let (w₀, _) = w in absurd cc) o

-- Fork, exit, wait, sleep, wakeup, yield, kill and the scheduler, in any order, keep the table in
-- order, as long as the forks leave the counter of pids below 2^32.
pub Steps-IsOrdered :
    (t t' : Table) (s : Steps t t')
    → t.nextpid + fork_count s < uint_mod
    → IsOrdered t
    → IsOrdered t' × (t'.nextpid ≤ t.nextpid + fork_count s)
Steps-IsOrdered t _ stop lt o = (o, omega arith)
Steps-IsOrdered t _ (more rest step) lt o =
    let (o', le) = Steps-IsOrdered t _ rest (omega arith) o in
    (Step-IsOrdered step (omega arith) o', omega (arith, Step-counter step))

Step-Heirs : {t t' : Table} → Step t t' → Heirs t t'
Step-Heirs {t} (forking me tf pg copied _ runs e) =
    subst (Heirs t) e (fork-Heirs me tf pg copied t (λ u. absurd cc))
Step-Heirs {t} {t'} (exiting me status _ runs e) = exit-Heirs me status t t' (λ u. absurd cc) e
Step-Heirs {t} (waiting me copyout _ runs e) =
    subst (Heirs t) e (wait_round-Heirs me copyout t (λ u. absurd cc))
Step-Heirs {t} (blocking me a runs) = sleep-Heirs me (object a) t (λ u. absurd cc)
Step-Heirs {t} (resuming me runs) = awake-Heirs me t (λ u. absurd cc)
Step-Heirs {t} (signalling me a) = wakeup-Heirs me (object a) t
Step-Heirs {t} (choosing i t' e) = schedule-Heirs i t t' e
Step-Heirs {t} (yielding me runs) = yield-Heirs me t (λ u. absurd cc)
Step-Heirs {t} (killing pid t' e) = kill-Heirs pid t t' e
Step-Heirs {t} (condemning me runs) = setkilled-Heirs me t (λ u. absurd cc)

pub Steps-Heirs : (t t' : Table) → Steps t t' → Heirs t t'
Steps-Heirs t _ stop = Heirs-refl t
Steps-Heirs t t' (more {t' = t₁} rest step) =
    Heirs-trans t t₁ t' (Steps-Heirs t t₁ rest) (Step-Heirs step)
