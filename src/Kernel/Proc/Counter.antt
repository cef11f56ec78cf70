-- ===== src/Kernel/Proc/Counter.antt =====
-- The counter of pids in kernel/proc.c: which calls move it.
use sleep_e_pingpong.Base.{
  ℕ, zero, suc, ◌+◌, ◌≤◌, ◌≡◌, refl, sym, ap, ◌∙◌, ◌≢◌, inl, inr, Bool, ◌==◌, Option, some,
  Bool-cases, Option-cases, arith, length, replicate,
}
use sleep_e_pingpong.Kernel.Proc.{nofile, runnable, running, unused, is_state, Table, at, put, fork}
use sleep_e_pingpong.Kernel.Sched.{
  wakeup, is_child, reparent_loop, reparent, wake_parent, exit, Waited, wait_round, sleep, schedule,
  kill,
}
use sleep_e_pingpong.Kernel.Proc.Exit.{dies, leave, exit_runs}
use sleep_e_pingpong.Kernel.Proc.Fork.{ForkRun, full, fails, forks, fork-ForkRun}
use sleep_e_pingpong.Kernel.Proc.Wait.{
  WaitRun, reaps, bad_address, childless, interrupted, sleeps, wait_round-WaitRun,
}
use sleep_e_pingpong.Kernel.Proc.Kill.{KillEffect, no_such, marks, kill-KillEffect}

-- `t'` has the pids of `t` to give out.
abbrev pub SameCounter : Table → Table → Type 0
SameCounter t t' = t'.nextpid ≡ t.nextpid

reparent_loop-SameCounter : (me left i : ℕ) (t : Table) → SameCounter t (reparent_loop me left i t)
unfolding reparent_loop wakeup
reparent_loop-SameCounter me zero i t = refl
reparent_loop-SameCounter me (suc left) i t =
    reparent_loop-SameCounter me left (i + 1) _
    ∙ elim (Bool-cases (is_child me (at t i))) [ inl c ↦ rw c refl | inr c ↦ rw c refl ]

reparent-SameCounter : (me : ℕ) (t : Table) → SameCounter t (reparent me t)
unfolding reparent
reparent-SameCounter me t = reparent_loop-SameCounter me (length t.procs) 0 t

wake_parent-SameCounter : (me : ℕ) (t : Table) → SameCounter t (wake_parent me t)
unfolding wake_parent wakeup
wake_parent-SameCounter me t = elim (Option-cases (at t me).parent) [
  | inl e ↦ rw (e, wake_parent) refl
  | inr (j, e) ↦ rw (e, wake_parent) refl
]

leave-SameCounter : (me : ℕ) (t : Table) → SameCounter t (leave me t)
leave-SameCounter me t =
    let c : Table = put t me (record (at t me) { ofile = replicate nofile 0; cwd = 0 }) in
    wake_parent-SameCounter me (reparent me c) ∙ reparent-SameCounter me c

pub exit-SameCounter :
    (me status : ℕ) (t t' : Table) → exit me status t ≡ some t' → SameCounter t t'
unfolding exit
exit-SameCounter me status t t' e = elim (Bool-cases (me == t.initproc)) [
  | inl h ↦ absurd (let e' = rw h at e in cc)
  | inr h ↦
      let ne : t.initproc ≢ me = ground arith in
      let e' = exit_runs me status t ne in
      let same : dies me status (leave me t) ≡ t' = cc in
      ap (λ (x : Table). x.nextpid) (sym same) ∙ leave-SameCounter me t
]

wait_counter :
    (me : ℕ) (copyout : Bool) (t : Table) (r : Waited × Table)
    → WaitRun me copyout t r
    → SameCounter t r.1
unfolding sleep
wait_counter me copyout t _ (reaps _ _ _ _ _) = refl
wait_counter me copyout t _ (bad_address _ _ _ _ _) = refl
wait_counter me copyout t _ (childless _) = refl
wait_counter me copyout t _ (interrupted _ _) = refl
wait_counter me copyout t _ (sleeps _ _ _) = refl

pub wait_round-SameCounter :
    (me : ℕ) (copyout : Bool) (t : Table) → SameCounter t (wait_round me copyout t).1
wait_round-SameCounter me copyout t = wait_counter me copyout t _ (wait_round-WaitRun me copyout t)

kill_counter :
    (pid : ℕ) (t t' : Table) (r : Option Table)
    → r ≡ some t'
    → KillEffect pid t r
    → SameCounter t t'
kill_counter pid t t' _ e (no_such _) = absurd cc
kill_counter pid t t' _ e (marks j s _ _ _ e') =
    let n : s.nextpid ≡ t.nextpid = ap (λ (x : Table). x.nextpid) e' in
    let same : s ≡ t' = cc in ap (λ (x : Table). x.nextpid) (sym same) ∙ n

pub kill-SameCounter : (pid : ℕ) (t t' : Table) → kill pid t ≡ some t' → SameCounter t t'
kill-SameCounter pid t t' e = kill_counter pid t t' _ e (kill-KillEffect pid t)

pub schedule-SameCounter : (i : ℕ) (t t' : Table) → schedule i t ≡ some t' → SameCounter t t'
unfolding schedule
schedule-SameCounter i t t' e = elim (Bool-cases (is_state (at t i).state runnable)) [
  | inl h ↦
      let e₀ = rw h at e in
      let same : put t i (record (at t i) { state = running }) ≡ t' = cc in
      ap (λ (x : Table). x.nextpid) (sym same)
  | inr h ↦ absurd (let e' = rw h at e in cc)
]

fork_counter :
    (me tf pg : ℕ) (copied : Bool) (t : Table) (r : Option ℕ × Table)
    → ForkRun me tf pg copied t r
    → r.1.nextpid ≤ t.nextpid + 1
fork_counter me tf pg copied t _ (full _) = omega arith
fork_counter me tf pg copied t _ (fails i t' _ k) = omega (arith, k.next)
fork_counter me tf pg copied t _ (forks i _ t' _ _ _ _ k) = omega (arith, k.next)

pub fork_moves :
    (me tf pg : ℕ) (copied : Bool) (t : Table)
    → (at t me).state ≢ unused
    → (fork me tf pg copied t).1.nextpid ≤ t.nextpid + 1
fork_moves me tf pg copied t live =
    fork_counter me tf pg copied t _ (fork-ForkRun me tf pg copied t live)
