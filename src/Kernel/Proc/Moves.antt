-- ===== src/Kernel/Proc/Moves.antt =====
-- What each call of kernel/proc.c keeps: pids, parents, and the parents that sleep in `wait`.
use mathlib.Core.Path.{subst}
use sleep_e_pingpong.Base.{
  ◌+◌, uint_mod, ◌<◌, ℕ, ◌≤◌, ◌<◌, ◌≡◌, refl, sym, ap, ◌≢◌, inl, inr, Bool, true, false, Option,
  some, set_each, length, Bool-cases, arith,
}
use sleep_e_pingpong.Kernel.Proc.{
  unused, sleeping, runnable, running, is_state, slot, Proc, blank, Table, at, put,
}
use sleep_e_pingpong.Kernel.Sched.{Waited, schedule}
use sleep_e_pingpong.Kernel.Proc.Slots.{at-put_self, at-put_ne, used_bound, is_state_iff}
use sleep_e_pingpong.Kernel.Proc.Fork.{ForkRun, full, fails, forks}
use sleep_e_pingpong.Kernel.Proc.Wait.{
  WaitRun, reaps, bad_address, childless, interrupted, sleeps, cleared, IsDeadChild,
}
use sleep_e_pingpong.Kernel.Proc.Kill.{KillEffect, no_such, marks, victim}
use sleep_e_pingpong.Kernel.Proc.Family.{
  live_used, SameKin, SameKin-refl, is_live, IsFamily, IsFamily-kin, IsFamily-born, IsFamily-freed,
}
use sleep_e_pingpong.Kernel.Proc.Await.{
  Same, Waits, IsAwaited, IsAwaited-kept, IsAwaited-one, put-Same,
}

-- Pids and parents are in order, and no wakeup of `wait` is lost.
abbrev pub IsOrdered : Table → Type 0
IsOrdered t = IsFamily t × IsAwaited t

-- A write of one slot that leaves what it holds alike.
IsOrdered-put :
    (t : Table) (i : ℕ) (p : Proc) → Same (at t i) p → IsOrdered t → IsOrdered (put t i p)
IsOrdered-put t i p same (f, q) =
    let s = put-Same t i p same in
    (IsFamily-kin t (put t i p) refl refl (λ j. (s j).0) f, IsAwaited-kept t (put t i p) s q)

-- A live process that changes to a live one that does not wait.
live_Same :
    (p p' : Proc)
    → p'.pid ≡ p.pid
    → p'.parent ≡ p.parent
    → is_live p.state ≡ true
    → is_live p'.state ≡ true
    → ((j : ℕ) → ¬ Waits p' j)
    → Same p p'
unfolding is_live
live_Same p p' pid parent before after w = (
  record {
    pid = pid;
    parent = parent;
    free = λ e. absurd (live_used p'.state after e);
    in_use = λ e. absurd (live_used p.state before e);
    live = λ _. after;
  },
  record { dead = λ e. absurd (let e' = rw e at after in cc); waits = λ j h. absurd (w j h) },
)

-- A slot that is not live is freed.
pub freed_step :
    (t t' : Table) (i : ℕ) (p : Proc)
    → at t' i ≡ cleared p
    → ((j : ℕ) → j ≢ i → at t' j ≡ at t j)
    → t.nextpid ≤ t'.nextpid
    → t'.initproc ≡ t.initproc
    → is_live (at t i).state ≡ false
    → IsOrdered t
    → IsOrdered t'
freed_step t t' i p new others le init dead (f, q) = (
  IsFamily-freed t t' i (cleared p) new others le init dead refl refl refl f,
  IsAwaited-one t t' i (cleared p) new others (λ e. absurd cc) (λ w. let (w₀, _) = w in absurd cc)
      q,
)

pub fork_step :
    (me tf pg : ℕ) (copied : Bool) (t : Table) (r : Option ℕ × Table)
    → t.nextpid + 1 < uint_mod
    → (at t me).state ≡ running
    → ForkRun me tf pg copied t r
    → IsOrdered t
    → IsOrdered r.1
unfolding is_live
fork_step me tf pg copied t _ lt runs (full _) o = o
fork_step me tf pg copied t _ lt runs (fails i t' _ k) o =
    let dead : is_live (at t i).state ≡ false = ap is_live k.slot.free in
    freed_step t t' i (at t i) k.proc k.others (omega (arith, k.next)) k.initproc dead o
fork_step me tf pg copied t _ lt runs (forks i _ t' _ _ _ _ k) (f, q) =
    let parent : (j : ℕ) → some me ≡ some j → is_live (at t j).state ≡ true = λ j e.
      let e' : me ≡ j = cc in subst (λ n. is_live (at t n).state ≡ true) e' (ap is_live runs) in
    (
      IsFamily-born t t' i _ k.proc k.others (omega (arith, k.next)) k.initproc k.slot.free refl
          refl parent f,
      IsAwaited-one t t' i _ k.proc k.others (λ e. absurd cc) (λ w. let (w₀, _) = w in absurd cc) q,
    )

-- `wait` goes to sleep, with no zombie child.
sleep_step :
    (me : ℕ) (t : Table)
    → (at t me).state ≡ running
    → ((i : ℕ) → i < length t.procs → ¬ IsDeadChild me (at t i))
    → IsOrdered t
    → IsOrdered (put t me (record (at t me) { state = sleeping; chan = some (slot me) }))
unfolding is_live
sleep_step me t runs alive (f, q) =
    let p : Proc = record (at t me) { chan = some (slot me); state = sleeping } in
    let taken : (at t me).state ≢ unused = λ e. absurd cc in
    let new = at-put_self t me p (used_bound t.procs me taken) in
    let kin : SameKin (at t me) p = record {
      pid = refl;
      parent = refl;
      free = λ e. absurd cc;
      in_use = λ e. absurd (taken e);
      live = λ _. refl;
    } in
    (
      IsFamily-kin t (put t me p) refl refl
          (λ j. set_each SameKin t.procs me j p blank SameKin-refl kin) f,
      IsAwaited-one t (put t me p) me p new (λ j h. at-put_ne t me j p (λ e. h (sym e)))
          (λ e. absurd cc)
          (λ _ k _ dead par.
            let lt = used_bound t.procs k (λ e. absurd cc) in alive k lt (par, dead))
          q,
    )

pub wait_step :
    (me : ℕ) (copyout : Bool) (t : Table) (r : Waited × Table)
    → (at t me).state ≡ running
    → WaitRun me copyout t r
    → IsOrdered t
    → IsOrdered r.1
unfolding is_live
wait_step me copyout t _ runs (reaps j lt dead _ _) o =
    freed_step t (put t j (cleared (at t j))) j (at t j) (at-put_self t j _ lt)
      (λ k h. at-put_ne t j k _ (λ e. h (sym e))) (omega arith) refl (ap is_live dead.1) o
wait_step me copyout t _ runs (bad_address _ _ _ _ _) o = o
wait_step me copyout t _ runs (childless _) o = o
wait_step me copyout t _ runs (interrupted _ _) o = o
wait_step me copyout t _ runs (sleeps alive _ _) o = sleep_step me t runs alive o

victim-Same : (p : Proc) → Same p (victim p)
unfolding is_live
victim-Same p = elim (Bool-cases (is_state p.state sleeping)) [
  | inl e ↦
      let slept = is_state_iff p.state sleeping e in
      rw e (
        live_Same p (record p { killed = true; state = runnable }) refl refl (ap is_live slept) refl
          (λ j w. let (w₀, _) = w in cc))
  | inr e ↦ rw e (
    record { pid = refl; parent = refl; free = λ h. h; in_use = λ h. h; live = λ h. h },
    record { dead = λ h. h; waits = λ j w. w },
  )
]

pub kill_step :
    (pid : ℕ) (t t' : Table) (r : Option Table)
    → r ≡ some t'
    → KillEffect pid t r
    → IsOrdered t
    → IsOrdered t'
kill_step pid t t' _ e (no_such _) o = absurd cc
kill_step pid t t' _ e (marks j s _ _ _ e') o =
    let here : put t j (victim (at t j)) ≡ t' = cc in
    subst IsOrdered here (IsOrdered-put t j (victim (at t j)) (victim-Same (at t j)) o)

pub choose_step : (i : ℕ) (t t' : Table) → schedule i t ≡ some t' → IsOrdered t → IsOrdered t'
unfolding schedule is_live
choose_step i t t' e o = elim (Bool-cases (is_state (at t i).state runnable)) [
  | inl h ↦
      let ready = is_state_iff (at t i).state runnable h in
      let p : Proc = record (at t i) { state = running } in
      let e₀ = rw h at e in
      let e' : put t i p ≡ t' = cc in
      subst IsOrdered e' (
        IsOrdered-put t i p
          (live_Same (at t i) p refl refl (ap is_live ready) refl (λ j w. let (w₀, _) = w in cc)) o)
  | inr h ↦ absurd (let e' = rw h at e in cc)
]

-- A write of a running process's own slot.
pub own_step :
    (me : ℕ) (p : Proc) (t : Table)
    → (at t me).state ≡ running
    → p.pid ≡ (at t me).pid
    → p.parent ≡ (at t me).parent
    → is_live p.state ≡ true
    → ((j : ℕ) → ¬ Waits p j)
    → IsOrdered t
    → IsOrdered (put t me p)
unfolding is_live
own_step me p t runs pid parent live w o =
    IsOrdered-put t me p (live_Same (at t me) p pid parent (ap is_live runs) live w) o
