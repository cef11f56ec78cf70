-- ===== src/Kernel/Sched.antt =====
-- kernel/proc.c: the calls on the process table that wake, reap, exit, sleep, schedule and kill.
use sleep_e_pingpong.Base.{
  ℕ, zero, suc, ◌+◌, Bool, true, false, not, ◌&&◌, ◌||◌, List, [], ◌∷◌, Option, none, some, ◌==◌,
  if◌then◌else◌, replicate, length,
}
use sleep_e_pingpong.Kernel.Proc.{
  sleeping, runnable, running, zombie, Channel, slot, same_chan, is_state, Proc, Table, at, put,
  freeproc, nofile,
}

-- What `wakeup` does to one slot of another process.
unfoldable pub wake : Channel → Proc → Proc
unfolding is_state same_chan
wake chan p =
    if is_state p.state sleeping && elim p.chan [ none ↦ false | some c ↦ same_chan c chan ]
    then record p { state = runnable }
    else p

-- The loop of `wakeup` called by `me`, from slot `i`.
unfoldable pub wakeup_loop : ℕ → Channel → ℕ → List Proc → List Proc
unfolding wake
wakeup_loop me chan i [] = []
wakeup_loop me chan i (p ∷ ps) =
    (if i == me then p else wake chan p) ∷ wakeup_loop me chan (i + 1) ps

unfoldable pub wakeup : ℕ → Channel → Table → Table
unfolding wakeup_loop
wakeup me chan t = record t { procs = wakeup_loop me chan 0 t.procs }

unfoldable pub is_child : ℕ → Proc → Bool
is_child me p = elim p.parent [ none ↦ false | some j ↦ j == me ]

-- The loop of `reparent`, called by `me`, from slot `i`, `left = NPROC - i`.
unfoldable pub reparent_loop : ℕ → ℕ → ℕ → Table → Table
unfolding is_child wakeup
reparent_loop me zero i t = t
reparent_loop me (suc left) i t = reparent_loop me left (i + 1) (
    if is_child me (at t i)
    then wakeup me (slot t.initproc) (put t i (record (at t i) { parent = some t.initproc }))
    else t)

unfoldable pub reparent : ℕ → Table → Table
unfolding reparent_loop
reparent me t = reparent_loop me (length t.procs) 0 t

-- `wakeup(p->parent)`; no process sleeps on the null pointer.
unfoldable pub wake_parent : ℕ → Table → Table
unfolding wakeup
wake_parent me t = elim (at t me).parent [ none ↦ t | some j ↦ wakeup me (slot j) t ]

-- `exit` by `me`, up to the call of `sched`; `none` is a panic. The files are closed and the
-- directory is given back before `wait_lock` is taken.
unfoldable pub exit : ℕ → ℕ → Table → Option Table
unfolding reparent wake_parent
exit me status t =
    if me == t.initproc
    then none
    else let t₁ = put t me (record (at t me) { ofile = replicate nofile 0; cwd = 0 }) in
      let t₂ = wake_parent me (reparent me t₁) in
      some (put t₂ me (record (at t₂ me) { xstate = status; state = zombie }))

-- What the scan of `wait` finds: a zombie child's slot, or whether there are children.
pub data Scan : Type 0 where
  found : ℕ → Scan
  havekids : Bool → Scan

unfoldable pub wait_scan : ℕ → List Proc → ℕ → Bool → Scan
unfolding is_child is_state
wait_scan me [] i kids = havekids kids
wait_scan me (p ∷ ps) i kids =
    let rest = wait_scan me ps (i + 1) (if is_child me p then true else kids) in
    if is_child me p && is_state p.state zombie then found i else rest

-- `sleep` up to the call of `sched`; the caller is a process of the table.
unfoldable pub sleep : ℕ → Channel → Table → Table
sleep me chan t = put t me (record (at t me) { chan = some chan; state = sleeping })

-- `sleep` after `sched` returns.
unfoldable pub awake : ℕ → Table → Table
awake me t = put t me (record (at t me) { chan = none })

pub data Waited : Type 0 where
  reaped : ℕ → Waited
  failed : Waited
  asleep : Waited

-- One round of the loop of `wait`, called by `me`; `copyout` says whether the status can be stored.
unfoldable pub wait_round : ℕ → Bool → Table → Waited × Table
unfolding wait_scan freeproc sleep
wait_round me copyout t = elim (wait_scan me t.procs 0 false) [
  | found i ↦ if copyout then (reaped (at t i).pid, put t i (freeproc (at t i))) else (failed, t)
  | havekids kids ↦
      if not kids || (at t me).killed then (failed, t) else (asleep, sleep me (slot me) t)
]

-- The scheduler's choice of slot `i`, if it is RUNNABLE; and `yield`.
unfoldable pub schedule : ℕ → Table → Option Table
unfolding is_state
schedule i t =
    if is_state (at t i).state runnable
    then some (put t i (record (at t i) { state = running }))
    else none

unfoldable pub yield : ℕ → Table → Table
yield me t = put t me (record (at t me) { state = runnable })

-- The loop of `kill` from slot `i`; `none` is -1.
unfoldable pub kill_loop : ℕ → List Proc → Option (List Proc)
unfolding is_state
kill_loop pid [] = none
kill_loop pid (p ∷ ps) =
    let rest = kill_loop pid ps in
    if p.pid == pid
    then some (
        record p { killed = true; state = if is_state p.state sleeping then runnable else p.state }
        ∷ ps)
    else elim rest [ none ↦ none | some qs ↦ some (p ∷ qs) ]

unfoldable pub kill : ℕ → Table → Option Table
unfolding kill_loop
kill pid t = elim (kill_loop pid t.procs) [ none ↦ none | some ps ↦ some (record t { procs = ps }) ]

unfoldable pub setkilled : ℕ → Table → Table
setkilled i t = put t i (record (at t i) { killed = true })

unfoldable pub killed : ℕ → Table → Bool
killed i t = (at t i).killed
