-- ===== src/Kernel/Proc/KillZero.antt =====
-- `kill(0)` of kernel/proc.c, which reaches a free slot, and `fork` after it.
use mathlib.Core.Path.{subst}
use sleep_e_pingpong.Base.{
  ℕ, ◌<◌, ◌≡◌, refl, sym, ap, ◌∙◌, ◌≢◌, inl, inr, true, false, Option, some, ltb, length,
  length-set, Bool-cases, arith,
}
use sleep_e_pingpong.Kernel.Proc.{unused, runnable, running, is_state, Proc, Table, at, put, fork}
use sleep_e_pingpong.Kernel.Sched.{kill}
use sleep_e_pingpong.Kernel.Proc.Slots.{is_free, FirstFree, at-put_self, at-put_ne, is_state_iff}
use sleep_e_pingpong.Kernel.Proc.Fork.{ForkRun, full, fails, forks, fork-ForkRun}
use sleep_e_pingpong.Kernel.Proc.Kill.{KillEffect, no_such, marks, kill-KillEffect, victim, has_pid}
use sleep_e_pingpong.Kernel.Proc.Family.{IsFamily}

-- Slot `i` is the first free one, and is marked as killed.
record IsMarked (i : ℕ) (t : Table) : Type 0 where
  pub bound : i < length t.procs
  pub free : (at t i).state ≡ unused
  pub marked : (at t i).killed ≡ true
  pub first : (j : ℕ) → j < i → (at t j).state ≢ unused

-- A child of `me` that is RUNNABLE and already killed.
pub record StillBorn (me i : ℕ) (t : Table) : Type 0 where
  pub ready : (at t i).state ≡ runnable
  pub parent : (at t i).parent ≡ some me
  pub doomed : (at t i).killed ≡ true

not_free : (p : Proc) → p.state ≡ unused → is_free p ≢ false
unfolding is_state
not_free p e h = let h' = rw e at h in cc

first_is : (i k : ℕ) (t : Table) → IsMarked i t → FirstFree t.procs k → k ≡ i
first_is i k t m s = elim (Bool-cases (ltb k i)) [
  | inl e ↦ absurd (m.first k (ground arith) s.free)
  | inr e ↦ elim (Bool-cases (ltb i k)) [
    | inl e' ↦ absurd (not_free (at t i) m.free (s.first i (ground arith)))
    | inr e' ↦ ground arith
  ]
]

forked :
    (me tf pg i : ℕ) (t : Table) (r : Option ℕ × Table)
    → tf ≢ 0
    → pg ≢ 0
    → IsMarked i t
    → ForkRun me tf pg true t r
    → (pid : ℕ) × (t' : Table) × (r ≡ (some pid, t')) × StillBorn me i t'
unfolding is_state
forked me tf pg i t _ ntf npg m (full none_free) =
    absurd (not_free (at t i) m.free (none_free i m.bound))
forked me tf pg i t _ ntf npg m (fails k t' (inl e) _) = absurd (ntf e)
forked me tf pg i t _ ntf npg m (fails k t' (inr (inl e)) _) = absurd (npg e)
forked me tf pg i t _ ntf npg m (fails k t' (inr (inr e)) _) = absurd cc
forked me tf pg i t _ ntf npg m (forks k _ t' _ _ _ _ s) =
    let same : k ≡ i = first_is i k t m s.slot in
    let doomed : (at t k).killed ≡ true = rw same m.marked in
    let born : StillBorn me k t' = record {
      ready = ap (λ (p : Proc). p.state) s.proc;
      parent = ap (λ (p : Proc). p.parent) s.proc;
      doomed = ap (λ (p : Proc). p.killed) s.proc ∙ doomed;
    } in
    (t.nextpid, t', refl, subst (λ n. StillBorn me n t') same born)

unused_victim : (p : Proc) → p.state ≡ unused → (victim p).state ≡ unused
unfolding is_state
unused_victim p e = rw e refl

zero_free : (i : ℕ) (t : Table) → IsFamily t → has_pid 0 (at t i) ≡ true → (at t i).state ≡ unused
zero_free i t f is = elim (Bool-cases (is_free (at t i))) [
  | inl e ↦ is_state_iff (at t i).state unused e
  | inr e ↦
      let taken : (at t i).state ≢ unused = λ u. not_free (at t i) u e in
      let (lo, _) = (f.numbered i).1 taken in absurd (ground arith)
]

put-IsMarked :
    (i : ℕ) (t : Table)
    → IsFamily t
    → i < length t.procs
    → has_pid 0 (at t i) ≡ true
    → ((j : ℕ) → j < i → has_pid 0 (at t j) ≡ false)
    → IsMarked i (put t i (victim (at t i)))
put-IsMarked i t f lt is first =
    let new = at-put_self t i (victim (at t i)) lt in
    record {
      bound = omega (arith, length-set t.procs i (victim (at t i)));
      free = ap (λ (p : Proc). p.state) new ∙ unused_victim (at t i) (zero_free i t f is);
      marked = ap (λ (p : Proc). p.killed) new;
      first = λ j lt_j h.
          let other : i ≢ j = omega arith in
          let same = at-put_ne t i j (victim (at t i)) other in
          let zero_pid = (f.numbered j).0 (rw same at h) in
          let e = first j lt_j in absurd (ground arith);
    }

kill_zero-IsMarked :
    (t : Table) (j : ℕ) (r : Option Table)
    → IsFamily t
    → j < length t.procs
    → (at t j).state ≡ unused
    → KillEffect 0 t r
    → (t' : Table) × (r ≡ some t')
      × (i : ℕ) × IsMarked i t'
      × ((k : ℕ) → (at t k).state ≢ unused → (at t' k).state ≢ unused)
kill_zero-IsMarked t j _ f lt free (no_such away) =
    let e = away j lt in let e' = (f.numbered j).0 free in absurd (ground arith)
kill_zero-IsMarked t j _ f lt free (marks i t' lt_i is first e) =
    let live : (k : ℕ)
        → (at t k).state ≢ unused
        → (at (put t i (victim (at t i))) k).state ≢ unused =
      λ k taken h.
        let other : i ≢ k = λ ek. taken (rw (sym ek) (zero_free i t f is)) in
        taken (rw (at-put_ne t i k (victim (at t i)) other) at h) in
    (put t i (victim (at t i)), ap some e, i, put-IsMarked i t f lt_i is first, live)

-- `kill(0)` in an ordered table with a free slot returns 0, since free slots have pid 0, and the next
-- `fork` that has the memory it needs makes a child that is RUNNABLE and already marked as killed.
pub kill_zero-fork :
    (me trapframe pagetable j : ℕ) (t : Table)
    → IsFamily t
    → j < length t.procs
    → (at t j).state ≡ unused
    → (at t me).state ≡ running
    → trapframe ≢ 0
    → pagetable ≢ 0
    → (t' : Table) × (kill 0 t ≡ some t')
      × (pid : ℕ) × (t'' : Table) × (fork me trapframe pagetable true t' ≡ (some pid, t''))
      × (i : ℕ) × StillBorn me i t''
kill_zero-fork me tf pg j t f lt free runs ntf npg =
    let (t', e, i, m, live) = kill_zero-IsMarked t j _ f lt free (kill-KillEffect 0 t) in
    let live_me = live me (λ u. absurd cc) in
    let (pid, t'', e', born) =
      forked me tf pg i t' _ ntf npg m (fork-ForkRun me tf pg true t' live_me) in
    (t', e, pid, t'', e', i, born)
