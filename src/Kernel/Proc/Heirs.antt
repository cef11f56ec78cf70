-- ===== src/Kernel/Proc/Heirs.antt =====
-- Who reaps a process of kernel/proc.c: which calls leave a process in use with no parent.
use sleep_e_pingpong.Base.{
  ℕ, ◌≡◌, refl, sym, ◌∙◌, ◌≢◌, inl, inr, Bool, Option, none, some, set_each, Bool-cases,
}
use mathlib.Core.Path.{subst}
use sleep_e_pingpong.Kernel.Proc.{
  unused, sleeping, running, runnable, Channel, is_state, Proc, blank, Table, at, put, fork,
}
use sleep_e_pingpong.Kernel.Sched.{
  wakeup, sleep, awake, Waited, wait_round, schedule, yield, kill, setkilled,
}
use sleep_e_pingpong.Kernel.Proc.Fork.{ForkRun, full, fails, forks, fork-ForkRun}
use sleep_e_pingpong.Kernel.Proc.Wait.{
  WaitRun, reaps, bad_address, childless, interrupted, sleeps, wait_round-WaitRun,
}
use sleep_e_pingpong.Kernel.Proc.Kill.{KillEffect, no_such, marks, victim, kill-KillEffect}
use sleep_e_pingpong.Kernel.Proc.Slots.{is_state_iff}
use sleep_e_pingpong.Kernel.Proc.Family.{slot_cases}
use sleep_e_pingpong.Kernel.Proc.Await.{wakeup-Same}

-- `p'` is in use with no parent only if `p` was.
abbrev Heir : Proc → Proc → Type 0
Heir p p' = p'.state ≢ unused → p'.parent ≡ none → (p.state ≢ unused) × (p.parent ≡ none)

-- No slot of `t'` has lost its parent since `t`, and the first process is the same.
pub record Heirs (t t' : Table) : Type 0 where
  pub slots : (i : ℕ) → Heir (at t i) (at t' i)
  pub init : t'.initproc ≡ t.initproc

Heir-refl : (p : Proc) → Heir p p
Heir-refl p u e = (u, e)

pub Heirs-refl : (t : Table) → Heirs t t
Heirs-refl t = record { slots = λ i. Heir-refl (at t i); init = refl }

pub Heirs-trans : (t t' t'' : Table) → Heirs t t' → Heirs t' t'' → Heirs t t''
Heirs-trans t t' t'' h h' = record {
  slots = λ i u e. let (u', e') = h'.slots i u e in h.slots i u' e';
  init = h'.init ∙ h.init;
}

pub put-Heirs : (t : Table) (i : ℕ) (p : Proc) → Heir (at t i) p → Heirs t (put t i p)
put-Heirs t i p h = record {
  slots = λ j. set_each Heir t.procs i j p blank Heir-refl h;
  init = refl;
}

-- One slot changed, to a process that is free or has a parent.
one-Heirs :
    (t t' : Table) (i : ℕ) (p : Proc)
    → at t' i ≡ p
    → ((j : ℕ) → j ≢ i → at t' j ≡ at t j)
    → t'.initproc ≡ t.initproc
    → Heir (at t i) p
    → Heirs t t'
one-Heirs t t' i p new others init h = record {
  slots = λ j. elim (slot_cases t t' i p new others j) [
    | inl (ej, e) ↦ rw (e, ej) h
    | inr (_, e) ↦ rw e (Heir-refl (at t j))
  ];
  init = init;
}

pub wakeup-Heirs : (me : ℕ) (c : Channel) (t : Table) → Heirs t (wakeup me c t)
unfolding wakeup
wakeup-Heirs me c t =
    let s = wakeup-Same me c t in
    record { slots = λ i u e. (λ z. u ((s i).0.in_use z), sym (s i).0.parent ∙ e); init = refl }

fork_run :
    (me tf pg : ℕ) (copied : Bool) (t : Table) (r : Option ℕ × Table)
    → ForkRun me tf pg copied t r
    → Heirs t r.1
fork_run me tf pg copied t _ (full _) = Heirs-refl t
fork_run me tf pg copied t _ (fails i t' _ k) =
    one-Heirs t t' i _ k.proc k.others k.initproc (λ u _. absurd (u refl))
fork_run me tf pg copied t _ (forks i _ t' _ _ _ _ k) =
    one-Heirs t t' i _ k.proc k.others k.initproc (λ _ e. absurd cc)

pub fork-Heirs :
    (me tf pg : ℕ) (copied : Bool) (t : Table)
    → (at t me).state ≢ unused
    → Heirs t (fork me tf pg copied t).1
fork-Heirs me tf pg copied t live =
    fork_run me tf pg copied t _ (fork-ForkRun me tf pg copied t live)

-- A slot in use that keeps its parent.
pub own-Heirs :
    (t : Table) (me : ℕ) (p : Proc)
    → (at t me).state ≢ unused
    → p.parent ≡ (at t me).parent
    → Heirs t (put t me p)
own-Heirs t me p live same = put-Heirs t me p (λ _ e. (live, sym same ∙ e))

wait_run :
    (me : ℕ) (copyout : Bool) (t : Table) (r : Waited × Table)
    → (at t me).state ≢ unused
    → WaitRun me copyout t r
    → Heirs t r.1
wait_run me copyout t _ live (reaps j lt _ _ _) = put-Heirs t j _ (λ u _. absurd (u refl))
wait_run me copyout t _ live (bad_address _ _ _ _ _) = Heirs-refl t
wait_run me copyout t _ live (childless _) = Heirs-refl t
wait_run me copyout t _ live (interrupted _ _) = Heirs-refl t
wait_run me copyout t _ live (sleeps _ _ _) = own-Heirs t me _ live refl

pub wait_round-Heirs :
    (me : ℕ) (copyout : Bool) (t : Table)
    → (at t me).state ≢ unused
    → Heirs t (wait_round me copyout t).1
wait_round-Heirs me copyout t live = wait_run me copyout t _ live (wait_round-WaitRun me copyout t)

victim-Heir : (p : Proc) → Heir p (victim p)
victim-Heir p u e = elim (Bool-cases (is_state p.state sleeping)) [
  | inl h ↦ ((λ z. let s = is_state_iff p.state sleeping h in absurd cc), e)
  | inr h ↦ (rw h at u, e)
]

kill_run :
    (pid : ℕ) (t t' : Table) (r : Option Table) → r ≡ some t' → KillEffect pid t r → Heirs t t'
kill_run pid t t' _ e (no_such _) = absurd cc
kill_run pid t t' _ e (marks j s _ _ _ e') =
    let here : put t j (victim (at t j)) ≡ t' = cc in
    subst (Heirs t) here (put-Heirs t j (victim (at t j)) (victim-Heir (at t j)))

pub kill-Heirs : (pid : ℕ) (t t' : Table) → kill pid t ≡ some t' → Heirs t t'
kill-Heirs pid t t' e = kill_run pid t t' _ e (kill-KillEffect pid t)

pub schedule-Heirs : (i : ℕ) (t t' : Table) → schedule i t ≡ some t' → Heirs t t'
unfolding schedule
schedule-Heirs i t t' e = elim (Bool-cases (is_state (at t i).state runnable)) [
  | inl h ↦
      let ready = is_state_iff (at t i).state runnable h in
      let e₀ = rw h at e in
      let same : put t i (record (at t i) { state = running }) ≡ t' = cc in
      subst (Heirs t) same (own-Heirs t i _ (λ z. absurd cc) refl)
  | inr h ↦ absurd (let e' = rw h at e in cc)
]

pub sleep-Heirs :
    (me : ℕ) (c : Channel) (t : Table) → (at t me).state ≢ unused → Heirs t (sleep me c t)
unfolding sleep
sleep-Heirs me c t live = own-Heirs t me _ live refl

pub awake-Heirs : (me : ℕ) (t : Table) → (at t me).state ≢ unused → Heirs t (awake me t)
unfolding awake
awake-Heirs me t live = own-Heirs t me _ live refl

pub yield-Heirs : (me : ℕ) (t : Table) → (at t me).state ≢ unused → Heirs t (yield me t)
unfolding yield
yield-Heirs me t live = own-Heirs t me _ live refl

pub setkilled-Heirs : (me : ℕ) (t : Table) → (at t me).state ≢ unused → Heirs t (setkilled me t)
unfolding setkilled
setkilled-Heirs me t live = own-Heirs t me _ live refl
