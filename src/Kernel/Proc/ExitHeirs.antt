-- ===== src/Kernel/Proc/ExitHeirs.antt =====
-- `exit` of kernel/proc.c leaves no process in use without a parent.
use sleep_e_pingpong.Base.{
  ℕ, zero, suc, ◌+◌, ◌≡◌, refl, ◌≢◌, inl, inr, ◌==◌, some, set_each, replicate, length, Bool-cases,
  Option-cases, arith,
}
use mathlib.Core.Path.{subst}
use sleep_e_pingpong.Kernel.Proc.{unused, nofile, Channel, slot, Proc, blank, Table, at, put}
use sleep_e_pingpong.Kernel.Sched.{wakeup, is_child, reparent_loop, reparent, wake_parent, exit}
use sleep_e_pingpong.Kernel.Proc.Exit.{dies, leave, exit_runs}
use sleep_e_pingpong.Kernel.Proc.Await.{wakeup-Same}
use sleep_e_pingpong.Kernel.Proc.Heirs.{
  Heirs, Heirs-refl, Heirs-trans, put-Heirs, own-Heirs, wakeup-Heirs,
}

reparent_loop-Heirs : (me left i : ℕ) (t : Table) → Heirs t (reparent_loop me left i t)
unfolding reparent_loop
reparent_loop-Heirs me zero i t = Heirs-refl t
reparent_loop-Heirs me (suc left) i t = elim (Bool-cases (is_child me (at t i))) [
  | inl c ↦
      let t₁ = put t i (record (at t i) { parent = some t.initproc }) in
      let t₂ = wakeup me (slot t.initproc) t₁ in
      rw c (
        Heirs-trans t t₂ _
          (Heirs-trans t t₁ t₂ (put-Heirs t i _ (λ _ e. absurd cc))
            (wakeup-Heirs me (slot t.initproc) t₁))
          (reparent_loop-Heirs me left (i + 1) t₂))
  | inr c ↦ rw c (reparent_loop-Heirs me left (i + 1) t)
]

reparent-Heirs : (me : ℕ) (t : Table) → Heirs t (reparent me t)
unfolding reparent
reparent-Heirs me t = reparent_loop-Heirs me (length t.procs) 0 t

wake_parent-Heirs : (me : ℕ) (t : Table) → Heirs t (wake_parent me t)
unfolding wake_parent
wake_parent-Heirs me t = elim (Option-cases (at t me).parent) [
  | inl e ↦ rw (e, wake_parent) (Heirs-refl t)
  | inr (j, e) ↦ rw (e, wake_parent) (wakeup-Heirs me (slot j) t)
]

leave-Heirs : (me : ℕ) (t : Table) → (at t me).state ≢ unused → Heirs t (leave me t)
leave-Heirs me t live =
    let t₁ = put t me (record (at t me) { ofile = replicate nofile 0; cwd = 0 }) in
    let t₂ = reparent me t₁ in
    Heirs-trans t t₁ _ (own-Heirs t me _ live refl)
      (Heirs-trans t₁ t₂ _ (reparent-Heirs me t₁) (wake_parent-Heirs me t₂))

-- The caller stays in use while it exits.
abbrev StaysUsed : Proc → Proc → Type 0
StaysUsed p p' = p.state ≢ unused → p'.state ≢ unused

put-StaysUsed :
    (t : Table) (i me : ℕ) (p : Proc)
    → StaysUsed (at t i) p
    → StaysUsed (at t me) (at (put t i p) me)
put-StaysUsed t i me p h = set_each StaysUsed t.procs i me p blank (λ x u. u) h

wakeup-StaysUsed : (me i : ℕ) (c : Channel) (t : Table) → StaysUsed (at t i) (at (wakeup me c t) i)
wakeup-StaysUsed me i c t u z = u ((wakeup-Same me c t i).0.free z)

reparent_loop-StaysUsed :
    (me left i : ℕ) (t : Table) → StaysUsed (at t me) (at (reparent_loop me left i t) me)
unfolding reparent_loop
reparent_loop-StaysUsed me zero i t u = u
reparent_loop-StaysUsed me (suc left) i t u = elim (Bool-cases (is_child me (at t i))) [
  | inl c ↦
      let t₁ = put t i (record (at t i) { parent = some t.initproc }) in
      let u₁ = put-StaysUsed t i me (record (at t i) { parent = some t.initproc }) (λ v. v) u in
      rw (c, reparent_loop)
        (reparent_loop-StaysUsed me left (i + 1) (wakeup me (slot t.initproc) t₁)
          (wakeup-StaysUsed me me (slot t.initproc) t₁ u₁))
  | inr c ↦ rw (c, reparent_loop) (reparent_loop-StaysUsed me left (i + 1) t u)
]

wake_parent-StaysUsed : (me : ℕ) (t : Table) → StaysUsed (at t me) (at (wake_parent me t) me)
unfolding wake_parent
wake_parent-StaysUsed me t u = elim (Option-cases (at t me).parent) [
  | inl e ↦ rw (e, wake_parent) u
  | inr (j, e) ↦ rw (e, wake_parent) (wakeup-StaysUsed me me (slot j) t u)
]

leave-StaysUsed : (me : ℕ) (t : Table) → StaysUsed (at t me) (at (leave me t) me)
unfolding reparent
leave-StaysUsed me t u =
    let p : Proc = record (at t me) { ofile = replicate nofile 0; cwd = 0 } in
    let u₁ = put-StaysUsed t me me p (λ v. v) u in
    wake_parent-StaysUsed me (reparent me (put t me p))
      (reparent_loop-StaysUsed me (length (put t me p).procs) 0 (put t me p) u₁)

pub exit-Heirs :
    (me status : ℕ) (t t' : Table)
    → (at t me).state ≢ unused
    → exit me status t ≡ some t'
    → Heirs t t'
unfolding exit
exit-Heirs me status t t' live e = elim (Bool-cases (me == t.initproc)) [
  | inl h ↦ absurd (let e' = rw h at e in cc)
  | inr h ↦
      let ne : t.initproc ≢ me = ground arith in
      let e' = exit_runs me status t ne in
      let same : dies me status (leave me t) ≡ t' = cc in
      let l = leave-Heirs me t live in
      subst (Heirs t) same (
        Heirs-trans t (leave me t) _ l
          (own-Heirs (leave me t) me _ (leave-StaysUsed me t live) refl))
]
