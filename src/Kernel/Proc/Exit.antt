-- ===== src/Kernel/Proc/Exit.antt =====
-- The call of `exit` in kernel/proc.c: the children go to the first process, the parent is woken, and
-- the caller becomes a zombie.
use mathlib.Core.Path.{subst}
use sleep_e_pingpong.Base.{
  ℕ, zero, suc, ◌<◌, ◌≡◌, refl, sym, ap, ◌∙◌, ◌≢◌, inl, inr, false, List, [], ◌∷◌, some, ltb,
  get_or, set_each, length, replicate, Option-cases, length-set, ne→==, ==_refl, Bool-cases, arith,
}
use sleep_e_pingpong.Kernel.Proc.{
  unused, running, zombie, slot, Proc, blank, Table, at, put, nofile,
}
use sleep_e_pingpong.Kernel.Sched.{wakeup, is_child, reparent_loop, reparent, wake_parent, exit}
use sleep_e_pingpong.Kernel.Proc.Slots.{at-put_self, at-put_ne, used_bound}
use sleep_e_pingpong.Kernel.Proc.Wakeup.{wakeup_self}
use sleep_e_pingpong.Kernel.Proc.Family.{slot_cases, IsFamily, IsFamily-kin}
use sleep_e_pingpong.Kernel.Proc.Reparent.{IsRound, reparent_loop-IsRound, is_child-parent}
use sleep_e_pingpong.Kernel.Proc.Await.{
  Same, Waits, IsAwaited, IsAwaited-kept, IsAwaited-one, put-Same, wakeup-Same, wakeup-awake,
}

-- What `exit` by `me` has done when it gives up the processor.
pub record Exited (me code : ℕ) (t' : Table) : Type 0 where
  pub family : IsFamily t'
  pub awaited : IsAwaited t'
  pub dead : (at t' me).state ≡ zombie
  pub status : (at t' me).xstate ≡ code
  pub orphaned : (j : ℕ) → is_child me (at t' j) ≡ false

no_slot :
    (me : ℕ) (ps : List Proc) (j : ℕ) → ¬ (j < length ps) → is_child me (get_or ps j blank) ≡ false
unfolding is_child
no_slot me [] j h = refl
no_slot me (p ∷ ps) zero h = absurd (h (omega arith))
no_slot me (p ∷ ps) (suc j) h = no_slot me ps j (λ lt. h (omega arith))

-- Closing the files changes nothing that counts here.
closed-Same : (p : Proc) → Same p (record p { ofile = replicate nofile 0; cwd = 0 })
closed-Same p = (
  record { pid = refl; parent = refl; free = λ e. e; in_use = λ e. e; live = λ e. e },
  record { dead = λ e. e; waits = λ j w. w },
)

IsRound-start :
    (me : ℕ) (t : Table)
    → (at t me).state ≡ running
    → t.initproc ≢ me
    → IsFamily t
    → IsAwaited t
    → IsRound me
        (length t.procs)
        0
        (put t me (record (at t me) { ofile = replicate nofile 0; cwd = 0 }))
IsRound-start me t runs ne f q =
    let p : Proc = record (at t me) { ofile = replicate nofile 0; cwd = 0 } in
    let s = put-Same t me p (closed-Same (at t me)) in
    let live : (at t me).state ≢ unused = λ e. absurd cc in
    record {
      family = IsFamily-kin t (put t me p) refl refl (λ j. (s j).0) f;
      awaited = IsAwaited-kept t (put t me p) s q;
      other = ne;
      runs = ap (λ (x : Proc). x.state) (at-put_self t me p (used_bound t.procs me live)) ∙ runs;
      size = length-set t.procs me p;
      orphaned = λ j lt. absurd (omega arith);
    }

not_parent : (me : ℕ) (p : Proc) (j : ℕ) → is_child me p ≡ false → p.parent ≡ some j → j ≢ me
unfolding is_child
not_parent me p j c e h = let yes = ==_refl me in absurd (let c' = rw (e, h) at c in cc)

-- The slot of a process with no children changes to ZOMBIE.
IsFamily-dies :
    (t : Table) (i : ℕ) (p : Proc)
    → (at t i).state ≢ unused
    → p.state ≡ zombie
    → p.pid ≡ (at t i).pid
    → p.parent ≡ (at t i).parent
    → t.initproc ≢ i
    → ((j : ℕ) → is_child i (at t j) ≡ false)
    → IsFamily t
    → IsFamily (put t i p)
IsFamily-dies t i p taken dead pid parent ne childless f =
    let lt = used_bound t.procs i taken in
    let cases =
      slot_cases t (put t i p) i p (at-put_self t i p lt)
        (λ j h. at-put_ne t i j p (λ e. h (sym e))) in
    let same_pid : (j : ℕ) → (at (put t i p) j).pid ≡ (at t j).pid =
      λ j. set_each (λ (x y : Proc). y.pid ≡ x.pid) t.procs i j p blank (λ x. refl) pid in
    let same_parent : (j : ℕ) → (at (put t i p) j).parent ≡ (at t j).parent =
      λ j. set_each (λ (x y : Proc). y.parent ≡ x.parent) t.procs i j p blank (λ x. refl) parent in
    let in_use : (j : ℕ) → (at t j).state ≡ unused → (at (put t i p) j).state ≡ unused =
      λ j h. elim (cases j) [ inl (ej, e) ↦ absurd (taken (rw ej at h)) | inr (_, e) ↦ rw e h ] in
    record {
      counter = f.counter;
      numbered = λ j. elim (cases j) [
        | inl (_, e) ↦ rw e (λ u. absurd cc, λ _. rw pid ((f.numbered i).1 taken))
        | inr (_, e) ↦ rw e (f.numbered j)
      ];
      distinct =
          λ j k live e. f.distinct j k (λ u. live (in_use j u)) (sym (same_pid j) ∙ e ∙ same_pid k);
      parented = λ j k e. elim (cases k) [
        | inl (ek, _) ↦ absurd (not_parent i (at t j) k (childless j) (sym (same_parent j) ∙ e) ek)
        | inr (_, e') ↦ rw e' (f.parented j k (sym (same_parent j) ∙ e))
      ];
      init = rw (at-put_ne t i t.initproc p (λ e. ne (sym e))) f.init;
    }

-- The last writes of `exit`.
abbrev pub dies : ℕ → ℕ → Table → Table
dies me status t = put t me (record (at t me) { xstate = status; state = zombie })

-- The table `t` is ready for `me` to become a zombie.
record IsReady (me : ℕ) (t : Table) : Type 0 where
  pub family : IsFamily t
  pub awaited : IsAwaited t
  pub other : t.initproc ≢ me
  pub runs : (at t me).state ≡ running
  pub orphaned : (j : ℕ) → is_child me (at t j) ≡ false
  pub woken : (j : ℕ) → (at t me).parent ≡ some j → ¬ Waits (at t j) j

IsReady-wakeup :
    (me n j : ℕ) (t : Table)
    → (at t me).parent ≡ some j
    → ((k : ℕ) → is_child me (at t k) ≡ false)
    → IsRound me n n t
    → IsReady me (wakeup me (slot j) t)
unfolding wakeup
IsReady-wakeup me n j t e orphaned r =
    let s = wakeup-Same me (slot j) t in
    let self = wakeup_self me (slot j) t in
    record {
      family = IsFamily-kin t (wakeup me (slot j) t) refl refl (λ k. (s k).0) r.family;
      awaited = IsAwaited-kept t (wakeup me (slot j) t) s r.awaited;
      other = r.other;
      runs = ap (λ (q : Proc). q.state) self ∙ r.runs;
      orphaned = λ k. is_child-parent me (at t k) _ (s k).0.parent ∙ orphaned k;
      woken = λ k h.
          let h' = sym (ap (λ (q : Proc). q.parent) self) ∙ h in
          let ek : j ≡ k = cc in
          let ne = not_parent me (at t me) j (orphaned me) e in
          subst (λ n. ¬ Waits (at (wakeup me (slot j) t) n) n) ek (wakeup-awake me j t ne);
    }

IsReady-wake : (me n : ℕ) (t : Table) → IsRound me n n t → IsReady me (wake_parent me t)
unfolding wake_parent
IsReady-wake me n t r =
    let orphaned : (j : ℕ) → is_child me (at t j) ≡ false = λ j. elim (Bool-cases (ltb j n)) [
      | inl e ↦ r.orphaned j (ground arith)
      | inr e ↦ no_slot me t.procs j (λ lt. ground (arith, r.size))
    ] in
    elim (Option-cases (at t me).parent) [
      | inl e ↦
          rw (e, wake_parent)
            record {
              family = r.family;
              awaited = r.awaited;
              other = r.other;
              runs = r.runs;
              orphaned = orphaned;
              woken = λ j h. absurd cc;
            }
      | inr (j, e) ↦ rw (e, wake_parent) (IsReady-wakeup me n j t e orphaned r)
    ]

Exited-dies : (me status : ℕ) (t : Table) → IsReady me t → Exited me status (dies me status t)
Exited-dies me status t r =
    let p : Proc = record (at t me) { xstate = status; state = zombie } in
    let taken : (at t me).state ≢ unused = λ e. absurd (let e' = r.runs in cc) in
    let new = at-put_self t me p (used_bound t.procs me taken) in
    let others : (j : ℕ) → j ≢ me → at (put t me p) j ≡ at t j =
      λ j h. at-put_ne t me j p (λ e. h (sym e)) in
    record {
      family = IsFamily-dies t me p taken refl refl refl r.other r.orphaned r.family;
      awaited =
          IsAwaited-one t (put t me p) me p new others
            (λ _ j par w.
              let ne = not_parent me (at t me) j (r.orphaned me) par in
              r.woken j par (rw (others j ne) at w))
            (λ w. let (w₀, w₁) = w in absurd cc) r.awaited;
      dead = ap (λ (q : Proc). q.state) new;
      status = ap (λ (q : Proc). q.xstate) new;
      orphaned = λ j.
          is_child-parent me (at t j) _
            (set_each (λ (x y : Proc). y.parent ≡ x.parent) t.procs me j p blank (λ x. refl) refl)
          ∙ r.orphaned j;
    }

-- `exit` after its test, up to the last writes.
abbrev pub leave : ℕ → Table → Table
leave me t =
    wake_parent me
      (reparent me (put t me (record (at t me) { ofile = replicate nofile 0; cwd = 0 })))

pub exit_runs :
    (me status : ℕ) (t : Table)
    → t.initproc ≢ me
    → exit me status t ≡ some (dies me status (leave me t))
unfolding exit
exit_runs me status t ne = let other = ne→== me t.initproc (λ e. ne (sym e)) in rw other refl

reparent-IsRound : (me n : ℕ) (t : Table) → IsRound me n 0 t → IsRound me n n (reparent me t)
unfolding reparent
reparent-IsRound me n t r =
    subst (λ k. IsRound me n n (reparent_loop me k 0 t)) (sym r.size)
      (subst (λ k. IsRound me n k (reparent_loop me n 0 t)) (omega arith)
        (reparent_loop-IsRound me n n 0 t r))

-- `exit` by a running process other than the first one does not panic. In a table where pids are
-- distinct, parents are live, and no parent of a zombie sleeps on its own slot, the same holds
-- afterwards; the caller is a zombie that keeps the status, and no slot has it as its parent.
pub exit-Exited :
    (me status : ℕ) (t : Table)
    → (at t me).state ≡ running
    → t.initproc ≢ me
    → IsFamily t
    → IsAwaited t
    → (t' : Table) × (exit me status t ≡ some t') × Exited me status t'
exit-Exited me status t runs ne f q =
    let r = reparent-IsRound me (length t.procs) _ (IsRound-start me t runs ne f q) in
    (
      dies me status (leave me t),
      exit_runs me status t ne,
      Exited-dies me status (leave me t) (IsReady-wake me (length t.procs) _ r),
    )
