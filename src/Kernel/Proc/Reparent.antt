-- ===== src/Kernel/Proc/Reparent.antt =====
-- `reparent` of kernel/proc.c: the children of a process that exits go to the first process.
use sleep_e_pingpong.Base.{
  ℕ, zero, suc, ◌+◌, ◌<◌, ◌≡◌, refl, sym, ap, ◌∙◌, ◌≢◌, ◌⊎◌, inl, inr, true, false, List, [], ◌∷◌,
  some, ◌==◌, get_or, set_each, length, length-set, ne→==, Bool-cases, arith,
}
use sleep_e_pingpong.Kernel.Proc.{running, slot, Proc, blank, Table, at, put}
use sleep_e_pingpong.Kernel.Sched.{wakeup, is_child, reparent_loop}
use sleep_e_pingpong.Kernel.Proc.Slots.{at-put_self, at-put_ne}
use sleep_e_pingpong.Kernel.Proc.Wakeup.{wakeup_self, length-wakeup_loop}
use sleep_e_pingpong.Kernel.Proc.Family.{IsFamily, IsFamily-kin}
use sleep_e_pingpong.Kernel.Proc.Await.{Waits, IsAwaited, wakeup-Same, wakeup-awake}

-- `p'` is `p`, in the fields that count here, or it has gone to the first process.
record Adopted (initproc : ℕ) (p p' : Proc) : Type 0 where
  pub pid : p'.pid ≡ p.pid
  pub state : p'.state ≡ p.state
  pub chan : p'.chan ≡ p.chan
  pub parent : (p'.parent ≡ p.parent) ⊎ (p'.parent ≡ some initproc)

Adopted-refl : (n : ℕ) (p : Proc) → Adopted n p p
Adopted-refl n p = record { pid = refl; state = refl; chan = refl; parent = inl refl }

-- The body of the loop of `reparent`, at a child.
abbrev adopt : Table → ℕ → Table
adopt t i = put t i (record (at t i) { parent = some t.initproc })

adopt-Adopted : (t : Table) (i j : ℕ) → Adopted t.initproc (at t j) (at (adopt t i) j)
adopt-Adopted t i j =
    set_each (Adopted t.initproc) t.procs i j (record (at t i) { parent = some t.initproc }) blank
      (Adopted-refl t.initproc)
      (record { pid = refl; state = refl; chan = refl; parent = inr refl })

IsFamily-adopt : (t : Table) (i : ℕ) → IsFamily t → IsFamily (adopt t i)
IsFamily-adopt t i f =
    let a = adopt-Adopted t i in
    record {
      counter = f.counter;
      numbered = λ j. rw ((a j).pid, (a j).state) (f.numbered j);
      distinct = λ j k. rw ((a j).pid, (a j).state, (a k).pid) (f.distinct j k);
      parented = λ j k e. rw (a k).state (elim (a j).parent [
        | inl e' ↦ f.parented j k (sym e' ∙ e)
        | inr e' ↦ let h : k ≡ t.initproc = cc in rw h f.init
      ]);
      init = rw (a t.initproc).state f.init;
    }

IsAwaited-adopt :
    (t : Table) (me i : ℕ)
    → t.initproc ≢ me
    → IsAwaited t
    → IsAwaited (wakeup me (slot t.initproc) (adopt t i))
IsAwaited-adopt t me i ne q j k dead child waits =
    let a = adopt-Adopted t i in
    let s = wakeup-Same me (slot t.initproc) (adopt t i) in
    let d = sym (a j).state ∙ (s j).1.dead dead in
    let c = sym (s j).0.parent ∙ child in
    let w : Waits (at t k) k = rw ((a k).state, (a k).chan) at (s k).1.waits k waits in
    elim (a j).parent [
      | inl e ↦ q j k d (sym e ∙ c) w
      | inr e ↦
          let h : t.initproc ≡ k = cc in
          wakeup-awake me t.initproc (adopt t i) ne (rw (sym h) at waits)
    ]

pub is_child-parent : (me : ℕ) (p p' : Proc) → p'.parent ≡ p.parent → is_child me p' ≡ is_child me p
unfolding is_child
is_child-parent me p p' e = rw e refl

no_child : (me n : ℕ) (p : Proc) → p.parent ≡ some n → n ≢ me → is_child me p ≡ false
unfolding is_child
no_child me n p e ne = rw e (ne→== n me ne)

child_bound :
    (me : ℕ) (ps : List Proc) (i : ℕ) → is_child me (get_or ps i blank) ≡ true → i < length ps
unfolding is_child
child_bound me [] i h = absurd cc
child_bound me (p ∷ ps) zero h = omega arith
child_bound me (p ∷ ps) (suc i) h = omega (arith, child_bound me ps i h)

adopt_orphans :
    (me i : ℕ) (t : Table)
    → is_child me (at t i) ≡ true
    → t.initproc ≢ me
    → ((j : ℕ) → j < i → is_child me (at t j) ≡ false)
    → (j : ℕ) → j < i + 1
    → is_child me (at (adopt t i) j) ≡ false
adopt_orphans me i t c ne before j h =
    let p : Proc = record (at t i) { parent = some t.initproc } in
    let lt = child_bound me t.procs i c in
    elim (Bool-cases (j == i)) [
      | inl e ↦
          let e' : j ≡ i = ground arith in
          rw e' (no_child me t.initproc _ (ap (λ (q : Proc). q.parent) (at-put_self t i p lt)) ne)
      | inr e ↦
          let other : i ≢ j = ground arith in rw (at-put_ne t i j p other) (before j (ground arith))
    ]

-- Where the loop of `reparent` is at slot `i`, in a table of `n` slots.
pub record IsRound (me n i : ℕ) (t : Table) : Type 0 where
  pub family : IsFamily t
  pub awaited : IsAwaited t
  pub other : t.initproc ≢ me
  pub runs : (at t me).state ≡ running
  pub size : length t.procs ≡ n
  pub orphaned : (j : ℕ) → j < i → is_child me (at t j) ≡ false

IsRound-adopt :
    (me n i : ℕ) (t : Table)
    → is_child me (at t i) ≡ true
    → IsRound me n i t
    → IsRound me n (i + 1) (wakeup me (slot t.initproc) (adopt t i))
unfolding wakeup
IsRound-adopt me n i t c r =
    let a = adopt-Adopted t i in
    let s = wakeup-Same me (slot t.initproc) (adopt t i) in
    let p : Proc = record (at t i) { parent = some t.initproc } in
    record {
      family = IsFamily-kin (adopt t i) _ refl refl (λ j. (s j).0) (IsFamily-adopt t i r.family);
      awaited = IsAwaited-adopt t me i r.other r.awaited;
      other = r.other;
      runs =
          ap (λ (q : Proc). q.state) (wakeup_self me (slot t.initproc) (adopt t i))
          ∙ (a me).state
          ∙ r.runs;
      size = length-wakeup_loop me (slot t.initproc) 0 _ ∙ length-set t.procs i p ∙ r.size;
      orphaned = λ j h.
          is_child-parent me (at (adopt t i) j) _ (s j).0.parent
          ∙ adopt_orphans me i t c r.other r.orphaned j h;
    }

IsRound-skip :
    (me n i : ℕ) (t : Table)
    → is_child me (at t i) ≡ false
    → IsRound me n i t
    → IsRound me n (i + 1) t
IsRound-skip me n i t c r = record {
  family = r.family;
  awaited = r.awaited;
  other = r.other;
  runs = r.runs;
  size = r.size;
  orphaned = λ j h. elim (Bool-cases (j == i)) [
    | inl e ↦ let e' : j ≡ i = ground arith in rw e' c
    | inr e ↦ r.orphaned j (ground arith)
  ];
}

pub reparent_loop-IsRound :
    (me n left i : ℕ) (t : Table)
    → IsRound me n i t
    → IsRound me n (i + left) (reparent_loop me left i t)
unfolding reparent_loop
reparent_loop-IsRound me n zero i t r = let e : i + 0 ≡ i = omega arith in rw e r
reparent_loop-IsRound me n (suc left) i t r =
    let at_i : i + suc left ≡ (i + 1) + left = omega arith in
    rw at_i (
      reparent_loop-IsRound me n left (i + 1) _ (elim (Bool-cases (is_child me (at t i))) [
        | inl c ↦ rw c (IsRound-adopt me n i t c r)
        | inr c ↦ rw c (IsRound-skip me n i t c r)
      ]))
