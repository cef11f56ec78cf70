-- ===== src/Kernel/Proc/Wait.antt =====
-- `wait` of kernel/proc.c: its scan of the table, and what one round does.
use sleep_e_pingpong.Base.{
  none, some, ◌==◌, ==_refl, Option-cases, ap, ◌∙◌, ℕ, suc, ◌+◌, ◌<◌, ◌≡◌, refl, ◌⊎◌, inl, inr,
  Bool, true, false, not, ◌&&◌, ◌||◌, List, [], ◌∷◌, if◌then◌else◌, get_or, length, Bool-cases,
  arith,
}
use mathlib.Core.Path.{subst}
use sleep_e_pingpong.Kernel.Proc.{
  unused, sleeping, zombie, is_state, slot, Proc, blank, Table, at, put, freeproc,
}
use sleep_e_pingpong.Kernel.Sched.{
  is_child, Scan, found, havekids, wait_scan, sleep, Waited, reaped, failed, asleep, wait_round,
}
use sleep_e_pingpong.Kernel.Proc.Slots.{later_slot, is_state_iff}

-- `p` is a child of `me` that has exited.
abbrev pub is_dead_child : ℕ → Proc → Bool
is_dead_child me p = is_child me p && is_state p.state zombie

-- What the scan says of the slots in `ps`, the first of which is slot `k`.
pub data ScanRun (me k : ℕ) (kids : Bool) (ps : List Proc) : Scan → Type 0 where
  finds :
      (j : ℕ)
      → j < length ps
      → is_dead_child me (get_or ps j blank) ≡ true
      → ((i : ℕ) → i < j → is_dead_child me (get_or ps i blank) ≡ false)
      → ScanRun me k kids ps (found (k + j))
  live_kids :
      ((i : ℕ) → i < length ps → is_dead_child me (get_or ps i blank) ≡ false)
      → (kids ≡ true) ⊎ ((i : ℕ) × (i < length ps) × (is_child me (get_or ps i blank) ≡ true))
      → ScanRun me k kids ps (havekids true)
  no_kids :
      ((i : ℕ) → i < length ps → is_child me (get_or ps i blank) ≡ false)
      → kids ≡ false
      → ScanRun me k kids ps (havekids false)

dead_not_child : (me : ℕ) (p : Proc) → is_child me p ≡ false → is_dead_child me p ≡ false
dead_not_child me p e = rw e refl

found_here :
    (me k : ℕ) (kids : Bool) (p : Proc) (ps : List Proc)
    → is_dead_child me p ≡ true
    → ScanRun me k kids (p ∷ ps) (found k)
found_here me k kids p ps e =
    let first : ScanRun me k kids (p ∷ ps) (found (k + 0)) =
      finds 0 (omega arith) e (λ i lt. absurd (omega arith)) in
    subst (λ n. ScanRun me k kids (p ∷ ps) (found n)) (omega arith) first

-- A child among the later slots, or before them.
kid_cons :
    (me : ℕ) (kids : Bool) (p : Proc) (ps : List Proc)
    → ((if is_child me p then true else kids) ≡ true)
      ⊎ ((i : ℕ) × (i < length ps) × (is_child me (get_or ps i blank) ≡ true))
    → (kids ≡ true)
      ⊎ ((i : ℕ) × (i < length (p ∷ ps)) × (is_child me (get_or (p ∷ ps) i blank) ≡ true))
kid_cons me kids p ps (inl e) = elim (Bool-cases (is_child me p)) [
  | inl c ↦ inr (0, omega arith, c)
  | inr c ↦ inl (ground arith)
]
kid_cons me kids p ps (inr (i, lt, c)) = inr (suc i, omega arith, c)

scan_cons :
    (me k : ℕ) (kids : Bool) (p : Proc) (ps : List Proc) (r : Scan)
    → is_dead_child me p ≡ false
    → ScanRun me (k + 1) (if is_child me p then true else kids) ps r
    → ScanRun me k kids (p ∷ ps) r
scan_cons me k kids p ps _ e (finds j lt dead first) =
    let at_j : (k + 1) + j ≡ k + suc j = omega arith in
    rw at_j (finds (suc j) (omega arith) dead (later_slot (is_dead_child me) p ps j e first))
scan_cons me k kids p ps _ e (live_kids alive some_kid) =
    live_kids (later_slot (is_dead_child me) p ps (length ps) e alive)
      (kid_cons me kids p ps some_kid)
scan_cons me k kids p ps _ e (no_kids away none_before) =
    let here : is_child me p ≡ false = ground arith in
    no_kids (later_slot (is_child me) p ps (length ps) here away) (ground arith)

wait_scan-ScanRun :
    (me : ℕ) (ps : List Proc) (k : ℕ) (kids : Bool) → ScanRun me k kids ps (wait_scan me ps k kids)
unfolding wait_scan
wait_scan-ScanRun me [] k true = live_kids (λ i lt. absurd (omega arith)) (inl refl)
wait_scan-ScanRun me [] k false = no_kids (λ i lt. absurd (omega arith)) refl
wait_scan-ScanRun me (p ∷ ps) k kids =
    let rest = wait_scan-ScanRun me ps (k + 1) (if is_child me p then true else kids) in
    elim (Bool-cases (is_dead_child me p)) [
      | inl e ↦ rw e (found_here me k kids p ps e)
      | inr e ↦ rw e (scan_cons me k kids p ps _ e rest)
    ]

-- `p` is a child of `me`, and one that has exited.
abbrev pub IsChild : ℕ → Proc → Type 0
IsChild me p = p.parent ≡ some me

abbrev pub IsDeadChild : ℕ → Proc → Type 0
IsDeadChild me p = (p.parent ≡ some me) × (p.state ≡ zombie)

is_child-IsChild : (me : ℕ) (p : Proc) → is_child me p ≡ true → IsChild me p
unfolding is_child
is_child-IsChild me p h = elim (Option-cases p.parent) [
  | inl e ↦ absurd (let h' = rw e at h in cc)
  | inr (j, e) ↦
      let h' : (j == me) ≡ true = rw e at h in let same : j ≡ me = ground arith in e ∙ ap some same
]

IsChild-is_child : (me : ℕ) (p : Proc) → IsChild me p → is_child me p ≡ true
unfolding is_child
IsChild-is_child me p e = let same = ==_refl me in rw e same

no-IsChild : (me : ℕ) (p : Proc) → is_child me p ≡ false → ¬ IsChild me p
no-IsChild me p h e = let h' = IsChild-is_child me p e in cc

dead-IsDeadChild : (me : ℕ) (p : Proc) → is_dead_child me p ≡ true → IsDeadChild me p
dead-IsDeadChild me p h =
    (is_child-IsChild me p (ground arith), is_state_iff p.state zombie (ground arith))

no-IsDeadChild : (me : ℕ) (p : Proc) → is_dead_child me p ≡ false → ¬ IsDeadChild me p
unfolding is_state
no-IsDeadChild me p h (e, e') =
    let c = IsChild-is_child me p e in absurd (let h' = rw (c, e') at h in cc)

-- A slot that is given back: only its open files and its directory keep their old values.
abbrev pub cleared : Proc → Proc
cleared p = record {
  state = unused;
  chan = none;
  killed = false;
  xstate = 0;
  pid = 0;
  parent = none;
  sz = 0;
  pagetable = 0;
  trapframe = 0;
  ofile = p.ofile;
  cwd = p.cwd;
  name = [];
}

-- What a round of `wait` by `me` may do.
pub data WaitRun (me : ℕ) (copyout : Bool) (t : Table) : Waited × Table → Type 0 where
  reaps :
      (j : ℕ)
      → j < length t.procs
      → IsDeadChild me (at t j)
      → ((i : ℕ) → i < j → ¬ IsDeadChild me (at t i))
      → copyout ≡ true
      → WaitRun me copyout t (reaped (at t j).pid, put t j (cleared (at t j)))
  bad_address :
      (j : ℕ)
      → j < length t.procs
      → IsDeadChild me (at t j)
      → ((i : ℕ) → i < j → ¬ IsDeadChild me (at t i))
      → copyout ≡ false
      → WaitRun me copyout t (failed, t)
  childless :
      ((i : ℕ) → i < length t.procs → ¬ IsChild me (at t i)) → WaitRun me copyout t (failed, t)
  interrupted :
      ((i : ℕ) → i < length t.procs → ¬ IsDeadChild me (at t i))
      → (at t me).killed ≡ true
      → WaitRun me copyout t (failed, t)
  sleeps :
      ((i : ℕ) → i < length t.procs → ¬ IsDeadChild me (at t i))
      → (i : ℕ) × (i < length t.procs) × IsChild me (at t i)
      → (at t me).killed ≡ false
      → WaitRun me copyout t
          (asleep, put t me (record (at t me) { state = sleeping; chan = some (slot me) }))

no_zombie :
    (me : ℕ) (copyout : Bool) (t : Table) (b : Bool)
    → (at t me).killed ≡ b
    → ((i : ℕ) → i < length t.procs → ¬ IsDeadChild me (at t i))
    → (i : ℕ) × (i < length t.procs) × IsChild me (at t i)
    → WaitRun me copyout t (if b then (failed, t) else (asleep, sleep me (slot me) t))
unfolding sleep
no_zombie me copyout t true e none_dead kid = interrupted none_dead e
no_zombie me copyout t false e none_dead kid = sleeps none_dead kid e

after_scan :
    (me : ℕ) (copyout : Bool) (t : Table) (r : Scan)
    → ScanRun me 0 false t.procs r
    → WaitRun me copyout t (elim r [
      | found i ↦
          if copyout then (reaped (at t i).pid, put t i (freeproc (at t i))) else (failed, t)
      | havekids kids ↦
          if not kids || (at t me).killed then (failed, t) else (asleep, sleep me (slot me) t)
    ])
unfolding freeproc
after_scan me copyout t _ (finds j lt dead first) =
    let zombie_child = dead-IsDeadChild me (at t j) dead in
    let none_before : (i : ℕ) → i < j → ¬ IsDeadChild me (at t i) =
      λ i lt. no-IsDeadChild me (at t i) (first i lt) in
    elim (Bool-cases copyout) [
      | inl e ↦ rw e (
          subst (λ k. WaitRun me true t (reaped (at t k).pid, put t k (cleared (at t k))))
            (omega arith) (reaps j lt zombie_child none_before refl))
      | inr e ↦ rw e (bad_address j lt zombie_child none_before refl)
    ]
after_scan me copyout t _ (live_kids alive (inl e)) = absurd cc
after_scan me copyout t _ (live_kids alive (inr (i, lt, kid))) =
    let none_dead : (i : ℕ) → i < length t.procs → ¬ IsDeadChild me (at t i) =
      λ i lt. no-IsDeadChild me (at t i) (alive i lt) in
    no_zombie me copyout t (at t me).killed refl none_dead (i, lt, is_child-IsChild me (at t i) kid)
after_scan me copyout t _ (no_kids away e) = childless (λ i lt. no-IsChild me (at t i) (away i lt))

-- `wait` by `me`, in the round that holds the locks, does one of five things. If a child is a zombie,
-- it clears the slot of the first such child, all but its open files and its directory, which makes it
-- a free slot, and returns the pid it had, or, when the status cannot be stored, it returns -1 and
-- changes nothing. With no child, or with no zombie child when the caller was killed, it returns -1
-- and changes nothing. It becomes a process that sleeps on its own slot only with a child and none
-- that is a zombie, and when it was not killed.
pub wait_round-WaitRun :
    (me : ℕ) (copyout : Bool) (t : Table) → WaitRun me copyout t (wait_round me copyout t)
unfolding wait_round
wait_round-WaitRun me copyout t =
    after_scan me copyout t (wait_scan me t.procs 0 false) (wait_scan-ScanRun me t.procs 0 false)
