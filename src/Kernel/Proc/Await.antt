-- ===== src/Kernel/Proc/Await.antt =====
-- Parents that sleep in `wait` of kernel/proc.c: no wakeup is lost, slot by slot.
use sleep_e_pingpong.Base.{
  ℕ, ◌≡◌, refl, sym, ◌∙◌, ◌≢◌, inl, inr, Bool, true, false, ◌&&◌, none, some, ◌==◌, set_each, ne→==,
  ==_refl, Bool-cases, arith,
}
use sleep_e_pingpong.Kernel.Proc.{
  sleeping, runnable, zombie, is_state, Channel, slot, Proc, blank, Table, at, put, same_chan,
}
use sleep_e_pingpong.Kernel.Sched.{wake, wakeup}
use sleep_e_pingpong.Kernel.Proc.Slots.{is_state_iff}
use sleep_e_pingpong.Kernel.Proc.Wakeup.{wakeup-at}
use sleep_e_pingpong.Kernel.Proc.Family.{SameKin, SameKin-refl, is_live, slot_cases}

-- `p` sleeps on slot `j`.
abbrev pub Waits : Proc → ℕ → Type 0
Waits p j = (p.state ≡ sleeping) × (p.chan ≡ some (slot j))

-- No parent of a zombie sleeps on its own slot.
abbrev pub IsAwaited : Table → Type 0
IsAwaited t = (i j : ℕ) → (at t i).state ≡ zombie → (at t i).parent ≡ some j → ¬ Waits (at t j) j

-- `p'` has neither exited nor begun to wait since `p`.
pub record SameWait (p p' : Proc) : Type 0 where
  pub dead : p'.state ≡ zombie → p.state ≡ zombie
  pub waits : (j : ℕ) → Waits p' j → Waits p j

pub SameWait-refl : (p : Proc) → SameWait p p
SameWait-refl p = record { dead = λ e. e; waits = λ j w. w }

-- Neither pid, parent and liveness, nor exit and wait.
abbrev pub Same : Proc → Proc → Type 0
Same p p' = SameKin p p' × SameWait p p'

pub Same-refl : (p : Proc) → Same p p
Same-refl p = (SameKin-refl p, SameWait-refl p)

pub IsAwaited-kept :
    (t t' : Table) → ((i : ℕ) → Same (at t i) (at t' i)) → IsAwaited t → IsAwaited t'
IsAwaited-kept t t' same q i j dead child waits =
    let (kin, wait) = same i in
    q i j (wait.dead dead) (sym kin.parent ∙ child) ((same j).1.waits j waits)

-- A write of one slot that leaves what it holds alike leaves all alike.
pub put-Same :
    (t : Table) (i : ℕ) (p : Proc) → Same (at t i) p → (j : ℕ) → Same (at t j) (at (put t i p) j)
put-Same t i p new j = set_each Same t.procs i j p blank Same-refl new

-- A process that slept, and is made RUNNABLE.
woken-Same : (p : Proc) → p.state ≡ sleeping → Same p (record p { state = runnable })
unfolding is_live
woken-Same p e = (
  record {
    pid = refl;
    parent = refl;
    free = λ h. absurd cc;
    in_use = λ h. absurd cc;
    live = λ h. refl;
  },
  record { dead = λ h. absurd cc; waits = λ j w. let (w₀, w₁) = w in absurd cc },
)

-- The test of `wakeup`.
abbrev is_asleep_on : Channel → Proc → Bool
is_asleep_on c p =
    is_state p.state sleeping && elim p.chan [ none ↦ false | some d ↦ same_chan d c ]

wake-Same : (c : Channel) (p : Proc) → Same p (wake c p)
unfolding wake
wake-Same c p = elim (Bool-cases (is_asleep_on c p)) [
  | inl e ↦ rw e (woken-Same p (is_state_iff p.state sleeping (ground arith)))
  | inr e ↦ rw e (Same-refl p)
]

-- What `wakeup` leaves.
pub wakeup-Same : (me : ℕ) (c : Channel) (t : Table) (j : ℕ) → Same (at t j) (at (wakeup me c t) j)
wakeup-Same me c t j = rw (wakeup-at me c t j) (elim (Bool-cases (j == me)) [
  | inl e ↦ rw e (Same-refl (at t j))
  | inr e ↦ rw e (wake-Same c (at t j))
])

asleep_on : (p : Proc) (j : ℕ) → Waits p j → is_asleep_on (slot j) p ≡ true
unfolding same_chan is_state
asleep_on p j (e, e') = rw (e, e') (==_refl j)

wake-awake : (p : Proc) (j : ℕ) → ¬ Waits (wake (slot j) p) j
unfolding wake
wake-awake p j w = elim (Bool-cases (is_asleep_on (slot j) p)) [
  | inl e ↦ let (w₀, w₁) = rw e at w in cc
  | inr e ↦ let e' = asleep_on p j (rw e at w) in cc
]

-- After `wakeup` no process but the caller sleeps on the channel.
pub wakeup-awake : (me j : ℕ) (t : Table) → j ≢ me → ¬ Waits (at (wakeup me (slot j) t) j) j
wakeup-awake me j t ne w =
    let other : (j == me) ≡ false = ne→== j me ne in
    wake-awake (at t j) j (rw other at rw (wakeup-at me (slot j) t j) at w)

-- `t'` is `t` but for slot `i`, which holds `p`.
pub IsAwaited-one :
    (t t' : Table) (i : ℕ) (p : Proc)
    → at t' i ≡ p
    → ((j : ℕ) → j ≢ i → at t' j ≡ at t j)
    → (p.state ≡ zombie → (j : ℕ) → p.parent ≡ some j → ¬ Waits (at t' j) j)
    → (Waits p i → (k : ℕ) → k ≢ i → (at t k).state ≡ zombie → ¬ ((at t k).parent ≡ some i))
    → IsAwaited t
    → IsAwaited t'
IsAwaited-one t t' i p new others child parent q k j dead is_child waits =
    elim (slot_cases t t' i p new others k) [
      | inl (_, e) ↦ child (rw e at dead) j (rw e at is_child) waits
      | inr (ne, e) ↦ elim (slot_cases t t' i p new others j) [
        | inl (ej, e') ↦
            parent (rw ej at rw e' at waits) k ne (rw e at dead) (rw ej at rw e at is_child)
        | inr (_, e') ↦ q k j (rw e at dead) (rw e at is_child) (rw e' at waits)
      ]
    ]
