-- ===== src/Kernel/Proc/Wakeup.antt =====
-- `wakeup` of kernel/proc.c, slot by slot, and `wakeup(p->parent)`.
use sleep_e_pingpong.Base.{
  ne→==, ◌∙◌, ◌≢◌, ◌⊎◌, inl, inr, true, false, some, Bool-cases, Option-cases, ==_refl, ℕ, zero,
  suc, ◌+◌, ◌≡◌, refl, ap, List, [], ◌∷◌, ◌==◌, if◌then◌else◌, get_or, length, arith,
}
use mathlib.Core.Path.{subst}
use sleep_e_pingpong.Kernel.Proc.{
  sleeping, runnable, slot, object, same_chan, is_state, Channel, Proc, blank, Table, at,
}
use sleep_e_pingpong.Kernel.Proc.Slots.{is_state_iff}
use sleep_e_pingpong.Kernel.Sched.{wake, wakeup_loop, wakeup}

wake-blank : (c : Channel) → wake c blank ≡ blank
unfolding wake is_state
wake-blank c = refl

wakeup_loop-get_or :
    (me : ℕ) (c : Channel) (k : ℕ) (ps : List Proc) (i : ℕ)
    → get_or (wakeup_loop me c k ps) i blank
      ≡ (if (k + i) == me then get_or ps i blank else wake c (get_or ps i blank))
unfolding wakeup_loop
wakeup_loop-get_or me c k [] i = grind (arith, wake-blank c)
wakeup_loop-get_or me c k (p ∷ ps) zero = let e : k + 0 ≡ k = omega arith in rw e refl
wakeup_loop-get_or me c k (p ∷ ps) (suc i) =
    let e : k + suc i ≡ (k + 1) + i = omega arith in rw e (wakeup_loop-get_or me c (k + 1) ps i)

pub length-wakeup_loop :
    (me : ℕ) (c : Channel) (k : ℕ) (ps : List Proc) → length (wakeup_loop me c k ps) ≡ length ps
unfolding wakeup_loop
length-wakeup_loop me c k [] = refl
length-wakeup_loop me c k (p ∷ ps) = ap suc (length-wakeup_loop me c (k + 1) ps)

-- What `wakeup` leaves in a slot.
pub wakeup-at :
    (me : ℕ) (c : Channel) (t : Table) (i : ℕ)
    → at (wakeup me c t) i ≡ (if i == me then at t i else wake c (at t i))
unfolding wakeup
wakeup-at me c t i =
    subst
      (λ k.
        get_or (wakeup_loop me c 0 t.procs) i blank ≡ (if k == me then at t i else wake c (at t i)))
      (omega arith) (wakeup_loop-get_or me c 0 t.procs i)

pub wakeup_self : (me : ℕ) (c : Channel) (t : Table) → at (wakeup me c t) me ≡ at t me
wakeup_self me c t = let e = ==_refl me in rw (wakeup-at me c t me) (rw e refl)

same_chan_refl : (c : Channel) → same_chan c c ≡ true
unfolding same_chan
same_chan_refl (slot i) = ==_refl i
same_chan_refl (object a) = ==_refl a

same_chan_iff : (c d : Channel) → same_chan c d ≡ true → c ≡ d
unfolding same_chan
same_chan_iff (slot i) (slot j) h = let e : i ≡ j = ground arith in ap slot e
same_chan_iff (object a) (object b) h = let e : a ≡ b = ground arith in ap object e
same_chan_iff (slot i) (object b) h = absurd cc
same_chan_iff (object a) (slot j) h = absurd cc

wake_sleeper :
    (c : Channel) (p : Proc)
    → p.state ≡ sleeping
    → p.chan ≡ some c
    → wake c p ≡ record p { state = runnable }
unfolding wake is_state
wake_sleeper c p e e' = let same = same_chan_refl c in rw (e, e') (rw same refl)

wake_other : (c : Channel) (p : Proc) → (p.state ≢ sleeping) ⊎ (p.chan ≢ some c) → wake c p ≡ p
unfolding wake
wake_other c p (inl ne) = elim (Bool-cases (is_state p.state sleeping)) [
  | inl e ↦ absurd (ne (is_state_iff p.state sleeping e))
  | inr e ↦ rw e refl
]
wake_other c p (inr ne) = elim (Option-cases p.chan) [
  | inl e ↦
      rw (e, wake)
        (elim (Bool-cases (is_state p.state sleeping)) [ inl h ↦ rw h refl | inr h ↦ rw h refl ])
  | inr (d, e) ↦
      let other : same_chan d c ≡ false = elim (Bool-cases (same_chan d c)) [
        | inl h ↦ absurd (ne (e ∙ ap some (same_chan_iff d c h)))
        | inr h ↦ h
      ] in
      rw (e, wake)
        (rw other
          (elim (Bool-cases (is_state p.state sleeping)) [ inl h ↦ rw h refl | inr h ↦ rw h refl ]))
]

-- What `wakeup` of the channel `c` by `me` does to the table.
pub record WakeupRun (me : ℕ) (c : Channel) (t t' : Table) : Type 0 where
  pub woken :
      (i : ℕ)
      → i ≢ me
      → (at t i).state ≡ sleeping
      → (at t i).chan ≡ some c
      → at t' i ≡ record (at t i) { state = runnable }
  pub others :
      (i : ℕ) → (i ≡ me) ⊎ ((at t i).state ≢ sleeping) ⊎ ((at t i).chan ≢ some c) → at t' i ≡ at t i
  pub counter : t'.nextpid ≡ t.nextpid
  pub init : t'.initproc ≡ t.initproc
  pub size : length t'.procs ≡ length t.procs

other_wake :
    (me : ℕ) (c : Channel) (t : Table) (i : ℕ)
    → ((at t i).state ≢ sleeping) ⊎ ((at t i).chan ≢ some c)
    → at (wakeup me c t) i ≡ at t i
other_wake me c t i ne =
    rw (wakeup-at me c t i)
      (elim (Bool-cases (i == me)) [ inl e ↦ rw e refl | inr e ↦ rw e (wake_other c (at t i) ne) ])

-- `wakeup(chan)` makes each process other than the caller that sleeps on `chan` RUNNABLE. All else of
-- such a process stays, and so do the other slots, the number of slots, the counter of pids and the
-- first process.
pub wakeup-WakeupRun : (me : ℕ) (c : Channel) (t : Table) → WakeupRun me c t (wakeup me c t)
unfolding wakeup
wakeup-WakeupRun me c t = record {
  woken = λ i ne e e'.
      let other : (i == me) ≡ false = ne→== i me ne in
      wakeup-at me c t i ∙ rw other (wake_sleeper c (at t i) e e');
  others = λ i h. elim h [ inl e ↦ rw e (wakeup_self me c t) | inr ne ↦ other_wake me c t i ne ];
  counter = refl;
  init = refl;
  size = length-wakeup_loop me c 0 t.procs;
}
