-- ===== src/Kernel/Proc/Kill.antt =====
-- `kill` of kernel/proc.c, and a pid of 0.
use sleep_e_pingpong.Base.{
  ℕ, suc, ◌<◌, ◌≡◌, refl, inl, inr, Bool, true, false, List, [], ◌∷◌, Option, none, some, ◌==◌,
  if◌then◌else◌, get_or, set, length, Bool-cases, arith,
}
use sleep_e_pingpong.Kernel.Proc.{sleeping, runnable, is_state, Proc, blank, Table, at, put}
use sleep_e_pingpong.Kernel.Sched.{kill_loop, kill}
use sleep_e_pingpong.Kernel.Proc.Slots.{later_slot}

abbrev pub has_pid : ℕ → Proc → Bool
has_pid pid p = p.pid == pid

-- The victim, which no longer sleeps.
abbrev pub victim : Proc → Proc
victim p = record p {
  killed = true;
  state = if is_state p.state sleeping then runnable else p.state;
}

-- What the loop of `kill` may do.
pub data KillRun (pid : ℕ) (ps : List Proc) : Option (List Proc) → Type 0 where
  missing :
      ((j : ℕ) → j < length ps → has_pid pid (get_or ps j blank) ≡ false) → KillRun pid ps none
  hits :
      (j : ℕ)
      → j < length ps
      → has_pid pid (get_or ps j blank) ≡ true
      → ((i : ℕ) → i < j → has_pid pid (get_or ps i blank) ≡ false)
      → KillRun pid ps (some (set ps j (victim (get_or ps j blank))))

kill_cons :
    (pid : ℕ) (p : Proc) (ps : List Proc) (r : Option (List Proc))
    → has_pid pid p ≡ false
    → KillRun pid ps r
    → KillRun pid (p ∷ ps) (elim r [ none ↦ none | some qs ↦ some (p ∷ qs) ])
kill_cons pid p ps _ e (missing away) = missing (later_slot (has_pid pid) p ps (length ps) e away)
kill_cons pid p ps _ e (hits j lt is first) =
    hits (suc j) (omega arith) is (later_slot (has_pid pid) p ps j e first)

kill_loop-KillRun : (pid : ℕ) (ps : List Proc) → KillRun pid ps (kill_loop pid ps)
unfolding kill_loop
kill_loop-KillRun pid [] = missing (λ j lt. absurd (omega arith))
kill_loop-KillRun pid (p ∷ ps) = elim (Bool-cases (has_pid pid p)) [
  | inl e ↦ rw e (hits 0 (omega arith) e (λ i lt. absurd (omega arith)))
  | inr e ↦ rw e (kill_cons pid p ps _ e (kill_loop-KillRun pid ps))
]

-- What `kill` may do.
pub data KillEffect (pid : ℕ) (t : Table) : Option Table → Type 0 where
  no_such : ((j : ℕ) → j < length t.procs → has_pid pid (at t j) ≡ false) → KillEffect pid t none
  marks :
      (j : ℕ) (t' : Table)
      → j < length t.procs
      → has_pid pid (at t j) ≡ true
      → ((i : ℕ) → i < j → has_pid pid (at t i) ≡ false)
      → t' ≡ put t j (victim (at t j))
      → KillEffect pid t (some t')

after_loop :
    (pid : ℕ) (t : Table) (r : Option (List Proc))
    → KillRun pid t.procs r
    → KillEffect pid t (elim r [ none ↦ none | some ps ↦ some (record t { procs = ps }) ])
after_loop pid t _ (missing away) = no_such away
after_loop pid t _ (hits j lt is first) = marks j _ lt is first refl

-- `kill` marks the first slot with the pid as killed, makes its process RUNNABLE if it sleeps, and
-- changes nothing else; it returns -1 and changes nothing exactly when no slot has the pid.
pub kill-KillEffect : (pid : ℕ) (t : Table) → KillEffect pid t (kill pid t)
unfolding kill
kill-KillEffect pid t = after_loop pid t (kill_loop pid t.procs) (kill_loop-KillRun pid t.procs)
