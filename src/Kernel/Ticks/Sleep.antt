-- ===== src/Kernel/Ticks/Sleep.antt =====
-- sys_sleep of kernel/sysproc.c returns after the ticks that it was asked to wait for.
use sleep_e_pingpong.Base.{
  int_max, uint_mod, ℕ, zero, suc, ◌+◌, ◌%◌, ◌<◌, ◌≡◌, refl, ◌∙◌, inl, inr, Bool, true, false, List,
  [], ◌∷◌, ltb, leb, ◌==◌, if◌then◌else◌, Bool-cases, arith,
}
use sleep_e_pingpong.Kernel.Ticks.{
  Clock, clockintr, Event, timer, kill, blocks, runs, happens, Rest, falling, blocked, ready, stirs,
  duration, elapsed, Slept, returned, interrupted, sleep_test, sleep_loop, sys_sleep,
}
use sleep_e_pingpong.Kernel.Ticks.Wait.{
  tick_count, Sleeps, ends, tick, no_tick, killed_early, killed_asleep, falls_asleep, has_slept,
  passed_over, wakes_up, gives_up, sleeps_on, SleepRun, at_once, refuses, waits,
}

-- `c` has seen `d` ticks since `ticks₀`.
IsAfter : ℕ → ℕ → Clock → Type 0
IsAfter ticks₀ d c = c.ticks ≡ (ticks₀ + d) % uint_mod

elapsed_lem :
    (ticks₀ d : ℕ) (c : Clock)
    → ticks₀ < uint_mod
    → d < uint_mod
    → IsAfter ticks₀ d c
    → elapsed c.ticks ticks₀ ≡ d
unfolding elapsed IsAfter
elapsed_lem t d c lt lt_d e = omega arith

tick_IsAfter :
    (ticks₀ d : ℕ) (c : Clock) → IsAfter ticks₀ d c → IsAfter ticks₀ (d + 1) (happens (timer 0) c)
unfolding happens clockintr IsAfter
tick_IsAfter t d c e = omega arith

no_tick_lem : (cpu : ℕ) (c : Clock) → (cpu == 0) ≡ false → happens (timer cpu) c ≡ c
unfolding happens clockintr
no_tick_lem cpu c h = rw h refl

-- What the loop may do in a state.
LoopRun : ℕ → ℕ → ℕ → Clock → Rest → List Event → Type 0
LoopRun n ticks₀ d c r es = Sleeps n d c.killed r es (sleep_loop n ticks₀ c r es).0

timer_run :
    (n ticks₀ d cpu : ℕ) (c : Clock) (r : Rest) (es : List Event)
    → ((cpu == 0) ≡ true → LoopRun n ticks₀ (d + 1) (happens (timer 0) c) ready es)
    → ((cpu == 0) ≡ false → LoopRun n ticks₀ d c r es)
    → Sleeps n d c.killed r
        (timer cpu ∷ es)
        (sleep_loop n ticks₀ (happens (timer cpu) c) (stirs (timer cpu) r) es).0
unfolding stirs LoopRun happens clockintr
timer_run n t d zero c r es h h' = tick d c.killed r es _ (h refl)
timer_run n t d (suc cpu) c r es h h' =
    let other : (suc cpu == 0) ≡ false = ground arith in
    rw other (no_tick (suc cpu) d c.killed r es _ (λ e. absurd (omega arith)) (h' other))

-- The test, where `rest` is what comes of sleeping.
test_rest :
    (n ticks₀ : ℕ) (c : Clock) (rest : Slept × Clock)
    → ltb (elapsed c.ticks ticks₀) n ≡ true
    → c.killed ≡ false
    → (sleep_test n ticks₀ c rest).0 ≡ rest.0
unfolding sleep_test
test_rest n t c rest e k = rw e (rw k refl)

test_killed :
    (n ticks₀ : ℕ) (c : Clock) (rest : Slept × Clock)
    → ltb (elapsed c.ticks ticks₀) n ≡ true
    → c.killed ≡ true
    → (sleep_test n ticks₀ c rest).0 ≡ interrupted
unfolding sleep_test
test_killed n t c rest e k = rw e (rw k refl)

test_over :
    (n ticks₀ : ℕ) (c : Clock) (rest : Slept × Clock)
    → ltb (elapsed c.ticks ticks₀) n ≡ false
    → (sleep_test n ticks₀ c rest).0 ≡ returned
unfolding sleep_test
test_over n t c rest e = rw e refl

tested :
    (n ticks₀ d : ℕ) (c : Clock) (dead : Bool) (es : List Event) (rest : Slept × Clock)
    → c.killed ≡ dead
    → ltb (elapsed c.ticks ticks₀) n ≡ true
    → d < n
    → Sleeps n d dead falling es rest.0
    → Sleeps n d dead ready (runs ∷ es) (sleep_test n ticks₀ c rest).0
tested n t d c true es rest k e lt w = rw (test_killed n t c rest e k) (gives_up d es lt)
tested n t d c false es rest k e lt w = rw (test_rest n t c rest e k) (sleeps_on d es _ lt w)

test_run :
    (n ticks₀ d : ℕ) (c : Clock) (dead : Bool) (es : List Event) (rest : Slept × Clock)
    → c.killed ≡ dead
    → ltb (elapsed c.ticks ticks₀) n ≡ ltb d n
    → Sleeps n d dead falling es rest.0
    → Sleeps n d dead ready (runs ∷ es) (sleep_test n ticks₀ c rest).0
test_run n t d c dead es rest k e w = elim (Bool-cases (ltb d n)) [
  | inr h ↦ rw (test_over n t c rest (e ∙ h)) (wakes_up d dead es (ground arith))
  | inl h ↦ tested n t d c dead es rest k (e ∙ h) (ground arith) w
]

same_test :
    (n ticks₀ d : ℕ) (c : Clock)
    → ticks₀ < uint_mod
    → d < uint_mod
    → IsAfter ticks₀ d c
    → ltb (elapsed c.ticks ticks₀) n ≡ ltb d n
same_test n t d c lt lt_d a = let e = elapsed_lem t d c lt lt_d a in rw e refl

tick_bound :
    (d cpu : ℕ) (es : List Event)
    → (cpu == 0) ≡ true
    → d + tick_count (timer cpu ∷ es) < uint_mod
    → (d + 1) + tick_count es < uint_mod
tick_bound d cpu es e lt = ground arith

no_tick_bound :
    (d cpu : ℕ) (es : List Event)
    → d + tick_count (timer cpu ∷ es) < uint_mod
    → d + tick_count es < uint_mod
no_tick_bound d cpu es lt = ground arith

module _ (n ticks₀ : ℕ) (start : ticks₀ < uint_mod) where
  loop_run :
      (d : ℕ) (c : Clock) (r : Rest) (es : List Event)
      → d + tick_count es < uint_mod
      → IsAfter ticks₀ d c
      → LoopRun n ticks₀ d c r es
  unfolding LoopRun IsAfter sleep_loop stirs happens
  loop_run d c r [] lt a = ends d c.killed r
  loop_run d c falling (timer cpu ∷ es) lt a =
      timer_run n ticks₀ d cpu c falling es
        (λ e.
          loop_run (d + 1) (happens (timer 0) c) ready es (tick_bound d cpu es e lt)
            (tick_IsAfter ticks₀ d c a))
        (λ _. loop_run d c falling es (no_tick_bound d cpu es lt) a)
  loop_run d c blocked (timer cpu ∷ es) lt a =
      timer_run n ticks₀ d cpu c blocked es
        (λ e.
          loop_run (d + 1) (happens (timer 0) c) ready es (tick_bound d cpu es e lt)
            (tick_IsAfter ticks₀ d c a))
        (λ _. loop_run d c blocked es (no_tick_bound d cpu es lt) a)
  loop_run d c ready (timer cpu ∷ es) lt a =
      timer_run n ticks₀ d cpu c ready es
        (λ e.
          loop_run (d + 1) (happens (timer 0) c) ready es (tick_bound d cpu es e lt)
            (tick_IsAfter ticks₀ d c a))
        (λ _. loop_run d c ready es (no_tick_bound d cpu es lt) a)
  loop_run d c falling (kill ∷ es) lt a =
      killed_early d c.killed es _ (loop_run d (happens kill c) falling es lt a)
  loop_run d c blocked (kill ∷ es) lt a =
      killed_asleep d c.killed blocked es _ (λ e. absurd cc)
        (loop_run d (happens kill c) ready es lt a)
  loop_run d c ready (kill ∷ es) lt a =
      killed_asleep d c.killed ready es _ (λ e. absurd cc)
        (loop_run d (happens kill c) ready es lt a)
  loop_run d c falling (blocks ∷ es) lt a =
      falls_asleep d c.killed es _ (loop_run d c blocked es lt a)
  loop_run d c blocked (blocks ∷ es) lt a =
      has_slept d c.killed blocked es _ (λ e. absurd cc) (loop_run d c blocked es lt a)
  loop_run d c ready (blocks ∷ es) lt a =
      has_slept d c.killed ready es _ (λ e. absurd cc) (loop_run d c ready es lt a)
  loop_run d c falling (runs ∷ es) lt a =
      passed_over d c.killed falling es _ (λ e. absurd cc) (loop_run d c falling es lt a)
  loop_run d c blocked (runs ∷ es) lt a =
      passed_over d c.killed blocked es _ (λ e. absurd cc) (loop_run d c blocked es lt a)
  loop_run d c ready (runs ∷ es) lt a =
      test_run n ticks₀ d c c.killed es _ refl (same_test n ticks₀ d c start (omega arith) a)
        (loop_run d c falling es lt a)

first_test :
    (n ticks₀ : ℕ) (c : Clock) (dead : Bool) (es : List Event) (rest : Slept × Clock)
    → c.killed ≡ dead
    → ltb (elapsed c.ticks ticks₀) n ≡ ltb 0 n
    → Sleeps n 0 dead falling es rest.0
    → SleepRun n dead es (sleep_test n ticks₀ c rest).0
first_test zero t c dead es rest k e w =
    let over : ltb 0 0 ≡ false = ground arith in rw (test_over 0 t c rest (e ∙ over)) (at_once refl)
first_test (suc n) t c true es rest k e w =
    let on : ltb 0 (suc n) ≡ true = ground arith in
    rw (test_killed (suc n) t c rest (e ∙ on) k) (refuses (λ z. absurd (omega arith)) refl)
first_test (suc n) t c false es rest k e w =
    let on : ltb 0 (suc n) ≡ true = ground arith in
    rw (test_rest (suc n) t c rest (e ∙ on) k) (waits _ (λ z. absurd (omega arith)) refl w)

start_IsAfter : (c : Clock) → c.ticks < uint_mod → IsAfter c.ticks 0 c
unfolding IsAfter
start_IsAfter c lt = omega arith

-- `sleep(word)` waits for `n` ticks, where `n` is its argument, or 0 when that is negative as an int,
-- if fewer than 2^32 ticks come. It returns 0 at once when `n` is 0, and -1 at once when it is not and
-- the caller has been killed. Else it sleeps, and tests when it runs again, which it does only after a
-- tick, or after a kill that came when it was asleep: it returns 0 when `n` ticks or more have come by
-- then, -1 when fewer have come and it has been killed, and goes back to sleep otherwise. The 32-bit
-- counter may wrap around, and other processors' timers do not count.
pub sys_sleep-SleepRun :
    (word : ℕ) (c : Clock) (es : List Event)
    → c.ticks < uint_mod
    → tick_count es < uint_mod
    → SleepRun (if leb word int_max then word else 0) c.killed es (sys_sleep word c es).0
unfolding sys_sleep duration LoopRun
sys_sleep-SleepRun word c es lt few =
    let now = start_IsAfter c lt in
    first_test (if leb word int_max then word else 0) c.ticks c c.killed es _ refl
      (same_test _ c.ticks 0 c lt (omega arith) now)
      (loop_run _ c.ticks lt 0 c falling es (omega (arith, few)) now)
