-- ===== src/Kernel/Ticks/Wait.antt =====
-- What sys_sleep of kernel/sysproc.c is to do, event by event, with the ticks counted from its start.
use sleep_e_pingpong.Base.{
  ℕ, ◌+◌, ◌≤◌, ◌<◌, ◌≡◌, ◌≢◌, Bool, true, false, List, [], ◌∷◌, ◌==◌, if◌then◌else◌,
}
use sleep_e_pingpong.Kernel.Ticks.{
  Event, timer, kill, blocks, runs, Rest, falling, blocked, ready, Slept, returned, interrupted,
  asleep,
}

-- The ticks among the events: processor 0 alone makes them.
abbrev pub tick_count : List Event → ℕ
tick_count [] = 0
tick_count (timer cpu ∷ es) = (if cpu == 0 then 1 else 0) + tick_count es
tick_count (kill ∷ es) = tick_count es
tick_count (blocks ∷ es) = tick_count es
tick_count (runs ∷ es) = tick_count es

-- What waiting for `n` ticks comes to, event by event, after `d` ticks, where `dead` says whether the
-- caller has been killed. It looks at `d` and `dead` only when it runs.
pub data Sleeps (n : ℕ) : ℕ → Bool → Rest → List Event → Slept → Type 0 where
  ends : (d : ℕ) (dead : Bool) (r : Rest) → Sleeps n d dead r [] asleep
  tick :
      (d : ℕ) (dead : Bool) (r : Rest) (es : List Event) (s : Slept)
      → Sleeps n (d + 1) dead ready es s
      → Sleeps n d dead r (timer 0 ∷ es) s
  no_tick :
      (cpu d : ℕ) (dead : Bool) (r : Rest) (es : List Event) (s : Slept)
      → cpu ≢ 0
      → Sleeps n d dead r es s
      → Sleeps n d dead r (timer cpu ∷ es) s
  killed_early :
      (d : ℕ) (dead : Bool) (es : List Event) (s : Slept)
      → Sleeps n d true falling es s
      → Sleeps n d dead falling (kill ∷ es) s
  killed_asleep :
      (d : ℕ) (dead : Bool) (r : Rest) (es : List Event) (s : Slept)
      → r ≢ falling
      → Sleeps n d true ready es s
      → Sleeps n d dead r (kill ∷ es) s
  falls_asleep :
      (d : ℕ) (dead : Bool) (es : List Event) (s : Slept)
      → Sleeps n d dead blocked es s
      → Sleeps n d dead falling (blocks ∷ es) s
  has_slept :
      (d : ℕ) (dead : Bool) (r : Rest) (es : List Event) (s : Slept)
      → r ≢ falling
      → Sleeps n d dead r es s
      → Sleeps n d dead r (blocks ∷ es) s
  passed_over :
      (d : ℕ) (dead : Bool) (r : Rest) (es : List Event) (s : Slept)
      → r ≢ ready
      → Sleeps n d dead r es s
      → Sleeps n d dead r (runs ∷ es) s
  wakes_up :
      (d : ℕ) (dead : Bool) (es : List Event) → n ≤ d → Sleeps n d dead ready (runs ∷ es) returned
  gives_up : (d : ℕ) (es : List Event) → d < n → Sleeps n d true ready (runs ∷ es) interrupted
  sleeps_on :
      (d : ℕ) (es : List Event) (s : Slept)
      → d < n
      → Sleeps n d false falling es s
      → Sleeps n d false ready (runs ∷ es) s

-- The whole call.
pub data SleepRun (n : ℕ) (dead : Bool) (es : List Event) : Slept → Type 0 where
  at_once : n ≡ 0 → SleepRun n dead es returned
  refuses : n ≢ 0 → dead ≡ true → SleepRun n dead es interrupted
  waits : (s : Slept) → n ≢ 0 → dead ≡ false → Sleeps n 0 false falling es s → SleepRun n dead es s
