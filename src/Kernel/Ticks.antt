-- ===== src/Kernel/Ticks.antt =====
-- The clock of kernel/trap.c and the call that waits for it, sys_sleep of kernel/sysproc.c.
-- The process tests only when it runs, and it runs again only once a tick or a kill has made it
-- RUNNABLE and the scheduler has chosen it. It holds the counter's lock from a test until it sleeps, so
-- that no tick is lost; a kill in between is seen, but does not wake it.
mod Wait
mod Sleep
mod Tests
use sleep_e_pingpong.Base.{
  int_max, uint_mod, ℕ, ◌+◌, ◌-◌, ◌%◌, ◌^◌, Bool, true, false, List, [], ◌∷◌, ltb, leb, ◌==◌,
  if◌then◌else◌,
}

-- `ticks`, and whether the caller has been killed.
pub record Clock : Type 0 where
  pub ticks : ℕ
  pub killed : Bool

-- `clockintr` on processor `cpu`, less the timer's next request. It wakes who sleeps on the counter.
unfoldable pub clockintr : ℕ → Clock → Clock
clockintr cpu c = if cpu == 0 then record c { ticks = (c.ticks + 1) % uint_mod } else c

-- What happens around the caller: a timer interrupt on a processor, `kill` of the caller, the end of
-- its call of `sleep`, where it is SLEEPING, and the scheduler's choice of it, should it be RUNNABLE.
pub data Event : Type 0 where
  timer : ℕ → Event
  kill : Event
  blocks : Event
  runs : Event

unfoldable pub happens : Event → Clock → Clock
unfolding clockintr
happens (timer cpu) c = clockintr cpu c
happens kill c = record c { killed = true }
happens blocks c = c
happens runs c = c

-- Where the caller is in `sleep`: on its way to be SLEEPING, SLEEPING, or RUNNABLE again.
pub data Rest : Type 0 where
  falling : Rest
  blocked : Rest
  ready : Rest

-- `wakeup` of the counter by a tick, which waits for the lock until the caller sleeps; and `kill`,
-- which wakes a SLEEPING process.
unfoldable pub stirs : Event → Rest → Rest
stirs (timer cpu) r = if cpu == 0 then ready else r
stirs kill falling = falling
stirs kill blocked = ready
stirs kill ready = ready
stirs blocks falling = blocked
stirs blocks blocked = blocked
stirs blocks ready = ready
stirs runs r = r

-- The 32-bit argument read as an int, and its negative values made 0.
unfoldable pub duration : ℕ → ℕ
duration word = if leb word int_max then word else 0

-- `ticks - ticks0` on 32 bits.
unfoldable pub elapsed : ℕ → ℕ → ℕ
elapsed ticks ticks₀ = (ticks + uint_mod - ticks₀) % uint_mod

-- The result 0, the result -1, or still in the loop when the events end.
pub data Slept : Type 0 where
  returned : Slept
  interrupted : Slept
  asleep : Slept

-- The test of the loop, and its body up to `sleep`; `rest` is what comes of sleeping.
unfoldable pub sleep_test : ℕ → ℕ → Clock → Slept × Clock → Slept × Clock
unfolding elapsed
sleep_test n ticks₀ c rest =
    if ltb (elapsed c.ticks ticks₀) n
    then if c.killed then (interrupted, c) else rest
    else (returned, c)

-- The loop from inside of `sleep`, with the events that follow.
unfoldable pub sleep_loop : ℕ → ℕ → Clock → Rest → List Event → Slept × Clock
unfolding sleep_test happens stirs
sleep_loop n ticks₀ c r [] = (asleep, c)
sleep_loop n ticks₀ c ready (runs ∷ es) = sleep_test n ticks₀ c (sleep_loop n ticks₀ c falling es)
sleep_loop n ticks₀ c r (e ∷ es) = sleep_loop n ticks₀ (happens e c) (stirs e r) es

unfoldable pub sys_sleep : ℕ → Clock → List Event → Slept × Clock
unfolding duration sleep_test sleep_loop
sys_sleep word c es =
    let n = duration word in sleep_test n c.ticks c (sleep_loop n c.ticks c falling es)
