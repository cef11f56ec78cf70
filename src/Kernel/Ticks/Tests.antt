-- ===== src/Kernel/Ticks/Tests.antt =====
-- The clock of kernel/trap.c at concrete inputs.
use sleep_e_pingpong.Base.{
  int_max, uint_mod, ◌<◌, ◌≡◌, refl, false, List, [], ◌∷◌, leb, if◌then◌else◌, arith,
}
use sleep_e_pingpong.Kernel.Ticks.{
  Clock, Event, timer, kill, blocks, runs, sys_sleep, clockintr, happens, stirs, duration, elapsed,
  sleep_test, sleep_loop, returned, interrupted,
}
use sleep_e_pingpong.Kernel.Ticks.Wait.{tick_count, SleepRun}
use sleep_e_pingpong.Kernel.Ticks.Sleep.{sys_sleep-SleepRun}

-- One tick before the counter wraps around.
abbrev late : Clock
late = record { ticks = 4294967295; killed = false }

abbrev three_ticks : List Event
three_ticks = blocks ∷ timer 0 ∷ timer 1 ∷ runs ∷ blocks ∷ timer 0 ∷ timer 0 ∷ runs ∷ []

sleeps_over_wrap : sys_sleep 3 late three_ticks ≡ (returned, record { ticks = 2; killed = false })
unfolding sys_sleep sleep_loop sleep_test stirs duration elapsed happens clockintr
sleeps_over_wrap = refl

killed_in_time : (sys_sleep 3 late (blocks ∷ timer 0 ∷ kill ∷ timer 0 ∷ runs ∷ [])).0 ≡ interrupted
unfolding sys_sleep sleep_loop sleep_test stirs duration elapsed happens clockintr
killed_in_time = refl

-- The last tick comes after the kill, and before the process runs.
killed_too_late : (sys_sleep 1 late (blocks ∷ kill ∷ timer 0 ∷ runs ∷ [])).0 ≡ returned
unfolding sys_sleep sleep_loop sleep_test stirs duration elapsed happens clockintr
killed_too_late = refl

late_bound : late.ticks < uint_mod
late_bound = omega arith

few_ticks : tick_count three_ticks < uint_mod
few_ticks = omega arith

sys_sleep-SleepRun_example :
    SleepRun (if leb 3 int_max then 3 else 0) false three_ticks (sys_sleep 3 late three_ticks).0
sys_sleep-SleepRun_example = sys_sleep-SleepRun 3 late three_ticks late_bound few_ticks
