-- ===== src/Kernel/Proc/Tests.antt =====
-- The process table of kernel/proc.c at concrete inputs.
use sleep_e_pingpong.Base.{int_max, ◌≤◌, ◌+◌, ℕ, ◌≡◌, refl, ◌≢◌, true, some, set, arith}
use sleep_e_pingpong.Kernel.Proc.{
  start_first, unused, running, is_state, slot, blank, Table, at, put, boot_table, userinit,
  allocproc, alloc_slot, allocpid, find_unused, dup_files, fork_slot, fork,
}
use sleep_e_pingpong.Kernel.Sched.{wakeup, exit, wait_round, schedule, kill}
use sleep_e_pingpong.Kernel.Proc.Boot.{
  HasParent, booted, first_proc, booted-IsOrdered, reached-IsOrdered,
}
use sleep_e_pingpong.Kernel.Proc.Fork.{child, ForkRun, fork-ForkRun}
use sleep_e_pingpong.Kernel.Proc.Wait.{WaitRun, wait_round-WaitRun}
use sleep_e_pingpong.Kernel.Proc.Kill.{KillEffect, kill-KillEffect}
use sleep_e_pingpong.Kernel.Proc.KillZero.{StillBorn, kill_zero-fork}
use sleep_e_pingpong.Kernel.Proc.Exit.{Exited, exit-Exited}
use sleep_e_pingpong.Kernel.Proc.Moves.{IsOrdered}
use sleep_e_pingpong.Kernel.Proc.Steps.{
  fork_count, Steps, stop, more, forking, choosing, Steps-IsOrdered,
}
use sleep_e_pingpong.Kernel.Proc.Wakeup.{WakeupRun, wakeup-WakeupRun}

-- The first process runs, and then its first child too.
abbrev one_running : Table
one_running = put (booted 5 6 9) 0 (record (first_proc 5 6 9) { state = running })

abbrev two : Table
two = record one_running {
  procs = set one_running.procs 1 (child 2 7 8 0 (at one_running 0) blank.ofile blank);
  nextpid = 3;
}

abbrev two_running : Table
two_running = put two 1 (record (at two 1) { state = running })

abbrev to_one : Steps (booted 5 6 9) one_running
unfolding schedule is_state
to_one = more stop (choosing 0 one_running refl)

abbrev to_two : Steps (booted 5 6 9) two
unfolding fork fork_slot allocproc alloc_slot allocpid find_unused dup_files is_state
to_two = more to_one (forking 0 7 8 true two refl refl)

abbrev to_two_running : Steps (booted 5 6 9) two_running
unfolding schedule is_state
to_two_running = more to_two (choosing 1 two_running refl)

one-IsOrdered : IsOrdered one_running
unfolding to_one
one-IsOrdered =
    (Steps-IsOrdered (booted 5 6 9) one_running to_one (omega arith) (booted-IsOrdered 5 6 9)).0

two-IsOrdered : IsOrdered two_running
unfolding to_two_running to_two to_one
two-IsOrdered =
    (Steps-IsOrdered (booted 5 6 9) two_running to_two_running (omega arith)
      (booted-IsOrdered 5 6 9)).0

few_forks : fork_count to_two_running + 2 ≤ int_max
unfolding to_two_running to_two to_one
few_forks = omega arith

-- Two pages.
abbrev frame : ℕ
frame = 5

abbrev root_table : ℕ
root_table = 6

frame_given : frame ≢ 0
frame_given h = absurd (omega arith)

table_given : root_table ≢ 0
table_given h = absurd (omega arith)

in_use : (at one_running 0).state ≢ unused
in_use h = absurd cc

boots : userinit 5 6 9 boot_table ≡ some (booted 5 6 9)
unfolding userinit start_first allocproc alloc_slot allocpid find_unused is_state
boots = refl

reached-IsOrdered_example : IsOrdered two_running × HasParent two_running
reached-IsOrdered_example =
    reached-IsOrdered 5 6 9 (booted 5 6 9) two_running to_two_running frame_given table_given boots
      few_forks

fork-ForkRun_example : ForkRun 0 7 8 true one_running (fork 0 7 8 true one_running)
fork-ForkRun_example = fork-ForkRun 0 7 8 true one_running in_use

wait_round-WaitRun_example : WaitRun 0 true two_running (wait_round 0 true two_running)
wait_round-WaitRun_example = wait_round-WaitRun 0 true two_running

kill-KillEffect_example : KillEffect 2 two_running (kill 2 two_running)
kill-KillEffect_example = kill-KillEffect 2 two_running

kill_zero-fork_example :
    (t' : Table) × (kill 0 one_running ≡ some t')
    × (pid : ℕ) × (t'' : Table) × (fork 0 5 6 true t' ≡ (some pid, t''))
    × (i : ℕ) × StillBorn 0 i t''
kill_zero-fork_example =
    kill_zero-fork 0 5 6 1 one_running one-IsOrdered.0 (omega arith) refl refl frame_given
      table_given

first_other : two_running.initproc ≢ 1
first_other h = absurd (omega arith)

exit-Exited_example : (t' : Table) × (exit 1 3 two_running ≡ some t') × Exited 1 3 t'
exit-Exited_example = exit-Exited 1 3 two_running refl first_other two-IsOrdered.0 two-IsOrdered.1

wakeup-WakeupRun_example : WakeupRun 1 (slot 0) two_running (wakeup 1 (slot 0) two_running)
wakeup-WakeupRun_example = wakeup-WakeupRun 1 (slot 0) two_running
