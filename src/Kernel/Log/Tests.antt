-- ===== src/Kernel/Log/Tests.antt =====
-- The log of kernel/log.c at concrete inputs.
use sleep_e_pingpong.Base.{
  ℕ, zero, suc, ◌+◌, ◌<◌, ◌≡◌, refl, ◌⊎◌, inl, false, none, some, List, [], ◌∷◌, ◌++◌, arith, ◌==◌,
  if◌then◌else◌, replicate,
}
use sleep_e_pingpong.Kernel.Log.{
  Block, Disk, update, logsize, Log, boot, initlog, modify, commit, log_write, begin_op, find_slot,
  log_at, bpin,
}
use sleep_e_pingpong.Kernel.Log.Disk.{Updates, in_log, Redo}
use sleep_e_pingpong.Kernel.Log.Commit.{Pending, Committed, commit-Committed}
use sleep_e_pingpong.Kernel.Log.Crash.{Recovers, commit_crash_atomic, commit_durable}
use sleep_e_pingpong.Kernel.Log.Recovery.{Ready, first, again, recovery_lem}
use sleep_e_pingpong.Kernel.Log.LogWrite.{Put, log_write-Put}
use sleep_e_pingpong.Kernel.Log.Calls.{World, Action, begin, write, finish, act, acts, write_call}
use sleep_e_pingpong.Kernel.Log.Reserve.{IsReserved, acts-IsReserved}

abbrev zeros : Block
zeros = replicate 256 0

abbrev ones : Block
ones = replicate 256 1

abbrev blank : Disk
blank = λ _. zeros

-- A transaction with block 40, in a log of 31 blocks from block 2 on.
abbrev one_block : Updates
one_block = (40, ones) ∷ []

abbrev open_log : Log
open_log = record {
  start = 2;
  size = 31;
  outstanding = 1;
  committing = false;
  n = 1;
  block = 40 ∷ replicate 29 0;
  view = update blank 40 ones;
  disk = blank;
  pins = λ x. if x == 40 then 1 else 0;
  history = [];
}

blank-Redo : (goal : Disk) → ((x : ℕ) → goal x ≡ zeros) → Redo 2 31 [] goal blank
blank-Redo goal e = record {
  count = refl;
  short = omega arith;
  fits = omega arith;
  room = omega arith;
  blocks = tt;
  contents = tt;
  outside = tt;
  redone = λ x _. ground (arith, e x);
}

open_log-Pending : Pending 2 31 one_block open_log
open_log-Pending = record {
  start = refl;
  size = refl;
  n = refl;
  short = omega arith;
  fits = omega arith;
  slots = omega arith;
  block = (refl, tt);
  values = (refl, tt);
  outside = (refl, tt);
  single = λ x. ground arith;
  pins = λ x. ground arith;
  clean = λ x m. ground arith;
  redo = blank-Redo blank (λ x. refl);
}

commit-Committed_example : Committed 2 31 open_log (commit open_log)
commit-Committed_example = commit-Committed 2 31 one_block open_log open_log-Pending (omega arith)

commit_crash_atomic_example : Recovers 2 31 blank blank ⊎ Recovers 2 31 (update blank 40 ones) blank
commit_crash_atomic_example =
    commit_crash_atomic 2 31 one_block open_log blank blank open_log-Pending (omega arith) refl
      (inl refl) (again first (inl refl))

commit_durable_example : Recovers 2 31 (update blank 40 ones) (commit open_log).disk
commit_durable_example =
    commit_durable 2 31 one_block open_log (commit open_log).disk open_log-Pending (omega arith)
      first

recovery_lem_example :
    Ready 2 31 blank (initlog 2 31 blank)
    × ((x : ℕ) → in_log 2 31 x ≡ false → (initlog 2 31 blank).disk x ≡ blank x)
recovery_lem_example = recovery_lem 2 31 blank blank blank ([], blank-Redo blank (λ x. refl)) first

log_write-Put_example :
    (s' : Log) × (log_write 40 (modify 40 zeros open_log) ≡ some s')
    × Put 2 31 40 zeros one_block open_log s'
log_write-Put_example =
    log_write-Put 2 31 40 zeros one_block open_log open_log-Pending refl (omega arith) (omega arith)
      (omega arith)

log_room : logsize < 31
log_room = omega arith

abbrev two_calls : World
two_calls = record { log = open_log; left = 9 ∷ [] }

two_calls-IsReserved : IsReserved 2 31 log_room two_calls
two_calls-IsReserved = (
  one_block,
  record {
    pending = open_log-Pending;
    quiet = refl;
    calls = refl;
    bounds = (omega arith, tt);
    reserved = omega arith;
  },
)

abbrev script : List Action
script = begin ∷ write 0 50 ones ∷ write 1 40 zeros ∷ finish 0 ∷ finish 0 ∷ begin ∷ []

acts-IsReserved_example :
    (w' : World) × (acts script two_calls ≡ some w') × IsReserved 2 31 log_room w'
acts-IsReserved_example =
    acts-IsReserved 2 31 log_room script two_calls (tt, (refl, (refl, (tt, (tt, (tt, tt))))))
      two_calls-IsReserved

-- `k` writes of call `j` to the blocks from `b` on.
abbrev writes : ℕ → ℕ → ℕ → List Action
writes zero j b = []
writes (suc k) j b = write j b ones ∷ writes k j (b + 1)

-- mkfs makes the log `LOGSIZE` blocks long, header included, so it holds one block less than
-- `begin_op` reserves: three calls that write their ten blocks each panic.
three_full_calls :
    acts
      (begin ∷ begin ∷ begin ∷ (writes 10 0 40 ++ (writes 10 1 50 ++ writes 10 2 60)))
      (record { log = boot 2 30 blank; left = [] })
    ≡ none
unfolding acts act begin_op write_call log_write find_slot log_at modify bpin boot
three_full_calls = refl
