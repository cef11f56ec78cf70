-- ===== src/Kernel/Pipe/Tests.antt =====
-- Runs of the pipe of kernel/pipe.c at concrete inputs.
use sleep_e_pingpong.Base.{
  ℕ, ◌-◌, ◌^◌, ◌≤◌, ◌≡◌, refl, true, false, List, [], ◌∷◌, ◌++◌, arith, length, get_elem?,
  replicate,
}
use sleep_e_pingpong.Kernel.Pipe.{Pipe, pipesize, pipewrite, piperead, is_full, put_byte}
use sleep_e_pingpong.Kernel.Pipe.Queue.{IsValid, contents}
use sleep_e_pingpong.Kernel.Pipe.Write.{Wrote, pipewrite-Wrote}
use sleep_e_pingpong.Kernel.Pipe.Read.{ReadRun, piperead-ReadRun}
use sleep_e_pingpong.Kernel.Pipe.Fifo.{Call, write, read, close, run_calls, start, run_calls_fifo}

-- A pipe whose write counter is about to wrap.
abbrev near_wrap : Pipe
near_wrap = record {
  bytes = replicate 512 7;
  nread = 2 ^ 32 - 2;
  nwrite = 2 ^ 32 - 1;
  readopen = true;
  writeopen = true;
}

near_wrap-IsValid : IsValid near_wrap
near_wrap-IsValid = record {
  size = refl;
  nread_in = omega arith;
  nwrite_in = omega arith;
  within = omega arith;
}

abbrev src : List ℕ
src = 1 ∷ 2 ∷ 3 ∷ []

wrapped_contents : contents (pipewrite (get_elem? src) (λ _. false) 3 0 near_wrap).pipe ≡ 7 ∷ src
unfolding pipewrite is_full put_byte
wrapped_contents = refl

pipewrite-Wrote_example :
    (got : List ℕ) × Wrote
      (get_elem? src)
      (λ _. false)
      3
      0
      near_wrap
      got
      (pipewrite (get_elem? src) (λ _. false) 3 0 near_wrap)
pipewrite-Wrote_example =
    pipewrite-Wrote (get_elem? src) (λ _. false) 3 0 near_wrap near_wrap-IsValid

piperead-ReadRun_example :
    (lost : List ℕ) × ReadRun
      (λ _. true)
      false
      5
      near_wrap
      lost
      (piperead (λ _. true) false 5 near_wrap)
piperead-ReadRun_example = piperead-ReadRun (λ _. true) false 5 near_wrap near_wrap-IsValid

abbrev page : List ℕ
page = replicate 512 0

abbrev script : List Call
script = write src 0 ∷ read 2 ∷ close true ∷ read 5 ∷ []

run_calls_fifo_example :
    let t = run_calls script (start page) in
    (t.accepted ≡ t.delivered ++ contents t.pipe) × (length (contents t.pipe) ≤ pipesize)
run_calls_fifo_example = run_calls_fifo page script refl
