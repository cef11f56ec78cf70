-- ===== src/Kernel/Pipe/Fifo.antt =====
-- Any sequence of runs of `pipewrite`, `piperead` and `pipeclose` on one pipe (kernel/pipe.c):
-- what the callers are told they wrote is what the readers get, in order.
use sleep_e_pingpong.Base.{
  ℕ, suc, ◌+◌, ◌-◌, ◌≤◌, ◌≡◌, refl, ◌∙◌, sym, ◌⊎◌, inl, inr, Bool, true, false, List, [], ◌∷◌, ◌++◌,
  append_assoc, arith, length, get_elem?, take, drop, drop_step,
}
use native.Mathlib.Numerals.{add-one}
use sleep_e_pingpong.Kernel.Pipe.{
  Pipe, pipesize, Run, Chan, Outcome, returned, failed, sleeping, pipewrite, piperead, pipeclose,
  pipe_init,
}
use sleep_e_pingpong.Kernel.Pipe.Queue.{IsValid, contents, length-contents, pipe_init-IsValid}
use sleep_e_pingpong.Kernel.Pipe.Write.{CopiedIn, Stopped, pipewrite-Wrote}
use sleep_e_pingpong.Kernel.Pipe.Read.{Finished, piperead-ReadRun}

-- A run of a call: `write src i` enters or resumes the writing of `src` at count `i`.
pub data Call : Type 0 where
  write : List ℕ → ℕ → Call
  read : ℕ → Call
  close : Bool → Call

-- How many bytes of a write are in, by what the run reports; a failed one says nothing.
abbrev pub progress : ℕ → Outcome → ℕ
progress i (returned m) = m - i
progress i failed = 0
progress i (sleeping ch m) = m - i

-- No caller is killed, and user memory can be read and written.
abbrev pub write_run : List ℕ → ℕ → Pipe → Run
write_run src i pi = pipewrite (get_elem? src) (λ _. false) (length src - i) i pi

abbrev pub read_run : ℕ → Pipe → Run × List ℕ
read_run n pi = piperead (λ _. true) false n pi

pub record Trace : Type 0 where
  pub pipe : Pipe
  pub accepted : List ℕ
  pub delivered : List ℕ

unfoldable pub run_call : Call → Trace → Trace
run_call (write src i) t =
    let r = write_run src i t.pipe in
    record {
      pipe = r.pipe;
      accepted = t.accepted ++ take (progress i r.outcome) (drop i src);
      delivered = t.delivered;
    }
run_call (read n) t =
    let (r, got) = read_run n t.pipe in
    record { pipe = r.pipe; accepted = t.accepted; delivered = t.delivered ++ got }
run_call (close writable) t = record t { pipe = (pipeclose t.pipe writable).pipe }

unfoldable pub run_calls : List Call → Trace → Trace
run_calls [] t = t
run_calls (c ∷ cs) t = run_calls cs (run_call c t)

take-drop-CopiedIn :
    (src : List ℕ) (i : ℕ) (got : List ℕ)
    → CopiedIn (get_elem? src) i got
    → take (length got) (drop i src) ≡ got
take-drop-CopiedIn src i [] c = refl
take-drop-CopiedIn src i (b ∷ bs) c =
    let next : take (length bs) (drop (suc i) src) ≡ bs =
      rw add-one at (take-drop-CopiedIn src (i + 1) bs c.1) in
    rw (drop_step src i c.0, next)

-- The outcome tells how many bytes are in: a run that fails has stored none.
progress_lem :
    (src : List ℕ) (i left : ℕ) (pi p : Pipe) (got : List ℕ) (o : Outcome)
    → (got ≡ []) ⊎ (pi.readopen ≡ true)
    → p.readopen ≡ pi.readopen
    → Stopped (get_elem? src) (λ _. false) p left i (length got) o
    → progress i o ≡ length got
progress_lem src i left pi p got (returned m) e same s = omega arith
progress_lem src i left pi p got failed (inl e) same s = rw e
progress_lem src i left pi p got failed (inr e) same s = ground arith
progress_lem src i left pi p got (sleeping ch m) e same s = omega arith

-- The bytes that entered the ring are those the outcome reports.
write_run_lem :
    (src : List ℕ) (i : ℕ) {pi : Pipe}
    → IsValid pi
    → let r = write_run src i pi in
      IsValid r.pipe × (contents r.pipe ≡ contents pi ++ take (progress i r.outcome) (drop i src))
write_run_lem src i {pi} v =
    let (got, w) = pipewrite-Wrote (get_elem? src) (λ _. false) (length src - i) i pi v in
    let r = write_run src i pi in
    let p =
      progress_lem src i (length src - i) pi r.pipe got r.outcome w.entered w.readopen w.stopped in
    (w.valid, rw (p, take-drop-CopiedIn src i got w.copied) w.queued)

none_lost :
    (killed : Bool) (n : ℕ) (pi : Pipe) (got : List ℕ) {lost : List ℕ} (woken : List Chan)
    (o : Outcome)
    → Finished (λ _. true) killed n pi got lost o woken
    → lost ≡ []
none_lost killed n pi got woken (returned m) f = ground arith
none_lost killed n pi got woken failed f = f.3
none_lost killed n pi got woken (sleeping ch m) f = f.5

-- A read loses nothing: what the pipe held is what was read and what it holds now.
read_run_lem :
    (n : ℕ) {pi : Pipe}
    → IsValid pi
    → let (r, got) = read_run n pi in IsValid r.pipe × (contents pi ≡ got ++ contents r.pipe)
read_run_lem n {pi} v =
    let (lost, r) = piperead-ReadRun (λ _. true) false n pi v in
    let empty : lost ≡ [] = none_lost false n pi _ _ (read_run n pi).0.outcome r.finished in
    (r.valid, rw empty at r.split)

pub record IsFifo (t : Trace) : Type 0 where
  pub valid : IsValid t.pipe
  pub order : t.accepted ≡ t.delivered ++ contents t.pipe

pipeclose-contents :
    (pi : Pipe) (w : Bool)
    → IsValid pi
    → IsValid (pipeclose pi w).pipe × (contents (pipeclose pi w).pipe ≡ contents pi)
unfolding pipeclose
pipeclose-contents pi true v = (omega arith, refl)
pipeclose-contents pi false v = (omega arith, refl)

pipe_init-contents : (page : List ℕ) → [] ≡ contents (pipe_init page)
unfolding pipe_init
pipe_init-contents page = refl

run_call-IsFifo : (c : Call) {t : Trace} → IsFifo t → IsFifo (run_call c t)
unfolding run_call
run_call-IsFifo (write src i) {t} f =
    let (v, q) = write_run_lem src i f.valid in
    record { valid = v; order = rw (f.order, q) (append_assoc t.delivered _ _) }
run_call-IsFifo (read n) {t} f =
    let (v, q) = read_run_lem n f.valid in
    record { valid = v; order = f.order ∙ rw q (sym (append_assoc t.delivered _ _)) }
run_call-IsFifo (close w) {t} f =
    let (v, q) = pipeclose-contents t.pipe w f.valid in record { valid = v; order = rw q f.order }

run_calls-IsFifo : (cs : List Call) {t : Trace} → IsFifo t → IsFifo (run_calls cs t)
unfolding run_calls
run_calls-IsFifo [] f = f
run_calls-IsFifo (c ∷ cs) f = run_calls-IsFifo cs (run_call-IsFifo c f)

-- A new pipe, in a page that holds anything.
abbrev pub start : List ℕ → Trace
start page = record { pipe = pipe_init page; accepted = []; delivered = [] }

-- After any sequence of runs of `pipewrite` (entered or resumed), `piperead` and `pipeclose` on a
-- new pipe, by callers that are not killed and whose memory is mapped, the bytes that the writers
-- were told are in are those that the readers got, in order, followed by those that the ring still
-- holds, at most `PIPESIZE`: none is lost, doubled or reordered, also where the counters wrap.
pub run_calls_fifo :
    (page : List ℕ) (cs : List Call)
    → length page ≡ pipesize
    → let t = run_calls cs (start page) in
      (t.accepted ≡ t.delivered ++ contents t.pipe) × (length (contents t.pipe) ≤ pipesize)
run_calls_fifo page cs h =
    let f =
      run_calls-IsFifo cs {t = start page}
        (record { valid = pipe_init-IsValid page h; order = pipe_init-contents page }) in
    (f.order, rw (length-contents (run_calls cs (start page)).pipe) f.valid.within)
