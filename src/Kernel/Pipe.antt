-- ===== src/Kernel/Pipe.antt =====
-- kernel/pipe.c: the ring of a pipe, and the reads and writes that sleep on it.
-- A call runs under `pi->lock`; it is cut where it sleeps, and an outcome says where.
pub mod Fifo
pub mod Queue
mod Tests
pub mod Read
pub mod Write
use sleep_e_pingpong.Base.{
  uint_mod, ℕ, zero, suc, ◌+◌, ◌-◌, ◌%◌, ◌^◌, Bool, true, false, not, ◌&&◌, ◌||◌, Option, none,
  some, List, [], ◌∷◌, ◌++◌, ltb, ◌==◌, if◌then◌else◌, get_or, set, replicate,
}

-- `PIPESIZE`
abbrev pub pipesize : ℕ
pipesize = 512

-- `struct pipe`, less its lock.
pub record Pipe : Type 0 where
  pub bytes : List ℕ
  pub nread : ℕ
  pub nwrite : ℕ
  pub readopen : Bool
  pub writeopen : Bool

-- The sleep channels `&pi->nread` and `&pi->nwrite`.
pub data Chan : Type 0 where
  nread_chan nwrite_chan : Chan

-- The fields as `pipealloc` sets them; the bytes are whatever the page held.
unfoldable pub pipe_init : List ℕ → Pipe
pipe_init page = record { bytes = page; nread = 0; nwrite = 0; readopen = true; writeopen = true }

-- What `pipeclose` leaves: the pipe, the channel woken, and whether its page is freed.
pub record Closed : Type 0 where
  pub pipe : Pipe
  pub woken : Chan
  pub freed : Bool

unfoldable pub pipeclose : Pipe → Bool → Closed
pipeclose pi writable =
    let pi' =
      if writable then record pi { writeopen = false } else record pi { readopen = false } in
    record {
      pipe = pi';
      woken = if writable then nread_chan else nwrite_chan;
      freed = not pi'.readopen && not pi'.writeopen;
    }

-- How a run of a call ends: it returns `i`, returns -1, or sleeps on a channel at count `i`.
pub data Outcome : Type 0 where
  returned : ℕ → Outcome
  failed : Outcome
  sleeping : Chan → ℕ → Outcome

-- The outcome, the pipe, and the channels woken, in order.
pub record Run : Type 0 where
  pub outcome : Outcome
  pub pipe : Pipe
  pub woken : List Chan

unfoldable pub is_full : Pipe → Bool
is_full pi = pi.nwrite == (pi.nread + pipesize) % uint_mod

unfoldable pub is_empty : Pipe → Bool
is_empty pi = pi.nread == pi.nwrite

-- `pi->data[pi->nwrite++ % PIPESIZE] = ch`
unfoldable pub put_byte : Pipe → ℕ → Pipe
put_byte pi ch = record pi {
  bytes = set pi.bytes (pi.nwrite % pipesize) ch;
  nwrite = (pi.nwrite + 1) % uint_mod;
}

-- `ch = pi->data[pi->nread++ % PIPESIZE]`
unfoldable pub next_byte : Pipe → ℕ
next_byte pi = get_or pi.bytes (pi.nread % pipesize) 0

unfoldable pub take_byte : Pipe → Pipe
take_byte pi = record pi { nread = (pi.nread + 1) % uint_mod }

-- `copyin` gives the byte at `addr + i` of the caller, none for -1; `killed` is what the check
-- before byte `i` reads.
module _ (copyin : ℕ → Option ℕ) (killed : ℕ → Bool) where
  -- The loop of `pipewrite` from count `i` with `left = n - i` to go, up to its next sleep.
  unfoldable pub pipewrite : ℕ → ℕ → Pipe → Run
  pipewrite zero i pi = record { outcome = returned i; pipe = pi; woken = nread_chan ∷ [] }
  pipewrite (suc left) i pi =
      if not pi.readopen || killed i
      then record { outcome = failed; pipe = pi; woken = [] }
      else if is_full pi
      then record { outcome = sleeping nwrite_chan i; pipe = pi; woken = nread_chan ∷ [] }
      else elim (copyin i) [
        | none ↦ record { outcome = returned i; pipe = pi; woken = nread_chan ∷ [] }
        | some ch ↦ pipewrite left (i + 1) (put_byte pi ch)
      ]

-- The caller's memory takes byte `i` unless `copyout i` is false. The bytes it gets are listed.
module _ (copyout : ℕ → Bool) where
  -- The copy loop of `piperead`, `left = n - i`: the count, the bytes delivered, the pipe.
  unfoldable pub read_loop : ℕ → ℕ → Pipe → ℕ × List ℕ × Pipe
  read_loop zero i pi = (i, [], pi)
  read_loop (suc left) i pi =
      let rest = read_loop left (i + 1) (take_byte pi) in
      if is_empty pi
      then (i, [], pi)
      else if copyout i
      then (rest.0, next_byte pi ∷ rest.1, rest.2)
      else (i, [], take_byte pi)

  -- A run of `piperead` from the head of its waiting loop, with what `killed` says there.
  unfoldable pub piperead : Bool → ℕ → Pipe → Run × List ℕ
  unfolding read_loop
  piperead killed n pi =
      if is_empty pi && pi.writeopen
      then if killed
        then (record { outcome = failed; pipe = pi; woken = [] }, [])
        else (record { outcome = sleeping nread_chan 0; pipe = pi; woken = [] }, [])
      else let (i, got, pi') = read_loop n 0 pi in
        (record { outcome = returned i; pipe = pi'; woken = nwrite_chan ∷ [] }, got)
