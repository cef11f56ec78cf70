-- ===== src/Kernel/Pipe/Write.antt =====
-- What a run of `pipewrite` (kernel/pipe.c) has done when it returns, fails or sleeps.
use sleep_e_pingpong.Base.{
  ℕ, zero, suc, ◌+◌, ◌<◌, ◌≡◌, refl, ◌∙◌, sym, ◌⊎◌, inl, inr, Bool, true, not, ◌||◌, Option, none,
  some, List, [], ◌∷◌, ◌++◌, append-nil, append_assoc, arith, length, Bool-cases, Option-cases,
}
use native.Mathlib.Nat.{add-zero}
use sleep_e_pingpong.Kernel.Pipe.{
  Pipe, pipesize, is_full, put_byte, Run, Chan, nread_chan, nwrite_chan, Outcome, returned, failed,
  sleeping, pipewrite,
}
use sleep_e_pingpong.Kernel.Pipe.Queue.{
  IsValid, count, full_length, room_count, contents, put_byte-IsValid, contents-put_byte,
}

-- The caller's bytes from index `i` on are `got`.
abbrev pub CopiedIn : (ℕ → Option ℕ) → ℕ → List ℕ → Type 0
CopiedIn copyin i [] = Unit
CopiedIn copyin i (b ∷ bs) = (copyin i ≡ some b) × CopiedIn copyin (i + 1) bs

module _ (copyin : ℕ → Option ℕ) (killed : ℕ → Bool) where
  -- Why a run that stored `k` bytes stopped where it did.
  abbrev pub Stopped : (pi' : Pipe) (left i k : ℕ) → Outcome → Type 0
  Stopped pi' left i k (returned m) = (m ≡ i + k) × ((k ≡ left) ⊎ (k < left) × (copyin m ≡ none))
  Stopped pi' left i k failed = (k < left) × ((not pi'.readopen || killed (i + k)) ≡ true)
  Stopped pi' left i k (sleeping ch m) =
      (ch ≡ nwrite_chan) × (m ≡ i + k) × (k < left) × (length (contents pi') ≡ pipesize)

  -- The readers are woken, except on failure.
  abbrev pub Woke : Outcome → List Chan → Type 0
  Woke failed w = w ≡ []
  Woke _ w = w ≡ nread_chan ∷ []

  pub record Wrote (left i : ℕ) (pi : Pipe) (got : List ℕ) (r : Run) : Type 0 where
    pub valid : IsValid r.pipe
    pub copied : CopiedIn copyin i got
    pub queued : contents r.pipe ≡ contents pi ++ got
    pub entered : (got ≡ []) ⊎ (pi.readopen ≡ true)
    pub stopped : Stopped r.pipe left i (length got) r.outcome
    pub woke : Woke r.outcome r.woken
    pub readopen : r.pipe.readopen ≡ pi.readopen
    pub writeopen : r.pipe.writeopen ≡ pi.writeopen

  Stopped-suc :
      (p : Pipe) (left i k : ℕ) (o : Outcome)
      → Stopped p left (i + 1) k o
      → Stopped p (suc left) i (suc k) o
  Stopped-suc p left i k (returned m) s = (omega arith, ground arith)
  Stopped-suc p left i k failed s =
      let e : i + 1 + k ≡ i + suc k = omega arith in (omega arith, rw e at s.1)
  Stopped-suc p left i k (sleeping ch m) s = (s.0, omega arith, omega arith, s.3)

  -- A byte that fits is stored, and the rest of the run follows.
  Wrote-byte :
      {left i ch : ℕ} {pi : Pipe} {got : List ℕ} {r : Run}
      → copyin i ≡ some ch
      → pi.readopen ≡ true
      → count pi < pipesize
      → IsValid pi
      → Wrote left (i + 1) (put_byte pi ch) got r
      → Wrote (suc left) i pi (ch ∷ got) r
  unfolding put_byte
  Wrote-byte {left} {i} {ch} {pi} {got} {r} e o room v w = record {
    valid = w.valid;
    copied = (e, w.copied);
    queued = w.queued ∙ rw (contents-put_byte v ch room) (append_assoc (contents pi) (ch ∷ []) got);
    entered = inr o;
    stopped = Stopped-suc r.pipe left i (length got) r.outcome w.stopped;
    woke = w.woke;
    readopen = w.readopen;
    writeopen = w.writeopen;
  }

  -- The run stops before any byte.
  Wrote-none :
      {left i : ℕ} {pi : Pipe} (o : Outcome) (w : List Chan)
      → IsValid pi
      → Stopped pi left i 0 o
      → Woke o w
      → Wrote left i pi [] (record { outcome = o; pipe = pi; woken = w })
  Wrote-none {pi} o w v s k = record {
    valid = v;
    copied = tt;
    queued = sym (append-nil (contents pi));
    entered = inl refl;
    stopped = s;
    woke = k;
    readopen = refl;
    writeopen = refl;
  }

  -- A run of `pipewrite` on a valid pipe, whatever the caller's memory and the kill flag do, ends
  -- with a valid pipe that holds in addition, in order, exactly the bytes it took from the caller.
  -- It returns the count where all `n` are in or `copyin` failed, fails only where the read end is
  -- closed or the caller killed, and sleeps on `nwrite` only with the queue full. It wakes the
  -- readers unless it fails, and leaves the open flags alone.
  pub pipewrite-Wrote :
      (left i : ℕ) (pi : Pipe)
      → IsValid pi
      → (got : List ℕ) × Wrote left i pi got (pipewrite copyin killed left i pi)
  unfolding pipewrite
  pipewrite-Wrote zero i pi v = ([], Wrote-none _ _ v (omega arith, inl refl) refl)
  pipewrite-Wrote (suc left) i pi v = elim (Bool-cases (not pi.readopen || killed i)) [
    | inl stop ↦ rw stop ([], Wrote-none _ _ v (omega arith, rw add-zero stop) refl)
    | inr go ↦ rw go (elim (Bool-cases (is_full pi)) [
      | inl full ↦
          rw full ([], Wrote-none _ _ v (refl, omega arith, omega arith, full_length v full) refl)
      | inr room ↦ rw room (elim (Option-cases (copyin i)) [
        | inl bad ↦ rw bad ([], Wrote-none _ _ v (omega arith, inr (omega arith, bad)) refl)
        | inr (ch, good) ↦
            let fits : count pi < pipesize = room_count v room in
            let (got, w) =
              pipewrite-Wrote left (i + 1) (put_byte pi ch) (put_byte-IsValid v ch fits) in
            rw good (ch ∷ got, Wrote-byte good (ground arith) fits v w)
      ])
    ])
  ]
