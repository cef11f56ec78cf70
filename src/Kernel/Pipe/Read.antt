-- ===== src/Kernel/Pipe/Read.antt =====
-- What a run of `piperead` (kernel/pipe.c) has done when it returns, fails or sleeps.
use sleep_e_pingpong.Base.{
  ℕ, zero, suc, ◌+◌, ◌<◌, min, ◌≡◌, refl, ◌∙◌, sym, ap, ◌≢◌, ◌⊎◌, inl, inr, Bool, true, false, List,
  [], ◌∷◌, ◌++◌, arith, length, Bool-cases, if◌then◌else◌,
}
use sleep_e_pingpong.Kernel.Pipe.{
  Pipe, is_empty, take_byte, next_byte, Run, Chan, nread_chan, nwrite_chan, Outcome, returned,
  failed, sleeping, read_loop, piperead,
}
use sleep_e_pingpong.Kernel.Pipe.Queue.{
  IsValid, count, contents, length-contents, empty_contents, some_count, take_byte-IsValid,
  contents-take_byte, take_byte_opens,
}

module _ (copyout : ℕ → Bool) where
  -- Why the loop stopped: all that was asked or was there is delivered, or the caller's memory
  -- refused a byte, and that byte is gone from the pipe.
  abbrev pub Ended : (left have m : ℕ) (got lost : List ℕ) → Type 0
  Ended left have m got lost =
      ((lost ≡ []) × (length got ≡ min left have))
      ⊎ ((length lost ≡ 1) × (copyout m ≡ false) × (length got < left))

  pub record Got (left i : ℕ) (pi : Pipe) (lost : List ℕ) (r : ℕ × List ℕ × Pipe) : Type 0 where
    pub valid : IsValid r.2
    pub split : contents pi ≡ r.1 ++ (lost ++ contents r.2)
    pub counted : r.0 ≡ i + length r.1
    pub ended : Ended left (length (contents pi)) r.0 r.1 lost
    pub readopen : r.2.readopen ≡ pi.readopen
    pub writeopen : r.2.writeopen ≡ pi.writeopen

  Ended-suc :
      (left have m : ℕ) (b : ℕ) (got lost : List ℕ)
      → Ended left have m got lost
      → Ended (suc left) (suc have) m (b ∷ got) lost
  Ended-suc left have m b got lost (inl (none_lost, k)) = inl (none_lost, omega arith)
  Ended-suc left have m b got lost (inr (one, refused, k)) = inr (one, refused, omega arith)

  Got-byte :
      {left i : ℕ} {pi : Pipe} {lost : List ℕ} (r : ℕ × List ℕ × Pipe)
      → IsValid pi
      → count pi ≢ 0
      → Got left (i + 1) (take_byte pi) lost r
      → Got (suc left) i pi lost (r.0, next_byte pi ∷ r.1, r.2)
  Got-byte {left} {i} {pi} {lost} r v some_left g =
      let e = contents-take_byte v some_left in
      record {
        valid = g.valid;
        split = e ∙ ap (λ l. next_byte pi ∷ l) g.split;
        counted = omega (arith, g.counted);
        ended =
            rw e (
              Ended-suc left (length (contents (take_byte pi))) r.0 (next_byte pi) r.1 lost
                g.ended);
        readopen = g.readopen ∙ (take_byte_opens pi).0;
        writeopen = g.writeopen ∙ (take_byte_opens pi).1;
      }

  pub read_loop-Got :
      (left i : ℕ) (pi : Pipe)
      → IsValid pi
      → (lost : List ℕ) × Got left i pi lost (read_loop copyout left i pi)
  unfolding read_loop
  read_loop-Got zero i pi v = (
    [],
    record {
      valid = v;
      split = refl;
      counted = omega arith;
      ended = inl (refl, omega arith);
      readopen = refl;
      writeopen = refl;
    },
  )
  read_loop-Got (suc left) i pi v = elim (Bool-cases (is_empty pi)) [
    | inl empty ↦ rw empty (
      [],
      record {
        valid = v;
        split = refl;
        counted = omega arith;
        ended = inl (refl, rw (empty_contents v empty) (omega arith));
        readopen = refl;
        writeopen = refl;
      },
    )
    | inr more ↦ rw more (elim (Bool-cases (copyout i)) [
      | inl taken ↦
          let some_left = some_count v more in
          let (lost, g) =
            read_loop-Got left (i + 1) (take_byte pi) (take_byte-IsValid v some_left) in
          rw taken (lost, Got-byte _ v some_left g)
      | inr refused ↦ rw refused (
        next_byte pi ∷ [],
        record {
          valid = take_byte-IsValid v (some_count v more);
          split = contents-take_byte v (some_count v more);
          counted = omega arith;
          ended = inr (refl, refused, omega arith);
          readopen = (take_byte_opens pi).0;
          writeopen = (take_byte_opens pi).1;
        },
      )
    ])
  ]

  -- How a run with `killed` as read ends, and when.
  abbrev pub Finished :
      (killed : Bool) (n : ℕ) (pi : Pipe) (got lost : List ℕ) → Outcome → List Chan → Type 0
  Finished killed n pi got lost (returned m) woken =
      (m ≡ length got)
      × ((contents pi ≢ []) ⊎ (pi.writeopen ≡ false))
      × Ended n (length (contents pi)) m got lost
      × (woken ≡ nwrite_chan ∷ [])
  Finished killed n pi got lost failed woken =
      (contents pi ≡ []) × (pi.writeopen ≡ true) × (killed ≡ true) × (lost ≡ []) × (woken ≡ [])
  Finished killed n pi got lost (sleeping ch m) woken =
      (contents pi ≡ [])
      × (pi.writeopen ≡ true)
      × (killed ≡ false)
      × (ch ≡ nread_chan)
      × (m ≡ 0)
      × (lost ≡ [])
      × (woken ≡ [])

  pub record ReadRun (killed : Bool) (n : ℕ) (pi : Pipe) (lost : List ℕ) (run : Run × List ℕ)
      : Type 0 where
    pub valid : IsValid run.0.pipe
    pub split : contents pi ≡ run.1 ++ (lost ++ contents run.0.pipe)
    pub finished : Finished killed n pi run.1 lost run.0.outcome run.0.woken
    pub readopen : run.0.pipe.readopen ≡ pi.readopen
    pub writeopen : run.0.pipe.writeopen ≡ pi.writeopen

  contents-ne-nil : {pi : Pipe} → IsValid pi → is_empty pi ≡ false → contents pi ≢ []
  contents-ne-nil {pi} v h e = some_count v h (sym (length-contents pi) ∙ ap length e)

  returns_read :
      {killed : Bool} {n : ℕ} {pi : Pipe} {lost : List ℕ} (r : ℕ × List ℕ × Pipe)
      → ((contents pi ≢ []) ⊎ (pi.writeopen ≡ false))
      → Got n 0 pi lost r
      → ReadRun killed n pi lost
          (record { outcome = returned r.0; pipe = r.2; woken = nwrite_chan ∷ [] }, r.1)
  returns_read r why g = record {
    valid = g.valid;
    split = g.split;
    finished = (omega (arith, g.counted), why, g.ended, refl);
    readopen = g.readopen;
    writeopen = g.writeopen;
  }

  -- Nothing is read while a writer may still come.
  blocked_read :
      {n : ℕ} {pi : Pipe} (killed : Bool)
      → IsValid pi
      → contents pi ≡ []
      → pi.writeopen ≡ true
      → ReadRun killed n pi [] (
          if killed
          then (record { outcome = failed; pipe = pi; woken = [] }, [])
          else (record { outcome = sleeping nread_chan 0; pipe = pi; woken = [] }, []))
  blocked_read true v e w = record {
    valid = v;
    split = refl;
    finished = (e, w, refl, refl, refl);
    readopen = refl;
    writeopen = refl;
  }
  blocked_read false v e w = record {
    valid = v;
    split = refl;
    finished = (e, w, refl, refl, refl, refl, refl);
    readopen = refl;
    writeopen = refl;
  }

  -- A run of `piperead` on a valid pipe ends with a valid pipe, and what the pipe held is the bytes
  -- delivered, then those lost, then what it holds. It sleeps on `nread`, or fails if killed, exactly
  -- where the queue is empty and the write end open. Otherwise it returns how many it delivered, all
  -- that was asked or was there with none lost, or up to a failing `copyout`, which loses one byte;
  -- and then it wakes the writers. The open flags are left alone.
  pub piperead-ReadRun :
      (killed : Bool) (n : ℕ) (pi : Pipe)
      → IsValid pi
      → (lost : List ℕ) × ReadRun killed n pi lost (piperead copyout killed n pi)
  unfolding piperead
  piperead-ReadRun killed n pi v =
      let (lost, g) = read_loop-Got n 0 pi v in
      elim (Bool-cases (is_empty pi)) [
        | inl empty ↦ rw empty (elim (Bool-cases pi.writeopen) [
          | inl still ↦ simp still ([], blocked_read killed v (empty_contents v empty) still)
          | inr shut ↦ simp shut (lost, returns_read (read_loop copyout n 0 pi) (inr shut) g)
        ])
        | inr more ↦
            rw more (lost, returns_read (read_loop copyout n 0 pi) (inl (contents-ne-nil v more)) g)
      ]
