-- ===== src/Kernel/Log/Reserve.antt =====
-- The reservations of kernel/log.c: file system calls between `begin_op` and `end_op`, each with at
-- most `MAXOPBLOCKS` writes, in any interleaving.
use sleep_e_pingpong.Base.{
  ℕ, zero, suc, ◌+◌, ◌-◌, ◌≤◌, ◌<◌, ◌≡◌, refl, ◌∙◌, inl, inr, Bool, true, false, some, List, [],
  ◌∷◌, arith, Option-cases, get_elem?, set, length, length-set, All,
}
use native.Mathlib.Decide.{ℕ_discrete}
use sleep_e_pingpong.Kernel.Log.{Block, logsize, maxopblocks, Log, end_op_leave, commit}
use sleep_e_pingpong.Kernel.Log.Disk.{Updates, in_log}
use sleep_e_pingpong.Kernel.Log.Commit.{Pending, Committed, commit-Committed}
use sleep_e_pingpong.Kernel.Log.LogWrite.{log_write-Put}
use sleep_e_pingpong.Kernel.Log.Put.{put, length-put}
use sleep_e_pingpong.Kernel.Log.Calls.{
  World, Action, remove, total, write_call, end_call, act, acts, total-set, total-remove,
  length-remove, All-set, All-remove, total_bound, All-get, begin_op-cases, end_op-last,
  end_op-more, write_call_step, commit_idle, leave_quiet, leave_calls, begin, write, finish,
}

module _ (st sz : ℕ) (room : logsize < sz) where
  -- The blocks in the log and those that the calls may still write fit in it.
  pub record Reserved (ps : Updates) (w : World) : Type 0 where
    pub pending : Pending st sz ps w.log
    pub quiet : w.log.committing ≡ false
    pub calls : w.log.outstanding ≡ length w.left
    pub bounds : All (λ k. k ≤ maxopblocks) w.left
    pub reserved : length ps + total w.left ≤ logsize

  abbrev pub IsReserved : World → Type 0
  IsReserved w = (ps : Updates) × Reserved ps w

  Pending-calls :
      {ps : Updates} {s : Log} (k : ℕ) (c : Bool)
      → Pending st sz ps s
      → Pending st sz ps (record s { outstanding = k; committing = c })
  Pending-calls k c p = record {
    start = p.start;
    size = p.size;
    n = p.n;
    short = p.short;
    fits = p.fits;
    slots = p.slots;
    block = p.block;
    values = p.values;
    outside = p.outside;
    single = p.single;
    pins = p.pins;
    clean = p.clean;
    redo = p.redo;
  }

  leave-Pending : {ps : Updates} (s : Log) → Pending st sz ps s → Pending st sz ps (end_op_leave s)
  unfolding end_op_leave
  leave-Pending s p = Pending-calls s.outstanding false p

  -- A finished commit leaves an empty transaction.
  Committed-Pending :
      {ps : Updates} {s s' : Log} → Pending st sz ps s → Committed st sz s s' → Pending st sz [] s'
  Committed-Pending {s'} p c = record {
    start = c.start;
    size = c.size;
    n = c.n;
    short = omega arith;
    fits = omega arith;
    slots = rw c.block p.slots;
    block = tt;
    values = tt;
    outside = tt;
    single = λ x. omega arith;
    pins = c.unpinned;
    clean = λ x _. c.synced x;
    redo = record {
      count = c.redo.count;
      short = c.redo.short;
      fits = c.redo.fits;
      room = c.redo.room;
      blocks = tt;
      contents = tt;
      outside = tt;
      redone = λ x _. refl;
    };
  }

  commit-IsEmpty :
      (ps : Updates) (s : Log)
      → Pending st sz ps s
      → Pending st sz [] (commit s) × ((commit s).outstanding ≡ s.outstanding)
  commit-IsEmpty [] s p = rw (commit_idle s p.n) (p, refl)
  commit-IsEmpty (u ∷ ps) s p =
      let c = commit-Committed st sz (u ∷ ps) s p (omega arith) in
      (Committed-Pending p c, c.outstanding)

  begin-IsReserved :
      (w : World) → IsReserved w → (w' : World) × (act begin w ≡ some w') × IsReserved w'
  unfolding act
  begin-IsReserved w (ps, r) = elim (begin_op-cases w.log r.quiet) [
    | inl asleep ↦ (w, rw (asleep, act) refl, (ps, r))
    | inr (fits, awake) ↦ (
      record {
        log = record w.log { outstanding = w.log.outstanding + 1 };
        left = maxopblocks ∷ w.left;
      },
      rw (awake, act) refl,
      (
        ps,
        record {
          pending = Pending-calls (w.log.outstanding + 1) w.log.committing r.pending;
          quiet = r.quiet;
          calls = omega (arith, r.calls);
          bounds = (omega arith, r.bounds);
          reserved =
              omega (arith, r.calls, total_bound w.left maxopblocks r.bounds, fits, r.pending.n);
        },
      ),
    )
  ]

  write_call-IsReserved :
      (j b : ℕ) (v : Block) (k : ℕ) (w : World)
      → get_elem? w.left j ≡ some k
      → in_log st sz b ≡ false
      → IsReserved w
      → (w' : World) × (write_call j b v k w ≡ some w') × IsReserved w'
  unfolding write_call
  write_call-IsReserved j b v zero w own out (ps, r) = (w, refl, (ps, r))
  write_call-IsReserved j b v (suc k) w own out (ps, r) =
      let some_call : 0 < w.log.outstanding = omega (arith, r.calls, length-remove w.left j own) in
      let used = total-set w.left j k own in
      let (s', done, p) =
        log_write-Put st sz b v ps w.log r.pending out some_call (omega (arith, r.reserved))
          (omega (arith, r.reserved)) in
      (
        record { log = s'; left = set w.left j k },
        write_call_step j b v k w done,
        (
          put b v ps,
          record {
            pending = p.pending;
            quiet = p.committing ∙ r.quiet;
            calls = omega (arith, p.outstanding, r.calls, length-set w.left j k);
            bounds = All-set w.left j k maxopblocks (omega (arith, own_bound)) r.bounds;
            reserved = ground (arith, r.reserved, length-put b v ps);
          },
        ),
      )
    where
      own_bound : suc k ≤ maxopblocks
      own_bound = All-get w.left j maxopblocks own r.bounds

  write-IsReserved :
      (j b : ℕ) (v : Block) (w : World)
      → in_log st sz b ≡ false
      → IsReserved w
      → (w' : World) × (act (write j b v) w ≡ some w') × IsReserved w'
  unfolding act
  write-IsReserved j b v w out r = elim (Option-cases (get_elem? w.left j)) [
    | inl no_call ↦ (w, rw (no_call, act) refl, r)
    | inr (k, own) ↦
        let (w', done, r') = write_call-IsReserved j b v k w own out r in
        (w', rw (own, act) done, r')
  ]

  end_call-IsReserved :
      (j k : ℕ) (w : World)
      → get_elem? w.left j ≡ some k
      → IsReserved w
      → (w' : World) × (end_call j w ≡ some w') × IsReserved w'
  unfolding end_call
  end_call-IsReserved j k w own (ps, r) =
      let gone = length-remove w.left j own in
      let freed = total-remove w.left j k own in
      let bounds = All-remove w.left j maxopblocks r.bounds in
      elim (ℕ_discrete w.log.outstanding 1) [
        | yes one ↦
            let s₁ : Log = record w.log {
              outstanding = w.log.outstanding - 1;
              committing = true;
            } in
            let (p, same) = commit-IsEmpty ps s₁ (Pending-calls _ true r.pending) in
            (
              record { log = end_op_leave (commit s₁); left = remove w.left j },
              rw (end_op-last w.log r.quiet one, end_call) refl,
              (
                [],
                record {
                  pending = leave-Pending (commit s₁) p;
                  quiet = leave_quiet (commit s₁);
                  calls = omega (arith, leave_calls (commit s₁), same, r.calls);
                  bounds = bounds;
                  reserved = omega (arith, r.reserved);
                },
              ),
            )
        | no more ↦ (
          record {
            log = record w.log { outstanding = w.log.outstanding - 1 };
            left = remove w.left j;
          },
          rw (end_op-more w.log r.quiet more, end_call) refl,
          (
            ps,
            record {
              pending = Pending-calls (w.log.outstanding - 1) w.log.committing r.pending;
              quiet = r.quiet;
              calls = omega (arith, r.calls);
              bounds = bounds;
              reserved = omega (arith, r.reserved);
            },
          ),
        )
      ]

  finish-IsReserved :
      (j : ℕ) (w : World)
      → IsReserved w
      → (w' : World) × (act (finish j) w ≡ some w') × IsReserved w'
  unfolding act
  finish-IsReserved j w r = elim (Option-cases (get_elem? w.left j)) [
    | inl no_call ↦ (w, rw (no_call, act) refl, r)
    | inr (k, own) ↦
        let (w', done, r') = end_call-IsReserved j k w own r in (w', rw (own, act) done, r')
  ]

  -- The blocks that an action writes lie outside the log.
  abbrev pub Avoids : Action → Type 0
  Avoids (write j b v) = in_log st sz b ≡ false
  Avoids _ = Unit

  act-IsReserved :
      (a : Action) (w : World)
      → Avoids a
      → IsReserved w
      → (w' : World) × (act a w ≡ some w') × IsReserved w'
  act-IsReserved begin w out r = begin-IsReserved w r
  act-IsReserved (write j b v) w out r = write-IsReserved j b v w out r
  act-IsReserved (finish j) w out r = finish-IsReserved j w r

  -- With a log of more than `LOGSIZE` blocks no interleaving of file system calls panics, if each
  -- writes at most `MAXOPBLOCKS` times, outside the log: neither `log_write` for want of space nor
  -- `end_op`. The reservation holds on: the blocks logged and those still to come fit in the log.
  pub acts-IsReserved :
      (as' : List Action) (w : World)
      → All Avoids as'
      → IsReserved w
      → (w' : World) × (acts as' w ≡ some w') × IsReserved w'
  unfolding acts
  acts-IsReserved [] w out r = (w, refl, r)
  acts-IsReserved (a ∷ rest) w (oa, out) r =
      let (w₁, first, r₁) = act-IsReserved a w oa r in
      let (w', more, r') = acts-IsReserved rest w₁ out r₁ in (w', rw (first, acts) more, r')
