-- ===== src/Kernel/Log/LogWrite.antt =====
-- `log_write` of kernel/log.c: absorption, and what it adds to the transaction.
use sleep_e_pingpong.Base.{
  ℕ, ◌+◌, ◌-◌, ◌≤◌, ◌<◌, ◌≡◌, refl, sym, ◌∙◌, ap, ◌≢◌, false, ◌||◌, some, arith, ltb, leb, ◌==◌,
  ==_refl, set, length, length-set,
}
use mathlib.Core.Path.{subst}
use native.Mathlib.Decide.{ℕ_discrete}
use sleep_e_pingpong.Kernel.Log.{
  Block, update, logsize, Log, modify, bpin, find_slot, log_at, log_write,
}
use sleep_e_pingpong.Kernel.Log.Disk.{Updates, mentions, HasBlocks, in_log}
use sleep_e_pingpong.Kernel.Log.Commit.{Pending}
use sleep_e_pingpong.Kernel.Log.Put.{
  put, length-put, mentions-put, find_slot-Slot, Outside-put, Values-put,
}

module _ (st sz : ℕ) (b : ℕ) (v : Block) where
  -- What `log_write` leaves once its two checks are passed.
  pub record Put (ps : Updates) (s s' : Log) : Type 0 where
    pub pending : Pending st sz (put b v ps) s'
    pub outstanding : s'.outstanding ≡ s.outstanding
    pub committing : s'.committing ≡ s.committing

  single_put :
      (ps : Updates) → ((x : ℕ) → mentions x ps ≤ 1) → (x : ℕ) → mentions x (put b v ps) ≤ 1
  single_put ps single x = ground (arith, mentions-put b v ps x, single x)

  clean_put :
      (ps : Updates) (s : Log)
      → ((x : ℕ) → mentions x ps ≡ 0 → s.view x ≡ s.disk x)
      → (x : ℕ) → mentions x (put b v ps) ≡ 0
      → update s.view b v x ≡ s.disk x
  clean_put ps s clean x m = ground (arith, mentions-put b v ps x, clean x)

  log_write-new :
      (ps : Updates) (s : Log)
      → Pending st sz ps s
      → in_log st sz b ≡ false
      → length ps < logsize
      → length ps < sz - 1
      → mentions b ps ≡ 0
      → Put ps s (record (bpin b (record (modify b v s) { block = set s.block (length ps) b })) {
        n = s.n + 1;
      })
  unfolding modify bpin
  log_write-new ps s p out room fits m =
      let slot = find_slot-Slot b v s.block 0 ps p.block (omega (arith, p.slots)) in
      let last : find_slot (length ps) 0 b s.block ≡ length ps = slot.absent m ∙ omega arith in
      let len : length (put b v ps) ≡ length ps + 1 = ground (arith, length-put b v ps) in
      record {
        pending = record {
          start = p.start;
          size = p.size;
          n = omega (arith, p.n, len);
          short = omega (arith, len);
          fits = omega (arith, len);
          slots = omega (arith, p.slots, length-set s.block (length ps) b);
          block = subst (λ j. HasBlocks (set s.block j b) 0 (put b v ps)) last slot.lists;
          values = Values-put s.view b v ps (p.single b) p.values;
          outside = Outside-put st sz b v ps out p.outside;
          single = single_put ps p.single;
          pins = λ x. ground (arith, mentions-put b v ps x, p.pins x, p.pins b);
          clean = clean_put ps s p.clean;
          redo = p.redo;
        };
        outstanding = refl;
        committing = refl;
      }

  log_write-old :
      (ps : Updates) (s : Log)
      → Pending st sz ps s
      → in_log st sz b ≡ false
      → length ps < logsize
      → mentions b ps ≢ 0
      → Put ps s
          (record (modify b v s) { block = set s.block (find_slot (length ps) 0 b s.block) b })
  unfolding modify
  log_write-old ps s p out room m =
      let slot = find_slot-Slot b v s.block 0 ps p.block (omega (arith, p.slots)) in
      let j = find_slot (length ps) 0 b s.block in
      let len : length (put b v ps) ≡ length ps = ground (arith, length-put b v ps) in
      record {
        pending = record {
          start = p.start;
          size = p.size;
          n = p.n ∙ sym len;
          short = omega (arith, len, p.short);
          fits = omega (arith, len, p.fits);
          slots = omega (arith, p.slots, length-set s.block j b);
          block = slot.lists;
          values = Values-put s.view b v ps (p.single b) p.values;
          outside = Outside-put st sz b v ps out p.outside;
          single = single_put ps p.single;
          pins = λ x. ground (arith, mentions-put b v ps x, p.pins x);
          clean = clean_put ps s p.clean;
          redo = p.redo;
        };
        outstanding = refl;
        committing = refl;
      }

  log_write_passes :
      (s : Log)
      → 0 < s.outstanding
      → s.n < logsize
      → s.n < s.size - 1
      → log_write b (modify b v s) ≡ some (log_at (find_slot s.n 0 b s.block) b (modify b v s))
  unfolding log_write modify
  log_write_passes s some_call room fits =
      let ok₁ : leb logsize s.n || leb (s.size - 1) s.n ≡ false = ground arith in
      let ok₂ : ltb s.outstanding 1 ≡ false = ground arith in rw ok₁ (rw ok₂ refl)

  log_at-new :
      (s : Log)
      → log_at s.n b (modify b v s)
        ≡ record (bpin b (record (modify b v s) { block = set s.block s.n b })) { n = s.n + 1 }
  unfolding log_at modify
  log_at-new s = rw (==_refl s.n) refl

  log_at-old :
      (j : ℕ) (s : Log)
      → j < s.n
      → log_at j b (modify b v s) ≡ record (modify b v s) { block = set s.block j b }
  unfolding log_at modify
  log_at-old j s h = let apart : (j == s.n) ≡ false = ground arith in rw apart refl

  log_at-Put :
      (ps : Updates) (s : Log)
      → Pending st sz ps s
      → in_log st sz b ≡ false
      → length ps < logsize
      → length ps < sz - 1
      → Put ps s (log_at (find_slot s.n 0 b s.block) b (modify b v s))
  log_at-Put ps s p out room fits =
      let slot = find_slot-Slot b v s.block 0 ps p.block (omega (arith, p.slots)) in
      let same : find_slot s.n 0 b s.block ≡ find_slot (length ps) 0 b s.block =
        ap (λ k. find_slot k 0 b s.block) p.n in
      elim (ℕ_discrete (mentions b ps) 0) [
        | yes m ↦
            let last : find_slot s.n 0 b s.block ≡ s.n = omega (arith, same, slot.absent m, p.n) in
            rw (last, log_at-new s)
              (subst
                (λ k.
                  Put ps s (record (bpin b (record (modify b v s) { block = set s.block k b })) {
                    n = s.n + 1;
                  }))
                (sym p.n) (log_write-new ps s p out room fits m))
        | no m ↦
            rw
              (
                same,
                log_at-old (find_slot (length ps) 0 b s.block) s
                    (omega (arith, slot.present m, p.n)),
              )
              (log_write-old ps s p out room m)
      ]

  -- A call within a transaction that changes the buffer of block `b` and passes it to `log_write`
  -- does not panic while the transaction has fewer blocks than `LOGSIZE` and than the log's
  -- `size - 1`. The transaction then has the new content for `b`: a block that was in it already
  -- takes no new slot and no new pin, another takes one of each.
  pub log_write-Put :
      (ps : Updates) (s : Log)
      → Pending st sz ps s
      → in_log st sz b ≡ false
      → 0 < s.outstanding
      → length ps < logsize
      → length ps < sz - 1
      → (s' : Log) × (log_write b (modify b v s) ≡ some s') × Put ps s s'
  log_write-Put ps s p out some_call room fits = (
    log_at (find_slot s.n 0 b s.block) b (modify b v s),
    log_write_passes s some_call (omega (arith, p.n)) (omega (arith, p.n, p.size)),
    log_at-Put ps s p out room fits,
  )
