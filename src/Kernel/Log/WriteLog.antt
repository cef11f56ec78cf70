-- ===== src/Kernel/Log/WriteLog.antt =====
-- `write_log` of kernel/log.c: the modified blocks are copied to the log, the header not yet written.
use sleep_e_pingpong.Base.{
  ℕ, zero, suc, ◌+◌, ◌≤◌, ◌<◌, ◌≡◌, refl, sym, ◌∙◌, ap, ◌⊎◌, inl, inr, false, [], ◌∷◌, arith, ◌==◌,
  ==_iff, ==_refl, Bool-cases, get_or, length,
}
use sleep_e_pingpong.Kernel.Log.{Block, Disk, update, Log, modify, bwrite, write_log_loop}
use sleep_e_pingpong.Kernel.Log.Disk.{
  Updates, apply, mentions, HasBlocks, HasData, Outside, Redo, Recoverable,
}
use sleep_e_pingpong.Kernel.Log.Install.{Same, Same-trans, Through, Through-refl, Through-trans}

-- The updates are what the buffers hold.
abbrev pub Values : Disk → Updates → Type 0
Values view [] = Unit
Values view ((b, v) ∷ ps) = (v ≡ view b) × Values view ps

pub apply-Values :
    (view d : Disk) (ps : Updates) (x : ℕ)
    → Values view ps
    → (mentions x ps ≡ 0 → d x ≡ view x)
    → apply ps d x ≡ view x
apply-Values view d [] x vs h = h refl
apply-Values view d ((b, v) ∷ ps) x (e, vs) h = apply-Values view (update d b v) ps x vs (λ m.
    elim (Bool-cases (x == b)) [
      | inl here ↦ rw here (e ∙ ap view (sym ((==_iff x b).0 here)))
      | inr away ↦ rw away (h (ground arith))
    ])

-- One round of `write_log`.
abbrev log_block : ℕ → Block → Log → Log
log_block to v s = bwrite to (modify to v s)

write_log_step :
    (left tail : ℕ) (s : Log)
    → write_log_loop (suc left) tail s
      ≡ write_log_loop left
          (tail + 1)
          (log_block (s.start + tail + 1) (s.view (get_or s.block tail 0)) s)
unfolding write_log_loop
write_log_step left tail s = refl

write_log_stop : (tail : ℕ) (s : Log) → write_log_loop zero tail s ≡ s
unfolding write_log_loop
write_log_stop tail s = refl

record Stored (to : ℕ) (v : Block) (s s' : Log) : Type 0 where
  same : Same s s'
  view : s'.view ≡ update s.view to v
  disk : s'.disk ≡ update s.disk to v
  pins : s'.pins ≡ s.pins
  history : s'.history ≡ update s.disk to v ∷ s.history

log_block-Stored : (to : ℕ) (v : Block) (s : Log) → Stored to v s (log_block to v s)
unfolding modify bwrite
log_block-Stored to v s = record {
  same = record {
    start = refl;
    size = refl;
    n = refl;
    block = refl;
    outstanding = refl;
    committing = refl;
  };
  view = refl;
  disk = simp (==_refl);
  pins = refl;
  history = simp (==_refl);
}

module _ (st sz : ℕ) (old : Disk) where
  -- What logging `rest` from index `tail` on does, while the header still lists nothing.
  pub record Logged (rest : Updates) (tail : ℕ) (s s' : Log) : Type 0 where
    pub same : Same s s'
    pub view : (x : ℕ) → (x ≤ st + tail) ⊎ (st + tail + length rest < x) → s'.view x ≡ s.view x
    pub disk : (x : ℕ) → (x ≤ st + tail) ⊎ (st + tail + length rest < x) → s'.disk x ≡ s.disk x
    pub view_data : HasData s'.view st tail rest
    pub disk_data : HasData s'.disk st tail rest
    pub clean : (x : ℕ) → s.view x ≡ s.disk x → s'.view x ≡ s'.disk x
    pub pins : s'.pins ≡ s.pins
    pub redo : Redo st sz [] old s'.disk
    pub through : Through (Recoverable st sz old) s s'

  Redo-nil-update :
      (d : Disk) (to : ℕ) (v : Block)
      → Redo st sz [] old d
      → st < to
      → to < st + sz
      → Redo st sz [] old (update d to v)
  Redo-nil-update d to v r after within =
      let head : update d to v st ≡ d st = ground arith in
      record {
        count = rw head r.count;
        short = r.short;
        fits = r.fits;
        room = rw head r.room;
        blocks = tt;
        contents = tt;
        outside = tt;
        redone = λ x o. let apart : (x == to) ≡ false = ground arith in rw apart (r.redone x o);
      }

  Values-log :
      (view : Disk) (to : ℕ) (v : Block) (ps : Updates)
      → st < to
      → to < st + sz
      → Outside st sz ps
      → Values view ps
      → Values (update view to v) ps
  Values-log view to v [] after within out vs = tt
  Values-log view to v ((b, w) ∷ ps) after within (ob, out) (e, vs) =
      let apart : (b == to) ≡ false = ground arith in
      (rw apart e, Values-log view to v ps after within out vs)

  Logged-nil : (tail : ℕ) (s : Log) → Redo st sz [] old s.disk → Logged [] tail s s
  Logged-nil tail s r = record {
    same = record {
      start = refl;
      size = refl;
      n = refl;
      block = refl;
      outstanding = refl;
      committing = refl;
    };
    view = λ x h. refl;
    disk = λ x h. refl;
    view_data = tt;
    disk_data = tt;
    clean = λ x h. h;
    pins = refl;
    redo = r;
    through = Through-refl (Recoverable st sz old) s;
  }

  Logged-cons :
      (rest : Updates) (b : ℕ) (v : Block) (tail : ℕ) (s s₁ s₂ : Log)
      → Redo st sz [] old (update s.disk (st + tail + 1) v)
      → Stored (st + tail + 1) v s s₁
      → Logged rest (tail + 1) s₁ s₂
      → Logged ((b, v) ∷ rest) tail s s₂
  Logged-cons rest b v tail s s₁ s₂ r c i = record {
    same = Same-trans c.same i.same;
    view = λ x h. i.view x (omega arith) ∙ rw c.view (away x s.view h);
    disk = λ x h. i.disk x (omega arith) ∙ rw c.disk (away x s.disk h);
    view_data = (i.view (st + tail + 1) (inl (omega arith)) ∙ rw c.view (here s.view), i.view_data);
    disk_data = (i.disk (st + tail + 1) (inl (omega arith)) ∙ rw c.disk (here s.disk), i.disk_data);
    clean = λ x h. i.clean x (rw (c.view, c.disk) (both x h));
    pins = i.pins ∙ c.pins;
    redo = i.redo;
    through =
        Through-trans (Recoverable st sz old) s s₁ s₂
          (update s.disk (st + tail + 1) v ∷ [], c.history, (([], r), tt)) i.through;
  }
    where
      away :
          (x : ℕ) (d : Disk)
          → (x ≤ st + tail) ⊎ (st + tail + length ((b, v) ∷ rest) < x)
          → update d (st + tail + 1) v x ≡ d x
      away x d h = ground arith

      here : (d : Disk) → update d (st + tail + 1) v (st + tail + 1) ≡ v
      here d = rw (==_refl (st + tail + 1)) refl

      both :
          (x : ℕ)
          → s.view x ≡ s.disk x
          → update s.view (st + tail + 1) v x ≡ update s.disk (st + tail + 1) v x
      both x h = ground arith

  pub write_log_loop-Logged :
      (rest : Updates) (tail : ℕ) (s : Log)
      → s.start ≡ st
      → Redo st sz [] old s.disk
      → HasBlocks s.block tail rest
      → Values s.view rest
      → Outside st sz rest
      → tail + length rest < sz
      → Logged rest tail s (write_log_loop (length rest) tail s)
  write_log_loop-Logged [] tail s e r hb vs out fits = rw write_log_stop (Logged-nil tail s r)
  write_log_loop-Logged ((b, v) ∷ rest) tail s e r (eb, hb) (ev, vs) (ob, out) fits =
      let to = st + tail + 1 in
      let s₁ = log_block to v s in
      let c = log_block-Stored to v s in
      let r₁ = Redo-nil-update s.disk to v r (omega arith) (omega arith) in
      let hb₁ : HasBlocks s₁.block (tail + 1) rest = rw c.same.block hb in
      let vs₁ : Values s₁.view rest =
        rw c.view (Values-log s.view to v rest (omega arith) (omega arith) out vs) in
      let place : s.start + tail + 1 ≡ to = rw e refl in
      let value : s.view (get_or s.block tail 0) ≡ v = rw eb (sym ev) in
      rw (write_log_step, place, value)
        (Logged-cons rest b v tail s s₁ (write_log_loop (length rest) (tail + 1) s₁) r₁ c (
          write_log_loop-Logged rest (tail + 1) s₁ (c.same.start ∙ e) (rw c.disk r₁) hb₁ vs₁ out
            (omega arith)))
