-- ===== src/Kernel/Log/Clear.antt =====
-- `write_head` of kernel/log.c as a step between disks: what it makes of a recoverable one.
use sleep_e_pingpong.Base.{
  true, uint_mod, ℕ, ◌-◌, ◌≤◌, ◌<◌, ◌≡◌, refl, ◌∙◌, Bool, false, [], ◌∷◌, arith, ==_refl, length,
}
use mathlib.Core.Path.{subst}
use sleep_e_pingpong.Kernel.Log.{
  Block, Disk, update, logsize, Log, modify, bwrite, head_block, write_head,
}
use sleep_e_pingpong.Kernel.Log.Disk.{
  mentions, apply_base, Updates, apply, HasData, HasData-frame, in_log, Outside, Redo, Recoverable,
}
use sleep_e_pingpong.Kernel.Log.Head.{Lists, head_block-Lists}
use sleep_e_pingpong.Kernel.Log.Install.{Same, Through, Through-trans, Installed}

pub record Headed (st : ℕ) (s s' : Log) : Type 0 where
  pub same : Same s s'
  pub view : s'.view ≡ update s.view st (head_block s)
  pub disk : s'.disk ≡ update s.disk st (head_block s)
  pub pins : s'.pins ≡ s.pins
  pub history : s'.history ≡ update s.disk st (head_block s) ∷ s.history

Headed-here : (s : Log) → Headed s.start s (write_head s)
unfolding write_head modify bwrite
Headed-here s = record {
  same = record {
    start = refl;
    size = refl;
    n = refl;
    block = refl;
    outstanding = refl;
    committing = refl;
  };
  view = refl;
  disk = simp (==_refl);
  pins = refl;
  history = simp (==_refl);
}

pub write_head-Headed : (st : ℕ) (s : Log) → s.start ≡ st → Headed st s (write_head s)
write_head-Headed st s e = subst (λ k. Headed k s (write_head s)) e (Headed-here s)

module _ (st sz : ℕ) where
  -- A header that lists `ps`, over a log that holds their contents, asks for them to be redone.
  pub Redo-head :
      (ps : Updates) (goal d : Disk) (hb : Block)
      → Lists ps hb
      → logsize < length hb
      → length ps ≤ logsize
      → length ps < sz
      → HasData d st 0 ps
      → Outside st sz ps
      → ((x : ℕ) → in_log st sz x ≡ false → apply ps d x ≡ goal x)
      → Redo st sz ps goal (update d st hb)
  Redo-head ps goal d hb l room short fits hd out yields =
      let head : update d st hb st ≡ hb = rw (==_refl st) refl in
      record {
        count = rw head l.count;
        short = short;
        fits = fits;
        room = rw head room;
        blocks = rw head l.blocks;
        contents =
            HasData-frame st sz {d = d} {d' = update d st hb} 0 ps (λ x after h. ground arith)
              (omega arith) hd;
        outside = out;
        redone = λ x h. apply_base ps (update d st hb) d x (λ _. ground arith) ∙ yields x h;
      }

  -- The header is cleared once the disk has what it is to have.
  pub write_head_clear :
      (goal : Disk) (s : Log)
      → s.start ≡ st
      → 0 < sz
      → s.n ≡ 0
      → logsize < length (s.view st)
      → ((x : ℕ) → in_log st sz x ≡ false → s.disk x ≡ goal x)
      → Redo st sz [] goal (write_head s).disk × Through (Recoverable st sz goal) s (write_head s)
  write_head_clear goal s e pos none room there =
      let h = write_head-Headed st s e in
      let (l, len) = head_block-Lists [] s none tt (rw e (omega arith)) in
      let room' : logsize < length (head_block s) = rw (len, e) room in
      let r = Redo-head [] goal s.disk (head_block s) l room' (omega arith) pos tt tt there in
      (rw h.disk r, (_ ∷ [], h.history, (([], r), tt)))

  -- What is left of a transaction once its blocks are installed and its header is cleared.
  pub record Done (recovering : Bool) (goal : Disk) (ps : Updates) (s s' : Log) : Type 0 where
    pub start : s'.start ≡ s.start
    pub size : s'.size ≡ s.size
    pub outstanding : s'.outstanding ≡ s.outstanding
    pub committing : s'.committing ≡ s.committing
    pub n : s'.n ≡ 0
    pub block : s'.block ≡ s.block
    pub redo : Redo st sz [] goal s'.disk
    pub clean : (x : ℕ) → (mentions x ps ≡ 0 → s.view x ≡ s.disk x) → s'.view x ≡ s'.disk x
    pub kept : recovering ≡ true → (x : ℕ) → s'.pins x ≡ s.pins x
    pub pins :
        recovering ≡ false
        → (x : ℕ) → mentions x ps ≤ s.pins x
        → s.pins x < uint_mod
        → s'.pins x ≡ s.pins x - mentions x ps
    pub through : Through (Recoverable st sz goal) s s'

  pub finish :
      (recovering : Bool) (goal : Disk) (ps : Updates) (s s₁ : Log)
      → s.start ≡ st
      → 0 < sz
      → logsize < length (s.view st)
      → Redo st sz ps goal s.disk
      → Installed recovering st sz goal ps ps s s₁
      → Done recovering goal ps s (write_head (record s₁ { n = 0 }))
  finish recovering goal ps s s₁ e pos room r i =
      let s₂ : Log = record s₁ { n = 0 } in
      let e₁ : s₁.start ≡ st = i.same.start ∙ e in
      let h = write_head-Headed st s₂ e₁ in
      let room₁ : logsize < length (s₁.view st) = rw (i.log_view st (ground arith)) room in
      let (cleared, last) =
        write_head_clear goal s₂ e₁ pos refl room₁ (λ x o. i.disk x ∙ r.redone x o) in
      record {
        start = h.same.start ∙ i.same.start;
        size = h.same.size ∙ i.same.size;
        outstanding = h.same.outstanding ∙ i.same.outstanding;
        committing = h.same.committing ∙ i.same.committing;
        n = h.same.n;
        block = h.same.block ∙ i.same.block;
        redo = cleared;
        clean = λ x c. rw (h.view, h.disk) (both_updated x (head_block s₂) s₁ (i.clean x c));
        kept = λ r x. rw h.pins (i.kept r x);
        pins = λ r x le lt. rw h.pins (i.pins r x le lt);
        through = Through-trans (Recoverable st sz goal) s s₁ (write_head s₂) i.through last;
      }
    where
      both_updated :
          (x : ℕ) (hb : Block) (t : Log)
          → t.view x ≡ t.disk x
          → update t.view st hb x ≡ update t.disk st hb x
      both_updated x hb t same = ground arith
