-- ===== src/Kernel/Log/Commit.antt =====
-- `commit` of kernel/log.c, and what a crash at any moment of it leaves.
use sleep_e_pingpong.Base.{
  ℕ, ◌+◌, ◌≤◌, ◌<◌, ◌≡◌, refl, sym, ◌∙◌, ◌⊎◌, inl, true, false, List, [], ◌∷◌, ◌++◌, append_assoc,
  arith, ltb, ==_refl, length, All,
}
use mathlib.Core.Path.{subst}
use sleep_e_pingpong.Kernel.Log.{
  Block, Disk, update, logsize, Log, install_trans, install_loop, write_head, head_block,
  write_log_loop, write_log, do_commit, commit,
}
use sleep_e_pingpong.Kernel.Log.Disk.{
  Updates, mentions, HasBlocks, HasData, HasData-frame, in_log, Outside, mentions_log, Redo,
  Recoverable,
}
use sleep_e_pingpong.Kernel.Log.Head.{head_block-Lists}
use sleep_e_pingpong.Kernel.Log.Install.{All-append, Installed, install_loop-Installed}
use sleep_e_pingpong.Kernel.Log.Clear.{write_head-Headed, Redo-head, finish}
use sleep_e_pingpong.Kernel.Log.WriteLog.{Values, apply-Values, Logged, write_log_loop-Logged}

module _ (st sz : ℕ) where
  -- A transaction in memory: the slots in use hold distinct blocks outside the log, each pinned
  -- once; only they differ between buffers and disk; and the disk's header lists nothing.
  pub record Pending (ps : Updates) (s : Log) : Type 0 where
    pub start : s.start ≡ st
    pub size : s.size ≡ sz
    pub n : s.n ≡ length ps
    pub short : length ps ≤ logsize
    pub fits : length ps < sz
    pub slots : logsize ≤ length s.block
    pub block : HasBlocks s.block 0 ps
    pub values : Values s.view ps
    pub outside : Outside st sz ps
    pub single : (x : ℕ) → mentions x ps ≤ 1
    pub pins : (x : ℕ) → s.pins x ≡ mentions x ps
    pub clean : (x : ℕ) → mentions x ps ≡ 0 → s.view x ≡ s.disk x
    pub redo : Redo st sz [] s.disk s.disk

  -- How `commit` takes `s` to `s'`: first disks from which the old content is recovered, then disks
  -- from which the new one is.
  pub record Committed (s s' : Log) : Type 0 where
    pub before : List Disk
    pub after : List Disk
    pub history : s'.history ≡ after ++ (before ++ s.history)
    pub old_disks : All (Recoverable st sz s.disk) before
    pub new_disks : All (Recoverable st sz s.view) after
    pub start : s'.start ≡ st
    pub size : s'.size ≡ sz
    pub outstanding : s'.outstanding ≡ s.outstanding
    pub committing : s'.committing ≡ s.committing
    pub n : s'.n ≡ 0
    pub block : s'.block ≡ s.block
    pub synced : (x : ℕ) → s'.view x ≡ s'.disk x
    pub unpinned : (x : ℕ) → s'.pins x ≡ 0
    pub redo : Redo st sz [] s.view s'.disk

  write_log-Logged :
      (ps : Updates) (s : Log) → Pending ps s → Logged st sz s.disk ps 0 s (write_log s)
  unfolding write_log
  write_log-Logged ps s p =
      subst (λ k. Logged st sz s.disk ps 0 s (write_log_loop k 0 s)) (sym p.n)
        (write_log_loop-Logged st sz s.disk ps 0 s p.start p.redo p.block p.values p.outside
          (omega (arith, p.fits)))

  -- After the header is written the log asks for the new content.
  record Sealed (ps : Updates) (s s₂ : Log) : Type 0 where
    start : s₂.start ≡ st
    size : s₂.size ≡ sz
    outstanding : s₂.outstanding ≡ s.outstanding
    committing : s₂.committing ≡ s.committing
    n : s₂.n ≡ length ps
    block : HasBlocks s₂.block 0 ps
    array : s₂.block ≡ s.block
    contents : HasData s₂.view st 0 ps
    room : logsize < length (s₂.view st)
    redo : Redo st sz ps s.view s₂.disk
    clean : (x : ℕ) → mentions x ps ≡ 0 → s₂.view x ≡ s₂.disk x
    pins : (x : ℕ) → s₂.pins x ≡ mentions x ps
    before : List Disk
    history : s₂.history ≡ s₂.disk ∷ (before ++ s.history)
    old_disks : All (Recoverable st sz s.disk) before

  write_head-Sealed :
      (ps : Updates) (s s₁ : Log)
      → Pending ps s
      → Logged st sz s.disk ps 0 s s₁
      → Sealed ps s (write_head s₁)
  write_head-Sealed ps s s₁ p l =
      let e₁ : s₁.start ≡ st = l.same.start ∙ p.start in
      let hb = head_block s₁ in
      let h = write_head-Headed st s₁ e₁ in
      let in_log_st : in_log st sz st ≡ true = ground (arith, p.fits) in
      let view_st : s₁.view st ≡ s.disk st =
        l.view st (inl (omega arith)) ∙ p.clean st (mentions_log st sz ps st p.outside in_log_st) in
      let room₁ : logsize < length (s₁.view st) = rw view_st p.redo.room in
      let (lists, len) =
        head_block-Lists ps s₁ (l.same.n ∙ p.n) (rw l.same.block p.block)
          (rw e₁ (omega (arith, p.short))) in
      let room₂ : logsize < length hb = rw (len, e₁) room₁ in
      let r₂ =
        Redo-head st sz ps s.view s₁.disk hb lists room₂ p.short p.fits l.disk_data p.outside
          (λ x o.
            apply-Values s.view s₁.disk ps x p.values
              (λ m. l.disk x (beyond x o) ∙ sym (p.clean x m))) in
      let (before, eh, old_disks) = l.through in
      record {
        start = h.same.start ∙ e₁;
        size = h.same.size ∙ l.same.size ∙ p.size;
        outstanding = h.same.outstanding ∙ l.same.outstanding;
        committing = h.same.committing ∙ l.same.committing;
        n = h.same.n ∙ l.same.n ∙ p.n;
        block = rw (h.same.block, l.same.block) p.block;
        array = h.same.block ∙ l.same.block;
        contents =
            HasData-frame st sz {d = s₁.view} {d' = (write_head s₁).view} 0 ps
              (λ x after o. rw h.view (other x s₁.view hb after)) (omega (arith, p.fits))
              l.view_data;
        room = rw h.view (rw (here s₁.view hb) room₂);
        redo = rw h.disk r₂;
        clean = λ x m. rw (h.view, h.disk) (both x s₁ hb (l.clean x (p.clean x m)));
        pins = λ x. rw (h.pins, l.pins) (p.pins x);
        before = before;
        history = h.history ∙ rw (h.disk, eh) refl;
        old_disks = old_disks;
      }
    where
      beyond : (x : ℕ) → in_log st sz x ≡ false → (x ≤ st + 0) ⊎ (st + 0 + length ps < x)
      beyond x o = ground (arith, p.fits)

      other : (x : ℕ) (d : Disk) (hb : Block) → st < x → update d st hb x ≡ d x
      other x d hb h = ground arith

      here : (d : Disk) (hb : Block) → update d st hb st ≡ hb
      here d hb = rw (==_refl st) refl

      both :
          (x : ℕ) (t : Log) (hb : Block)
          → t.view x ≡ t.disk x
          → update t.view st hb x ≡ update t.disk st hb x
      both x t hb same = ground arith

  install_trans-Installed :
      (ps : Updates) (s s₂ : Log)
      → Pending ps s
      → Sealed ps s s₂
      → Installed false st sz s.view ps ps s₂ (install_trans false s₂)
  unfolding install_trans
  install_trans-Installed ps s s₂ p l =
      subst (λ k. Installed false st sz s.view ps ps s₂ (install_loop false k 0 s₂)) (sym l.n)
        (install_loop-Installed false st sz s.view ps ps 0 s₂ l.start l.redo l.block l.contents
          (omega (arith, p.fits)) p.outside (λ x m. m))

  install-Committed :
      (ps : Updates) (s s₂ : Log)
      → Pending ps s
      → Sealed ps s s₂
      → Committed s (write_head (record (install_trans false s₂) { n = 0 }))
  install-Committed ps s s₂ p l =
      let f =
        finish st sz false s.view ps s₂ (install_trans false s₂) l.start (omega (arith, p.fits))
          l.room l.redo (install_trans-Installed ps s s₂ p l) in
      let (new, e, all) = f.through in
      record {
        before = l.before;
        after = new ++ (s₂.disk ∷ []);
        history = e ∙ rw l.history (sym (append_assoc new (s₂.disk ∷ []) _));
        old_disks = l.old_disks;
        new_disks = All-append _ new (s₂.disk ∷ []) all ((ps, l.redo), tt);
        start = f.start ∙ l.start;
        size = f.size ∙ l.size;
        outstanding = f.outstanding ∙ l.outstanding;
        committing = f.committing ∙ l.committing;
        n = f.n;
        block = f.block ∙ l.array;
        synced = λ x. f.clean x (l.clean x);
        unpinned = λ x.
            let pin = l.pins x in
            let one = p.single x in omega (arith, f.pins refl x (omega arith) (omega arith));
        redo = f.redo;
      }

  do_commit-Committed : (ps : Updates) (s : Log) → Pending ps s → Committed s (do_commit s)
  unfolding do_commit
  do_commit-Committed ps s p =
      install-Committed ps s (write_head (write_log s)) p
        (write_head-Sealed ps s (write_log s) p (write_log-Logged ps s p))

  commit_runs : (ps : Updates) (s : Log) → Pending ps s → 0 < length ps → commit s ≡ do_commit s
  unfolding commit
  commit_runs ps s p some_block = let go : ltb 0 s.n ≡ true = ground (arith, p.n) in rw go refl

  -- `commit` of a pending transaction with a block writes first disks from which recovery yields
  -- the old content, then only disks from which it yields that of the buffers; at its end nothing
  -- is pending or pinned, and buffers and disk agree.
  pub commit-Committed :
      (ps : Updates) (s : Log) → Pending ps s → 0 < length ps → Committed s (commit s)
  commit-Committed ps s p some_block =
      rw (commit_runs ps s p some_block) (do_commit-Committed ps s p)
