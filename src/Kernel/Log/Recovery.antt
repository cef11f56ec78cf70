-- ===== src/Kernel/Log/Recovery.antt =====
-- Recovery of a file system whose disk has a log (kernel/log.c), after any crashes.
use sleep_e_pingpong.Base.{
  ℕ, ◌<◌, ◌≡◌, refl, sym, ◌∙◌, ◌⊎◌, inl, inr, true, false, List, [], ◌∷◌, append-nil, arith, length,
  All,
}
use mathlib.Core.Path.{subst}
use sleep_e_pingpong.Kernel.Log.{
  Disk, logsize, Log, read_head, install_trans, install_loop, write_head, recover_from_log, boot,
  initlog,
}
use sleep_e_pingpong.Kernel.Log.Disk.{Updates, HasBlocks, HasData, in_log, Redo, Recoverable}
use sleep_e_pingpong.Kernel.Log.Head.{read_blocks-HasBlocks}
use sleep_e_pingpong.Kernel.Log.Install.{Installed, install_loop-Installed}
use sleep_e_pingpong.Kernel.Log.Clear.{finish}

module _ (st sz : ℕ) (goal : Disk) where
  -- A log with nothing pending: memory and disk agree, and the disk is as it is to be.
  pub record Ready (s : Log) : Type 0 where
    pub start : s.start ≡ st
    pub size : s.size ≡ sz
    pub outstanding : s.outstanding ≡ 0
    pub committing : s.committing ≡ false
    pub n : s.n ≡ 0
    pub synced : (x : ℕ) → s.view x ≡ s.disk x
    pub unpinned : (x : ℕ) → s.pins x ≡ 0
    pub redo : Redo st sz [] goal s.disk

  -- What `read_head` makes of the state at boot: the pending updates are in memory.
  record HeadRead (ps : Updates) (d : Disk) (s : Log) : Type 0 where
    start : s.start ≡ st
    size : s.size ≡ sz
    outstanding : s.outstanding ≡ 0
    committing : s.committing ≡ false
    n : s.n ≡ length ps
    block : HasBlocks s.block 0 ps
    view : s.view ≡ d
    disk : s.disk ≡ d
    pins : (x : ℕ) → s.pins x ≡ 0
    history : s.history ≡ []

  read_head-HeadRead :
      (ps : Updates) (d : Disk) → Redo st sz ps goal d → HeadRead ps d (read_head (boot st sz d))
  unfolding read_head boot
  read_head-HeadRead ps d r = record {
    start = refl;
    size = refl;
    outstanding = refl;
    committing = refl;
    n = r.count;
    block = rw r.count (read_blocks-HasBlocks (d st) ps 0 _ r.blocks (omega (arith, r.short)));
    view = refl;
    disk = refl;
    pins = λ x. refl;
    history = refl;
  }

  install_trans-Installed :
      (ps : Updates) (d : Disk) (s : Log)
      → Redo st sz ps goal d
      → HeadRead ps d s
      → Installed true st sz goal ps ps s (install_trans true s)
  unfolding install_trans
  install_trans-Installed ps d s r h =
      let r' : Redo st sz ps goal s.disk = rw h.disk r in
      let hd : HasData s.view st 0 ps = rw h.view r.contents in
      subst (λ k. Installed true st sz goal ps ps s (install_loop true k 0 s)) (sym h.n)
        (install_loop-Installed true st sz goal ps ps 0 s h.start r' h.block hd
          (omega (arith, r.fits)) r.outside (λ x some_of. some_of))

  recover-Ready :
      (ps : Updates) (d : Disk) (s : Log)
      → Redo st sz ps goal d
      → HeadRead ps d s
      → let s' = write_head (record (install_trans true s) { n = 0 }) in
        Ready s' × All (Recoverable st sz goal) s'.history
  recover-Ready ps d s r h =
      let room : logsize < length (s.view st) = rw h.view r.room in
      let f =
        finish st sz true goal ps s (install_trans true s) h.start (omega (arith, r.fits)) room
          (rw h.disk r) (install_trans-Installed ps d s r h) in
      let (new, e, all) = f.through in
      (
        record {
          start = f.start ∙ h.start;
          size = f.size ∙ h.size;
          outstanding = f.outstanding ∙ h.outstanding;
          committing = f.committing ∙ h.committing;
          n = f.n;
          synced = λ x. f.clean x (λ _. rw (h.view, h.disk) refl);
          unpinned = λ x. f.kept refl x ∙ h.pins x;
          redo = f.redo;
        },
        rw (e, h.history, append-nil) all,
      )

  pub initlog-Ready :
      (d : Disk)
      → Recoverable st sz goal d
      → Ready (initlog st sz d) × All (Recoverable st sz goal) (initlog st sz d).history
  unfolding initlog recover_from_log
  initlog-Ready d (ps, r) =
      recover-Ready ps d (read_head (boot st sz d)) r (read_head-HeadRead ps d r)

-- `d` is one of the disks listed.
abbrev pub In : Disk → List Disk → Type 0
In d [] = ⊥
In d (e ∷ es) = (d ≡ e) ⊎ In d es

pub All-In : (P : Disk → Type 0) (d : Disk) (es : List Disk) → All P es → In d es → P d
All-In P d [] a i = absurd i
All-In P d (e ∷ es) (p, a) (inl same) = subst P (sym same) p
All-In P d (e ∷ es) (p, a) (inr i) = All-In P d es a i

-- The machine is started again and again on the disk that the last crash left: each start crashes
-- before or after one of the writes of its recovery.
pub data Reboots (st sz : ℕ) (d : Disk) : Disk → Type 0 where
  first : Reboots st sz d d
  again :
      {e e' : Disk} → Reboots st sz d e → In e' (e ∷ (initlog st sz e).history) → Reboots st sz d e'

Reboots-Recoverable :
    {st sz : ℕ} {goal d e : Disk}
    → Recoverable st sz goal d
    → Reboots st sz d e
    → Recoverable st sz goal e
Reboots-Recoverable r first = r
Reboots-Recoverable {st} {sz} {goal} r (again {e} {e'} b i) =
    let r₁ = Reboots-Recoverable r b in
    All-In (Recoverable st sz goal) e' (e ∷ (initlog st sz e).history)
      (r₁, (initlog-Ready st sz goal e r₁).1) i

-- A disk whose log asks for `goal` is brought to `goal` by `initlog`, however often recovery itself
-- was cut off by a crash before: every block outside the log is then as in `goal`, nothing is
-- pending or pinned, and the buffers agree with the disk.
pub recovery_lem :
    (st sz : ℕ) (goal d e : Disk)
    → Recoverable st sz goal d
    → Reboots st sz d e
    → Ready st sz goal (initlog st sz e)
      × ((x : ℕ) → in_log st sz x ≡ false → (initlog st sz e).disk x ≡ goal x)
recovery_lem st sz goal d e r b =
    let ready = (initlog-Ready st sz goal e (Reboots-Recoverable r b)).0 in
    (ready, ready.redo.redone)
