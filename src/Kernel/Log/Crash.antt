-- ===== src/Kernel/Log/Crash.antt =====
-- Crashes during `commit` of kernel/log.c, and after it.
use sleep_e_pingpong.Base.{
  ℕ, ◌<◌, ◌≡◌, sym, ◌⊎◌, inl, inr, false, List, [], ◌∷◌, ◌++◌, append-nil, length,
}
use mathlib.Core.Path.{subst}
use sleep_e_pingpong.Kernel.Log.{Disk, Log, commit, initlog}
use sleep_e_pingpong.Kernel.Log.Disk.{Updates, in_log, Recoverable}
use sleep_e_pingpong.Kernel.Log.Commit.{Pending, commit-Committed}
use sleep_e_pingpong.Kernel.Log.Recovery.{In, All-In, Reboots, recovery_lem}

module _ (st sz : ℕ) where
  In-append : (d : Disk) (xs ys : List Disk) → In d (xs ++ ys) → In d xs ⊎ In d ys
  In-append d [] ys i = inr i
  In-append d (x ∷ xs) ys (inl e) = inl (inl e)
  In-append d (x ∷ xs) ys (inr i) = elim (In-append d xs ys i) [
    | inl j ↦ inl (inr j)
    | inr j ↦ inr j
  ]

  -- Every block outside the log is as in `goal` once the machine has started on `e`.
  abbrev pub Recovers : Disk → Disk → Type 0
  Recovers goal e = (x : ℕ) → in_log st sz x ≡ false → (initlog st sz e).disk x ≡ goal x

  crash_disk :
      (ps : Updates) (s : Log) (d : Disk)
      → Pending st sz ps s
      → 0 < length ps
      → s.history ≡ []
      → In d (s.disk ∷ (commit s).history)
      → Recoverable st sz s.disk d ⊎ Recoverable st sz s.view d
  crash_disk ps s d p some_block fresh (inl e) =
      inl (subst (Recoverable st sz s.disk) (sym e) ([], p.redo))
  crash_disk ps s d p some_block fresh (inr i) =
      let c = commit-Committed st sz ps s p some_block in
      let i' : In d (c.after ++ c.before) = rw (c.history, fresh, append-nil) at i in
      elim (In-append d c.after c.before i') [
        | inl new ↦ inr (All-In (Recoverable st sz s.view) d c.after c.new_disks new)
        | inr old ↦ inl (All-In (Recoverable st sz s.disk) d c.before c.old_disks old)
      ]

  -- A crash before or after any disk write of a commit, followed by any number of crashes during
  -- recovery, loses no atomicity: when the machine has started at last, all blocks outside the log
  -- are as they were on the disk before the commit, or all are as in the committed buffers.
  pub commit_crash_atomic :
      (ps : Updates) (s : Log) (d e : Disk)
      → Pending st sz ps s
      → 0 < length ps
      → s.history ≡ []
      → In d (s.disk ∷ (commit s).history)
      → Reboots st sz d e
      → Recovers s.disk e ⊎ Recovers s.view e
  commit_crash_atomic ps s d e p some_block fresh i b =
      elim (crash_disk ps s d p some_block fresh i) [
        | inl old ↦ inl (recovery_lem st sz s.disk d e old b).1
        | inr new ↦ inr (recovery_lem st sz s.view d e new b).1
      ]

  -- What a finished commit wrote survives any crashes: every start of the machine afterwards finds
  -- the committed content in all blocks outside the log.
  pub commit_durable :
      (ps : Updates) (s : Log) (e : Disk)
      → Pending st sz ps s
      → 0 < length ps
      → Reboots st sz (commit s).disk e
      → Recovers s.view e
  commit_durable ps s e p some_block b =
      let c = commit-Committed st sz ps s p some_block in
      (recovery_lem st sz s.view (commit s).disk e ([], c.redo) b).1
