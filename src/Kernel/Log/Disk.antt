-- ===== src/Kernel/Log/Disk.antt =====
-- What a disk with a log (kernel/log.c) stands for: the pending updates and the disk they lead to.
use sleep_e_pingpong.Base.{
  ℕ, ◌+◌, ◌≤◌, ◌<◌, ◌≡◌, refl, ◌∙◌, ◌≢◌, inl, inr, Bool, true, false, ◌&&◌, List, [], ◌∷◌, arith,
  ltb, leb, ◌==◌, ==_iff, if◌then◌else◌, Bool-cases, get_or, length,
}
use sleep_e_pingpong.Kernel.Log.{Block, Disk, update, logsize}

-- Updates in order: block number and content.
abbrev pub Updates : Type 0
Updates = List (ℕ × Block)

abbrev pub apply : Updates → Disk → Disk
apply [] d = d
apply ((b, v) ∷ ps) d = apply ps (update d b v)

-- How often a block is updated.
abbrev pub mentions : ℕ → Updates → ℕ
mentions x [] = 0
mentions x ((b, v) ∷ ps) = (if x == b then 1 else 0) + mentions x ps

pub apply_other : (ps : Updates) (d : Disk) (x : ℕ) → mentions x ps ≡ 0 → apply ps d x ≡ d x
apply_other [] d x h = refl
apply_other ((b, v) ∷ ps) d x h = ground (arith, apply_other ps (update d b v) x)

-- Where an update is made, what was there before does not matter.
pub apply_base :
    (ps : Updates) (d d' : Disk) (x : ℕ)
    → (mentions x ps ≡ 0 → d x ≡ d' x)
    → apply ps d x ≡ apply ps d' x
apply_base [] d d' x h = h refl
apply_base ((b, v) ∷ ps) d d' x h =
    apply_base ps (update d b v) (update d' b v) x (λ e. ground (arith, h))

pub mentions-apart :
    (x b : ℕ) (ps : Updates) → mentions x ps ≡ 0 → mentions b ps ≢ 0 → (x == b) ≡ false
mentions-apart x b ps e some_of = elim (Bool-cases (x == b)) [
  | inl same ↦ absurd (some_of (rw ((==_iff x b).0 same) at e))
  | inr other ↦ other
]

-- The numbers of the updates stand in an array from index `i` on.
abbrev pub HasBlocks : List ℕ → ℕ → Updates → Type 0
HasBlocks block i [] = Unit
HasBlocks block i ((b, v) ∷ ps) = (get_or block i 0 ≡ b) × HasBlocks block (i + 1) ps

-- Their contents stand in the log blocks from index `i` on.
abbrev pub HasData : Disk → ℕ → ℕ → Updates → Type 0
HasData d start i [] = Unit
HasData d start i ((b, v) ∷ ps) = (d (start + i + 1) ≡ v) × HasData d start (i + 1) ps

module _ (start size : ℕ) where
  -- The blocks of the log, its header first.
  abbrev pub in_log : ℕ → Bool
  in_log b = leb start b && ltb b (start + size)

  abbrev pub Outside : Updates → Type 0
  Outside [] = Unit
  Outside ((b, v) ∷ ps) = (in_log b ≡ false) × Outside ps

  pub mentions_log : (ps : Updates) (x : ℕ) → Outside ps → in_log x ≡ true → mentions x ps ≡ 0
  mentions_log [] x o h = refl
  mentions_log ((b, v) ∷ ps) x (out, o) h = ground (arith, mentions_log ps x o h)

  pub HasData-frame :
      {d d' : Disk} (i : ℕ) (ps : Updates)
      → ((x : ℕ) → start < x → in_log x ≡ true → d' x ≡ d x)
      → i + length ps < size
      → HasData d start i ps
      → HasData d' start i ps
  HasData-frame i [] same h g = tt
  HasData-frame i ((b, v) ∷ ps) same h (e, g) = (
    same (start + i + 1) (omega arith) (ground arith) ∙ e,
    HasData-frame (i + 1) ps same (omega arith) g,
  )

  -- The header of `d` lists the updates `ps`, the log holds them, and redoing them yields `goal`.
  pub record Redo (ps : Updates) (goal d : Disk) : Type 0 where
    pub count : get_or (d start) 0 0 ≡ length ps
    pub short : length ps ≤ logsize
    pub fits : length ps < size
    pub room : logsize < length (d start)
    pub blocks : HasBlocks (d start) 1 ps
    pub contents : HasData d start 0 ps
    pub outside : Outside ps
    pub redone : (x : ℕ) → in_log x ≡ false → apply ps d x ≡ goal x

  abbrev pub Recoverable : Disk → Disk → Type 0
  Recoverable goal d = (ps : Updates) × Redo ps goal d

  -- Installing one of the updates changes nothing of this.
  pub Redo-update :
      {ps : Updates} {goal d : Disk} (b : ℕ) (v : Block)
      → Redo ps goal d
      → in_log b ≡ false
      → mentions b ps ≢ 0
      → Redo ps goal (update d b v)
  Redo-update {ps} {goal} {d} b v r out some_of =
      let inside : (x : ℕ) → in_log x ≡ true → update d b v x ≡ d x = λ x h. ground arith in
      let head : update d b v start ≡ d start = inside start (ground (arith, r.fits)) in
      record {
        count = rw head r.count;
        short = r.short;
        fits = r.fits;
        room = rw head r.room;
        blocks = rw head r.blocks;
        contents = HasData-frame 0 ps (λ x _ h. inside x h) (omega (arith, r.fits)) r.contents;
        outside = r.outside;
        redone = λ x h.
            apply_base ps (update d b v) d x (λ e. rw (mentions-apart x b ps e some_of) refl)
            ∙ r.redone x h;
      }
