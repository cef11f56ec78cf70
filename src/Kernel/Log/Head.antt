-- ===== src/Kernel/Log/Head.antt =====
-- The log's header block (kernel/log.c): `write_head` and `read_head`.
use sleep_e_pingpong.Base.{
  ℕ, zero, suc, ◌+◌, ◌≤◌, ◌<◌, ◌≡◌, refl, sym, ◌∙◌, List, [], ◌∷◌, arith, get_or, set, length,
  length-set, get_or-set_self, get_or-set_ne,
}
use mathlib.Core.Path.{subst}
use sleep_e_pingpong.Kernel.Log.{Block, Log, read_blocks, write_blocks, head_block}
use sleep_e_pingpong.Kernel.Log.Disk.{Updates, HasBlocks}

module _ (block : List ℕ) where
  pub length-write_blocks :
      (left i : ℕ) (hb : Block) → length (write_blocks left i block hb) ≡ length hb
  unfolding write_blocks
  length-write_blocks zero i hb = refl
  length-write_blocks (suc left) i hb =
      length-write_blocks left (i + 1) (set hb (i + 1) (get_or block i 0))
      ∙ length-set hb (i + 1) (get_or block i 0)

  -- Words up to index `i` are not written.
  write_blocks_low :
      (left i j : ℕ) (hb : Block)
      → j ≤ i
      → get_or (write_blocks left i block hb) j 0 ≡ get_or hb j 0
  unfolding write_blocks
  write_blocks_low zero i j hb h = refl
  write_blocks_low (suc left) i j hb h =
      write_blocks_low left (i + 1) j (set hb (i + 1) (get_or block i 0)) (omega arith)
      ∙ get_or-set_ne hb (i + 1) j (get_or block i 0) 0 (omega arith)

  write_blocks-HasBlocks :
      (rest : Updates) (i : ℕ) (hb : Block)
      → HasBlocks block i rest
      → i + length rest < length hb
      → HasBlocks (write_blocks (length rest) i block hb) (i + 1) rest
  unfolding write_blocks
  write_blocks-HasBlocks [] i hb h room = tt
  write_blocks-HasBlocks ((b, v) ∷ rest) i hb (e, h) room =
      let hb₁ = set hb (i + 1) (get_or block i 0) in
      (
        write_blocks_low (length rest) (i + 1) (i + 1) hb₁ (omega arith)
            ∙ get_or-set_self hb (i + 1) (get_or block i 0) 0 (omega arith)
            ∙ e,
        write_blocks-HasBlocks rest (i + 1) hb₁ h
            (omega (arith, length-set hb (i + 1) (get_or block i 0))),
      )

module _ (lh : Block) where
  -- Slots below index `i` are not written.
  read_blocks_low :
      (left i j : ℕ) (block : List ℕ)
      → j < i
      → get_or (read_blocks left i lh block) j 0 ≡ get_or block j 0
  unfolding read_blocks
  read_blocks_low zero i j block h = refl
  read_blocks_low (suc left) i j block h =
      read_blocks_low left (i + 1) j (set block i (get_or lh (i + 1) 0)) (omega arith)
      ∙ get_or-set_ne block i j (get_or lh (i + 1) 0) 0 (omega arith)

  pub read_blocks-HasBlocks :
      (rest : Updates) (i : ℕ) (block : List ℕ)
      → HasBlocks lh (i + 1) rest
      → i + length rest ≤ length block
      → HasBlocks (read_blocks (length rest) i lh block) i rest
  unfolding read_blocks
  read_blocks-HasBlocks [] i block h room = tt
  read_blocks-HasBlocks ((b, v) ∷ rest) i block (e, h) room =
      let block₁ = set block i (get_or lh (i + 1) 0) in
      (
        read_blocks_low (length rest) (i + 1) i block₁ (omega arith)
            ∙ get_or-set_self block i (get_or lh (i + 1) 0) 0 (omega arith)
            ∙ e,
        read_blocks-HasBlocks rest (i + 1) block₁ h
            (omega (arith, length-set block i (get_or lh (i + 1) 0))),
      )

-- A header that lists the updates `ps`.
pub record Lists (ps : Updates) (hb : Block) : Type 0 where
  pub count : get_or hb 0 0 ≡ length ps
  pub blocks : HasBlocks hb 1 ps

-- `write_head` makes a header that lists what memory lists.
pub head_block-Lists :
    (ps : Updates) (s : Log)
    → s.n ≡ length ps
    → HasBlocks s.block 0 ps
    → length ps < length (s.view s.start)
    → Lists ps (head_block s) × (length (head_block s) ≡ length (s.view s.start))
unfolding head_block
head_block-Lists ps s e h room =
    let old = s.view s.start in
    let hb = set old 0 s.n in
    let len : length hb ≡ length old = length-set old 0 s.n in
    let out : Lists ps (write_blocks (length ps) 0 s.block hb) = record {
      count =
          write_blocks_low s.block (length ps) 0 0 hb (omega arith)
          ∙ get_or-set_self old 0 s.n 0 (omega arith)
          ∙ e;
      blocks = write_blocks-HasBlocks s.block ps 0 hb h (omega arith);
    } in
    (
      subst (λ k. Lists ps (write_blocks k 0 s.block hb)) (sym e) out,
      length-write_blocks s.block s.n 0 hb ∙ len,
    )
