-- ===== src/Kernel/Log/Put.antt =====
-- Absorption in kernel/log.c: the slot that `log_write` finds, and the list it makes.
use sleep_e_pingpong.Base.{
  ℕ, ◌+◌, ◌≤◌, ◌<◌, ◌≡◌, refl, ◌∙◌, ◌≢◌, ◌⊎◌, inl, inr, false, List, [], ◌∷◌, arith, ◌==◌, ==_refl,
  if◌then◌else◌, Bool-cases, set, length, get_or-set_self, get_or-set_ne,
}
use sleep_e_pingpong.Kernel.Log.{Block, Disk, update, find_slot}
use sleep_e_pingpong.Kernel.Log.Disk.{Updates, mentions, HasBlocks, in_log, Outside}
use sleep_e_pingpong.Kernel.Log.WriteLog.{Values}

-- The transaction with the content of `b` set to `v`: in its place, or at the end.
abbrev pub put : ℕ → Block → Updates → Updates
put b v [] = (b, v) ∷ []
put b v ((c, w) ∷ ps) = if c == b then (b, v) ∷ ps else (c, w) ∷ put b v ps

pub length-put :
    (b : ℕ) (v : Block) (ps : Updates)
    → length (put b v ps) ≡ length ps + (if mentions b ps == 0 then 1 else 0)
length-put b v [] = refl
length-put b v ((c, w) ∷ ps) = ground (arith, length-put b v ps)

pub mentions-put :
    (b : ℕ) (v : Block) (ps : Updates) (x : ℕ)
    → mentions x (put b v ps)
      ≡ mentions x ps + (if mentions b ps == 0 then (if x == b then 1 else 0) else 0)
mentions-put b v [] x = ground arith
mentions-put b v ((c, w) ∷ ps) x = ground (arith, mentions-put b v ps x)

-- A later index keeps what stands before it.
HasBlocks-set :
    (block : List ℕ) (j b i : ℕ) (ps : Updates)
    → (j < i) ⊎ (i + length ps ≤ j)
    → HasBlocks block i ps
    → HasBlocks (set block j b) i ps
HasBlocks-set block j b i [] h hb = tt
HasBlocks-set block j b i ((c, w) ∷ ps) h (e, hb) = (
  get_or-set_ne block j i b 0 (omega arith) ∙ e,
  HasBlocks-set block j b (i + 1) ps (omega arith) hb,
)

-- Where the loop of `log_write` stops, and what writing there makes of the list.
pub record Slot (b : ℕ) (v : Block) (block : List ℕ) (i : ℕ) (ps : Updates) (j : ℕ) : Type 0 where
  pub low : i ≤ j
  pub high : j ≤ i + length ps
  pub lists : HasBlocks (set block j b) i (put b v ps)
  pub absent : mentions b ps ≡ 0 → j ≡ i + length ps
  pub present : mentions b ps ≢ 0 → j < i + length ps

pub find_slot-Slot :
    (b : ℕ) (v : Block) (block : List ℕ) (i : ℕ) (ps : Updates)
    → HasBlocks block i ps
    → i + length ps < length block
    → Slot b v block i ps (find_slot (length ps) i b block)
unfolding find_slot
find_slot-Slot b v block i [] hb room = record {
  low = omega arith;
  high = omega arith;
  lists = (get_or-set_self block i b 0 (omega arith), tt);
  absent = λ m. omega arith;
  present = λ m. absurd (m refl);
}
find_slot-Slot b v block i ((c, w) ∷ ps) (e, hb) room = elim (Bool-cases (c == b)) [
  | inl here ↦
      rw (e, here)
        (record {
          low = omega arith;
          high = omega arith;
          lists = rw here (
            get_or-set_self block i b 0 (omega arith),
            HasBlocks-set block i b (i + 1) ps (inl (omega arith)) hb,
          );
          absent = λ m. absurd (ground arith);
          present = λ m. omega arith;
        })
  | inr away ↦
      let k = find_slot-Slot b v block (i + 1) ps hb (omega arith) in
      let j = find_slot (length ps) (i + 1) b block in
      rw (e, away)
        (record {
          low = omega (arith, k.low);
          high = omega (arith, k.high);
          lists = rw away (get_or-set_ne block j i b 0 (omega (arith, k.low)) ∙ e, k.lists);
          absent = λ m. k.absent (ground arith) ∙ omega arith;
          present = λ m. omega (arith, k.present (ground arith));
        })
]

pub Outside-put :
    (st sz b : ℕ) (v : Block) (ps : Updates)
    → in_log st sz b ≡ false
    → Outside st sz ps
    → Outside st sz (put b v ps)
Outside-put st sz b v [] ob out = (ob, tt)
Outside-put st sz b v ((c, w) ∷ ps) ob (oc, out) = elim (Bool-cases (c == b)) [
  | inl here ↦ rw here (ob, out)
  | inr away ↦ rw away (oc, Outside-put st sz b v ps ob out)
]

Values-update :
    (view : Disk) (b : ℕ) (v : Block) (ps : Updates)
    → mentions b ps ≡ 0
    → Values view ps
    → Values (update view b v) ps
Values-update view b v [] m vs = tt
Values-update view b v ((c, w) ∷ ps) m (e, vs) =
    let away : (c == b) ≡ false = ground arith in
    (rw away e, Values-update view b v ps (ground arith) vs)

pub Values-put :
    (view : Disk) (b : ℕ) (v : Block) (ps : Updates)
    → mentions b ps ≤ 1
    → Values view ps
    → Values (update view b v) (put b v ps)
Values-put view b v [] single vs = (rw (==_refl b) refl, tt)
Values-put view b v ((c, w) ∷ ps) single (e, vs) = elim (Bool-cases (c == b)) [
  | inl here ↦ rw here (rw (==_refl b) refl, Values-update view b v ps (ground arith) vs)
  | inr away ↦ rw away (rw away e, Values-put view b v ps (ground arith) vs)
]
