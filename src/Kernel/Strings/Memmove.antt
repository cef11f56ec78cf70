-- ===== src/Kernel/Strings/Memmove.antt =====
-- `memmove` of kernel/string.c on ranges that may overlap.
use sleep_e_pingpong.Base.{
  ℕ, zero, suc, ◌+◌, ◌-◌, ◌≤◌, ◌≡◌, ◌∙◌, ◌⊎◌, inl, inr, Bool, ◌&&◌, ltb, leb, ◌==◌, if◌then◌else◌,
  Bool-cases, arith,
}
use sleep_e_pingpong.Kernel.Strings.{Mem, store, move_up, move_down, memmove}

-- `a` is one of the `n` addresses from `p` on.
abbrev pub within : ℕ → ℕ → ℕ → Bool
within p n a = leb p a && ltb a (p + n)

-- What a copy of `n` bytes from `s` to `d` ought to leave at `a`.
abbrev pub copied : Mem → ℕ → ℕ → ℕ → ℕ → ℕ
copied m d s n a = if within d n a then m (s + (a - d)) else m a

-- One byte is written at `d`, and the copy of the rest does not read it.
up_step :
    (m : Mem) (d s n a : ℕ)
    → (d ≤ s) ⊎ (s + suc n ≤ d)
    → copied (store m d (m s)) (d + 1) (s + 1) n a ≡ copied m d s (suc n) a
unfolding store
up_step m d s n a h = elim (Bool-cases (a == d)) [
  | inl e ↦ let i : s + (a - d) ≡ s = ground arith in rw i (ground arith)
  | inr e ↦ elim (Bool-cases (within (d + 1) n a)) [
    | inl w ↦ let i : (s + 1) + (a - (d + 1)) ≡ s + (a - d) = ground arith in rw i (ground arith)
    | inr w ↦ ground arith
  ]
]

move_up_lem : (m : Mem) (d s n a : ℕ) → (d ≤ s) ⊎ (s + n ≤ d) → move_up m d s n a ≡ copied m d s n a
unfolding move_up
move_up_lem m d s zero a h = ground arith
move_up_lem m d s (suc n) a h =
    let h' : (d + 1 ≤ s + 1) ⊎ ((s + 1) + n ≤ d + 1) = ground arith in
    move_up_lem (store m d (m s)) (d + 1) (s + 1) n a h' ∙ up_step m d s n a h

down_step :
    (m : Mem) (d s n a : ℕ)
    → s ≤ d
    → copied (store m (d + n) (m (s + n))) d s n a ≡ copied m d s (suc n) a
unfolding store
down_step m d s n a h = elim (Bool-cases (a == (d + n))) [
  | inl e ↦ let i : s + (a - d) ≡ s + n = ground arith in rw i (ground arith)
  | inr e ↦ ground arith
]

move_down_lem : (m : Mem) (d s n a : ℕ) → s ≤ d → move_down m d s n a ≡ copied m d s n a
unfolding move_down
move_down_lem m d s zero a h = ground arith
move_down_lem m d s (suc n) a h =
    move_down_lem (store m (d + n) (m (s + n))) d s n a h ∙ down_step m d s n a h

-- `memmove` leaves at each of the `n` addresses from `dst` on the byte that stood at the matching
-- address from `src` on before the call, however the two ranges overlap, and changes no other byte.
pub memmove-copied : (m : Mem) (dst src n a : ℕ) → memmove m dst src n a ≡ copied m dst src n a
unfolding memmove
memmove-copied m d s n a = elim (Bool-cases (n == 0)) [
  | inl e ↦ rw e (ground arith)
  | inr e ↦ elim (Bool-cases (ltb s d && ltb d (s + n))) [
    | inl e' ↦ rw e (rw e' (move_down_lem m d s n a (ground arith)))
    | inr e' ↦ rw e (rw e' (move_up_lem m d s n a (ground arith)))
  ]
]
