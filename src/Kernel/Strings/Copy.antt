-- ===== src/Kernel/Strings/Copy.antt =====
-- `strncpy` and `safestrcpy` of kernel/string.c between ranges that do not overlap.
use sleep_e_pingpong.Base.{
  ℕ, zero, suc, ◌+◌, ◌≤◌, ◌<◌, ◌≡◌, refl, sym, ap, ◌∙◌, ◌⊎◌, inl, inr, true, false, ◌==◌,
  if◌then◌else◌, Bool-cases, arith, ◌≢◌,
}
use sleep_e_pingpong.Kernel.Strings.{Mem, store, fill_zeros, strncpy, safe_loop, safestrcpy}
use sleep_e_pingpong.Kernel.Strings.Memmove.{within}

-- How many bytes from `t` on come before a null byte, among the first `n`.
abbrev pub strnlen : Mem → ℕ → ℕ → ℕ
strnlen m t zero = 0
strnlen m t (suc n) = if m t == 0 then 0 else suc (strnlen m (t + 1) n)

pub strnlen_le : (m : Mem) (t n : ℕ) → strnlen m t n ≤ n
strnlen_le m t zero = omega arith
strnlen_le m t (suc n) = let h = strnlen_le m (t + 1) n in ground arith

store_ne : (m : Mem) (p v a : ℕ) → a ≢ p → store m p v a ≡ m a
unfolding store
store_ne m p v a h = ground arith

store_self : (m : Mem) (p v : ℕ) → store m p v p ≡ v
unfolding store
store_self m p v = ground arith

-- A write outside of the bytes that are read.
strnlen-store :
    (m : Mem) (p v t n : ℕ) → (p < t) ⊎ (t + n ≤ p) → strnlen (store m p v) t n ≡ strnlen m t n
strnlen-store m p v t zero h = refl
strnlen-store m p v t (suc n) h =
    let e = store_ne m p v t (ground arith) in
    let rest = strnlen-store m p v (t + 1) n (ground arith) in rw (e, rest) refl

fill_zeros_lem : (m : Mem) (s n a : ℕ) → fill_zeros m s n a ≡ (if within s n a then 0 else m a)
unfolding fill_zeros store
fill_zeros_lem m s zero a = ground arith
fill_zeros_lem m s (suc n) a = let h = fill_zeros_lem (store m s 0) (s + 1) n a in ground arith

-- What a copy of `n` bytes, padded with null bytes, ought to leave.
pub record Padded (m m' : Mem) (s t n : ℕ) : Type 0 where
  pub prefix : (i : ℕ) → i < strnlen m t n → m' (s + i) ≡ m (t + i)
  pub padding : (i : ℕ) → strnlen m t n ≤ i → i < n → m' (s + i) ≡ 0
  pub outside : (a : ℕ) → within s n a ≡ false → m' a ≡ m a

-- What a copy into `n + 1` bytes ought to leave: at most `n` of the string, and a null byte.
pub record Ended (m m' : Mem) (s t n : ℕ) : Type 0 where
  pub prefix : (i : ℕ) → i < strnlen m t n → m' (s + i) ≡ m (t + i)
  pub ends : m' (s + strnlen m t n) ≡ 0
  pub outside : (a : ℕ) → within s (suc n) a ≡ false → m' a ≡ m a

Padded-end :
    (m : Mem) (s t n : ℕ)
    → (m t == 0) ≡ true
    → Padded m (fill_zeros (store m s (m t)) (s + 1) n) s t (suc n)
unfolding store
Padded-end m s t n e = record {
  prefix = λ i lt. let lt' = rw e at lt in absurd (omega arith);
  padding = λ i le lt. let h = fill_zeros_lem (store m s (m t)) (s + 1) n (s + i) in ground arith;
  outside = λ a out. let h = fill_zeros_lem (store m s (m t)) (s + 1) n a in ground arith;
}

strnlen-suc :
    (m : Mem) (t n : ℕ) → (m t == 0) ≡ false → strnlen m t (suc n) ≡ suc (strnlen m (t + 1) n)
strnlen-suc m t n e = rw e refl

-- One byte is copied, and the copy of the rest does not read or write it.
module _ (m m' : Mem) (s t n : ℕ) (apart : (s + suc n ≤ t) ⊎ (t + suc n ≤ s))
    (e : (m t == 0) ≡ false) where
  more_len : strnlen m t (suc n) ≡ suc (strnlen (store m s (m t)) (t + 1) n)
  more_len = strnlen-suc m t n e ∙ ap suc (sym (strnlen-store m s (m t) (t + 1) n (ground arith)))

  more_prefix :
      (kept : m' s ≡ m t)
      → ((i : ℕ)
          → i < strnlen (store m s (m t)) (t + 1) n
          → m' ((s + 1) + i) ≡ store m s (m t) ((t + 1) + i))
      → (i : ℕ) → i < strnlen m t (suc n)
      → m' (s + i) ≡ m (t + i)
  more_prefix kept rest zero lt =
      let i : s + 0 ≡ s = omega arith in let j : t + 0 ≡ t = omega arith in rw (i, j) kept
  more_prefix kept rest (suc i) lt =
      let le = strnlen_le (store m s (m t)) (t + 1) n in
      let lt' : i < strnlen (store m s (m t)) (t + 1) n = omega (arith, more_len) in
      let k : s + suc i ≡ (s + 1) + i = omega arith in
      let j : t + suc i ≡ (t + 1) + i = omega arith in
      let same = store_ne m s (m t) ((t + 1) + i) (ground arith) in rw (k, j) (rest i lt' ∙ same)

  more_padding :
      ((i : ℕ) → strnlen (store m s (m t)) (t + 1) n ≤ i → i < n → m' ((s + 1) + i) ≡ 0)
      → (i : ℕ) → strnlen m t (suc n) ≤ i
      → i < suc n
      → m' (s + i) ≡ 0
  more_padding rest zero le lt = absurd (omega (arith, more_len))
  more_padding rest (suc i) le lt =
      let k : s + suc i ≡ (s + 1) + i = omega arith in
      rw k (rest i (omega (arith, more_len)) (omega arith))

  Padded-more : Padded (store m s (m t)) m' (s + 1) (t + 1) n → Padded m m' s t (suc n)
  Padded-more p =
      let kept = p.outside s (ground arith) ∙ store_self m s (m t) in
      record {
        prefix = more_prefix kept p.prefix;
        padding = more_padding p.padding;
        outside = λ a out. p.outside a (ground arith) ∙ store_ne m s (m t) a (ground arith);
      }

  Ended-more : Ended (store m s (m t)) m' (s + 1) (t + 1) n → Ended m m' s t (suc n)
  Ended-more p =
      let kept = p.outside s (ground arith) ∙ store_self m s (m t) in
      let at_end : s + strnlen m t (suc n) ≡ (s + 1) + strnlen (store m s (m t)) (t + 1) n =
        omega (arith, more_len) in
      record {
        prefix = more_prefix kept p.prefix;
        ends = ap m' at_end ∙ p.ends;
        outside = λ a out. p.outside a (ground arith) ∙ store_ne m s (m t) a (ground arith);
      }

-- `strncpy(s, t, n)`, where the `n` bytes from `s` on and those from `t` on are apart, copies the bytes
-- before the null byte of `t`, fills the rest of the `n` bytes with null bytes, and changes no other.
pub strncpy-Padded :
    (m : Mem) (s t n : ℕ) → (s + n ≤ t) ⊎ (t + n ≤ s) → Padded m (strncpy m s t n) s t n
unfolding strncpy
strncpy-Padded m s t zero h = record {
  prefix = λ i lt. absurd (omega arith);
  padding = λ i le lt. absurd (omega arith);
  outside = λ a out. refl;
}
strncpy-Padded m s t (suc n) h =
    let rest = strncpy-Padded (store m s (m t)) (s + 1) (t + 1) n (ground arith) in
    elim (Bool-cases (m t == 0)) [
      | inl e ↦ rw e (Padded-end m s t n e)
      | inr e ↦ rw e (Padded-more m _ s t n h e rest)
    ]

Ended-here :
    (m : Mem) (s t n : ℕ)
    → (m t == 0) ≡ true
    → Ended m (store (store m s (m t)) (s + 1) 0) s t (suc n)
unfolding store
Ended-here m s t n e = record {
  prefix = λ i lt. let lt' = rw e at lt in absurd (omega arith);
  ends = rw e (ground arith);
  outside = λ a out. ground arith;
}

safe_loop-Ended :
    (m : Mem) (s t n : ℕ) → (s + n ≤ t) ⊎ (t + n ≤ s) → Ended m (safe_loop m s t n) s t n
unfolding safe_loop
safe_loop-Ended m s t zero h = record {
  prefix = λ i lt. absurd (omega arith);
  ends = let i : s + 0 ≡ s = omega arith in rw i (store_self m s 0);
  outside = λ a out. store_ne m s 0 a (ground arith);
}
safe_loop-Ended m s t (suc n) h =
    let rest = safe_loop-Ended (store m s (m t)) (s + 1) (t + 1) n (ground arith) in
    elim (Bool-cases (m t == 0)) [
      | inl e ↦ rw e (Ended-here m s t n e)
      | inr e ↦ rw e (Ended-more m _ s t n h e rest)
    ]

-- `safestrcpy(s, t, n + 1)`, where the `n` bytes from `s` on and those from `t` on are apart, copies
-- the bytes before the null byte of `t`, `n` of them at most, puts a null byte right after them, and
-- changes no byte outside of the `n + 1` from `s` on.
pub safestrcpy-Ended :
    (m : Mem) (s t n : ℕ) → (s + n ≤ t) ⊎ (t + n ≤ s) → Ended m (safestrcpy m s t (suc n)) s t n
unfolding safestrcpy
safestrcpy-Ended m s t n h = safe_loop-Ended m s t n h
