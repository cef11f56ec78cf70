-- ===== src/Kernel/Strings.antt =====
-- kernel/string.c: the routines that write bytes. Memory is a function from addresses to bytes, and an
-- address plus a length does not pass the end of it. A character is a byte from 0 to 255.
mod Memmove
mod Copy
mod Tests
use sleep_e_pingpong.Base.{ℕ, zero, suc, ◌+◌, ◌%◌, Bool, ◌&&◌, ltb, ◌==◌, if◌then◌else◌}

abbrev pub Mem : Type 0
Mem = ℕ → ℕ

unfoldable pub store : Mem → ℕ → ℕ → Mem
store m p v a = if a == p then v else m a

-- `memset` from the byte at `dst` on, with `n` bytes left.
unfoldable pub memset : Mem → ℕ → ℕ → ℕ → Mem
unfolding store
memset m dst c zero = m
memset m dst c (suc n) = memset (store m dst (c % 256)) (dst + 1) c n

-- The loop of `memmove` that goes up, and the one that goes down from the ends.
unfoldable pub move_up : Mem → ℕ → ℕ → ℕ → Mem
unfolding store
move_up m d s zero = m
move_up m d s (suc n) = move_up (store m d (m s)) (d + 1) (s + 1) n

unfoldable pub move_down : Mem → ℕ → ℕ → ℕ → Mem
unfolding store
move_down m d s zero = m
move_down m d s (suc n) = move_down (store m (d + n) (m (s + n))) d s n

unfoldable pub memmove : Mem → ℕ → ℕ → ℕ → Mem
unfolding move_up move_down
memmove m dst src n =
    if n == 0
    then m
    else if ltb src dst && ltb dst (src + n)
    then move_down m dst src n
    else move_up m dst src n

unfoldable pub memcpy : Mem → ℕ → ℕ → ℕ → Mem
unfolding memmove
memcpy m dst src n = memmove m dst src n

-- The second loop of `strncpy`.
unfoldable pub fill_zeros : Mem → ℕ → ℕ → Mem
unfolding store
fill_zeros m s zero = m
fill_zeros m s (suc n) = fill_zeros (store m s 0) (s + 1) n

-- `strncpy` with `n` bytes left; a negative length does as 0.
unfoldable pub strncpy : Mem → ℕ → ℕ → ℕ → Mem
unfolding store fill_zeros
strncpy m s t zero = m
strncpy m s t (suc n) =
    let rest = strncpy (store m s (m t)) (s + 1) (t + 1) n in
    if m t == 0 then fill_zeros (store m s (m t)) (s + 1) n else rest

-- The loop of `safestrcpy` with `n` bytes left before the last, and the write after it.
unfoldable pub safe_loop : Mem → ℕ → ℕ → ℕ → Mem
unfolding store
safe_loop m s t zero = store m s 0
safe_loop m s t (suc n) =
    let rest = safe_loop (store m s (m t)) (s + 1) (t + 1) n in
    if m t == 0 then store (store m s (m t)) (s + 1) 0 else rest

unfoldable pub safestrcpy : Mem → ℕ → ℕ → ℕ → Mem
unfolding safe_loop
safestrcpy m s t zero = m
safestrcpy m s t (suc n) = safe_loop m s t n
