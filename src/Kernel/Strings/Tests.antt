-- ===== src/Kernel/Strings/Tests.antt =====
-- The routines of kernel/string.c at concrete inputs.
use sleep_e_pingpong.Base.{
  ℕ, ◌+◌, ◌≤◌, ◌≡◌, refl, ◌⊎◌, inr, if◌then◌else◌, ◌==◌, arith, map, List, [], ◌∷◌,
}
use sleep_e_pingpong.Kernel.Strings.{
  Mem, store, memset, memmove, memcpy, move_up, move_down, strncpy, fill_zeros, safestrcpy,
  safe_loop,
}
use sleep_e_pingpong.Kernel.Strings.Memmove.{copied, memmove-copied}
use sleep_e_pingpong.Kernel.Strings.Copy.{Padded, Ended, strncpy-Padded, safestrcpy-Ended}

-- The bytes at 10, 11 and 12 are "abc", a null byte follows, and every other byte is 7.
abbrev abc : Mem
abc a =
    if a == 10 then 97 else if a == 11 then 98 else if a == 12 then 99 else if a == 13 then 0 else 7

abbrev places : List ℕ
places = 10 ∷ 11 ∷ 12 ∷ 13 ∷ 14 ∷ []

moves_over_itself : map (memmove abc 11 10 3) places ≡ 97 ∷ 97 ∷ 98 ∷ 99 ∷ 7 ∷ []
unfolding memmove move_up move_down store
moves_over_itself = refl

copies_down : map (memcpy abc 10 11 3) places ≡ 98 ∷ 99 ∷ 0 ∷ 0 ∷ 7 ∷ []
unfolding memcpy memmove move_up move_down store
copies_down = refl

sets_two : map (memset abc 11 300 2) places ≡ 97 ∷ 44 ∷ 44 ∷ 0 ∷ 7 ∷ []
unfolding memset store
sets_two = refl

cuts_short : map (safestrcpy abc 20 10 3) (20 ∷ 21 ∷ 22 ∷ 23 ∷ []) ≡ 97 ∷ 98 ∷ 0 ∷ 7 ∷ []
unfolding safestrcpy safe_loop store
cuts_short = refl

pads : map (strncpy abc 20 10 6) (22 ∷ 23 ∷ 24 ∷ 25 ∷ 26 ∷ []) ≡ 99 ∷ 0 ∷ 0 ∷ 0 ∷ 7 ∷ []
unfolding strncpy fill_zeros store
pads = refl

below : (20 + 6 ≤ 10) ⊎ (10 + 6 ≤ 20)
below = inr (omega arith)

memmove-copied_example : memmove abc 11 10 3 12 ≡ copied abc 11 10 3 12
memmove-copied_example = memmove-copied abc 11 10 3 12

strncpy-Padded_example : Padded abc (strncpy abc 20 10 6) 20 10 6
strncpy-Padded_example = strncpy-Padded abc 20 10 6 below

safestrcpy-Ended_example : Ended abc (safestrcpy abc 20 10 7) 20 10 6
safestrcpy-Ended_example = safestrcpy-Ended abc 20 10 6 below
