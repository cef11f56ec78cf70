-- ===== src/Base/Words.antt =====
-- Machine words: the number of values of a `uint`, which wraps around at it, and the largest `int`.
use Prim.Native.Nat.{ℕ, ◌^◌}

abbrev pub uint_mod : ℕ
uint_mod = 2 ^ 32

-- The largest int.
abbrev pub int_max : ℕ
int_max = 2147483647
