-- ===== src/Kernel/Fs/Bits.antt =====
-- Setting and clearing a bit of kernel/fs.c's bitmap changes no other bit.
use Prim.Native.Nat.{bit_and, bit_or}
use sleep_e_pingpong.Base.{
  ℕ, zero, suc, ◌+◌, ◌-◌, ◌*◌, ◌/◌, ◌%◌, ◌^◌, ◌<◌, ◌≡◌, refl, inl, inr, Bool, Bool-cases, true,
  false, not, ◌&&◌, ltb, ◌==◌, if◌then◌else◌, arith,
}
use sleep_e_pingpong.Kernel.Fs.{Block, poke, is_clear, set_bit, clear_bit}

-- A test that holds at every number under a bound.
every : (ℕ → Bool) → ℕ → Bool
every ok zero = true
every ok (suc top) = if ok top then every ok top else false

every-at : (ok : ℕ → Bool) (bound n : ℕ) → n < bound → every ok bound ≡ true → ok n ≡ true
unfolding every
every-at ok zero n inside e = absurd (omega (arith, inside))
every-at ok (suc top) n inside e = elim (Bool-cases (ok top)) [
  | inl h ↦ elim (Bool-cases (n == top)) [
    | inl q ↦ let here : n ≡ top = ground arith in rw here h
    | inr q ↦ every-at ok top n (ground arith) (rw h at e)
  ]
  | inr h ↦ let e' = rw h at e in absurd (cc)
]

-- The numbers of two bits of a byte and the byte, as one number.
abbrev at_code : (ℕ → ℕ → ℕ → Bool) → ℕ → Bool
at_code ok code = every (λ x. ok (code / 8) (code % 8) x) 256

bits_bytes : (ℕ → ℕ → ℕ → Bool) → Bool
unfolding every
bits_bytes ok = every (at_code ok) 64

bits_bytes-at :
    (ok : ℕ → ℕ → ℕ → Bool) (k j x : ℕ)
    → k < 8
    → j < 8
    → x < 256
    → bits_bytes ok ≡ true
    → ok k j x ≡ true
unfolding bits_bytes
bits_bytes-at ok k j x hk hj hx e =
    let code = 8 * k + j in
    let first : code / 8 ≡ k = omega (arith, hj) in
    let second : code % 8 ≡ j = omega (arith, hj) in
    let row = every-at (at_code ok) 64 code (omega (arith, hk, hj)) e in
    rw (first, second) at (every-at (λ y. ok (code / 8) (code % 8) y) 256 x hx row)

same : Bool → Bool → Bool
same true b = b
same false b = not b

abbrev is_zero_bit : ℕ → ℕ → Bool
is_zero_bit j x = bit_and x (2 ^ j) == 0

abbrev set_ok : ℕ → ℕ → ℕ → Bool
set_ok k j x =
    same (is_zero_bit j (bit_or x (2 ^ k))) (not (j == k) && is_zero_bit j x)
    && ltb (bit_or x (2 ^ k)) 256

abbrev clear_ok : ℕ → ℕ → ℕ → Bool
clear_ok k j x =
    same (is_zero_bit j (bit_and x (255 - 2 ^ k))) ((if j == k then true else is_zero_bit j x))
    && ltb (bit_and x (255 - 2 ^ k)) 256

set_table : bits_bytes set_ok ≡ true
unfolding bits_bytes every same
set_table = refl

clear_table : bits_bytes clear_ok ≡ true
unfolding bits_bytes every same
clear_table = refl

same_eq : (a b : Bool) → same a b ≡ true → a ≡ b
unfolding same
same_eq true true h = refl
same_eq true false h = cc
same_eq false true h = cc
same_eq false false h = refl

both : (a b : Bool) → (a && b) ≡ true → (a ≡ true) × (b ≡ true)
both true true h = (refl, refl)
both true false h = absurd cc
both false b h = absurd cc

-- What a write of one byte does to a bit of it.
byte_set :
    (k j x : ℕ)
    → k < 8
    → j < 8
    → x < 256
    → (is_zero_bit j (bit_or x (2 ^ k)) ≡ (not (j == k) && is_zero_bit j x))
      × (ltb (bit_or x (2 ^ k)) 256 ≡ true)
byte_set k j x hk hj hx =
    let (e, lt) = both _ _ (bits_bytes-at set_ok k j x hk hj hx set_table) in (same_eq _ _ e, lt)

byte_clear :
    (k j x : ℕ)
    → k < 8
    → j < 8
    → x < 256
    → (is_zero_bit j (bit_and x (255 - 2 ^ k)) ≡ (if j == k then true else is_zero_bit j x))
      × (ltb (bit_and x (255 - 2 ^ k)) 256 ≡ true)
byte_clear k j x hk hj hx =
    let (e, lt) = both _ _ (bits_bytes-at clear_ok k j x hk hj hx clear_table) in
    (same_eq _ _ e, lt)

abbrev pub IsBytes : Block → Type 0
IsBytes blk = (i : ℕ) → blk i < 256

pub set_bit-IsBytes : (blk : Block) (i : ℕ) → IsBytes blk → IsBytes (set_bit blk i)
unfolding set_bit poke
set_bit-IsBytes blk i h n =
    let (_, lt) = byte_set (i % 8) 0 (blk (i / 8)) (omega arith) (omega arith) (h (i / 8)) in
    let old = h n in ground arith

pub clear_bit-IsBytes : (blk : Block) (i : ℕ) → IsBytes blk → IsBytes (clear_bit blk i)
unfolding clear_bit poke
clear_bit-IsBytes blk i h n =
    let (_, lt) = byte_clear (i % 8) 0 (blk (i / 8)) (omega arith) (omega arith) (h (i / 8)) in
    let old = h n in ground arith

pub is_clear-set_bit :
    (blk : Block) (i j : ℕ)
    → IsBytes blk
    → is_clear (set_bit blk i) j ≡ (not (j == i) && is_clear blk j)
unfolding is_clear set_bit poke
is_clear-set_bit blk i j h = elim (Bool-cases ((j / 8) == (i / 8))) [
  | inl e ↦
      let q : j / 8 ≡ i / 8 = ground arith in
      let (e', _) =
        byte_set (i % 8) (j % 8) (blk (i / 8)) (omega arith) (omega arith) (h (i / 8)) in
      let same_bit : (j == i) ≡ ((j % 8) == (i % 8)) = ground arith in rw (e, q, same_bit) e'
  | inr e ↦ let other : (j == i) ≡ false = ground arith in rw (e, other) refl
]

pub is_clear-clear_bit :
    (blk : Block) (i j : ℕ)
    → IsBytes blk
    → is_clear (clear_bit blk i) j ≡ (if j == i then true else is_clear blk j)
unfolding is_clear clear_bit poke
is_clear-clear_bit blk i j h = elim (Bool-cases ((j / 8) == (i / 8))) [
  | inl e ↦
      let q : j / 8 ≡ i / 8 = ground arith in
      let (e', _) =
        byte_clear (i % 8) (j % 8) (blk (i / 8)) (omega arith) (omega arith) (h (i / 8)) in
      let same_bit : (j == i) ≡ ((j % 8) == (i % 8)) = ground arith in rw (e, q, same_bit) e'
  | inr e ↦ let other : (j == i) ≡ false = ground arith in rw (e, other) refl
]
