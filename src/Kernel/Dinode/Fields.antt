-- ===== src/Kernel/Dinode/Fields.antt =====
-- The fields of a dinode of kernel/fs.c: reading after writing, byte by byte.
use sleep_e_pingpong.Base.{
  uint_mod, ℕ, zero, suc, ◌+◌, ◌*◌, ◌≤◌, ◌<◌, ◌≡◌, refl, ◌∙◌, ◌≢◌, ◌⊎◌, inl, inr, List, [], ◌∷◌,
  length, All, arith,
}
use sleep_e_pingpong.Kernel.Fs.{Block, poke}
use sleep_e_pingpong.Kernel.Fs.Bits.{IsBytes}
use sleep_e_pingpong.Kernel.Inode.{word, set_word}
use sleep_e_pingpong.Kernel.Inode.Words.{word-set_word_self, set_word-IsBytes}
use sleep_e_pingpong.Kernel.Dinode.{half, set_half, put_addrs, get_addrs}

pub half-set_half_self : (blk : Block) (j v : ℕ) → v < 65536 → half (set_half blk j v) j ≡ v
unfolding half set_half poke
half-set_half_self blk j v h = ground arith

pub set_half_other :
    (blk : Block) (j v b : ℕ) → b ≢ 2 * j → b ≢ 2 * j + 1 → set_half blk j v b ≡ blk b
unfolding set_half poke
set_half_other blk j v b h h' = ground arith

pub set_half-IsBytes : (blk : Block) (j v : ℕ) → IsBytes blk → IsBytes (set_half blk j v)
unfolding set_half poke
set_half-IsBytes blk j v h i = let old = h i in ground arith

pub set_word_other :
    (blk : Block) (j v b : ℕ) → b < 4 * j ⊎ 4 * j + 4 ≤ b → set_word blk j v b ≡ blk b
unfolding set_word poke
set_word_other blk j v b (inl h) = ground arith
set_word_other blk j v b (inr h) = ground arith

pub half_same :
    (blk blk' : Block) (j : ℕ)
    → blk' (2 * j) ≡ blk (2 * j)
    → blk' (2 * j + 1) ≡ blk (2 * j + 1)
    → half blk' j ≡ half blk j
unfolding half
half_same blk blk' j e e' = rw (e, e') refl

pub word_same :
    (blk blk' : Block) (j : ℕ)
    → ((b : ℕ) → 4 * j ≤ b → b < 4 * j + 4 → blk' b ≡ blk b)
    → word blk' j ≡ word blk j
unfolding word
word_same blk blk' j e =
    rw
      (
        e (4 * j) (omega arith) (omega arith),
        e (4 * j + 1) (omega arith) (omega arith),
        e (4 * j + 2) (omega arith) (omega arith),
        e (4 * j + 3) (omega arith) (omega arith),
      )
      refl

-- The words of `addrs` change no byte before or after them.
pub put_addrs_other :
    (blk : Block) (j : ℕ) (addrs : List ℕ) (b : ℕ)
    → b < 4 * j ⊎ 4 * (j + length addrs) ≤ b
    → put_addrs blk j addrs b ≡ blk b
unfolding put_addrs
put_addrs_other blk j [] b h = refl
put_addrs_other blk j (a ∷ addrs) b (inl h) =
    put_addrs_other (set_word blk j a) (j + 1) addrs b (inl (omega (arith, h)))
    ∙ set_word_other blk j a b (inl h)
put_addrs_other blk j (a ∷ addrs) b (inr h) =
    put_addrs_other (set_word blk j a) (j + 1) addrs b (inr (omega (arith, h)))
    ∙ set_word_other blk j a b (inr (omega (arith, h)))

pub put_addrs-IsBytes :
    (blk : Block) (j : ℕ) (addrs : List ℕ) → IsBytes blk → IsBytes (put_addrs blk j addrs)
unfolding put_addrs
put_addrs-IsBytes blk j [] h = h
put_addrs-IsBytes blk j (a ∷ addrs) h =
    put_addrs-IsBytes (set_word blk j a) (j + 1) addrs (set_word-IsBytes blk j a h)

pub get_addrs-put_addrs :
    (blk : Block) (j : ℕ) (addrs : List ℕ)
    → All (λ a. a < uint_mod) addrs
    → get_addrs (put_addrs blk j addrs) j (length addrs) ≡ addrs
unfolding put_addrs get_addrs
get_addrs-put_addrs blk j [] h = refl
get_addrs-put_addrs blk j (a ∷ addrs) (h, hs) =
    let blk' = set_word blk j a in
    let first : word (put_addrs blk' (j + 1) addrs) j ≡ a =
      word_same blk' (put_addrs blk' (j + 1) addrs) j
        (λ b _ h'. put_addrs_other blk' (j + 1) addrs b (inl (omega (arith, h'))))
      ∙ word-set_word_self blk j a h in
    rw (first, get_addrs-put_addrs blk' (j + 1) addrs hs) refl

pub get_addrs_same :
    (blk blk' : Block) (j n : ℕ)
    → ((b : ℕ) → 4 * j ≤ b → b < 4 * (j + n) → blk' b ≡ blk b)
    → get_addrs blk' j n ≡ get_addrs blk j n
unfolding get_addrs
get_addrs_same blk blk' j zero e = refl
get_addrs_same blk blk' j (suc n) e =
    rw
      (
        word_same blk blk' j (λ b h h'. e b h (omega (arith, h'))),
        get_addrs_same blk blk' (j + 1) n (λ b h h'. e b (omega (arith, h)) (omega (arith, h'))),
      )
      refl
