-- ===== src/Kernel/Inode/Words.antt =====
-- Entries of an indirect block of kernel/fs.c: reading after writing.
use sleep_e_pingpong.Base.{uint_mod, ℕ, ◌+◌, ◌*◌, ◌<◌, ◌≡◌, refl, ◌≢◌, arith}
use sleep_e_pingpong.Kernel.Fs.{Block, poke}
use sleep_e_pingpong.Kernel.Fs.Bits.{IsBytes}
use sleep_e_pingpong.Kernel.Inode.{word, set_word}

pub word-set_word_self : (blk : Block) (j v : ℕ) → v < uint_mod → word (set_word blk j v) j ≡ v
unfolding word set_word poke
word-set_word_self blk j v h = ground arith

pub word-set_word_ne : (blk : Block) (j k v : ℕ) → k ≢ j → word (set_word blk j v) k ≡ word blk k
unfolding word set_word poke
word-set_word_ne blk j k v h = ground arith

pub set_word-IsBytes : (blk : Block) (j v : ℕ) → IsBytes blk → IsBytes (set_word blk j v)
unfolding set_word poke
set_word-IsBytes blk j v h i = let old = h i in ground arith

pub word_zero : (blk : Block) (j : ℕ) → ((i : ℕ) → blk i ≡ 0) → word blk j ≡ 0
unfolding word
word_zero blk j h = rw (h (4 * j), h (4 * j + 1), h (4 * j + 2), h (4 * j + 3)) refl
