-- ===== src/Kernel/Bcache.antt =====
-- kernel/bio.c: the buffers and their order. The list runs from `head.next`, the one that was given
-- back last, to `head.prev`; `address` tells the buffers apart. The sleep locks are left out.
mod Get
mod Release
mod Tests
use sleep_e_pingpong.Base.{
  uint_mod, ℕ, zero, suc, ◌+◌, ◌-◌, ◌%◌, Bool, true, false, not, ◌&&◌, List, [], ◌∷◌, ◌++◌, Option,
  none, some, ◌==◌, if◌then◌else◌,
}

abbrev pub nbuf : ℕ
nbuf = 30

-- `struct buf`, less the disk's flag and the lock.
pub record Buf : Type 0 where
  pub address : ℕ
  pub valid : Bool
  pub dev : ℕ
  pub blockno : ℕ
  pub refcnt : ℕ
  pub contents : List ℕ

unfoldable pub is_block : ℕ → ℕ → Buf → Bool
is_block dev blockno b = (b.dev == dev) && (b.blockno == blockno)

unfoldable pub is_unused : Buf → Bool
is_unused b = b.refcnt == 0

-- `binit`: each buffer of the array, from address `i` on, is put in front of the list.
unfoldable pub binit_loop : ℕ → ℕ → List Buf → List Buf
binit_loop zero i bs = bs
binit_loop (suc n) i bs =
    binit_loop n (i + 1)
      (record { address = i; valid = false; dev = 0; blockno = 0; refcnt = 0; contents = [] } ∷ bs)

unfoldable pub binit : List Buf
unfolding binit_loop
binit = binit_loop nbuf 0 []

-- Another reference to a buffer, and a buffer taken for another block.
unfoldable pub hold : Buf → Buf
hold b = record b { refcnt = (b.refcnt + 1) % uint_mod }

unfoldable pub reuse : ℕ → ℕ → Buf → Buf
reuse dev blockno b = record b { dev = dev; blockno = blockno; valid = false; refcnt = 1 }

-- The buffer that was found, and the list after it.
abbrev pub Found : Type 0
Found = Option (Buf × List Buf)

unfoldable pub behind : Buf → Found → Found
behind b none = none
behind b (some (c, cs)) = some (c, b ∷ cs)

-- The two loops of `bget`: the first goes up from `head.next`, the second down from `head.prev`.
unfoldable pub find_cached : ℕ → ℕ → List Buf → Found
unfolding is_block hold behind
find_cached dev blockno [] = none
find_cached dev blockno (b ∷ bs) =
    let rest = find_cached dev blockno bs in
    if is_block dev blockno b then some (hold b, hold b ∷ bs) else behind b rest

unfoldable pub take_here : ℕ → ℕ → Buf → List Buf → Found → Found
unfolding is_unused reuse behind
take_here dev blockno b bs (some r) = behind b (some r)
take_here dev blockno b bs none =
    if is_unused b then some (reuse dev blockno b, reuse dev blockno b ∷ bs) else none

unfoldable pub find_free : ℕ → ℕ → List Buf → Found
unfolding take_here
find_free dev blockno [] = none
find_free dev blockno (b ∷ bs) = take_here dev blockno b bs (find_free dev blockno bs)

-- `bget`; `none` is the panic.
unfoldable pub bget : ℕ → ℕ → List Buf → Found
unfolding find_cached find_free
bget dev blockno bs = elim (find_cached dev blockno bs) [
  | none ↦ find_free dev blockno bs
  | some r ↦ some r
]

-- `bread`, where `disk` is what the driver reads; `none` is the panic of `bget`.
unfoldable pub fetch : List ℕ → Buf → Buf
fetch disk b = if b.valid then b else record b { valid = true; contents = disk }

-- A write through the pointer `a` to the buffers.
unfoldable pub update : ℕ → (Buf → Buf) → List Buf → List Buf
update a f [] = []
update a f (b ∷ bs) = (if b.address == a then f b else b) ∷ update a f bs

unfoldable pub bread : (ℕ → ℕ → List ℕ) → ℕ → ℕ → List Buf → Found
unfolding bget fetch update
bread disk dev blockno bs = elim (bget dev blockno bs) [
  | none ↦ none
  | some (b, cs) ↦ some (fetch (disk dev blockno) b, update b.address (fetch (disk dev blockno)) cs)
]

unfoldable pub release : Buf → Buf
release b = record b { refcnt = (b.refcnt + uint_mod - 1) % uint_mod }

-- The buffer at address `a`, unlinked from the list.
unfoldable pub unlink : ℕ → List Buf → Found
unfolding behind
unlink a [] = none
unlink a (b ∷ bs) = let rest = unlink a bs in if b.address == a then some (b, bs) else behind b rest

-- `brelse` of the buffer at address `a`.
unfoldable pub to_front : List Buf → Found → List Buf
unfolding is_unused release
to_front bs none = bs
to_front bs (some (b, cs)) = if is_unused b then b ∷ cs else bs

unfoldable pub brelse : ℕ → List Buf → List Buf
unfolding update release unlink to_front
brelse a bs = let cs = update a release bs in to_front cs (unlink a cs)
