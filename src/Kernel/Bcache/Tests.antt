-- ===== src/Kernel/Bcache/Tests.antt =====
-- The buffer cache of kernel/bio.c at concrete inputs.
use sleep_e_pingpong.Base.{ℕ, ◌≤◌, ◌≡◌, refl, ◌≢◌, true, false, List, [], ◌∷◌, none, some, arith}
use sleep_e_pingpong.Kernel.Bcache.{
  Buf, binit, binit_loop, is_block, is_unused, hold, reuse, behind, find_cached, take_here,
  find_free, bget, fetch, bread, update, release, unlink, to_front, brelse,
}
use sleep_e_pingpong.Kernel.Bcache.Get.{GetRun, bget-GetRun}
use sleep_e_pingpong.Kernel.Bcache.Release.{copies, get, Calls, stop, more, Calls-copies}

-- Two buffers: the one in front is in use, and the other one was given back.
abbrev front : Buf
front = record { address = 4; valid = true; dev = 1; blockno = 8; refcnt = 1; contents = 65 ∷ [] }

abbrev back : Buf
back = record { address = 2; valid = true; dev = 1; blockno = 9; refcnt = 0; contents = 66 ∷ [] }

abbrev both : List Buf
both = front ∷ back ∷ []

abbrev second : Buf
second = record front { refcnt = 2 }

hits : bget 1 8 both ≡ some (second, second ∷ back ∷ [])
unfolding bget find_cached is_block hold behind
hits = refl

abbrev reused : Buf
reused = record back { blockno = 5; valid = false; refcnt = 1 }

recycles : bget 1 5 both ≡ some (reused, front ∷ reused ∷ [])
unfolding bget find_cached is_block hold behind find_free take_here is_unused reuse
recycles = refl

panics_full : bget 1 5 (front ∷ []) ≡ none
unfolding bget find_cached is_block hold behind find_free take_here is_unused reuse
panics_full = refl

abbrev filled : Buf
filled = record reused { valid = true; contents = 5 ∷ [] }

reads : bread (λ dev n. n ∷ []) 1 5 both ≡ some (filled, front ∷ filled ∷ [])
unfolding bread bget find_cached is_block hold behind find_free take_here is_unused reuse fetch
    update
reads = refl

abbrev freed : Buf
freed = record reused { refcnt = 0 }

goes_in_front : brelse 2 (front ∷ reused ∷ []) ≡ freed ∷ front ∷ []
unfolding brelse update release unlink to_front behind is_unused
goes_in_front = refl

bget-GetRun_example : GetRun 1 5 both (bget 1 5 both)
bget-GetRun_example = bget-GetRun 1 5 both

-- The cache after it has fetched a block and given it back.
abbrev device : ℕ
device = 1

device_real : device ≢ 0
device_real h = absurd (omega arith)

abbrev first_buf : Buf
first_buf = record {
  address = 0;
  valid = false;
  dev = device;
  blockno = 7;
  refcnt = 1;
  contents = [];
}

abbrev fetched : List Buf
fetched = binit_loop 29 1 (first_buf ∷ [])

one_get : Calls binit fetched
unfolding binit binit_loop bget find_cached is_block hold behind find_free take_here is_unused reuse
one_get = more (get device 7) stop refl

Calls-copies_example : copies device 7 fetched ≤ 1
Calls-copies_example = Calls-copies fetched device 7 device_real one_get
