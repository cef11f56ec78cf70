-- ===== src/Kernel/Pipe/Queue.antt =====
-- The ring of kernel/pipe.c against a queue of at most `pipesize` bytes, oldest first.
use sleep_e_pingpong.Base.{
  uint_mod, ℕ, zero, suc, ◌+◌, ◌-◌, ◌%◌, ◌≤◌, ◌<◌, ◌≡◌, refl, ap, ◌≢◌, true, false, List, [], ◌∷◌,
  ◌++◌, arith, ◌==◌, get_or, set, length, length-set, get_or-set_self, get_or-set_ne,
}
use sleep_e_pingpong.Kernel.Pipe.{
  Pipe, pipesize, is_full, is_empty, put_byte, next_byte, take_byte, pipe_init,
}

-- `nwrite - nread` in `uint`: how many bytes wait.
abbrev pub count : Pipe → ℕ
count pi = (pi.nwrite + uint_mod - pi.nread) % uint_mod

pub record IsValid (pi : Pipe) : Type 0 where
  pub size : length pi.bytes ≡ pipesize
  pub nread_in : pi.nread < uint_mod
  pub nwrite_in : pi.nwrite < uint_mod
  pub within : count pi ≤ pipesize

-- The `n` bytes from counter value `r` on.
abbrev pub window : List ℕ → ℕ → ℕ → List ℕ
window b r zero = []
window b r (suc n) = get_or b (r % pipesize) 0 ∷ window b ((r + 1) % uint_mod) n

-- What the pipe holds.
abbrev pub contents : Pipe → List ℕ
contents pi = window pi.bytes pi.nread (count pi)

pub length-window : (b : List ℕ) (r n : ℕ) → length (window b r n) ≡ n
length-window b r zero = refl
length-window b r (suc n) = ap suc (length-window b ((r + 1) % uint_mod) n)

pub length-contents : (pi : Pipe) → length (contents pi) ≡ count pi
length-contents pi = length-window pi.bytes pi.nread (count pi)

-- A byte stored just behind a window that leaves room extends it, also where a counter wraps.
window-put :
    (b : List ℕ) (ch n r w : ℕ)
    → length b ≡ pipesize
    → r < uint_mod
    → n < pipesize
    → w ≡ (r + n) % uint_mod
    → window (set b (w % pipesize) ch) r (suc n) ≡ window b r n ++ (ch ∷ [])
window-put b ch zero r w hb hr hn e =
    let at : w % pipesize ≡ r % pipesize = omega arith in
    rw (at, get_or-set_self b (r % pipesize) ch 0 (omega arith))
window-put b ch (suc n) r w hb hr hn e =
    let apart : w % pipesize ≢ r % pipesize = omega arith in
    rw (
      get_or-set_ne b (w % pipesize) (r % pipesize) ch 0 apart,
      window-put b ch n ((r + 1) % uint_mod) w hb (omega arith) (omega arith) (omega arith),
    )

window_step :
    (b : List ℕ) (r n : ℕ)
    → n ≢ 0
    → window b r n ≡ get_or b (r % pipesize) 0 ∷ window b ((r + 1) % uint_mod) (n - 1)
window_step b r zero h = absurd (h refl)
window_step b r (suc n) h = ap (λ k. window b r (suc k)) (omega arith)

module _ {pi : Pipe} (v : IsValid pi) where
  -- The wrapped comparison tells exactly when the queue is at its bound.
  pub is_full_lem : is_full pi ≡ (length (contents pi) == pipesize)
  unfolding is_full
  is_full_lem = rw (length-contents pi) (ground arith)

  pub is_empty_lem : is_empty pi ≡ (length (contents pi) == 0)
  unfolding is_empty
  is_empty_lem = rw (length-contents pi) (ground arith)

  pub full_length : is_full pi ≡ true → length (contents pi) ≡ pipesize
  full_length h = ground (arith, is_full_lem)

  pub room_count : is_full pi ≡ false → count pi < pipesize
  room_count h = ground (arith, is_full_lem, length-contents pi)

  pub empty_contents : is_empty pi ≡ true → contents pi ≡ []
  unfolding is_empty
  empty_contents h = let e : count pi ≡ 0 = ground arith in ap (window pi.bytes pi.nread) e

  pub some_count : is_empty pi ≡ false → count pi ≢ 0
  some_count h = ground (arith, is_empty_lem, length-contents pi)

  pub put_byte-count : count pi < pipesize → (ch : ℕ) → count (put_byte pi ch) ≡ suc (count pi)
  unfolding put_byte
  put_byte-count h ch = omega arith

  pub put_byte-IsValid : (ch : ℕ) → count pi < pipesize → IsValid (put_byte pi ch)
  unfolding put_byte
  put_byte-IsValid ch h = record {
    size = omega (arith, length-set pi.bytes (pi.nwrite % pipesize) ch);
    nread_in = omega arith;
    nwrite_in = omega arith;
    within = omega arith;
  }

  pub contents-put_byte :
      (ch : ℕ) → count pi < pipesize → contents (put_byte pi ch) ≡ contents pi ++ (ch ∷ [])
  unfolding put_byte
  contents-put_byte ch h =
      rw (put_byte-count h ch)
        (window-put pi.bytes ch (count pi) pi.nread pi.nwrite v.size v.nread_in h (omega arith))

  pub take_byte-IsValid : count pi ≢ 0 → IsValid (take_byte pi)
  unfolding take_byte
  take_byte-IsValid h = record {
    size = v.size;
    nread_in = omega arith;
    nwrite_in = omega arith;
    within = omega arith;
  }

  pub take_byte-count : count pi ≢ 0 → count (take_byte pi) ≡ count pi - 1
  unfolding take_byte
  take_byte-count h = omega arith

  pub contents-take_byte : count pi ≢ 0 → contents pi ≡ next_byte pi ∷ contents (take_byte pi)
  unfolding take_byte next_byte
  contents-take_byte h = rw (take_byte-count h) (window_step pi.bytes pi.nread (count pi) h)

pub pipe_init-IsValid : (page : List ℕ) → length page ≡ pipesize → IsValid (pipe_init page)
unfolding pipe_init
pipe_init-IsValid page h = omega arith

-- The two ends stay as they are.
pub take_byte_opens :
    (pi : Pipe)
    → ((take_byte pi).readopen ≡ pi.readopen) × ((take_byte pi).writeopen ≡ pi.writeopen)
unfolding take_byte
take_byte_opens pi = (refl, refl)
