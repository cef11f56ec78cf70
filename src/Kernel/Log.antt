-- ===== src/Kernel/Log.antt =====
-- kernel/log.c: the redo log of the file system, over the buffers of kernel/bio.c.
-- A block is a list of 4-byte words. `view b` is what `bread` of block b returns, `disk b` what the
-- disk holds; `bwrite` makes the second the first. One device is used, so `dev` is left out.
pub mod Calls
pub mod Clear
pub mod Commit
pub mod Crash
pub mod Disk
pub mod Head
pub mod Install
pub mod LogWrite
pub mod Put
pub mod Recovery
pub mod Reserve
mod Tests
pub mod WriteLog
use sleep_e_pingpong.Base.{
  ◌≤◌, ◌<◌, ◌%◌, uint_mod, ℕ, zero, suc, ◌+◌, ◌-◌, ◌*◌, Bool, true, false, ◌||◌, Option, none, some,
  List, [], ◌∷◌, ltb, leb, ◌==◌, if◌then◌else◌, get_or, set, replicate,
}

-- `MAXOPBLOCKS` and `LOGSIZE`
abbrev pub maxopblocks : ℕ
maxopblocks = 10

abbrev pub logsize : ℕ
logsize = maxopblocks * 3

abbrev pub Block : Type 0
Block = List ℕ

abbrev pub Disk : Type 0
Disk = ℕ → Block

abbrev pub update {ℓ} : {A : Type ℓ} → (ℕ → A) → ℕ → A → ℕ → A
update f a v x = if x == a then v else f x

-- `struct log` (`n` and `block` are its `lh`), the buffers, how often `bpin` holds each, and the
-- disks after each write so far, the latest first, for what a crash may leave.
pub record Log : Type 0 where
  pub start : ℕ
  pub size : ℕ
  pub outstanding : ℕ
  pub committing : Bool
  pub n : ℕ
  pub block : List ℕ
  pub view : Disk
  pub disk : Disk
  pub pins : ℕ → ℕ
  pub history : List Disk

-- A change of `b->data` in the buffer of block `b`.
unfoldable pub modify : ℕ → Block → Log → Log
modify b data' s = record s { view = update s.view b data' }

unfoldable pub bwrite : ℕ → Log → Log
bwrite b s = let d = update s.disk b (s.view b) in record s { disk = d; history = d ∷ s.history }

unfoldable pub bpin : ℕ → Log → Log
bpin b s = record s { pins = update s.pins b ((s.pins b + 1) % uint_mod) }

unfoldable pub bunpin : ℕ → Log → Log
bunpin b s = record s { pins = update s.pins b ((s.pins b + uint_mod - 1) % uint_mod) }

-- The loop of `install_trans` from `tail`, `left = n - tail`.
unfoldable pub install_loop : Bool → ℕ → ℕ → Log → Log
install_loop recovering zero tail s = s
install_loop recovering (suc left) tail s =
    let d = get_or s.block tail 0 in
    let s' = bwrite d (modify d (s.view (s.start + tail + 1)) s) in
    install_loop recovering left (tail + 1) (if recovering then s' else bunpin d s')

unfoldable pub install_trans : Bool → Log → Log
install_trans recovering s = install_loop recovering s.n 0 s

-- The loop of `read_head` from `i`.
unfoldable pub read_blocks : ℕ → ℕ → Block → List ℕ → List ℕ
read_blocks zero i lh block = block
read_blocks (suc left) i lh block = read_blocks left (i + 1) lh (set block i (get_or lh (i + 1) 0))

unfoldable pub read_head : Log → Log
read_head s =
    let lh = s.view s.start in
    let n = get_or lh 0 0 in record s { n = n; block = read_blocks n 0 lh s.block }

-- The loop of `write_head` from `i`.
unfoldable pub write_blocks : ℕ → ℕ → List ℕ → Block → Block
write_blocks zero i block hb = hb
write_blocks (suc left) i block hb =
    write_blocks left (i + 1) block (set hb (i + 1) (get_or block i 0))

unfoldable pub head_block : Log → Block
head_block s = write_blocks s.n 0 s.block (set (s.view s.start) 0 s.n)

unfoldable pub write_head : Log → Log
write_head s = bwrite s.start (modify s.start (head_block s) s)

unfoldable pub recover_from_log : Log → Log
recover_from_log s = write_head (record (install_trans true (read_head s)) { n = 0 })

-- The state when the machine has started on disk `d`: nothing is cached.
unfoldable pub boot : ℕ → ℕ → Disk → Log
boot start size d = record {
  start = start;
  size = size;
  outstanding = 0;
  committing = false;
  n = 0;
  block = replicate logsize 0;
  view = d;
  disk = d;
  pins = λ _. 0;
  history = [];
}

-- `logstart` and `nlog` come from the superblock.
unfoldable pub initlog : ℕ → ℕ → Disk → Log
initlog logstart nlog d = recover_from_log (boot logstart nlog d)

-- One round of the loop of `begin_op`; none sleeps on `&log`.
unfoldable pub begin_op : Log → Option Log
begin_op s =
    if s.committing
    then none
    else if ltb logsize (s.n + (s.outstanding + 1) * maxopblocks)
    then none
    else some (record s { outstanding = s.outstanding + 1 })

-- The loop of `write_log` from `tail`.
unfoldable pub write_log_loop : ℕ → ℕ → Log → Log
write_log_loop zero tail s = s
write_log_loop (suc left) tail s =
    let to = s.start + tail + 1 in
    write_log_loop left (tail + 1) (bwrite to (modify to (s.view (get_or s.block tail 0)) s))

unfoldable pub write_log : Log → Log
write_log s = write_log_loop s.n 0 s

-- The body of `commit`.
unfoldable pub do_commit : Log → Log
do_commit s = write_head (record (install_trans false (write_head (write_log s))) { n = 0 })

unfoldable pub commit : Log → Log
unfolding do_commit
commit s = if ltb 0 s.n then do_commit s else s

-- The first locked part of `end_op`, which says whether to commit; none is a panic. It is called
-- with a call outstanding, so the count does not pass below 0.
unfoldable pub end_op_enter : Log → Option (Log × Bool)
end_op_enter s =
    if s.committing
    then none
    else if s.outstanding == 1
    then some (record s { outstanding = s.outstanding - 1; committing = true }, true)
    else some (record s { outstanding = s.outstanding - 1 }, false)

-- The last locked part, after the commit.
unfoldable pub end_op_leave : Log → Log
end_op_leave s = record s { committing = false }

-- `end_op` run through: the commit happens with `committing` set and no lock held.
unfoldable pub end_op : Log → Option Log
end_op s = elim (end_op_enter s) [
  | none ↦ none
  | some (s', is_last) ↦ some (if is_last then end_op_leave (commit s') else s')
]

-- The loop of `log_write`: the first slot from `i` that holds `b`, or `n`.
unfoldable pub find_slot : ℕ → ℕ → ℕ → List ℕ → ℕ
find_slot zero i b block = i
find_slot (suc left) i b block =
    let rest = find_slot left (i + 1) b block in if get_or block i 0 == b then i else rest

-- What `log_write` does at slot `i`.
unfoldable pub log_at : ℕ → ℕ → Log → Log
log_at i b s =
    let s' = record s { block = set s.block i b } in
    if i == s.n then record (bpin b s') { n = s.n + 1 } else s'

-- none is a panic.
unfoldable pub log_write : ℕ → Log → Option Log
log_write b s =
    if leb logsize s.n || leb (s.size - 1) s.n
    then none
    else if ltb s.outstanding 1
    then none
    else some (log_at (find_slot s.n 0 b s.block) b s)
