-- ===== src/Kernel/File.antt =====
-- kernel/file.c: the table of open files, with filealloc, filedup, fileclose, fileread and filewrite. A
-- pointer to a file is its index in the table. The lock of the table is left out, as are begin_op and
-- end_op around the calls on an inode. The int `ref` is a natural number: it counts the pointers that
-- the kernel holds, which are far fewer than the largest int.
pub mod Refs
pub mod Chunks
pub mod Whole
use sleep_e_pingpong.Base.{
  ℕ, zero, suc, ◌+◌, ◌-◌, Bool, true, false, ◌&&◌, List, [], ◌∷◌, Option, none, some, ltb, ◌==◌,
  if◌then◌else◌, get_or, set, replicate, min,
}
use sleep_e_pingpong.Kernel.Fs.{Disk, Superblock}
use sleep_e_pingpong.Kernel.Strings.{Mem}
use sleep_e_pingpong.Kernel.Inode.{Inode}
use sleep_e_pingpong.Kernel.Content.{Copyin, Copyout, Read, readi, writei}

-- `NFILE`
abbrev pub nfile : ℕ
nfile = 100

pub data FileKind : Type 0 where
  fd_none : FileKind
  fd_pipe : FileKind
  fd_inode : FileKind
  fd_device : FileKind

-- `struct file`; `pipe` and `ip` are the pointers, as numbers.
pub record File : Type 0 where
  pub kind : FileKind
  pub ref : ℕ
  pub readable : Bool
  pub writable : Bool
  pub pipe : ℕ
  pub ip : ℕ
  pub off : ℕ
  pub major : ℕ

abbrev pub closed_file : File
closed_file = record {
  kind = fd_none;
  ref = 0;
  readable = false;
  writable = false;
  pipe = 0;
  ip = 0;
  off = 0;
  major = 0;
}

abbrev pub boot_files : List File
boot_files = replicate nfile closed_file

abbrev pub file_at : List File → ℕ → File
file_at t f = get_or t f closed_file

-- The loop of `filealloc` over the entries from `i` on.
unfoldable pub find_file : List File → ℕ → Option ℕ
find_file [] i = none
find_file (f ∷ t) i = let rest = find_file t (i + 1) in if f.ref == 0 then some i else rest

unfoldable pub take_file : List File → Option ℕ → Option (ℕ × List File)
take_file t none = none
take_file t (some i) = some (i, set t i (record (file_at t i) { ref = 1 }))

-- `filealloc`; `none` is its 0.
unfoldable pub filealloc : List File → Option (ℕ × List File)
unfolding find_file take_file
filealloc t = take_file t (find_file t 0)

-- `filedup`; `none` is the panic.
unfoldable pub filedup : List File → ℕ → Option (List File)
filedup t i =
    let f = file_at t i in
    if ltb f.ref 1 then none else some (set t i (record f { ref = f.ref + 1 }))

-- What `fileclose` does after it has released the table: nothing, pipeclose, or iput.
pub data Last : Type 0 where
  nothing : Last
  close_pipe : ℕ → Bool → Last
  put_inode : ℕ → Last

unfoldable pub last_close : FileKind → File → Last
last_close fd_none f = nothing
last_close fd_pipe f = close_pipe f.pipe f.writable
last_close fd_inode f = put_inode f.ip
last_close fd_device f = put_inode f.ip

-- `fileclose`; `none` is the panic.
unfoldable pub fileclose : List File → ℕ → Option (List File × Last)
unfolding last_close
fileclose t i =
    let f = file_at t i in
    if ltb f.ref 1
    then none
    else if ltb 0 (f.ref - 1)
    then some (set t i (record f { ref = f.ref - 1 }), nothing)
    else some (set t i (record f { ref = 0; kind = fd_none }), last_close f.kind f)

-- `NDEV`
abbrev pub ndev : ℕ
ndev = 10

-- What fileread and filewrite call: -1 at once, a pipe, a device, an inode, or a panic.
pub data Route : Type 0 where
  refused : Route
  to_pipe : ℕ → Route
  to_device : ℕ → Route
  to_inode : ℕ → Route
  panics : Route

-- By the kind of the file; `has` says whether the device has the function. A negative major number is
-- one that is too large here.
unfoldable pub route_kind : (ℕ → Bool) → FileKind → File → Route
route_kind has fd_none f = panics
route_kind has fd_pipe f = to_pipe f.pipe
route_kind has fd_device f = if ltb f.major ndev && has f.major then to_device f.major else refused
route_kind has fd_inode f = to_inode f.ip

unfoldable pub fileread : (ℕ → Bool) → File → Route
unfolding route_kind
fileread has_read f = if f.readable then route_kind has_read f.kind f else refused

unfoldable pub filewrite : (ℕ → Bool) → File → Route
unfolding route_kind
filewrite has_write f = if f.writable then route_kind has_write f.kind f else refused

-- The result of fileread on an inode, with the offset after it.
unfoldable pub advance_read : ℕ → Option Read → Option (ℕ × Read)
advance_read off none = none
advance_read off (some (none, rest)) = some (off, (none, rest))
advance_read off (some (some r, rest)) = some (off + r, (some r, rest))

-- The branch of `fileread` for an inode.
unfoldable pub fileread_inode :
    Copyout → Superblock → Disk → Inode → Mem → ℕ → ℕ → ℕ → Option (ℕ × Read)
unfolding advance_read
fileread_inode copyout sb d ip mem addr off n =
    advance_read off (readi copyout sb d ip mem addr off n)

-- The bytes that filewrite gives to one call of writei at most.
abbrev pub max_chunk : ℕ
max_chunk = 3072

-- The bytes written, the offset, the inode and the disk.
abbrev pub Progress : Type 0
Progress = ℕ × (ℕ × (Inode × Disk))

-- The loop of `filewrite` for an inode with `i` of `n` bytes written; the outer `none` is a panic.
unfoldable pub filewrite_loop :
    ℕ → Copyin → Superblock → Disk → Inode → ℕ → ℕ → ℕ → ℕ → Option Progress
filewrite_loop zero copyin sb d ip addr off n i = some (i, (off, (ip, d)))
filewrite_loop (suc fuel) copyin sb d ip addr off n i =
    if ltb i n
    then elim (writei copyin sb d ip (addr + i) off (min (n - i) max_chunk)) [
      | none ↦ none
      | some (none, (ip', d')) ↦ some (i, (off, (ip', d')))
      | some (some r, (ip', d')) ↦
          let rest = filewrite_loop fuel copyin sb d' ip' addr (off + r) n (i + r) in
          if r == min (n - i) max_chunk then rest else some (i, (off + r, (ip', d')))
    ]
    else some (i, (off, (ip, d)))

-- The end of it: -1, here `none`, unless all bytes were written.
unfoldable pub filewrite_end : ℕ → Option Progress → Option (Option ℕ × (ℕ × (Inode × Disk)))
filewrite_end n none = none
filewrite_end n (some (i, rest)) = some (if i == n then some n else none, rest)

unfoldable pub filewrite_inode :
    Copyin → Superblock → Disk → Inode → ℕ → ℕ → ℕ → Option (Option ℕ × (ℕ × (Inode × Disk)))
unfolding filewrite_loop filewrite_end
filewrite_inode copyin sb d ip addr off n =
    filewrite_end n (filewrite_loop n copyin sb d ip addr off n 0)
