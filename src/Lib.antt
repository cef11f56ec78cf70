-- ===== src/Lib.antt =====
-- Models of the kernel of this repository, an xv6 for RISC-V (Sleep e pingpong/kernel/), and of
-- one program of user/, as pure functions, with proofs about them. Paths below are from Sleep e
-- pingpong/.
--
-- The parts that are modelled are the page allocator, pipes, the redo log under the file system,
-- most of the file system above it, open files, the buffer cache, the process table, the clock
-- with the call that waits for it, and the copying of bytes. They meet as follows. Pipes, page
-- tables and trap frames live in pages of the allocator. A pipe's end that must wait sleeps on the
-- address of a counter in the pipe, and the other end wakes it; the process table holds who sleeps
-- on what. An open file is an inode or a pipe's end. namex follows a path from inode to inode,
-- dirlookup reads a directory with readi, readi and writei find their blocks with bmap, and bmap
-- takes new ones from the bitmap with balloc; itrunc gives them back. The log is called by the
-- file system between begin_op and end_op, and stands on the buffer cache, which the model
-- replaces by the disk and the blocks that are cached over it.
--
-- - Base.antt, Base/Tests.antt, Base/Lists.antt, Base/Words.antt, Base/Counts.antt: names,
--   Boolean tests and list lemmas that all parts share. Lists are measured by native numbers.
-- - Kernel/Kalloc.antt: kernel/kalloc.c. Memory is a function from addresses to words, and the
--   free list is threaded through it as in struct run; kfree, kalloc, freerange and kinit keep
--   their names. The panics are none. The loop of freerange runs on fuel, pa_end / PGSIZE + 1,
--   which Kalloc/Init.antt shows to be enough. Chain.antt relates the list in memory to a list of
--   pages, Clients.antt is about any sequence of calls.
-- - Kernel/Pipe.antt: kernel/pipe.c. A pipe is its ring of PIPESIZE bytes, the two 32-bit
--   counters with their wrap-around, and the two open flags. pipewrite and piperead run until they
--   sleep, return or fail, by recursion on the bytes that are left. Queue.antt relates a ring to a
--   list of bytes, Write.antt and Read.antt are about one call, Fifo.antt is about any sequence of
--   calls.
-- - Kernel/Log.antt: kernel/log.c, with bpin, bunpin and bwrite of kernel/bio.c. The state is the
--   disk, the cached blocks, struct log, and the trace of disks that the writes have left, so that
--   a crash is a choice of one of them. The loops recur on the number of blocks that are left.
--   WriteLog.antt, Install.antt, Head.antt and Clear.antt are about the steps of commit,
--   Commit.antt about commit, Recovery.antt about initlog, Crash.antt about a crash at any write,
--   LogWrite.antt, Put.antt and Reserve.antt about the calls between begin_op and end_op.
-- - Kernel/Proc.antt: the table of kernel/proc.c and struct proc of kernel/proc.h, with
--   allocproc, freeproc, userinit and fork. Kernel/Sched.antt: wakeup, reparent, exit, wait, sleep,
--   scheduler, yield, kill, setkilled and killed. A pointer to a process is its index in the table.
--   What kalloc, proc_pagetable, uvmcopy, copyout and namei return are arguments. Proc/Slots.antt,
--   Wakeup.antt, Fork.antt, Wait.antt, Kill.antt, Reparent.antt and Exit.antt are about one call
--   each; Family.antt and Await.antt are the invariants on pids, parents and sleepers, slot by
--   slot; Counter.antt is about the counter of pids, a signed int, which the theorem on many calls
--   takes to stay at the largest int or below; Heirs.antt and ExitHeirs.antt are about who has a
--   parent; Moves.antt and Steps.antt are the calls as steps in any order, Boot.antt the tables
--   that they reach from userinit; KillZero.antt is about kill(0).
-- - Kernel/Bcache.antt: the buffers of kernel/bio.c in the order of their list, with binit, bget,
--   bread and brelse; a pointer to a buffer is its address. Bcache/Get.antt is about bget,
--   Release.antt about any sequence of calls. The log's model does not stand on this one.
-- - Kernel/Ticks.antt: sys_sleep of kernel/sysproc.c with clockintr of kernel/trap.c. The events
--   are timer interrupts, kills, the moment when the process is SLEEPING, and the scheduler's
--   choice of it; it tests only when it is chosen. Ticks/Wait.antt says what is to come of a call,
--   Sleep.antt that it does.
-- - Kernel/Strings.antt: memset, memmove, memcpy, strncpy and safestrcpy of kernel/string.c, on
--   memory as a function from addresses to bytes. Their loops recur on the number of bytes that are
--   left. Strings/Memmove.antt and Copy.antt are about what they leave in memory.
-- - Kernel/Fs.antt: blocks and the bitmap of kernel/fs.c, balloc and bfree. A disk is a function
--   from block numbers to blocks, what bread returns; log_write is a change of it. The loop of
--   balloc runs sb.size / BPB + 1 rounds, which cover the disk. Fs/Bits.antt and Bitmap.antt are
--   about the bits, Balloc.antt and Bfree.antt about one call.
-- - Kernel/Inode.antt: struct inode and bmap. Inode/Tree.antt has the blocks of an inode, none of
--   them used twice; Grow.antt, Slot.antt and Bmap.antt are about a new block.
-- - Kernel/Dinode.antt: inodes on the disk, iupdate, ilock and ialloc. Dinode/Fields.antt and
--   Stored.antt are about bytes written and read back.
-- - Kernel/Content.antt: readi and writei, which take the copy to or from user or kernel memory
--   (either_copyout and either_copyin of kernel/proc.c) as an argument. The fuel of a loop is the
--   number of bytes, of which each round copies one at least. Content/Bytes.antt has the content of
--   a file as bytes, Read.antt, Edit.antt, Write.antt, Change.antt and Store.antt are about one
--   call, RoundTrip.antt about both.
-- - Kernel/Trunc.antt: itrunc. Trunc/Release.antt, Slots.antt and Index.antt are about its loops,
--   Whole.antt about the call, Keeps.antt about what it never changes.
-- - Kernel/Itable.antt: the table of inodes in memory, iget, idup and iput; a pointer to an inode
--   is its index. Itable/Find.antt is about the search, Refs.antt about one entry's change,
--   Calls.antt about any sequence of calls. Kernel/FsTests.antt runs the file system at a small
--   volume.
-- - Kernel/Directory.antt: dirlookup of kernel/fs.c with namecmp. The loop has one round more of
--   fuel than the directory has bytes. Directory/Entries.antt has the entries in the content of a
--   directory, Lookup.antt is about dirlookup.
-- - Kernel/Path.antt: path names of kernel/fs.c, skipelem and namex, with namei and nameiparent
--   as its two uses. What a directory has is an argument, which does not change during a call. Each
--   round of namex takes a name, so that the length of the path is enough fuel. Path/Elements.antt
--   is about the names of a path, Resolve.antt about namex.
-- - Kernel/File.antt: kernel/file.c, the table of open files; a pointer to a file is its index.
--   fileread and filewrite are what they call for a file, and their branches for an inode. The loop
--   of filewrite has as much fuel as there are bytes. File/Refs.antt is about the reference counts,
--   Chunks.antt and Whole.antt about filewrite.
-- - User/Grep.antt: the matcher of user/grep.c on strings as lists of characters. Grep/Spec.antt
--   says what a pattern stands for, Sound.antt that the matcher finds just that.
-- - The files named Tests.antt run the definitions at concrete inputs.
--
-- Locks are not modelled: what the code does under one lock, or between two sleeps, is one step.
-- The steps of a call that takes several locks in turn, fork, exit and wait, are one step as well.
-- The log's model has one disk, and leaves the device number out. A crash keeps the disk as one of
-- the single-block writes left it: a block is written whole or not at all. begin_op is one round
-- of its loop. The file system has one disk, and the sleep locks of its inodes are left out; a
-- call there is one step, between begin_op and end_op.
--
-- Not modelled: dirlink, traps and all system calls but sleep, virtual memory, exec, the drivers,
-- the print routines, the comparisons and strlen of kernel/string.c, and mkfs/ and the programs of
-- user/ but the matcher of grep. Assembly, the build files and the graders are outside of it.
pub mod Base
pub mod Kernel
pub mod User
