-- ===== src/Kernel.antt =====
-- The kernel, a module for each file of kernel/.
pub mod Kalloc
pub mod Log
pub mod Pipe
pub mod Proc
pub mod Sched
pub mod Ticks
pub mod Strings
pub mod Bcache
pub mod Fs
pub mod Inode
pub mod Dinode
pub mod Content
pub mod Trunc
pub mod Itable
pub mod File
pub mod Path
pub mod Directory
mod FsTests
