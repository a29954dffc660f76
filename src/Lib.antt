-- ===== src/Lib.antt =====
-- A model of the xv6 kernel of this repository, in the variant of xv6-add_FAIRNESS/ (priority
-- scheduler). The other two trees, xv6-public-master/ and xv6-funciona_sem_metrica/, share all of
-- the files below with it but proc.c and proc.h.
--
-- Parts, files and correspondence:
--   CString: string.c. Spinlock: spinlock.c, one CPU's interrupt state and a lock.
--   Proc: proc.c and proc.h; Proc/Scheduler: scheduler, sched, yield, sleep; Proc/Lifecycle:
--   allocproc, fork, exit, wait, growproc. The table is a list and a process pointer an index; what
--   runs under ptable.lock is one function. Calls of the rest of the kernel go through the record
--   Services. `kill` and `setpriority` return true for 0 and false for -1.
--   Log: log.c; `commit` and `recover_from_log` run against a store that loses power after a given
--   number of block writes; `begin_op`, `end_op` and `log_write` work on the in-memory log.
--   Pipe: pipe.c; a stretch of pipewrite or piperead up to its return or its sleep is one function.
--   Pipe/Wakeups has a reader and a writer that put each other to sleep and wake each other.
--   OpenFile: file.c; the table is a list and a file pointer an index; the calls of the file system,
--   the log and pipes go through the records Closers and Inodes.
--   Kalloc: kalloc.c; the free list runs through a map from addresses to addresses.
--   Graph: min_distance and dijkstra of user/cpu_bound.c; an array is a list.
--   Syscall: syscall.c; user memory is the byte at each address.
--   Fs: the blocks and the bitmap of fs.c, with fs.h; a block is the byte at each index, as the
--   buffer cache holds it, and the calls of log_write are a list. Inode: bmap, itrunc, iupdate of fs.c;
--   an inode goes in and comes back. Content: stati, readi, writei of fs.c. Inode stands on Fs,
--   Content on Inode: `place` gives the block of each block number, `byte_at` the byte of each offset.
--   Icache: ialloc, iget, idup, ilock, iunlock, iput of fs.c and sleeplock.c; the cache is a list, a
--   pointer into it an index. Icache stands on Inode.
--   Bcache: bio.c on the disk of memide.c; the list of buffers in the order of use is a list. The
--   file system modules stand on blocks, not on Bcache.
--   Path: skipelem of fs.c. Directory: namecmp and dirlookup of fs.c; it stands on Content and Icache.
--   Grep: the matcher of grep.c.
--   Utils: user/utils.c and the lines that user/cpu_bound.c and user/io_bound.c write; a string is
--   the list of its bytes.
-- A routine that calls panic comes to `panic`, one that has to sleep or spin to `blocked`.
-- Loops are recursions on lists or counters, but for these: the digits of int_to_str have fuel 10,
-- enough for 32 bits; freerange has the number of pages below its end and one more; reverse_string
-- and filewrite have the length of their text; the loops of readi and writei have the number of
-- bytes; balloc has the number of bits and of bitmap blocks. The theorems about them hold with that fuel.
--
-- Not modelled: the hardware (traps, paging, drivers), the assembly, the shell and the other user
-- programs, writes of directories, and the walk along a path.
pub mod Base
pub mod CString
pub mod Spinlock
pub mod Kalloc
pub mod Proc
pub mod Pipe
pub mod Log
pub mod Utils
pub mod OpenFile
pub mod Graph
pub mod Syscall
pub mod Fs
pub mod Inode
pub mod Content
pub mod Grep
pub mod Icache
pub mod Path
pub mod Directory
pub mod Bcache
