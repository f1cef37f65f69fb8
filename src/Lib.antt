-- ===== src/Lib.antt =====
-- uCore-SMP, the kernel under os/: the parts that keep its own state, modelled function by function.
--
-- The parts and how they interact:
--
-- * Page frames, os/mem/physical.c: module Physical. The allocator's free list runs through the free
--   frames themselves, and each frame has a reference count in a byte. `kmem` is the record Kmem; kinit,
--   freerange, alloc_physical_page, recycle_physical_page, dup_physical_page and put_physical_page have
--   their names from the source. Page tables, pipes and shared memory take their pages from it.
-- * Pipes, os/file/pipe.c: module Pipe. `struct pipe` is the record Pipe. pipewrite and piperead give
--   their lock away where they sleep; write_section and read_section are their critical sections. kill
--   does not take the pipe's lock, so each round of a write reads pr->killed anew, by an argument.
--   Pipe/Stream composes sections of any number of readers and writers, with the channels they sleep on.
-- * Open files and descriptors, os/file/file.c, with fdalloc, fdalloc2 and get_proc_file_by_fd of
--   os/proc/proc.c, sys_close, sys_dup and sys_dup3 of os/syscall/syscall_impl.c, the descriptors of
--   clone in os/proc/fork.c and close_proc_files of os/proc/exit.c: module Files. A `struct file *` is
--   an index into the pool; Files/Offsets has filelseek and the loop of filewrite over an inode.
-- * Processes, os/proc/: module Procs. The table `pool` is a list of entries, and a `struct proc *` an
--   index. alloc_proc, freeproc, findproc, sleep, wakeup, kill, the scheduler's choice, a round of wait
--   (Procs/Waiting) and the loop of exit over the children (Procs/Orphans).
-- * Memory mappings, os/proc/proc.c: module Mappings. The array `maps` is a function of the index;
--   mapping_add, mapping_remove_fixed and mapping_try_remove_page search and shift it as the source
--   does, and munmap takes whole pages out of it.
-- * Locks, os/lock/: module Locks. push_off and pop_off on a core; acquire and release cut into their
--   atomic stores, which Locks/Spin interleaves for any number of cores; and the sections of
--   acquire_mutex_sleep and release_mutex_sleep, which Locks/Mutexes interleaves.
-- * Disk blocks, os/fs/buf.c: module Buffers. The links of the ring are functions of the index, and
--   every store to them is an update; the ring is related to the list of buffers in the order of their
--   last use. The mutex of each buffer is that of Locks.
-- * Byte strings, os/mem/string.c: module Strings. The loops of memset, memmove, memcmp, strncmp,
--   strncpy, safestrcpy, strlen, strcpy and strcat over a memory that is a function from addresses to bytes.
-- * Page tables, os/mem/virtual.c: module Virtual. A table is a frame of the allocator's memory of words.
--   walk, walkaddr, mappages, map1page and uvmunmap are in Virtual itself, uvmalloc and uvmdealloc in
--   Virtual/Sizes, uvmmap_dup in Virtual/Dup, and is_free_range and get_free_range of os/proc/proc.c
--   in Virtual/Ranges. Virtual/Tree says what a tree of tables is, and Virtual/Keeps what a change to it
--   must keep: the free list, the tables outside it, and the frames in use with their reference counts.
-- * User memory, os/mem/virtual.c: module Transfers. copyout, copyin, uvmemset and copyinstr move bytes
--   page by page through walkaddr, by the memmove and memset of Strings.
-- * Shared memory, os/mem/shared.c: module Shared. The pool is a list of entries; the names stand in a
--   memory of bytes, where strncmp and strncpy of Strings read and write them, and the frames come
--   from the allocator of Physical.
-- * Timers, os/arch/timer.c: module Timers. The pool of timers is a list.
-- * Paths, skipelem of os/fs/inode.c: module Paths.
--
-- Base has what the parts share: tests on numbers, lists with a default out of range, and Outcome, in
-- which `panics` is a failed KERNEL_ASSERT or a panic.
--
-- Conventions. Numbers are natural numbers; the wrap-around of a w-bit integer is written out as a
-- remainder modulo 2 ^ w. -1 and NULL are `none` where the type allows it. Apart from the locks
-- themselves, every function is modelled under its locks, as one step.
--
-- Fuel and bounds. write_section takes fuel, and two rounds are enough from any state. freerange
-- takes fuel, and kinit gives 2 ^ 17 rounds, more than the pages of the memory. filewrite_inode
-- takes fuel, and one round more than the number of bytes is enough. The loops over page tables
-- take 2 ^ 26 rounds, after which the address is at MAXVA and walk panics in the source as well;
-- get_free_range takes 2 ^ 20 rounds, all pages below the stack. A copy takes one round for each
-- byte at most. The loop of munmap takes fuel, and munmap gives one round more than there are
-- pages. A search along the ring has one round more than there are buffers. strlen, strcpy and
-- strcat take fuel, and one round more than the strings have bytes is enough. All other loops run
-- over lists or a fixed number of entries.
--
-- Not modelled: proc_pagetable (how it ends is an argument of alloc_proc), the release of a
-- process's memory (proc_free_mem_and_pagetable) and the end of exit after the loop over the
-- children, uvmcopy, uvmprotect, uvmclear and the release of page tables (os/mem/virtual.c; in the
-- pipe's sections copyin and copyout are parameters), mmap after its search, map_shared_mem, the
-- other parts of the inode layer and cached pages, most system calls, the ELF loader, traps,
-- devices and drivers, FatFs (a copy of a library), SBI and start-up.
pub mod Base
pub mod Physical
pub mod Pipe
pub mod Files
pub mod Procs
pub mod Mappings
pub mod Locks
pub mod Buffers
pub mod Shared
pub mod Strings
pub mod Virtual
pub mod Transfers
pub mod Timers
pub mod Paths
