-- ===== src/Lib.antt =====
-- Pintos: the kernel's scheduler, memory and storage.
--
-- The program is the teaching kernel in src/. The files here model the parts that decide
-- something, as pure functions on the state that the C code keeps in statics and on the heap.
-- A failed ASSERT, a PANIC, a divide error or an access outside a buffer is `none`.
--
-- Shared:
--   Common           Boolean tests, lists, `Option` and its `>>=`, `assert`; Common.Int has signed
--                    integers with the wrap-around of `int` and the division that C has.
-- Data structures:
--   Bitmap           src/lib/kernel/bitmap.c: a record of the bit count and the list of words.
--                    `bitmap_set` is `Bitmap.set`, and so on; a word is a function from places to
--                    bits. Refine says when a bitmap stands for a function of `n` bits.
--   KernelList       src/lib/kernel/list.c: insertion in order, merge sort, maximum, minimum and
--                    unique, on the sequence of the elements.
--   Hash             src/lib/kernel/hash.c: chains of elements, with the caller's hash and comparison.
--   FixedPoint       src/threads/fixed-point.h: 17.14 numbers.
-- Threads:
--   Sched            src/threads/thread.c: `Kernel` (Sched.State) has the statics and a function
--                    from thread numbers to `struct thread`. Interrupts are off in each operation,
--                    so each is one step from a kernel to a kernel.
--   Synch            src/threads/synch.c: semaphores and locks. A thread's way through `sema_down` and
--                    the lock operations is cut where another thread can run; Synch.System and
--                    Synch.Locks are the step relations of one semaphore and one lock.
--   Mlfqs            the timer tick of src/threads/thread.c and src/devices/timer.c: aging, the
--                    BSD scheduler and the calls that set priority and niceness.
--   Intq             src/devices/intq.c: the ring of bytes between interrupt handlers and threads.
-- Memory and storage:
--   Block            src/devices/block.c: a device as the sectors that it stores.
--   Palloc           src/threads/palloc.c: two pools of pages on the bitmap.
--   Swap             src/vm/swap.c: slots of eight sectors on the block device and the bitmap.
--   Frame            src/vm/frame.c: the list of frames as the part before the clock hand and the
--                    part from it on, with the page table bits and the pages that eviction changes.
--   Page             src/vm/page.c: the page fault on the state of Frame and File, and the entries of
--                    the supplemental page table, as the list of its pages.
--   Process          src/userprog/process.c: the checks on segments, `load_segment`, and in
--                    Process.Arguments `construct_stack` with the memory as a function.
--   Family           src/userprog/process.c: parents and children, `process_execute`, `process_wait`
--                    and `process_exit`, as steps between which other threads run.
--   Inode            src/filesys/inode.c: the bytes of a file on the block device.
--   FreeMap          src/filesys/free-map.c: the sectors in use, on the bitmap.
--   InodeTable       src/filesys/inode.c: creating, opening, closing and removing inodes. An owner for
--                    each sector (InodeTable.Owners) ties the free map, the inodes on the device and
--                    the open ones together.
--   Directory        src/filesys/directory.c: the entries of a directory, as a map from names.
--   FileSys          src/filesys/filesys.c: `filesys_create`, `filesys_open` and `filesys_remove`.
--   File             src/filesys/file.c: a store of open files and the inodes that they share.
--   Syscall          src/userprog/syscall.c: the table of descriptors and the calls on it.
--
-- Swap and Palloc call Bitmap, and Swap and Inode call Block, as the code does; their proofs use
-- only the theorems of Bitmap.Refine, Bitmap.Scan and Block. Mlfqs calls Sched for waking and
-- preemption, Synch calls Sched for blocking, unblocking and preemption, Frame calls
-- Palloc and Swap, File calls Inode, Page calls Frame, Swap and File, and Process calls Page.
-- FreeMap calls Bitmap, InodeTable calls FreeMap and Block, and FileSys calls InodeTable, FreeMap and
-- Directory; the content of the root directory is seen there as its entries, not as bytes.
--
-- Fuel: `KernelList.list_sort` runs as many rounds as the list has elements and one more, while
-- each round but the last leaves fewer runs; a round of `merge_pass` takes an element off at least.
-- `Inode.inode_read_at` and `inode_write_at` run one round for each byte at most, since a round
-- that goes on takes a byte at least, and one that finds the end. `Frame.choose` runs the 2 * n
-- rounds of the code, and `Hash.round_to_power` as many as the number that it starts from, since
-- each makes it smaller. `Process.load_from` runs a round for each page of the segment, and
-- `Directory.read_names` one more than the entries that are left, since each takes one at least.
--
-- Not modelled: assembly and registers, drivers of hardware, the C library, output, start-up, the
-- kernel's malloc, page directories, condition variables, the checks of user addresses, formatting,
-- and the bookkeeping of locks where all that they do is to order accesses. Failures for want of
-- kernel memory are arguments of the operations (`allocated`, `bounce`, `mapped`, `Buffers`,
-- `Outcomes`). What `bitmap_write` of the free map makes of the device is an argument too
-- (`store_map`), of which the theorems suppose that it changes no sector but the data of the free
-- map's file; InodeTable.Store puts that of the write of this file. An `off_t` goes by its 32-bit word, and each theorem bounds it where its sign or an
-- overflow matters. The steps of the kernel beside a semaphore or a lock (`Synch.System.KernelStep`)
-- are those with `thread_mlfqs` off, among threads that exist; with it, waiters get new priorities
-- without being sorted again. In Family the runs are those in which a process that exits has a page
-- directory and has waited for its children; Family.Freed shows what happens otherwise. Sched and
-- Mlfqs follow the build of thread.c without USERPROG.
pub mod Bitmap
pub mod Block
pub mod Common
pub mod Directory
pub mod Family
pub mod File
pub mod FileSys
pub mod FixedPoint
pub mod Frame
pub mod FreeMap
pub mod Hash
pub mod Inode
pub mod InodeTable
pub mod Intq
pub mod KernelList
pub mod Mlfqs
pub mod Page
pub mod Palloc
pub mod Process
pub mod Sched
pub mod Swap
pub mod Synch
pub mod Syscall
