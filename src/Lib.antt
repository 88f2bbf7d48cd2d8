-- ===== src/Lib.antt =====
-- The Rynex kernel (an x86_64 kernel in Rust), its data structures and their operations.
--
-- Parts. The page allocator (src/memory/buddy.rs) gives out blocks of pages by orders. The ports
-- (src/ipc.rs) carry messages between tasks in pages of that allocator. The keyboard driver
-- (src/keyboard.rs) turns scancodes into characters, which it keeps in a ring and hands to the
-- terminal (src/tty.rs), whose line discipline serves the reads of a task. The kernel log
-- (src/klog.rs) keeps the last lines that any part wrote. The file system in memory
-- (src/vfs_core/ramfs.rs) keeps files in pages of the allocator and frees the vnodes of a file that a
-- rename replaces. The files follow these parts:
--
-- - Prelude: names and lemmas that the parts share; Ring is the circular buffer that the
--   quarantine, the mailboxes, the log, the terminal and the keyboard all keep, Find the scan of a
--   table, Sums and Bits the arithmetic of the allocator.
-- - Buddy: src/memory/buddy.rs. State is BuddyAllocator with the statics beside it, Bitmap the
--   bitmaps and tables by page, Orders max_order_for and the alignments, Quarantine q_push and
--   q_pop, FreeList the lists with free_one, Alloc the allocation, Free the release, Reserve the
--   reserved pages, Audit audit_free_lists.
-- - Ipc: src/ipc.rs. State is PORTS, REPLIES and the pages, Ports the port table with ipc_create,
--   ipc_connect and ipc_close, Send, Recv, Call and Reply the calls of those names. Mailbox and its
--   children view the table as a map from ids to queues; System lets the calls of all tasks
--   interleave.
-- - Klog: src/klog.rs. State is the log with begin, s, dec, hex, end and dump; Line, Digits and Ring
--   are about its three layers.
-- - Tty: src/tty.rs. State is TtyDevice with push_input, pop_input and ioctl; Queue, Discipline and
--   Stuck are about its input.
-- - Keyboard: src/keyboard.rs. State is the ring with push_char and pop_char, Handler the layout and
--   keyboard_interrupt_handler; its characters go to the model of the terminal.
-- - Vfs: src/vfs.rs, src/vfs_core/mod.rs. Path is normalize_path; Canonical and Fixed are about its
--   results. Split is parent_path and file_name, Vnodes the vnode table. Mounts is the mount table with
--   path_resolve and path_to_vnode, Mounts.Longest about the choice of a mount, Mounts.Walk about the
--   lookups.
-- - Ramfs: src/vfs_core/ramfs.rs, src/vfs_core/xattr.rs. State is INODES with the page allocator, the
--   memory of the blocks and the vnode table beside it; Inodes, Files, Dirs, Dirs.Moving, Xattrs and
--   Boot are the operations. Content views a file as a function from offsets to bytes, which Growing,
--   Writing, Sizing and Reading are about; Entries, Linking, Making, Clearing, Dropping, Removing and
--   Moves are about names, Truncating about sizes beyond the blocks, Xattrs.Table and Xattrs.Shared
--   about attributes.
-- - Task: src/task.rs. State is TASKS, RUNQUEUE and PID_BITMAP, RunQueue the operations on the queues,
--   Futex futex_wake and the pids, FutexPi futex_unlock_pi. Chain and Queues view the linked lists as
--   lists; Queues.Entering, Queues.Leaving, Futex.Waking, Futex.Looping, FutexPi.Handing and Pids
--   are about the operations. Areas is the pool of mapped areas (VMAS), Areas.Mapped and
--   Areas.Registered are about the addresses that it maps.
-- - Spinlock: src/spinlock.rs. State has the steps of lock and unlock by processors that interleave,
--   which is what lets the other parts take a lock as held for a whole operation.
--
-- State and calls. A component's statics are one record, an operation is a function on it, and a
-- lock is held for the whole of an operation, as the code does. A static array is a function of the
-- index. Numbers are natural numbers; where a machine word can wrap, the reduction is written out.
-- An i64 answer of src/ipc.rs is a number or a negated error number (an id of 2^63 or more, which
-- the code would show as a negative one, is kept as it is). A message of an error is a constructor
-- of Error; the end in a panic, at an index past an array, is an answer as well. The parts of
-- ipc_send, ipc_recv and ipc_call that hold IPC_LOCK are attempts; a call takes the list of the
-- blocks on a futex that it will go through, each with what the other tasks do meanwhile, and
-- answers none while it is blocked at the end of that list. The header at the start of a message
-- page is kept apart from the page's bytes.
--
-- Bounds and fuel. A loop over a table or over orders has its length as the bound. q_pop does as many
-- rounds as pages wait, free_one as many as there are orders above the block's, add_region and
-- mark_allocated as many as the region has bytes, each of which takes a page at least. append_dec has
-- 20 places, which are enough for 64 bits. read and write of a file do as many rounds as there are
-- bytes, each of which copies one at least. The walk of remove_from_runqueue ends after 65 tasks, one
-- more than there are.
--
-- Parameters. The lookup of a file system, which a path is resolved with, is an argument, and so is
-- what src/ipc.rs asks of src/task.rs (the caller's id, user_range_valid, and what other tasks do
-- during block_on_futex). Serial and screen output is recorded where a later step depends on it and
-- left out elsewhere.
--
-- Not modelled: the context switch, the signals and the system calls of src/task.rs, the file
-- descriptors of src/vfs_core/mod.rs, paging (src/paging.rs), the other file systems (src/vfs.rs,
-- src/vfs_core, src/devfs.rs), the drivers of block devices (src/drivers), the loader (src/elf.rs), the
-- boot information (src/multiboot2.rs, src/bootmode.rs), the services (src/services.rs), and what only
-- drives hardware: descriptor tables, timers, interrupt controllers, secondary processors, screen,
-- serial port, and the assembly.
pub mod Prelude
pub mod Buddy
pub mod Ipc
pub mod Klog
pub mod Tty
pub mod Keyboard
pub mod Vfs
pub mod Ramfs
pub mod Spinlock
pub mod Task
