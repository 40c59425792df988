-- ===== src/Lib.antt =====
-- A verification library for the mCertiKOS kernel with multi-object wait.
--
-- The kernel is layered: tables with getters and setters, operations over them, then the scheduler,
-- and on top the wait objects, on which a process waits for the first of several events. An
-- interrupt of the timer or the keyboard, or a system call, makes an event source ready and wakes the
-- threads that sleep on the address of its wait object; a woken thread goes round the loop of
-- `waitobj_wait`, takes the first ready source, or times out, or sleeps again.
--
-- Base holds the shared definitions: `M S A` is a state-passing call that may not return (`none`: a
-- panic, an index outside an array, or a spin on a lock that is held); `Returns P` says that a call
-- returns and that `P` holds of the result and the new state. Numbers are natural numbers, with the
-- wrap-around of 32-bit arithmetic written out (`u32`). Names are those of the source.
--
--   Links         the doubly linked lists by index of the threads (kern/thread) and of the messages
--                 (kern/lib/ipc.c)
--   Spinlock      kern/lib/spinlock.c: as calls of one processor; Processors has the steps of acquire
--                 and release on several, Exclusion what holds after any of their interleavings
--   Thread.Tcb    kern/thread/PTCBIntro, PTQueueIntro, PCurID: the tables and their accessors
--   Thread.Queue  kern/thread/PTQueueInit: `tqueue_enqueue`, `tqueue_dequeue`, `tqueue_remove`; Laws
--                 has what each writes, Refine what that is on lists
--   Thread.Scheduler  kern/thread/PThread: Invariant has what holds between two calls, Switch,
--                 Requeue and Turns follow `thread_yield`, Sleep `thread_sleep`, Wakeup
--                 `thread_wakeup`
--   Thread.Spawn  kern/thread/PKCtxIntro, PKCtxNew and `thread_spawn`
--   Thread.Init   kern/thread/PTCBInit and the initialisations above it, up to `thread_init`; Fresh
--                 follows the tables, Start the call
--   Waitobj       kern/sync/waitobj.c: State has the pools, Pool the creation of objects and sources,
--                 Wait `waitobj_wait`, Notify the notifications; Chain and Delivery follow a pass of
--                 the loop of `waitobj_wait`, Outcomes the call up to its return or its switch,
--                 Resume the call from the switch on, Waking a notification, Scan the loops over all sources,
--                 Firing the timer interrupt, Console the keyboard's, Adding `waitobj_add`
--   Pmm           kern/pmm: Pages has the allocation table, Alloc `palloc` and `pfree`, Scan what
--                 `palloc` finds, Setup and Layout `pmem_init`, Container the containers, Quota, Split
--                 and Release what their operations do to quotas and usages
--   Trap          kern/trap: Frame has the registers of a system call, Signal the pending signals, the
--                 delivery of SIGKILL and `sys_pause`, Pause what they do to the ready queue, Calls and
--                 Outcomes the calls on wait objects; Delivery the delivery to user handlers,
--                 `sys_sigaction` and `sys_sigreturn`, with Stack, Pushes and Handler for the way into
--                 a handler, Return for the way back, Pending for the choice of the signal; Interrupt
--                 the interrupts of the timer, the keyboard and the disk, Dispatch the table of
--                 system calls
--   Fs            kern/fs: Disk has the blocks and the buffer cache at its interface, Log the
--                 transactions of log.c; Header, Writes, Recovery, Crash, Commit and Atomic follow a
--                 commit and a crash at any of its writes, Append `log_write`; Block has block.c and
--                 `log_init`, Inode the cache of inodes and their locks, Content the blocks and the
--                 bytes of inodes, File the table of open files, Dir and Path the directories and path
--                 names, UserCopy the copies of kern/lib/pmap.c (Copied, Mapped and Transfer follow
--                 them), Calls the system calls on open files, Create, Names and Open those on paths,
--                 Open.Install the new descriptor. The loops of a read and a write of `n` bytes have
--                 fuel `n`, as a round moves a byte at least; those over a path have fuel for its
--                 bytes as an argument
--   Dev           kern/dev/console.c: the ring of typed characters and the line editor
--   Bits          single bits of a word, as the source writes them with shifts
--   Ipc           kern/lib/ipc.c: the queue of messages; Order has `msg_enqueue`, Lookup the lookups, of
--                 which the one by sender has fuel for all blocks (65); Sync the calls that exchange
--                 a message directly, Handover what they do to their lock
--   Strings       kern/lib/string.c: the functions written in C; Compare and Lengths. A loop up to a
--                 terminating 0 has fuel, which is enough when it exceeds the length of the string.
--                 Format is kern/lib/printfmt.c, with Format.Digits on `printnum`, which has fuel 64,
--                 one for each bit of its number; a format has fuel for its characters as an argument
--
-- The state is one processor's view: `Sched` has the thread tables with the index of the processor
-- that runs, `Kernel` has `Sched`, the tick counter and the two pools of kern/sync. A call that
-- switches the context is cut at the switch: `thread_sleep` ends there, and `thread_sleep_resumed` is
-- what it does when its thread runs again; `waitobj_wait` and `waitobj_wait_resumed` likewise.
-- Pointers to pool entries are indices; a channel is the address of a wait object. A wait object's
-- list is walked on fuel of one more than the entries of the pool (33), which a list without
-- repetition cannot use up; the loops over the tables are recursions on the rounds left.
--
-- Not modelled: the assembly of the context switch and of the trap entry, page tables and page
-- faults (kern/vmm and kern/proc, which are called, are not in the repository), `trap`, the calls that
-- start a process, print, read a line, list a directory or print its path, devices but the console,
-- the buffer cache behind its interface (buffers are never all in use, and no two threads use one
-- buffer at a time), mkfs, the loader and the start of the kernel, the debug variants of the
-- spinlocks, and, except for the spinlock itself, steps of other processors between those of a call.
pub mod Base
pub mod Links
pub mod Spinlock
pub mod Thread
pub mod Waitobj
pub mod Pmm
pub mod Trap
pub mod Ipc
pub mod Strings
pub mod Bits
pub mod Fs
pub mod Dev
