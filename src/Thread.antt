-- ===== src/Thread.antt =====
-- kern/thread: thread control blocks, thread queues, the scheduler.
pub mod Tcb
pub mod Spawn
pub mod Init
pub mod Queue
pub mod Scheduler
