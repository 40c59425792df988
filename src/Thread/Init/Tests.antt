-- ===== src/Thread/Init/Tests.antt =====
-- Start-up from tables that are in use, with the number 5 where `tcb_init_at_id` looks for a thread.
use advanced_synchronization.Base.{arith, Returns}
use advanced_synchronization.Thread.Scheduler.Tests.{tables}
use advanced_synchronization.Thread.Init.{thread_init}
use advanced_synchronization.Thread.Init.Start.{Started, thread_init-Started}

thread_init-Started_example :
    Returns (λ _ s'. Started (λ _. 5) tables s') (thread_init (λ _. 5) tables)
thread_init-Started_example = thread_init-Started (λ _. 5) tables (λ a l. omega arith)
